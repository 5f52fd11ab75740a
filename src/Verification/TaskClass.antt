-- ===== src/Verification/TaskClass.antt =====
-- src/unigrok_public/mission/task_class.py

use grok_mcp_server.Base.{
  Option, none, some, List, [], ◌∷◌, ◌++◌, Bool, true, false, not, ◌&&◌, ◌||◌, leb, ◌==◌,
  if◌then◌else◌, length, any,
}
use grok_mcp_server.Base.Texts.{Text, codes, text_eq, is_empty, member}
use grok_mcp_server.Verification.Python.{Python, Patterns}

pub data TaskClass : Type 0 where
  literal echo_ok receipt substantial adversarial : TaskClass

pub data VerificationMode : Type 0 where
  structural independent_evidence : VerificationMode

abbrev pub is_literal_class : TaskClass → Bool
is_literal_class literal = true
is_literal_class echo_ok = true
is_literal_class _ = false

-- The switches UNIGROK_TASK_CLASS and UNIGROK_VERIFY_LITERAL.
pub record Switches : Type 0 where
  pub task_class_enabled : Bool
  pub literal_verify_enabled : Bool

abbrev pub stop_words : List Text
stop_words =
    codes "a"
    ∷ codes "an"
    ∷ codes "the"
    ∷ codes "with"
    ∷ codes "exactly"
    ∷ codes "reply"
    ∷ codes "respond"
    ∷ codes "answer"
    ∷ codes "return"
    ∷ codes "output"
    ∷ codes "print"
    ∷ codes "say"
    ∷ codes "string"
    ∷ codes "token"
    ∷ codes "text"
    ∷ codes "word"
    ∷ []

abbrev pub last_line : List Text → Text
last_line [] = []
last_line (l ∷ []) = l
last_line (l ∷ m ∷ ls) = last_line (m ∷ ls)

module _ (py : Python) (re : Patterns) where
  unfoldable pub normalize_extracted_token : Text → Text
  normalize_extracted_token raw = re.strip_marks (re.strip_quotes (py.strip raw))

  -- `token.isupper() or "_" in token or any(ch.isdigit() for ch in token)`
  abbrev pub is_status_like : Text → Bool
  is_status_like token = py.isupper token || (any (λ c. c == b'_') token || any py.isdigit token)

  unfoldable pub usable_literal_token : (command_framed : Bool) → Text → Bool
  usable_literal_token command_framed raw =
      let token = normalize_extracted_token raw in
      if is_empty token || not (leb (length token) 128)
      then false
      else if member (py.lower token) stop_words
      then false
      else command_framed || is_status_like token

  -- The first token of the matches that may be used.
  abbrev pub first_usable : List Text → Option Text
  first_usable [] = none
  first_usable (raw ∷ raws) =
      let token = normalize_extracted_token raw in
      let rest = first_usable raws in if usable_literal_token true token then some token else rest

  abbrev pub single_word : List Text → Option Text
  single_word (word ∷ []) =
      let token = normalize_extracted_token word in
      if usable_literal_token false token then some token else none
  single_word _ = none

  abbrev pub or_else : Option Text → Option Text → Option Text
  or_else none b = b
  or_else (some a) b = some a

  -- What one text asks for.
  unfoldable pub literal_in : Text → Option Text
  literal_in t =
      let cleaned = py.strip t in
      if is_empty cleaned || re.structure cleaned
      then none
      else or_else (first_usable (re.reply_tokens cleaned ++ re.return_tokens cleaned))
          (single_word (py.split cleaned))

  unfoldable pub extract_literal_acceptance : List Text → Option Text
  extract_literal_acceptance [] = none
  extract_literal_acceptance (t ∷ ts) = or_else (literal_in t) (extract_literal_acceptance ts)

  abbrev pub nonempty : List Text → List Text
  nonempty [] = []
  nonempty (l ∷ ls) = if is_empty l then nonempty ls else l ∷ nonempty ls

  abbrev pub stripped : List Text → List Text
  stripped [] = []
  stripped (l ∷ ls) = py.strip l ∷ stripped ls

  unfoldable pub matches_literal : (candidate expected : Text) → Bool
  matches_literal candidate expected =
      let right = normalize_extracted_token expected in
      let left = py.strip candidate in
      let lines = nonempty (stripped (py.splitlines left)) in
      if is_empty right
      then false
      else if is_empty left
      then false
      else text_eq left right || (leb 2 (length lines) && text_eq (last_line lines) right)

  unfoldable pub dual_intent_work : Text → Bool
  dual_intent_work t =
      let cleaned = py.strip t in
      let rest = re.without_phrases cleaned in
      if is_empty cleaned then false else re.work_cue rest || leb 8 (length (py.split rest))

  -- `f"{task}\n{acceptance}".strip()`
  abbrev pub combined_text : (task acceptance : Text) → Text
  combined_text task acceptance = py.strip (task ++ 10 ∷ acceptance)

  -- The class of an acceptance from which a token was extracted.
  unfoldable pub token_class : (task acceptance combined : Text) → TaskClass
  token_class task acceptance combined =
      if dual_intent_work acceptance || dual_intent_work task
      then substantial
      else if re.exact_phrase combined
      then literal
      else if re.reply_with combined || leb (length (py.split acceptance)) 3
      then echo_ok
      else literal

  abbrev pub untokened_class : Text → TaskClass
  untokened_class combined = if re.receipt combined then receipt else substantial

  unfoldable pub assign_task_class : Switches → (task acceptance : Text) → TaskClass
  assign_task_class on task acceptance =
      let a = py.strip acceptance in
      let t = py.strip task in
      let combined = combined_text t a in
      if not on.task_class_enabled
      then substantial
      else if is_empty combined
      then substantial
      else if re.structure a || re.structure t
      then (if re.adversarial combined then adversarial else substantial)
      else if re.adversarial combined
      then adversarial
      else elim (extract_literal_acceptance (a ∷ t ∷ [])) [
        | some token ↦ token_class t a combined
        | none ↦ untokened_class combined
      ]

  unfoldable pub assign_verification_mode :
      (task acceptance : Text) → (destructive : Bool) → VerificationMode
  assign_verification_mode task acceptance destructive =
      let combined = combined_text task acceptance in
      if destructive
      then independent_evidence
      else if is_empty combined
      then structural
      else if re.explicit_evidence combined
      then independent_evidence
      else if re.test_outcome combined || re.runtime_outcome combined
      then independent_evidence
      else if re.proof_action combined && not (re.informational_proof combined)
      then independent_evidence
      else structural

  -- Whether the candidate matches, and the token that it had to match. The class is given, so that
  -- it is also the class that is returned.
  unfoldable pub literal_commit_ready :
      Switches → (task acceptance candidate : Text) → TaskClass → Bool × Option Text
  literal_commit_ready on task acceptance candidate klass =
      if not on.literal_verify_enabled
      then (false, none)
      else if not (is_literal_class klass)
      then (false, none)
      else elim (extract_literal_acceptance (acceptance ∷ task ∷ [])) [
        | none ↦ (false, none)
        | some expected ↦ (matches_literal candidate expected, some expected)
      ]
