-- ===== src/Verification/Gaps.antt =====
-- The gaps that keep a candidate from being committed (src/unigrok_public/mission/verify.py): the
-- structural gates on its text, and whether a mission has failed for good.
use grok_mcp_server.Base.{
  ℕ, ◌/◌, max, Option, none, some, List, [], ◌∷◌, ◌++◌, Bool, true, false, not, ◌&&◌, ltb, leb,
  ◌==◌, if◌then◌else◌, length, any,
}
use grok_mcp_server.Base.Tables.{count_where}
use grok_mcp_server.Base.Texts.{Text, codes, text_eq, is_empty, member}
use grok_mcp_server.Verification.Python.{Python, Patterns}
use grok_mcp_server.Verification.TaskClass.{TaskClass, is_literal_class, matches_literal}

pub data Gap : Type 0 where
  invalid_frozen_task_class invalid_frozen_verification_mode status_not_verifying : Gap
  stale_lease_generation security_veto qa_veto candidate_hash_mismatch : Gap
  empty_answer nonanswer_completion answer_too_short checklist_too_short : Gap
  missing_key_term token_echo literal_expected_missing literal_mismatch : Gap
  self_evidence_forbidden invalid_evidence_record insufficient_evidence : Gap
  human_approval_required : Gap
  checklist_too_thin : ℕ → Gap
  acceptance_coverage : (hit need : ℕ) → Gap
  -- The denied class as the record names it, which may be none of the four.
  evidence_class_denied : Text → Gap

abbrev pub when : Bool → Gap → List Gap
when true g = g ∷ []
when false g = []

-- What the text analysis of `_structural_gaps` reads off a candidate and an acceptance: regular
-- expressions and splitting are Python's.
pub record Reading : Type 0 where
  pub answer_empty : Bool
  -- `is_nonanswer_completion` of src/unigrok_public/harness.py
  pub nonanswer : Bool
  pub words : ℕ
  pub characters : ℕ
  -- `"checklist" in acceptance_l or "steps" in acceptance_l`
  pub wants_checklist : Bool
  -- `_checklist_item_count`
  pub items : ℕ
  -- `_significant_terms`, and whether the answer has a term
  pub terms : List Text
  pub has_term : Text → Bool

abbrev pub filler_words : List Text
filler_words =
    codes "return"
    ∷ codes "provide"
    ∷ codes "include"
    ∷ codes "including"
    ∷ codes "with"
    ∷ codes "the"
    ∷ codes "and"
    ∷ codes "for"
    ∷ codes "from"
    ∷ codes "that"
    ∷ codes "this"
    ∷ codes "your"
    ∷ codes "into"
    ∷ []

abbrev pub is_distinctive : Text → Bool
is_distinctive t = not (member t filler_words)

abbrev pub misses_key_term : Reading → Bool
misses_key_term r =
    any is_distinctive r.terms && not (any (λ t. is_distinctive t && r.has_term t) r.terms)

-- The gaps of the checklist gate, and whether it lets the coverage gate pass.
unfoldable pub checklist_gate : Reading → List Gap × Bool
checklist_gate r =
    if not r.wants_checklist
    then ([], false)
    else if ltb r.items 3
    then (checklist_too_thin r.items ∷ [], false)
    else if ltb r.characters 80
    then (checklist_too_short ∷ [], false)
    else if misses_key_term r
    then (missing_key_term ∷ [], false)
    else ([], true)

abbrev pub needed_terms : ℕ → ℕ
needed_terms terms = if leb 8 terms then max 3 (terms / 5) else if leb 5 terms then 2 else 0

unfoldable pub coverage_gate : Reading → List Gap
coverage_gate r =
    let hit = count_where r.has_term r.terms in
    let need = needed_terms (length r.terms) in
    when (ltb 0 need && ltb hit need) (acceptance_coverage hit need)
    ++ when (leb r.words 2 && leb 3 (length r.terms)) token_echo

unfoldable pub structural_gaps : Reading → List Gap
structural_gaps r =
    let gate = checklist_gate r in
    when r.answer_empty empty_answer
    ++ (when (not r.answer_empty && r.nonanswer) nonanswer_completion
        ++ (when (not r.answer_empty && ltb r.words 8) answer_too_short
            ++ (gate.0
                ++ (if not (is_empty r.terms) && (not r.answer_empty && not gate.1)
                    then coverage_gate r
                    else []))))

-- `_literal_gaps`: empty, non-answer or mismatch only.
unfoldable pub literal_gaps :
    Python → Patterns → Reading → (candidate : Text) → (expected : Option Text) → List Gap
literal_gaps py re r candidate expected =
    if r.answer_empty
    then empty_answer ∷ []
    else if r.nonanswer
    then nonanswer_completion ∷ []
    else elim expected [
      | none ↦ literal_expected_missing ∷ []
      | some token ↦
          if is_empty token
          then literal_expected_missing ∷ []
          else when (not (matches_literal py re (py.strip candidate) token)) literal_mismatch
    ]

abbrev pub gap_code : Gap → ℕ
gap_code invalid_frozen_task_class = 0
gap_code invalid_frozen_verification_mode = 1
gap_code status_not_verifying = 2
gap_code stale_lease_generation = 3
gap_code security_veto = 4
gap_code qa_veto = 5
gap_code candidate_hash_mismatch = 6
gap_code empty_answer = 7
gap_code nonanswer_completion = 8
gap_code answer_too_short = 9
gap_code checklist_too_short = 10
gap_code missing_key_term = 11
gap_code token_echo = 12
gap_code literal_expected_missing = 13
gap_code literal_mismatch = 14
gap_code self_evidence_forbidden = 15
gap_code invalid_evidence_record = 16
gap_code insufficient_evidence = 17
gap_code human_approval_required = 18
gap_code (checklist_too_thin n) = 19
gap_code (acceptance_coverage hit need) = 20
gap_code (evidence_class_denied k) = 21

abbrev pub gap_eq : Gap → Gap → Bool
gap_eq (checklist_too_thin m) (checklist_too_thin n) = m == n
gap_eq (acceptance_coverage h n) (acceptance_coverage h' n') = h == h' && n == n'
gap_eq (evidence_class_denied k) (evidence_class_denied k') = text_eq k k'
gap_eq g g' = gap_code g == gap_code g'

-- The gaps in order, each once: `seen` are those that came before.
abbrev pub dedupe : (seen gaps : List Gap) → List Gap
dedupe seen [] = []
dedupe seen (g ∷ gs) =
    let rest = dedupe (g ∷ seen) gs in if any (gap_eq g) seen then rest else g ∷ rest

-- What the checkpoint remembers of the last verification.
pub record LastVerify : Type 0 where
  pub gaps : List Gap
  pub candidate_hash : Text

abbrev pub is_same_mismatch : Text → Option LastVerify → Bool
is_same_mismatch hash none = false
is_same_mismatch hash (some last) =
    any (gap_eq literal_mismatch) last.gaps
    && (not (is_empty last.candidate_hash) && text_eq last.candidate_hash hash)

unfoldable pub should_terminal_fail :
    List Gap
    → TaskClass
    → (candidate_hash : Text) → (prior_verify_failures : ℕ) → Option LastVerify
    → Bool
should_terminal_fail gaps klass hash prior last =
    if any (gap_eq literal_expected_missing) gaps
    then true
    else if not (is_literal_class klass)
    then false
    else if not (any (gap_eq literal_mismatch) gaps)
    then false
    else if is_same_mismatch hash last
    then true
    else leb 1 prior
