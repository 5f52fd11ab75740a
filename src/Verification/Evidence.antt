-- ===== src/Verification/Evidence.antt =====
-- src/unigrok_public/mission/evidence.py
use grok_mcp_server.Base.{
  ℕ, max, Option, none, some, List, [], ◌∷◌, Bool, true, false, ◌&&◌, ◌||◌, if◌then◌else◌, any,
}
use grok_mcp_server.Base.Texts.{Text, codes, text_eq, is_empty, is_infix}
use grok_mcp_server.Verification.Python.{
  Value, null, truth, number, text, arr, obj, Items, nil, cons, Fields, end, field,
}

-- The class of a record; `unlisted` is a text that is none of the four.
pub data EvidenceClass : Type 0 where
  structural runtime_observation caller_evidence human_approval unlisted : EvidenceClass

abbrev pub class_text : EvidenceClass → Text
class_text structural = codes "structural"
class_text runtime_observation = codes "runtime_observation"
class_text caller_evidence = codes "caller_evidence"
class_text human_approval = codes "human_approval"
class_text unlisted = []

unfoldable pub class_of_text : Text → EvidenceClass
class_of_text t =
    if text_eq t (class_text structural)
    then structural
    else if text_eq t (class_text runtime_observation)
    then runtime_observation
    else if text_eq t (class_text caller_evidence)
    then caller_evidence
    else if text_eq t (class_text human_approval)
    then human_approval
    else unlisted

-- `record.get(key)`
abbrev pub get_field : Text → Fields → Option Value
get_field key end = none
get_field key (field k v fs) = if text_eq k key then some v else get_field key fs

abbrev pub class_of_value : Option Value → EvidenceClass
class_of_value (some (text t)) = class_of_text t
class_of_value _ = unlisted

-- `str(record.get("class") or "")`
abbrev pub class_of : Fields → EvidenceClass
class_of fs = class_of_value (get_field (codes "class") fs)

abbrev pub is_listed : EvidenceClass → Bool
is_listed unlisted = false
is_listed _ = true

abbrev pub is_structural : EvidenceClass → Bool
is_structural structural = true
is_structural _ = false

abbrev pub is_human : EvidenceClass → Bool
is_human human_approval = true
is_human _ = false

pub record EvidencePolicy : Type 0 where
  pub allowed_classes : EvidenceClass → Bool
  pub require_human_for_destructive : Bool
  pub min_records : ℕ

unfoldable pub allows : EvidencePolicy → EvidenceClass → Bool
allows p k = p.allowed_classes k && is_listed k

unfoldable pub default_agent_policy : EvidencePolicy
default_agent_policy = record {
  allowed_classes = is_listed;
  require_human_for_destructive = true;
  min_records = 1;
}

abbrev pub class_eq : EvidenceClass → EvidenceClass → Bool
class_eq structural structural = true
class_eq runtime_observation runtime_observation = true
class_eq caller_evidence caller_evidence = true
class_eq human_approval human_approval = true
class_eq unlisted unlisted = true
class_eq _ _ = false

-- The keys of a stored policy: its classes, and the two settings where they are given.
pub record PolicyData : Type 0 where
  pub allowed_classes : List EvidenceClass
  pub require_human_for_destructive : Option Bool
  pub min_records : Option ℕ

abbrev pub text_evidence : EvidenceClass → Bool
text_evidence k = is_structural k || class_eq k caller_evidence

abbrev pub or_true : Option Bool → Bool
or_true none = true
or_true (some b) = b

abbrev pub or_zero : Option ℕ → ℕ
or_zero none = 0
or_zero (some n) = n

-- `EvidencePolicy.from_dict`
unfoldable pub from_dict : Option PolicyData → EvidencePolicy
unfolding default_agent_policy
from_dict none = default_agent_policy
from_dict (some d) = record {
  allowed_classes = λ k.
      if any is_listed d.allowed_classes
      then any (class_eq k) d.allowed_classes && is_listed k
      else text_evidence k;
  require_human_for_destructive = or_true d.require_human_for_destructive;
  min_records = max 1 (or_zero d.min_records);
}

module _ (casefold : Text → Text) where
  -- Whether a needle stands in any key or text of a value.
  unfoldable mutual
    pub contains_candidate : List Text → Value → Bool
    contains_candidate needles null = false
    contains_candidate needles (truth b) = false
    contains_candidate needles (number n) = false
    contains_candidate needles (text t) = any (λ needle. is_infix needle (casefold t)) needles
    contains_candidate needles (arr xs) = contains_items needles xs
    contains_candidate needles (obj fs) = contains_fields needles fs

    pub contains_items : List Text → Items → Bool
    contains_items needles nil = false
    contains_items needles (cons x xs) = contains_candidate needles x || contains_items needles xs

    pub contains_fields : List Text → Fields → Bool
    contains_fields needles end = false
    contains_fields needles (field k v fs) =
        any (λ needle. is_infix needle (casefold k)) needles
        || (contains_candidate needles v || contains_fields needles fs)

  abbrev pub needles_of : List Text → List Text
  needles_of [] = []
  needles_of (r ∷ rs) = if is_empty r then needles_of rs else casefold r ∷ needles_of rs

  unfoldable pub candidate_is_forbidden_evidence : Value → List Text → Bool
  candidate_is_forbidden_evidence (obj fs) refs =
      if is_empty (needles_of refs)
      then false
      else if is_structural (class_of fs)
      then false
      else contains_fields (needles_of refs) fs
  candidate_is_forbidden_evidence _ refs = false
