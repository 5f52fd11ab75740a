-- ===== src/Verification/Commit.antt =====
-- `verify_commit` of src/unigrok_public/mission/verify.py.
pub mod Accepted
use grok_mcp_server.Base.{
  ℕ, Option, none, some, List, [], ◌∷◌, ◌++◌, Bool, true, false, not, ◌&&◌, ◌||◌, ltb, leb, ◌==◌,
  if◌then◌else◌, length, take, any, is_some,
}
use grok_mcp_server.Base.Tables.{select_where}
use grok_mcp_server.Base.Texts.{Text, codes, text_eq, is_empty, is_infix}
use grok_mcp_server.Missions.Status.{MissionStatus, verifying, has_status}
use grok_mcp_server.Verification.Python.{
  Value, truth, text, arr, obj, Items, nil, cons, Fields, end, field, Python, Patterns,
}
use grok_mcp_server.Verification.TaskClass.{
  TaskClass, literal, echo_ok, receipt, substantial, adversarial, VerificationMode,
  independent_evidence, is_literal_class, Switches, assign_task_class, assign_verification_mode,
  literal_commit_ready,
}
use grok_mcp_server.Verification.TaskClass
use grok_mcp_server.Verification.Evidence.{
  EvidenceClass, structural, class_text, get_field, class_of, is_structural, is_human,
  EvidencePolicy, allows, candidate_is_forbidden_evidence,
}
use grok_mcp_server.Verification.Gaps.{
  Gap, invalid_frozen_task_class, invalid_frozen_verification_mode, status_not_verifying,
  stale_lease_generation, security_veto, qa_veto, candidate_hash_mismatch, self_evidence_forbidden,
  invalid_evidence_record, insufficient_evidence, human_approval_required, evidence_class_denied,
  when, Reading, structural_gaps, literal_gaps, dedupe,
}

-- A control that a mission froze: not given, one of the known values, or another text.
pub data FrozenControl (A : Type 0) : Type 0 where
  absent invalid : FrozenControl A
  given : A → FrozenControl A

pub record VerifyInput : Type 0 where
  pub candidate_text : Text
  pub candidate_hash : Text
  pub acceptance_text : Text
  pub task_text : Text
  pub evidence_records : List Value
  pub policy : EvidencePolicy
  pub lease_generation : ℕ
  pub expected_lease_generation : ℕ
  pub status : MissionStatus
  pub destructive : Bool
  pub security_veto : Bool
  pub qa_veto : Bool
  pub frozen_task_class : FrozenControl TaskClass
  pub frozen_verification_mode : FrozenControl VerificationMode
  pub candidate_artifact_refs : List Text

pub record VerifyResult : Type 0 where
  pub ok : Bool
  pub gaps : List Gap
  pub structural_record : Option Value
  pub task_class : TaskClass
  pub verification_mode : VerificationMode

-- What the verifier is given by the rest of the process: the switches, the analysis of a candidate
-- against an acceptance, and the texts of the labels in a structural payload.
pub record Host : Type 0 where
  pub py : Python
  pub re : Patterns
  pub switches : Switches
  pub reading : (acceptance candidate : Text) → Reading
  pub gap_text : Gap → Text
  pub class_label : TaskClass → Text
  pub mode_label : VerificationMode → Text

abbrev pub is_invalid : {A : Type 0} → FrozenControl A → Bool
is_invalid invalid = true
is_invalid _ = false

abbrev pub is_object : Value → Bool
is_object (obj fs) = true
is_object _ = false

abbrev pub class_of_record : Value → EvidenceClass
class_of_record (obj fs) = class_of fs
class_of_record _ = EvidenceClass.unlisted

abbrev pub payload_of : Value → Option Value
payload_of (obj fs) = get_field (codes "payload") fs
payload_of _ = none

abbrev pub is_independent : VerificationMode → Bool
is_independent independent_evidence = true
is_independent _ = false

module _ (host : Host) where
  -- `sealed_content_hash` of src/unigrok_public/mission/artifacts.py
  unfoldable pub sealed_content_hash : (kind raw : Text) → Text
  sealed_content_hash kind raw = host.py.sha256 (kind ++ 10 ∷ host.py.utf8 raw)

  unfoldable pub record_digest : Value → Text
  record_digest v = host.py.sha256 (host.py.utf8 (host.py.canonical_dumps v))

  unfoldable pub task_class_of : VerifyInput → TaskClass
  task_class_of i = elim i.frozen_task_class [
    | given klass ↦ klass
    | absent ↦ assign_task_class host.py host.re host.switches i.task_text i.acceptance_text
    | invalid ↦ assign_task_class host.py host.re host.switches i.task_text i.acceptance_text
  ]

  -- An invalid frozen mode asks for independent evidence.
  unfoldable pub verification_mode_of : VerifyInput → VerificationMode
  verification_mode_of i = elim i.frozen_verification_mode [
    | given mode ↦ mode
    | absent ↦ assign_verification_mode host.py host.re i.task_text i.acceptance_text i.destructive
    | invalid ↦ independent_evidence
  ]

  unfoldable pub expected_token : VerifyInput → Option Text
  expected_token i =
      (literal_commit_ready host.py host.re host.switches i.task_text i.acceptance_text
        i.candidate_text (task_class_of i)).1

  unfoldable pub matched : VerifyInput → Bool
  matched i =
      (literal_commit_ready host.py host.re host.switches i.task_text i.acceptance_text
        i.candidate_text (task_class_of i)).0

  unfoldable pub is_literal_path : VerifyInput → Bool
  is_literal_path i = is_literal_class (task_class_of i) && is_some (expected_token i)

  unfoldable pub text_gaps : VerifyInput → List Gap
  text_gaps i =
      let r = host.reading i.acceptance_text i.candidate_text in
      if is_literal_path i
      then literal_gaps host.py host.re r i.candidate_text (expected_token i)
      else structural_gaps r

  abbrev pub gap_items : List Gap → Items
  gap_items [] = nil
  gap_items (g ∷ gs) = cons (text (host.gap_text g)) (gap_items gs)

  abbrev pub expected_text : Option Text → Text
  expected_text none = []
  expected_text (some t) = t

  abbrev pub match_fields : VerifyInput → Fields
  match_fields i =
      if is_literal_path i && (matched i && is_empty (text_gaps i))
      then field (codes "literal_match") (truth true) (
          field (codes "expected_token_hash")
            (text (
              record_digest
                (obj (field (codes "expected") (text (expected_text (expected_token i))) end))))
            end)
      else end

  -- Observations of the verifier, never the answer's body.
  unfoldable pub structural_payload : VerifyInput → Value
  structural_payload i = obj (
      field (codes "class") (text (class_text structural)) (
        field (codes "source") (text (codes "deterministic_verifier")) (
          field (codes "candidate_hash") (text i.candidate_hash) (
            field (codes "structural_gaps") (arr (gap_items (text_gaps i))) (
              field (codes "checks_passed") (truth (is_empty (text_gaps i))) (
                field (codes "task_class") (text (host.class_label (task_class_of i))) (
                  field (codes "verification_mode")
                    (text (host.mode_label (verification_mode_of i))) (match_fields i))))))))

  unfoldable pub structural_record_of : VerifyInput → Value
  structural_record_of i = obj (
      field (codes "class") (text (class_text structural)) (
        field (codes "digest") (text (record_digest (structural_payload i))) (
          field (codes "payload") (structural_payload i)
            (field (codes "artifact_refs") (arr (cons (text i.candidate_hash) nil)) end))))

  -- A payload that carries the beginning of a long candidate.
  abbrev pub smuggles : VerifyInput → Option Value → Bool
  smuggles i (some (obj fs)) =
      leb 40 (length i.candidate_text)
      && is_infix (take 40 i.candidate_text) (host.py.dumps (obj fs))
  smuggles i _ = false

  abbrev pub is_smuggled : VerifyInput → Value → Bool
  is_smuggled i v = smuggles i (payload_of v)

  unfoldable pub smuggling_gaps : VerifyInput → List Value → List Gap
  smuggling_gaps i [] = []
  smuggling_gaps i (v ∷ vs) = when (is_smuggled i v) self_evidence_forbidden ++ smuggling_gaps i vs

  -- The verifier's own record counts when the text passed.
  unfoldable pub records_of : VerifyInput → List Value
  records_of i =
      if is_empty (text_gaps i)
      then i.evidence_records ++ structural_record_of i ∷ []
      else i.evidence_records

  unfoldable pub is_forbidden : VerifyInput → Value → Bool
  is_forbidden i v =
      candidate_is_forbidden_evidence host.py.casefold v
        (i.candidate_hash ∷ i.candidate_artifact_refs)

  -- `klass`, the class as the record names it.
  abbrev pub class_name : Option Value → Text
  class_name none = []
  class_name (some (text t)) = t
  class_name (some v) = host.py.shown v

  abbrev pub named_class : Value → Text
  named_class (obj fs) = class_name (get_field (codes "class") fs)
  named_class _ = []

  unfoldable pub record_gaps : VerifyInput → List Value → List Gap
  record_gaps i [] = []
  record_gaps i (v ∷ vs) =
      (if is_object v
        then when (is_forbidden i v) self_evidence_forbidden
          ++ when (not (allows i.policy (class_of_record v)))
              (evidence_class_denied (named_class v))
        else invalid_evidence_record ∷ [])
      ++ record_gaps i vs

  abbrev pub is_acceptable : VerifyInput → Value → Bool
  is_acceptable i v = is_object v && (allows i.policy (class_of_record v) && not (is_forbidden i v))

  unfoldable pub acceptable : VerifyInput → List Value
  acceptable i = select_where (is_acceptable i) (records_of i)

  abbrev pub has_independent : VerifyInput → Bool
  has_independent i = any (λ v. not (is_structural (class_of_record v))) (acceptable i)

  unfoldable pub is_insufficient : VerifyInput → Bool
  is_insufficient i =
      ltb (length (acceptable i)) i.policy.min_records
      || (is_independent (verification_mode_of i) && not (has_independent i))

  abbrev pub lacks_human : VerifyInput → Bool
  lacks_human i =
      i.destructive
      && (i.policy.require_human_for_destructive
          && not (any (λ v. is_human (class_of_record v)) (acceptable i)))

  -- All gaps, in the order in which they are found.
  unfoldable pub all_gaps : VerifyInput → List Gap
  all_gaps i =
      when (is_invalid i.frozen_task_class) invalid_frozen_task_class
      ++ (when (is_invalid i.frozen_verification_mode) invalid_frozen_verification_mode
          ++ (when (not (has_status i.status verifying)) status_not_verifying
              ++ (when (not (i.lease_generation == i.expected_lease_generation))
                    stale_lease_generation
                  ++ (when i.security_veto security_veto
                      ++ (when i.qa_veto qa_veto
                          ++ (when
                                (not (
                                  text_eq (sealed_content_hash (codes "candidate") i.candidate_text)
                                    i.candidate_hash))
                                candidate_hash_mismatch
                              ++ (text_gaps i
                                  ++ (smuggling_gaps i i.evidence_records
                                      ++ (record_gaps i (records_of i)
                                          ++ (when
                                                (is_insufficient i
                                                  && not (
                                                      is_literal_path i
                                                      && not (is_empty (text_gaps i))))
                                                insufficient_evidence
                                              ++ when (lacks_human i)
                                                  human_approval_required))))))))))

  unfoldable pub verify_commit : VerifyInput → VerifyResult
  verify_commit i =
      let gaps = dedupe [] (all_gaps i) in
      record {
        ok = is_empty gaps;
        gaps = gaps;
        structural_record = if is_empty (text_gaps i) then some (structural_record_of i) else none;
        task_class = task_class_of i;
        verification_mode = verification_mode_of i;
      }
