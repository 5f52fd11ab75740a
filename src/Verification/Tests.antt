-- ===== src/Verification/Tests.antt =====
-- A small host for the verifier, and the theorems at it.
use grok_mcp_server.Base.{◌≡◌, ◌↔◌, refl, [], ◌∷◌, true, false}
use grok_mcp_server.Base.Texts.{codes}
use grok_mcp_server.Missions.Status.{verifying}
use grok_mcp_server.Verification.Python.{Value, text, obj, end, field, Python, Patterns}
use grok_mcp_server.Verification.TaskClass.{
  substantial, Switches, normalize_extracted_token, usable_literal_token, literal_in,
  extract_literal_acceptance, matches_literal, dual_intent_work, token_class, assign_task_class,
  assign_verification_mode, literal_commit_ready,
}
use grok_mcp_server.Verification.TaskClass
use grok_mcp_server.Verification.Evidence.{
  class_of_text, contains_candidate, contains_items, contains_fields, allows, default_agent_policy,
  from_dict, candidate_is_forbidden_evidence,
}
use grok_mcp_server.Verification.Gaps.{
  Reading, checklist_gate, structural_gaps, literal_gaps, should_terminal_fail,
}
use grok_mcp_server.Verification.Commit.{
  given, VerifyInput, Host, sealed_content_hash, record_digest, task_class_of, verification_mode_of,
  expected_token, matched, is_literal_path, text_gaps, structural_payload, structural_record_of,
  smuggling_gaps, records_of, is_forbidden, record_gaps, acceptable, is_insufficient, all_gaps,
  verify_commit,
}
use grok_mcp_server.Verification.Commit.Accepted.{Accepted, verify_commit_iff}

-- The program with every function open.
unfoldable pub verified_program : Unit {0}
unfolding contains_candidate contains_items contains_fields normalize_extracted_token
    usable_literal_token literal_in extract_literal_acceptance matches_literal dual_intent_work
    token_class assign_task_class assign_verification_mode literal_commit_ready class_of_text allows
    default_agent_policy from_dict candidate_is_forbidden_evidence checklist_gate structural_gaps
    literal_gaps should_terminal_fail sealed_content_hash record_digest task_class_of
    verification_mode_of expected_token matched is_literal_path text_gaps structural_payload
    structural_record_of smuggling_gaps records_of is_forbidden record_gaps acceptable
    is_insufficient all_gaps verify_commit
verified_program = tt

abbrev pub sample_python : Python
sample_python = record {
  strip = λ t. t;
  lower = λ t. t;
  casefold = λ t. t;
  split = λ t. t ∷ [];
  splitlines = λ t. t ∷ [];
  isupper = λ t. false;
  isdigit = λ c. false;
  decimal = λ n. n ∷ [];
  shown = λ v. [];
  dumps = λ v. [];
  canonical_dumps = λ v. [];
  sha256 = λ t. 35 ∷ t;
  utf8 = λ t. t;
}

abbrev pub sample_patterns : Patterns
sample_patterns = record {
  structure = λ t. false;
  adversarial = λ t. false;
  receipt = λ t. false;
  work_cue = λ t. false;
  informational_proof = λ t. false;
  proof_action = λ t. false;
  test_outcome = λ t. false;
  runtime_outcome = λ t. false;
  explicit_evidence = λ t. false;
  reply_with = λ t. false;
  exact_phrase = λ t. false;
  reply_tokens = λ t. [];
  return_tokens = λ t. [];
  without_phrases = λ t. t;
  strip_quotes = λ t. t;
  strip_marks = λ t. t;
}

-- The analysis of an answer that has nothing wrong.
abbrev pub sample_reading : Reading
sample_reading = record {
  answer_empty = false;
  nonanswer = false;
  words = 30;
  characters = 200;
  wants_checklist = false;
  items = 0;
  terms = [];
  has_term = λ t. true;
}

abbrev pub sample_host : Host
sample_host = record {
  py = sample_python;
  re = sample_patterns;
  switches = record { task_class_enabled = true; literal_verify_enabled = true };
  reading = λ acceptance candidate. sample_reading;
  gap_text = λ g. [];
  class_label = λ k. [];
  mode_label = λ m. [];
}

-- Evidence of the caller that carries the whole answer, which is shorter than 40 characters.
abbrev echo : Value
echo = obj (
    field (codes "class") (text (codes "caller_evidence"))
      (field (codes "payload") (obj (field (codes "answer") (text (codes "done")) end)) end))

abbrev sample_input : VerifyInput
sample_input = record {
  candidate_text = codes "done";
  candidate_hash = sealed_content_hash sample_host (codes "candidate") (codes "done");
  acceptance_text = codes "do it";
  task_text = codes "do it";
  evidence_records = echo ∷ [];
  policy = default_agent_policy;
  lease_generation = 4;
  expected_lease_generation = 4;
  status = verifying;
  destructive = false;
  security_veto = false;
  qa_veto = false;
  frozen_task_class = given substantial;
  frozen_verification_mode = given TaskClass.structural;
  candidate_artifact_refs = codes "ref" ∷ [];
}

-- The verifier accepts the answer, on its own structural record and on the caller's.
accepts : (verify_commit sample_host sample_input).ok ≡ true
unfolding verified_program
accepts = refl

verify_commit_iff_example :
    ((verify_commit sample_host sample_input).ok ≡ true) ↔ Accepted sample_host sample_input
verify_commit_iff_example = verify_commit_iff sample_host sample_input
