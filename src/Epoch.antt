-- ===== src/Epoch.antt =====
-- `seal_mission_epoch` of src/unigrok_public/mission/epoch.py: one worker's run of CommitDone over
-- the mission store, with the calls of other workers between its own.
pub mod Run
pub mod Live
pub mod Committed
pub mod Verdict
pub mod Steps
pub mod Seal
pub mod Tests
use grok_mcp_server.Base.{
  ℕ, min, max, Option, none, some, List, [], ◌∷◌, Bool, true, false, not, ◌&&◌, ◌||◌, ◌==◌,
  if◌then◌else◌, map, is_some,
}
use grok_mcp_server.Base.Texts.{Text, codes, member}
use grok_mcp_server.Missions.Status.{
  MissionStatus, running, verifying, complete, failed, waiting_event, has_status, is_terminal,
}
use grok_mcp_server.Missions.State.{
  Mission, Evidence, Checkpoint, MissionStore, load_mission, text_of,
}
use grok_mcp_server.Missions.Cas.{CasRequest}
use grok_mcp_server.Missions.Records.{NewEvent, NewArtifact, NewEvidence}
use grok_mcp_server.Missions.Calls.{Call}
use grok_mcp_server.Verification.Python.{Value}
use grok_mcp_server.Verification.TaskClass.{TaskClass, VerificationMode}
use grok_mcp_server.Verification.Evidence.{
  EvidencePolicy, PolicyData, from_dict, default_agent_policy,
}
use grok_mcp_server.Verification.Gaps.{Gap, LastVerify}
use grok_mcp_server.Verification.Voters.{Merge, propose_done}
use grok_mcp_server.Verification.Commit.{
  FrozenControl, VerifyInput, VerifyResult, Host, sealed_content_hash,
}

-- What the epoch reads from a mission's package.
pub record PackageView : Type 0 where
  pub lease_ttl_seconds : ℕ
  pub task : Option Text
  pub destructive : Bool
  pub task_class : FrozenControl TaskClass
  pub verification_mode : FrozenControl VerificationMode
  pub evidence_policy : Option PolicyData

-- The documents that the store keeps as texts, which are numbers here: how the epoch writes and
-- reads them (JSON and the redaction of what is stored).
pub record Codec : Type 0 where
  pub text_id : Text → ℕ
  pub package_view : Mission → PackageView
  pub value_of : Evidence → Value
  pub projection : Text → Text
  pub projection_kind : ℕ → Text
  pub billing : Mission → ℕ
  pub check : VerifyResult → ℕ
  pub check_with_hash : VerifyResult → Text → ℕ
  pub record_text : Option Value → ℕ
  pub record_digest : Option Value → ℕ
  pub last_verify : Checkpoint → Option LastVerify
  pub artifact_kind : ℕ → ℕ
  pub label : Text → ℕ
  pub votes : Merge → ℕ
  pub voter_roles : Mission → List Text

-- The arguments of `seal_mission_epoch`, with the text of the result.
pub record Quantum : Type 0 where
  pub mission_id : ℕ
  pub acceptance_text : Text
  pub candidate : Text
  pub lease_generation : ℕ
  pub lease_token : Option ℕ
  pub envelope_version : ℕ
  pub shadow_cognition : Bool

-- How the epoch ends, by the envelope that it returns.
pub data Outcome : Type 0 where
  missing raised committed failed_done : Outcome
  durable : Mission → Outcome
  lease_lost cas_verifying_failed : Outcome
  conflict : List Gap → Outcome
  continued : List Gap → (waiting : Bool) → Outcome

-- What the epoch derives from the mission as it first reads it: the text of its task and the merge
-- of the voters' cards.
pub record Opening : Type 0 where
  pub task_text : Text
  pub council : Merge

-- What stands for the merge where no cards are drawn.
abbrev pub no_cards : Merge
no_cards = record {
  action = propose_done;
  hard_veto = false;
  veto_roles = [];
  reasons = [];
  votes = none;
}

-- The merge of the cards, which are drawn when cognition is in the shadow.
abbrev pub merge_of : (shadow : Bool) → (council : Merge) → Merge
merge_of shadow council = if shadow then council else no_cards

-- Cognition in the shadow has no veto.
unfoldable pub live_veto : (shadow : Bool) → (council : Merge) → Bool
live_veto shadow council = (merge_of shadow council).hard_veto && not shadow

-- `str(lease_token or mission.get("lease_token") or "")`
unfoldable pub worker_token_of : Quantum → Mission → ℕ
worker_token_of q m =
    if text_of q.lease_token == 0 then text_of m.lease_token else text_of q.lease_token

-- The mission is still the worker's.
unfoldable pub is_worker_of : (generation token : ℕ) → Mission → Bool
is_worker_of generation token m = m.lease_generation == generation && text_of m.lease_token == token

abbrev pub or_row : Option Mission → Mission → Mission
or_row none m = m
or_row (some m') m = m'

abbrev pub or_text : Option Text → Text → Text
or_text none t = t
or_text (some []) t = t
or_text (some (c ∷ s)) t = c ∷ s

abbrev pub policy_of : PackageView → EvidencePolicy
policy_of p = elim p.evidence_policy [ none ↦ default_agent_policy | some d ↦ from_dict (some d) ]

-- The keys of the checkpoint that the epoch writes.
abbrev pub billing_key : ℕ
billing_key = 1

abbrev pub candidate_key : ℕ
candidate_key = 2

abbrev pub projection_key : ℕ
projection_key = 3

abbrev pub verify_key : ℕ
verify_key = 4

abbrev pub reason_key : ℕ
reason_key = 5

module _ (host : Host) (codec : Codec) (q : Quantum) (token : ℕ) (opening : Opening) where
  -- `max(30, min(ttl, 900))`
  abbrev pub lease_ttl : Mission → ℕ
  lease_ttl m = max 30 (min (codec.package_view m).lease_ttl_seconds 900)

  abbrev pub digest : Text
  digest = sealed_content_hash host (codes "candidate") q.candidate

  abbrev pub projection_digest : Text
  projection_digest =
      sealed_content_hash host (codec.projection_kind q.mission_id) (codec.projection q.candidate)

  abbrev pub new_artifact : NewArtifact
  new_artifact = record {
    mission_id = q.mission_id;
    digest = codec.text_id projection_digest;
    kind = codec.artifact_kind q.mission_id;
    sealed = codec.text_id (codec.projection q.candidate);
    projection = codec.text_id (codec.projection q.candidate);
    lease_token = some token;
    lease_generation = some q.lease_generation;
  }

  abbrev pub new_event : (label payload : ℕ) → NewEvent
  new_event label payload = record {
    mission_id = q.mission_id;
    event_type = label;
    payload = payload;
    lease_token = some token;
    lease_generation = some q.lease_generation;
  }

  -- The swap to `verifying`.
  abbrev pub verifying_request : Mission → CasRequest
  verifying_request fresh = record {
    mission_id = q.mission_id;
    expect_status = running;
    expect_version = fresh.checkpoint_version;
    expect_lease_generation = q.lease_generation;
    new_status = verifying;
    expect_lease_token = some token;
    clear_lease = false;
    checkpoint_update = (billing_key, codec.billing fresh) ∷ [];
    bump_verify_failure = false;
  }

  -- What the verifier is given.
  unfoldable pub verify_input : (refreshed : Mission) → (evidence : List Evidence) → VerifyInput
  verify_input refreshed evidence =
      let p = codec.package_view refreshed in
      let veto = live_veto q.shadow_cognition opening.council in
      let merge = merge_of q.shadow_cognition opening.council in
      record {
        candidate_text = q.candidate;
        candidate_hash = digest;
        acceptance_text = q.acceptance_text;
        task_text = opening.task_text;
        evidence_records = map codec.value_of evidence;
        policy = policy_of p;
        lease_generation = q.lease_generation;
        expected_lease_generation = refreshed.lease_generation;
        status = verifying;
        destructive = p.destructive;
        security_veto = veto && member (codes "security") merge.veto_roles;
        qa_veto = veto && member (codes "qa") merge.veto_roles;
        frozen_task_class = p.task_class;
        frozen_verification_mode = p.verification_mode;
        candidate_artifact_refs = projection_digest ∷ [];
      }

  abbrev pub new_evidence : VerifyResult → NewEvidence
  new_evidence check = record {
    mission_id = q.mission_id;
    klass = codec.label (codes "structural");
    digest = codec.record_digest check.structural_record;
    payload = codec.record_text check.structural_record;
    artifact_refs = codec.text_id projection_digest ∷ [];
    lease_generation = q.lease_generation;
    lease_token = some token;
  }

  -- What the verdict leaves in the checkpoint.
  abbrev pub verdict : (check : ℕ) → Mission → Checkpoint
  verdict check row =
      (candidate_key, codec.text_id digest)
      ∷ (projection_key, codec.text_id projection_digest)
      ∷ (verify_key, check)
      ∷ (billing_key, codec.billing row)
      ∷ []

  -- A swap out of `verifying` that gives the lease up.
  abbrev pub final_request : MissionStatus → (bump : Bool) → Checkpoint → Mission → CasRequest
  final_request status bump update row = record {
    mission_id = q.mission_id;
    expect_status = verifying;
    expect_version = row.checkpoint_version;
    expect_lease_generation = q.lease_generation;
    new_status = status;
    expect_lease_token = some token;
    clear_lease = true;
    checkpoint_update = update;
    bump_verify_failure = bump;
  }
