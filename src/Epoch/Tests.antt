-- ===== src/Epoch/Tests.antt =====
-- Epochs of a small mission: one that commits, one that is overtaken and one that fails.
use grok_mcp_server.Base.{ℕ, List, if◌then◌else◌, ◌==◌, ◌≡◌, refl, none, some, [], ◌∷◌, true, false}
use grok_mcp_server.Base.Texts.{codes}
use grok_mcp_server.Missions.Status.{
  running, verifying, complete, failed, is_terminal, legal_transition,
}
use grok_mcp_server.Missions.State.{Mission, MissionStore, load_mission}
use grok_mcp_server.Missions.Lease.{
  heartbeat_mission, extended, touch_mission_envelope, bound_to_envelope,
}
use grok_mcp_server.Missions.Cas.{
  dict_update, swapped, close_job, swap_row, swap_loaded, cas_mission_status,
}
use grok_mcp_server.Missions.Records.{
  append_mission_event, put_mission_artifact, append_mission_evidence,
}
use grok_mcp_server.Missions.Calls.{Call, swap, perform, run}
use grok_mcp_server.Verification.Python.{null}
use grok_mcp_server.Verification.TaskClass.{substantial, literal}
use grok_mcp_server.Verification.TaskClass
use grok_mcp_server.Verification.Commit.{given, Host}
use grok_mcp_server.Verification.Voters.{build_slots, invoke, merge_scorecards}
use grok_mcp_server.Verification.Tests.{sample_host, sample_patterns, verified_program}
use grok_mcp_server.Epoch.{
  Codec, Quantum, committed, durable, failed_done, live_veto, worker_token_of, is_worker_of,
  verify_input,
}
use grok_mcp_server.Epoch.Run.{
  lost_or_durable, send_back, fail_done, not_committed, commit, decide, recheck, verify,
  enter_verifying, bind_envelope, refresh, record_votes, freeze, renew, own, opening_of,
  seal_mission_epoch,
}
use grok_mcp_server.Epoch.Committed.{Committed}
use grok_mcp_server.Epoch.Seal.{
  seal_mission_epoch-committed, seal_mission_epoch-durable, seal_mission_epoch-failed,
}

-- The program with every function open.
program : Unit {0}
unfolding verified_program legal_transition heartbeat_mission extended touch_mission_envelope
    bound_to_envelope dict_update swapped close_job swap_row swap_loaded cas_mission_status
    append_mission_event put_mission_artifact append_mission_evidence perform run build_slots invoke
    merge_scorecards live_veto worker_token_of is_worker_of verify_input lost_or_durable send_back
    fail_done not_committed commit decide recheck verify enter_verifying bind_envelope refresh
    record_votes freeze renew own opening_of seal_mission_epoch
program = tt

abbrev mission : Mission
mission = record {
  mission_id = 1;
  job_id = 2;
  created_at = 10;
  updated_at = 20;
  status = running;
  acceptance_hash = 3;
  acceptance_text = 4;
  continue_token = 5;
  package_json = record { document = 6; bound_envelope_version = none };
  checkpoint = [];
  checkpoint_version = 3;
  lease_token = some 9;
  lease_generation = 4;
  lease_expires_at = some 100;
  envelope_version = 1;
  verify_failures = 0;
  ledger_cursor = 0;
}

abbrev store : MissionStore
store = record {
  missions = mission ∷ [];
  ledger = [];
  event_sequence = 0;
  artifacts = [];
  evidence = [];
  side_effects = [];
  jobs = [];
}

abbrev codec : Codec
codec = record {
  text_id = λ t. 7;
  package_view = λ m. record {
    lease_ttl_seconds = 180;
    task = none;
    destructive = false;
    task_class = given substantial;
    verification_mode = given TaskClass.structural;
    evidence_policy = none;
  };
  value_of = λ e. null;
  projection = λ t. t;
  projection_kind = λ id. [];
  billing = λ m. 0;
  check = λ r. 1;
  check_with_hash = λ r t. 1;
  record_text = λ v. 2;
  record_digest = λ v. 3;
  last_verify = λ c. none;
  artifact_kind = λ id. 4;
  label = λ t. 5;
  votes = λ c. 6;
  voter_roles = λ m. [];
}

abbrev quantum : Quantum
quantum = record {
  mission_id = 1;
  acceptance_text = codes "do it";
  candidate = codes "done";
  lease_generation = 4;
  lease_token = some 9;
  envelope_version = 1;
  shadow_cognition = true;
}

commits : (seal_mission_epoch sample_host codec quantum (λ k. []) (λ k. 30) store).0 ≡ committed
unfolding program
commits = refl

seal_mission_epoch-committed_example :
    (m : Mission) × (load_mission 1 store ≡ some m)
    × Committed sample_host codec quantum
        (opening_of sample_host codec quantum m)
        (λ k. [])
        (λ k. 30)
        (worker_token_of quantum m)
        store
        (seal_mission_epoch sample_host codec quantum (λ k. []) (λ k. 30) store).1
unfolding program
seal_mission_epoch-committed_example =
    seal_mission_epoch-committed sample_host codec quantum (λ k. []) (λ k. 30) store (refl, tt) refl

-- Another process with the worker's token completes the mission after its check.
abbrev overtaking : ℕ → List Call
overtaking k =
    if k == 11
    then swap 25 (record {
      mission_id = 1;
      expect_status = verifying;
      expect_version = 4;
      expect_lease_generation = 4;
      new_status = complete;
      expect_lease_token = some 9;
      clear_lease = true;
      checkpoint_update = [];
      bump_verify_failure = false;
    })
      ∷ []
    else []

abbrev overtaken : Mission
overtaken = record mission {
  status = complete;
  checkpoint = (1, 0) ∷ [];
  checkpoint_version = 5;
  lease_token = none;
  lease_expires_at = none;
  lease_generation = 5;
  updated_at = 25;
  package_json = record { document = 6; bound_envelope_version = some 1 };
  ledger_cursor = 3;
}

overtakes :
    (seal_mission_epoch sample_host codec quantum overtaking (λ k. 30) store).0 ≡ durable overtaken
unfolding program
overtakes = refl

seal_mission_epoch-durable_example :
    (is_terminal overtaken.status ≡ true)
    × (load_mission 1 (seal_mission_epoch sample_host codec quantum overtaking (λ k. 30) store).1
        ≡ some overtaken)
unfolding program
seal_mission_epoch-durable_example =
    seal_mission_epoch-durable sample_host codec quantum overtaking (λ k. 30) store overtaken
      (refl, tt) refl

-- A mission that asks for one token, and whose check has failed before.
abbrev asking : Host
asking = record sample_host { re = record sample_patterns { reply_tokens = λ t. codes "OK" ∷ [] } }

abbrev literal_codec : Codec
literal_codec = record codec {
  package_view = λ m. record {
    lease_ttl_seconds = 180;
    task = none;
    destructive = false;
    task_class = given literal;
    verification_mode = given TaskClass.structural;
    evidence_policy = none;
  };
}

abbrev failing_store : MissionStore
failing_store = record store { missions = record mission { verify_failures = 1 } ∷ [] }

fails :
    (seal_mission_epoch asking literal_codec quantum (λ k. []) (λ k. 30) failing_store).0
    ≡ failed_done
unfolding program
fails = refl

seal_mission_epoch-failed_example :
    (row : Mission) × (load_mission 1
        (seal_mission_epoch asking literal_codec quantum (λ k. []) (λ k. 30) failing_store).1
      ≡ some row)
    × (row.status ≡ failed)
    × (row.lease_token ≡ none)
    × (row.lease_generation ≡ 5)
unfolding program
seal_mission_epoch-failed_example =
    seal_mission_epoch-failed asking literal_codec quantum (λ k. []) (λ k. 30) failing_store
      (refl, tt) refl
