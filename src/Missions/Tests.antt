-- ===== src/Missions/Tests.antt =====
-- Runs of the mission store on a small table, and the theorems at them.
use grok_mcp_server.Base.{ℕ, ◌≤◌, ◌≡◌, refl, none, some, List, [], ◌∷◌, true, false, arith, map}
use grok_mcp_server.Missions.Status.{running, verifying, complete, queued, legal_transition}
use grok_mcp_server.Missions.State.{Mission, other, committed, MissionStore, load_mission}
use grok_mcp_server.Missions.Lease.{
  NewMission, created_mission, claim_mission, claimed, heartbeat_mission, extended,
  touch_mission_envelope, bound_to_envelope, create_mission, prune_missions,
}
use grok_mcp_server.Missions.Cas.{
  CasRequest, dict_update, swapped, close_job, swap_row, swap_loaded, cas_mission_status, requeued,
  requeue_expired_mission,
}
use grok_mcp_server.Missions.Records.{
  append_mission_event, put_mission_artifact, append_mission_evidence, put_mission_side_effect,
}
use grok_mcp_server.Missions.Sweep.{
  list_expired_mission_leases, sweep_row, sweep_rows, sweep_expired_leases,
}
use grok_mcp_server.Missions.Sweep.Recovery.{Swept, sweep_expired_leases-recovers}
use grok_mcp_server.Missions.Calls.{Call, claim, swap, sweep, heartbeat, perform, run}
use grok_mcp_server.Missions.Evolution.{Evolves}
use grok_mcp_server.Missions.Evolution.Operations.{run-Evolves}
use grok_mcp_server.Missions.Fencing.{IsRefused, stale_worker-IsRefused}
use grok_mcp_server.Missions.Winner.{CasEffect, cas_mission_status-effect, cas_mission_status-once}
use grok_mcp_server.Missions.Completion.{Completes, perform-Completes}
use grok_mcp_server.Missions.Creation.{Created, create_mission-Created, create_mission-keeps}
use grok_mcp_server.Missions.Exclusive.{ClaimEffect, claim_mission-effect, claim_mission-exclusive}
use grok_mcp_server.Missions.Sweep.Recovery.{sweep_expired_leases-bounded}

-- The program with every function open.
program : Unit {0}
unfolding legal_transition claim_mission claimed heartbeat_mission extended touch_mission_envelope
    bound_to_envelope create_mission prune_missions dict_update swapped close_job swap_row
    swap_loaded cas_mission_status requeued requeue_expired_mission append_mission_event
    put_mission_artifact append_mission_evidence put_mission_side_effect list_expired_mission_leases
    sweep_row sweep_rows sweep_expired_leases perform run
program = tt

abbrev mission : Mission
mission = record {
  mission_id = 1;
  job_id = 2;
  created_at = 10;
  updated_at = 20;
  status = running;
  acceptance_hash = 3;
  acceptance_text = 4;
  continue_token = 5;
  package_json = record { document = 6; bound_envelope_version = none };
  checkpoint = (7, 8) ∷ [];
  checkpoint_version = 3;
  lease_token = some 9;
  lease_generation = 4;
  lease_expires_at = some 100;
  envelope_version = 1;
  verify_failures = 0;
  ledger_cursor = 0;
}

abbrev store : MissionStore
store = record {
  missions = mission ∷ [];
  ledger = [];
  event_sequence = 0;
  artifacts = [];
  evidence = [];
  side_effects = [];
  jobs = (record { job_id = 2; status = other 1; updated_at = 20 }) ∷ [];
}

-- The worker hands the mission to the verifier, which completes it.
abbrev to_verifying : CasRequest
to_verifying = record {
  mission_id = 1;
  expect_status = running;
  expect_version = 3;
  expect_lease_generation = 4;
  new_status = verifying;
  expect_lease_token = some 9;
  clear_lease = false;
  checkpoint_update = (7, 11) ∷ [];
  bump_verify_failure = false;
}

abbrev to_complete : CasRequest
to_complete = record {
  mission_id = 1;
  expect_status = verifying;
  expect_version = 4;
  expect_lease_generation = 4;
  new_status = complete;
  expect_lease_token = some 9;
  clear_lease = true;
  checkpoint_update = [];
  bump_verify_failure = false;
}

abbrev finishing : List Call
finishing = swap 50 to_verifying ∷ swap 60 to_complete ∷ []

finishing-status : map (λ m. m.status) (run finishing store).missions ≡ complete ∷ []
unfolding program
finishing-status = refl

finishing-checkpoint : map (λ m. m.checkpoint) (run finishing store).missions ≡ ((7, 11) ∷ []) ∷ []
unfolding program
finishing-checkpoint = refl

finishing-generation : map (λ m. m.lease_generation) (run finishing store).missions ≡ 5 ∷ []
unfolding program
finishing-generation = refl

finishing-jobs :
    (run finishing store).jobs ≡ (record { job_id = 2; status = committed; updated_at = 60 }) ∷ []
unfolding program
finishing-jobs = refl

-- The lease is lost: the sweeper requeues the mission, and another worker claims it.
abbrev clock : Mission → ℕ
clock m = 210

abbrev reclaimed : List Call
reclaimed = sweep 200 clock 25 ∷ claim 300 1 12 60 none ∷ []

reclaimed-generation : map (λ m. m.lease_generation) (run reclaimed store).missions ≡ 6 ∷ []
unfolding program
reclaimed-generation = refl

reclaimed-status : map (λ m. m.status) (run reclaimed store).missions ≡ running ∷ []
unfolding program
reclaimed-status = refl

reclaimed-refuses : (perform (heartbeat 310 1 9 4 60) (run reclaimed store)).0 ≡ false
unfolding program
reclaimed-refuses = refl

event-cursor :
    map
      (λ m. m.ledger_cursor)
      (append_mission_event 50
        (record {
          mission_id = 1;
          event_type = 2;
          payload = 3;
          lease_token = some 9;
          lease_generation = some 4;
        })
        store).1.missions
    ≡ 1 ∷ []
unfolding program
event-cursor = refl

-- The theorems at these runs.
run-Evolves_example :
    (m' : Mission) × (load_mission 1 (run finishing store) ≡ some m') × Evolves mission m'
unfolding program
run-Evolves_example = run-Evolves finishing 1 mission store refl

abbrev requeued_store : MissionStore
requeued_store = (sweep_expired_leases 200 clock 25 store).1

abbrev requeued_mission : Mission
requeued_mission = record mission {
  status = queued;
  checkpoint_version = 4;
  lease_token = none;
  lease_expires_at = none;
  lease_generation = 5;
  updated_at = 210;
}

stale_worker-IsRefused_example :
    IsRefused (swap 400 to_complete) (run (claim 300 1 12 60 none ∷ []) requeued_store)
unfolding program
stale_worker-IsRefused_example =
    stale_worker-IsRefused (claim 300 1 12 60 none ∷ []) (swap 400 to_complete) 1 4 requeued_mission
      requeued_store (refl, tt) refl (omega arith) (refl, refl)

cas_mission_status-effect_example :
    CasEffect 50 to_verifying store (cas_mission_status 50 to_verifying store).1
unfolding program
cas_mission_status-effect_example = cas_mission_status-effect 50 to_verifying store (refl, tt) refl

cas_mission_status-once_example :
    IsRefused
      (swap 70 to_verifying)
      (run (swap 60 to_complete ∷ []) (cas_mission_status 50 to_verifying store).1)
unfolding program
cas_mission_status-once_example =
    cas_mission_status-once 50 70 to_verifying to_verifying (swap 60 to_complete ∷ []) store
      (refl, tt) refl refl refl

claim_mission-effect_example :
    ClaimEffect 200 1 12 60 none store (claim_mission 200 1 12 60 none store).1 5
unfolding program
claim_mission-effect_example = claim_mission-effect 200 1 12 60 none store (refl, tt) refl

claim_mission-exclusive_example :
    claim_mission 1_000 1 13 60 none (claim_mission 200 1 12 60 none store).1
    ≡ ((false, 5), (claim_mission 200 1 12 60 none store).1)
unfolding program
claim_mission-exclusive_example =
    claim_mission-exclusive 200 1_000 1 12 13 60 60 none none store (refl, tt)
      (λ h. omega (arith, h)) (λ h. omega (arith, h)) (omega arith) refl

sweep_expired_leases-recovers_example :
    (m' : Mission) × (load_mission 1 requeued_store ≡ some m') × Swept mission m'
unfolding program
sweep_expired_leases-recovers_example =
    sweep_expired_leases-recovers 200 25 1 clock mission store refl

sweep_expired_leases-bounded_example : (sweep_expired_leases 200 clock 25 store).0 ≤ 25
unfolding program
sweep_expired_leases-bounded_example = sweep_expired_leases-bounded 200 25 clock store

abbrev verifying_store : MissionStore
verifying_store = (cas_mission_status 50 to_verifying store).1

abbrev verifying_mission : Mission
verifying_mission = record mission {
  status = verifying;
  checkpoint = (7, 11) ∷ [];
  checkpoint_version = 4;
  updated_at = 50;
}

abbrev completed_mission : Mission
completed_mission = record verifying_mission {
  status = complete;
  checkpoint_version = 5;
  lease_token = none;
  lease_expires_at = none;
  lease_generation = 5;
  updated_at = 60;
}

perform-Completes_example : Completes 1 verifying_mission (swap 60 to_complete)
unfolding program
perform-Completes_example =
    perform-Completes (swap 60 to_complete) 1 verifying_store verifying_mission completed_mission
      refl refl (λ h. cc) refl

abbrev new_mission : NewMission
new_mission = record {
  mission_id = 21;
  job_id = 22;
  acceptance_hash = 23;
  acceptance_text = 24;
  continue_token = 25;
  package_json = record { document = 26; bound_envelope_version = none };
  lease_token = 27;
  lease_generation = 1;
  lease_expires_at = 500;
}

-- The completed mission is older than the cutoff and goes; its job goes as well.
created-loads :
    create_mission 400 300 [] new_mission (run finishing store)
    ≡ some (record {
      missions = created_mission 400 [] new_mission ∷ [];
      ledger = [];
      event_sequence = 0;
      artifacts = [];
      evidence = [];
      side_effects = [];
      jobs = [];
    })
unfolding program
created-loads = refl

abbrev created_store : MissionStore
created_store = record store { missions = mission ∷ created_mission 400 [] new_mission ∷ [] }

create_mission-Created_example : Created 400 [] new_mission store created_store
unfolding program
create_mission-Created_example =
    create_mission-Created 400 300 [] new_mission store created_store (refl, tt) refl

create_mission-keeps_example : load_mission 1 created_store ≡ some mission
unfolding program
create_mission-keeps_example =
    create_mission-keeps 400 300 1 [] new_mission mission store created_store refl refl refl
