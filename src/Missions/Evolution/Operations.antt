-- ===== src/Missions/Evolution/Operations.antt =====
-- Every call lets each mission row evolve.
use grok_mcp_server.Base.{
  ℕ, ◌+◌, ◌≡◌, Option, none, some, List, [], ◌∷◌, true, arith, Bool-cases, Option-cases, inl, inr,
  &&-true,
}
use grok_mcp_server.Base.Tables.{fetch_one}
use grok_mcp_server.Missions.Status.{queued, legal_transition}
use grok_mcp_server.Missions.State.{
  Mission, MissionStore, has_mission_id, load_mission, lease_expiry,
}
use grok_mcp_server.Missions.Lease.{
  is_claimable, claimed, claim_mission, is_owned, extended, heartbeat_mission, is_owned_live,
  touch_mission_envelope,
}
use grok_mcp_server.Missions.Cas.{
  CasRequest, Requeue, is_swappable, expects, swapped, swap_row, close_job, swap_loaded,
  cas_mission_status, is_requeueable, requeued, requeue_expired_mission,
}
use grok_mcp_server.Missions.Records.{
  NewEvent, at_cursor, append_mission_event, NewArtifact, put_mission_artifact, NewEvidence,
  append_mission_evidence, NewSideEffect, put_mission_side_effect,
}
use grok_mcp_server.Missions.Sweep.{
  requeue_of, sweep_row, sweep_rows, sweep_expired_leases, list_expired_mission_leases,
}
use grok_mcp_server.Missions.Calls.{
  Call, claim, heartbeat, touch, swap, requeue, event, artifact, proof, side_effect, sweep, perform,
  run,
}
use grok_mcp_server.Missions.Evolution.{Evolves}
use grok_mcp_server.Missions.Evolution.Steps.{
  claimed-Evolves, idle-Evolves, bound_to_envelope-Evolves, swapped-Evolves, requeued-Evolves,
}
use grok_mcp_server.Missions.Evolution.Rows.{
  Tables, Tables-refl, Tables-trans, Tables-update_where, Tables-found,
}

claim_mission-Tables :
    (now id token ttl : ℕ) (expect : Option ℕ) (db : MissionStore)
    → Tables db.missions (claim_mission now id token ttl expect db).1.missions
unfolding claim_mission
claim_mission-Tables now id token ttl expect db =
    elim (Option-cases (fetch_one (is_claimable now id token expect) db.missions)) [
      | inl missing ↦ rw (missing, claim_mission) (Tables-refl db.missions)
      | inr (m, found) ↦
          rw (found, claim_mission)
            (Tables-update_where (is_claimable now id token expect) (claimed now token ttl expect)
              (claimed-Evolves now id token ttl expect) db.missions)
    ]

heartbeat_mission-Tables :
    (now id token generation ttl : ℕ) (db : MissionStore)
    → Tables db.missions (heartbeat_mission now id token generation ttl db).1.missions
unfolding heartbeat_mission extended
heartbeat_mission-Tables now id token generation ttl db =
    Tables-update_where (is_owned id token generation) (extended now ttl)
      (λ m t. idle-Evolves m (some (lease_expiry now ttl)) m.ledger_cursor now) db.missions

touch_mission_envelope-Tables :
    (now id version token generation : ℕ) (db : MissionStore)
    → Tables db.missions (touch_mission_envelope now id version token generation db).1.missions
unfolding touch_mission_envelope
touch_mission_envelope-Tables now id version token generation db =
    elim (Option-cases (fetch_one (is_owned_live id token generation) db.missions)) [
      | inl missing ↦ rw (missing, touch_mission_envelope) (Tables-refl db.missions)
      | inr (m, found) ↦
          rw (found, touch_mission_envelope)
            (Tables-update_where (is_owned_live id token generation) _
              (λ x t.
                bound_to_envelope-Evolves now _ m.package_json x
                  (ground (arith, (&&-true (is_owned id token generation x) _ t).1)))
              db.missions)
    ]

swap_row-Tables :
    (now : ℕ) (q : CasRequest) (read : Mission) (db : MissionStore)
    → legal_transition q.expect_status q.new_status ≡ true
    → Tables db.missions (swap_row now q read db).1.missions
unfolding swap_row close_job
swap_row-Tables now q read db legal =
    let t =
      Tables-update_where (is_swappable q) (swapped now q read)
        (λ m. swapped-Evolves now q read m legal) db.missions in
    ground (arith, t)

swap_loaded-Tables :
    (now : ℕ) (q : CasRequest) (o : Option Mission) (db : MissionStore)
    → legal_transition q.expect_status q.new_status ≡ true
    → Tables db.missions (swap_loaded now q o db).1.missions
unfolding swap_loaded
swap_loaded-Tables now q none db legal = Tables-refl db.missions
swap_loaded-Tables now q (some m) db legal = elim (Bool-cases (expects q m)) [
  | inl seen ↦ rw seen (swap_row-Tables now q m db legal)
  | inr stale ↦ rw stale (Tables-refl db.missions)
]

cas_mission_status-Tables :
    (now : ℕ) (q : CasRequest) (db : MissionStore)
    → Tables db.missions (cas_mission_status now q db).1.missions
unfolding cas_mission_status
cas_mission_status-Tables now q db =
    elim (Bool-cases (legal_transition q.expect_status q.new_status)) [
      | inl legal ↦ rw legal (swap_loaded-Tables now q (load_mission q.mission_id db) db legal)
      | inr illegal ↦ rw illegal (Tables-refl db.missions)
    ]

requeue_expired_mission-Tables :
    (now : ℕ) (q : Requeue) (db : MissionStore)
    → Tables db.missions (requeue_expired_mission now q db).1.missions
unfolding requeue_expired_mission
requeue_expired_mission-Tables now q db =
    elim (Bool-cases (legal_transition q.expect_status queued)) [
      | inr illegal ↦ rw illegal (Tables-refl db.missions)
      | inl legal ↦ rw legal (
          Tables-update_where (is_requeueable now q) (requeued now)
            (λ m. requeued-Evolves now q m legal) db.missions)
    ]

append_mission_event-Tables :
    (now : ℕ) (n : NewEvent) (db : MissionStore)
    → Tables db.missions (append_mission_event now n db).1.missions
unfolding append_mission_event
append_mission_event-Tables now n db =
    let t =
      Tables-update_where (has_mission_id n.mission_id) (at_cursor now (db.event_sequence + 1))
        (λ m h. idle-Evolves m m.lease_expires_at (db.event_sequence + 1) now) db.missions in
    ground (arith, t, Tables-refl db.missions)

pub put_mission_artifact-same :
    (now : ℕ) (n : NewArtifact) (db : MissionStore)
    → (put_mission_artifact now n db).1.missions ≡ db.missions
unfolding put_mission_artifact
put_mission_artifact-same now n db = ground arith

pub append_mission_evidence-same :
    (now : ℕ) (n : NewEvidence) (db : MissionStore)
    → (append_mission_evidence now n db).1.missions ≡ db.missions
unfolding append_mission_evidence
append_mission_evidence-same now n db = ground arith

pub put_mission_side_effect-same :
    (now : ℕ) (n : NewSideEffect) (db : MissionStore)
    → (put_mission_side_effect now n db).1.missions ≡ db.missions
unfolding put_mission_side_effect
put_mission_side_effect-same now n db = ground arith

sweep_row-Tables :
    (clock : Mission → ℕ) (m : Mission) (db : MissionStore)
    → Tables db.missions (sweep_row clock m db).1.missions
unfolding sweep_row
sweep_row-Tables clock m db = elim (Option-cases m.lease_expires_at) [
  | inl missing ↦ ground (arith, missing, Tables-refl db.missions)
  | inr (expiry, held) ↦ ground (
    arith,
    held,
    Tables-refl db.missions,
    requeue_expired_mission-Tables (clock m) (requeue_of m expiry) db,
  )
]

pub sweep_rows-Tables :
    (clock : Mission → ℕ) (ms : List Mission) (db : MissionStore)
    → Tables db.missions (sweep_rows clock ms db).1.missions
unfolding sweep_rows
sweep_rows-Tables clock [] db = Tables-refl db.missions
sweep_rows-Tables clock (m ∷ ms) db =
    Tables-trans (sweep_row-Tables clock m db) (sweep_rows-Tables clock ms (sweep_row clock m db).1)

pub perform-Tables : (c : Call) (db : MissionStore) → Tables db.missions (perform c db).1.missions
unfolding perform sweep_expired_leases
perform-Tables (claim now id token ttl expect) db = claim_mission-Tables now id token ttl expect db
perform-Tables (heartbeat now id token generation ttl) db =
    heartbeat_mission-Tables now id token generation ttl db
perform-Tables (touch now id version token generation) db =
    touch_mission_envelope-Tables now id version token generation db
perform-Tables (swap now q) db = cas_mission_status-Tables now q db
perform-Tables (requeue now q) db = requeue_expired_mission-Tables now q db
perform-Tables (event now n) db = append_mission_event-Tables now n db
perform-Tables (artifact now n) db =
    rw (put_mission_artifact-same now n db) (Tables-refl db.missions)
perform-Tables (proof now n) db =
    rw (append_mission_evidence-same now n db) (Tables-refl db.missions)
perform-Tables (side_effect now n) db =
    rw (put_mission_side_effect-same now n db) (Tables-refl db.missions)
perform-Tables (sweep now clock limit) db =
    sweep_rows-Tables clock (list_expired_mission_leases now limit db) db

pub run-Tables : (cs : List Call) (db : MissionStore) → Tables db.missions (run cs db).missions
unfolding run
run-Tables [] db = Tables-refl db.missions
run-Tables (c ∷ cs) db = Tables-trans (perform-Tables c db) (run-Tables cs (perform c db).1)

-- Whatever is called between two retention passes, a mission that the store holds stays in it under
-- its ids, its status follows legal transitions, its lease generation and checkpoint version do not
-- fall, its checkpoint changes only with its version, and a terminal mission keeps its status,
-- checkpoint, package, version, fence and failure count.
pub run-Evolves :
    (cs : List Call) (id : ℕ) (m : Mission) (db : MissionStore)
    → load_mission id db ≡ some m
    → (m' : Mission) × (load_mission id (run cs db) ≡ some m') × Evolves m m'
run-Evolves cs id m db found = Tables-found id (run-Tables cs db) found
