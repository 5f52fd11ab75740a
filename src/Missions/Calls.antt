-- ===== src/Missions/Calls.antt =====
-- Sequences of the calls that workers, the continuation path and the sweeper make on one store.
use grok_mcp_server.Base.{ℕ, Option, none, some, List, [], ◌∷◌, Bool, false, ltb}
use grok_mcp_server.Missions.State.{Mission, MissionStore}
use grok_mcp_server.Missions.Lease.{claim_mission, heartbeat_mission, touch_mission_envelope}
use grok_mcp_server.Missions.Cas.{CasRequest, Requeue, cas_mission_status, requeue_expired_mission}
use grok_mcp_server.Missions.Records.{
  NewEvent, NewArtifact, NewEvidence, NewSideEffect, append_mission_event, put_mission_artifact,
  append_mission_evidence, put_mission_side_effect,
}
use grok_mcp_server.Missions.Sweep.{sweep_expired_leases}

pub data Call : Type 0 where
  claim : (now id token ttl : ℕ) → (expect : Option ℕ) → Call
  heartbeat : (now id token generation ttl : ℕ) → Call
  touch : (now id version token generation : ℕ) → Call
  swap : (now : ℕ) → CasRequest → Call
  requeue : (now : ℕ) → Requeue → Call
  event : (now : ℕ) → NewEvent → Call
  artifact : (now : ℕ) → NewArtifact → Call
  proof : (now : ℕ) → NewEvidence → Call
  side_effect : (now : ℕ) → NewSideEffect → Call
  sweep : (now : ℕ) → (clock : Mission → ℕ) → (limit : ℕ) → Call

abbrev pub is_event_id : Option ℕ → Bool
is_event_id none = false
is_event_id (some id) = ltb 0 id

abbrev pub is_put : Option Bool → Bool
is_put none = false
is_put (some b) = b

-- Whether the store accepts the call, and the store after it.
unfoldable pub perform : Call → MissionStore → Bool × MissionStore
perform (claim now id token ttl expect) db =
    let r = claim_mission now id token ttl expect db in (r.0.0, r.1)
perform (heartbeat now id token generation ttl) db =
    heartbeat_mission now id token generation ttl db
perform (touch now id version token generation) db =
    touch_mission_envelope now id version token generation db
perform (swap now q) db = cas_mission_status now q db
perform (requeue now q) db = requeue_expired_mission now q db
perform (event now n) db = let r = append_mission_event now n db in (is_event_id r.0, r.1)
perform (artifact now n) db = let r = put_mission_artifact now n db in (is_put r.0, r.1)
perform (proof now n) db = append_mission_evidence now n db
perform (side_effect now n) db = put_mission_side_effect now n db
perform (sweep now clock limit) db =
    let r = sweep_expired_leases now clock limit db in (ltb 0 r.0, r.1)

unfoldable pub run : List Call → MissionStore → MissionStore
run [] db = db
run (c ∷ cs) db = run cs (perform c db).1
