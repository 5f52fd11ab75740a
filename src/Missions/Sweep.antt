-- ===== src/Missions/Sweep.antt =====
-- `list_expired_mission_leases` of src/unigrok_public/state.py and `sweep_expired_leases` of
-- src/unigrok_public/mission/sweeper.py.
pub mod Recovery
use grok_mcp_server.Base.{
  ℕ, ◌+◌, min, max, Option, none, some, List, [], ◌∷◌, Bool, true, false, not, ◌&&◌, ◌||◌, ltb, leb,
  ◌==◌, if◌then◌else◌, take,
}
use grok_mcp_server.Base.Tables.{select_where}
use grok_mcp_server.Missions.Status.{
  MissionStatus, queued, verifying, escalated, has_status, is_terminal, legal_transition,
}
use grok_mcp_server.Missions.State.{Mission, MissionStore}
use grok_mcp_server.Missions.Cas.{Requeue, requeue_expired_mission}

abbrev pub has_expired_lease : (now : ℕ) → Mission → Bool
has_expired_lease now m = elim m.lease_expires_at [
  | none ↦ false
  | some t ↦ ltb t now && not (is_terminal m.status)
]

-- `ORDER BY updated_at ASC`, ties in the order of the table.
abbrev pub insert_updated : Mission → List Mission → List Mission
insert_updated m [] = m ∷ []
insert_updated m (x ∷ xs) =
    if leb m.updated_at x.updated_at then m ∷ x ∷ xs else x ∷ insert_updated m xs

abbrev pub order_by_updated : List Mission → List Mission
order_by_updated [] = []
order_by_updated (m ∷ ms) = insert_updated m (order_by_updated ms)

-- `_list_expired_mission_leases_sync`
unfoldable pub list_expired_mission_leases : (now limit : ℕ) → MissionStore → List Mission
list_expired_mission_leases now limit db =
    take (max 1 (min limit 200))
      (order_by_updated (select_where (has_expired_lease now) db.missions))

-- The rows that the sweeper leaves to others: under verification, or escalated to a human.
abbrev pub is_hands_off : MissionStatus → Bool
is_hands_off verifying = true
is_hands_off escalated = true
is_hands_off _ = false

abbrev pub requeue_of : Mission → (expiry : ℕ) → Requeue
requeue_of m expiry = record {
  mission_id = m.mission_id;
  expect_status = m.status;
  expect_version = m.checkpoint_version;
  expect_lease_generation = m.lease_generation;
  expect_lease_expires_at = expiry;
}

-- The sweep of one worker: no call of another comes between the list and its requeues. The requeue
-- is a call of its own in Missions/Calls, where others come in between.
-- One row of the sweep, whose transaction runs at `clock m`.
unfoldable pub sweep_row : (clock : Mission → ℕ) → Mission → MissionStore → Bool × MissionStore
sweep_row clock m db =
    if is_hands_off m.status
    then (false, db)
    else if not (legal_transition m.status queued)
    then (false, db)
    else elim m.lease_expires_at [
      | none ↦ (false, db)
      | some expiry ↦ requeue_expired_mission (clock m) (requeue_of m expiry) db
    ]

unfoldable pub sweep_rows : (clock : Mission → ℕ) → List Mission → MissionStore → ℕ × MissionStore
sweep_rows clock [] db = (0, db)
sweep_rows clock (m ∷ ms) db =
    let r = sweep_row clock m db in
    let rest = sweep_rows clock ms r.1 in ((if r.0 then 1 else 0) + rest.0, rest.1)

-- `sweep_expired_leases`
unfoldable pub sweep_expired_leases :
    (now : ℕ) → (clock : Mission → ℕ) → (limit : ℕ) → MissionStore → ℕ × MissionStore
sweep_expired_leases now clock limit db =
    sweep_rows clock (list_expired_mission_leases now limit db) db
