-- ===== src/SpendGuard/Reserve/Admission.antt =====
-- What a new reservation rests on and what it leaves in the ledger.
use grok_mcp_server.Base.{
  ℕ, ◌+◌, ◌≤◌, ◌≡◌, refl, none, some, List, [], ◌∷◌, ◌++◌, Bool, true, arith, if◌then◌else◌, sum_by,
}
use grok_mcp_server.Base.Tables.{fetch_one, count_where, select_where}
use grok_mcp_server.Base.Tables.Laws.{count_where-append}
use grok_mcp_server.SpendGuard.State.{pending, Reservation, Amount, Ledger, ok, day_of}
use grok_mcp_server.SpendGuard.Queries.{
  in_scope_day, committed_ticks_of, pending_ticks_of, unknown_count_of, spend_guard_totals, Payload,
  admission_payload,
}
use grok_mcp_server.SpendGuard.Queries.Baselines.{BaselineEffect, reservations-after}
use grok_mcp_server.SpendGuard.Reserve.{
  Request, has_id, new_reservation, created_payload, replay_payload, reserve_spend_guard_sync,
  max_rows_per_scope_day,
}
use grok_mcp_server.SpendGuard.Reserve.Effect.{
  expired, inserted_into, ReserveEffect, replayed, turned_away, created, IsAdmissible,
  reserve_spend_guard_sync-effect,
}

sum_by-insert :
    (test : Reservation → Bool) (f : Reservation → ℕ) (rs : List Reservation) (r : Reservation)
    → sum_by f (select_where test (rs ++ r ∷ []))
      ≡ sum_by f (select_where test rs) + (if test r then f r else 0)
sum_by-insert test f [] r = ground arith
sum_by-insert test f (x ∷ rs) r = ground (arith, sum_by-insert test f rs r)

-- The totals of the scope and the day grow by the pending amount alone.
pub totals-insert :
    (now amount : ℕ) (q : Request) (db : Ledger)
    → let t = spend_guard_totals q.scope (day_of now) db in
      spend_guard_totals q.scope (day_of now) (inserted_into db (new_reservation q amount now))
      ≡ record { committed = t.committed; held = t.held + amount; unknowns = t.unknowns }
unfolding spend_guard_totals
totals-insert now amount q db =
    let here = in_scope_day q.scope (day_of now) in
    let r = new_reservation q amount now in
    ground (
      arith,
      sum_by-insert here committed_ticks_of db.reservations r,
      sum_by-insert here pending_ticks_of db.reservations r,
      sum_by-insert here unknown_count_of db.reservations r,
    )

-- A payload that lets its caller call the provider.
pub record IsAuthorized (now : ℕ) (q : Request) (db : Ledger) (p : Payload) (db' : Ledger)
    : Type 0 where
  -- the id was new
  pub fresh : fetch_one (has_id q.reservation_id) (expired now db).reservations ≡ none
  -- the ledger now holds a pending row for it
  pub row : Reservation
  pub stored_row : fetch_one (has_id q.reservation_id) db'.reservations ≡ some row
  pub still_pending : row.status ≡ pending
  pub same_amount : row.reserved_ticks ≡ p.reserved_ticks
  pub positive : 1 ≤ row.reserved_ticks
  -- the payload reports the totals that the ledger now has
  pub reported :
      spend_guard_totals q.scope (day_of now) db'
      ≡ record { committed = p.committed_ticks; held = p.pending_ticks; unknowns = 0 }
  -- which fit the limit and leave the rest as remaining
  pub fits : p.committed_ticks + p.pending_ticks + p.remaining_ticks ≡ q.limit_ticks
  pub has_room :
      count_where (in_scope_day q.scope (day_of now)) db'.reservations ≤ max_rows_per_scope_day

fetch_inserted :
    (id : ℕ) (rs : List Reservation) (r : Reservation)
    → fetch_one (has_id id) rs ≡ none
    → r.reservation_id ≡ id
    → fetch_one (has_id id) (rs ++ r ∷ []) ≡ some r
fetch_inserted id [] r h e = ground arith
fetch_inserted id (x ∷ rs) r h e = ground (arith, fetch_inserted id rs r)

created-IsAuthorized :
    (now amount : ℕ) (q : Request) (p : Payload) (db seen db' : Ledger)
    → fetch_one (has_id q.reservation_id) (expired now db).reservations ≡ none
    → BaselineEffect q.scope (day_of now) q.telemetry_baseline_caller (expired now db) seen
    → IsAdmissible q
        (spend_guard_totals q.scope (day_of now) seen)
        amount
        (count_where (in_scope_day q.scope (day_of now)) seen.reservations)
    → db' ≡ inserted_into seen (new_reservation q amount now)
    → p ≡ created_payload q now (spend_guard_totals q.scope (day_of now) seen) amount
    → IsAuthorized now q db p db'
unfolding created_payload admission_payload
created-IsAuthorized now amount q p db seen db' new effect a wrote told =
    let r = new_reservation q amount now in
    let unseen : fetch_one (has_id q.reservation_id) seen.reservations ≡ none =
      rw (reservations-after effect) new in
    let counted = count_where-append (in_scope_day q.scope (day_of now)) seen.reservations r in
    record {
      fresh = new;
      row = r;
      stored_row = rw wrote (fetch_inserted q.reservation_id seen.reservations r unseen refl);
      still_pending = refl;
      same_amount = rw told refl;
      positive = a.positive;
      reported = rw (wrote, totals-insert now amount q seen, a.all_known) (ground (arith, told));
      fits = ground (arith, told, a.within_limit);
      has_room = rw (wrote, counted) (ground (arith, a.has_room));
    }

-- When a reservation succeeds and its payload authorizes the provider call, then its id was not in
-- the ledger, its row is stored as pending with a positive amount, which the payload reports, and
-- the totals of its scope's day are those that the payload reports: no unknown spend, and a sum
-- that with the remaining amount is the limit; the day's rows stay within their bound.
pub reserve-IsAuthorized :
    (sum_cost : List Amount → Amount) (now : ℕ) (q : Request) (p : Payload) (db db' : Ledger)
    → reserve_spend_guard_sync sum_cost now q db ≡ ok (p, db')
    → p.execute_provider ≡ true
    → IsAuthorized now q db p db'
unfolding replay_payload admission_payload
reserve-IsAuthorized sum_cost now q p db db' ran go =
    authorized (reserve_spend_guard_sync-effect sum_cost now q p db db' ran)
  where
    authorized : ReserveEffect now q (expired now db) p db' → IsAuthorized now q db p db'
    authorized (replayed r known effect told mine) = absurd (ground (arith, told, go))
    authorized (turned_away new effect _ _ stop) = cc
    authorized (created seen amount new effect a wrote told) =
        created-IsAuthorized now amount q p db seen db' new effect a wrote told
