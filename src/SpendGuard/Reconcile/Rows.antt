-- ===== src/SpendGuard/Reconcile/Rows.antt =====
-- A report rewrites exactly the row that it names, and a repeated report changes nothing more.
use grok_mcp_server.Base.{ℕ, ◌≡◌, ◌≢◌, refl, sym, ◌∙◌, some, false, arith, if◌then◌else◌}
use grok_mcp_server.Base.Tables.{fetch_one}
use grok_mcp_server.Base.Tables.Laws.{fetch_one-passes}
use grok_mcp_server.Base.Tables.Keys.{fetch_one-update_where}
use grok_mcp_server.SpendGuard.State.{reconciled, unknown, Reservation, Ledger, ok}
use grok_mcp_server.SpendGuard.Queries.{Payload, is_stale, mark_stale, stored, admission_payload}
use grok_mcp_server.SpendGuard.Reserve.{has_id}
use grok_mcp_server.SpendGuard.Reserve.Effect.{expired}
use grok_mcp_server.SpendGuard.Reconcile.{
  Report, reconciled_row, reconcile_spend_guard_sync, mark_conflict, reconciled_payload,
}
use grok_mcp_server.SpendGuard.Reconcile.Effect.{reconcile_spend_guard_sync-effect}

row-id :
    (now : ℕ) (p : Report) (r : Reservation)
    → (reconciled_row now p r).reservation_id ≡ r.reservation_id
unfolding reconciled_row
row-id now p r = ground arith

module _ (now : ℕ) (p : Report) (pay : Payload) (db db' : Ledger)
    (ran : reconcile_spend_guard_sync now p db ≡ ok (pay, db')) where
  -- A lookup after the report, by any id.
  lookup-reported :
      (id : ℕ) (r x : Reservation)
      → fetch_one (has_id p.reservation_id) (expired now db).reservations ≡ some r
      → fetch_one (has_id id) (expired now db).reservations ≡ some x
      → fetch_one (has_id id) db'.reservations
        ≡ some (if has_id p.reservation_id x then reconciled_row now p r else x)
  lookup-reported id r x found held =
      let e = reconcile_spend_guard_sync-effect now p pay db db' ran in
      let read : e.row ≡ r = cc (e.found) in
      let passed = fetch_one-passes (has_id p.reservation_id) (expired now db).reservations found in
      rw (e.wrote, read)
        (fetch_one-update_where (λ y. y.reservation_id) (has_id p.reservation_id)
            (λ _. reconciled_row now p r) (λ y t. row-id now p r ∙ ground arith) id
            (expired now db).reservations
          ∙ rw held refl)

  -- After a report that the store accepts, the named row is the rewritten one, and the row of any
  -- other id is what expiry left.
  pub reconcile-rewrites_one :
      (id : ℕ) (r x : Reservation)
      → fetch_one (has_id p.reservation_id) (expired now db).reservations ≡ some r
      → fetch_one (has_id id) (expired now db).reservations ≡ some x
      → id ≢ p.reservation_id
      → (fetch_one (has_id p.reservation_id) db'.reservations ≡ some (reconciled_row now p r))
        × (fetch_one (has_id id) db'.reservations ≡ some x)
  reconcile-rewrites_one id r x found held ne =
      let passed = fetch_one-passes (has_id p.reservation_id) (expired now db).reservations found in
      let passed_other = fetch_one-passes (has_id id) (expired now db).reservations held in
      (
        lookup-reported p.reservation_id r r found found ∙ rw passed refl,
        lookup-reported id r x found held ∙ ground (arith, passed_other, ne),
      )

-- A report never leaves its row pending.
settled_row :
    (now later : ℕ) (p : Report) (r : Reservation) → is_stale later (reconciled_row now p r) ≡ false
unfolding reconciled_row
settled_row now later p r = ground arith

again_same :
    (now later : ℕ) (p : Report) (r : Reservation)
    → p.resolve_unknown ≡ false
    → reconciled_row later p (reconciled_row now p r) ≡ reconciled_row now p r
unfolding reconciled_row
again_same now later p r ordinary = ground arith

-- When an ordinary report is repeated, at any later or earlier instant, and the store accepts it
-- again, the reported row stays exactly as the first report left it.
pub reconcile-idempotent :
    (now later : ℕ) (p : Report) (pay again : Payload) (db db' db'' : Ledger)
    → reconcile_spend_guard_sync now p db ≡ ok (pay, db')
    → reconcile_spend_guard_sync later p db' ≡ ok (again, db'')
    → p.resolve_unknown ≡ false
    → fetch_one (has_id p.reservation_id) db''.reservations
      ≡ fetch_one (has_id p.reservation_id) db'.reservations
reconcile-idempotent now later p pay again db db' db'' first second ordinary =
    let e = reconcile_spend_guard_sync-effect now p pay db db' first in
    let r' = reconciled_row now p e.row in
    let passed = fetch_one-passes (has_id p.reservation_id) (expired now db).reservations e.found in
    let once =
      lookup-reported now p pay db db' first p.reservation_id e.row e.row e.found e.found
      ∙ rw passed refl in
    let waited : fetch_one (has_id p.reservation_id) (expired later db').reservations ≡ some r' =
      fetch_one-update_where (λ y. y.reservation_id) (is_stale later) (mark_stale later)
        (λ y t. refl) p.reservation_id db'.reservations
      ∙ rw (once, settled_row now later p e.row) refl in
    let passed' =
      fetch_one-passes (has_id p.reservation_id) (expired later db').reservations waited in
    lookup-reported later p again db' db'' second p.reservation_id r' r' waited waited
    ∙ rw (passed', again_same now later p e.row ordinary) (sym once)

conflicting_row :
    (now actual : ℕ) (p : Report) (r : Reservation)
    → r.status ≡ reconciled
    → p.actual_ticks ≡ some actual
    → r.actual_ticks ≢ some actual
    → reconciled_row now p r ≡ mark_conflict now r
unfolding reconciled_row
conflicting_row now actual p r was given differs = ground (arith, was, given, differs)

-- A second, different amount for a reconciled reservation is not believed: the row becomes
-- unknown, and the payload does not admit the attempt.
pub reconcile-conflict :
    (now actual : ℕ) (p : Report) (pay : Payload) (r : Reservation) (db db' : Ledger)
    → reconcile_spend_guard_sync now p db ≡ ok (pay, db')
    → fetch_one (has_id p.reservation_id) (expired now db).reservations ≡ some r
    → r.status ≡ reconciled
    → p.actual_ticks ≡ some actual
    → r.actual_ticks ≢ some actual
    → (fetch_one (has_id p.reservation_id) db'.reservations ≡ some (mark_conflict now r))
      × (pay.admitted ≡ false)
      × (pay.status ≡ stored unknown)
unfolding reconciled_payload admission_payload
reconcile-conflict now actual p pay r db db' ran found was given differs =
    let e = reconcile_spend_guard_sync-effect now p pay db db' ran in
    let passed = fetch_one-passes (has_id p.reservation_id) (expired now db).reservations found in
    let now_row =
      lookup-reported now p pay db db' ran p.reservation_id r r found found
      ∙ rw (passed, conflicting_row now actual p r was given differs) refl in
    let read : e.stands ≡ mark_conflict now r = cc (e.reread, now_row) in
    (now_row, rw (e.told, read) refl, rw (e.told, read) refl)
