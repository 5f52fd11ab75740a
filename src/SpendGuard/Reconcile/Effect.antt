-- ===== src/SpendGuard/Reconcile/Effect.antt =====
-- Every outcome of `_reconcile_spend_guard_sync`, with what it wrote.
use grok_mcp_server.Base.{
  ℕ, ◌≡◌, some, false, arith, if◌then◌else◌, Option-cases, Bool-cases, inl, inr,
}
use grok_mcp_server.Base.Tables.{fetch_one, update_where}
use grok_mcp_server.SpendGuard.State.{Reservation, Ledger, ok}
use grok_mcp_server.SpendGuard.Queries.{
  expire_spend_guard_reservations, Payload, spend_guard_totals,
}
use grok_mcp_server.SpendGuard.Reserve.{has_id}
use grok_mcp_server.SpendGuard.Reserve.Effect.{expired}
use grok_mcp_server.SpendGuard.Reconcile.{
  Report, scope_differs, reconciled_row, reconciled_payload, report_reconciled, reconcile_row,
  reconcile_spend_guard_sync,
}

-- The ledger with the reported row rewritten.
abbrev pub reported_into : ℕ → Report → Reservation → Ledger → Ledger
reported_into now p r db = record db {
  reservations =
      update_where (has_id p.reservation_id) (λ _. reconciled_row now p r) db.reservations;
}

-- What a successful report found and wrote. `db` is the ledger after expiry.
pub record ReconcileEffect (now : ℕ) (p : Report) (db : Ledger) (pay : Payload) (db' : Ledger)
    : Type 0 where
  pub row : Reservation
  pub found : fetch_one (has_id p.reservation_id) db.reservations ≡ some row
  pub in_scope : scope_differs p.expected_scope row.scope ≡ false
  pub wrote : db' ≡ reported_into now p row db
  pub stands : Reservation
  pub reread : fetch_one (has_id p.reservation_id) db'.reservations ≡ some stands
  pub told : pay ≡ reconciled_payload p stands (spend_guard_totals stands.scope stands.utc_day db')

report_reconciled-reads :
    (p : Report) (pay : Payload) (db db' : Ledger)
    → report_reconciled p db ≡ ok (pay, db')
    → (r : Reservation) × (db' ≡ db)
      × (fetch_one (has_id p.reservation_id) db.reservations ≡ some r)
      × (pay ≡ reconciled_payload p r (spend_guard_totals r.scope r.utc_day db))
unfolding report_reconciled
report_reconciled-reads p pay db db' h =
    elim (Option-cases (fetch_one (has_id p.reservation_id) db.reservations)) [
      | inl gone ↦ cc (rw (gone, report_reconciled) at h)
      | inr (r, found) ↦ (r, ground arith, found, ground arith)
    ]

reconcile_row-effect :
    (now : ℕ) (p : Report) (r : Reservation) (pay : Payload) (db db' : Ledger)
    → fetch_one (has_id p.reservation_id) db.reservations ≡ some r
    → reconcile_row now p (some r) db ≡ ok (pay, db')
    → ReconcileEffect now p db pay db'
unfolding reconcile_row
reconcile_row-effect now p r pay db db' found h =
    elim (Bool-cases (scope_differs p.expected_scope r.scope)) [
      | inl other ↦ cc (rw (other, if◌then◌else◌) at h)
      | inr mine ↦
          let (stands, same, reread, told) =
            report_reconciled-reads p pay (reported_into now p r db) db' (rw mine at h) in
          record {
            row = r;
            found = found;
            in_scope = mine;
            wrote = same;
            stands = stands;
            reread = rw same reread;
            told = rw same told;
          }
    ]

pub reconcile_spend_guard_sync-effect :
    (now : ℕ) (p : Report) (pay : Payload) (db db' : Ledger)
    → reconcile_spend_guard_sync now p db ≡ ok (pay, db')
    → ReconcileEffect now p (expired now db) pay db'
unfolding reconcile_spend_guard_sync expire_spend_guard_reservations reconcile_row
reconcile_spend_guard_sync-effect now p pay db db' h =
    elim (Option-cases (fetch_one (has_id p.reservation_id) (expired now db).reservations)) [
      | inl missing ↦ cc (rw missing at h)
      | inr (r, found) ↦ reconcile_row-effect now p r pay (expired now db) db' found (rw found at h)
    ]
