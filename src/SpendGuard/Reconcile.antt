-- ===== src/SpendGuard/Reconcile.antt =====
-- `reconcile_spend_guard`, `resolve_spend_guard_unknown` and `spend_guard_status` of
-- src/unigrok_public/state.py.
pub mod Effect
pub mod Rows
use grok_mcp_server.Base.{ℕ, Option, none, some, Bool, true, false, not, ltb, ◌==◌, if◌then◌else◌}
use grok_mcp_server.Base.Tables.{update_where, fetch_one}
use grok_mcp_server.SpendGuard.State.{
  pending, reconciled, unknown, Reason, conflicting_reconciliation, invalid_actual_cost,
  authoritative_resolution, Reservation, Amount, not_found, other_scope, disappeared, ok, err,
  Transaction, pure, raise, ◌>>=◌, ◌>>◌, day_of, status_eq,
}
use grok_mcp_server.SpendGuard.Ticks.{spend_guard_ticks, round_ceiling}
use grok_mcp_server.SpendGuard.Queries.{
  expire_spend_guard_reservations, spend_guard_totals, stored, Payload, admission_payload,
  reason_or_unknown, Totals,
}
use grok_mcp_server.SpendGuard.Reserve.{has_id, get, lift}

-- The arguments of `_reconcile_spend_guard_sync`.
pub record Report : Type 0 where
  pub reservation_id : ℕ
  pub actual_ticks : Option ℕ
  pub unknown_reason : Reason
  pub resolve_unknown : Bool
  pub expected_scope : Option ℕ

abbrev pub scope_differs : Option ℕ → ℕ → Bool
scope_differs none scope = false
scope_differs (some expected) scope = not (scope == expected)

abbrev pub same_ticks : Option ℕ → ℕ → Bool
same_ticks none actual = false
same_ticks (some current) actual = current == actual

abbrev pub mark_conflict : ℕ → Reservation → Reservation
mark_conflict now r = record r {
  status = unknown;
  actual_ticks = none;
  unknown_reason = some conflicting_reconciliation;
  updated_at = now;
}

abbrev pub mark_unknown : ℕ → Reason → Reservation → Reservation
mark_unknown now reason r = record r {
  status = unknown;
  actual_ticks = none;
  unknown_reason = some reason;
  reconciled_at = some now;
  updated_at = now;
}

abbrev pub mark_reconciled : ℕ → ℕ → Reservation → Reservation
mark_reconciled now actual r = record r {
  status = reconciled;
  actual_ticks = some actual;
  unknown_reason = none;
  reconciled_at = some now;
  updated_at = now;
}

-- The row after the report, by the status and the amount that it holds.
unfoldable pub reconciled_row : ℕ → Report → Reservation → Reservation
reconciled_row now p r = elim r.status [
  | reconciled ↦ elim p.actual_ticks [
    | none ↦ r
    | some actual ↦ if same_ticks r.actual_ticks actual then r else mark_conflict now r
  ]
  | unknown ↦ if not p.resolve_unknown then r else elim p.actual_ticks [
    | none ↦ mark_unknown now p.unknown_reason r
    | some actual ↦ mark_reconciled now actual r
  ]
  | pending ↦ elim p.actual_ticks [
    | none ↦ mark_unknown now p.unknown_reason r
    | some actual ↦ mark_reconciled now actual r
  ]
]

-- `UPDATE … WHERE reservation_id=?`
abbrev pub update_reservation : ℕ → (Reservation → Reservation) → Transaction (Unit {0})
update_reservation id change db =
    ok (tt, record db { reservations = update_where (has_id id) change db.reservations })

unfoldable pub reconciled_payload : Report → Reservation → Totals → Payload
reconciled_payload p r t =
    admission_payload p.reservation_id r.scope r.utc_day (stored r.status) r.reservation_mode
      r.limit_ticks r.reserved_ticks t.committed t.held t.unknowns (status_eq r.status reconciled)
      false (if status_eq r.status unknown then some (reason_or_unknown r.unknown_reason) else none)
      (some r.expires_at)

unfoldable pub report_reconciled : Report → Transaction Payload
report_reconciled p db = elim (fetch_one (has_id p.reservation_id) db.reservations) [
  | none ↦ err disappeared
  | some r ↦ ok (reconciled_payload p r (spend_guard_totals r.scope r.utc_day db), db)
]

unfoldable pub reconcile_row : ℕ → Report → Option Reservation → Transaction Payload
reconcile_row now p none = raise not_found
reconcile_row now p (some r) =
    if scope_differs p.expected_scope r.scope
    then raise other_scope
    else (update_reservation p.reservation_id (λ _. reconciled_row now p r) >> report_reconciled p)

-- `_reconcile_spend_guard_sync`
unfoldable pub reconcile_spend_guard_sync : ℕ → Report → Transaction Payload
reconcile_spend_guard_sync now p = do
  expire_spend_guard_reservations now
  db ← get
  reconcile_row now p (fetch_one (has_id p.reservation_id) db.reservations)

-- A known cost in ticks, or the reason why it is not known.
abbrev pub reported_cost : Option Amount → Reason → Option ℕ × Reason
reported_cost none reason = (none, reason)
reported_cost (some usd) reason = elim (spend_guard_ticks round_ceiling false usd) [
  | ok ticks ↦ (some ticks, reason)
  | err _ ↦ (none, invalid_actual_cost)
]

unfoldable pub reconcile_spend_guard :
    (now id : ℕ) → Option Amount → Reason → Option ℕ → Transaction Payload
reconcile_spend_guard now id actual_cost_usd reason expected_scope =
    let cost = reported_cost actual_cost_usd reason in
    reconcile_spend_guard_sync now (record {
      reservation_id = id;
      actual_ticks = cost.0;
      unknown_reason = cost.1;
      resolve_unknown = false;
      expected_scope = expected_scope;
    })

unfoldable pub resolve_spend_guard_unknown : (now id : ℕ) → Amount → Transaction Payload
resolve_spend_guard_unknown now id authoritative_cost_usd = do
  actual ← lift (spend_guard_ticks round_ceiling false authoritative_cost_usd)
  reconcile_spend_guard_sync now (record {
    reservation_id = id;
    actual_ticks = some actual;
    unknown_reason = authoritative_resolution;
    resolve_unknown = true;
    expected_scope = none;
  })

pub record StatusReport : Type 0 where
  pub scope : ℕ
  pub utc_day : ℕ
  pub committed_ticks : ℕ
  pub pending_ticks : ℕ
  pub unknown_count : ℕ
  pub blocked_unknown : Bool
  pub expired_reservations_marked_unknown : ℕ

-- `_spend_guard_status_sync`
unfoldable pub spend_guard_status : (now scope : ℕ) → Transaction StatusReport
spend_guard_status now scope = do
  expired ← expire_spend_guard_reservations now
  db ← get
  let t = spend_guard_totals scope (day_of now) db
  pure (record {
    scope = scope;
    utc_day = day_of now;
    committed_ticks = t.committed;
    pending_ticks = t.held;
    unknown_count = t.unknowns;
    blocked_unknown = ltb 0 t.unknowns;
    expired_reservations_marked_unknown = expired;
  })
