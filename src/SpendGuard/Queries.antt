-- ===== src/SpendGuard/Queries.antt =====
-- The helpers that every spend-guard transaction runs on its connection
-- (src/unigrok_public/state.py): expiry, the telemetry baseline, the totals and the payload.
pub mod Baselines
use grok_mcp_server.Base.{
  ℕ, ◌+◌, ◌-◌, ◌*◌, min, max, Option, none, some, List, [], ◌∷◌, ◌++◌, map, Bool, false, ◌&&◌, ◌||◌,
  ltb, leb, ◌==◌, if◌then◌else◌, sum_by,
}
use grok_mcp_server.Base.Tables.{update_where, count_where, select_where, fetch_one}
use grok_mcp_server.SpendGuard.State.{
  GuardStatus, pending, reconciled, unknown, ReservationMode, Reason, stale_reservation,
  unknown_cost, Reservation, Baseline, Amount, Telemetry, Ledger, baseline_caller_mismatch, ok, err,
  Transaction, pure, raise, day_length, status_eq,
}
use grok_mcp_server.SpendGuard.Ticks.{spend_guard_ticks, round_ceiling}

abbrev pub is_stale : ℕ → Reservation → Bool
is_stale now r = status_eq r.status pending && leb r.expires_at now

abbrev pub mark_stale : ℕ → Reservation → Reservation
mark_stale now r = record r {
  status = unknown;
  actual_ticks = none;
  unknown_reason = some stale_reservation;
  updated_at = now;
}

unfoldable pub expire_spend_guard_reservations : ℕ → Transaction ℕ
expire_spend_guard_reservations now db = ok (
  count_where (is_stale now) db.reservations,
  record db { reservations = update_where (is_stale now) (mark_stale now) db.reservations },
)

abbrev pub in_scope_day : ℕ → ℕ → Reservation → Bool
in_scope_day scope day r = r.scope == scope && r.utc_day == day

abbrev pub baseline_at : ℕ → ℕ → Baseline → Bool
baseline_at scope day b = b.scope == scope && b.utc_day == day

-- `SELECT MIN(created_at)`
abbrev pub min_created_at : List Reservation → Option ℕ
min_created_at [] = none
min_created_at (r ∷ rs) = elim (min_created_at rs) [
  | none ↦ some r.created_at
  | some m ↦ some (min r.created_at m)
]

-- The end of the telemetry that predates the scope's first reservation of the day.
abbrev pub telemetry_upper_bound : ℕ → Option ℕ → ℕ
telemetry_upper_bound day none = (day + 1) * day_length
telemetry_upper_bound day (some first) = min ((day + 1) * day_length) (max (day * day_length) first)

abbrev pub telemetry_before : ℕ → ℕ → ℕ → Telemetry → Bool
telemetry_before caller from to t =
    t.caller == caller && (leb from t.created_at && ltb t.created_at to)

-- `COALESCE(MAX(id), 0)`
abbrev pub max_id : List Telemetry → ℕ
max_id [] = 0
max_id (t ∷ ts) = max t.id (max_id ts)

-- The telemetry of a caller that a snapshot of the scope and the day sums up.
abbrev pub telemetry_rows : (scope day caller : ℕ) → Ledger → List Telemetry
telemetry_rows scope day caller db =
    let first = min_created_at (select_where (in_scope_day scope day) db.reservations) in
    select_where (telemetry_before caller (day * day_length) (telemetry_upper_bound day first))
      db.telemetry

abbrev pub snapshot : (scope day caller now ticks : ℕ) → List Telemetry → Baseline
snapshot scope day caller now ticks rows = record {
  scope = scope;
  utc_day = day;
  telemetry_caller = caller;
  baseline_ticks = ticks;
  source_max_telemetry_id = max_id rows;
  created_at = now;
}

-- SQLite's `COALESCE(SUM(cost_usd), 0)` adds floats, so the sum is a parameter.
module _ (sum_cost : List Amount → Amount) where
  unfoldable pub insert_baseline : ℕ → ℕ → ℕ → ℕ → Transaction ℕ
  insert_baseline scope day caller now db =
      let rows = telemetry_rows scope day caller db in
      elim (spend_guard_ticks round_ceiling false (sum_cost (map (λ t. t.cost_usd) rows))) [
        | err e ↦ err e
        | ok ticks ↦ ok (
          ticks,
          record db { baselines = db.baselines ++ snapshot scope day caller now ticks rows ∷ [] },
        )
      ]

  abbrev pub check_baseline : Option ℕ → Baseline → Transaction ℕ
  check_baseline none b = pure b.baseline_ticks
  check_baseline (some caller) b =
      if b.telemetry_caller == caller then pure b.baseline_ticks else raise baseline_caller_mismatch

  abbrev pub missing_baseline : ℕ → ℕ → Option ℕ → ℕ → Transaction ℕ
  missing_baseline scope day none now = pure 0
  missing_baseline scope day (some caller) now = insert_baseline scope day caller now

  unfoldable pub ensure_telemetry_baseline : ℕ → ℕ → Option ℕ → ℕ → Transaction ℕ
  ensure_telemetry_baseline scope day caller now db =
      elim (fetch_one (baseline_at scope day) db.baselines) [
        | some b ↦ check_baseline caller b db
        | none ↦ missing_baseline scope day caller now db
      ]

pub record Totals : Type 0 where
  pub committed : ℕ
  pub held : ℕ
  pub unknowns : ℕ

abbrev pub committed_ticks_of : Reservation → ℕ
committed_ticks_of r = elim r.actual_ticks [
  | none ↦ 0
  | some actual ↦ if status_eq r.status reconciled then actual else 0
]

abbrev pub pending_ticks_of : Reservation → ℕ
pending_ticks_of r = if status_eq r.status pending then r.reserved_ticks else 0

abbrev pub unknown_count_of : Reservation → ℕ
unknown_count_of r = elim r.actual_ticks [
  | none ↦ if status_eq r.status unknown || status_eq r.status reconciled then 1 else 0
  | some _ ↦ if status_eq r.status unknown then 1 else 0
]

-- `COALESCE((SELECT baseline_ticks …), 0)`
abbrev pub ticks_or_zero : Option Baseline → ℕ
ticks_or_zero none = 0
ticks_or_zero (some b) = b.baseline_ticks

abbrev pub baseline_ticks_at : ℕ → ℕ → List Baseline → ℕ
baseline_ticks_at scope day bs = ticks_or_zero (fetch_one (baseline_at scope day) bs)

-- `_spend_guard_totals_connection`
unfoldable pub spend_guard_totals : ℕ → ℕ → Ledger → Totals
spend_guard_totals scope day db =
    let rows = select_where (in_scope_day scope day) db.reservations in
    record {
      committed = baseline_ticks_at scope day db.baselines + sum_by committed_ticks_of rows;
      held = sum_by pending_ticks_of rows;
      unknowns = sum_by unknown_count_of rows;
    }

-- What a payload says of a reservation: its stored status, or that it was denied.
pub data PayloadStatus : Type 0 where
  denied : PayloadStatus
  stored : GuardStatus → PayloadStatus

pub record Payload : Type 0 where
  pub reservation_id : ℕ
  pub scope : ℕ
  pub utc_day : ℕ
  pub status : PayloadStatus
  pub reservation_mode : ReservationMode
  pub admitted : Bool
  pub execute_provider : Bool
  pub created : Bool
  pub reason : Option Reason
  pub limit_ticks : ℕ
  pub reserved_ticks : ℕ
  pub committed_ticks : ℕ
  pub pending_ticks : ℕ
  pub remaining_ticks : ℕ
  pub unknown_count : ℕ
  pub expires_at : Option ℕ

abbrev pub is_pending : PayloadStatus → Bool
is_pending denied = false
is_pending (stored s) = status_eq s pending

-- `_spend_guard_admission_payload`, with its amounts in ticks.
unfoldable pub admission_payload :
    (reservation_id scope utc_day : ℕ)
    → PayloadStatus
    → ReservationMode
    → (limit_ticks reserved_ticks committed_ticks pending_ticks unknown_count : ℕ)
    → (admitted created : Bool) → Option Reason
    → Option ℕ
    → Payload
admission_payload id scope day status mode limit reserved committed held unknowns admitted created
      reason expiry =
    record {
      reservation_id = id;
      scope = scope;
      utc_day = day;
      status = status;
      reservation_mode = mode;
      admitted = admitted;
      execute_provider = admitted && (created && is_pending status);
      created = created;
      reason = reason;
      limit_ticks = limit;
      reserved_ticks = reserved;
      committed_ticks = committed;
      pending_ticks = held;
      remaining_ticks = limit - (committed + held);
      unknown_count = unknowns;
      expires_at = expiry;
    }

-- `str(row["unknown_reason"] or "unknown_cost")`
abbrev pub reason_or_unknown : Option Reason → Reason
reason_or_unknown none = unknown_cost
reason_or_unknown (some reason) = reason
