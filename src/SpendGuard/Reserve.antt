-- ===== src/SpendGuard/Reserve.antt =====
-- `reserve_spend_guard` of src/unigrok_public/state.py: one write transaction that expires stale
-- rows, replays a known reservation, or decides on a new one.
pub mod Effect
pub mod Admission
use grok_mcp_server.Base.{
  ℕ, ◌+◌, ◌-◌, ◌*◌, Option, none, some, List, [], ◌∷◌, ◌++◌, Bool, true, false, not, ◌&&◌, ◌||◌,
  ltb, leb, ◌==◌, if◌then◌else◌,
}
use grok_mcp_server.Base.Tables.{count_where, fetch_one}
use grok_mcp_server.SpendGuard.State.{
  GuardStatus, pending, reconciled, unknown, ReservationMode, fixed, remaining, Reason,
  reservation_exists, unknown_cost, scope_busy, limit_reached, ledger_capacity, Reservation, Amount,
  Ledger, bound_elsewhere, missing_amount, invalid_arguments, invalid_stale_seconds, Result, ok,
  err, Transaction, pure, raise, ◌>>=◌, ◌>>◌, day_of, mode_eq,
}
use grok_mcp_server.SpendGuard.Ticks.{spend_guard_ticks, round_floor, round_ceiling}
use grok_mcp_server.SpendGuard.Queries.{
  expire_spend_guard_reservations, in_scope_day, ensure_telemetry_baseline, Totals,
  spend_guard_totals, denied, stored, Payload, admission_payload, reason_or_unknown,
}

abbrev pub max_rows_per_scope_day : ℕ
max_rows_per_scope_day = 10_000

-- The arguments of `_reserve_spend_guard_sync`.
pub record Request : Type 0 where
  pub reservation_id : ℕ
  pub scope : ℕ
  pub limit_ticks : ℕ
  pub requested_ticks : Option ℕ
  pub reservation_mode : ReservationMode
  pub stale_after_seconds : ℕ
  pub telemetry_baseline_caller : Option ℕ

abbrev pub has_id : ℕ → Reservation → Bool
has_id id r = r.reservation_id == id

abbrev pub ticks_differ : ℕ → Option ℕ → Bool
ticks_differ reserved none = true
ticks_differ reserved (some requested) = not (reserved == requested)

-- A reservation id names one attempt: same scope, same mode and, in fixed mode, same amount.
abbrev pub is_other_attempt : Request → Reservation → Bool
is_other_attempt q r =
    not (r.scope == q.scope)
    || (not (mode_eq r.reservation_mode q.reservation_mode)
        || (mode_eq q.reservation_mode fixed && ticks_differ r.reserved_ticks q.requested_ticks))

abbrev pub is_admitted : GuardStatus → Bool
is_admitted pending = true
is_admitted reconciled = true
is_admitted unknown = false

-- The amount that a new reservation would hold.
abbrev pub amount_to_reserve : Request → Totals → Result ℕ
amount_to_reserve q t = elim q.reservation_mode [
  | remaining ↦ ok (q.limit_ticks - t.committed - t.held)
  | fixed ↦ elim q.requested_ticks [ none ↦ err missing_amount | some requested ↦ ok requested ]
]

-- The ladder of refusals: the first that applies, with the unknown count that it reports.
abbrev pub refusal : Request → Totals → (amount rows : ℕ) → Option (Reason × ℕ)
refusal q t amount rows =
    if ltb 0 t.unknowns
    then some (unknown_cost, t.unknowns)
    else if mode_eq q.reservation_mode remaining && ltb 0 t.held
    then some (scope_busy, 0)
    else if leb amount 0 || ltb q.limit_ticks (t.committed + t.held + amount)
    then some (limit_reached, 0)
    else if leb max_rows_per_scope_day rows
    then some (ledger_capacity, 0)
    else none

abbrev pub new_reservation : Request → (amount now : ℕ) → Reservation
new_reservation q amount now = record {
  reservation_id = q.reservation_id;
  scope = q.scope;
  utc_day = day_of now;
  status = pending;
  limit_ticks = q.limit_ticks;
  reserved_ticks = amount;
  reservation_mode = q.reservation_mode;
  actual_ticks = none;
  created_at = now;
  expires_at = now + q.stale_after_seconds * 1_000_000;
  reconciled_at = none;
  updated_at = now;
  unknown_reason = none;
}

unfoldable pub refused_payload : Request → (now : ℕ) → Totals → (amount : ℕ) → Reason × ℕ → Payload
refused_payload q now t amount (reason, unknowns) =
    admission_payload q.reservation_id q.scope (day_of now) denied q.reservation_mode q.limit_ticks
      amount t.committed t.held unknowns false false (some reason) none

unfoldable pub created_payload : Request → (now : ℕ) → Totals → (amount : ℕ) → Payload
created_payload q now t amount =
    admission_payload q.reservation_id q.scope (day_of now) (stored pending) q.reservation_mode
      q.limit_ticks amount t.committed (t.held + amount) 0 true true none
      (some (now + q.stale_after_seconds * 1_000_000))

unfoldable pub replay_payload : Request → Reservation → Totals → Payload
replay_payload q r t =
    admission_payload q.reservation_id q.scope r.utc_day (stored r.status) r.reservation_mode
      r.limit_ticks r.reserved_ticks t.committed t.held t.unknowns (is_admitted r.status) false
      (some
        (if is_admitted r.status then reservation_exists else reason_or_unknown r.unknown_reason))
      (some r.expires_at)

abbrev pub get : Transaction Ledger
get db = ok (db, db)

abbrev pub insert_reservation : Reservation → Transaction (Unit {0})
insert_reservation r db = ok (tt, record db { reservations = db.reservations ++ r ∷ [] })

abbrev pub lift : {A : Type 0} → Result A → Transaction A
lift (ok a) = pure a
lift (err e) = raise e

-- Whether the new reservation is inserted, once the totals and its amount are known.
unfoldable pub settle_admission : ℕ → Request → Totals → (amount rows : ℕ) → Transaction Payload
settle_admission now q t amount rows = elim (refusal q t amount rows) [
  | some why ↦ pure (refused_payload q now t amount why)
  | none ↦
      insert_reservation (new_reservation q amount now) >> pure (created_payload q now t amount)
]

-- The amount to hold: omitted in remaining mode, required in fixed mode.
abbrev pub reservation_amount : (reserve_remaining : Bool) → Option Amount → Result (Option ℕ)
reservation_amount true (some _) = err invalid_arguments
reservation_amount true none = ok none
reservation_amount false none = err invalid_arguments
reservation_amount false (some usd) = elim (spend_guard_ticks round_ceiling true usd) [
  | err e ↦ err e
  | ok t ↦ ok (some t)
]

abbrev pub mode_of : Bool → ReservationMode
mode_of reserve_remaining = if reserve_remaining then remaining else fixed

abbrev pub validated_stale_seconds : ℕ → Result ℕ
validated_stale_seconds seconds =
    if leb 1 seconds && leb seconds 86_400 then ok seconds else err invalid_stale_seconds

module _ (sum_cost : List Amount → Amount) where
  -- The branch for a reservation id that the table holds.
  unfoldable pub replay_reservation : ℕ → Request → Reservation → Transaction Payload
  replay_reservation now q r = if is_other_attempt q r then raise bound_elsewhere else do
    ensure_telemetry_baseline sum_cost q.scope r.utc_day q.telemetry_baseline_caller now
    db ← get
    pure (replay_payload q r (spend_guard_totals q.scope r.utc_day db))

  -- The branch for a new reservation id.
  unfoldable pub admit_reservation : ℕ → Request → Transaction Payload
  admit_reservation now q = do
    ensure_telemetry_baseline sum_cost q.scope (day_of now) q.telemetry_baseline_caller now
    db ← get
    let t = spend_guard_totals q.scope (day_of now) db
    amount ← lift (amount_to_reserve q t)
    settle_admission now q t amount
        (count_where (in_scope_day q.scope (day_of now)) db.reservations)

  unfoldable pub reserve_existing_or_new : ℕ → Request → Option Reservation → Transaction Payload
  reserve_existing_or_new now q (some r) = replay_reservation now q r
  reserve_existing_or_new now q none = admit_reservation now q

  -- `_reserve_spend_guard_sync`
  unfoldable pub reserve_spend_guard_sync : ℕ → Request → Transaction Payload
  reserve_spend_guard_sync now q = do
    expire_spend_guard_reservations now
    db ← get
    reserve_existing_or_new now q (fetch_one (has_id q.reservation_id) db.reservations)

  -- `reserve_spend_guard`, on identifiers that have passed their pattern.
  unfoldable pub reserve_spend_guard :
      (now reservation_id scope : ℕ)
      → (limit_usd : Amount) → (reserve_usd : Option Amount) → (stale_after_seconds : ℕ)
      → (reserve_remaining : Bool) → (telemetry_baseline_caller : Option ℕ) → Transaction Payload
  reserve_spend_guard now id scope limit_usd reserve_usd stale reserve_remaining caller = do
    limit_ticks ← lift (spend_guard_ticks round_floor false limit_usd)
    requested_ticks ← lift (reservation_amount reserve_remaining reserve_usd)
    seconds ← lift (validated_stale_seconds stale)
    reserve_spend_guard_sync now (record {
      reservation_id = id;
      scope = scope;
      limit_ticks = limit_ticks;
      requested_ticks = requested_ticks;
      reservation_mode = mode_of reserve_remaining;
      stale_after_seconds = seconds;
      telemetry_baseline_caller = caller;
    })
