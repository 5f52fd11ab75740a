-- ===== src/SpendGuard/State.antt =====
-- The tables of the spend guard (src/unigrok_public/state.py, `_initialize_sync`) and its
-- transactions. Identifiers are only compared for equality, so numbers stand for them.
-- Instants are microseconds since the epoch; the ISO texts of one time zone that the source
-- stores are ordered as the instants are.
use grok_mcp_server.Base.{◌≡◌, refl, ◌⊎◌, inl, inr, ℕ, ◌/◌, Option, List, Bool, true, false}

-- The columns `status` and `reservation_mode` by their CHECK constraints.
pub data GuardStatus : Type 0 where
  pending reconciled unknown : GuardStatus

pub data ReservationMode : Type 0 where
  fixed remaining : ReservationMode

-- Machine labels: those that the store writes itself, and those that a caller passes in.
pub data Reason : Type 0 where
  reservation_exists unknown_cost scope_busy limit_reached ledger_capacity : Reason
  stale_reservation conflicting_reconciliation invalid_actual_cost : Reason
  authoritative_resolution : Reason
  label : ℕ → Reason

pub record Reservation : Type 0 where
  pub reservation_id : ℕ
  pub scope : ℕ
  pub utc_day : ℕ
  pub status : GuardStatus
  pub limit_ticks : ℕ
  pub reserved_ticks : ℕ
  pub reservation_mode : ReservationMode
  pub actual_ticks : Option ℕ
  pub created_at : ℕ
  pub expires_at : ℕ
  pub reconciled_at : Option ℕ
  pub updated_at : ℕ
  pub unknown_reason : Option Reason

pub record Baseline : Type 0 where
  pub scope : ℕ
  pub utc_day : ℕ
  pub telemetry_caller : ℕ
  pub baseline_ticks : ℕ
  pub source_max_telemetry_id : ℕ
  pub created_at : ℕ

-- A USD amount as Python hands it over: `decimal n e` is n / 10 ^ e.
pub data Amount : Type 0 where
  boolean malformed non_finite negative : Amount
  decimal : (digits exponent : ℕ) → Amount

-- The columns of `telemetry` that the spend guard reads.
pub record Telemetry : Type 0 where
  pub id : ℕ
  pub caller : ℕ
  pub created_at : ℕ
  pub cost_usd : Amount

pub record Ledger : Type 0 where
  pub reservations : List Reservation
  pub baselines : List Baseline
  pub telemetry : List Telemetry

-- The exceptions that the operations raise.
pub data GuardError : Type 0 where
  invalid_amount storage_range invalid_arguments baseline_caller_mismatch : GuardError
  bound_elsewhere missing_amount not_found other_scope disappeared : GuardError
  invalid_stale_seconds : GuardError

pub data Result {ℓ} (A : Type ℓ) : Type ℓ where
  ok : A → Result A
  err : GuardError → Result A

-- A transaction: `with self._connect()` commits what the body wrote, or rolls it back when
-- the body raises, so an error carries no ledger.
abbrev pub Transaction : Type 0 → Type 0
Transaction A = Ledger → Result (A × Ledger)

module _ {A : Type 0} where
  abbrev pub pure : A → Transaction A
  pure a db = ok (a, db)

  abbrev pub raise : GuardError → Transaction A
  raise e db = err e

infixl 5 ◌>>=◌ ◌>>◌
abbrev pub ◌>>=◌ : {A B : Type 0} → Transaction A → (A → Transaction B) → Transaction B
◌>>=◌ m f db = elim (m db) [ ok r ↦ f r.0 r.1 | err e ↦ err e ]

abbrev pub ◌>>◌ : {A B : Type 0} → Transaction A → Transaction B → Transaction B
m >> k = m >>= λ _. k

-- The ledger after a call, which is the one before it where the call raised.
abbrev pub after : {A : Type 0} → Transaction A → Ledger → Ledger
after m db = elim (m db) [ ok r ↦ r.1 | err e ↦ db ]

abbrev pub day_length : ℕ
day_length = 86_400_000_000

-- `_spend_guard_clock`: the UTC day of an instant.
abbrev pub day_of : ℕ → ℕ
day_of instant = instant / day_length

abbrev pub status_eq : GuardStatus → GuardStatus → Bool
status_eq pending pending = true
status_eq reconciled reconciled = true
status_eq unknown unknown = true
status_eq _ _ = false

abbrev pub mode_eq : ReservationMode → ReservationMode → Bool
mode_eq fixed fixed = true
mode_eq remaining remaining = true
mode_eq _ _ = false

pub Result-cases {ℓ} :
    {A : Type ℓ} (o : Result A) → ((e : GuardError) × (o ≡ err e)) ⊎ ((a : A) × (o ≡ ok a))
Result-cases (ok a) = inr (a, refl)
Result-cases (err e) = inl (e, refl)

-- Inversion of a successful bind.
pub >>=-eq-ok :
    {A B : Type 0} (m : Transaction A) (f : A → Transaction B) (db : Ledger) {r : B × Ledger}
    → (m >>= f) db ≡ ok r
    → (a : A) × (db' : Ledger) × (m db ≡ ok (a, db')) × (f a db' ≡ ok r)
>>=-eq-ok m f db h = elim (Result-cases (m db)) [
  | inl (e, fails) ↦ cc (rw (fails, ◌>>=◌) at h)
  | inr (r, fine) ↦ (r.0, r.1, fine, (rw (fine, ◌>>=◌) at h))
]
