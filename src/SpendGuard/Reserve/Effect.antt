-- ===== src/SpendGuard/Reserve/Effect.antt =====
-- Every outcome of `_reserve_spend_guard_sync`, with what it wrote and what held before.
use grok_mcp_server.Base.{
  ℕ, ◌+◌, ◌≤◌, ◌<◌, ◌≡◌, none, some, List, [], ◌∷◌, ◌++◌, true, false, arith, if◌then◌else◌,
  Option-cases, Bool-cases, subst, sym, inl, inr, ◌⊎◌,
}
use grok_mcp_server.Base.Tables.{count_where, fetch_one, update_where}
use grok_mcp_server.SpendGuard.State.{
  remaining, Reservation, Amount, Ledger, Result, ok, err, day_of, mode_eq, >>=-eq-ok,
}
use grok_mcp_server.SpendGuard.Queries.{
  expire_spend_guard_reservations, is_stale, mark_stale, in_scope_day, Totals, spend_guard_totals,
  Payload, admission_payload, ensure_telemetry_baseline,
}
use grok_mcp_server.SpendGuard.Queries.Baselines.{BaselineEffect, ensure_telemetry_baseline-effect}
use grok_mcp_server.SpendGuard.Reserve.{
  is_other_attempt, max_rows_per_scope_day, Request, has_id, amount_to_reserve, refusal,
  new_reservation, created_payload, refused_payload, lift, settle_admission, admit_reservation,
  replay_reservation, replay_payload, reserve_spend_guard_sync, reserve_existing_or_new,
}

-- What admits a new reservation, given the totals and the number of its scope and day.
pub record IsAdmissible (q : Request) (t : Totals) (amount rows : ℕ) : Type 0 where
  pub all_known : t.unknowns ≡ 0
  pub alone : mode_eq q.reservation_mode remaining ≡ true → t.held ≡ 0
  pub positive : 1 ≤ amount
  pub within_limit : t.committed + t.held + amount ≤ q.limit_ticks
  pub has_room : rows < max_rows_per_scope_day

pub refusal-none :
    (q : Request) (t : Totals) (amount rows : ℕ)
    → refusal q t amount rows ≡ none
    → IsAdmissible q t amount rows
refusal-none q t amount rows h = ground arith

-- The ledger with the stale reservations marked.
abbrev pub expired : ℕ → Ledger → Ledger
expired now db = record db {
  reservations = update_where (is_stale now) (mark_stale now) db.reservations;
}

-- The ledger with one more reservation.
abbrev pub inserted_into : Ledger → Reservation → Ledger
inserted_into db r = record db { reservations = db.reservations ++ r ∷ [] }

-- How a successful call ended. `db` is the ledger after expiry, `seen` that of the totals.
pub data ReserveEffect (now : ℕ) (q : Request) (db : Ledger) (p : Payload) (db' : Ledger)
    : Type 0 where
  -- the id was known: nothing but a missing snapshot is written
  replayed :
      (r : Reservation)
      → fetch_one (has_id q.reservation_id) db.reservations ≡ some r
      → BaselineEffect q.scope r.utc_day q.telemetry_baseline_caller db db'
      → p ≡ replay_payload q r (spend_guard_totals q.scope r.utc_day db')
      → r.scope ≡ q.scope
      → ReserveEffect now q db p db'
  -- the id is new and is refused
  turned_away :
      fetch_one (has_id q.reservation_id) db.reservations ≡ none
      → BaselineEffect q.scope (day_of now) q.telemetry_baseline_caller db db'
      → p.created ≡ false
      → p.admitted ≡ false
      → p.execute_provider ≡ false
      → ReserveEffect now q db p db'
  -- the id is new and is inserted
  created :
      (seen : Ledger) (amount : ℕ)
      → fetch_one (has_id q.reservation_id) db.reservations ≡ none
      → BaselineEffect q.scope (day_of now) q.telemetry_baseline_caller db seen
      → IsAdmissible q
          (spend_guard_totals q.scope (day_of now) seen)
          amount
          (count_where (in_scope_day q.scope (day_of now)) seen.reservations)
      → db' ≡ inserted_into seen (new_reservation q amount now)
      → p ≡ created_payload q now (spend_guard_totals q.scope (day_of now) seen) amount
      → ReserveEffect now q db p db'

settle_cases :
    (now : ℕ) (q : Request) (t : Totals) (amount rows : ℕ) (p : Payload) (db db' : Ledger)
    → settle_admission now q t amount rows db ≡ ok (p, db')
    → ((db' ≡ db) × (p.created ≡ false) × (p.admitted ≡ false) × (p.execute_provider ≡ false))
      ⊎ ((refusal q t amount rows ≡ none)
          × (db' ≡ inserted_into db (new_reservation q amount now))
          × (p ≡ created_payload q now t amount))
unfolding settle_admission refused_payload admission_payload
settle_cases now q t amount rows p db db' h = elim (Option-cases (refusal q t amount rows)) [
  | inl none_applies ↦ inr (none_applies, ground arith, ground arith)
  | inr (why, applies) ↦ inl (ground arith)
]

settled-effect :
    (now : ℕ) (q : Request) (amount : ℕ) (p : Payload) (db seen db' : Ledger)
    → fetch_one (has_id q.reservation_id) db.reservations ≡ none
    → BaselineEffect q.scope (day_of now) q.telemetry_baseline_caller db seen
    → settle_admission now q
        (spend_guard_totals q.scope (day_of now) seen)
        amount
        (count_where (in_scope_day q.scope (day_of now)) seen.reservations)
        seen
      ≡ ok (p, db')
    → ReserveEffect now q db p db'
settled-effect now q amount p db seen db' new effect h =
    let t = spend_guard_totals q.scope (day_of now) seen in
    let rows = count_where (in_scope_day q.scope (day_of now)) seen.reservations in
    elim (settle_cases now q t amount rows p seen db' h) [
      | inl (same, c, a, x) ↦
          turned_away new (subst (BaselineEffect q.scope (day_of now) _ db) (sym same) effect) c a x
      | inr (free, wrote, paid) ↦
          created seen amount new effect (refusal-none q t amount rows free) wrote paid
    ]

-- A value that is only checked leaves the ledger alone.
lift-keeps :
    {A : Type 0} (o : Result A) (a : A) (db db' : Ledger) → lift o db ≡ ok (a, db') → db' ≡ db
lift-keeps (ok x) a db db' h = cc
lift-keeps (err e) a db db' h = cc

module _ (sum_cost : List Amount → Amount) where
  admit_reservation-effect :
      (now : ℕ) (q : Request) (p : Payload) (db db' : Ledger)
      → fetch_one (has_id q.reservation_id) db.reservations ≡ none
      → admit_reservation sum_cost now q db ≡ ok (p, db')
      → ReserveEffect now q db p db'
  unfolding admit_reservation
  admit_reservation-effect now q p db db' new h =
      let d = day_of now in
      let ensure = ensure_telemetry_baseline sum_cost q.scope d q.telemetry_baseline_caller now in
      let (ticks, seen, ensured, rest) = >>=-eq-ok ensure _ db h in
      let effect =
        ensure_telemetry_baseline-effect sum_cost q.scope d now ticks q.telemetry_baseline_caller db
          seen ensured in
      let t = spend_guard_totals q.scope d seen in
      let (amount, same, fits, settled) = >>=-eq-ok (lift (amount_to_reserve q t)) _ seen rest in
      settled-effect now q amount p db seen db' new effect
        (rw (lift-keeps (amount_to_reserve q t) amount seen same fits) at settled)

  replay_reservation-effect :
      (now : ℕ) (q : Request) (r : Reservation) (p : Payload) (db db' : Ledger)
      → fetch_one (has_id q.reservation_id) db.reservations ≡ some r
      → replay_reservation sum_cost now q r db ≡ ok (p, db')
      → ReserveEffect now q db p db'
  unfolding replay_reservation
  replay_reservation-effect now q r p db db' known h = elim (Bool-cases (is_other_attempt q r)) [
    | inl other ↦ cc (rw (other, if◌then◌else◌) at h)
    | inr mine ↦
        let ensure =
          ensure_telemetry_baseline sum_cost q.scope r.utc_day q.telemetry_baseline_caller now in
        let (ticks, seen, ensured, rest) = >>=-eq-ok ensure _ db (rw mine at h) in
        let here : db' ≡ seen = cc rest in
        let effect =
          ensure_telemetry_baseline-effect sum_cost q.scope r.utc_day now ticks
            q.telemetry_baseline_caller db seen ensured in
        replayed r known (subst (BaselineEffect q.scope r.utc_day _ db) (sym here) effect)
          (rw here (cc rest)) (ground arith)
  ]

  pub reserve_spend_guard_sync-effect :
      (now : ℕ) (q : Request) (p : Payload) (db db' : Ledger)
      → reserve_spend_guard_sync sum_cost now q db ≡ ok (p, db')
      → ReserveEffect now q (expired now db) p db'
  unfolding reserve_spend_guard_sync expire_spend_guard_reservations reserve_existing_or_new
  reserve_spend_guard_sync-effect now q p db db' h =
      elim (Option-cases (fetch_one (has_id q.reservation_id) (expired now db).reservations)) [
        | inl new ↦ admit_reservation-effect now q p (expired now db) db' new (rw new at h)
        | inr (r, known) ↦
            replay_reservation-effect now q r p (expired now db) db' known (rw known at h)
      ]
