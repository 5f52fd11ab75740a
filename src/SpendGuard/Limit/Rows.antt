-- ===== src/SpendGuard/Limit/Rows.antt =====
-- What a reservation can still cost: its exact cost where that is known, else what it reserves.
use grok_mcp_server.Base.{
  ℕ, ◌+◌, ◌≤◌, ◌≡◌, sym, ◌∙◌, Option, none, some, List, [], ◌∷◌, arith, if◌then◌else◌, All, sum_by,
}
use grok_mcp_server.Base.Tables.Laws.{sum_by-select_where}
use grok_mcp_server.SpendGuard.State.{
  GuardStatus, pending, reconciled, unknown, Reservation, Ledger,
}
use grok_mcp_server.SpendGuard.Queries.{
  in_scope_day, baseline_ticks_at, committed_ticks_of, pending_ticks_of, unknown_count_of,
  spend_guard_totals,
}

-- The amount column by the status, given the true cost.
abbrev pub expected_actual : GuardStatus → ℕ → Option ℕ
expected_actual pending cost = none
expected_actual unknown cost = none
expected_actual reconciled cost = some cost

module _ (cost : ℕ → ℕ) where
  -- The row covers its true cost, and holds that cost exactly when it is reconciled.
  abbrev pub IsHonest : Reservation → Type 0
  IsHonest r =
      (cost r.reservation_id ≤ r.reserved_ticks)
      × (r.actual_ticks ≡ expected_actual r.status (cost r.reservation_id))

  abbrev pub weight : Reservation → ℕ
  weight r = elim r.status [
    | pending ↦ r.reserved_ticks
    | unknown ↦ r.reserved_ticks
    | reconciled ↦ cost r.reservation_id
  ]

  module _ (scope day : ℕ) where
    abbrev pub weight_at : Reservation → ℕ
    weight_at r = if in_scope_day scope day r then weight r else 0

    abbrev pub cost_at : Reservation → ℕ
    cost_at r = if in_scope_day scope day r then cost r.reservation_id else 0

    -- The rows cost no more than they weigh.
    pub cost-le-weight :
        (rs : List Reservation) → All IsHonest rs → sum_by cost_at rs ≤ sum_by weight_at rs
    cost-le-weight [] h = omega arith
    cost-le-weight (r ∷ rs) h = ground (arith, cost-le-weight rs h.1)

    -- With no unknown row the totals weigh as much as the rows.
    pub totals-weight :
        (rs : List Reservation)
        → All IsHonest rs
        → sum_by (λ r. if in_scope_day scope day r then unknown_count_of r else 0) rs ≡ 0
        → sum_by weight_at rs
          ≡ sum_by (λ r. if in_scope_day scope day r then committed_ticks_of r else 0) rs
            + sum_by (λ r. if in_scope_day scope day r then pending_ticks_of r else 0) rs
    totals-weight [] h z = omega arith
    totals-weight (r ∷ rs) h z = ground (arith, totals-weight rs h.1)

    -- The totals never exceed what the rows weigh.
    pub totals-le-weight :
        (rs : List Reservation)
        → All IsHonest rs
        → sum_by (λ r. if in_scope_day scope day r then committed_ticks_of r else 0) rs
            + sum_by (λ r. if in_scope_day scope day r then pending_ticks_of r else 0) rs
          ≤ sum_by weight_at rs
    totals-le-weight [] h = omega arith
    totals-le-weight (r ∷ rs) h = ground (arith, totals-le-weight rs h.1)

    abbrev pub exposure : Ledger → ℕ
    exposure db = baseline_ticks_at scope day db.baselines + sum_by weight_at db.reservations

    pub exposure-totals :
        (db : Ledger)
        → All IsHonest db.reservations
        → (spend_guard_totals scope day db).unknowns ≡ 0
        → exposure db
          ≡ (spend_guard_totals scope day db).committed + (spend_guard_totals scope day db).held
    unfolding spend_guard_totals
    exposure-totals db h z =
        let rs = db.reservations in
        let here = in_scope_day scope day in
        omega (
          arith,
          totals-weight rs h (sym (sum_by-select_where here unknown_count_of rs) ∙ z),
          sum_by-select_where here committed_ticks_of rs,
          sum_by-select_where here pending_ticks_of rs,
        )

    pub totals-le-exposure :
        (db : Ledger)
        → All IsHonest db.reservations
        → (spend_guard_totals scope day db).committed + (spend_guard_totals scope day db).held
          ≤ exposure db
    unfolding spend_guard_totals
    totals-le-exposure db h =
        let rs = db.reservations in
        let here = in_scope_day scope day in
        omega (
          arith,
          totals-le-weight rs h,
          sum_by-select_where here committed_ticks_of rs,
          sum_by-select_where here pending_ticks_of rs,
        )
