-- ===== src/SpendGuard/Ticks/Bounds.antt =====
-- Rounding of `_spend_guard_ticks`: spend is never rounded down, a limit never up.
use grok_mcp_server.Base.{
  ℕ, ◌+◌, ◌-◌, ◌*◌, ◌^◌, ◌≤◌, ◌<◌, ◌≡◌, ◌⊎◌, inl, inr, Bool, true, false, arith, zero, suc,
}
use grok_mcp_server.SpendGuard.State.{decimal, ok}
use grok_mcp_server.SpendGuard.Ticks.{
  ticks_per_usd, max_ticks, Rounding, round_floor, round_ceiling, rounded_quotient, bounded_ticks,
  spend_guard_ticks,
}
use native.Mathlib.Nat.{div-add-mod', mod-lt, pow-suc}

pow_pos : (e : ℕ) → 1 ≤ 10 ^ e
pow_pos zero = omega arith
pow_pos (suc e) = omega (arith, pow-suc 10 e, pow_pos e)

floor_bound :
    (n d : ℕ)
    → 1 ≤ d
    → (rounded_quotient round_floor n d * d ≤ n) × (n < (rounded_quotient round_floor n d + 1) * d)
unfolding rounded_quotient
floor_bound n d h = omega (arith, div-add-mod' n d, mod-lt n h)

ceiling_bound :
    (n d : ℕ)
    → 1 ≤ d
    → (n ≤ rounded_quotient round_ceiling n d * d)
      × (rounded_quotient round_ceiling n d * d < n + d)
unfolding rounded_quotient
ceiling_bound n d h = omega (arith, div-add-mod' (n + (d - 1)) d, mod-lt (n + (d - 1)) h)

bounded_ticks_range :
    (positive : Bool) (q t : ℕ) → bounded_ticks positive q ≡ ok t → (q ≤ t) × (t ≤ max_ticks)
unfolding bounded_ticks
bounded_ticks_range positive q t h = ground arith

-- The quotient behind an accepted amount.
accepted :
    (rounding : Rounding) (positive : Bool) (n e t : ℕ)
    → spend_guard_ticks rounding positive (decimal n e) ≡ ok t
    → bounded_ticks positive (rounded_quotient rounding (n * ticks_per_usd) (10 ^ e)) ≡ ok t
unfolding spend_guard_ticks
accepted rounding positive n e t h = ground arith

bounded_ticks_eq :
    (positive : Bool) (q t : ℕ) → bounded_ticks positive q ≡ ok t → (t ≡ q) ⊎ ((q ≡ 0) × (t ≡ 1))
unfolding bounded_ticks
bounded_ticks_eq positive q t h = ground arith

-- Only `require_positive` lifts a zero quotient to one tick.
unlifted : (q t : ℕ) → bounded_ticks false q ≡ ok t → t ≡ q
unfolding bounded_ticks
unlifted q t h = ground arith

positive_amount :
    (rounding : Rounding) (n e t : ℕ) → spend_guard_ticks rounding true (decimal n e) ≡ ok t → 1 ≤ n
unfolding spend_guard_ticks
positive_amount rounding n e t h = ground arith

-- An accepted decimal amount that is rounded up covers the amount, by less than one tick too
-- much, and fits the storage range, whether or not zero is accepted.
pub spend_guard_ticks-ceiling :
    (positive : Bool) (n e t : ℕ)
    → spend_guard_ticks round_ceiling positive (decimal n e) ≡ ok t
    → (n * ticks_per_usd ≤ t * 10 ^ e) × (t * 10 ^ e < n * ticks_per_usd + 10 ^ e) × (t ≤ max_ticks)
spend_guard_ticks-ceiling false n e t h =
    let a = accepted round_ceiling false n e t h in
    let q = rounded_quotient round_ceiling (n * ticks_per_usd) (10 ^ e) in
    let (lo, hi) = ceiling_bound (n * ticks_per_usd) (10 ^ e) (pow_pos e) in
    let (_, fits) = bounded_ticks_range false q t a in
    rw (unlifted q t a) (lo, hi, rw (← unlifted q t a) fits)
spend_guard_ticks-ceiling true n e t h =
    let a = accepted round_ceiling true n e t h in
    let q = rounded_quotient round_ceiling (n * ticks_per_usd) (10 ^ e) in
    let (lo, hi) = ceiling_bound (n * ticks_per_usd) (10 ^ e) (pow_pos e) in
    let (_, fits) = bounded_ticks_range true q t a in
    elim (bounded_ticks_eq true q t a) [
      | inl same ↦ rw same (lo, hi, rw (← same) fits)
      | inr (zero_quotient, _) ↦
          absurd (omega (arith, positive_amount round_ceiling n e t h, (rw zero_quotient at lo)))
    ]

-- An accepted decimal amount that is rounded down, zero included, stays at or below the amount, by
-- less than one tick.
pub spend_guard_ticks-floor :
    (n e t : ℕ)
    → spend_guard_ticks round_floor false (decimal n e) ≡ ok t
    → (t * 10 ^ e ≤ n * ticks_per_usd) × (n * ticks_per_usd < (t + 1) * 10 ^ e)
spend_guard_ticks-floor n e t h =
    let a = accepted round_floor false n e t h in
    rw (unlifted _ t a) (floor_bound (n * ticks_per_usd) (10 ^ e) (pow_pos e))
