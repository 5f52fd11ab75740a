-- ===== src/SpendGuard/Ticks.antt =====
-- `_spend_guard_ticks` of src/unigrok_public/state.py: USD amounts as exact ticks of 1e-10 USD.
-- A float has at most 17 significant digits, so the product with 10 ^ 10 fits the 28 digits of
-- Python's decimal context and is exact.
pub mod Bounds
use grok_mcp_server.Base.{
  ℕ, ◌+◌, ◌-◌, ◌*◌, ◌/◌, ◌^◌, ◌≤◌, ◌<◌, ◌≡◌, Bool, true, false, ◌&&◌, arith, ltb, ◌==◌,
  if◌then◌else◌,
}
use grok_mcp_server.SpendGuard.State.{
  Amount, boolean, malformed, non_finite, negative, decimal, GuardError, invalid_amount,
  storage_range, Result, ok, err,
}

abbrev pub ticks_per_usd : ℕ
ticks_per_usd = 10_000_000_000

-- 2 ^ 63 - 1
abbrev pub max_ticks : ℕ
max_ticks = 9_223_372_036_854_775_807

pub data Rounding : Type 0 where
  round_floor round_ceiling : Rounding

-- The quotient of two naturals, rounded; the divisor is a power of ten.
unfoldable pub rounded_quotient : Rounding → ℕ → ℕ → ℕ
rounded_quotient round_floor n d = n / d
rounded_quotient round_ceiling n d = (n + (d - 1)) / d

unfoldable pub bounded_ticks : Bool → ℕ → Result ℕ
bounded_ticks require_positive ticks =
    if ltb max_ticks ticks
    then err storage_range
    else if require_positive && ltb ticks 1
    then ok 1
    else ok ticks

unfoldable pub spend_guard_ticks : Rounding → Bool → Amount → Result ℕ
spend_guard_ticks rounding require_positive boolean = err invalid_amount
spend_guard_ticks rounding require_positive malformed = err invalid_amount
spend_guard_ticks rounding require_positive non_finite = err invalid_amount
spend_guard_ticks rounding require_positive negative = err invalid_amount
spend_guard_ticks rounding require_positive (decimal digits exponent) =
    if require_positive && digits == 0
    then err invalid_amount
    else bounded_ticks require_positive
        (rounded_quotient rounding (digits * ticks_per_usd) (10 ^ exponent))
