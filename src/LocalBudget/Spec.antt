-- ===== src/LocalBudget/Spec.antt =====
-- What a day's budget promises (src/unigrok_public/caller_budget.py), told without its table: the
-- day is not opened, or it has an amount spent and at most one lease.
use grok_mcp_server.Base.{ℕ, ◌≤◌, ◌<◌, ◌≡◌, ◌≢◌, ap, max, Option, none, some}
use grok_mcp_server.LocalBudget.{
  Answer, reserved, exceeded, unavailable, Receipt, release, exhaust, missing_cost, exact, Update,
  updated, denied,
}

pub record Lease : Type 0 where
  pub holder : ℕ
  pub expires : ℕ

-- `none` for the amount is a value that is no amount.
pub data Day : Type 0 where
  unopened : Day
  open_day : (spent : Option ℕ) → Option Lease → Day

-- The reservations of a day: at most one lease at a time, none once the limit is reached, and a
-- lease that nobody settled exhausts the day.
pub data Reserves (telemetry : Option ℕ) (now expires token limit : ℕ)
    : Day → Answer → Day → Type 0 where
  opens :
      {s : ℕ}
      → telemetry ≡ some s
      → s < limit
      → Reserves telemetry now expires token limit unopened reserved
          (open_day (some s) (some (record { holder = token; expires = expires })))
  opens_exhausted :
      {s : ℕ}
      → telemetry ≡ some s
      → limit ≤ s
      → Reserves telemetry now expires token limit unopened exceeded unopened
  opens_blind :
      telemetry ≡ none → Reserves telemetry now expires token limit unopened unavailable unopened
  grants :
      {s : ℕ}
      → s < limit
      → Reserves telemetry now expires token limit
          (open_day (some s) none)
          reserved
          (open_day (some s) (some (record { holder = token; expires = expires })))
  declines :
      {s : ℕ}
      → limit ≤ s
      → Reserves telemetry now expires token limit
          (open_day (some s) none)
          exceeded
          (open_day (some s) none)
  busy :
      {s : ℕ} {l : Lease}
      → now < l.expires
      → Reserves telemetry now expires token limit
          (open_day (some s) (some l))
          unavailable
          (open_day (some s) (some l))
  receipt_lost :
      {s s' : ℕ} {l : Lease}
      → l.expires ≤ now
      → s' ≡ max s limit
      → Reserves telemetry now expires token limit
          (open_day (some s) (some l))
          exceeded
          (open_day (some s') none)
  invalid :
      {l : Option Lease}
      → Reserves telemetry now expires token limit
          (open_day none l)
          unavailable
          (open_day (some limit) none)

-- The settlements: only by the holder of the lease, whose cost is added, or who gives the rest up.
pub data Settles (plus : ℕ → ℕ → Option ℕ) (token limit : ℕ)
    : Receipt → Day → Update → Day → Type 0 where
  not_open : {c : Receipt} → Settles plus token limit c unopened denied unopened
  no_lease :
      {c : Receipt} {s : Option ℕ}
      → Settles plus token limit c (open_day s none) denied (open_day s none)
  not_holder :
      {c : Receipt} {s : Option ℕ} {l : Lease}
      → l.holder ≢ token
      → Settles plus token limit c (open_day s (some l)) denied (open_day s (some l))
  released :
      {s : ℕ} {l : Lease}
      → l.holder ≡ token
      → Settles plus token limit release
          (open_day (some s) (some l))
          (updated (some s))
          (open_day (some s) none)
  exhausted :
      {s s' : ℕ} {l : Lease}
      → l.holder ≡ token
      → s' ≡ max s limit
      → Settles plus token limit exhaust
          (open_day (some s) (some l))
          (updated (some s'))
          (open_day (some s') none)
  charged :
      {s c : ℕ} {s' : Option ℕ} {l : Lease}
      → l.holder ≡ token
      → s' ≡ plus s c
      → Settles plus token limit
          (exact c)
          (open_day (some s) (some l))
          (updated s')
          (open_day s' none)
  no_receipt :
      {s : ℕ} {l : Lease}
      → l.holder ≡ token
      → Settles plus token limit missing_cost
          (open_day (some s) (some l))
          denied
          (open_day (some s) (some l))
  broken :
      {c : Receipt} {l : Lease}
      → l.holder ≡ token
      → Settles plus token limit c (open_day none (some l)) denied (open_day (some limit) none)

amount_of : (default : ℕ) → Day → ℕ
amount_of default unopened = default
amount_of default (open_day none lease) = default
amount_of default (open_day (some s) lease) = s

holder_of : (default : Lease) → Day → Lease
holder_of default unopened = default
holder_of default (open_day s none) = default
holder_of default (open_day s (some l)) = l

pub open_day-amount :
    {s s' : ℕ} {l l' : Option Lease} → open_day (some s) l ≡ open_day (some s') l' → s ≡ s'
unfolding amount_of
open_day-amount e = ap (amount_of 0) e

pub open_day-lease :
    {s s' : Option ℕ} {l l' : Lease} → open_day s (some l) ≡ open_day s' (some l') → l ≡ l'
unfolding holder_of
open_day-lease {l} e = ap (holder_of l) e
