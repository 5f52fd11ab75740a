-- ===== src/LocalBudget/Exclusive.antt =====
-- One metered operation at a time, and none after a receipt is lost
-- (src/unigrok_public/caller_budget.py).
use grok_mcp_server.Base.{
  ℕ, ◌≤◌, ◌<◌, ◌≡◌, ◌≢◌, refl, ap, max, Option, none, some, List, arith, All,
}
use grok_mcp_server.LocalBudget.{
  BudgetRow, LocalReservation, Window, Answer, reserved, exceeded, reserve_local_budget_sync,
}
use grok_mcp_server.LocalBudget.Spec.{
  Lease, Day, open_day, Reserves, opens, opens_exhausted, opens_blind, grants, declines, busy,
  receipt_lost, invalid, open_day-amount, open_day-lease,
}
use grok_mcp_server.LocalBudget.View.{view, IsSound}
use grok_mcp_server.LocalBudget.Refinement.{reserve_local_budget_sync-refines}
use grok_mcp_server.LocalBudget.Calls.{
  BudgetCall, run_budget, granted, reserve-Wrote, Wrote-IsSound,
}
use grok_mcp_server.LocalBudget.Blocked.{IsWithstood, run_budget-blocked}

granted-lease :
    (telemetry : Option ℕ) (now expires token limit s : ℕ) {d d' : Day} {a : Answer}
    → Reserves telemetry now expires token limit d a d'
    → d ≡ open_day (some s) none
    → s < limit
    → (a ≡ reserved)
      × (d' ≡ open_day (some s) (some (record { holder = token; expires = expires })))
granted-lease telemetry now expires token limit s (opens t l) e lt = cc
granted-lease telemetry now expires token limit s (opens_exhausted t l) e lt = cc
granted-lease telemetry now expires token limit s (opens_blind t) e lt = cc
granted-lease telemetry now expires token limit s (grants {s = s'} l) e lt =
    let same : s' ≡ s = open_day-amount e in (refl, rw same refl)
granted-lease telemetry now expires token limit s (declines {s = s'} l) e lt =
    let same : s' ≡ s = open_day-amount e in absurd (omega (arith, l, same, lt))
granted-lease telemetry now expires token limit s (busy l) e lt = cc
granted-lease telemetry now expires token limit s (receipt_lost l f) e lt = cc
granted-lease telemetry now expires token limit s invalid e lt = cc

-- The room of a day goes to one operation, in a table whose rows have a token and an expiry together:
-- where less than the limit is spent and no lease is given, a reservation with a token, whose pruning
-- spares its day, is granted. Then, over any calls whose pruning spares the day, until it is settled
-- under its token or its lease has expired, no other one is granted and the day stays as it is.
pub reserve-exclusive :
    (plus : ℕ → ℕ → Option ℕ) (telemetry : Option ℕ) (w : Window) (q : LocalReservation) (s : ℕ)
    (cs : List BudgetCall) (rows : List BudgetRow)
    → All IsSound rows
    → q.token ≢ 0
    → w.prune_before ≤ q.day
    → view q.day rows ≡ open_day (some s) none
    → s < q.limit_usd
    → All
        (IsWithstood q.day
          (open_day (some s) (some (record { holder = q.token; expires = w.lease_expires_at }))))
        cs
    → ((reserve_local_budget_sync telemetry w q rows).0 ≡ reserved)
      × (granted plus q.day cs (reserve_local_budget_sync telemetry w q rows).1 ≡ 0)
      × (view q.day (run_budget plus cs (reserve_local_budget_sync telemetry w q rows).1)
          ≡ open_day (some s) (some (record { holder = q.token; expires = w.lease_expires_at })))
reserve-exclusive plus telemetry w q s cs rows sound named spared idle room withstand =
    let promise = reserve_local_budget_sync-refines telemetry w q rows named spared sound in
    let (won, held) =
      granted-lease telemetry w.now w.lease_expires_at q.token q.limit_usd s promise idle room in
    let after = (reserve_local_budget_sync telemetry w q rows).1 in
    let sound' =
      Wrote-IsSound q w.prune_before rows named (reserve-Wrote w q rows telemetry) sound in
    let (none_granted, kept) = run_budget-blocked plus q.day _ cs after sound' held withstand in
    (won, none_granted, kept)

lost-closed :
    (telemetry : Option ℕ) (now expires token limit s : ℕ) (l : Lease) {d d' : Day} {a : Answer}
    → Reserves telemetry now expires token limit d a d'
    → d ≡ open_day (some s) (some l)
    → l.expires ≤ now
    → (a ≡ exceeded) × (d' ≡ open_day (some (max s limit)) none)
lost-closed telemetry now expires token limit s l (opens t h) e late = cc
lost-closed telemetry now expires token limit s l (opens_exhausted t h) e late = cc
lost-closed telemetry now expires token limit s l (opens_blind t) e late = cc
lost-closed telemetry now expires token limit s l (grants h) e late = cc
lost-closed telemetry now expires token limit s l (declines h) e late = cc
lost-closed telemetry now expires token limit s l (busy {s = s'} {l = l'} h) e late =
    let same : l'.expires ≡ l.expires = ap (λ (x : Lease). x.expires) (open_day-lease e) in
    absurd (omega (arith, h, same, late))
lost-closed telemetry now expires token limit s l (receipt_lost {s = s'} {s' = s''} {l = l'} h f) e
      late =
    let same : s' ≡ s = open_day-amount e in (refl, rw (f, same) refl)
lost-closed telemetry now expires token limit s l invalid e late = cc

-- A receipt that is lost closes the day, in a table whose rows have a token and an expiry together: a
-- reservation with a token, whose pruning spares its day, that finds a lease which has expired is
-- turned down as exceeded, and what the day counts as spent is raised to its limit. Over any later
-- calls that the closed day withstands (calls on other days whose pruning spares it, reservations of
-- the day with a limit not above what it now counts as spent, and settlements) no reservation of the
-- day is granted and it stays closed.
pub reserve-lost_receipt :
    (plus : ℕ → ℕ → Option ℕ) (telemetry : Option ℕ) (w : Window) (q : LocalReservation) (s : ℕ)
    (l : Lease) (cs : List BudgetCall) (rows : List BudgetRow)
    → All IsSound rows
    → q.token ≢ 0
    → w.prune_before ≤ q.day
    → view q.day rows ≡ open_day (some s) (some l)
    → l.expires ≤ w.now
    → All (IsWithstood q.day (open_day (some (max s q.limit_usd)) none)) cs
    → ((reserve_local_budget_sync telemetry w q rows).0 ≡ exceeded)
      × (granted plus q.day cs (reserve_local_budget_sync telemetry w q rows).1 ≡ 0)
      × (view q.day (run_budget plus cs (reserve_local_budget_sync telemetry w q rows).1)
          ≡ open_day (some (max s q.limit_usd)) none)
reserve-lost_receipt plus telemetry w q s l cs rows sound named spared held late withstand =
    let promise = reserve_local_budget_sync-refines telemetry w q rows named spared sound in
    let (refused, closed) =
      lost-closed telemetry w.now w.lease_expires_at q.token q.limit_usd s l promise held late in
    let after = (reserve_local_budget_sync telemetry w q rows).1 in
    let sound' =
      Wrote-IsSound q w.prune_before rows named (reserve-Wrote w q rows telemetry) sound in
    let (none_granted, kept) = run_budget-blocked plus q.day _ cs after sound' closed withstand in
    (refused, none_granted, kept)
