-- ===== src/LocalBudget/Blocked.antt =====
-- A day that grants nothing: the lease of an operation that is under way, and a limit that is reached
-- (src/unigrok_public/caller_budget.py).
use grok_mcp_server.Base.{
  ℕ, ◌≤◌, ◌<◌, ◌≡◌, ◌≢◌, ◌⊎◌, refl, sym, ◌∙◌, Option, none, some, List, [], ◌∷◌, false, arith, inl,
  inr, All,
}
use grok_mcp_server.LocalBudget.{BudgetRow, Answer, Receipt, Update}
use grok_mcp_server.LocalBudget.Spec.{
  Day, unopened, open_day, Reserves, opens, opens_exhausted, opens_blind, grants, declines, busy,
  receipt_lost, invalid, Settles, not_open, no_lease, not_holder, released, exhausted, charged,
  no_receipt, broken,
}
use grok_mcp_server.LocalBudget.View.{view, IsSound}
use grok_mcp_server.LocalBudget.Refinement.{reserve_local_budget_sync-refines}
use grok_mcp_server.LocalBudget.Settling.{update_local_budget_sync-refines}
use grok_mcp_server.LocalBudget.Calls.{
  BudgetCall, reserve, settle, is_reserved, perform_budget, is_granted, run_budget, granted,
  reserve-Wrote, update-Wrote, Wrote-IsSound, Wrote-other,
}

-- The day has no room at the limit, or a lease that is live.
abbrev pub IsBlocked : Day → (now limit : ℕ) → Type 0
IsBlocked unopened now limit = ⊥
IsBlocked (open_day none lease) now limit = ⊥
IsBlocked (open_day (some s) none) now limit = limit ≤ s
IsBlocked (open_day (some s) (some l)) now limit = now < l.expires

-- The token is not the one of the day's lease.
abbrev pub IsOther : Day → (token : ℕ) → Type 0
IsOther unopened token = Unit
IsOther (open_day s none) token = Unit
IsOther (open_day s (some l)) token = l.holder ≢ token

-- A call that a blocked day withstands: one of another day, a reservation that finds the day blocked,
-- or a settlement by another token. The pruning spares the day.
abbrev pub IsWithstood : (day : ℕ) → Day → BudgetCall → Type 0
IsWithstood day d (reserve telemetry w q) =
    (q.token ≢ 0)
    × (w.prune_before ≤ day)
    × ((day ≢ q.day) ⊎ ((day ≡ q.day) × IsBlocked d w.now q.limit_usd))
IsWithstood day d (settle now q receipt) =
    (q.token ≢ 0) × ((day ≢ q.day) ⊎ ((day ≡ q.day) × IsOther d q.token))

Reserves-blocked :
    (telemetry : Option ℕ) (now expires token limit : ℕ) {d d' : Day} {a : Answer}
    → Reserves telemetry now expires token limit d a d'
    → IsBlocked d now limit
    → (is_reserved a ≡ false) × (d' ≡ d)
Reserves-blocked telemetry now expires token limit (opens t l) b = absurd b
Reserves-blocked telemetry now expires token limit (opens_exhausted t l) b = absurd b
Reserves-blocked telemetry now expires token limit (opens_blind t) b = absurd b
Reserves-blocked telemetry now expires token limit (grants l) b = absurd (omega (arith, l, b))
Reserves-blocked telemetry now expires token limit (declines l) b = (refl, refl)
Reserves-blocked telemetry now expires token limit (busy l) b = (refl, refl)
Reserves-blocked telemetry now expires token limit (receipt_lost l e) b =
    absurd (omega (arith, l, b))
Reserves-blocked telemetry now expires token limit invalid b = absurd b

Settles-other :
    (plus : ℕ → ℕ → Option ℕ) (token limit : ℕ) (c : Receipt) {d d' : Day} {a : Update}
    → Settles plus token limit c d a d'
    → IsOther d token
    → d' ≡ d
Settles-other plus token limit c not_open o = refl
Settles-other plus token limit c no_lease o = refl
Settles-other plus token limit c (not_holder ne) o = refl
Settles-other plus token limit c (released e) o = absurd (o e)
Settles-other plus token limit c (exhausted e f) o = absurd (o e)
Settles-other plus token limit c (charged e f) o = absurd (o e)
Settles-other plus token limit c (no_receipt e) o = absurd (o e)
Settles-other plus token limit c (broken e) o = absurd (o e)

module _ (plus : ℕ → ℕ → Option ℕ) (day : ℕ) (d : Day) where
  -- What the day withstands leaves it as it is and is not granted.
  Withstands : BudgetCall → List BudgetRow → Type 0
  Withstands c rows =
      All IsSound (perform_budget plus c rows)
      × (view day (perform_budget plus c rows) ≡ d)
      × (is_granted plus day c rows ≡ false)

  withstood :
      (c : BudgetCall) (rows : List BudgetRow)
      → All IsSound rows
      → view day rows ≡ d
      → IsWithstood day d c
      → Withstands c rows
  unfolding Withstands perform_budget is_granted view
  withstood (reserve telemetry w q) rows sound seen (named, spared, inl ne) = (
    Wrote-IsSound q w.prune_before rows named (reserve-Wrote w q rows telemetry) sound,
    rw (Wrote-other day q w.prune_before rows spared ne (reserve-Wrote w q rows telemetry)) seen,
    ground (arith, ne),
  )
  withstood (reserve telemetry w q) rows sound seen (named, spared, inr (mine, blocked)) =
      let promise =
        reserve_local_budget_sync-refines telemetry w q rows named (rw (sym mine) spared) sound in
      let here : view q.day rows ≡ d = rw (sym mine) seen in
      let (refused, same) =
        Reserves-blocked telemetry w.now w.lease_expires_at q.token q.limit_usd promise
          (rw here blocked) in
      (
        Wrote-IsSound q w.prune_before rows named (reserve-Wrote w q rows telemetry) sound,
        rw mine (same ∙ here),
        rw refused (ground arith),
      )
  withstood (settle now q receipt) rows sound seen (named, inl ne) = (
    Wrote-IsSound q 0 rows named (update-Wrote plus now q 0 rows receipt) sound,
    rw (Wrote-other day q 0 rows (omega arith) ne (update-Wrote plus now q 0 rows receipt)) seen,
    refl,
  )
  withstood (settle now q receipt) rows sound seen (named, inr (mine, other)) =
      let here : view q.day rows ≡ d = rw (sym mine) seen in
      let same =
        Settles-other plus q.token q.limit_usd receipt
          (update_local_budget_sync-refines plus now q receipt rows named) (rw here other) in
      (
        Wrote-IsSound q 0 rows named (update-Wrote plus now q 0 rows receipt) sound,
        rw mine (same ∙ here),
        refl,
      )

-- In a table whose rows have a token and an expiry together: a day that is blocked, and calls that it
-- withstands (calls on other days, reservations that find it blocked, settlements by other tokens),
-- in any order and number. No reservation of the day is granted, and the day stays as it is.
pub run_budget-blocked :
    (plus : ℕ → ℕ → Option ℕ) (day : ℕ) (d : Day) (cs : List BudgetCall) (rows : List BudgetRow)
    → All IsSound rows
    → view day rows ≡ d
    → All (IsWithstood day d) cs
    → (granted plus day cs rows ≡ 0) × (view day (run_budget plus cs rows) ≡ d)
unfolding granted run_budget Withstands
run_budget-blocked plus day d [] rows sound seen withstand = (refl, seen)
run_budget-blocked plus day d (c ∷ cs) rows sound seen withstand =
    let (sound', seen', none_granted) = withstood plus day d c rows sound seen withstand.0 in
    let (rest, last) =
      run_budget-blocked plus day d cs (perform_budget plus c rows) sound' seen' withstand.1 in
    (rw (none_granted, rest) refl, last)
