-- ===== src/LocalBudget/Calls.antt =====
-- Sequences of the calls that operations make on the daily budgets, and what they keep of the table
-- (src/unigrok_public/caller_budget.py).
use grok_mcp_server.Base.{
  ℕ, ◌+◌, ◌≤◌, ◌≡◌, ◌≢◌, refl, ◌∙◌, Option, none, some, List, [], ◌∷◌, ◌++◌, Bool, true, false,
  arith, Option-cases, inl, inr, ◌==◌, leb, if◌then◌else◌, All, All-append, ◌&&◌, not, ltb, max,
}
use grok_mcp_server.Base.Tables.Laws.{update_where-All, delete_where-All}
use grok_mcp_server.Base.Tables.Keys.{has_key}
use grok_mcp_server.LocalBudget.{
  BudgetRow, row_day, LocalReservation, Window, Answer, reserved, unavailable, update_day,
  fetch_day, prune, settled_row, leased, opened_row, admit, reserve_row, reserve_opened,
  reserve_local_budget_sync, is_consistent, has_token, has_expiry, is_after, row_token, denied,
  Receipt, release, exhaust, missing_cost, exact, update_spent, update_row,
  update_local_budget_sync,
}
use grok_mcp_server.LocalBudget.View.{IsSound, fetch_day-prune, fetch_day-other}

pub data BudgetCall : Type 0 where
  reserve : (telemetry : Option ℕ) → Window → LocalReservation → BudgetCall
  settle : (now : ℕ) → LocalReservation → Receipt → BudgetCall

abbrev pub is_reserved : Answer → Bool
is_reserved reserved = true
is_reserved _ = false

module _ (plus : ℕ → ℕ → Option ℕ) where
  unfoldable pub perform_budget : BudgetCall → List BudgetRow → List BudgetRow
  perform_budget (reserve telemetry w q) rows = (reserve_local_budget_sync telemetry w q rows).1
  perform_budget (settle now q receipt) rows = (update_local_budget_sync plus now q receipt rows).1

  -- Whether the call is a reservation of the day that is granted.
  unfoldable pub is_granted : (day : ℕ) → BudgetCall → List BudgetRow → Bool
  is_granted day (reserve telemetry w q) rows =
      q.day == day && is_reserved (reserve_local_budget_sync telemetry w q rows).0
  is_granted day (settle now q receipt) rows = false

  unfoldable pub run_budget : List BudgetCall → List BudgetRow → List BudgetRow
  run_budget [] rows = rows
  run_budget (c ∷ cs) rows = run_budget cs (perform_budget c rows)

  -- How many reservations of the day are granted.
  unfoldable pub granted : (day : ℕ) → List BudgetCall → List BudgetRow → ℕ
  granted day [] rows = 0
  granted day (c ∷ cs) rows =
      (if is_granted day c rows then 1 else 0) + granted day cs (perform_budget c rows)

-- What a call may write, of the day that it names.
pub data Wrote (q : LocalReservation) (before : ℕ) (rows : List BudgetRow)
    : List BudgetRow → Type 0 where
  kept : Wrote q before rows rows
  settles :
      (now : ℕ) (spent : Option ℕ)
      → Wrote q before rows (update_day q.day (settled_row now spent) rows)
  prunes_settles :
      (now : ℕ) (spent : Option ℕ)
      → Wrote q before rows (update_day q.day (settled_row now spent) (prune before rows))
  prunes_leases :
      (w : Window) → Wrote q before rows (update_day q.day (leased w q) (prune before rows))
  prunes_opens :
      (w : Window) (s : ℕ)
      → Wrote q before rows
          (update_day q.day (leased w q) (prune before rows ++ opened_row w q s ∷ []))

if-Wrote {ℓ} :
    {A : Type ℓ} (q : LocalReservation) (before : ℕ) (rows : List BudgetRow) (b : Bool)
    (x y : A × List BudgetRow)
    → Wrote q before rows x.1
    → Wrote q before rows y.1
    → Wrote q before rows (if b then x else y).1
if-Wrote q before rows true x y p r = p
if-Wrote q before rows false x y p r = r

module _ (w : Window) (q : LocalReservation) (rows : List BudgetRow) where
  admit-Wrote :
      (s : ℕ) (ready : List BudgetRow)
      → Wrote q w.prune_before rows (update_day q.day (leased w q) ready)
      → Wrote q w.prune_before rows (admit w q s rows ready).1
  unfolding admit
  admit-Wrote s ready wrote = if-Wrote q w.prune_before rows (leb q.limit_usd s) _ _ kept wrote

  reserve_opened-Wrote :
      (telemetry : Option ℕ)
      → Wrote q w.prune_before rows
          (reserve_opened w q telemetry rows (prune w.prune_before rows)).1
  unfolding reserve_opened
  reserve_opened-Wrote none = kept
  reserve_opened-Wrote (some s) =
      admit-Wrote s (prune w.prune_before rows ++ opened_row w q s ∷ []) (prunes_opens w s)

  reserve_row-Wrote :
      (r : BudgetRow) (spent : Option ℕ)
      → Wrote q w.prune_before rows (reserve_row w q r spent rows (prune w.prune_before rows)).1
  unfolding reserve_row
  reserve_row-Wrote r none = prunes_settles w.now (some q.limit_usd)
  reserve_row-Wrote r (some s) =
      if-Wrote q w.prune_before rows (not (is_consistent r)) _ _
        (prunes_settles w.now (some q.limit_usd))
        (if-Wrote q w.prune_before rows (has_token r.lease_token && has_expiry r.lease_expires_at) _
          _
          (if-Wrote q w.prune_before rows (is_after r.lease_expires_at w.now) (unavailable, rows) _
            kept (prunes_settles w.now (some (max s q.limit_usd))))
          (admit-Wrote s (prune w.prune_before rows) (prunes_leases w)))

  pub reserve-Wrote :
      (telemetry : Option ℕ)
      → Wrote q w.prune_before rows (reserve_local_budget_sync telemetry w q rows).1
  unfolding reserve_local_budget_sync
  reserve-Wrote telemetry = elim (Option-cases (fetch_day q.day (prune w.prune_before rows))) [
    | inl absent ↦ rw (absent, reserve_local_budget_sync) (reserve_opened-Wrote telemetry)
    | inr (r, found) ↦ rw (found, reserve_local_budget_sync) (reserve_row-Wrote r r.spent_usd)
  ]

module _ (plus : ℕ → ℕ → Option ℕ) (now : ℕ) (q : LocalReservation) (before : ℕ)
    (rows : List BudgetRow) where
  update_spent-Wrote :
      (c : Receipt) (s : ℕ) → Wrote q before rows (update_spent plus now q c s rows).1
  unfolding update_spent
  update_spent-Wrote release s = settles now (some s)
  update_spent-Wrote exhaust s = settles now (some (max s q.limit_usd))
  update_spent-Wrote missing_cost s = kept
  update_spent-Wrote (exact c) s = settles now (plus s c)

  update_row-Wrote :
      (c : Receipt) (spent : Option ℕ) → Wrote q before rows (update_row plus now q c spent rows).1
  unfolding update_row
  update_row-Wrote c none = settles now (some q.limit_usd)
  update_row-Wrote c (some s) = update_spent-Wrote c s

  pub update-Wrote :
      (c : Receipt) → Wrote q before rows (update_local_budget_sync plus now q c rows).1
  unfolding update_local_budget_sync
  update-Wrote c = elim (Option-cases (fetch_day q.day rows)) [
    | inl absent ↦ rw (absent, update_local_budget_sync) kept
    | inr (r, found) ↦
        rw (found, update_local_budget_sync)
          (if-Wrote q before rows (not (row_token r.lease_token == q.token)) (denied, rows) _ kept
            (update_row-Wrote c r.spent_usd))
  ]

settled_row-IsSound :
    (now day : ℕ) (spent : Option ℕ) (rows : List BudgetRow)
    → All IsSound rows
    → All IsSound (update_day day (settled_row now spent) rows)
settled_row-IsSound now day spent rows sound =
    update_where-All IsSound (has_key row_day day) (settled_row now spent) (λ r t s. refl) rows
      sound

prune-IsSound :
    (before : ℕ) (rows : List BudgetRow) → All IsSound rows → All IsSound (prune before rows)
prune-IsSound before rows sound = delete_where-All IsSound (λ r. ltb r.day before) rows sound

leased-IsSound :
    (w : Window) (q : LocalReservation) (rows : List BudgetRow)
    → q.token ≢ 0
    → All IsSound rows
    → All IsSound (update_day q.day (leased w q) rows)
leased-IsSound w q rows named sound =
    update_where-All IsSound (has_key row_day q.day) (leased w q) (λ r t s. ground (arith, named))
      rows sound

pub Wrote-IsSound :
    (q : LocalReservation) (before : ℕ) (rows : List BudgetRow) {rows' : List BudgetRow}
    → q.token ≢ 0
    → Wrote q before rows rows'
    → All IsSound rows
    → All IsSound rows'
Wrote-IsSound q before rows named kept sound = sound
Wrote-IsSound q before rows named (settles now spent) sound =
    settled_row-IsSound now q.day spent rows sound
Wrote-IsSound q before rows named (prunes_settles now spent) sound =
    settled_row-IsSound now q.day spent (prune before rows) (prune-IsSound before rows sound)
Wrote-IsSound q before rows named (prunes_leases w) sound =
    leased-IsSound w q (prune before rows) named (prune-IsSound before rows sound)
Wrote-IsSound q before rows named (prunes_opens w s) sound =
    leased-IsSound w q (prune before rows ++ opened_row w q s ∷ []) named (
      All-append IsSound (prune before rows) (opened_row w q s ∷ [])
        (prune-IsSound before rows sound) (refl, tt))

module _ (day : ℕ) where
  fetch_day-skips :
      (rows : List BudgetRow) (r : BudgetRow)
      → day ≢ r.day
      → fetch_day day (rows ++ r ∷ []) ≡ fetch_day day rows
  fetch_day-skips [] r ne = ground (arith, ne)
  fetch_day-skips (x ∷ rows) r ne = ground (arith, fetch_day-skips rows r ne)

  -- A call on another day leaves the day as it is.
  pub Wrote-other :
      (q : LocalReservation) (before : ℕ) (rows : List BudgetRow) {rows' : List BudgetRow}
      → before ≤ day
      → day ≢ q.day
      → Wrote q before rows rows'
      → fetch_day day rows' ≡ fetch_day day rows
  Wrote-other q before rows spared ne kept = refl
  Wrote-other q before rows spared ne (settles now spent) =
      fetch_day-other q.day day (settled_row now spent) rows (λ x. refl) ne
  Wrote-other q before rows spared ne (prunes_settles now spent) =
      fetch_day-other q.day day (settled_row now spent) (prune before rows) (λ x. refl) ne
      ∙ fetch_day-prune day before rows spared
  Wrote-other q before rows spared ne (prunes_leases w) =
      fetch_day-other q.day day (leased w q) (prune before rows) (λ x. refl) ne
      ∙ fetch_day-prune day before rows spared
  Wrote-other q before rows spared ne (prunes_opens w s) =
      fetch_day-other q.day day (leased w q) (prune before rows ++ opened_row w q s ∷ [])
        (λ x. refl) ne
      ∙ fetch_day-skips (prune before rows) (opened_row w q s) ne
      ∙ fetch_day-prune day before rows spared
