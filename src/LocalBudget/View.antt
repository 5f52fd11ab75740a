-- ===== src/LocalBudget/View.antt =====
-- The day that the table of src/unigrok_public/caller_budget.py holds, and lookups in the table.
use grok_mcp_server.Base.{
  ℕ, ◌≤◌, ◌≡◌, ◌≢◌, refl, ◌∙◌, Option, none, some, List, [], ◌∷◌, ◌++◌, arith, ◌==◌, ==_refl,
  if◌then◌else◌,
}
use grok_mcp_server.Base.Tables.Laws.{fetch_one-append, fetch_one-passes}
use grok_mcp_server.Base.Tables.Keys.{has_key, fetch_one-update_where}
use grok_mcp_server.LocalBudget.{
  Expiry, at_instant, BudgetRow, row_day, update_day, fetch_day, prune, has_token, has_expiry,
}
use grok_mcp_server.LocalBudget.Spec.{Lease, Day, unopened, open_day}

-- An expiry that cannot be read is past.
abbrev pub instant_of : Option Expiry → ℕ
instant_of (some (at_instant e)) = e
instant_of _ = 0

abbrev pub lease_of : Option ℕ → Option Expiry → Option Lease
lease_of none expiry = none
lease_of (some t) expiry =
    if t == 0 then none else some (record { holder = t; expires = instant_of expiry })

abbrev pub view_row : BudgetRow → Day
view_row r = open_day r.spent_usd (lease_of r.lease_token r.lease_expires_at)

abbrev pub view_of : Option BudgetRow → Day
view_of none = unopened
view_of (some r) = view_row r

unfoldable pub view : (day : ℕ) → List BudgetRow → Day
view day rows = view_of (fetch_day day rows)

-- A token and an expiry come together.
abbrev pub IsSound : BudgetRow → Type 0
IsSound r = has_token r.lease_token ≡ has_expiry r.lease_expires_at

module _ (day : ℕ) where
  pub fetch_day-prune :
      (before : ℕ) (rows : List BudgetRow)
      → before ≤ day
      → fetch_day day (prune before rows) ≡ fetch_day day rows
  fetch_day-prune before [] h = refl
  fetch_day-prune before (r ∷ rows) h = ground (arith, h, fetch_day-prune before rows h)

  pub fetch_day-update_day :
      (change : BudgetRow → BudgetRow) (rows : List BudgetRow) (r : BudgetRow)
      → ((x : BudgetRow) → (change x).day ≡ x.day)
      → fetch_day day rows ≡ some r
      → fetch_day day (update_day day change rows) ≡ some (change r)
  fetch_day-update_day change rows r keeps found =
      let passes = fetch_one-passes (has_key row_day day) rows found in
      fetch_one-update_where row_day (has_key row_day day) change (λ x t. keeps x) day rows
      ∙ rw (found, passes) refl

  pub fetch_day-other :
      (other : ℕ) (change : BudgetRow → BudgetRow) (rows : List BudgetRow)
      → ((x : BudgetRow) → (change x).day ≡ x.day)
      → other ≢ day
      → fetch_day other (update_day day change rows) ≡ fetch_day other rows
  fetch_day-other other change [] keeps ne = refl
  fetch_day-other other change (x ∷ rows) keeps ne =
      ground (arith, keeps x, fetch_day-other other change rows keeps ne)

  pub fetch_day-append :
      (rows : List BudgetRow) (r : BudgetRow)
      → fetch_day day rows ≡ none
      → r.day ≡ day
      → fetch_day day (rows ++ r ∷ []) ≡ some r
  fetch_day-append rows r missing mine =
      fetch_one-append (has_key row_day day) rows r ∙ rw (missing, mine, ==_refl day) refl
