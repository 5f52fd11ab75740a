-- ===== src/LocalBudget.antt =====
-- The daily budget of a local operator (src/unigrok_public/caller_budget.py): one row for each UTC
-- day, with what is spent and the lease of the one metered operation that is under way.
--
-- Amounts are finite floats from 0 up, which numbers stand for in their order; `none` is any other
-- value. `plus` is the sum of two of them, none where it overflows to infinity. Days and instants
-- are numbers in the order of their ISO texts; 0 stands for the empty text.
pub mod Settle
pub mod Spec
pub mod View
pub mod Refinement
pub mod Settling
pub mod Calls
pub mod Blocked
pub mod Exclusive
pub mod Charges
pub mod Tests
use grok_mcp_server.Base.{
  ℕ, max, Option, none, some, List, [], ◌∷◌, ◌++◌, Bool, true, false, not, ◌&&◌, ◌||◌, ltb, leb,
  ◌==◌, if◌then◌else◌, is_some,
}
use grok_mcp_server.Base.Tables.{update_where, delete_where, fetch_one}
use grok_mcp_server.Base.Tables.Keys.{has_key}

-- The text of an expiry; the guard reads one that is no instant as long past.
pub data Expiry : Type 0 where
  empty_text unreadable : Expiry
  at_instant : ℕ → Expiry

pub record BudgetRow : Type 0 where
  pub day : ℕ
  pub spent_usd : Option ℕ
  pub lease_token : Option ℕ
  pub lease_expires_at : Option Expiry
  pub updated_at : ℕ

-- `LocalBudgetReservation`
pub record LocalReservation : Type 0 where
  pub day : ℕ
  pub token : ℕ
  pub limit_usd : ℕ

-- The instants that `_reserve_local_budget_sync` is given.
pub record Window : Type 0 where
  pub now : ℕ
  pub lease_expires_at : ℕ
  pub day_start : ℕ
  pub day_end : ℕ
  pub prune_before : ℕ

pub data Answer : Type 0 where
  reserved exceeded unavailable : Answer

abbrev pub row_day : BudgetRow → ℕ
row_day r = r.day

abbrev pub update_day : ℕ → (BudgetRow → BudgetRow) → List BudgetRow → List BudgetRow
update_day day change rows = update_where (has_key row_day day) change rows

abbrev pub fetch_day : ℕ → List BudgetRow → Option BudgetRow
fetch_day day rows = fetch_one (has_key row_day day) rows

-- `bool(str(lease_token or ""))`
abbrev pub has_token : Option ℕ → Bool
has_token none = false
has_token (some t) = not (t == 0)

abbrev pub has_expiry : Option Expiry → Bool
has_expiry none = false
has_expiry (some empty_text) = false
has_expiry (some unreadable) = true
has_expiry (some (at_instant e)) = true

-- `expiry > now`
abbrev pub is_after : Option Expiry → (now : ℕ) → Bool
is_after (some (at_instant e)) now = ltb now e
is_after _ now = false

abbrev pub same_bool : Bool → Bool → Bool
same_bool true b = b
same_bool false b = not b

-- `spent_usd` is set and the lease given up.
abbrev pub settled_row : (now : ℕ) → (spent : Option ℕ) → BudgetRow → BudgetRow
settled_row now spent r = record r {
  spent_usd = spent;
  lease_token = none;
  lease_expires_at = none;
  updated_at = now;
}

abbrev pub leased : Window → LocalReservation → BudgetRow → BudgetRow
leased w q r = record r {
  lease_token = some q.token;
  lease_expires_at = some (at_instant w.lease_expires_at);
  updated_at = w.now;
}

abbrev pub opened_row : Window → LocalReservation → (spent : ℕ) → BudgetRow
opened_row w q spent = record {
  day = q.day;
  spent_usd = some spent;
  lease_token = none;
  lease_expires_at = none;
  updated_at = w.now;
}

abbrev pub BudgetResult : Type 0
BudgetResult = Answer × List BudgetRow

-- The end of a reservation; what is not committed is rolled back to `rows`.
unfoldable pub admit :
    Window → LocalReservation → (spent : ℕ) → (rows ready : List BudgetRow) → BudgetResult
admit w q spent rows ready =
    if leb q.limit_usd spent
    then (exceeded, rows)
    else (reserved, update_day q.day (leased w q) ready)

-- The day has a row: a broken one is closed at the limit, a lease that is live refuses, and one that
-- nobody settled closes the day.
abbrev pub reserve_leased :
    Window
    → LocalReservation
    → BudgetRow
    → (spent : ℕ) → (rows pruned : List BudgetRow) → BudgetResult
reserve_leased w q r spent rows pruned =
    if is_after r.lease_expires_at w.now
    then (unavailable, rows)
    else (exceeded, update_day q.day (settled_row w.now (some (max spent q.limit_usd))) pruned)

abbrev pub is_consistent : BudgetRow → Bool
is_consistent r = same_bool (has_token r.lease_token) (has_expiry r.lease_expires_at)

unfoldable pub reserve_row :
    Window
    → LocalReservation
    → BudgetRow
    → (spent : Option ℕ) → (rows pruned : List BudgetRow) → BudgetResult
reserve_row w q r none rows pruned =
    (unavailable, update_day q.day (settled_row w.now (some q.limit_usd)) pruned)
reserve_row w q r (some spent) rows pruned =
    if not (is_consistent r)
    then (unavailable, update_day q.day (settled_row w.now (some q.limit_usd)) pruned)
    else if has_token r.lease_token && has_expiry r.lease_expires_at
    then reserve_leased w q r spent rows pruned
    else admit w q spent rows pruned

-- The first reservation of a day starts from what the telemetry says is spent.
unfoldable pub reserve_opened :
    Window
    → LocalReservation
    → (telemetry : Option ℕ) → (rows pruned : List BudgetRow) → BudgetResult
reserve_opened w q none rows pruned = (unavailable, rows)
reserve_opened w q (some spent) rows pruned =
    admit w q spent rows (pruned ++ opened_row w q spent ∷ [])

abbrev pub prune : (before : ℕ) → List BudgetRow → List BudgetRow
prune before rows = delete_where (λ r. ltb r.day before) rows

-- `_reserve_local_budget_sync`; `telemetry` is the sum of the day's costs.
unfoldable pub reserve_local_budget_sync :
    (telemetry : Option ℕ) → Window → LocalReservation → List BudgetRow → BudgetResult
reserve_local_budget_sync telemetry w q rows =
    let pruned = prune w.prune_before rows in
    elim (fetch_day q.day pruned) [
      | none ↦ reserve_opened w q telemetry rows pruned
      | some r ↦ reserve_row w q r r.spent_usd rows pruned
    ]

-- What `_update_local_budget_sync` is asked to do.
pub data Receipt : Type 0 where
  release exhaust missing_cost : Receipt
  exact : ℕ → Receipt

pub data Update : Type 0 where
  updated : (spent : Option ℕ) → Update
  denied : Update

abbrev pub UpdateResult : Type 0
UpdateResult = Update × List BudgetRow

abbrev pub settle_to : (now day : ℕ) → (spent : Option ℕ) → List BudgetRow → UpdateResult
settle_to now day spent rows = (updated spent, update_day day (settled_row now spent) rows)

-- `str(row["lease_token"] or "")`
abbrev pub row_token : Option ℕ → ℕ
row_token none = 0
row_token (some t) = t

module _ (plus : ℕ → ℕ → Option ℕ) where
  unfoldable pub update_spent :
      (now : ℕ) → LocalReservation → Receipt → (spent : ℕ) → List BudgetRow → UpdateResult
  update_spent now q release spent rows = settle_to now q.day (some spent) rows
  update_spent now q exhaust spent rows = settle_to now q.day (some (max spent q.limit_usd)) rows
  update_spent now q missing_cost spent rows = (denied, rows)
  update_spent now q (exact cost) spent rows = settle_to now q.day (plus spent cost) rows

  unfoldable pub update_row :
      (now : ℕ) → LocalReservation → Receipt → (spent : Option ℕ) → List BudgetRow → UpdateResult
  update_row now q receipt none rows =
      (denied, update_day q.day (settled_row now (some q.limit_usd)) rows)
  update_row now q receipt (some spent) rows = update_spent now q receipt spent rows

  -- `_update_local_budget_sync`
  unfoldable pub update_local_budget_sync :
      (now : ℕ) → LocalReservation → Receipt → List BudgetRow → UpdateResult
  update_local_budget_sync now q receipt rows = elim (fetch_day q.day rows) [
    | none ↦ (denied, rows)
    | some r ↦
        if not (row_token r.lease_token == q.token)
        then (denied, rows)
        else update_row now q receipt r.spent_usd rows
  ]
