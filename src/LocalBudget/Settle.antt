-- ===== src/LocalBudget/Settle.antt =====
-- How a metered local operation reserves, settles and releases its budget
-- (src/unigrok_public/caller_budget.py).
use grok_mcp_server.Base.{ℕ, Option, none, some, List, [], ◌∷◌, Bool, if◌then◌else◌}
use grok_mcp_server.LocalBudget.{
  BudgetRow, LocalReservation, Window, Answer, unavailable, BudgetResult, reserve_local_budget_sync,
  Receipt, release, exhaust, exact, Update, updated, denied, UpdateResult, update_local_budget_sync,
}

-- The outcome for the caller: no budget applies, it is settled, or the error that is raised.
pub data Settlement : Type 0 where
  done refused : Settlement

abbrev pub SettleResult : Type 0
SettleResult = Settlement × List BudgetRow

-- `_local_budget_io`: a failure of the file or of sqlite leaves the table as it was.
abbrev pub reserve_io : (fails : Bool) → BudgetResult → List BudgetRow → BudgetResult
reserve_io fails r rows = if fails then (unavailable, rows) else r

abbrev pub update_io : (fails : Bool) → UpdateResult → List BudgetRow → UpdateResult
update_io fails r rows = if fails then (denied, rows) else r

abbrev pub settlement_of : Update → Settlement
settlement_of (updated spent) = done
settlement_of denied = refused

-- `reserve_local_budget`: none where no budget applies, which is on Cloud Run and where no limit is
-- configured.
unfoldable pub reserve_local_budget :
    (cloudrun fails : Bool)
    → (limit : Option ℕ) → (telemetry : Option ℕ) → Window
    → (day token : ℕ) → List BudgetRow
    → Option Answer × List BudgetRow
reserve_local_budget cloudrun fails none telemetry w day token rows = (none, rows)
reserve_local_budget cloudrun fails (some limit) telemetry w day token rows =
    let q : LocalReservation = record { day = day; token = token; limit_usd = limit } in
    let r = reserve_io fails (reserve_local_budget_sync telemetry w q rows) rows in
    if cloudrun then (none, rows) else (some r.0, r.1)

module _ (plus : ℕ → ℕ → Option ℕ) where
  abbrev pub apply :
      (fails : Bool) → (now : ℕ) → LocalReservation → Receipt → List BudgetRow → UpdateResult
  apply fails now q receipt rows =
      update_io fails (update_local_budget_sync plus now q receipt rows) rows

  -- `settle_local_budget`; a result without a valid cost exhausts the budget.
  unfoldable pub settle_local_budget :
      (fails : Bool)
      → (now : ℕ) → Option LocalReservation
      → (cost : Option ℕ) → List BudgetRow
      → SettleResult
  settle_local_budget fails now none cost rows = (done, rows)
  settle_local_budget fails now (some q) none rows = (refused, (apply fails now q exhaust rows).1)
  settle_local_budget fails now (some q) (some cost) rows =
      let r = apply fails now q (exact cost) rows in (settlement_of r.0, r.1)

  -- The sum of the attempts of an error; none where one has no valid cost, or the sum overflows.
  abbrev pub add_cost : Option ℕ → Option ℕ → Option ℕ
  add_cost (some total) (some cost) = plus total cost
  add_cost _ _ = none

  unfoldable pub total_cost : (total : Option ℕ) → (attempts : List (Option ℕ)) → Option ℕ
  total_cost total [] = total
  total_cost total (cost ∷ attempts) = total_cost (add_cost total cost) attempts

  -- `settle_local_budget_error`: an error without attempts leaves the lease as it is.
  unfoldable pub settle_local_budget_error :
      (fails : Bool)
      → (now : ℕ) → Option LocalReservation
      → (attempts : List (Option ℕ)) → List BudgetRow
      → SettleResult
  settle_local_budget_error fails now none attempts rows = (done, rows)
  settle_local_budget_error fails now (some q) [] rows = (done, rows)
  settle_local_budget_error fails now (some q) (cost ∷ attempts) rows =
      settle_local_budget fails now (some q) (total_cost (some 0) (cost ∷ attempts)) rows

  -- `release_local_budget`
  unfoldable pub release_local_budget :
      (fails : Bool) → (now : ℕ) → Option LocalReservation → List BudgetRow → SettleResult
  release_local_budget fails now none rows = (done, rows)
  release_local_budget fails now (some q) rows =
      let r = apply fails now q release rows in (settlement_of r.0, r.1)
