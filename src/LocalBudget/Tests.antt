-- ===== src/LocalBudget/Tests.antt =====
-- A day of a small budget, and the theorems at it.
use grok_mcp_server.Base.{ℕ, ◌+◌, ◌≡◌, refl, inr, arith, Option, none, some, List, [], ◌∷◌, false}
use grok_mcp_server.LocalBudget.{
  BudgetRow, at_instant, LocalReservation, Window, reserved, exceeded, unavailable, admit,
  reserve_row, reserve_opened, reserve_local_budget_sync, exact, update_spent, update_row,
  update_local_budget_sync,
}
use grok_mcp_server.LocalBudget.Settle.{
  done, refused, settle_local_budget, settle_local_budget_error, total_cost,
}
use grok_mcp_server.LocalBudget.Spec.{Lease, open_day, Reserves, Settles}
use grok_mcp_server.LocalBudget.View.{view}
use grok_mcp_server.LocalBudget.Calls.{
  BudgetCall, reserve, settle, perform_budget, is_granted, run_budget, granted,
}
use grok_mcp_server.LocalBudget.Refinement.{reserve_local_budget_sync-refines}
use grok_mcp_server.LocalBudget.Settling.{update_local_budget_sync-refines}
use grok_mcp_server.LocalBudget.Blocked.{run_budget-blocked}
use grok_mcp_server.LocalBudget.Exclusive.{reserve-exclusive, reserve-lost_receipt}
use grok_mcp_server.LocalBudget.Charges.{
  settle_local_budget-charges, settle_local_budget_error-closes,
}

-- The program with every function open.
program : Unit {0}
unfolding view admit reserve_row reserve_opened reserve_local_budget_sync update_spent update_row
    update_local_budget_sync settle_local_budget settle_local_budget_error total_cost perform_budget
    is_granted run_budget granted
program = tt

abbrev plus : ℕ → ℕ → Option ℕ
plus a b = some (a + b)

abbrev idle_row : BudgetRow
idle_row = record {
  day = 20;
  spent_usd = some 30;
  lease_token = none;
  lease_expires_at = none;
  updated_at = 5;
}

abbrev held_row : BudgetRow
held_row = record idle_row { lease_token = some 7; lease_expires_at = some (at_instant 1000) }

abbrev first : LocalReservation
first = record { day = 20; token = 7; limit_usd = 50 }

abbrev second : LocalReservation
second = record { day = 20; token = 8; limit_usd = 50 }

abbrev window : Window
window = record {
  now = 100;
  lease_expires_at = 1000;
  day_start = 0;
  day_end = 2000;
  prune_before = 12;
}

abbrev late : Window
late = record window { now = 1500; lease_expires_at = 2400 }

abbrev lease : Lease
lease = record { holder = 7; expires = 1000 }

-- Another operation tries to reserve, and then to settle.
abbrev intruding : List BudgetCall
intruding = reserve none window second ∷ settle 200 second (exact 9) ∷ []

first_granted : (reserve_local_budget_sync none window first (idle_row ∷ [])).0 ≡ reserved
unfolding program
first_granted = refl

new_day : (reserve_local_budget_sync (some 60) window first []).0 ≡ exceeded
unfolding program
new_day = refl

second_refused : (reserve_local_budget_sync none window second (held_row ∷ [])).0 ≡ unavailable
unfolding program
second_refused = refl

reserve_local_budget_sync-refines_example :
    Reserves none 100 1000 7 50
      (view 20 (idle_row ∷ []))
      (reserve_local_budget_sync none window first (idle_row ∷ [])).0
      (view 20 (reserve_local_budget_sync none window first (idle_row ∷ [])).1)
reserve_local_budget_sync-refines_example =
    reserve_local_budget_sync-refines none window first (idle_row ∷ []) (λ h. omega (arith, h))
      (omega arith) (refl, tt)

update_local_budget_sync-refines_example :
    Settles plus 7 50
      (exact 9)
      (view 20 (held_row ∷ []))
      (update_local_budget_sync plus 200 first (exact 9) (held_row ∷ [])).0
      (view 20 (update_local_budget_sync plus 200 first (exact 9) (held_row ∷ [])).1)
update_local_budget_sync-refines_example =
    update_local_budget_sync-refines plus 200 first (exact 9) (held_row ∷ [])
      (λ h. omega (arith, h))

run_budget-blocked_example :
    (granted plus 20 intruding (held_row ∷ []) ≡ 0)
    × (view 20 (run_budget plus intruding (held_row ∷ [])) ≡ open_day (some 30) (some lease))
unfolding program
run_budget-blocked_example =
    run_budget-blocked plus 20 (open_day (some 30) (some lease)) intruding (held_row ∷ [])
      (refl, tt) refl
      (
        ((λ h. omega (arith, h)), omega arith, inr (refl, omega arith)),
        (((λ h. omega (arith, h)), inr (refl, (λ h. omega (arith, h)))), tt),
      )

reserve-exclusive_example :
    ((reserve_local_budget_sync none window first (idle_row ∷ [])).0 ≡ reserved)
    × (granted plus 20 intruding (reserve_local_budget_sync none window first (idle_row ∷ [])).1
        ≡ 0)
    × (view 20 (
          run_budget plus intruding (reserve_local_budget_sync none window first (idle_row ∷ [])).1)
        ≡ open_day (some 30) (some lease))
unfolding program
reserve-exclusive_example =
    reserve-exclusive plus none window first 30 intruding (idle_row ∷ []) (refl, tt)
      (λ h. omega (arith, h)) (omega arith) refl (omega arith)
      (
        ((λ h. omega (arith, h)), omega arith, inr (refl, omega arith)),
        (((λ h. omega (arith, h)), inr (refl, (λ h. omega (arith, h)))), tt),
      )

reserve-lost_receipt_example :
    ((reserve_local_budget_sync none late second (held_row ∷ [])).0 ≡ exceeded)
    × (granted plus 20 intruding (reserve_local_budget_sync none late second (held_row ∷ [])).1 ≡ 0)
    × (view 20
          (run_budget plus intruding (reserve_local_budget_sync none late second (held_row ∷ [])).1)
        ≡ open_day (some 50) none)
unfolding program
reserve-lost_receipt_example =
    reserve-lost_receipt plus none late second 30 lease intruding (held_row ∷ []) (refl, tt)
      (λ h. omega (arith, h)) (omega arith) refl (omega arith)
      (
        ((λ h. omega (arith, h)), omega arith, inr (refl, omega arith)),
        (((λ h. omega (arith, h)), inr (refl, tt)), tt),
      )

settle_local_budget-charges_example :
    ((settle_local_budget plus false 200 (some first) (some 9) (held_row ∷ [])).0 ≡ done)
    × (view 20 (settle_local_budget plus false 200 (some first) (some 9) (held_row ∷ [])).1
        ≡ open_day (some 39) none)
unfolding program
settle_local_budget-charges_example =
    settle_local_budget-charges plus 200 first (held_row ∷ []) 30 lease (λ h. omega (arith, h)) refl
      refl false (some 9)

settle_local_budget_error-closes_example :
    ((settle_local_budget_error plus false 200
        (some first)
        (some 9 ∷ none ∷ some 4 ∷ [])
        (held_row ∷ [])).0
      ≡ refused)
    × (view 20
          (settle_local_budget_error plus false 200
            (some first)
            (some 9 ∷ none ∷ some 4 ∷ [])
            (held_row ∷ [])).1
        ≡ open_day (some 50) none)
unfolding program
settle_local_budget_error-closes_example =
    settle_local_budget_error-closes plus false 200 first (held_row ∷ []) 30 lease (some 9 ∷ [])
      (some 4 ∷ []) (λ h. omega (arith, h)) refl refl
