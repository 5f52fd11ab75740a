-- ===== src/LocalBudget/Charges.antt =====
-- What the holder of a lease is charged (src/unigrok_public/caller_budget.py).
use grok_mcp_server.Base.{
  ℕ, ◌≡◌, ◌≢◌, refl, arith, ◌∙◌, ap, max, Option, none, some, List, [], ◌∷◌, ◌++◌, Bool, true,
  false, if◌then◌else◌, is_some,
}
use grok_mcp_server.LocalBudget.{
  BudgetRow, LocalReservation, Receipt, release, exhaust, missing_cost, exact, Update, updated,
  update_local_budget_sync,
}
use grok_mcp_server.LocalBudget.Spec.{
  Lease, Day, open_day, Settles, not_open, no_lease, not_holder, released, exhausted, charged,
  no_receipt, broken, open_day-amount, open_day-lease,
}
use grok_mcp_server.LocalBudget.View.{view}
use grok_mcp_server.LocalBudget.Settling.{update_local_budget_sync-refines}
use grok_mcp_server.LocalBudget.Settle.{
  done, refused, settlement_of, settle_local_budget, add_cost, total_cost,
  settle_local_budget_error,
}

-- What the day counts as spent after a receipt.
abbrev pub charge : (plus : ℕ → ℕ → Option ℕ) → (spent limit : ℕ) → Receipt → Option ℕ
charge plus s limit release = some s
charge plus s limit exhaust = some (max s limit)
charge plus s limit missing_cost = some s
charge plus s limit (exact c) = plus s c

-- A receipt that is settled.
abbrev pub is_settled : Receipt → Bool
is_settled missing_cost = false
is_settled other = true

Settles-holder :
    (plus : ℕ → ℕ → Option ℕ) (token limit s : ℕ) (l : Lease) (c : Receipt) {d d' : Day}
    {a : Update}
    → Settles plus token limit c d a d'
    → d ≡ open_day (some s) (some l)
    → l.holder ≡ token
    → is_settled c ≡ true
    → (a ≡ updated (charge plus s limit c)) × (d' ≡ open_day (charge plus s limit c) none)
Settles-holder plus token limit s l c not_open e mine t = cc
Settles-holder plus token limit s l c no_lease e mine t = cc
Settles-holder plus token limit s l c (not_holder {l = l'} ne) e mine t =
    absurd (ne (ap (λ (x : Lease). x.holder) (open_day-lease e) ∙ mine))
Settles-holder plus token limit s l release (released f) e mine t =
    let same = open_day-amount e in (rw same refl, rw same refl)
Settles-holder plus token limit s l exhaust (exhausted f g) e mine t =
    let same = open_day-amount e in (rw (g, same) refl, rw (g, same) refl)
Settles-holder plus token limit s l (exact c) (charged f g) e mine t =
    let same = open_day-amount e in (rw (g, same) refl, rw (g, same) refl)
Settles-holder plus token limit s l missing_cost (no_receipt f) e mine t = cc
Settles-holder plus token limit s l c (broken f) e mine t = cc

module _ (plus : ℕ → ℕ → Option ℕ) (now : ℕ) (q : LocalReservation) (rows : List BudgetRow) (s : ℕ)
    (l : Lease) (named : q.token ≢ 0) (held : view q.day rows ≡ open_day (some s) (some l))
    (mine : l.holder ≡ q.token) where
  charged_lem :
      (c : Receipt)
      → is_settled c ≡ true
      → ((update_local_budget_sync plus now q c rows).0 ≡ updated (charge plus s q.limit_usd c))
        × (view q.day (update_local_budget_sync plus now q c rows).1
            ≡ open_day (charge plus s q.limit_usd c) none)
  charged_lem c t =
      Settles-holder plus q.token q.limit_usd s l c
        (update_local_budget_sync-refines plus now q c rows named) held mine t

  -- The holder of a lease settles with the cost of a result. Where the table can be written, a valid
  -- cost is added to what is spent, and without one the day counts as spent up to its limit and the
  -- caller gets an error; in both cases the lease is given up. Where it cannot, the caller gets an
  -- error and the day is as it was, the lease still held.
  pub settle_local_budget-charges :
      (fails : Bool) (cost : Option ℕ)
      → ((settle_local_budget plus fails now (some q) cost rows).0
          ≡ (if fails then refused else if is_some cost then done else refused))
        × (view q.day (settle_local_budget plus fails now (some q) cost rows).1 ≡ (
            if fails
            then open_day (some s) (some l)
            else open_day (elim cost [ none ↦ some (max s q.limit_usd) | some c ↦ plus s c ]) none))
  unfolding settle_local_budget
  settle_local_budget-charges true none = (refl, held)
  settle_local_budget-charges true (some c) = (refl, held)
  settle_local_budget-charges false none = (refl, (charged_lem exhaust refl).1)
  settle_local_budget-charges false (some c) =
      let (done_with, charged_to) = charged_lem (exact c) refl in
      (ap settlement_of done_with, charged_to)

total_cost-none :
    (plus : ℕ → ℕ → Option ℕ) (attempts : List (Option ℕ)) → total_cost plus none attempts ≡ none
unfolding total_cost
total_cost-none plus [] = refl
total_cost-none plus (cost ∷ attempts) = total_cost-none plus attempts

total_cost-invalid :
    (plus : ℕ → ℕ → Option ℕ) (total : Option ℕ) (before after : List (Option ℕ))
    → total_cost plus total (before ++ none ∷ after) ≡ none
unfolding total_cost
total_cost-invalid plus none before after = total_cost-none plus (before ++ none ∷ after)
total_cost-invalid plus (some total) [] after = total_cost-none plus after
total_cost-invalid plus (some total) (cost ∷ before) after =
    total_cost-invalid plus (add_cost plus (some total) cost) before after

settle_error-cost :
    (plus : ℕ → ℕ → Option ℕ) (fails : Bool) (now : ℕ) (q : LocalReservation)
    (before after : List (Option ℕ)) (rows : List BudgetRow)
    → settle_local_budget_error plus fails now (some q) (before ++ none ∷ after) rows
      ≡ settle_local_budget plus fails now (some q) none rows
unfolding settle_local_budget_error
settle_error-cost plus fails now q [] after rows =
    ap (λ c. settle_local_budget plus fails now (some q) c rows)
      (total_cost-invalid plus (some 0) [] after)
settle_error-cost plus fails now q (cost ∷ before) after rows =
    ap (λ c. settle_local_budget plus fails now (some q) c rows)
      (total_cost-invalid plus (some 0) (cost ∷ before) after)

-- The holder of a lease settles with an error one of whose attempts has no valid cost, wherever it
-- stands among them: the caller gets an error, and where the table can be written the day is closed,
-- with what is spent raised to the limit and the lease given up. Where it cannot be written, the day is
-- as it was, the lease still held.
pub settle_local_budget_error-closes :
    (plus : ℕ → ℕ → Option ℕ) (fails : Bool) (now : ℕ) (q : LocalReservation)
    (rows : List BudgetRow) (s : ℕ) (l : Lease) (before after : List (Option ℕ))
    → q.token ≢ 0
    → view q.day rows ≡ open_day (some s) (some l)
    → l.holder ≡ q.token
    → ((settle_local_budget_error plus fails now (some q) (before ++ none ∷ after) rows).0
        ≡ refused)
      × (view q.day
            (settle_local_budget_error plus fails now (some q) (before ++ none ∷ after) rows).1
          ≡ (if fails
              then open_day (some s) (some l)
              else open_day (some (max s q.limit_usd)) none))
settle_local_budget_error-closes plus fails now q rows s l before after named held mine =
    let promise = settle_local_budget-charges plus now q rows s l named held mine fails none in
    rw (settle_error-cost plus fails now q before after rows) (ground (arith, promise))
