-- ===== src/LocalBudget/Settling.antt =====
-- The settlement of src/unigrok_public/caller_budget.py keeps the promises of a day's budget.
use grok_mcp_server.Base.{
  ℕ, ◌≡◌, ◌≢◌, refl, sym, ◌∙◌, ap, max, Option, none, some, List, arith, Bool-cases, Option-cases,
  inl, inr, ◌==◌, ==_iff,
}
use grok_mcp_server.LocalBudget.{
  Expiry, BudgetRow, LocalReservation, update_day, fetch_day, settled_row, Receipt, release,
  exhaust, missing_cost, exact, denied, UpdateResult, row_token, update_spent, update_row,
  update_local_budget_sync,
}
use grok_mcp_server.LocalBudget.Spec.{
  Lease, Day, open_day, Settles, not_open, no_lease, not_holder, released, exhausted, charged,
  no_receipt, broken,
}
use grok_mcp_server.LocalBudget.View.{instant_of, lease_of, view, fetch_day-update_day}
use grok_mcp_server.LocalBudget.Refinement.{view-at, view-absent}

module _ (plus : ℕ → ℕ → Option ℕ) (now : ℕ) (q : LocalReservation) where
  abbrev Keeps : Receipt → Day → UpdateResult → Type 0
  Keeps c d r = Settles plus q.token q.limit_usd c d r.0 (view q.day r.1)

  view-settled :
      (rows : List BudgetRow) (r : BudgetRow) (spent : Option ℕ)
      → fetch_day q.day rows ≡ some r
      → view q.day (update_day q.day (settled_row now spent) rows) ≡ open_day spent none
  unfolding view
  view-settled rows r spent found =
      rw (fetch_day-update_day q.day (settled_row now spent) rows r (λ x. refl) found) refl

  -- The holder settles.
  module _ (rows : List BudgetRow) (r : BudgetRow) (found : fetch_day q.day rows ≡ some r)
      (l : Lease) (mine : l.holder ≡ q.token) where
    update_spent-Keeps :
        (c : Receipt) (s : ℕ)
        → view q.day rows ≡ open_day (some s) (some l)
        → Keeps c (open_day (some s) (some l)) (update_spent plus now q c s rows)
    unfolding update_spent
    update_spent-Keeps release s seen = rw (view-settled rows r (some s) found) (released mine)
    update_spent-Keeps exhaust s seen =
        rw (view-settled rows r (some (max s q.limit_usd)) found) (exhausted mine refl)
    update_spent-Keeps missing_cost s seen = rw seen (no_receipt mine)
    update_spent-Keeps (exact c) s seen =
        rw (view-settled rows r (plus s c) found) (charged mine refl)

    update_row-Keeps :
        (c : Receipt) (spent : Option ℕ)
        → view q.day rows ≡ open_day spent (some l)
        → Keeps c (open_day spent (some l)) (update_row plus now q c spent rows)
    unfolding update_row
    update_row-Keeps c none seen = rw (view-settled rows r (some q.limit_usd) found) (broken mine)
    update_row-Keeps c (some s) seen = update_spent-Keeps c s seen

  turned_down :
      (c : Receipt) (spent : Option ℕ) (lease : Option Lease) (rows : List BudgetRow)
      → view q.day rows ≡ open_day spent lease
      → ((l : Lease) → lease ≡ some l → l.holder ≢ q.token)
      → Keeps c (view q.day rows) (denied, rows)
  turned_down c spent none rows seen other = rw seen no_lease
  turned_down c spent (some l) rows seen other = rw seen (not_holder (other l refl))

-- The lease that a token and an expiry stand for is the token's.
lease_of-holder :
    (token : Option ℕ) (expiry : Option Expiry) (l : Lease)
    → lease_of token expiry ≡ some l
    → l.holder ≡ row_token token
lease_of-holder none expiry l h = cc
lease_of-holder (some t) expiry l h = elim (Bool-cases (t == 0)) [
  | inl zero_token ↦ cc (rw zero_token at h)
  | inr named ↦
      ap (λ (o : Option Lease). elim o [ none ↦ t | some x ↦ x.holder ]) (sym (rw named at h))
]

lease_of-named :
    (token : Option ℕ) (expiry : Option Expiry) (t : ℕ)
    → t ≢ 0
    → row_token token ≡ t
    → (l : Lease) × (lease_of token expiry ≡ some l) × (l.holder ≡ t)
lease_of-named none expiry t named mine = absurd (named (sym mine))
lease_of-named (some u) expiry t named mine =
    (record { holder = u; expires = instant_of expiry }, ground (arith, named, mine), mine)

-- A settlement by a token keeps the promise for its day.
pub update_local_budget_sync-refines :
    (plus : ℕ → ℕ → Option ℕ) (now : ℕ) (q : LocalReservation) (receipt : Receipt)
    (rows : List BudgetRow)
    → q.token ≢ 0
    → Settles plus q.token q.limit_usd receipt
        (view q.day rows)
        (update_local_budget_sync plus now q receipt rows).0
        (view q.day (update_local_budget_sync plus now q receipt rows).1)
unfolding update_local_budget_sync
update_local_budget_sync-refines plus now q receipt rows named =
    elim (Option-cases (fetch_day q.day rows)) [
      | inl absent ↦ rw (absent, update_local_budget_sync, view-absent q.day rows absent) not_open
      | inr (r, found) ↦ elim (Bool-cases (row_token r.lease_token == q.token)) [
        | inr other ↦
            rw (found, update_local_budget_sync, other)
              (turned_down plus now q receipt r.spent_usd
                (lease_of r.lease_token r.lease_expires_at) rows (view-at q.day rows r found)
                (λ l h e. cc (
                  rw
                    ((==_iff (row_token r.lease_token) q.token).1
                      (sym (lease_of-holder r.lease_token r.lease_expires_at l h) ∙ e))
                    at other)))
        | inl mine ↦
            let (l, held, holder) =
              lease_of-named r.lease_token r.lease_expires_at q.token named
                ((==_iff (row_token r.lease_token) q.token).0 mine) in
            let seen = view-at q.day rows r found ∙ ap (open_day r.spent_usd) held in
            rw (found, update_local_budget_sync, mine)
              (rw seen (update_row-Keeps plus now q rows r found l holder receipt r.spent_usd seen))
      ]
    ]
