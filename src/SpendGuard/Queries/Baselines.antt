-- ===== src/SpendGuard/Queries/Baselines.antt =====
-- What `ensure_telemetry_baseline` may change: one snapshot, where the scope and day had none.
use grok_mcp_server.Base.{
  ℕ, ◌≡◌, refl, ap, ◌≢◌, ◌⊎◌, inl, inr, Option, none, some, List, [], ◌∷◌, ◌++◌, true, arith,
  is_some, Option-cases,
}
use grok_mcp_server.Base.Tables.{fetch_one}
use grok_mcp_server.SpendGuard.State.{Baseline, Amount, Ledger, ok}
use grok_mcp_server.SpendGuard.Queries.{
  baseline_at, insert_baseline, ensure_telemetry_baseline, snapshot, telemetry_rows,
}

-- The two outcomes of a successful `ensure_telemetry_baseline`.
pub data BaselineEffect (scope day : ℕ) (caller : Option ℕ) (db db' : Ledger) : Type 0 where
  -- nothing is written
  unchanged :
      db' ≡ db
      → (caller ≡ none) ⊎ (is_some (fetch_one (baseline_at scope day) db.baselines) ≡ true)
      → BaselineEffect scope day caller db db'
  -- the snapshot of the scope and the day is taken
  inserted :
      (b : Baseline)
      → db' ≡ record db { baselines = db.baselines ++ b ∷ [] }
      → b.scope ≡ scope
      → b.utc_day ≡ day
      → fetch_one (baseline_at scope day) db.baselines ≡ none
      → caller ≢ none
      → BaselineEffect scope day caller db db'

module _ (sum_cost : List Amount → Amount) where
  -- A snapshot that is inserted is for the scope and the day asked for.
  insert_baseline-writes :
      (scope day caller now ticks : ℕ) (db db' : Ledger)
      → insert_baseline sum_cost scope day caller now db ≡ ok (ticks, db')
      → (b : Baseline) × (db' ≡ record db { baselines = db.baselines ++ b ∷ [] })
        × (b.scope ≡ scope)
        × (b.utc_day ≡ day)
  unfolding insert_baseline
  insert_baseline-writes scope day caller now ticks db db' h = (
    snapshot scope day caller now ticks (telemetry_rows scope day caller db),
    ground arith,
    ground arith,
    ground arith,
  )

  pub ensure_telemetry_baseline-effect :
      (scope day now ticks : ℕ) (caller : Option ℕ) (db db' : Ledger)
      → ensure_telemetry_baseline sum_cost scope day caller now db ≡ ok (ticks, db')
      → BaselineEffect scope day caller db db'
  unfolding ensure_telemetry_baseline
  ensure_telemetry_baseline-effect scope day now ticks none db db' h =
      unchanged (ground arith) (inl refl)
  ensure_telemetry_baseline-effect scope day now ticks (some c) db db' h =
      elim (Option-cases (fetch_one (baseline_at scope day) db.baselines)) [
        | inl missing ↦
            let (b, wrote, at_scope, on_day) =
              insert_baseline-writes scope day c now ticks db db' (ground arith) in
            inserted b wrote at_scope on_day missing (ground arith)
        | inr (b, found) ↦ unchanged (ground arith) (inr (rw found))
      ]

-- A snapshot of another scope or day leaves a lookup alone.
pub fetch_baseline-other :
    (scope day : ℕ) (bs : List Baseline) (b : Baseline)
    → (b.scope ≢ scope) ⊎ (b.utc_day ≢ day)
    → fetch_one (baseline_at scope day) (bs ++ b ∷ []) ≡ fetch_one (baseline_at scope day) bs
fetch_baseline-other scope day [] b h = ground arith
fetch_baseline-other scope day (x ∷ bs) b h = ground (arith, fetch_baseline-other scope day bs b h)

-- A snapshot that is taken is found, and later ones do not replace it.
pub fetch_baseline-found :
    (scope day : ℕ) (bs : List Baseline) (b : Baseline)
    → is_some (fetch_one (baseline_at scope day) bs) ≡ true
    → fetch_one (baseline_at scope day) (bs ++ b ∷ []) ≡ fetch_one (baseline_at scope day) bs
fetch_baseline-found scope day [] b h = cc
fetch_baseline-found scope day (x ∷ bs) b h = ground (arith, fetch_baseline-found scope day bs b)

pub fetch_baseline-new :
    (scope day : ℕ) (bs : List Baseline) (b : Baseline)
    → b.scope ≡ scope
    → b.utc_day ≡ day
    → is_some (fetch_one (baseline_at scope day) (bs ++ b ∷ [])) ≡ true
fetch_baseline-new scope day [] b p q = ground arith
fetch_baseline-new scope day (x ∷ bs) b p q = ground (arith, fetch_baseline-new scope day bs b p q)

-- Afterwards the scope and the day have their snapshot, unless no caller was given.
pub snapped-after :
    (scope day : ℕ) (caller : Option ℕ) (db db' : Ledger)
    → BaselineEffect scope day caller db db'
    → (caller ≡ none) ⊎ (is_some (fetch_one (baseline_at scope day) db'.baselines) ≡ true)
snapped-after scope day caller db db' (unchanged e known) = rw e known
snapped-after scope day caller db db' (inserted b e p q _ _) =
    inr (rw e (fetch_baseline-new scope day db.baselines b p q))

-- The reservations are not touched.
pub reservations-after :
    {scope day : ℕ} {caller : Option ℕ} {db db' : Ledger}
    → BaselineEffect scope day caller db db'
    → db'.reservations ≡ db.reservations
reservations-after (unchanged e known) = ap (λ d. d.reservations) e
reservations-after (inserted b e p q _ _) = ap (λ d. d.reservations) e
