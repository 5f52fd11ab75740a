-- ===== src/Base/Tables/Laws.antt =====
-- How aggregates, key lookups and row predicates change under the table statements.
use grok_mcp_server.Base.Tests.{if◌then◌else◌, Bool-cases}
use grok_mcp_server.Base.Lists.{sum_by, All}
use grok_mcp_server.Base.Tables.{update_where, count_where, select_where, delete_where, fetch_one}
use Prim.Native.Nat.{ℕ, ◌+◌, ◌≤◌}
use mathlib.Core.Path.{◌≡◌, refl, ap, subst}
use mathlib.Core.Logic.{◌⊎◌, inl, inr}
use mathlib.Core.Bool.{Bool, true, false}
use mathlib.Core.Option.{none, some}
use mathlib.Core.List.{List, [], ◌∷◌, ◌++◌}
use native.Mathlib.Omega.{arith}

module _ {ℓ} {A : Type ℓ} where
  -- The aggregate of a selection, over the whole table.
  pub sum_by-select_where :
      (test : A → Bool) (f : A → ℕ) (rs : List A)
      → sum_by f (select_where test rs) ≡ sum_by (λ r. if test r then f r else 0) rs
  sum_by-select_where test f [] = refl
  sum_by-select_where test f (r ∷ rs) = ground (arith, sum_by-select_where test f rs)

  pub count_where-eq-sum_by :
      (test : A → Bool) (rs : List A)
      → count_where test rs ≡ sum_by (λ r. if test r then 1 else 0) rs
  count_where-eq-sum_by test [] = refl
  count_where-eq-sum_by test (r ∷ rs) =
      ap (λ n. (if test r then 1 else 0) + n) (count_where-eq-sum_by test rs)

  pub count_where-append :
      (test : A → Bool) (rs : List A) (r : A)
      → count_where test (rs ++ r ∷ []) ≡ count_where test rs + (if test r then 1 else 0)
  count_where-append test [] r = ground arith
  count_where-append test (x ∷ rs) r = ground (arith, count_where-append test rs r)

  -- Where the fetched row stands.
  fetch_one-cons :
      (test : A → Bool) (x r : A) (rs : List A)
      → fetch_one test (x ∷ rs) ≡ some r
      → (test x ≡ true) × (x ≡ r) ⊎ (test x ≡ false) × (fetch_one test rs ≡ some r)
  fetch_one-cons test x r rs h = ground arith

  pub fetch_one-passes :
      (test : A → Bool) (rs : List A) {r : A} → fetch_one test rs ≡ some r → test r ≡ true
  fetch_one-passes test [] h = cc
  fetch_one-passes test (x ∷ rs) {r} h = elim (fetch_one-cons test x r rs h) [
    | inl (t, e) ↦ subst (λ y. test y ≡ true) e t
    | inr (f, later) ↦ fetch_one-passes test rs later
  ]

  pub fetch_one-All {κ} :
      (P : A → Type κ) (test : A → Bool) (rs : List A) {r : A}
      → fetch_one test rs ≡ some r
      → All P rs
      → P r
  fetch_one-All P test [] h a = cc
  fetch_one-All P test (x ∷ rs) {r} h a = elim (fetch_one-cons test x r rs h) [
    | inl (t, e) ↦ subst P e a.0
    | inr (f, later) ↦ fetch_one-All P test rs later a.1
  ]

  pub fetch_one-append :
      (test : A → Bool) (rs : List A) (r : A)
      → fetch_one test (rs ++ r ∷ [])
        ≡ elim (fetch_one test rs) [ some x ↦ some x | none ↦ if test r then some r else none ]
  fetch_one-append test [] r = refl
  fetch_one-append test (x ∷ rs) r = ground (arith, fetch_one-append test rs r)

  pub sum_by-update_where_le :
      (f : A → ℕ) (test : A → Bool) (change : A → A)
      → ((r : A) → test r ≡ true → f (change r) ≤ f r)
      → (rs : List A) → sum_by f (update_where test change rs) ≤ sum_by f rs
  sum_by-update_where_le f test change h [] = omega arith
  sum_by-update_where_le f test change h (r ∷ rs) =
      ground (arith, h r, sum_by-update_where_le f test change h rs)

  pub sum_by-delete_where_le :
      (f : A → ℕ) (test : A → Bool) (rs : List A) → sum_by f (delete_where test rs) ≤ sum_by f rs
  sum_by-delete_where_le f test [] = omega arith
  sum_by-delete_where_le f test (r ∷ rs) = ground (arith, sum_by-delete_where_le f test rs)

  pub update_where-All {κ} :
      (P : A → Type κ) (test : A → Bool) (change : A → A)
      → ((r : A) → test r ≡ true → P r → P (change r))
      → (rs : List A) → All P rs
      → All P (update_where test change rs)
  update_where-All P test change h [] a = tt
  update_where-All P test change h (r ∷ rs) a = elim (Bool-cases (test r)) [
    | inl t ↦ rw t (h r t a.0, update_where-All P test change h rs a.1)
    | inr f ↦ rw f (a.0, update_where-All P test change h rs a.1)
  ]

  pub delete_where-All {κ} :
      (P : A → Type κ) (test : A → Bool) (rs : List A) → All P rs → All P (delete_where test rs)
  delete_where-All P test [] a = tt
  delete_where-All P test (r ∷ rs) a = elim (Bool-cases (test r)) [
    | inl t ↦ rw t (delete_where-All P test rs a.1)
    | inr f ↦ rw f (a.0, delete_where-All P test rs a.1)
  ]

  -- Statements whose test no row passes.
  pub count_where-none :
      (test : A → Bool) (rs : List A) → fetch_one test rs ≡ none → count_where test rs ≡ 0
  count_where-none test [] h = refl
  count_where-none test (r ∷ rs) h = ground (arith, h, count_where-none test rs)

  pub update_where-none :
      (test : A → Bool) (change : A → A) (rs : List A)
      → fetch_one test rs ≡ none
      → update_where test change rs ≡ rs
  update_where-none test change [] h = refl
  update_where-none test change (r ∷ rs) h = ground (arith, h, update_where-none test change rs)
