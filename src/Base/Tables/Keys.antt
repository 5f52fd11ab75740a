-- ===== src/Base/Tables/Keys.antt =====
-- Tables with a numeric primary key: lookups by the key, and statements that keep it unique.
use grok_mcp_server.Base.Tests.{if◌then◌else◌, Bool-cases, ◌==◌, ==_iff}
use grok_mcp_server.Base.Tables.{update_where, delete_where, fetch_one}
use grok_mcp_server.Base.Lists.{All}
use Prim.Native.Nat.{ℕ}
use mathlib.Core.Path.{◌≡◌, refl, sym, ap, subst}
use mathlib.Core.Logic.{inl, inr, ◌≢◌}
use mathlib.Core.Bool.{Bool, true}
use mathlib.Core.Option
use mathlib.Core.Option.{Option, none, some}
use mathlib.Core.List.{List, [], ◌∷◌, ◌++◌}
use native.Mathlib.Omega.{arith}

module _ {ℓ} {A : Type ℓ} where
  -- `WHERE key=?`
  abbrev pub has_key : (A → ℕ) → ℕ → A → Bool
  has_key key k r = key r == k

  -- PRIMARY KEY: no two rows share a key.
  abbrev pub IsKeyed : (A → ℕ) → List A → Type ℓ
  IsKeyed key [] = Unit
  IsKeyed key (r ∷ rs) = (fetch_one (has_key key (key r)) rs ≡ none) × IsKeyed key rs

  pub fetch_one-append_none :
      (key : A → ℕ) (k : ℕ) (rs : List A) (r : A)
      → fetch_one (has_key key k) rs ≡ none
      → k ≢ key r
      → fetch_one (has_key key k) (rs ++ r ∷ []) ≡ none
  fetch_one-append_none key k [] r h ne = ground arith
  fetch_one-append_none key k (x ∷ rs) r h ne = ground (arith, fetch_one-append_none key k rs r)

  pub fetch_one-delete_none :
      (key : A → ℕ) (k : ℕ) (test : A → Bool) (rs : List A)
      → fetch_one (has_key key k) rs ≡ none
      → fetch_one (has_key key k) (delete_where test rs) ≡ none
  fetch_one-delete_none key k test [] h = refl
  fetch_one-delete_none key k test (x ∷ rs) h = ground (arith, fetch_one-delete_none key k test rs)

  pub IsKeyed-append :
      (key : A → ℕ) (rs : List A) (r : A)
      → fetch_one (has_key key (key r)) rs ≡ none
      → IsKeyed key rs
      → IsKeyed key (rs ++ r ∷ [])
  IsKeyed-append key [] r h u = (refl, tt)
  IsKeyed-append key (x ∷ rs) r h u = (
    fetch_one-append_none key (key x) rs r u.0 (ground arith),
    IsKeyed-append key rs r (ground arith) u.1,
  )

  pub IsKeyed-delete_where :
      (key : A → ℕ) (test : A → Bool) (rs : List A)
      → IsKeyed key rs
      → IsKeyed key (delete_where test rs)
  IsKeyed-delete_where key test [] u = tt
  IsKeyed-delete_where key test (x ∷ rs) u = elim (Bool-cases (test x)) [
    | inl t ↦ rw t (IsKeyed-delete_where key test rs u.1)
    | inr f ↦
        rw f (fetch_one-delete_none key (key x) test rs u.0, IsKeyed-delete_where key test rs u.1)
  ]

  module _ (key : A → ℕ) (test : A → Bool) (change : A → A)
      (keeps : (r : A) → test r ≡ true → key (change r) ≡ key r) where
    pub fetch_one-update_none :
        (k : ℕ) (rs : List A)
        → fetch_one (has_key key k) rs ≡ none
        → fetch_one (has_key key k) (update_where test change rs) ≡ none
    fetch_one-update_none k [] h = refl
    fetch_one-update_none k (x ∷ rs) h = ground (arith, keeps x, fetch_one-update_none k rs)

    pub IsKeyed-update_where :
        (rs : List A) → IsKeyed key rs → IsKeyed key (update_where test change rs)
    IsKeyed-update_where [] u = tt
    IsKeyed-update_where (x ∷ rs) u = elim (Bool-cases (test x)) [
      | inl t ↦
          rw (t, keeps x t) (fetch_one-update_none (key x) rs u.0, IsKeyed-update_where rs u.1)
      | inr f ↦ rw f (fetch_one-update_none (key x) rs u.0, IsKeyed-update_where rs u.1)
    ]

    -- A lookup by key finds the updated row.
    pub fetch_one-update_where :
        (k : ℕ) (rs : List A)
        → fetch_one (has_key key k) (update_where test change rs)
          ≡ Option.map (λ r. if test r then change r else r) (fetch_one (has_key key k) rs)
    fetch_one-update_where k [] = refl
    fetch_one-update_where k (x ∷ rs) = ground (arith, keeps x, fetch_one-update_where k rs)

  -- No row has the key: an update by it changes nothing.
  pub update_where-absent :
      (key : A → ℕ) (k : ℕ) (change : A → A) (rs : List A)
      → fetch_one (has_key key k) rs ≡ none
      → update_where (has_key key k) change rs ≡ rs
  update_where-absent key k change [] h = refl
  update_where-absent key k change (x ∷ rs) h = ground (arith, update_where-absent key k change rs)

  -- An update by key writes what the row read before it determines.
  pub update_where-read :
      (key : A → ℕ) (k : ℕ) (change : A → A) (rs : List A) (r : A)
      → fetch_one (has_key key k) rs ≡ some r
      → IsKeyed key rs
      → update_where (has_key key k) (λ _. change r) rs ≡ update_where (has_key key k) change rs
  update_where-read key k change [] r h u = cc
  update_where-read key k change (x ∷ rs) r h u = elim (Bool-cases (has_key key k x)) [
    | inl t ↦
        let e : key x ≡ k = (==_iff (key x) k).0 t in
        let gone = subst (λ j. fetch_one (has_key key j) rs ≡ none) e u.0 in
        ground (
          arith,
          gone,
          update_where-absent key k (λ _. change r) rs gone,
          update_where-absent key k change rs gone,
        )
    | inr f ↦ rw f (ap (λ ys. x ∷ ys) (update_where-read key k change rs r (rw f at h) u.1))
  ]

  -- The row that a key finds is the only one with it.
  module _ {κ} (P : A → Type κ) (key : A → ℕ) (k : ℕ) where
    absent-All : (rs : List A) → fetch_one (has_key key k) rs ≡ none → All (λ x. key x ≡ k → P x) rs
    absent-All [] h = tt
    absent-All (x ∷ rs) h = (
      (λ e. let found = (==_iff (key x) k).1 e in cc (rw found at h)),
      absent-All rs (ground (arith, h)),
    )

    pub IsKeyed-All :
        (rs : List A) {r : A}
        → IsKeyed key rs
        → fetch_one (has_key key k) rs ≡ some r
        → P r
        → All (λ x. key x ≡ k → P x) rs
    IsKeyed-All [] u h p = tt
    IsKeyed-All (x ∷ rs) {r} u h p = elim (Bool-cases (has_key key k x)) [
      | inl t ↦
          let same : x ≡ r = ground (arith, h, t) in
          let gone =
            subst (λ j. fetch_one (has_key key j) rs ≡ none) ((==_iff (key x) k).0 t) u.0 in
          ((λ e. subst P (sym same) p), absent-All rs gone)
      | inr f ↦ ((λ e. let t = (==_iff (key x) k).1 e in cc), IsKeyed-All rs u.1 (rw f at h) p)
    ]
