-- ===== src/Base/Tables.antt =====
-- SQL tables as lists of rows in insertion order: the statements that the stores run.
pub mod Laws
pub mod Keys
use grok_mcp_server.Base.Tests.{if◌then◌else◌}
use Prim.Native.Nat.{ℕ, ◌+◌}
use mathlib.Core.Bool.{Bool}
use mathlib.Core.Option.{Option, none, some}
use mathlib.Core.List.{List, [], ◌∷◌}

module _ {ℓ} {A : Type ℓ} where
  -- `UPDATE … SET change WHERE test`
  abbrev pub update_where : (A → Bool) → (A → A) → List A → List A
  update_where test change [] = []
  update_where test change (r ∷ rs) = (if test r then change r else r) ∷ update_where test change rs

  -- `SELECT COUNT(*) … WHERE test`, which is also the `rowcount` of an update.
  abbrev pub count_where : (A → Bool) → List A → ℕ
  count_where test [] = 0
  count_where test (r ∷ rs) = (if test r then 1 else 0) + count_where test rs

  -- `SELECT * … WHERE test`
  abbrev pub select_where : (A → Bool) → List A → List A
  select_where test [] = []
  select_where test (r ∷ rs) = if test r then r ∷ select_where test rs else select_where test rs

  -- `DELETE … WHERE test`
  abbrev pub delete_where : (A → Bool) → List A → List A
  delete_where test [] = []
  delete_where test (r ∷ rs) = if test r then delete_where test rs else r ∷ delete_where test rs

  -- `SELECT * … WHERE test` and `fetchone()`
  abbrev pub fetch_one : (A → Bool) → List A → Option A
  fetch_one test [] = none
  fetch_one test (r ∷ rs) = if test r then some r else fetch_one test rs
