-- ===== src/SpendGuard/Limit/Changes.antt =====
-- The invariant behind the daily limit, for one scope and one day, and the writes that keep it.
use grok_mcp_server.Base.{
  ℕ, ◌≤◌, ◌≡◌, ◌≢◌, subst, subst₂, ◌⊎◌, inl, inr, Option, none, List, [], ◌∷◌, Bool, true, arith,
  ◌==◌, ◌&&◌, All, sum_by, is_some, Bool-cases,
}
use grok_mcp_server.Base.Tables.{count_where, update_where, fetch_one, delete_where}
use grok_mcp_server.Base.Tables.Laws.{sum_by-delete_where_le, delete_where-All}
use grok_mcp_server.Base.Tables.Keys.{IsKeyed, IsKeyed-update_where, IsKeyed-delete_where}
use grok_mcp_server.SpendGuard.State.{Reservation, Ledger}
use grok_mcp_server.SpendGuard.Queries.{in_scope_day, baseline_at}
use grok_mcp_server.SpendGuard.Queries.Baselines.{
  BaselineEffect, unchanged, inserted, fetch_baseline-other,
}
use grok_mcp_server.SpendGuard.Limit.Rows.{IsHonest, weight, weight_at, exposure}

abbrev pub id_of : Reservation → ℕ
id_of r = r.reservation_id

-- How many rows the scope has on the day.
abbrev pub rows_at : ℕ → ℕ → List Reservation → ℕ
rows_at scope day rs = count_where (in_scope_day scope day) rs

rows_at-delete_where :
    (scope day : ℕ) (test : Reservation → Bool) (rs : List Reservation)
    → rows_at scope day (delete_where test rs) ≤ rows_at scope day rs
rows_at-delete_where scope day test [] = omega arith
rows_at-delete_where scope day test (r ∷ rs) =
    ground (arith, rows_at-delete_where scope day test rs)

module _ (cost limit : ℕ → ℕ) (caller : ℕ → Option ℕ) (scope day : ℕ) where
  pub record IsBounded (db : Ledger) : Type 0 where
    -- the primary key
    pub keyed : IsKeyed id_of db.reservations
    pub honest : All (IsHonest cost) db.reservations
    -- once there is a row, no snapshot is still to come
    pub anchored :
        (rows_at scope day db.reservations ≡ 0)
        ⊎ ((caller scope ≡ none)
            ⊎ (is_some (fetch_one (baseline_at scope day) db.baselines) ≡ true))
    pub bounded :
        (rows_at scope day db.reservations ≡ 0) ⊎ (exposure cost scope day db ≤ limit scope)

  -- A change of one row that keeps its identity, and adds no weight to an honest row.
  pub record IsSafe (r r' : Reservation) : Type 0 where
    pub same_id : r'.reservation_id ≡ r.reservation_id
    pub same_scope : r'.scope ≡ r.scope
    pub same_day : r'.utc_day ≡ r.utc_day
    pub still_honest : IsHonest cost r'
    pub no_heavier : weight cost r' ≤ weight cost r

  module _ (test : Reservation → Bool) (change : Reservation → Reservation)
      (safe : (r : Reservation) → test r ≡ true → IsHonest cost r → IsSafe r (change r))
      (same : (r : Reservation) → test r ≡ true → id_of (change r) ≡ id_of r) where
    update-IsHonest :
        (rs : List Reservation)
        → All (IsHonest cost) rs
        → All (IsHonest cost) (update_where test change rs)
    update-IsHonest [] h = tt
    update-IsHonest (r ∷ rs) h = elim (Bool-cases (test r)) [
      | inl t ↦ rw t ((safe r t h.0).still_honest, update-IsHonest rs h.1)
      | inr f ↦ rw f (h.0, update-IsHonest rs h.1)
    ]

    update-weight :
        (rs : List Reservation)
        → All (IsHonest cost) rs
        → (sum_by (weight_at cost scope day) (update_where test change rs)
            ≤ sum_by (weight_at cost scope day) rs)
          × (rows_at scope day (update_where test change rs) ≡ rows_at scope day rs)
    update-weight [] h = ground arith
    update-weight (r ∷ rs) h =
        let lighter : test r ≡ true → IsSafe r (change r) = λ t. safe r t h.0 in
        ground (arith, lighter, update-weight rs h.1)

    -- An update of safe rows keeps the invariant.
    pub update-IsBounded :
        (db : Ledger)
        → IsBounded db
        → IsBounded (record db { reservations = update_where test change db.reservations })
    update-IsBounded db b =
        let rs = db.reservations in
        let (lighter, as_many) = update-weight rs b.honest in
        record {
          keyed = IsKeyed-update_where id_of test change same rs b.keyed;
          honest = update-IsHonest rs b.honest;
          anchored = rw as_many b.anchored;
          bounded = ground (arith, lighter, as_many, b.bounded);
        }

  -- So does a deletion,
  pub delete-IsBounded :
      (test : Reservation → Bool) (db : Ledger)
      → IsBounded db
      → IsBounded (record db { reservations = delete_where test db.reservations })
  delete-IsBounded test db b =
      let rs = db.reservations in
      let lighter = sum_by-delete_where_le (weight_at cost scope day) test rs in
      let fewer = rows_at-delete_where scope day test rs in
      record {
        keyed = IsKeyed-delete_where id_of test rs b.keyed;
        honest = delete_where-All (IsHonest cost) test rs b.honest;
        anchored = ground (arith, fewer, b.anchored);
        bounded = ground (arith, lighter, fewer, b.bounded);
      }

  -- The first snapshot of the scope's day is taken before it has a row.
  no_rows_yet :
      (db : Ledger)
      → IsBounded db
      → fetch_one (baseline_at scope day) db.baselines ≡ none
      → caller scope ≢ none
      → rows_at scope day db.reservations ≡ 0
  no_rows_yet db b missing called = elim b.anchored [
    | inl empty ↦ empty
    | inr (inl silent) ↦ absurd (called silent)
    | inr (inr taken) ↦ cc
  ]

  -- and so does a snapshot of a scope by the scope's own caller.
  pub snapshot-IsBounded :
      (s d : ℕ) (db db' : Ledger)
      → BaselineEffect s d (caller s) db db'
      → IsBounded db
      → IsBounded db'
  snapshot-IsBounded s d db db' (unchanged e _) b = rw e b
  snapshot-IsBounded s d db db' (inserted new e at_scope on_day missing called) b =
      elim (Bool-cases (s == scope && d == day)) [
        | inl here ↦
            let (es, ed) = both s d here in
            let empty =
              no_rows_yet db b
                (subst₂ (λ i j. fetch_one (baseline_at i j) db.baselines ≡ none) es ed missing)
                (subst (λ i. caller i ≢ none) es called) in
            rw e (record {
              keyed = b.keyed;
              honest = b.honest;
              anchored = inl empty;
              bounded = inl empty;
            })
        | inr elsewhere ↦
            let kept =
              fetch_baseline-other scope day db.baselines new
                (ground (arith, elsewhere, at_scope, on_day)) in
            rw e (record {
              keyed = b.keyed;
              honest = b.honest;
              anchored = rw kept b.anchored;
              bounded = rw kept b.bounded;
            })
      ]
    where
      both : (i j : ℕ) → (i == scope && j == day) ≡ true → (i ≡ scope) × (j ≡ day)
      both i j h = ground arith
