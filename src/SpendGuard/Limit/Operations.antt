-- ===== src/SpendGuard/Limit/Operations.antt =====
-- Every transaction of the spend guard keeps the invariant behind the daily limit.
use grok_mcp_server.Base.{
  ℕ, ◌+◌, ◌≤◌, ◌≡◌, subst₂, ap, refl, ◌⊎◌, inl, inr, Option, none, some, [], ◌∷◌, ◌++◌, true, arith,
  if◌then◌else◌, sum_by, is_some, Bool-cases, sum_by-append, All-append, ==_iff,
}
use grok_mcp_server.Base.Tables.{fetch_one}
use grok_mcp_server.Base.Tables.Laws.{count_where-append}
use grok_mcp_server.Base.Tables.Keys.{IsKeyed-append, update_where-read}
use grok_mcp_server.SpendGuard.State.{Reservation, Ledger, day_of}
use grok_mcp_server.SpendGuard.Queries.{
  in_scope_day, baseline_at, is_stale, mark_stale, spend_guard_totals,
}
use grok_mcp_server.SpendGuard.Reserve.{Request, has_id, new_reservation}
use grok_mcp_server.SpendGuard.Reserve.Effect.{expired, IsAdmissible, inserted_into}
use grok_mcp_server.SpendGuard.Reconcile.{Report, reconciled_row}
use grok_mcp_server.SpendGuard.Reconcile.Effect.{reported_into}
use grok_mcp_server.SpendGuard.Limit.Rows.{IsHonest, weight_at, exposure, exposure-totals}
use grok_mcp_server.SpendGuard.Limit.Changes.{IsBounded, IsSafe, update-IsBounded, id_of, rows_at}

stale_same :
    (now : ℕ) (r : Reservation) → is_stale now r ≡ true → id_of (mark_stale now r) ≡ id_of r
stale_same now r h = refl

module _ (cost limit : ℕ → ℕ) (caller : ℕ → Option ℕ) (scope day : ℕ) where
  stale-IsSafe :
      (now : ℕ) (r : Reservation)
      → is_stale now r ≡ true
      → IsHonest cost r
      → IsSafe cost limit caller scope day r (mark_stale now r)
  stale-IsSafe now r t h = ground arith

  pub expired-IsBounded :
      (now : ℕ) (db : Ledger)
      → IsBounded cost limit caller scope day db
      → IsBounded cost limit caller scope day (expired now db)
  expired-IsBounded now db b =
      update-IsBounded cost limit caller scope day (is_stale now) (mark_stale now)
        (stale-IsSafe now) (stale_same now) db b

  -- A report of the true cost, or of none.
  reported-IsSafe :
      (now : ℕ) (p : Report) (r : Reservation)
      → (p.actual_ticks ≡ none) ⊎ (p.actual_ticks ≡ some (cost p.reservation_id))
      → has_id p.reservation_id r ≡ true
      → IsHonest cost r
      → IsSafe cost limit caller scope day r (reconciled_row now p r)
  unfolding reconciled_row
  reported-IsSafe now p r truthful t h =
      let e = (==_iff r.reservation_id p.reservation_id).0 t in ground (arith, ap cost e)

  reported_same :
      (now : ℕ) (p : Report) (r : Reservation)
      → has_id p.reservation_id r ≡ true
      → id_of (reconciled_row now p r) ≡ id_of r
  unfolding reconciled_row
  reported_same now p r t = ground arith

  pub reported-IsBounded :
      (now : ℕ) (p : Report) (r : Reservation) (db : Ledger)
      → (p.actual_ticks ≡ none) ⊎ (p.actual_ticks ≡ some (cost p.reservation_id))
      → fetch_one (has_id p.reservation_id) db.reservations ≡ some r
      → IsBounded cost limit caller scope day db
      → IsBounded cost limit caller scope day (reported_into now p r db)
  reported-IsBounded now p r db truthful found b =
      let change = reconciled_row now p in
      rw (update_where-read id_of p.reservation_id change db.reservations r found b.keyed) (
        update-IsBounded cost limit caller scope day (has_id p.reservation_id) change
          (λ x. reported-IsSafe now p x truthful) (reported_same now p) db b)

  -- A new row of the scope and the day, which the totals admit.
  module _ (now amount : ℕ) (q : Request) (db : Ledger)
      (new : fetch_one (has_id q.reservation_id) db.reservations ≡ none)
      (admissible : IsAdmissible q
        (spend_guard_totals q.scope (day_of now) db)
        amount
        (rows_at q.scope (day_of now) db.reservations))
      (agreed : q.limit_ticks ≡ limit q.scope) (covers : cost q.reservation_id ≤ amount)
      (snapped : (caller q.scope ≡ none)
        ⊎ (is_some (fetch_one (baseline_at q.scope (day_of now)) db.baselines) ≡ true))
      (b : IsBounded cost limit caller scope day db) where
    abbrev row : Reservation
    row = new_reservation q amount now

    added_weight :
        sum_by (weight_at cost scope day) (db.reservations ++ row ∷ [])
        ≡ sum_by (weight_at cost scope day) db.reservations + (weight_at cost scope day row + 0)
    added_weight = sum_by-append (weight_at cost scope day) db.reservations (row ∷ [])

    added_count :
        rows_at scope day (db.reservations ++ row ∷ [])
        ≡ rows_at scope day db.reservations + (if in_scope_day scope day row then 1 else 0)
    added_count = count_where-append (in_scope_day scope day) db.reservations row

    within_here :
        q.scope ≡ scope
        → day_of now ≡ day
        → exposure cost scope day (inserted_into db row) ≤ limit scope
    within_here es ed =
        let admitted =
          subst₂
            (λ s d.
              ((spend_guard_totals s d db).unknowns ≡ 0)
              × ((spend_guard_totals s d db).committed + (spend_guard_totals s d db).held + amount
                  ≤ limit s))
            es ed (admissible.all_known, (rw agreed at (admissible.within_limit))) in
        ground
          (arith, added_weight, exposure-totals cost scope day db b.honest admitted.0, admitted.1)

    pub inserted-IsBounded : IsBounded cost limit caller scope day (inserted_into db row)
    inserted-IsBounded = record {
      keyed = IsKeyed-append id_of db.reservations row new b.keyed;
      honest = All-append (IsHonest cost) db.reservations (row ∷ []) b.honest ((covers, refl), tt);
      anchored = elim (Bool-cases (in_scope_day scope day row)) [
        | inl here ↦ inr (
            subst₂
              (λ s d.
                (caller s ≡ none) ⊎ (is_some (fetch_one (baseline_at s d) db.baselines) ≡ true))
              (ground arith) (ground arith) snapped)
        | inr elsewhere ↦ rw (added_count, elsewhere) (ground (arith, b.anchored))
      ];
      bounded = elim (Bool-cases (in_scope_day scope day row)) [
        | inl here ↦ inr (within_here (ground arith) (ground arith))
        | inr elsewhere ↦ ground (arith, added_count, added_weight, b.bounded)
      ];
    }
