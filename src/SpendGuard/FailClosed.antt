-- ===== src/SpendGuard/FailClosed.antt =====
-- Unknown spend stays unknown and blocks its scope's day until it is resolved explicitly.
use grok_mcp_server.Base.{
  ℕ, ◌≤◌, ◌≡◌, refl, ◌∙◌, ap, subst, inl, inr, some, List, [], ◌∷◌, ◌++◌, Bool, true, false, arith,
  if◌then◌else◌, Bool-cases, All, sum_by,
}
use grok_mcp_server.Base.Tables.{fetch_one, update_where, select_where}
use grok_mcp_server.Base.Tables.Laws.{fetch_one-append, fetch_one-passes}
use grok_mcp_server.Base.Tables.Keys.{fetch_one-update_where}
use grok_mcp_server.SpendGuard.State.{
  unknown, Reservation, Amount, Ledger, ok, Result-cases, day_of,
}
use grok_mcp_server.SpendGuard.Queries.{
  is_stale, mark_stale, Payload, in_scope_day, unknown_count_of, spend_guard_totals, Totals,
}
use grok_mcp_server.SpendGuard.Queries.Baselines.{reservations-after}
use grok_mcp_server.SpendGuard.Reserve.{Request, has_id, new_reservation, reserve_spend_guard_sync}
use grok_mcp_server.SpendGuard.Reserve.Effect.{
  expired, ReserveEffect, replayed, turned_away, created, reserve_spend_guard_sync-effect,
}
use grok_mcp_server.SpendGuard.Reserve.Admission.{reserve-IsAuthorized}
use grok_mcp_server.SpendGuard.Reconcile.{
  Report, reconciled_row, reconcile_spend_guard_sync, spend_guard_status,
}
use grok_mcp_server.SpendGuard.Reconcile.Effect.{reconcile_spend_guard_sync-effect}
use grok_mcp_server.SpendGuard.Once.{
  Call, reserve, reconcile, inspect, perform, status-expired, reconciled_row-id,
}

-- Every call but `resolve_spend_guard_unknown`.
abbrev pub IsOrdinary : Call → Type 0
IsOrdinary (reserve now q) = Unit {0}
IsOrdinary (reconcile now p) = p.resolve_unknown ≡ false
IsOrdinary (inspect now scope) = Unit {0}

-- The row that the id has.
abbrev pub Holds : ℕ → Reservation → Ledger → Type 0
Holds id r db = fetch_one (has_id id) db.reservations ≡ some r

holds-update :
    (id : ℕ) (test : Reservation → Bool) (change : Reservation → Reservation) (r : Reservation)
    → ((x : Reservation) → test x ≡ true → (change x).reservation_id ≡ x.reservation_id)
    → (rs : List Reservation) → fetch_one (has_id id) rs ≡ some r
    → fetch_one (has_id id) (update_where test change rs) ≡ some (if test r then change r else r)
holds-update id test change r same rs h =
    fetch_one-update_where (λ x. x.reservation_id) test change same id rs ∙ rw h refl

holds-append :
    (id : ℕ) (rs : List Reservation) (r x : Reservation)
    → fetch_one (has_id id) rs ≡ some r
    → fetch_one (has_id id) (rs ++ x ∷ []) ≡ some r
holds-append id rs r x h = fetch_one-append (has_id id) rs x ∙ rw h refl

Holds-reserved :
    (id now : ℕ) (q : Request) (p : Payload) (r : Reservation) (db db' : Ledger)
    → ReserveEffect now q db p db'
    → Holds id r db
    → Holds id r db'
Holds-reserved id now q p r db db' (replayed x e effect told mine) h =
    rw (reservations-after effect) h
Holds-reserved id now q p r db db' (turned_away new effect _ _ _) h =
    rw (reservations-after effect) h
Holds-reserved id now q p r db db' (created seen amount new effect a wrote told) h = rw wrote (
    holds-append id seen.reservations r (new_reservation q amount now)
      (rw (reservations-after effect) h))

module _ (id : ℕ) (r : Reservation) (lost : r.status ≡ unknown) where
  -- Expiry touches pending rows only.
  Holds-expired : (now : ℕ) (db : Ledger) → Holds id r db → Holds id r (expired now db)
  Holds-expired now db h =
      holds-update id (is_stale now) (mark_stale now) r (λ x t. refl) db.reservations h
      ∙ ground (arith, lost)

  kept_unknown : (now : ℕ) (p : Report) → p.resolve_unknown ≡ false → reconciled_row now p r ≡ r
  unfolding reconciled_row
  kept_unknown now p ordinary = ground (arith, lost)

  Holds-reported :
      (now : ℕ) (p : Report) (pay : Payload) (db db' : Ledger)
      → reconcile_spend_guard_sync now p db ≡ ok (pay, db')
      → p.resolve_unknown ≡ false
      → Holds id r db
      → Holds id r db'
  Holds-reported now p pay db db' ran ordinary h =
      let e = reconcile_spend_guard_sync-effect now p pay db db' ran in
      let before = Holds-expired now db h in
      let found =
        fetch_one-passes (has_id p.reservation_id) (expired now db).reservations e.found in
      let after =
        holds-update id (has_id p.reservation_id) (λ _. reconciled_row now p e.row) r
          (λ x t. reconciled_row-id now p e.row ∙ ground arith) (expired now db).reservations
          before in
      rw (e.wrote) (
        after
        ∙ ap some (elim (Bool-cases (has_id p.reservation_id r)) [
          | inl t ↦
              let passed = fetch_one-passes (has_id id) (expired now db).reservations before in
              let same : id ≡ p.reservation_id = ground (arith, passed, t) in
              let mine : fetch_one (has_id p.reservation_id) (expired now db).reservations
                  ≡ some r =
                subst (λ j. fetch_one (has_id j) (expired now db).reservations ≡ some r) same
                  before in
              let read : e.row ≡ r = cc (e.found) in rw (t, read) (kept_unknown now p ordinary)
          | inr f ↦ rw f refl
        ]))

  module _ (sum_cost : List Amount → Amount) where
    perform-Holds :
        (c : Call) (db : Ledger)
        → IsOrdinary c
        → Holds id r db
        → Holds id r (perform sum_cost c db).1
    unfolding perform
    perform-Holds (reserve now q) db ordinary h =
        elim (Result-cases (reserve_spend_guard_sync sum_cost now q db)) [
          | inl (e, failed) ↦ rw failed h
          | inr (x, ran) ↦ rw ran (
              Holds-reserved id now q x.0 r (expired now db) x.1
                (reserve_spend_guard_sync-effect sum_cost now q x.0 db x.1 ran)
                (Holds-expired now db h))
        ]
    perform-Holds (reconcile now p) db ordinary h =
        elim (Result-cases (reconcile_spend_guard_sync now p db)) [
          | inl (e, failed) ↦ rw failed h
          | inr (x, ran) ↦ rw ran (Holds-reported now p x.0 db x.1 ran ordinary h)
        ]
    perform-Holds (inspect now scope) db ordinary h =
        elim (Result-cases (spend_guard_status now scope db)) [
          | inl (e, failed) ↦ rw failed h
          | inr (x, ran) ↦
              rw (ran, status-expired now scope x.0 db x.1 ran) (Holds-expired now db h)
        ]

unknown_counted :
    (id scope day : ℕ) (r : Reservation) (rs : List Reservation)
    → fetch_one (has_id id) rs ≡ some r
    → r.status ≡ unknown
    → r.scope ≡ scope
    → r.utc_day ≡ day
    → 1 ≤ sum_by unknown_count_of (select_where (in_scope_day scope day) rs)
unknown_counted id scope day r [] h u s d = absurd (ground arith)
unknown_counted id scope day r (x ∷ rs) h u s d = ground (arith, unknown_counted id scope day r rs)

unknowns-pos :
    (id scope day : ℕ) (r : Reservation) (db : Ledger)
    → Holds id r db
    → r.status ≡ unknown
    → r.scope ≡ scope
    → r.utc_day ≡ day
    → 1 ≤ (spend_guard_totals scope day db).unknowns
unfolding spend_guard_totals
unknowns-pos id scope day r db h u s d = unknown_counted id scope day r db.reservations h u s d

-- The store after a sequence of calls.
unfoldable pub run : (List Amount → Amount) → List Call → Ledger → Ledger
run sum_cost [] db = db
run sum_cost (c ∷ cs) db = run sum_cost cs (perform sum_cost c db).1

run-Holds :
    (sum_cost : List Amount → Amount) (cs : List Call) (id : ℕ) (r : Reservation) (db : Ledger)
    → r.status ≡ unknown
    → All IsOrdinary cs
    → Holds id r db
    → Holds id r (run sum_cost cs db)
unfolding run
run-Holds sum_cost [] id r db lost ordinary h = h
run-Holds sum_cost (c ∷ cs) id r db lost ordinary h =
    run-Holds sum_cost cs id r (perform sum_cost c db).1 lost ordinary.1
      (perform-Holds id r lost sum_cost c db ordinary.0 h)

-- From a ledger in which a reservation is unknown, whatever ordinary calls follow: its row stays
-- as it is, and a request of its scope on its day is not authorized to call the provider.
pub run-blocks_unknown :
    (sum_cost : List Amount → Amount) (cs : List Call) (id now : ℕ) (r : Reservation) (q : Request)
    (p : Payload) (db db' : Ledger)
    → Holds id r db
    → r.status ≡ unknown
    → All IsOrdinary cs
    → r.scope ≡ q.scope
    → r.utc_day ≡ day_of now
    → reserve_spend_guard_sync sum_cost now q (run sum_cost cs db) ≡ ok (p, db')
    → Holds id r (run sum_cost cs db) × (p.execute_provider ≡ false)
run-blocks_unknown sum_cost cs id now r q p db db' h lost ordinary s d ran =
    let held = run-Holds sum_cost cs id r db lost ordinary h in
    (
      held,
      elim (Bool-cases p.execute_provider) [
        | inl go ↦
            let a = reserve-IsAuthorized sum_cost now q p (run sum_cost cs db) db' ran go in
            let effect =
              reserve_spend_guard_sync-effect sum_cost now q p (run sum_cost cs db) db' ran in
            let still =
              Holds-reserved id now q p r (expired now (run sum_cost cs db)) db' effect
                (Holds-expired id r lost now (run sum_cost cs db) held) in
            absurd (
              omega (
                arith,
                unknowns-pos id q.scope (day_of now) r db' still lost s d,
                ap (λ (t : Totals). t.unknowns) (a.reported),
              ))
        | inr stop ↦ stop
      ],
    )
