-- ===== src/SpendGuard/Once.antt =====
-- A reservation id authorizes at most one provider call, over any sequence of the calls that
-- the server makes on one store between two retention passes.
use grok_mcp_server.Base.{
  ℕ, ◌≤◌, ◌≡◌, ◌≢◌, refl, ◌∙◌, ap, subst, inl, inr, Option, none, some, List, [], ◌∷◌, ◌++◌, Bool,
  true, arith, if◌then◌else◌, ◌==◌, is_some, Option-cases, Bool-cases, ==_iff,
}
use grok_mcp_server.Base.Tables.{fetch_one, update_where, count_where}
use grok_mcp_server.Base.Tables.Laws.{fetch_one-passes}
use grok_mcp_server.Base.Tables.Keys.{fetch_one-update_where}
use grok_mcp_server.SpendGuard.State.{Reservation, Amount, Ledger, Result, ok, err, Result-cases}
use grok_mcp_server.SpendGuard.Queries.{
  is_stale, mark_stale, Payload, expire_spend_guard_reservations,
}
use grok_mcp_server.SpendGuard.Queries.Baselines.{reservations-after}
use grok_mcp_server.SpendGuard.Reserve.{Request, has_id, new_reservation, reserve_spend_guard_sync}
use grok_mcp_server.SpendGuard.Reserve.Effect.{
  expired, ReserveEffect, replayed, turned_away, created, reserve_spend_guard_sync-effect,
}
use grok_mcp_server.SpendGuard.Reserve.Admission.{reserve-IsAuthorized}
use grok_mcp_server.SpendGuard.Reconcile.{
  Report, reconciled_row, reconcile_spend_guard_sync, spend_guard_status, StatusReport,
}
use grok_mcp_server.SpendGuard.Reconcile.Effect.{reconcile_spend_guard_sync-effect}

-- A call on the store, with the instant at which it runs.
pub data Call : Type 0 where
  reserve : (now : ℕ) → Request → Call
  reconcile : (now : ℕ) → Report → Call
  inspect : (now scope : ℕ) → Call

-- The reservation id whose provider call a payload authorizes.
abbrev pub authorized_id : ℕ → Payload → Option ℕ
authorized_id id p = if p.execute_provider then some id else none

abbrev pub kept : {A : Type 0} → (A → Option ℕ) → Ledger → Result (A × Ledger) → Option ℕ × Ledger
kept id db (ok r) = (id r.0, r.1)
kept id db (err e) = (none, db)

abbrev pub listed : Option ℕ → List ℕ → List ℕ
listed none ids = ids
listed (some id) ids = id ∷ ids

module _ (sum_cost : List Amount → Amount) where
  unfoldable pub perform : Call → Ledger → Option ℕ × Ledger
  perform (reserve now q) db =
      kept (authorized_id q.reservation_id) db (reserve_spend_guard_sync sum_cost now q db)
  perform (reconcile now p) db = kept (λ _. none) db (reconcile_spend_guard_sync now p db)
  perform (inspect now scope) db = kept (λ _. none) db (spend_guard_status now scope db)

  -- The ids that a sequence of calls authorizes, in order.
  unfoldable pub authorized_ids : List Call → Ledger → List ℕ
  authorized_ids [] db = []
  authorized_ids (c ∷ cs) db = let r = perform c db in listed r.0 (authorized_ids cs r.1)

abbrev IsKnown : ℕ → Ledger → Type 0
IsKnown id db = is_some (fetch_one (has_id id) db.reservations) ≡ true

known-update :
    (id : ℕ) (test : Reservation → Bool) (change : Reservation → Reservation)
    → ((r : Reservation) → test r ≡ true → (change r).reservation_id ≡ r.reservation_id)
    → (rs : List Reservation) → is_some (fetch_one (has_id id) rs) ≡ true
    → is_some (fetch_one (has_id id) (update_where test change rs)) ≡ true
known-update id test change same rs known =
    rw (fetch_one-update_where (λ r. r.reservation_id) test change same id rs)
      (ground (arith, known))

known-append :
    (id : ℕ) (rs : List Reservation) (r : Reservation)
    → is_some (fetch_one (has_id id) rs) ≡ true
    → is_some (fetch_one (has_id id) (rs ++ r ∷ [])) ≡ true
known-append id [] r known = cc
known-append id (x ∷ rs) r known = ground (arith, known-append id rs r)

IsKnown-expired : (id now : ℕ) (db : Ledger) → IsKnown id db → IsKnown id (expired now db)
IsKnown-expired id now db known =
    known-update id (is_stale now) (mark_stale now) (λ r t. refl) db.reservations known

IsKnown-reserved :
    (id now : ℕ) (q : Request) (p : Payload) (db db' : Ledger)
    → ReserveEffect now q db p db'
    → IsKnown id db
    → IsKnown id db'
IsKnown-reserved id now q p db db' (replayed r e effect told mine) known =
    rw (reservations-after effect) known
IsKnown-reserved id now q p db db' (turned_away new effect _ _ _) known =
    rw (reservations-after effect) known
IsKnown-reserved id now q p db db' (created seen amount new effect a wrote told) known = rw wrote (
    known-append id seen.reservations (new_reservation q amount now)
      (rw (reservations-after effect) known))

pub status-expired :
    (now scope : ℕ) (report : StatusReport) (db db' : Ledger)
    → spend_guard_status now scope db ≡ ok (report, db')
    → db' ≡ expired now db
unfolding spend_guard_status expire_spend_guard_reservations
status-expired now scope report db db' h = cc

pub reconciled_row-id :
    (now : ℕ) (p : Report) (r : Reservation)
    → (reconciled_row now p r).reservation_id ≡ r.reservation_id
unfolding reconciled_row
reconciled_row-id now p r = ground arith

authorized_id-some :
    (j id : ℕ) (p : Payload) → authorized_id j p ≡ some id → (j ≡ id) × (p.execute_provider ≡ true)
authorized_id-some j id p h = ground arith

module _ (sum_cost : List Amount → Amount) (id : ℕ) where
  -- An authorized id was unknown before, and is known after.
  reserve-new :
      (now : ℕ) (q : Request) (p : Payload) (db db' : Ledger)
      → reserve_spend_guard_sync sum_cost now q db ≡ ok (p, db')
      → authorized_id q.reservation_id p ≡ some id
      → (fetch_one (has_id id) (expired now db).reservations ≡ none) × IsKnown id db'
  reserve-new now q p db db' ran h =
      let (same, go) = authorized_id-some q.reservation_id id p h in
      let a = reserve-IsAuthorized sum_cost now q p db db' ran go in
      subst
        (λ j.
          (fetch_one (has_id j) (expired now db).reservations ≡ none)
          × (is_some (fetch_one (has_id j) db'.reservations) ≡ true))
        same (a.fresh, rw (a.stored_row) refl)

  -- A known id stays known, and is not authorized again.
  perform-IsKnown :
      (c : Call) (db : Ledger)
      → IsKnown id db
      → IsKnown id (perform sum_cost c db).1 × ((perform sum_cost c db).0 ≢ some id)
  unfolding perform
  perform-IsKnown (reserve now q) db known =
      elim (Result-cases (reserve_spend_guard_sync sum_cost now q db)) [
        | inl (e, failed) ↦ rw failed (known, (λ h. cc))
        | inr (r, ran) ↦
            let effect = reserve_spend_guard_sync-effect sum_cost now q r.0 db r.1 ran in
            rw ran (
              IsKnown-reserved id now q r.0 (expired now db) r.1 effect
                  (IsKnown-expired id now db known),
              (λ h.
                  let (unseen, _) = reserve-new now q r.0 db r.1 ran h in
                  let seen = IsKnown-expired id now db known in cc),
            )
      ]
  perform-IsKnown (reconcile now p) db known =
      elim (Result-cases (reconcile_spend_guard_sync now p db)) [
        | inl (e, failed) ↦ rw failed (known, (λ h. cc))
        | inr (r, ran) ↦
            let e = reconcile_spend_guard_sync-effect now p r.0 db r.1 ran in
            let mine =
              fetch_one-passes (has_id p.reservation_id) (expired now db).reservations e.found in
            rw ran (
              rw (e.wrote) (
                  known-update id (has_id p.reservation_id) (λ _. reconciled_row now p e.row)
                    (λ x t. reconciled_row-id now p e.row ∙ ground arith)
                    (expired now db).reservations (IsKnown-expired id now db known)),
              (λ h. cc),
            )
      ]
  perform-IsKnown (inspect now scope) db known =
      elim (Result-cases (spend_guard_status now scope db)) [
        | inl (e, failed) ↦ rw failed (known, (λ h. cc))
        | inr (r, ran) ↦
            rw (ran, status-expired now scope r.0 db r.1 ran)
              (IsKnown-expired id now db known, (λ h. cc))
      ]

  perform-authorizes :
      (c : Call) (db : Ledger)
      → (perform sum_cost c db).0 ≡ some id
      → IsKnown id (perform sum_cost c db).1
  unfolding perform
  perform-authorizes (reserve now q) db go =
      elim (Result-cases (reserve_spend_guard_sync sum_cost now q db)) [
        | inl (e, failed) ↦ cc (rw (failed, kept) at go)
        | inr (r, ran) ↦ rw ran ((reserve-new now q r.0 db r.1 ran (rw (ran, kept) at go)).1)
      ]
  perform-authorizes (reconcile now p) db go =
      elim (Result-cases (reconcile_spend_guard_sync now p db)) [
        | inl (e, failed) ↦ cc (rw (failed, kept) at go)
        | inr (r, ran) ↦ cc (rw (ran, kept) at go)
      ]
  perform-authorizes (inspect now scope) db go =
      elim (Result-cases (spend_guard_status now scope db)) [
        | inl (e, failed) ↦ cc (rw (failed, kept) at go)
        | inr (r, ran) ↦ cc (rw (ran, kept) at go)
      ]

  authorized_known :
      (cs : List Call) (db : Ledger)
      → IsKnown id db
      → count_where (λ j. j == id) (authorized_ids sum_cost cs db) ≡ 0
  unfolding authorized_ids
  authorized_known [] db known = refl
  authorized_known (c ∷ cs) db known =
      let (still, never) = perform-IsKnown c db known in
      ground (arith, never, authorized_known cs (perform sum_cost c db).1 still)

  -- Over any sequence of reservations, reports and status calls on a ledger, with no retention pass
  -- in between, an id is authorized at most once.
  pub authorized_once :
      (cs : List Call) (db : Ledger)
      → count_where (λ j. j == id) (authorized_ids sum_cost cs db) ≤ 1
  unfolding authorized_ids
  authorized_once [] db = omega arith
  authorized_once (c ∷ cs) db =
      let db' = (perform sum_cost c db).1 in
      elim (Option-cases (perform sum_cost c db).0) [
        | inl silent ↦ rw silent (authorized_once cs db')
        | inr (j, go) ↦ rw go (elim (Bool-cases (j == id)) [
          | inl same ↦
              let mine = go ∙ ap some ((==_iff j id).0 same) in
              ground (arith, authorized_known cs db' (perform-authorizes c db mine))
          | inr other ↦ ground (arith, other, authorized_once cs db')
        ])
      ]
