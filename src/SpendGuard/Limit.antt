-- ===== src/SpendGuard/Limit.antt =====
-- The daily limit of the spend guard holds over every sequence of its transactions.
pub mod Rows
pub mod Changes
mod Operations
use grok_mcp_server.Base.{
  ℕ, ◌+◌, ◌≤◌, ◌≡◌, subst, sym, refl, ◌⊎◌, inl, inr, Option, none, some, List, [], ◌∷◌, ◌++◌, Bool,
  true, false, arith, sum_by,
}
use grok_mcp_server.Base.Tables.{delete_where, fetch_one}
use grok_mcp_server.SpendGuard.State.{Amount, Telemetry, Ledger, ok, day_of}
use grok_mcp_server.SpendGuard.Queries.{
  baseline_ticks_at, spend_guard_totals, Totals, Payload, admission_payload,
  expire_spend_guard_reservations,
}
use grok_mcp_server.SpendGuard.Queries.Baselines.{snapped-after, reservations-after}
use grok_mcp_server.SpendGuard.Reserve.{
  Request, has_id, reserve_spend_guard_sync, created_payload, new_reservation,
}
use grok_mcp_server.SpendGuard.Reserve.Effect.{
  expired, ReserveEffect, replayed, turned_away, created, reserve_spend_guard_sync-effect,
  inserted_into,
}
use grok_mcp_server.SpendGuard.Reconcile.{
  Report, StatusReport, reconcile_spend_guard_sync, spend_guard_status,
}
use grok_mcp_server.SpendGuard.Reconcile.Effect.{reconcile_spend_guard_sync-effect}
use grok_mcp_server.SpendGuard.Retention.{
  prune_spend_guard, is_expired_evidence, is_expired_telemetry, retention_cutoff,
}
use grok_mcp_server.SpendGuard.Limit.Rows.{cost_at, exposure, cost-le-weight, totals-le-exposure}
use grok_mcp_server.SpendGuard.Limit.Changes.{
  IsBounded, rows_at, delete-IsBounded, snapshot-IsBounded,
}
use grok_mcp_server.SpendGuard.Limit.Operations.{
  expired-IsBounded, reported-IsBounded, inserted-IsBounded,
}

-- The transactions of one store, in any order and at any instants. Each scope keeps its limit
-- and its telemetry caller; `cost` is the true cost, in ticks, of each reservation's provider
-- call, which stays within what was reserved; a report gives that cost or none.
module _ (sum_cost : List Amount → Amount) (cost limit : ℕ → ℕ) (caller : ℕ → Option ℕ) where
  pub data Step (db db' : Ledger) : Type 0 where
    reserves :
        (now : ℕ) (q : Request) (p : Payload)
        → reserve_spend_guard_sync sum_cost now q db ≡ ok (p, db')
        → q.limit_ticks ≡ limit q.scope
        → q.telemetry_baseline_caller ≡ caller q.scope
        → (p.created ≡ true → cost q.reservation_id ≤ p.reserved_ticks)
        → Step db db'
    reports :
        (now : ℕ) (p : Report) (pay : Payload)
        → reconcile_spend_guard_sync now p db ≡ ok (pay, db')
        → (p.actual_ticks ≡ none) ⊎ (p.actual_ticks ≡ some (cost p.reservation_id))
        → Step db db'
    inspects :
        (now scope : ℕ) (report : StatusReport)
        → spend_guard_status now scope db ≡ ok (report, db')
        → Step db db'
    prunes : (now hours : ℕ) → prune_spend_guard now hours db ≡ ok (tt, db') → Step db db'
    records : (t : Telemetry) → db' ≡ record db { telemetry = db.telemetry ++ t ∷ [] } → Step db db'

  abbrev pub empty_ledger : Ledger
  empty_ledger = record { reservations = []; baselines = []; telemetry = [] }

  pub data Reach : Ledger → Type 0 where
    start : Reach empty_ledger
    next : {db db' : Ledger} → Reach db → Step db db' → Reach db'

  module _ (scope day : ℕ) where
    abbrev Bounded : Ledger → Type 0
    Bounded db = IsBounded cost limit caller scope day db

    reserved-IsBounded :
        (now : ℕ) (q : Request) (p : Payload) (db db' : Ledger)
        → ReserveEffect now q db p db'
        → q.limit_ticks ≡ limit q.scope
        → q.telemetry_baseline_caller ≡ caller q.scope
        → (p.created ≡ true → cost q.reservation_id ≤ p.reserved_ticks)
        → Bounded db
        → Bounded db'
    unfolding created_payload admission_payload
    reserved-IsBounded now q p db db' (replayed r known effect told mine) agreed called covers b =
        snapshot-IsBounded cost limit caller scope day q.scope r.utc_day db db'
          (rw called at effect) b
    reserved-IsBounded now q p db db' (turned_away new effect _ _ _) agreed called covers b =
        snapshot-IsBounded cost limit caller scope day q.scope (day_of now) db db'
          (rw called at effect) b
    reserved-IsBounded now q p db db' (created seen amount new effect admissible wrote told) agreed
          called covers b =
        let unseen : fetch_one (has_id q.reservation_id) seen.reservations ≡ none =
          rw (reservations-after effect) new in
        let covered : cost q.reservation_id ≤ amount = ground (arith, covers) in
        let snapped = rw called at (snapped-after q.scope (day_of now) _ db seen effect) in
        rw wrote (
          inserted-IsBounded cost limit caller scope day now amount q seen unseen admissible agreed
            covered snapped
            (snapshot-IsBounded cost limit caller scope day q.scope (day_of now) db seen
              (rw called at effect) b))

    telemetry-IsBounded :
        (db : Ledger) (ts : List Telemetry) → Bounded db → Bounded (record db { telemetry = ts })
    telemetry-IsBounded db ts b = record {
      keyed = b.keyed;
      honest = b.honest;
      anchored = b.anchored;
      bounded = b.bounded;
    }

    Step-IsBounded : (db db' : Ledger) → Step db db' → Bounded db → Bounded db'
    unfolding spend_guard_status prune_spend_guard expire_spend_guard_reservations
    Step-IsBounded db db' (reserves now q p ran agreed called covers) b =
        reserved-IsBounded now q p (expired now db) db'
          (reserve_spend_guard_sync-effect sum_cost now q p db db' ran) agreed called covers
          (expired-IsBounded cost limit caller scope day now db b)
    Step-IsBounded db db' (reports now p pay ran truthful) b =
        let e = reconcile_spend_guard_sync-effect now p pay db db' ran in
        rw (e.wrote) (
          reported-IsBounded cost limit caller scope day now p e.row (expired now db) truthful
            e.found (expired-IsBounded cost limit caller scope day now db b))
    Step-IsBounded db db' (inspects now s report ran) b =
        let same : db' ≡ expired now db = cc ran in
        rw same (expired-IsBounded cost limit caller scope day now db b)
    Step-IsBounded db db' (prunes now hours ran) b =
        let gone = is_expired_evidence now (retention_cutoff now hours) in
        let old = is_expired_telemetry now (retention_cutoff now hours) db.baselines in
        let kept = delete-IsBounded cost limit caller scope day gone db b in
        let left = record db { reservations = delete_where gone db.reservations } in
        let same : db' ≡ record left { telemetry = delete_where old db.telemetry } = cc ran in
        rw same (telemetry-IsBounded left (delete_where old db.telemetry) kept)
    Step-IsBounded db db' (records t wrote) b =
        rw wrote (telemetry-IsBounded db (db.telemetry ++ t ∷ []) b)

    Reach-IsBounded : (db : Ledger) → Reach db → Bounded db
    Reach-IsBounded db start = record {
      keyed = tt;
      honest = tt;
      anchored = inl refl;
      bounded = inl refl;
    }
    Reach-IsBounded db' (next {db} r st) = Step-IsBounded db db' st (Reach-IsBounded db r)

    -- In every ledger that the transactions reach from the empty one, where each scope keeps its
    -- limit and its telemetry caller, no provider call costs more than its reservation holds, and a
    -- report gives the true cost or none: for every scope and UTC day with a reservation in it, the
    -- telemetry snapshot and the true cost of the day's reservations that the ledger holds stay
    -- within the scope's limit, and so does the committed and pending total that the guard reports.
    pub Reach-within_limit :
        (db : Ledger)
        → Reach db
        → (rows_at scope day db.reservations ≡ 0)
          ⊎ (baseline_ticks_at scope day db.baselines
                + sum_by (cost_at cost scope day) db.reservations
              ≤ limit scope)
            × ((spend_guard_totals scope day db).committed + (spend_guard_totals scope day db).held
                ≤ limit scope)
    Reach-within_limit db r =
        let b = Reach-IsBounded db r in
        elim b.bounded [
          | inl empty ↦ inl empty
          | inr fits ↦ inr (
            omega (arith, fits, cost-le-weight cost scope day db.reservations b.honest),
            omega (arith, fits, totals-le-exposure cost scope day db b.honest),
          )
        ]
