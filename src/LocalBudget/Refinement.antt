-- ===== src/LocalBudget/Refinement.antt =====
-- The table of src/unigrok_public/caller_budget.py keeps the promises of a day's budget.
use grok_mcp_server.Base.{
  ℕ, ◌≤◌, ◌≡◌, ◌≢◌, refl, sym, ◌∙◌, ap, max, Option, none, some, List, [], ◌∷◌, ◌++◌, Bool, true,
  false, arith, Bool-cases, Option-cases, inl, inr, ltb, leb, if◌then◌else◌, All,
}
use grok_mcp_server.Base.Tables.Laws.{fetch_one-All}
use grok_mcp_server.Base.Tables.Keys.{has_key}
use grok_mcp_server.LocalBudget.{
  Expiry, empty_text, unreadable, at_instant, BudgetRow, row_day, LocalReservation, Window,
  exceeded, unavailable, update_day, fetch_day, prune, has_token, has_expiry, is_after, same_bool,
  settled_row, leased, opened_row, BudgetResult, admit, reserve_row, reserve_opened,
  reserve_local_budget_sync,
}
use grok_mcp_server.LocalBudget.Spec.{
  Lease, Day, unopened, open_day, Reserves, opens, opens_exhausted, opens_blind, grants, declines,
  busy, receipt_lost, invalid,
}
use grok_mcp_server.LocalBudget.View.{
  instant_of, lease_of, view_row, view, IsSound, fetch_day-prune, fetch_day-update_day,
  fetch_day-append,
}

sound_same : (a b : Bool) → a ≡ b → same_bool a b ≡ true
sound_same true b h = ground (arith, h)
sound_same false b h = ground (arith, h)

pub lease_of-idle :
    (token : Option ℕ) (expiry : Option Expiry)
    → has_token token ≡ false
    → lease_of token expiry ≡ none
lease_of-idle none expiry idle = refl
lease_of-idle (some t) expiry idle = ground (arith, idle)

instant_of-after :
    (expiry : Option Expiry) (now : ℕ) → is_after expiry now ≡ ltb now (instant_of expiry)
instant_of-after none now = ground arith
instant_of-after (some empty_text) now = ground arith
instant_of-after (some unreadable) now = ground arith
instant_of-after (some (at_instant e)) now = refl

pub lease_of-held :
    (token : Option ℕ) (expiry : Option Expiry) (now : ℕ)
    → has_token token ≡ true
    → (l : Lease) × (lease_of token expiry ≡ some l) × (is_after expiry now ≡ ltb now l.expires)
lease_of-held none expiry now held = cc
lease_of-held (some t) expiry now held = (
  record { holder = t; expires = instant_of expiry },
  ground (arith, held),
  instant_of-after expiry now,
)

pub view-at :
    (day : ℕ) (rows : List BudgetRow) (r : BudgetRow)
    → fetch_day day rows ≡ some r
    → view day rows ≡ view_row r
unfolding view
view-at day rows r found = rw found refl

pub view-absent :
    (day : ℕ) (rows : List BudgetRow) → fetch_day day rows ≡ none → view day rows ≡ unopened
unfolding view
view-absent day rows absent = rw absent refl

module _ (w : Window) (q : LocalReservation) (named : q.token ≢ 0) where
  -- The result of a reservation keeps the promise for the day that it starts from.
  abbrev Keeps : (telemetry : Option ℕ) → Day → BudgetResult → Type 0
  Keeps telemetry d r =
      Reserves telemetry w.now w.lease_expires_at q.token q.limit_usd d r.0 (view q.day r.1)

  lease_of-token :
      lease_of (some q.token) (some (at_instant w.lease_expires_at))
      ≡ some (record { holder = q.token; expires = w.lease_expires_at })
  lease_of-token = ground (arith, named)

  view-leased :
      (ready : List BudgetRow) (r : BudgetRow)
      → fetch_day q.day ready ≡ some r
      → view q.day (update_day q.day (leased w q) ready)
        ≡ open_day r.spent_usd (some (record { holder = q.token; expires = w.lease_expires_at }))
  unfolding view
  view-leased ready r found =
      rw (fetch_day-update_day q.day (leased w q) ready r (λ x. refl) found)
        (ap (open_day r.spent_usd) lease_of-token)

  view-settled :
      (pruned : List BudgetRow) (r : BudgetRow) (spent : Option ℕ)
      → fetch_day q.day pruned ≡ some r
      → view q.day (update_day q.day (settled_row w.now spent) pruned) ≡ open_day spent none
  unfolding view
  view-settled pruned r spent found =
      rw (fetch_day-update_day q.day (settled_row w.now spent) pruned r (λ x. refl) found) refl

  reserve_opened-Keeps :
      (telemetry : Option ℕ) (rows pruned : List BudgetRow)
      → fetch_day q.day rows ≡ none
      → fetch_day q.day pruned ≡ none
      → Keeps telemetry unopened (reserve_opened w q telemetry rows pruned)
  unfolding reserve_opened admit view
  reserve_opened-Keeps none rows pruned absent gone = rw (absent, view) (opens_blind refl)
  reserve_opened-Keeps (some s) rows pruned absent gone = elim (Bool-cases (leb q.limit_usd s)) [
    | inl full ↦
        rw (full, reserve_opened, admit, view, absent) (opens_exhausted refl (ground (arith, full)))
    | inr free ↦
        rw (free, reserve_opened, admit)
          (rw
            (view-leased (pruned ++ opened_row w q s ∷ []) (opened_row w q s)
              (fetch_day-append q.day pruned (opened_row w q s) gone refl))
            (opens refl (ground (arith, free))))
  ]

  -- A row, by its fields.
  module _ (rows pruned : List BudgetRow) (day updated_at : ℕ) (token : Option ℕ)
      (expiry : Option Expiry) where
    abbrev row_with : Option ℕ → BudgetRow
    row_with spent = record {
      day = day;
      spent_usd = spent;
      lease_token = token;
      lease_expires_at = expiry;
      updated_at = updated_at;
    }

    -- No operation is under way.
    admit-Keeps :
        (telemetry : Option ℕ) (s : ℕ)
        → fetch_day q.day rows ≡ some (row_with (some s))
        → fetch_day q.day pruned ≡ some (row_with (some s))
        → lease_of token expiry ≡ none
        → Keeps telemetry (open_day (some s) none) (admit w q s rows pruned)
    unfolding admit
    admit-Keeps telemetry s found found' idle = elim (Bool-cases (leb q.limit_usd s)) [
      | inl full ↦
          rw (full, admit) (rw (view-at q.day rows _ found, idle) (declines (ground (arith, full))))
      | inr free ↦
          rw (free, admit)
            (rw (view-leased pruned (row_with (some s)) found') (grants (ground (arith, free))))
    ]

    -- An operation is under way, or its receipt is lost.
    active-Keeps :
        (telemetry : Option ℕ) (s : ℕ) (l : Lease)
        → fetch_day q.day rows ≡ some (row_with (some s))
        → fetch_day q.day pruned ≡ some (row_with (some s))
        → lease_of token expiry ≡ some l
        → is_after expiry w.now ≡ ltb w.now l.expires
        → Keeps telemetry (open_day (some s) (some l)) (
            if is_after expiry w.now
            then (unavailable, rows)
            else (exceeded, update_day q.day (settled_row w.now (some (max s q.limit_usd))) pruned))
    active-Keeps telemetry s l found found' held late = elim (Bool-cases (is_after expiry w.now)) [
      | inl live ↦
          rw (live) (rw (view-at q.day rows _ found, held) (busy (ground (arith, sym late ∙ live))))
      | inr over ↦
          rw (over, view-settled pruned (row_with (some s)) (some (max s q.limit_usd)) found')
            (receipt_lost (ground (arith, sym late ∙ over)) refl)
    ]

    reserve_row-Keeps :
        (telemetry spent : Option ℕ)
        → fetch_day q.day rows ≡ some (row_with spent)
        → fetch_day q.day pruned ≡ some (row_with spent)
        → has_token token ≡ has_expiry expiry
        → Keeps telemetry
            (open_day spent (lease_of token expiry))
            (reserve_row w q (row_with spent) spent rows pruned)
    unfolding reserve_row
    reserve_row-Keeps telemetry none found found' sound =
        rw (view-settled pruned (row_with none) (some q.limit_usd) found') invalid
    reserve_row-Keeps telemetry (some s) found found' sound = elim (Bool-cases (has_token token)) [
      | inr idle ↦
          let free = lease_of-idle token expiry idle in
          rw (reserve_row, sound_same _ _ sound, idle, free)
            (admit-Keeps telemetry s found found' free)
      | inl held ↦
          let expires : has_expiry expiry ≡ true = sym sound ∙ held in
          let (l, leased_to, late) = lease_of-held token expiry w.now held in
          rw (reserve_row, sound_same _ _ sound, held, expires, leased_to)
            (active-Keeps telemetry s l found found' leased_to late)
    ]

-- In a table whose rows have a token and an expiry together, a reservation with a token keeps the promise for its day,
-- when the pruning spares that day.
pub reserve_local_budget_sync-refines :
    (telemetry : Option ℕ) (w : Window) (q : LocalReservation) (rows : List BudgetRow)
    → q.token ≢ 0
    → w.prune_before ≤ q.day
    → All IsSound rows
    → Reserves telemetry w.now w.lease_expires_at q.token q.limit_usd
        (view q.day rows)
        (reserve_local_budget_sync telemetry w q rows).0
        (view q.day (reserve_local_budget_sync telemetry w q rows).1)
unfolding reserve_local_budget_sync
reserve_local_budget_sync-refines telemetry w q rows named spared sound =
    let same = fetch_day-prune q.day w.prune_before rows spared in
    elim (Option-cases (fetch_day q.day rows)) [
      | inl absent ↦
          let gone = same ∙ absent in
          rw (gone, reserve_local_budget_sync)
            (rw (view-absent q.day rows absent) (
              reserve_opened-Keeps w q named telemetry rows (prune w.prune_before rows) absent
                gone))
      | inr (r, found) ↦
          let found' = same ∙ found in
          let whole = fetch_one-All IsSound (has_key row_day q.day) rows found sound in
          rw (found', reserve_local_budget_sync)
            (rw (view-at q.day rows r found) (
              reserve_row-Keeps w q named rows (prune w.prune_before rows) r.day r.updated_at
                r.lease_token r.lease_expires_at telemetry r.spent_usd found found' whole))
    ]
