-- ===== src/SpendGuard/Retention/Keeps.antt =====
-- The retention pass leaves today's accounting and all unresolved spend alone.
use grok_mcp_server.Base.{ℕ, ◌≤◌, ◌≡◌, ◌≢◌, refl, some, List, [], ◌∷◌, arith}
use grok_mcp_server.Base.Tables.{fetch_one, delete_where, select_where}
use grok_mcp_server.SpendGuard.State.{reconciled, Reservation, Ledger, day_of, after}
use grok_mcp_server.SpendGuard.Queries.{in_scope_day, spend_guard_totals}
use grok_mcp_server.SpendGuard.Reserve.{has_id}
use grok_mcp_server.SpendGuard.Retention.{is_expired_evidence, retention_cutoff, prune_spend_guard}

selected-kept :
    (now cutoff scope day : ℕ) (rs : List Reservation)
    → day_of now ≤ day
    → select_where (in_scope_day scope day) (delete_where (is_expired_evidence now cutoff) rs)
      ≡ select_where (in_scope_day scope day) rs
selected-kept now cutoff scope day [] h = refl
selected-kept now cutoff scope day (r ∷ rs) h =
    ground (arith, selected-kept now cutoff scope day rs h)

unresolved-kept :
    (now cutoff id : ℕ) (r : Reservation) (rs : List Reservation)
    → fetch_one (has_id id) rs ≡ some r
    → r.status ≢ reconciled
    → fetch_one (has_id id) (delete_where (is_expired_evidence now cutoff) rs) ≡ some r
unresolved-kept now cutoff id r [] h ne = cc
unresolved-kept now cutoff id r (x ∷ rs) h ne = ground (arith, unresolved-kept now cutoff id r rs)

-- A retention pass keeps the totals of every scope for the current UTC day and later ones.
pub prune-totals :
    (now hours scope day : ℕ) (db : Ledger)
    → day_of now ≤ day
    → spend_guard_totals scope day (after (prune_spend_guard now hours) db)
      ≡ spend_guard_totals scope day db
unfolding prune_spend_guard spend_guard_totals
prune-totals now hours scope day db h =
    rw (selected-kept now (retention_cutoff now hours) scope day db.reservations h) refl

-- A retention pass keeps every reservation that is pending or unknown, however old it is.
pub prune-unresolved :
    (now hours id : ℕ) (r : Reservation) (db : Ledger)
    → fetch_one (has_id id) db.reservations ≡ some r
    → r.status ≢ reconciled
    → fetch_one (has_id id) (after (prune_spend_guard now hours) db).reservations ≡ some r
unfolding prune_spend_guard
prune-unresolved now hours id r db h ne =
    unresolved-kept now (retention_cutoff now hours) id r db.reservations h ne
