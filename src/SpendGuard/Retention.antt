-- ===== src/SpendGuard/Retention.antt =====
-- The spend-guard statements of `_prune_retention_connection` in src/unigrok_public/state.py.
pub mod Keeps
use grok_mcp_server.Base.{
  ℕ, ◌-◌, ◌*◌, min, max, Option, none, some, List, [], ◌∷◌, Bool, true, false, ◌&&◌, ◌||◌, ltb,
  ◌==◌, any,
}
use grok_mcp_server.Base.Tables.{delete_where}
use grok_mcp_server.SpendGuard.State.{
  reconciled, ok, Reservation, Baseline, Telemetry, Ledger, Transaction, status_eq, day_of,
  day_length,
}

abbrev pub hour_length : ℕ
hour_length = 3_600_000_000

-- `_retention_cutoff`, with UNIGROK_STATE_RETENTION_HOURS as a natural number of hours.
abbrev pub retention_cutoff : (now hours : ℕ) → ℕ
retention_cutoff now hours = now - max 1 (min hours 720) * hour_length

abbrev pub is_expired_evidence : (now cutoff : ℕ) → Reservation → Bool
is_expired_evidence now cutoff r =
    status_eq r.status reconciled && (ltb r.updated_at cutoff && ltb r.utc_day (day_of now))

abbrev pub has_snapshot : ℕ → List Baseline → Telemetry → Bool
has_snapshot day bs t = any (λ b. b.telemetry_caller == t.caller && b.utc_day == day) bs

abbrev pub is_expired_telemetry : (now cutoff : ℕ) → List Baseline → Telemetry → Bool
is_expired_telemetry now cutoff bs t =
    ltb t.created_at cutoff
    && (ltb t.created_at (day_of now * day_length) || has_snapshot (day_of now) bs t)

unfoldable pub prune_spend_guard : (now hours : ℕ) → Transaction (Unit {0})
prune_spend_guard now hours db =
    let cutoff = retention_cutoff now hours in
    ok (
      tt,
      record db {
        reservations = delete_where (is_expired_evidence now cutoff) db.reservations;
        telemetry = delete_where (is_expired_telemetry now cutoff db.baselines) db.telemetry;
      },
    )
