-- ===== src/SpendGuard/Tests.antt =====
-- Runs of the spend guard on small ledgers, and the theorems at them.
use grok_mcp_server.Base.{
  ℕ, ◌+◌, ◌-◌, ◌*◌, ◌^◌, ◌≤◌, ◌<◌, ◌≡◌, refl, ◌⊎◌, inr, Option, none, some, List, [], ◌∷◌, true,
  false, arith, sum_by, ◌==◌,
}
use grok_mcp_server.Base.Tables.{count_where, fetch_one}
use grok_mcp_server.SpendGuard.State.{
  pending, reconciled, unknown, fixed, unknown_cost, label, Reservation, Baseline, Amount, decimal,
  malformed, Telemetry, Ledger, ok, after,
}
use grok_mcp_server.SpendGuard.Queries.{
  Payload, stored, mark_stale, admission_payload, expire_spend_guard_reservations, insert_baseline,
  ensure_telemetry_baseline, spend_guard_totals, baseline_ticks_at,
}
use grok_mcp_server.SpendGuard.Ticks.{
  rounded_quotient, ticks_per_usd, max_ticks, bounded_ticks, spend_guard_ticks, round_ceiling,
  round_floor,
}
use grok_mcp_server.SpendGuard.Reserve.{
  Request, has_id, reserve_spend_guard, reserve_spend_guard_sync, reserve_existing_or_new,
  admit_reservation, replay_reservation, settle_admission, created_payload, refused_payload,
  replay_payload,
}
use grok_mcp_server.SpendGuard.Reconcile.{
  Report, reconcile_spend_guard_sync, reconcile_row, reconciled_row, report_reconciled,
  reconciled_payload, mark_conflict, spend_guard_status,
}
use grok_mcp_server.SpendGuard.Limit.{
  Reach, start, next, reserves, reports, records, Reach-within_limit,
}
use grok_mcp_server.SpendGuard.Limit.Rows.{cost_at}
use grok_mcp_server.SpendGuard.Limit.Changes.{rows_at}
use grok_mcp_server.SpendGuard.Once.{Call, perform, authorized_ids, authorized_once}
use grok_mcp_server.SpendGuard.FailClosed.{Holds, run, run-blocks_unknown}
use grok_mcp_server.SpendGuard.Reserve.Admission.{IsAuthorized, reserve-IsAuthorized}
use grok_mcp_server.SpendGuard.Reconcile.Rows.{
  reconcile-rewrites_one, reconcile-idempotent, reconcile-conflict,
}
use grok_mcp_server.SpendGuard.Retention.{prune_spend_guard}
use grok_mcp_server.SpendGuard.Retention.Keeps.{prune-totals, prune-unresolved}
use grok_mcp_server.SpendGuard.Ticks.Bounds.{spend_guard_ticks-ceiling, spend_guard_ticks-floor}

-- The program with every function open.
program : Unit {0}
unfolding admission_payload expire_spend_guard_reservations insert_baseline
    ensure_telemetry_baseline spend_guard_totals rounded_quotient bounded_ticks spend_guard_ticks
    reserve_spend_guard reserve_spend_guard_sync reserve_existing_or_new admit_reservation
    replay_reservation settle_admission created_payload refused_payload replay_payload
    reconcile_spend_guard_sync reconcile_row reconciled_row report_reconciled reconciled_payload
    perform authorized_ids run spend_guard_status prune_spend_guard
program = tt

-- A sum of decimal amounts.
abbrev add_amount : Amount → Amount → Amount
add_amount (decimal n e) (decimal m k) = decimal (n * 10 ^ k + m * 10 ^ e) (e + k)
add_amount _ _ = malformed

abbrev sum_amounts : List Amount → Amount
sum_amounts [] = decimal 0 0
sum_amounts (a ∷ rest) = add_amount a (sum_amounts rest)

abbrev noon : ℕ
noon = 1_000_000_000_000

-- A limit of 100 ticks, of which the request holds 60.
abbrev request : Request
request = record {
  reservation_id = 7;
  scope = 1;
  limit_ticks = 100;
  requested_ticks = some 60;
  reservation_mode = fixed;
  stale_after_seconds = 30;
  telemetry_baseline_caller = some 5;
}

abbrev spent_before : Telemetry
spent_before = record { id = 3; caller = 5; created_at = noon - 1_000; cost_usd = decimal 4 10 }

abbrev opened : Ledger
opened = record { reservations = []; baselines = []; telemetry = spent_before ∷ [] }

abbrev row : Reservation
row = record {
  reservation_id = 7;
  scope = 1;
  utc_day = 11;
  status = pending;
  limit_ticks = 100;
  reserved_ticks = 60;
  reservation_mode = fixed;
  actual_ticks = none;
  created_at = noon;
  expires_at = noon + 30_000_000;
  reconciled_at = none;
  updated_at = noon;
  unknown_reason = none;
}

abbrev day_snapshot : Baseline
day_snapshot = record {
  scope = 1;
  utc_day = 11;
  telemetry_caller = 5;
  baseline_ticks = 4;
  source_max_telemetry_id = 3;
  created_at = noon;
}

abbrev holding : Reservation → Ledger
holding r = record {
  reservations = r ∷ [];
  baselines = day_snapshot ∷ [];
  telemetry = spent_before ∷ [];
}

abbrev reserved : Ledger
reserved = holding row

abbrev paid : Payload
paid = created_payload request noon (record { committed = 4; held = 0; unknowns = 0 }) 60

-- The telemetry of the day counts against the limit, in whole ticks.
reserve_run : reserve_spend_guard_sync sum_amounts noon request opened ≡ ok (paid, reserved)
unfolding program
reserve_run = refl

-- The provider reports 25 ticks a second later.
abbrev report : Report
report = record {
  reservation_id = 7;
  actual_ticks = some 25;
  unknown_reason = label 0;
  resolve_unknown = false;
  expected_scope = some 1;
}

abbrev second : ℕ
second = 1_000_000

abbrev settled_row : Reservation
settled_row = record row {
  status = reconciled;
  actual_ticks = some 25;
  reconciled_at = some (noon + second);
  updated_at = noon + second;
}

abbrev settled : Ledger
settled = holding settled_row

abbrev settled_payload : Payload
settled_payload =
    reconciled_payload report settled_row (record { committed = 29; held = 0; unknowns = 0 })

report_run :
    reconcile_spend_guard_sync (noon + second) report reserved ≡ ok (settled_payload, settled)
unfolding program
report_run = refl

report_again :
    reconcile_spend_guard_sync (noon + 9 * second) report settled ≡ ok (settled_payload, settled)
unfolding program
report_again = refl

abbrev other_report : Report
other_report = record report { actual_ticks = some 26 }

abbrev conflicting_row : Reservation
conflicting_row = mark_conflict (noon + second) settled_row

abbrev conflicting_payload : Payload
conflicting_payload =
    reconciled_payload other_report conflicting_row
      (record { committed = 4; held = 0; unknowns = 1 })

conflict_run :
    reconcile_spend_guard_sync (noon + second) other_report settled
    ≡ ok (conflicting_payload, holding conflicting_row)
unfolding program
conflict_run = refl

-- The limit at a ledger that three transactions reach.
abbrev call_cost : ℕ → ℕ
call_cost id = 25

abbrev scope_limit : ℕ → ℕ
scope_limit scope = 100

abbrev scope_caller : ℕ → Option ℕ
scope_caller scope = some 5

settled_reached : Reach sum_amounts call_cost scope_limit scope_caller settled
unfolding program
settled_reached =
    next
      (next (next start (records spent_before refl))
        (reserves noon request paid reserve_run refl refl (λ h. omega arith)))
      (reports (noon + second) report settled_payload report_run (inr refl))

Reach-within_limit_example :
    (rows_at 1 11 (settled_row ∷ []) ≡ 0)
    ⊎ (baseline_ticks_at 1 11 (day_snapshot ∷ [])
          + sum_by (cost_at call_cost 1 11) (settled_row ∷ [])
        ≤ 100)
      × ((spend_guard_totals 1 11 settled).committed + (spend_guard_totals 1 11 settled).held ≤ 100)
Reach-within_limit_example =
    Reach-within_limit sum_amounts call_cost scope_limit scope_caller 1 11 settled settled_reached

authorized_once_example :
    count_where
      (λ j. j == 7)
      (authorized_ids sum_amounts
        (Call.reserve noon request ∷ Call.reserve (noon + second) request ∷ [])
        opened)
    ≤ 1
authorized_once_example =
    authorized_once sum_amounts 7
      (Call.reserve noon request ∷ Call.reserve (noon + second) request ∷ []) opened

reserve-IsAuthorized_example : IsAuthorized noon request opened paid reserved
unfolding program
reserve-IsAuthorized_example =
    reserve-IsAuthorized sum_amounts noon request paid opened reserved reserve_run refl

-- The row expires unreported, and a second request meets the unknown spend.
abbrev lost_row : Reservation
lost_row = mark_stale (noon + 30 * second) row

abbrev next_request : Request
next_request = record request { reservation_id = 8; requested_ticks = some 1 }

abbrev refused : Payload
refused =
    refused_payload next_request (noon + 40 * second)
      (record { committed = 4; held = 0; unknowns = 1 }) 1 (unknown_cost, 1)

refused-run :
    reserve_spend_guard_sync sum_amounts (noon + 40 * second) next_request (
      run sum_amounts
        (Call.inspect (noon + 35 * second) 1 ∷ Call.reconcile (noon + 36 * second) report ∷ [])
        (holding lost_row))
    ≡ ok (refused, holding lost_row)
unfolding program
refused-run = refl

run-blocks_unknown_example :
    Holds 7 lost_row (
      run sum_amounts
        (Call.inspect (noon + 35 * second) 1 ∷ Call.reconcile (noon + 36 * second) report ∷ [])
        (holding lost_row))
    × (refused.execute_provider ≡ false)
run-blocks_unknown_example =
    run-blocks_unknown sum_amounts
      (Call.inspect (noon + 35 * second) 1 ∷ Call.reconcile (noon + 36 * second) report ∷ []) 7
      (noon + 40 * second) lost_row next_request refused (holding lost_row) (holding lost_row) refl
      refl (tt, (refl, tt)) refl refl refused-run

abbrev other_row : Reservation
other_row = record row { reservation_id = 8; reserved_ticks = 5 }

abbrev two_rows : Ledger
two_rows = record reserved { reservations = row ∷ other_row ∷ [] }

abbrev two_settled : Ledger
two_settled = record reserved { reservations = settled_row ∷ other_row ∷ [] }

abbrev two_payload : Payload
two_payload =
    reconciled_payload report settled_row (record { committed = 29; held = 5; unknowns = 0 })

two_run : reconcile_spend_guard_sync (noon + second) report two_rows ≡ ok (two_payload, two_settled)
unfolding program
two_run = refl

reconcile-rewrites_one_example :
    (fetch_one (has_id 7) (settled_row ∷ other_row ∷ [])
      ≡ some (reconciled_row (noon + second) report row))
    × (fetch_one (has_id 8) (settled_row ∷ other_row ∷ []) ≡ some other_row)
reconcile-rewrites_one_example =
    reconcile-rewrites_one (noon + second) report two_payload two_rows two_settled two_run 8 row
      other_row refl refl (omega arith)

reconcile-idempotent_example :
    fetch_one (has_id 7) settled.reservations ≡ fetch_one (has_id 7) settled.reservations
reconcile-idempotent_example =
    reconcile-idempotent (noon + second) (noon + 9 * second) report settled_payload settled_payload
      reserved settled settled report_run report_again refl

reconcile-conflict_example :
    (fetch_one (has_id 7) (conflicting_row ∷ []) ≡ some (mark_conflict (noon + second) settled_row))
    × (conflicting_payload.admitted ≡ false)
    × (conflicting_payload.status ≡ stored unknown)
reconcile-conflict_example =
    reconcile-conflict (noon + second) 26 other_report conflicting_payload settled_row settled
      (holding conflicting_row) conflict_run refl refl refl (λ h. ground (arith, h))

-- A day after the report.
abbrev tomorrow : ℕ
tomorrow = noon + 86_400_000_000

prune-totals_example :
    spend_guard_totals 1 12 (after (prune_spend_guard tomorrow 1) settled)
    ≡ spend_guard_totals 1 12 settled
prune-totals_example = prune-totals tomorrow 1 1 12 settled (omega arith)

prune-unresolved_example :
    fetch_one
      (has_id 7)
      (after (prune_spend_guard (noon + 30 * 86_400_000_000) 1) reserved).reservations
    ≡ some row
prune-unresolved_example =
    prune-unresolved (noon + 30 * 86_400_000_000) 1 7 row reserved refl (λ h. cc)

-- 0.0000000123 USD is 123 ticks and 0.00000000001 USD one tick when rounded up.
ceiling_run : spend_guard_ticks round_ceiling true (decimal 1 11) ≡ ok 1
unfolding program
ceiling_run = refl

spend_guard_ticks-ceiling_example :
    (1 * ticks_per_usd ≤ 1 * 10 ^ 11)
    × (1 * 10 ^ 11 < 1 * ticks_per_usd + 10 ^ 11)
    × (1 ≤ max_ticks)
spend_guard_ticks-ceiling_example = spend_guard_ticks-ceiling true 1 11 1 ceiling_run

floor_run : spend_guard_ticks round_floor false (decimal 25 11) ≡ ok 2
unfolding program
floor_run = refl

spend_guard_ticks-floor_example :
    (2 * 10 ^ 11 ≤ 25 * ticks_per_usd) × (25 * ticks_per_usd < (2 + 1) * 10 ^ 11)
spend_guard_ticks-floor_example = spend_guard_ticks-floor 25 11 2 floor_run
