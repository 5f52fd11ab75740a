-- ===== src/Autonomy/Tests.antt =====
-- A small store of autonomy jobs, and the theorems at it.
use grok_mcp_server.Base.{
  ℕ, ◌+◌, ◌*◌, ◌≤◌, ◌≡◌, refl, inr, max, arith, none, some, List, [], ◌∷◌, ◌++◌, length, map,
}
use grok_mcp_server.Base.Tables.{select_where}
use grok_mcp_server.Autonomy.{
  running, committed, AutonomyJob, AutonomyEvent, AutonomyStore, page_limit, is_event_after,
  set_autonomy_status, claim_autonomy, release_autonomy_claim, append_autonomy_event,
  list_autonomy_events, prune_autonomy, create_autonomy_job, put_autonomy_artifact,
  load_autonomy_job,
}
use grok_mcp_server.Autonomy.Claims.{
  AutonomyCall, status, claim, release, append, perform_autonomy, claims, run_autonomy, Held,
  claim_autonomy-exclusive,
}
use grok_mcp_server.Autonomy.Events.{append_autonomy_event-listed}
use grok_mcp_server.Autonomy.Pages.{last_id, list_autonomy_events-pages}

-- The program with every function open.
program : Unit {0}
unfolding set_autonomy_status claim_autonomy release_autonomy_claim append_autonomy_event
    list_autonomy_events prune_autonomy create_autonomy_job put_autonomy_artifact perform_autonomy
    claims run_autonomy
program = tt

abbrev autonomy_job : AutonomyJob
autonomy_job = record {
  job_id = 1;
  created_at = 10;
  updated_at = 20;
  status = running;
  acceptance_hash = 3;
  acceptance_text = 4;
  continue_token = 5;
  claim_lease = none;
  claim_expires_at = none;
  ledger_cursor = 3;
  request_json = 0;
}

abbrev event_at : (id job : ℕ) → AutonomyEvent
event_at id job = record { id = id; job_id = job; event_type = 6; payload = 7; created_at = 10 }

abbrev small : AutonomyStore
small = record {
  jobs = autonomy_job ∷ [];
  ledger = event_at 1 1 ∷ event_at 2 2 ∷ event_at 3 1 ∷ event_at 4 1 ∷ [];
  event_sequence = 4;
  artifacts = [];
}

-- Another caller tries to claim the job and to release it, and the job goes on.
abbrev others : List AutonomyCall
others = claim 2000 2001 1 9 5 ∷ release 2002 1 9 ∷ append 2003 1 6 7 ∷ status 2004 1 committed ∷ []

pages : map (λ e. e.id) (list_autonomy_events 1 1 1 small) ≡ 3 ∷ []
unfolding program
pages = refl

claim_autonomy-exclusive_example :
    (claims 1 others (claim_autonomy 1000 1000 1 8 120 small).1 ≡ 0)
    × Held 1 8
        (1000 + max 5 120 * 1_000_000)
        (run_autonomy others (claim_autonomy 1000 1000 1 8 120 small).1)
unfolding program
claim_autonomy-exclusive_example =
    claim_autonomy-exclusive 1000 1000 1 8 120 others small (λ h. omega (arith, h)) refl
      (inr ((λ h. omega (arith, h)), omega arith), (inr (λ h. omega (arith, h)), (tt, (tt, tt))))

list_autonomy_events-pages_example :
    (length (list_autonomy_events 1 1 1 small) ≤ page_limit 1)
    × (list_autonomy_events 1 1 1 small
          ++ select_where
              (is_event_after 1 (last_id 1 (list_autonomy_events 1 1 1 small)))
              small.ledger
        ≡ select_where (is_event_after 1 1) small.ledger)
list_autonomy_events-pages_example =
    list_autonomy_events-pages 1 1 1 small
      (omega arith, (omega arith, (omega arith, (omega arith, tt))))

append_autonomy_event-listed_example :
    ((append_autonomy_event 50 1 6 7 small).0 ≡ some 5)
    × (list_autonomy_events 1 4 50 (append_autonomy_event 50 1 6 7 small).1
        ≡ (record { id = 5; job_id = 1; event_type = 6; payload = 7; created_at = 50 }) ∷ [])
    × (load_autonomy_job 1 (append_autonomy_event 50 1 6 7 small).1
        ≡ some (record autonomy_job { ledger_cursor = 5; updated_at = 50 }))
append_autonomy_event-listed_example =
    append_autonomy_event-listed 50 1 6 7 50 autonomy_job small refl
      (omega arith, (omega arith, (omega arith, (omega arith, tt))))
