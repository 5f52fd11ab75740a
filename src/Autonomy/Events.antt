-- ===== src/Autonomy/Events.antt =====
-- An event that is appended to an autonomy job is the next one that its readers get
-- (src/unigrok_public/state.py).
use grok_mcp_server.Base.{
  ℕ, zero, suc, ◌+◌, ◌≤◌, ◌≡◌, refl, ◌∙◌, some, List, [], ◌∷◌, ◌++◌, arith, All, take,
}
use grok_mcp_server.Base.Tables.{select_where}
use grok_mcp_server.Base.Tables.Laws.{fetch_one-passes}
use grok_mcp_server.Base.Tables.Keys.{has_key, fetch_one-update_where}
use grok_mcp_server.Autonomy.{
  AutonomyJob, AutonomyEvent, AutonomyStore, id_of, load_autonomy_job, append_autonomy_event,
  list_autonomy_events, is_event_after, page_limit,
}

take-one : {A : Type 0} (n : ℕ) (x : A) → 1 ≤ n → take n (x ∷ []) ≡ x ∷ []
take-one zero x le = absurd (omega (arith, le))
take-one (suc zero) x le = refl
take-one (suc (suc n)) x le = refl

module _ (job : ℕ) (new : AutonomyEvent) where
  only_new :
      (after : ℕ) (es : List AutonomyEvent)
      → All (λ (e : AutonomyEvent). e.id ≤ after) es
      → new.job_id ≡ job
      → after + 1 ≤ new.id
      → select_where (is_event_after job after) (es ++ new ∷ []) ≡ new ∷ []
  only_new after [] low mine later = ground (arith, mine, later)
  only_new after (e ∷ es) low mine later =
      let rest = only_new after es low.1 mine later in ground (arith, low.0, rest)

-- An event that is appended to a job that is there, in a store whose events have ids up to the
-- sequence: it gets the next id, a reader that has read up to the sequence gets exactly this event, at
-- any limit, and the job's cursor is its id.
pub append_autonomy_event-listed :
    (now job event_type payload limit : ℕ) (j : AutonomyJob) (db : AutonomyStore)
    → load_autonomy_job job db ≡ some j
    → All (λ (e : AutonomyEvent). e.id ≤ db.event_sequence) db.ledger
    → ((append_autonomy_event now job event_type payload db).0 ≡ some (db.event_sequence + 1))
      × (list_autonomy_events job db.event_sequence limit
            (append_autonomy_event now job event_type payload db).1
          ≡ (record {
            id = db.event_sequence + 1;
            job_id = job;
            event_type = event_type;
            payload = payload;
            created_at = now;
          })
            ∷ [])
      × (load_autonomy_job job (append_autonomy_event now job event_type payload db).1
          ≡ some (record j { ledger_cursor = db.event_sequence + 1; updated_at = now }))
unfolding append_autonomy_event list_autonomy_events
append_autonomy_event-listed now job event_type payload limit j db found low =
    let e : AutonomyEvent = record {
      id = db.event_sequence + 1;
      job_id = job;
      event_type = event_type;
      payload = payload;
      created_at = now;
    } in
    let passes = fetch_one-passes (has_key id_of job) db.jobs found in
    rw (found, append_autonomy_event)
      (
        refl,
        rw (only_new job e db.event_sequence db.ledger low refl (omega arith))
            (take-one (page_limit limit) e (omega arith)),
        fetch_one-update_where id_of (has_key id_of job) _ (λ x t. refl) job db.jobs
            ∙ rw (found, passes) refl,
      )
