-- ===== src/Autonomy/Claims.antt =====
-- The claim of an autonomy job keeps other callers out (src/unigrok_public/state.py).
use grok_mcp_server.Base.{
  ℕ, ◌+◌, ◌*◌, ◌<◌, ◌≡◌, ◌≢◌, ◌⊎◌, refl, sym, subst, ◌∙◌, max, none, some, List, [], ◌∷◌, Bool,
  true, false, ◌&&◌, arith, Bool-cases, Option-cases, inl, inr, ◌==◌, ==_iff, if◌then◌else◌, All,
}
use grok_mcp_server.Base.Tables.{update_where}
use grok_mcp_server.Base.Tables.Laws.{fetch_one-passes}
use grok_mcp_server.Base.Tables.Keys.{has_key, fetch_one-update_where}
use grok_mcp_server.Autonomy.{
  AutonomyStatus, AutonomyJob, AutonomyStore, id_of, load_autonomy_job, set_autonomy_status,
  is_claimed_by_other, claimed_job, claim_autonomy, holds_claim, release_autonomy_claim,
  append_autonomy_event,
}

pub data AutonomyCall : Type 0 where
  status : (now id : ℕ) → AutonomyStatus → AutonomyCall
  claim : (now later id lease ttl : ℕ) → AutonomyCall
  release : (now id lease : ℕ) → AutonomyCall
  append : (now id event_type payload : ℕ) → AutonomyCall

-- Whether the call is a claim that succeeds, and the store after it.
unfoldable pub perform_autonomy : AutonomyCall → AutonomyStore → Bool × AutonomyStore
perform_autonomy (status now id s) db = (false, set_autonomy_status now id s db)
perform_autonomy (claim now later id lease ttl) db = claim_autonomy now later id lease ttl db
perform_autonomy (release now id lease) db = (false, release_autonomy_claim now id lease db)
perform_autonomy (append now id event_type payload) db =
    (false, (append_autonomy_event now id event_type payload db).1)

abbrev pub claims_job : (id : ℕ) → AutonomyCall → Bool
claims_job id (claim now later i lease ttl) = i == id
claims_job id c = false

-- How many claims of the job succeed.
unfoldable pub claims : (id : ℕ) → List AutonomyCall → AutonomyStore → ℕ
claims id [] db = 0
claims id (c ∷ cs) db =
    (if claims_job id c && (perform_autonomy c db).0 then 1 else 0)
    + claims id cs (perform_autonomy c db).1

unfoldable pub run_autonomy : List AutonomyCall → AutonomyStore → AutonomyStore
run_autonomy [] db = db
run_autonomy (c ∷ cs) db = run_autonomy cs (perform_autonomy c db).1

-- The job is claimed under the lease until the instant.
pub record Held (id lease expires : ℕ) (db : AutonomyStore) : Type 0 where
  pub row : AutonomyJob
  pub found : load_autonomy_job id db ≡ some row
  pub holder : row.claim_lease ≡ some lease
  pub until : row.claim_expires_at ≡ some expires

-- A call of another: a claim of another job, or one with another lease before the instant; a release
-- of another job or lease; and any call that is neither.
abbrev pub IsForeign : (id lease expires : ℕ) → AutonomyCall → Type 0
IsForeign id lease expires (status now i s) = Unit
IsForeign id lease expires (claim now later i other ttl) =
    (i ≢ id) ⊎ ((other ≢ lease) × (now < expires))
IsForeign id lease expires (release now i other) = (i ≢ id) ⊎ (other ≢ lease)
IsForeign id lease expires (append now i event_type payload) = Unit

module _ (id lease expires : ℕ) where
  update-Held :
      (test : AutonomyJob → Bool) (change : AutonomyJob → AutonomyJob) (db db' : AutonomyStore)
      → ((j : AutonomyJob) → (change j).job_id ≡ j.job_id)
      → ((j : AutonomyJob)
          → j.job_id ≡ id
          → j.claim_lease ≡ some lease
          → test j ≡ true
          → ((change j).claim_lease ≡ j.claim_lease)
            × ((change j).claim_expires_at ≡ j.claim_expires_at))
      → db'.jobs ≡ update_where test change db.jobs
      → Held id lease expires db
      → Held id lease expires db'
  update-Held test change db db' same_id keeps wrote h =
      let mine = (==_iff h.row.job_id id).0 (fetch_one-passes (has_key id_of id) db.jobs h.found) in
      let read = fetch_one-update_where id_of test change (λ j t. same_id j) id db.jobs in
      elim (Bool-cases (test h.row)) [
        | inl t ↦
            let (l, e) = keeps h.row mine h.holder t in
            record {
              row = change h.row;
              found = rw wrote (read ∙ rw (h.found, t) refl);
              holder = l ∙ h.holder;
              until = e ∙ h.until;
            }
        | inr f ↦ record {
          row = h.row;
          found = rw wrote (read ∙ rw (h.found, f) refl);
          holder = h.holder;
          until = h.until;
        }
      ]

  -- A claim of another job.
  other-Held :
      (now later i other ttl : ℕ) (db : AutonomyStore)
      → i ≢ id
      → Held id lease expires db
      → Held id lease expires (claim_autonomy now later i other ttl db).1
  unfolding claim_autonomy
  other-Held now later i other ttl db ne h = elim (Option-cases (load_autonomy_job i db)) [
    | inl absent ↦ rw (absent, claim_autonomy) h
    | inr (j, found) ↦ elim (Bool-cases (is_claimed_by_other now other j)) [
      | inl taken ↦ rw (found, claim_autonomy, taken) h
      | inr free ↦
          rw (found, claim_autonomy, free)
            (update-Held (has_key id_of i) (claimed_job now (later + max 5 ttl * 1_000_000) other)
              db _ (λ x. refl) (λ x mine l t. absurd (ne (sym ((==_iff x.job_id i).0 t) ∙ mine)))
              refl h)
    ]
  ]

  held_out :
      (now other : ℕ) (j : AutonomyJob)
      → lease ≢ 0
      → other ≢ lease
      → now < expires
      → j.claim_lease ≡ some lease
      → j.claim_expires_at ≡ some expires
      → is_claimed_by_other now other j ≡ true
  held_out now other j named differs live l e = ground (arith, named, differs, live, l, e)

  turned_down :
      (now later other ttl : ℕ) (db : AutonomyStore)
      → lease ≢ 0
      → Held id lease expires db
      → other ≢ lease
      → now < expires
      → claim_autonomy now later id other ttl db ≡ (false, db)
  unfolding claim_autonomy
  turned_down now later other ttl db named h differs live =
      rw (h.found, claim_autonomy, held_out now other h.row named differs live h.holder h.until)
        refl

  claim-Held :
      (now later i other ttl : ℕ) (db : AutonomyStore)
      → lease ≢ 0
      → Held id lease expires db
      → (i ≢ id) ⊎ ((other ≢ lease) × (now < expires))
      → Held id lease expires (claim_autonomy now later i other ttl db).1
        × ((i == id && (claim_autonomy now later i other ttl db).0) ≡ false)
  claim-Held now later i other ttl db named h (inl ne) =
      (other-Held now later i other ttl db ne h, ground (arith, ne))
  claim-Held now later i other ttl db named h (inr (differs, live)) = elim (Bool-cases (i == id)) [
    | inr elsewhere ↦ (
      other-Held now later i other ttl db (λ e. ground (arith, elsewhere, e)) h,
      ground (arith, elsewhere),
    )
    | inl mine ↦
        let refused : claim_autonomy now later i other ttl db ≡ (false, db) =
          subst (λ k. claim_autonomy now later k other ttl db ≡ (false, db))
            (sym ((==_iff i id).0 mine))
            (turned_down now later other ttl db named h differs live) in
        subst (λ r. Held id lease expires r.1 × ((i == id && r.0) ≡ false)) (sym refused)
          (h, ground arith)
  ]

  release-Held :
      (now i other : ℕ) (db : AutonomyStore)
      → Held id lease expires db
      → (i ≢ id) ⊎ (other ≢ lease)
      → Held id lease expires (release_autonomy_claim now i other db)
  unfolding release_autonomy_claim
  release-Held now i other db h foreign =
      update-Held (holds_claim i other)
        (λ j. record j { claim_lease = none; claim_expires_at = none; updated_at = now }) db
        (release_autonomy_claim now i other db) (λ x. refl)
        (λ x mine l t. absurd (ground (arith, foreign, mine, l, t))) refl h

  append-Held :
      (now i event_type payload : ℕ) (db : AutonomyStore)
      → Held id lease expires db
      → Held id lease expires (append_autonomy_event now i event_type payload db).1
  unfolding append_autonomy_event
  append-Held now i event_type payload db h = elim (Option-cases (load_autonomy_job i db)) [
    | inl absent ↦ rw (absent, append_autonomy_event) h
    | inr (j, found) ↦
        rw (found, append_autonomy_event)
          (update-Held (has_key id_of i)
            (λ x. record x { ledger_cursor = db.event_sequence + 1; updated_at = now }) db _
            (λ x. refl) (λ x mine l t. (refl, refl)) refl h)
  ]

  status-Held :
      (now i : ℕ) (s : AutonomyStatus) (db : AutonomyStore)
      → Held id lease expires db
      → Held id lease expires (set_autonomy_status now i s db)
  unfolding set_autonomy_status
  status-Held now i s db h =
      update-Held (has_key id_of i) (λ x. record x { status = s; updated_at = now }) db
        (set_autonomy_status now i s db) (λ x. refl) (λ x mine l t. (refl, refl)) refl h

  perform-Held :
      (c : AutonomyCall) (db : AutonomyStore)
      → lease ≢ 0
      → Held id lease expires db
      → IsForeign id lease expires c
      → Held id lease expires (perform_autonomy c db).1
        × ((claims_job id c && (perform_autonomy c db).0) ≡ false)
  unfolding perform_autonomy
  perform-Held (status now i s) db named h foreign = (status-Held now i s db h, refl)
  perform-Held (claim now later i other ttl) db named h foreign =
      claim-Held now later i other ttl db named h foreign
  perform-Held (release now i other) db named h foreign =
      (release-Held now i other db h foreign, refl)
  perform-Held (append now i event_type payload) db named h foreign =
      (append-Held now i event_type payload db h, refl)

  run-Held :
      (cs : List AutonomyCall) (db : AutonomyStore)
      → lease ≢ 0
      → Held id lease expires db
      → All (IsForeign id lease expires) cs
      → (claims id cs db ≡ 0) × Held id lease expires (run_autonomy cs db)
  unfolding claims run_autonomy
  run-Held [] db named h foreign = (refl, h)
  run-Held (c ∷ cs) db named h foreign =
      let (held, none_won) = perform-Held c db named h foreign.0 in
      let (rest, last) = run-Held cs (perform_autonomy c db).1 named held foreign.1 in
      (rw (none_won, rest) refl, last)

claimed-Held :
    (now later id lease ttl : ℕ) (db : AutonomyStore)
    → (claim_autonomy now later id lease ttl db).0 ≡ true
    → Held id lease (later + max 5 ttl * 1_000_000) (claim_autonomy now later id lease ttl db).1
unfolding claim_autonomy
claimed-Held now later id lease ttl db won = elim (Option-cases (load_autonomy_job id db)) [
  | inl absent ↦ cc (rw (absent, claim_autonomy) at won)
  | inr (j, found) ↦ elim (Bool-cases (is_claimed_by_other now lease j)) [
    | inl taken ↦ cc (rw (found, claim_autonomy, taken) at won)
    | inr free ↦
        let passes = fetch_one-passes (has_key id_of id) db.jobs found in
        let change = claimed_job now (later + max 5 ttl * 1_000_000) lease in
        rw (found, claim_autonomy, free)
          (record {
            row = change j;
            found =
                fetch_one-update_where id_of (has_key id_of id) change (λ x t. refl) id db.jobs
                ∙ rw (found, passes) refl;
            holder = refl;
            until = refl;
          })
  ]
]

-- After a claim of a job that succeeds under a lease that is not empty, and over any calls of others
-- between two retention passes (claims under other leases before the claim expires, releases by other
-- leases, and any events and statuses): no claim of the job succeeds, and the job is still claimed
-- under the lease, until at least five seconds after the claim.
pub claim_autonomy-exclusive :
    (now later id lease ttl : ℕ) (cs : List AutonomyCall) (db : AutonomyStore)
    → lease ≢ 0
    → (claim_autonomy now later id lease ttl db).0 ≡ true
    → All (IsForeign id lease (later + max 5 ttl * 1_000_000)) cs
    → (claims id cs (claim_autonomy now later id lease ttl db).1 ≡ 0)
      × Held id lease
          (later + max 5 ttl * 1_000_000)
          (run_autonomy cs (claim_autonomy now later id lease ttl db).1)
claim_autonomy-exclusive now later id lease ttl cs db named won foreign =
    run-Held id lease (later + max 5 ttl * 1_000_000) cs
      (claim_autonomy now later id lease ttl db).1 named
      (claimed-Held now later id lease ttl db won) foreign
