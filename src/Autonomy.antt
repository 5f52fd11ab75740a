-- ===== src/Autonomy.antt =====
-- The autonomy jobs of src/unigrok_public/state.py: durable jobs that one caller at a time continues
-- under a claim, with a ledger of events and their artifacts. The write lock of the process makes each
-- call one step. Identifiers and texts are numbers, 0 for the empty text; instants are microseconds.
pub mod Claims
pub mod Pages
pub mod Events
pub mod Tests
use grok_mcp_server.Base.{
  ℕ, ◌+◌, ◌*◌, max, min, Option, none, some, List, [], ◌∷◌, ◌++◌, Bool, true, false, not, ◌&&◌,
  ◌||◌, ltb, ◌==◌, if◌then◌else◌, is_some, take,
}
use grok_mcp_server.Base.Tables.{update_where, delete_where, select_where, fetch_one}
use grok_mcp_server.Base.Tables.Keys.{has_key}

pub data AutonomyStatus : Type 0 where
  running committed terminal : AutonomyStatus
  other : ℕ → AutonomyStatus

pub record AutonomyJob : Type 0 where
  pub job_id : ℕ
  pub created_at : ℕ
  pub updated_at : ℕ
  pub status : AutonomyStatus
  pub acceptance_hash : ℕ
  pub acceptance_text : ℕ
  pub continue_token : ℕ
  pub claim_lease : Option ℕ
  pub claim_expires_at : Option ℕ
  pub ledger_cursor : ℕ
  pub request_json : ℕ

pub record AutonomyEvent : Type 0 where
  pub id : ℕ
  pub job_id : ℕ
  pub event_type : ℕ
  pub payload : ℕ
  pub created_at : ℕ

pub record AutonomyArtifact : Type 0 where
  pub hash : ℕ
  pub job_id : ℕ
  pub kind : ℕ
  pub content : ℕ
  pub created_at : ℕ

pub record AutonomyStore : Type 0 where
  pub jobs : List AutonomyJob
  pub ledger : List AutonomyEvent
  pub event_sequence : ℕ
  pub artifacts : List AutonomyArtifact

abbrev pub id_of : AutonomyJob → ℕ
id_of j = j.job_id

-- `_load_autonomy_job_sync` and `_load_autonomy_by_token_sync`
abbrev pub load_autonomy_job : ℕ → AutonomyStore → Option AutonomyJob
load_autonomy_job id db = fetch_one (has_key id_of id) db.jobs

abbrev pub load_autonomy_by_token : ℕ → AutonomyStore → Option AutonomyJob
load_autonomy_by_token token db = fetch_one (λ j. j.continue_token == token) db.jobs

abbrev pub update_job : ℕ → (AutonomyJob → AutonomyJob) → AutonomyStore → AutonomyStore
update_job id change db = record db { jobs = update_where (has_key id_of id) change db.jobs }

abbrev pub add_event : (now job_id event_type payload : ℕ) → AutonomyStore → AutonomyStore
add_event now job_id event_type payload db = record db {
  ledger =
      db.ledger
      ++ (record {
        id = db.event_sequence + 1;
        job_id = job_id;
        event_type = event_type;
        payload = payload;
        created_at = now;
      })
        ∷ [];
  event_sequence = db.event_sequence + 1;
}

-- The arguments of `_create_autonomy_job_sync`.
pub record NewJob : Type 0 where
  pub job_id : ℕ
  pub acceptance_hash : ℕ
  pub acceptance_text : ℕ
  pub continue_token : ℕ
  pub request_json : ℕ

abbrev pub created_job : (now : ℕ) → NewJob → AutonomyJob
created_job now n = record {
  job_id = n.job_id;
  created_at = now;
  updated_at = now;
  status = running;
  acceptance_hash = n.acceptance_hash;
  acceptance_text = n.acceptance_text;
  continue_token = n.continue_token;
  claim_lease = none;
  claim_expires_at = none;
  ledger_cursor = 0;
  request_json = n.request_json;
}

-- `_set_autonomy_status_sync`
unfoldable pub set_autonomy_status : (now id : ℕ) → AutonomyStatus → AutonomyStore → AutonomyStore
set_autonomy_status now id status db =
    update_job id (λ j. record j { status = status; updated_at = now }) db

-- A claim that keeps the caller out: it has not expired and is another one's.
abbrev pub is_claimed_by_other : (now lease : ℕ) → AutonomyJob → Bool
is_claimed_by_other now lease j = elim j.claim_lease [
  | none ↦ false
  | some current ↦ elim j.claim_expires_at [
    | none ↦ false
    | some expires ↦ not (current == 0) && (ltb now expires && not (current == lease))
  ]
]

abbrev pub claimed_job : (now expires lease : ℕ) → AutonomyJob → AutonomyJob
claimed_job now expires lease j = record j {
  claim_lease = some lease;
  claim_expires_at = some expires;
  updated_at = now;
}

-- `_claim_autonomy_sync`; the expiry counts from a second reading of the clock.
unfoldable pub claim_autonomy : (now later id lease ttl : ℕ) → AutonomyStore → Bool × AutonomyStore
claim_autonomy now later id lease ttl db = elim (load_autonomy_job id db) [
  | none ↦ (false, db)
  | some j ↦
      if is_claimed_by_other now lease j
      then (false, db)
      else (true, update_job id (claimed_job now (later + max 5 ttl * 1_000_000) lease) db)
]

abbrev pub holds_claim : (id lease : ℕ) → AutonomyJob → Bool
holds_claim id lease j = elim j.claim_lease [ none ↦ false | some l ↦ j.job_id == id && l == lease ]

-- `_release_autonomy_claim_sync`
unfoldable pub release_autonomy_claim : (now id lease : ℕ) → AutonomyStore → AutonomyStore
release_autonomy_claim now id lease db = record db {
  jobs =
      update_where (holds_claim id lease)
        (λ j. record j { claim_lease = none; claim_expires_at = none; updated_at = now }) db.jobs;
}

-- `_append_autonomy_event_sync`: the id of the event, or none where the FOREIGN KEY makes sqlite
-- raise.
unfoldable pub append_autonomy_event :
    (now job_id event_type payload : ℕ) → AutonomyStore → Option ℕ × AutonomyStore
append_autonomy_event now job_id event_type payload db =
    let id = db.event_sequence + 1 in
    if is_some (load_autonomy_job job_id db)
    then (
      some id,
      update_job job_id (λ j. record j { ledger_cursor = id; updated_at = now })
          (add_event now job_id event_type payload db),
    )
    else (none, db)

-- `max(1, min(limit, 200))`
abbrev pub page_limit : ℕ → ℕ
page_limit limit = max 1 (min limit 200)

abbrev pub is_event_after : (job_id after : ℕ) → AutonomyEvent → Bool
is_event_after job_id after e = e.job_id == job_id && ltb after e.id

-- `_list_autonomy_events_sync`; the ledger is in the order of its ids.
unfoldable pub list_autonomy_events : (job_id after limit : ℕ) → AutonomyStore → List AutonomyEvent
list_autonomy_events job_id after limit db =
    take (page_limit limit) (select_where (is_event_after job_id after) db.ledger)

-- `_get_autonomy_artifact_sync`
abbrev pub get_autonomy_artifact : ℕ → AutonomyStore → Option AutonomyArtifact
get_autonomy_artifact digest db = fetch_one (λ a. a.hash == digest) db.artifacts

-- The part of `_prune_retention_connection` on autonomy jobs: a job that ended before the cutoff goes,
-- with its events and artifacts.
abbrev pub is_ended : AutonomyStatus → Bool
is_ended committed = true
is_ended terminal = true
is_ended s = false

abbrev pub is_old : (cutoff : ℕ) → AutonomyJob → Bool
is_old cutoff j = ltb j.updated_at cutoff && is_ended j.status

unfoldable pub prune_autonomy : (cutoff : ℕ) → AutonomyStore → AutonomyStore
prune_autonomy cutoff db =
    let kept = delete_where (is_old cutoff) db.jobs in
    record db {
      jobs = kept;
      ledger = select_where (λ e. is_some (fetch_one (has_key id_of e.job_id) kept)) db.ledger;
      artifacts =
          select_where (λ a. is_some (fetch_one (has_key id_of a.job_id) kept)) db.artifacts;
    }

-- `_create_autonomy_job_sync`: none where sqlite raises on a job or a token that is there.
unfoldable pub create_autonomy_job :
    (now cutoff : ℕ) → NewJob → (label payload : ℕ) → AutonomyStore → Option AutonomyStore
create_autonomy_job now cutoff n label payload db =
    if is_some (load_autonomy_job n.job_id db)
      || is_some (load_autonomy_by_token n.continue_token db)
    then none
    else some (
        prune_autonomy cutoff (
          add_event now n.job_id label payload
            (record db { jobs = db.jobs ++ created_job now n ∷ [] })))

-- `_put_autonomy_artifact_sync`: none where sqlite raises.
unfoldable pub put_autonomy_artifact :
    (now cutoff job_id digest kind content : ℕ) → AutonomyStore → Option AutonomyStore
put_autonomy_artifact now cutoff job_id digest kind content db =
    if is_some (get_autonomy_artifact digest db)
    then some (prune_autonomy cutoff db)
    else if not (is_some (load_autonomy_job job_id db))
    then none
    else some (
        prune_autonomy cutoff (record db {
          artifacts =
              db.artifacts
              ++ (record {
                hash = digest;
                job_id = job_id;
                kind = kind;
                content = content;
                created_at = now;
              })
                ∷ [];
        }))
