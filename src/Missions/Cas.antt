-- ===== src/Missions/Cas.antt =====
-- `cas_mission_status` and `requeue_expired_mission` of src/unigrok_public/state.py.
use grok_mcp_server.Base.{
  ℕ, ◌+◌, Option, none, some, [], ◌∷◌, Bool, true, false, ◌&&◌, ltb, ◌==◌, if◌then◌else◌,
}
use grok_mcp_server.Base.Tables.{update_where}
use grok_mcp_server.Missions.Status.{
  MissionStatus, queued, complete, has_status, is_terminal, legal_transition,
}
use grok_mcp_server.Missions.State.{
  Checkpoint, Mission, JobStatus, committed, terminal, MissionStore, has_mission_id, holds_value,
  update_missions, changed_one, load_mission,
}

-- The arguments of `_cas_mission_status_sync`.
pub record CasRequest : Type 0 where
  pub mission_id : ℕ
  pub expect_status : MissionStatus
  pub expect_version : ℕ
  pub expect_lease_generation : ℕ
  pub new_status : MissionStatus
  pub expect_lease_token : Option ℕ
  pub clear_lease : Bool
  pub checkpoint_update : Checkpoint
  pub bump_verify_failure : Bool

-- `dict.update`: a known key keeps its place, a new one is added last.
abbrev pub dict_set : ℕ → ℕ → Checkpoint → Checkpoint
dict_set k v [] = (k, v) ∷ []
dict_set k v (kv ∷ d) = if kv.0 == k then (k, v) ∷ d else kv ∷ dict_set k v d

unfoldable pub dict_update : Checkpoint → Checkpoint → Checkpoint
dict_update d [] = d
dict_update d (kv ∷ kvs) = dict_update (dict_set kv.0 kv.1 d) kvs

-- What the read row must show.
abbrev pub expects : CasRequest → Mission → Bool
expects q m =
    has_status m.status q.expect_status
    && (m.checkpoint_version == q.expect_version && m.lease_generation == q.expect_lease_generation)

-- `(? IS NULL OR lease_token=?)`
abbrev pub token_matches : Option ℕ → Mission → Bool
token_matches none m = true
token_matches (some token) m = holds_value m.lease_token token

-- The WHERE clause of the update.
abbrev pub is_swappable : CasRequest → Mission → Bool
is_swappable q m =
    has_mission_id q.mission_id m && (expects q m && token_matches q.expect_lease_token m)

-- The SET clause, with what it takes from the row that was read.
unfoldable pub swapped : (now : ℕ) → CasRequest → (read : Mission) → Mission → Mission
swapped now q read m = record m {
  status = q.new_status;
  checkpoint = dict_update read.checkpoint q.checkpoint_update;
  checkpoint_version = q.expect_version + 1;
  lease_token = if q.clear_lease then none else m.lease_token;
  lease_expires_at = if q.clear_lease then none else m.lease_expires_at;
  lease_generation = if q.clear_lease then q.expect_lease_generation + 1 else m.lease_generation;
  verify_failures = read.verify_failures + (if q.bump_verify_failure then 1 else 0);
  updated_at = now;
}

abbrev pub job_status_of : MissionStatus → JobStatus
job_status_of complete = committed
job_status_of _ = terminal

-- The job of a mission that ends.
unfoldable pub close_job : (now job_id : ℕ) → MissionStatus → MissionStore → MissionStore
close_job now job status db = record db {
  jobs =
      update_where (λ j. j.job_id == job)
        (λ j. record j { status = job_status_of status; updated_at = now }) db.jobs;
}

unfoldable pub swap_row : (now : ℕ) → CasRequest → Mission → MissionStore → Bool × MissionStore
swap_row now q read db =
    let changed = changed_one (is_swappable q) db in
    let db' = update_missions (is_swappable q) (swapped now q read) db in
    (
      changed,
      if changed && is_terminal q.new_status
          then close_job now read.job_id q.new_status db'
          else db',
    )

-- The checks of the row that was read.
unfoldable pub swap_loaded :
    (now : ℕ) → CasRequest → Option Mission → MissionStore → Bool × MissionStore
swap_loaded now q none db = (false, db)
swap_loaded now q (some m) db = if expects q m then swap_row now q m db else (false, db)

-- `_cas_mission_status_sync`
unfoldable pub cas_mission_status : (now : ℕ) → CasRequest → MissionStore → Bool × MissionStore
cas_mission_status now q db =
    if legal_transition q.expect_status q.new_status
    then swap_loaded now q (load_mission q.mission_id db) db
    else (false, db)

-- The arguments of `_requeue_expired_mission_sync`.
pub record Requeue : Type 0 where
  pub mission_id : ℕ
  pub expect_status : MissionStatus
  pub expect_version : ℕ
  pub expect_lease_generation : ℕ
  pub expect_lease_expires_at : ℕ

abbrev pub is_requeueable : (now : ℕ) → Requeue → Mission → Bool
is_requeueable now q m =
    has_mission_id q.mission_id m
    && (has_status m.status q.expect_status
        && (m.checkpoint_version == q.expect_version
            && (m.lease_generation == q.expect_lease_generation
                && (holds_value m.lease_expires_at q.expect_lease_expires_at
                    && ltb q.expect_lease_expires_at now))))

unfoldable pub requeued : (now : ℕ) → Mission → Mission
requeued now m = record m {
  status = queued;
  checkpoint_version = m.checkpoint_version + 1;
  lease_token = none;
  lease_expires_at = none;
  lease_generation = m.lease_generation + 1;
  updated_at = now;
}

-- `_requeue_expired_mission_sync`
unfoldable pub requeue_expired_mission : (now : ℕ) → Requeue → MissionStore → Bool × MissionStore
requeue_expired_mission now q db =
    if legal_transition q.expect_status queued
    then (
      changed_one (is_requeueable now q) db,
      update_missions (is_requeueable now q) (requeued now) db,
    )
    else (false, db)
