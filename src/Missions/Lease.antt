-- ===== src/Missions/Lease.antt =====
-- `create_mission`, `claim_mission`, `heartbeat_mission` and `touch_mission_envelope` of
-- src/unigrok_public/state.py.
use grok_mcp_server.Base.{
  ℕ, ◌+◌, max, Option, none, some, List, [], ◌∷◌, ◌++◌, Bool, true, false, not, ◌&&◌, ◌||◌, ltb,
  leb, ◌==◌, if◌then◌else◌, is_some, any,
}
use grok_mcp_server.Base.Tables.{fetch_one, delete_where}
use grok_mcp_server.Missions.Status.{
  MissionStatus, queued, running, verifying, waiting_event, is_terminal,
}
use grok_mcp_server.Missions.State.{
  Package, Mission, Job, committed, terminal, other, MissionStore, has_mission_id, holds_value,
  text_of, update_missions, changed_one, load_mission, lease_expiry,
}

-- The arguments of `_create_mission_sync`.
pub record NewMission : Type 0 where
  pub mission_id : ℕ
  pub job_id : ℕ
  pub acceptance_hash : ℕ
  pub acceptance_text : ℕ
  pub continue_token : ℕ
  pub package_json : Package
  pub lease_token : ℕ
  pub lease_generation : ℕ
  pub lease_expires_at : ℕ

-- The row that is inserted; `first_checkpoint` is the checkpoint of epoch 0.
abbrev pub created_mission : (now : ℕ) → (first_checkpoint : List (ℕ × ℕ)) → NewMission → Mission
created_mission now first_checkpoint n = record {
  mission_id = n.mission_id;
  job_id = n.job_id;
  created_at = now;
  updated_at = now;
  status = running;
  acceptance_hash = n.acceptance_hash;
  acceptance_text = n.acceptance_text;
  continue_token = n.continue_token;
  package_json = n.package_json;
  checkpoint = first_checkpoint;
  checkpoint_version = 0;
  lease_token = some n.lease_token;
  lease_generation = n.lease_generation;
  lease_expires_at = some n.lease_expires_at;
  envelope_version = 1;
  verify_failures = 0;
  ledger_cursor = 0;
}

-- The PRIMARY KEY and the two UNIQUE columns.
abbrev pub collides : NewMission → Mission → Bool
collides n m =
    m.mission_id == n.mission_id || (m.job_id == n.job_id || m.continue_token == n.continue_token)

abbrev pub is_expired_mission : (cutoff : ℕ) → Mission → Bool
is_expired_mission cutoff m = ltb m.updated_at cutoff && is_terminal m.status

abbrev pub is_expired_job : (cutoff : ℕ) → Job → Bool
is_expired_job cutoff j =
    ltb j.updated_at cutoff
    && elim j.status [ committed ↦ true | terminal ↦ true | other _ ↦ false ]

abbrev pub is_orphan : List Mission → ℕ → Bool
is_orphan kept id = not (any (has_mission_id id) kept)

-- The statements of `_prune_retention_connection` on missions and jobs, with their cascades.
unfoldable pub prune_missions : (cutoff : ℕ) → MissionStore → MissionStore
prune_missions cutoff db =
    let kept = delete_where (is_expired_mission cutoff) db.missions in
    record db {
      missions = kept;
      ledger = delete_where (λ e. is_orphan kept e.mission_id) db.ledger;
      artifacts = delete_where (λ a. is_orphan kept a.mission_id) db.artifacts;
      evidence = delete_where (λ e. is_orphan kept e.mission_id) db.evidence;
      side_effects = delete_where (λ e. is_orphan kept e.mission_id) db.side_effects;
      jobs = delete_where (is_expired_job cutoff) db.jobs;
    }

-- `_create_mission_sync`: none when a key is taken, in which case sqlite raises.
unfoldable pub create_mission :
    (now cutoff : ℕ)
    → (first_checkpoint : List (ℕ × ℕ)) → NewMission
    → MissionStore
    → Option MissionStore
create_mission now cutoff first_checkpoint n db =
    if is_some (fetch_one (collides n) db.missions)
    then none
    else some (
        prune_missions cutoff
          (record db { missions = db.missions ++ created_mission now first_checkpoint n ∷ [] }))

-- The holder of the lease renews it under the same generation.
abbrev pub is_renewal : (lease_token : ℕ) → (expect_generation : Option ℕ) → Mission → Bool
is_renewal token none m = false
is_renewal token (some g) m = holds_value m.lease_token token && m.lease_generation == g

abbrev pub is_claimable_status : MissionStatus → Bool
is_claimable_status queued = true
is_claimable_status waiting_event = true
is_claimable_status running = true
is_claimable_status verifying = true
is_claimable_status _ = false

-- No lease, or an expired one.
abbrev pub is_lease_free : (now : ℕ) → Mission → Bool
is_lease_free now m =
    text_of m.lease_token == 0 || elim m.lease_expires_at [ none ↦ true | some t ↦ leb t now ]

abbrev pub is_claimable : (now id token : ℕ) → Option ℕ → Mission → Bool
is_claimable now id token expect m =
    has_mission_id id m
    && (is_claimable_status m.status && (is_renewal token expect m || is_lease_free now m))

abbrev pub status_when_claimed : MissionStatus → MissionStatus
status_when_claimed queued = running
status_when_claimed waiting_event = running
status_when_claimed s = s

unfoldable pub claimed : (now token ttl_seconds : ℕ) → Option ℕ → Mission → Mission
claimed now token ttl expect m = record m {
  lease_token = some token;
  lease_generation =
      if is_renewal token expect m then m.lease_generation else m.lease_generation + 1;
  lease_expires_at = some (lease_expiry now ttl);
  status = status_when_claimed m.status;
  updated_at = now;
}

abbrev pub generation_of : Option Mission → ℕ
generation_of none = 0
generation_of (some m) = m.lease_generation

-- `_claim_mission_sync`
unfoldable pub claim_mission :
    (now mission_id lease_token ttl_seconds : ℕ)
    → (expect_generation : Option ℕ) → MissionStore
    → (Bool × ℕ) × MissionStore
claim_mission now id token ttl expect db =
    elim (fetch_one (is_claimable now id token expect) db.missions) [
      | some m ↦ (
        (true, (claimed now token ttl expect m).lease_generation),
        update_missions (is_claimable now id token expect) (claimed now token ttl expect) db,
      )
      | none ↦ ((false, generation_of (load_mission id db)), db)
    ]

-- The fence of a worker: its mission, its token and its generation.
abbrev pub is_owned : (id token generation : ℕ) → Mission → Bool
is_owned id token generation m =
    has_mission_id id m && (holds_value m.lease_token token && m.lease_generation == generation)

unfoldable pub extended : (now ttl_seconds : ℕ) → Mission → Mission
extended now ttl m = record m { lease_expires_at = some (lease_expiry now ttl); updated_at = now }

-- `_heartbeat_mission_sync`
unfoldable pub heartbeat_mission :
    (now mission_id lease_token lease_generation ttl_seconds : ℕ)
    → MissionStore
    → Bool × MissionStore
heartbeat_mission now id token generation ttl db = (
  changed_one (is_owned id token generation) db,
  update_missions (is_owned id token generation) (extended now ttl) db,
)

abbrev pub is_owned_live : (id token generation : ℕ) → Mission → Bool
is_owned_live id token generation m = is_owned id token generation m && not (is_terminal m.status)

unfoldable pub bound_to_envelope : (now version : ℕ) → Package → Mission → Mission
bound_to_envelope now version package_json m = record m {
  envelope_version = version;
  package_json = record package_json { bound_envelope_version = some version };
  updated_at = now;
}

-- `int(row["envelope_version"] or 1)`
abbrev pub version_or_one : ℕ → ℕ
version_or_one v = if v == 0 then 1 else v

-- `_touch_mission_envelope_sync`
unfoldable pub touch_mission_envelope :
    (now mission_id envelope_version lease_token lease_generation : ℕ)
    → MissionStore
    → Bool × MissionStore
touch_mission_envelope now id version token generation db =
    elim (fetch_one (is_owned_live id token generation) db.missions) [
      | none ↦ (false, db)
      | some m ↦ (
        changed_one (is_owned_live id token generation) db,
        update_missions (is_owned_live id token generation)
            (bound_to_envelope now (max (version_or_one m.envelope_version) version) m.package_json)
            db,
      )
    ]
