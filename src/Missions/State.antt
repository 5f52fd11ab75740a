-- ===== src/Missions/State.antt =====
-- The mission tables of src/unigrok_public/state.py (`_initialize_sync`). Identifiers, tokens and
-- texts are only compared for equality, so numbers stand for them, 0 for the empty text; a text
-- that an operation redacts or encodes is what it stores. Instants are microseconds.
use grok_mcp_server.Base.{ℕ, ◌+◌, ◌*◌, max, Option, none, some, List, Bool, ◌==◌, false}
use grok_mcp_server.Base.Tables.{update_where, count_where, fetch_one}
use grok_mcp_server.Missions.Status.{MissionStatus}

-- The JSON of `package_json`, with the one key that the store writes itself.
pub record Package : Type 0 where
  pub document : ℕ
  pub bound_envelope_version : Option ℕ

-- The JSON object of `checkpoint_json`, as its keys and values.
abbrev pub Checkpoint : Type 0
Checkpoint = List (ℕ × ℕ)

pub record Mission : Type 0 where
  pub mission_id : ℕ
  pub job_id : ℕ
  pub created_at : ℕ
  pub updated_at : ℕ
  pub status : MissionStatus
  pub acceptance_hash : ℕ
  pub acceptance_text : ℕ
  pub continue_token : ℕ
  pub package_json : Package
  pub checkpoint : Checkpoint
  pub checkpoint_version : ℕ
  pub lease_token : Option ℕ
  pub lease_generation : ℕ
  pub lease_expires_at : Option ℕ
  pub envelope_version : ℕ
  pub verify_failures : ℕ
  pub ledger_cursor : ℕ

pub record Event : Type 0 where
  pub id : ℕ
  pub mission_id : ℕ
  pub event_type : ℕ
  pub payload : ℕ
  pub created_at : ℕ

pub record Artifact : Type 0 where
  pub hash : ℕ
  pub mission_id : ℕ
  pub kind : ℕ
  pub sealed : ℕ
  pub projection : ℕ
  pub created_at : ℕ

pub record Evidence : Type 0 where
  pub mission_id : ℕ
  pub klass : ℕ
  pub digest : ℕ
  pub payload : ℕ
  pub artifact_refs : List ℕ
  pub lease_generation : ℕ
  pub created_at : ℕ

pub record SideEffect : Type 0 where
  pub quantum_key : ℕ
  pub mission_id : ℕ
  pub receipt : ℕ
  pub lease_generation : ℕ
  pub created_at : ℕ

-- The status of an autonomy job, of which missions write two values.
pub data JobStatus : Type 0 where
  committed terminal : JobStatus
  other : ℕ → JobStatus

pub record Job : Type 0 where
  pub job_id : ℕ
  pub status : JobStatus
  pub updated_at : ℕ

-- `event_sequence` is the largest id that AUTOINCREMENT has given to an event.
pub record MissionStore : Type 0 where
  pub missions : List Mission
  pub ledger : List Event
  pub event_sequence : ℕ
  pub artifacts : List Artifact
  pub evidence : List Evidence
  pub side_effects : List SideEffect
  pub jobs : List Job

abbrev pub has_mission_id : ℕ → Mission → Bool
has_mission_id id m = m.mission_id == id

-- `… WHERE column=?` on a column that may be NULL.
abbrev pub holds_value : Option ℕ → ℕ → Bool
holds_value none expected = false
holds_value (some v) expected = v == expected

-- `str(value or "")`
abbrev pub text_of : Option ℕ → ℕ
text_of none = 0
text_of (some v) = v

-- `UPDATE missions SET … WHERE …`
abbrev pub update_missions : (Mission → Bool) → (Mission → Mission) → MissionStore → MissionStore
update_missions test change db = record db { missions = update_where test change db.missions }

-- `cur.rowcount == 1`
abbrev pub changed_one : (Mission → Bool) → MissionStore → Bool
changed_one test db = count_where test db.missions == 1

abbrev pub load_mission : ℕ → MissionStore → Option Mission
load_mission id db = fetch_one (has_mission_id id) db.missions

abbrev pub load_mission_by_job : ℕ → MissionStore → Option Mission
load_mission_by_job job db = elim (fetch_one (λ m. m.job_id == job) db.missions) [
  | none ↦ none
  | some m ↦ load_mission m.mission_id db
]

abbrev pub load_mission_by_token : ℕ → MissionStore → Option Mission
load_mission_by_token token db = elim (fetch_one (λ m. m.continue_token == token) db.missions) [
  | none ↦ none
  | some m ↦ load_mission m.mission_id db
]

-- `lease_expiry_iso` of src/unigrok_public/mission/lease.py. It reads the clock again within a
-- transaction; both readings are taken as the transaction's one instant.
abbrev pub lease_expiry : (now ttl_seconds : ℕ) → ℕ
lease_expiry now ttl_seconds = now + max 5 ttl_seconds * 1_000_000
