-- ===== src/Missions/Records.antt =====
-- The records that workers add under their fence: events, artifacts, evidence and the receipts of
-- side effects (src/unigrok_public/state.py).
use grok_mcp_server.Base.{
  ℕ, ◌+◌, Option, none, some, List, [], ◌∷◌, ◌++◌, Bool, true, false, not, ◌&&◌, ◌==◌,
  if◌then◌else◌, is_some,
}
use grok_mcp_server.Base.Tables.{fetch_one, select_where}
use grok_mcp_server.Missions.State.{
  Mission, Artifact, Evidence, SideEffect, MissionStore, has_mission_id, text_of, update_missions,
  load_mission,
}
use grok_mcp_server.Missions.Lease.{is_owned}

-- A fence of an event or an artifact: none of the two parts, or both, which must be the lease's.
abbrev pub passes_fence : (id : ℕ) → (token generation : Option ℕ) → MissionStore → Bool
passes_fence id none none db = true
passes_fence id (some t) (some g) db = is_some (fetch_one (is_owned id t g) db.missions)
passes_fence id _ _ db = false

pub record NewEvent : Type 0 where
  pub mission_id : ℕ
  pub event_type : ℕ
  pub payload : ℕ
  pub lease_token : Option ℕ
  pub lease_generation : Option ℕ

abbrev pub at_cursor : (now cursor : ℕ) → Mission → Mission
at_cursor now cursor m = record m { ledger_cursor = cursor; updated_at = now }

-- `_append_mission_event_sync`: the id of the event, 0 behind the fence, or none where the
-- FOREIGN KEY makes sqlite raise.
unfoldable pub append_mission_event : (now : ℕ) → NewEvent → MissionStore → Option ℕ × MissionStore
append_mission_event now n db =
    if not (passes_fence n.mission_id n.lease_token n.lease_generation db)
    then (some 0, db)
    else if not (is_some (load_mission n.mission_id db))
    then (none, db)
    else let id = db.event_sequence + 1 in
      (
        some id,
        update_missions (has_mission_id n.mission_id) (at_cursor now id) (record db {
          ledger =
              db.ledger
              ++ (record {
                id = id;
                mission_id = n.mission_id;
                event_type = n.event_type;
                payload = n.payload;
                created_at = now;
              })
                ∷ [];
          event_sequence = id;
        }),
      )

pub record NewArtifact : Type 0 where
  pub mission_id : ℕ
  pub digest : ℕ
  pub kind : ℕ
  pub sealed : ℕ
  pub projection : ℕ
  pub lease_token : Option ℕ
  pub lease_generation : Option ℕ

abbrev pub get_mission_artifact : ℕ → MissionStore → Option Artifact
get_mission_artifact digest db = fetch_one (λ a. a.hash == digest) db.artifacts

-- `_put_mission_artifact_sync`: whether it is stored, or none where sqlite raises.
unfoldable pub put_mission_artifact :
    (now : ℕ) → NewArtifact → MissionStore → Option Bool × MissionStore
put_mission_artifact now n db =
    if not (passes_fence n.mission_id n.lease_token n.lease_generation db)
    then (some false, db)
    else if is_some (get_mission_artifact n.digest db)
    then (some true, db)
    else if not (is_some (load_mission n.mission_id db))
    then (none, db)
    else (
      some true,
      record db {
        artifacts =
            db.artifacts
            ++ (record {
              hash = n.digest;
              mission_id = n.mission_id;
              kind = n.kind;
              sealed = n.sealed;
              projection = n.projection;
              created_at = now;
            })
              ∷ [];
      },
    )

pub record NewEvidence : Type 0 where
  pub mission_id : ℕ
  pub klass : ℕ
  pub digest : ℕ
  pub payload : ℕ
  pub artifact_refs : List ℕ
  pub lease_generation : ℕ
  pub lease_token : Option ℕ

abbrev pub evidence_token_differs : Option ℕ → Mission → Bool
evidence_token_differs none m = false
evidence_token_differs (some t) m = not (text_of m.lease_token == t)

abbrev pub insert_evidence : (now : ℕ) → NewEvidence → MissionStore → MissionStore
insert_evidence now n db =
    if is_some (
      fetch_one (λ (e : Evidence). e.mission_id == n.mission_id && e.digest == n.digest)
        db.evidence)
    then db
    else record db {
      evidence =
          db.evidence
          ++ (record {
            mission_id = n.mission_id;
            klass = n.klass;
            digest = n.digest;
            payload = n.payload;
            artifact_refs = n.artifact_refs;
            lease_generation = n.lease_generation;
            created_at = now;
          })
            ∷ [];
    }

-- `_append_mission_evidence_sync`
unfoldable pub append_mission_evidence :
    (now : ℕ) → NewEvidence → MissionStore → Bool × MissionStore
append_mission_evidence now n db = elim (load_mission n.mission_id db) [
  | none ↦ (false, db)
  | some m ↦
      if not (m.lease_generation == n.lease_generation)
      then (false, db)
      else if evidence_token_differs n.lease_token m
      then (false, db)
      else (true, insert_evidence now n db)
]

abbrev pub list_mission_evidence : ℕ → MissionStore → List Evidence
list_mission_evidence id db = select_where (λ e. e.mission_id == id) db.evidence

pub record NewSideEffect : Type 0 where
  pub quantum_key : ℕ
  pub mission_id : ℕ
  pub receipt : ℕ
  pub lease_generation : ℕ

-- `_put_side_effect_sync`
unfoldable pub put_mission_side_effect :
    (now : ℕ) → NewSideEffect → MissionStore → Bool × MissionStore
put_mission_side_effect now n db = elim (load_mission n.mission_id db) [
  | none ↦ (false, db)
  | some m ↦
      if not (m.lease_generation == n.lease_generation)
      then (false, db)
      else if is_some
          (fetch_one (λ (e : SideEffect). e.quantum_key == n.quantum_key) db.side_effects)
      then (true, db)
      else (
        true,
        record db {
          side_effects =
              db.side_effects
              ++ (record {
                quantum_key = n.quantum_key;
                mission_id = n.mission_id;
                receipt = n.receipt;
                lease_generation = n.lease_generation;
                created_at = now;
              })
                ∷ [];
        },
      )
]
