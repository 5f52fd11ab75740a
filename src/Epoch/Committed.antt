-- ===== src/Epoch/Committed.antt =====
-- What the ends of an epoch (src/unigrok_public/mission/epoch.py) mean for the store that it leaves.
use grok_mcp_server.Base.{ℕ, ◌+◌, ◌≡◌, refl, none, some, List, Bool, true, false, if◌then◌else◌}
use grok_mcp_server.Missions.Status.{complete, failed, verifying, is_terminal}
use grok_mcp_server.Missions.State.{Mission, MissionStore, load_mission}
use grok_mcp_server.Missions.Records.{list_mission_evidence}
use grok_mcp_server.Missions.Cas.{dict_update}
use grok_mcp_server.Missions.Calls.{Call, run}
use grok_mcp_server.Verification.Commit.{VerifyResult, Host}
use grok_mcp_server.Verification.Commit.Accepted.{Accepted}
use grok_mcp_server.Epoch.{
  Codec, Quantum, Opening, Outcome, committed, durable, lease_lost, missing, raised,
  cas_verifying_failed, failed_done, conflict, continued, is_worker_of, verify_input, verdict,
}
use grok_mcp_server.Epoch.Run.{
  Sealed, add_evidence, swap_to_complete, check_of, record_check, reload,
}
use grok_mcp_server.Epoch.Live.{Live, Read, or_row-loads}

module _ (host : Host) (codec : Codec) (q : Quantum) (opening : Opening) (between : ℕ → List Call)
    (clock : ℕ → ℕ) (token : ℕ) (start : MissionStore) where
  -- The verifier's result on a mission and on the evidence that a store has of it.
  abbrev pub check_at : (refreshed : Mission) → (at_check : MissionStore) → VerifyResult
  check_at refreshed at_check =
      check_of host codec q opening between clock token refreshed
        (list_mission_evidence q.mission_id at_check)

  -- The store when the mission is read again after the check, and when it is swapped to complete.
  abbrev pub at_recheck : VerifyResult → (at_check : MissionStore) → MissionStore
  at_recheck check at_check =
      run (between 11) (record_check host codec q opening between clock token check at_check).1

  abbrev pub at_swap : VerifyResult → (at_check : MissionStore) → MissionStore
  at_swap check at_check =
      run (between 13)
        (add_evidence host codec q opening between clock token check (at_recheck check at_check)).1

  -- What a committed end means for the store that the epoch leaves: the verifier accepted the
  -- candidate on the mission as it was read on the way and on the evidence in the store of the check,
  -- the mission was still the worker's when it was read after the check, it was `verifying` under
  -- the worker's lease in the store of the last swap, and in the store that this swap leaves it is complete, its lease given up and
  -- the verdict in its checkpoint.
  pub record Committed (db : MissionStore) : Type 0 where
    pub at_check : MissionStore
    pub refreshed : Mission
    pub was_read : Read q.mission_id start refreshed at_check
    pub accepted : Accepted host (
        verify_input host codec q token opening refreshed
          (list_mission_evidence q.mission_id at_check))
    pub read : Mission
    pub was_reread :
        load_mission q.mission_id (at_recheck (check_at refreshed at_check) at_check) ≡ some read
    pub was_worker : is_worker_of q.lease_generation token read ≡ true
    pub before : Mission
    pub was_found :
        load_mission q.mission_id (at_swap (check_at refreshed at_check) at_check) ≡ some before
    pub was_verifying : before.status ≡ verifying
    pub was_current : before.lease_generation ≡ q.lease_generation
    pub was_unchanged : before.checkpoint_version ≡ read.checkpoint_version
    pub was_held : before.lease_token ≡ some token
    pub was_swapped :
        db
        ≡ (swap_to_complete host codec q opening between clock token
            (check_at refreshed at_check)
            read
            (at_recheck (check_at refreshed at_check) at_check)).1
    pub row : Mission
    pub found : load_mission q.mission_id db ≡ some row
    pub status : row.status ≡ complete
    pub released : row.lease_token ≡ none
    pub generation : row.lease_generation ≡ q.lease_generation + 1
    pub checkpoint :
        row.checkpoint
        ≡ dict_update before.checkpoint
            (verdict host codec q token opening (codec.check (check_at refreshed at_check)) read)

  -- FailDone: the mission is failed, at the next generation, and its lease given up.
  pub record Failed (db : MissionStore) : Type 0 where
    pub row : Mission
    pub found : load_mission q.mission_id db ≡ some row
    pub status : row.status ≡ failed
    pub released : row.lease_token ≡ none
    pub generation : row.lease_generation ≡ q.lease_generation + 1

  -- What an outcome says of the store that the epoch leaves.
  abbrev pub Reports : Outcome → MissionStore → Type 0
  Reports missing db = Unit
  Reports raised db = Unit
  Reports committed db = Committed db
  Reports failed_done db = Failed db
  Reports (durable m) db = (is_terminal m.status ≡ true) × (load_mission q.mission_id db ≡ some m)
  Reports lease_lost db = Unit
  Reports cas_verifying_failed db = Unit
  Reports (conflict gaps) db = Unit
  Reports (continued gaps waiting) db = Unit

  -- What every end is: a store that the calls reach, of which the outcome tells the truth.
  abbrev pub Ends : Sealed → Type 0
  Ends r = Live q.mission_id start r.1 × Reports r.0 r.1

  pub if-Ends :
      (b : Bool) (x y : Sealed)
      → (b ≡ true → Ends x)
      → (b ≡ false → Ends y)
      → Ends (if b then x else y)
  if-Ends true x y f g = f refl
  if-Ends false x y f g = g refl

  pub durable-Ends :
      (o : Outcome) (old : Mission) (db : MissionStore)
      → Live q.mission_id start db
      → Reports o db
      → (b : Bool)
      → (b ≡ true
          → is_terminal (reload host codec q opening between clock token old db).status ≡ true)
      → Ends (if b then durable (reload host codec q opening between clock token old db) else o, db)
  durable-Ends o old db u p true ended = (u, (ended refl, or_row-loads old db u))
  durable-Ends o old db u p false ended = (u, p)
