-- ===== src/Epoch/Run.antt =====
-- The run of an epoch (src/unigrok_public/mission/epoch.py): `between k` are the calls of others
-- before its k-th call of the store, which it makes at `clock k`.
use grok_mcp_server.Base.{
  ℕ, Option, none, some, List, [], ◌∷◌, ◌++◌, Bool, true, false, not, ◌&&◌, ◌==◌, if◌then◌else◌,
  is_some, map,
}
use grok_mcp_server.Base.Texts.{Text, codes}
use grok_mcp_server.Missions.Status.{
  MissionStatus, running, verifying, complete, failed, waiting_event, is_terminal, has_status,
}
use grok_mcp_server.Missions.State.{Mission, Evidence, MissionStore, load_mission, Checkpoint}
use grok_mcp_server.Missions.Lease.{heartbeat_mission, touch_mission_envelope}
use grok_mcp_server.Missions.Cas.{cas_mission_status}
use grok_mcp_server.Missions.Records.{
  append_mission_event, put_mission_artifact, append_mission_evidence, list_mission_evidence,
}
use grok_mcp_server.Missions.Calls.{Call, run}
use grok_mcp_server.Verification.Gaps.{should_terminal_fail}
use grok_mcp_server.Verification.Voters.{build_slots, invoke, merge_scorecards}
use grok_mcp_server.Verification.Commit.{VerifyResult, Host, verify_commit}
use grok_mcp_server.Epoch.{
  Opening, or_text, Codec, Quantum, Outcome, missing, raised, committed, failed_done, durable,
  lease_lost, cas_verifying_failed, conflict, continued, worker_token_of, is_worker_of, or_row,
  reason_key, lease_ttl, new_artifact, new_event, verifying_request, verify_input, new_evidence,
  verdict, final_request, digest,
}

abbrev pub Sealed : Type 0
Sealed = Outcome × MissionStore

module _ (host : Host) (codec : Codec) (q : Quantum) (opening : Opening) (between : ℕ → List Call)
    (clock : ℕ → ℕ) (token : ℕ) where
  -- The store when the epoch makes its k-th call.
  abbrev pub seen : ℕ → MissionStore → MissionStore
  seen k db = run (between k) db

  abbrev pub log : (k : ℕ) → (label : Text) → (payload : ℕ) → MissionStore → Option ℕ × MissionStore
  log k label payload db =
      append_mission_event (clock k)
        (new_event host codec q token opening (codec.label label) payload) (seen k db)

  -- The swap out of `verifying`, and whether it was made.
  abbrev pub finish :
      (k : ℕ)
      → MissionStatus
      → (bump : Bool) → Checkpoint
      → Mission
      → MissionStore
      → Bool × MissionStore
  finish k status bump update pre db =
      cas_mission_status (clock k) (final_request host codec q token opening status bump update pre)
        (seen k db)

  -- The mission as the epoch reads it, or else as it last read it.
  abbrev pub reload : Mission → MissionStore → Mission
  reload old db = or_row (load_mission q.mission_id db) old

  -- A durable end that another worker reached, or else the loss of the lease.
  unfoldable pub lost_or_durable : Mission → MissionStore → Sealed
  lost_or_durable current db =
      (if is_terminal current.status then durable current else lease_lost, db)

  -- The mission goes back to waiting for the host.
  unfoldable pub send_back : VerifyResult → Mission → MissionStore → Sealed
  send_back check pre db =
      let update =
        verdict host codec q token opening
          (codec.check_with_hash check (digest host codec q token opening)) pre in
      let r = finish 14 waiting_event true update pre db in
      let after = seen 15 r.1 in
      let current = reload pre after in
      (
        if not r.0 && (is_some (load_mission q.mission_id after) && is_terminal current.status)
            then durable current
            else continued check.gaps r.0,
        after,
      )

  -- FailDone.
  unfoldable pub fail_done : VerifyResult → Mission → MissionStore → Sealed
  fail_done check pre db =
      let update =
        verdict host codec q token opening (codec.check check) pre
        ++ (reason_key, codec.label (codes "unrepairable_gaps")) ∷ [] in
      let r = finish 14 failed true update pre db in
      let after = seen 15 r.1 in
      let current = reload pre after in
      if r.0
      then (failed_done, r.1)
      else (if is_terminal current.status then durable current else conflict check.gaps, after)

  -- What follows a check that is not committed.
  unfoldable pub not_committed : VerifyResult → Mission → MissionStore → Sealed
  not_committed check pre db =
      if should_terminal_fail check.gaps check.task_class (digest host codec q token opening)
        pre.verify_failures (codec.last_verify pre.checkpoint)
      then fail_done check pre db
      else send_back check pre db

  -- The evidence of the verifier, and the swap to `complete`.
  abbrev pub add_evidence : VerifyResult → MissionStore → Bool × MissionStore
  add_evidence check db =
      append_mission_evidence (clock 12) (new_evidence host codec q token opening check)
        (seen 12 db)

  abbrev pub swap_to_complete : VerifyResult → Mission → MissionStore → Bool × MissionStore
  swap_to_complete check pre db =
      finish 13 complete false (verdict host codec q token opening (codec.check check) pre) pre
        (add_evidence check db).1

  unfoldable pub commit : VerifyResult → Mission → MissionStore → Sealed
  commit check pre db =
      let r = swap_to_complete check pre db in
      if r.0 then (committed, r.1) else not_committed check pre r.1

  unfoldable pub decide : VerifyResult → Mission → MissionStore → Sealed
  decide check pre db =
      if check.ok && is_some check.structural_record
      then commit check pre db
      else not_committed check pre db

  -- The mission as it is after the check: another worker may have completed or taken it.
  unfoldable pub recheck : VerifyResult → (refreshed : Mission) → MissionStore → Sealed
  recheck check refreshed db =
      let now = seen 11 db in
      let pre = reload refreshed now in
      if has_status pre.status complete
      then (durable pre, now)
      else if is_worker_of q.lease_generation token pre
      then decide check pre now
      else (lease_lost, now)

  abbrev pub check_of : (refreshed : Mission) → (evidence : List Evidence) → VerifyResult
  check_of refreshed evidence =
      verify_commit host (verify_input host codec q token opening refreshed evidence)

  abbrev pub record_check : VerifyResult → MissionStore → Option ℕ × MissionStore
  record_check check db = log 10 (codes "VerifyChecked") (codec.check check) db

  unfoldable pub verify : (refreshed : Mission) → MissionStore → Sealed
  verify refreshed db =
      let now = seen 9 db in
      let check = check_of refreshed (list_mission_evidence q.mission_id now) in
      let r = record_check check now in
      if is_some r.0 then recheck check refreshed r.1 else (raised, r.1)

  -- A mission that is running is moved to `verifying`; one that is already there goes on.
  abbrev pub swap_to_verifying : (fresh : Mission) → MissionStore → Bool × MissionStore
  swap_to_verifying fresh db =
      cas_mission_status (clock 7) (verifying_request host codec q token opening fresh) (seen 7 db)

  unfoldable pub enter_verifying : (fresh : Mission) → MissionStore → Sealed
  enter_verifying fresh db =
      let r = swap_to_verifying fresh db in
      let after = seen 8 r.1 in
      if has_status fresh.status verifying
      then verify fresh db
      else if has_status fresh.status running
      then (if r.0 then verify (reload fresh after) after else (cas_verifying_failed, after))
      else (cas_verifying_failed, db)

  abbrev pub touch_envelope : MissionStore → Bool × MissionStore
  touch_envelope db =
      touch_mission_envelope (clock 6) q.mission_id q.envelope_version token q.lease_generation
        (seen 6 db)

  unfoldable pub bind_envelope : (fresh : Mission) → MissionStore → Sealed
  bind_envelope fresh db =
      let r = touch_envelope db in
      if r.0
      then enter_verifying fresh r.1
      else lost_or_durable (reload fresh (seen 7 r.1)) (seen 7 r.1)

  -- The lease is read again after the candidate is frozen.
  unfoldable pub refresh : Mission → MissionStore → Sealed
  refresh m db =
      let now = seen 5 db in
      let fresh = reload m now in
      if is_worker_of q.lease_generation token fresh
      then bind_envelope fresh now
      else (lease_lost, now)

  abbrev pub record_council : MissionStore → Option ℕ × MissionStore
  record_council db = log 4 (codes "CouncilShadow") (codec.votes opening.council) db

  -- The votes of the voters, where cards were drawn.
  unfoldable pub record_votes : Mission → MissionStore → Sealed
  record_votes m db =
      let r = record_council db in
      if q.shadow_cognition
      then (if is_some r.0 then refresh m r.1 else (raised, r.1))
      else refresh m db

  -- The candidate is frozen as an artifact and an event, both behind the fence.
  abbrev pub store_projection : MissionStore → Option Bool × MissionStore
  store_projection db =
      put_mission_artifact (clock 2) (new_artifact host codec q token opening) (seen 2 db)

  abbrev pub record_freeze : MissionStore → Option ℕ × MissionStore
  record_freeze db =
      log 3 (codes "CandidateFrozen") (codec.text_id (digest host codec q token opening)) db

  unfoldable pub freeze : Mission → MissionStore → Sealed
  freeze m db =
      let stored = store_projection db in
      let r = record_freeze stored.1 in
      if is_some stored.0
      then (if is_some r.0 then record_votes m r.1 else (raised, r.1))
      else (raised, stored.1)

  abbrev pub renew_lease : Mission → MissionStore → Bool × MissionStore
  renew_lease m db =
      heartbeat_mission (clock 1) q.mission_id token q.lease_generation
        (lease_ttl host codec q token opening m) (seen 1 db)

  unfoldable pub renew : Mission → MissionStore → Sealed
  renew m db = let r = renew_lease m db in if r.0 then freeze m r.1 else (lease_lost, r.1)

  -- A worker that does not hold the lease stops before it writes.
  unfoldable pub own : Mission → MissionStore → Sealed
  own m db =
      if is_worker_of q.lease_generation token m && not (token == 0)
      then renew m db
      else (lease_lost, db)

-- What the epoch derives from the mission: `str(package.get("task") or acceptance_text or "")`, and
-- the merge of the voters' cards on the candidate.
unfoldable pub opening_of : Host → Codec → Quantum → Mission → Opening
opening_of host codec q m = record {
  task_text = or_text (codec.package_view m).task q.acceptance_text;
  council =
      merge_scorecards
        (map (invoke host.py q.candidate) (build_slots host.py (codec.voter_roles m) 7));
}

abbrev pub seal_loaded :
    (host : Host)
    → Codec
    → Quantum
    → (between : ℕ → List Call) → (clock : ℕ → ℕ) → Option Mission
    → MissionStore
    → Sealed
seal_loaded host codec q between clock none db = (missing, db)
seal_loaded host codec q between clock (some m) db =
    if is_terminal m.status
    then (durable m, db)
    else own host codec q (opening_of host codec q m) between clock (worker_token_of q m) m db

-- `seal_mission_epoch`
unfoldable pub seal_mission_epoch :
    (host : Host)
    → Codec
    → Quantum
    → (between : ℕ → List Call) → (clock : ℕ → ℕ) → MissionStore
    → Sealed
seal_mission_epoch host codec q between clock db =
    seal_loaded host codec q between clock (load_mission q.mission_id db) db
