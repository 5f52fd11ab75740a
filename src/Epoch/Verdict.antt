-- ===== src/Epoch/Verdict.antt =====
-- The steps of `seal_mission_epoch` (src/unigrok_public/mission/epoch.py) from the verdict on.
use grok_mcp_server.Base.{
  ℕ, ◌≡◌, refl, ap, ==_iff, Option, none, some, List, [], ◌∷◌, ◌++◌, Bool, true, false, not, ◌&&◌,
  &&-true, if◌then◌else◌, is_some,
}
use grok_mcp_server.Base.Texts.{codes}
use grok_mcp_server.Missions.Status.{
  MissionStatus, complete, failed, waiting_event, has_status, has_status-true, is_terminal,
}
use grok_mcp_server.Missions.State.{Mission, MissionStore, Checkpoint, holds_value, load_mission}
use grok_mcp_server.Missions.Records.{list_mission_evidence}
use grok_mcp_server.Missions.Cas.{swapped}
use grok_mcp_server.Missions.Calls.{Call, run, perform, proof, swap}
use grok_mcp_server.Missions.Winner.{CasEffect, cas_mission_status-effect}
use grok_mcp_server.Verification.Gaps.{should_terminal_fail}
use grok_mcp_server.Verification.Commit.{VerifyResult, Host}
use grok_mcp_server.Verification.Commit.Accepted.{verify_commit_iff}
use grok_mcp_server.Epoch.{
  Codec, Quantum, Opening, committed, durable, lease_lost, failed_done, conflict, continued,
  is_worker_of, verify_input, new_evidence, verdict, final_request, digest, reason_key,
}
use grok_mcp_server.Epoch.Run.{
  add_evidence, swap_to_complete, record_check, reload, finish, send_back, fail_done, not_committed,
  commit, decide, recheck,
}
use grok_mcp_server.Epoch.Live.{Live, Read, run-Live, perform-Live, or_row-loads}
use grok_mcp_server.Epoch.Committed.{
  check_at, at_recheck, at_swap, Committed, Failed, Ends, if-Ends, durable-Ends,
}

holds_value-true : (o : Option ℕ) (v : ℕ) → holds_value o v ≡ true → o ≡ some v
holds_value-true none v h = cc
holds_value-true (some w) v h = ap some ((==_iff w v).0 h)

complete-terminal : (s : MissionStatus) → has_status s complete ≡ true → is_terminal s ≡ true
complete-terminal s h = let done = has_status-true s complete h in rw done refl

module _ (host : Host) (codec : Codec) (q : Quantum) (opening : Opening) (between : ℕ → List Call)
    (clock : ℕ → ℕ) (token : ℕ) (start : MissionStore) where
  -- The verifier's result on a mission and on the evidence that a store has of it.
  finish-Live :
      (k : ℕ) (s : MissionStatus) (bump : Bool) (update : Checkpoint) (pre : Mission)
      (db : MissionStore)
      → Live q.mission_id start db
      → Live q.mission_id start
          (finish host codec q opening between clock token k s bump update pre db).1
  unfolding perform
  finish-Live k s bump update pre db u =
      perform-Live (swap (clock k) (final_request host codec q token opening s bump update pre))
        (run (between k) db) (run-Live (between k) db u)

  send_back-Ends :
      (check : VerifyResult) (pre : Mission) (db : MissionStore)
      → Live q.mission_id start db
      → Ends host codec q opening between clock token start
          (send_back host codec q opening between clock token check pre db)
  unfolding send_back
  send_back-Ends check pre db u =
      let update =
        verdict host codec q token opening
          (codec.check_with_hash check (digest host codec q token opening)) pre in
      let r = finish host codec q opening between clock token 14 waiting_event true update pre db in
      let after = run (between 15) r.1 in
      let current = reload host codec q opening between clock token pre after in
      durable-Ends host codec q opening between clock token start (continued check.gaps r.0) pre
        after (run-Live (between 15) r.1 (finish-Live 14 waiting_event true update pre db u)) tt
        (not r.0 && (is_some (load_mission q.mission_id after) && is_terminal current.status))
        (λ t. (&&-true (is_some (load_mission q.mission_id after)) _ (&&-true (not r.0) _ t).1).1)

  failed_lem :
      (update : Checkpoint) (pre : Mission) (db db' : MissionStore)
      → CasEffect
          (clock 14)
          (final_request host codec q token opening failed true update pre)
          db
          db'
      → Failed host codec q opening between clock token start db'
  unfolding swapped
  failed_lem update pre db db' e = record {
    row = _;
    found = e.stored;
    status = refl;
    released = refl;
    generation = refl;
  }

  fail_done-Ends :
      (check : VerifyResult) (pre : Mission) (db : MissionStore)
      → Live q.mission_id start db
      → Ends host codec q opening between clock token start
          (fail_done host codec q opening between clock token check pre db)
  unfolding fail_done
  fail_done-Ends check pre db u =
      let update =
        verdict host codec q token opening (codec.check check) pre
        ++ (reason_key, codec.label (codes "unrepairable_gaps")) ∷ [] in
      let swept = finish-Live 14 failed true update pre db u in
      let r = finish host codec q opening between clock token 14 failed true update pre db in
      let after = run (between 15) r.1 in
      let current = reload host codec q opening between clock token pre after in
      if-Ends host codec q opening between clock token start r.0 (failed_done, r.1)
        (if is_terminal current.status then durable current else conflict check.gaps, after)
        (λ won. (
          swept,
          failed_lem update pre (run (between 14) db) r.1 (
              cas_mission_status-effect (clock 14)
                (final_request host codec q token opening failed true update pre)
                (run (between 14) db) (run-Live (between 14) db u).unique won),
        ))
        (λ lost.
          durable-Ends host codec q opening between clock token start (conflict check.gaps) pre
            after (run-Live (between 15) r.1 swept) tt (is_terminal current.status) (λ t. t))

  not_committed-Ends :
      (check : VerifyResult) (pre : Mission) (db : MissionStore)
      → Live q.mission_id start db
      → Ends host codec q opening between clock token start
          (not_committed host codec q opening between clock token check pre db)
  unfolding not_committed
  not_committed-Ends check pre db u =
      if-Ends host codec q opening between clock token start
        (should_terminal_fail check.gaps check.task_class (digest host codec q token opening)
          pre.verify_failures (codec.last_verify pre.checkpoint))
        (fail_done host codec q opening between clock token check pre db)
        (send_back host codec q opening between clock token check pre db)
        (λ t. fail_done-Ends check pre db u) (λ f. send_back-Ends check pre db u)

  -- The check, and what follows it.
  module _ (refreshed : Mission) (at_check : MissionStore)
      (was_read : Read q.mission_id start refreshed at_check) where
    abbrev check : VerifyResult
    check = check_at host codec q opening between clock token start refreshed at_check

    abbrev reread : MissionStore
    reread = at_recheck host codec q opening between clock token start check at_check

    finished :
        check.ok ≡ true
        → (pre : Mission) (db : MissionStore) → load_mission q.mission_id reread ≡ some pre
        → is_worker_of q.lease_generation token pre ≡ true
        → CasEffect
            (clock 13)
            (final_request host codec q token opening complete false
              (verdict host codec q token opening (codec.check check) pre)
              pre)
            (at_swap host codec q opening between clock token start check at_check)
            db
        → db ≡ (swap_to_complete host codec q opening between clock token check pre reread).1
        → Committed host codec q opening between clock token start db
    unfolding swapped
    finished ok pre db found worker e last = record {
      at_check = at_check;
      refreshed = refreshed;
      was_read = was_read;
      accepted =
          (verify_commit_iff host (
              verify_input host codec q token opening refreshed
                (list_mission_evidence q.mission_id at_check))).0
            ok;
      read = pre;
      was_reread = found;
      was_worker = worker;
      before = e.row;
      was_found = e.found;
      was_verifying = e.status;
      was_current = e.generation;
      was_unchanged = e.version;
      was_held = holds_value-true e.row.lease_token token e.holder;
      was_swapped = last;
      row = _;
      found = e.stored;
      status = refl;
      released = refl;
      generation = refl;
      checkpoint = refl;
    }

    commit-Ends :
        check.ok ≡ true
        → (pre : Mission) → load_mission q.mission_id reread ≡ some pre
        → is_worker_of q.lease_generation token pre ≡ true
        → Live q.mission_id start reread
        → Ends host codec q opening between clock token start
            (commit host codec q opening between clock token check pre reread)
    unfolding commit perform
    commit-Ends ok pre found worker u =
        let noted =
          perform-Live (proof (clock 12) (new_evidence host codec q token opening check))
            (run (between 12) reread) (run-Live (between 12) reread u) in
        let before = at_swap host codec q opening between clock token start check at_check in
        let arrived =
          run-Live (between 13)
            (add_evidence host codec q opening between clock token check reread).1 noted in
        let request =
          final_request host codec q token opening complete false
            (verdict host codec q token opening (codec.check check) pre) pre in
        let r = swap_to_complete host codec q opening between clock token check pre reread in
        let done = perform-Live (swap (clock 13) request) before arrived in
        if-Ends host codec q opening between clock token start r.0 (committed, r.1)
          (not_committed host codec q opening between clock token check pre r.1)
          (λ won. (
            done,
            finished ok pre r.1 found worker
                (cas_mission_status-effect (clock 13) request before arrived.unique won) refl,
          ))
          (λ lost. not_committed-Ends check pre r.1 done)

    decide-Ends :
        (pre : Mission)
        → load_mission q.mission_id reread ≡ some pre
        → is_worker_of q.lease_generation token pre ≡ true
        → Live q.mission_id start reread
        → Ends host codec q opening between clock token start
            (decide host codec q opening between clock token check pre reread)
    unfolding decide
    decide-Ends pre found worker u =
        if-Ends host codec q opening between clock token start
          (check.ok && is_some check.structural_record)
          (commit host codec q opening between clock token check pre reread)
          (not_committed host codec q opening between clock token check pre reread)
          (λ t. commit-Ends (&&-true check.ok _ t).0 pre found worker u)
          (λ f. not_committed-Ends check pre reread u)

    pub recheck-Ends :
        Live q.mission_id start
          (record_check host codec q opening between clock token check at_check).1
        → Ends host codec q opening between clock token start (
            recheck host codec q opening between clock token check refreshed
              (record_check host codec q opening between clock token check at_check).1)
    unfolding recheck
    recheck-Ends logged =
        let u =
          run-Live (between 11)
            (record_check host codec q opening between clock token check at_check).1 logged in
        let pre = reload host codec q opening between clock token refreshed reread in
        if-Ends host codec q opening between clock token start (has_status pre.status complete)
          (durable pre, reread)
          (if is_worker_of q.lease_generation token pre
            then decide host codec q opening between clock token check pre reread
            else (lease_lost, reread))
          (λ t. (u, (complete-terminal pre.status t, or_row-loads refreshed reread u)))
          (λ f.
            if-Ends host codec q opening between clock token start
              (is_worker_of q.lease_generation token pre)
              (decide host codec q opening between clock token check pre reread)
              (lease_lost, reread) (λ t. decide-Ends pre (or_row-loads refreshed reread u) t u)
              (λ g. (u, tt)))
