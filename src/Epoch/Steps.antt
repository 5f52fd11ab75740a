-- ===== src/Epoch/Steps.antt =====
-- How the steps of `seal_mission_epoch` (src/unigrok_public/mission/epoch.py) before the verdict end.
use grok_mcp_server.Base.{ℕ, List, not, ◌&&◌, ◌==◌, if◌then◌else◌, is_some}
use grok_mcp_server.Missions.Status.{is_terminal, has_status, running, verifying}
use grok_mcp_server.Missions.State.{Mission, MissionStore}
use grok_mcp_server.Missions.Records.{list_mission_evidence}
use grok_mcp_server.Missions.Calls.{Call, run, perform, heartbeat, touch, swap, event, artifact}
use grok_mcp_server.Verification.Commit.{Host}
use grok_mcp_server.Epoch.{
  Codec, Quantum, Opening, raised, lease_lost, cas_verifying_failed, is_worker_of, lease_ttl,
  new_artifact, new_event, verifying_request, digest,
}
use grok_mcp_server.Epoch.Run.{
  check_of, record_check, swap_to_verifying, touch_envelope, store_projection, record_freeze,
  renew_lease, record_council, reload, lost_or_durable, recheck, verify, enter_verifying,
  bind_envelope, refresh, record_votes, freeze, renew, own,
}
use grok_mcp_server.Base.Texts.{codes}
use grok_mcp_server.Epoch.Live.{
  Live, Read, run-Live, perform-Live, run-Read, perform-Read, or_row-Read,
}
use grok_mcp_server.Epoch.Committed.{Ends, if-Ends, durable-Ends}
use grok_mcp_server.Epoch.Verdict.{recheck-Ends}

module _ (host : Host) (codec : Codec) (q : Quantum) (opening : Opening) (between : ℕ → List Call)
    (clock : ℕ → ℕ) (token : ℕ) (start : MissionStore) where
  verify-Ends :
      (refreshed : Mission) (db : MissionStore)
      → Read q.mission_id start refreshed db
      → Live q.mission_id start db
      → Ends host codec q opening between clock token start
          (verify host codec q opening between clock token refreshed db)
  unfolding verify perform
  verify-Ends refreshed db read u =
      let now = run (between 9) db in
      let check =
        check_of host codec q opening between clock token refreshed
          (list_mission_evidence q.mission_id now) in
      let r = record_check host codec q opening between clock token check now in
      let logged =
        perform-Live
          (event (clock 10) (
            new_event host codec q token opening (codec.label (codes "VerifyChecked"))
              (codec.check check)))
          (run (between 10) now) (run-Live (between 10) now (run-Live (between 9) db u)) in
      if-Ends host codec q opening between clock token start (is_some r.0)
        (recheck host codec q opening between clock token check refreshed r.1) (raised, r.1)
        (λ t.
          recheck-Ends host codec q opening between clock token start refreshed now
            (run-Read (between 9) db read) logged)
        (λ f. (logged, tt))

  enter_verifying-Ends :
      (fresh : Mission) (db : MissionStore)
      → Read q.mission_id start fresh db
      → Live q.mission_id start db
      → Ends host codec q opening between clock token start
          (enter_verifying host codec q opening between clock token fresh db)
  unfolding enter_verifying perform
  enter_verifying-Ends fresh db read u =
      let r = swap_to_verifying host codec q opening between clock token fresh db in
      let after = run (between 8) r.1 in
      let moved = run-Live (between 8) r.1 (
        perform-Live (swap (clock 7) (verifying_request host codec q token opening fresh))
          (run (between 7) db) (run-Live (between 7) db u)) in
      let refreshed = reload host codec q opening between clock token fresh after in
      if-Ends host codec q opening between clock token start (has_status fresh.status verifying)
        (verify host codec q opening between clock token fresh db) _
        (λ t. verify-Ends fresh db read u)
        (λ f.
          if-Ends host codec q opening between clock token start (has_status fresh.status running)
            (if r.0
              then verify host codec q opening between clock token refreshed after
              else (cas_verifying_failed, after))
            (cas_verifying_failed, db)
            (λ t.
              if-Ends host codec q opening between clock token start r.0
                (verify host codec q opening between clock token refreshed after)
                (cas_verifying_failed, after)
                (λ w. verify-Ends refreshed after (or_row-Read fresh after moved) moved)
                (λ l. (moved, tt)))
            (λ g. (u, tt)))

  lost_or_durable-Ends :
      (old : Mission) (db : MissionStore)
      → Live q.mission_id start db
      → Ends host codec q opening between clock token start (
          lost_or_durable host codec q opening between clock token
            (reload host codec q opening between clock token old db)
            db)
  unfolding lost_or_durable
  lost_or_durable-Ends old db u =
      durable-Ends host codec q opening between clock token start lease_lost old db u tt
        (is_terminal (reload host codec q opening between clock token old db).status) (λ t. t)

  bind_envelope-Ends :
      (fresh : Mission) (db : MissionStore)
      → Read q.mission_id start fresh db
      → Live q.mission_id start db
      → Ends host codec q opening between clock token start
          (bind_envelope host codec q opening between clock token fresh db)
  unfolding bind_envelope perform
  bind_envelope-Ends fresh db read u =
      let r = touch_envelope host codec q opening between clock token db in
      let bound =
        perform-Live (touch (clock 6) q.mission_id q.envelope_version token q.lease_generation)
          (run (between 6) db) (run-Live (between 6) db u) in
      if-Ends host codec q opening between clock token start r.0
        (enter_verifying host codec q opening between clock token fresh r.1) _
        (λ t.
          enter_verifying-Ends fresh r.1
            (perform-Read (touch (clock 6) q.mission_id q.envelope_version token q.lease_generation)
              (run (between 6) db) (run-Read (between 6) db read))
            bound)
        (λ f. lost_or_durable-Ends fresh (run (between 7) r.1) (run-Live (between 7) r.1 bound))

  refresh-Ends :
      (m : Mission) (db : MissionStore)
      → Live q.mission_id start db
      → Ends host codec q opening between clock token start
          (refresh host codec q opening between clock token m db)
  unfolding refresh
  refresh-Ends m db u =
      let now = run (between 5) db in
      let live = run-Live (between 5) db u in
      let fresh = reload host codec q opening between clock token m now in
      if-Ends host codec q opening between clock token start
        (is_worker_of q.lease_generation token fresh)
        (bind_envelope host codec q opening between clock token fresh now) (lease_lost, now)
        (λ t. bind_envelope-Ends fresh now (or_row-Read m now live) live) (λ f. (live, tt))

  record_votes-Ends :
      (m : Mission) (db : MissionStore)
      → Live q.mission_id start db
      → Ends host codec q opening between clock token start
          (record_votes host codec q opening between clock token m db)
  unfolding record_votes perform
  record_votes-Ends m db u =
      let r = record_council host codec q opening between clock token db in
      let label = codec.label (codes "CouncilShadow") in
      let logged =
        perform-Live
          (event (clock 4)
            (new_event host codec q token opening label (codec.votes opening.council)))
          (run (between 4) db) (run-Live (between 4) db u) in
      if-Ends host codec q opening between clock token start q.shadow_cognition
        (if is_some r.0
          then refresh host codec q opening between clock token m r.1
          else (raised, r.1))
        (refresh host codec q opening between clock token m db)
        (λ s.
          if-Ends host codec q opening between clock token start (is_some r.0)
            (refresh host codec q opening between clock token m r.1) (raised, r.1)
            (λ t. refresh-Ends m r.1 logged) (λ f. (logged, tt)))
        (λ l. refresh-Ends m db u)

  freeze-Ends :
      (m : Mission) (db : MissionStore)
      → Live q.mission_id start db
      → Ends host codec q opening between clock token start
          (freeze host codec q opening between clock token m db)
  unfolding freeze perform
  freeze-Ends m db u =
      let stored = store_projection host codec q opening between clock token db in
      let held =
        perform-Live (artifact (clock 2) (new_artifact host codec q token opening))
          (run (between 2) db) (run-Live (between 2) db u) in
      let r = record_freeze host codec q opening between clock token stored.1 in
      let label = codec.label (codes "CandidateFrozen") in
      let logged =
        perform-Live
          (event (clock 3) (
            new_event host codec q token opening label
              (codec.text_id (digest host codec q token opening))))
          (run (between 3) stored.1) (run-Live (between 3) stored.1 held) in
      if-Ends host codec q opening between clock token start (is_some stored.0)
        (if is_some r.0
          then record_votes host codec q opening between clock token m r.1
          else (raised, r.1))
        (raised, stored.1)
        (λ t.
          if-Ends host codec q opening between clock token start (is_some r.0)
            (record_votes host codec q opening between clock token m r.1) (raised, r.1)
            (λ w. record_votes-Ends m r.1 logged) (λ l. (logged, tt)))
        (λ f. (held, tt))

  renew-Ends :
      (m : Mission) (db : MissionStore)
      → Live q.mission_id start db
      → Ends host codec q opening between clock token start
          (renew host codec q opening between clock token m db)
  unfolding renew perform
  renew-Ends m db u =
      let r = renew_lease host codec q opening between clock token m db in
      let held =
        perform-Live
          (heartbeat (clock 1) q.mission_id token q.lease_generation
            (lease_ttl host codec q token opening m))
          (run (between 1) db) (run-Live (between 1) db u) in
      if-Ends host codec q opening between clock token start r.0
        (freeze host codec q opening between clock token m r.1) (lease_lost, r.1)
        (λ t. freeze-Ends m r.1 held) (λ f. (held, tt))

  pub own-Ends :
      (m : Mission) (db : MissionStore)
      → Live q.mission_id start db
      → Ends host codec q opening between clock token start
          (own host codec q opening between clock token m db)
  unfolding own
  own-Ends m db u =
      if-Ends host codec q opening between clock token start
        (is_worker_of q.lease_generation token m && not (token == 0))
        (renew host codec q opening between clock token m db) (lease_lost, db)
        (λ t. renew-Ends m db u) (λ f. (u, tt))
