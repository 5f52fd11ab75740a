-- ===== src/Missions/Completion.antt =====
-- How a mission comes to be complete.
mod Open
use grok_mcp_server.Base.{
  ℕ, ◌+◌, ◌≤◌, ◌≡◌, ◌≢◌, max, refl, sym, ◌∙◌, subst, ap, Option, none, some, List, [], ◌∷◌, Bool,
  true, false, not, ◌&&◌, arith, Bool-cases, Option-cases, ◌⊎◌, inl, inr, if◌then◌else◌, ==_iff,
  ◌==◌, &&-true,
}
use grok_mcp_server.Base.Tables.{update_where, fetch_one}
use grok_mcp_server.Base.Tables.Laws.{fetch_one-passes}
use grok_mcp_server.Base.Tables.Keys.{fetch_one-update_where}
use grok_mcp_server.Missions.Status.{
  MissionStatus, queued, running, verifying, complete, failed, waiting_event, waiting_timer,
  dormant, escalated, budget_exhausted, cancelled, has_status, has_status-true, legal_transition,
}
use grok_mcp_server.Missions.State.{Mission, MissionStore, has_mission_id, load_mission}
use grok_mcp_server.Missions.Lease.{
  status_when_claimed, is_claimable, claimed, claim_mission, is_owned, extended, heartbeat_mission,
  is_owned_live, bound_to_envelope, version_or_one, touch_mission_envelope,
}
use grok_mcp_server.Missions.Cas.{
  CasRequest, Requeue, expects, token_matches, is_swappable, swapped, swap_row, swap_loaded,
  close_job, cas_mission_status, is_requeueable, requeued, requeue_expired_mission,
}
use grok_mcp_server.Missions.Records.{
  NewEvent, at_cursor, append_mission_event, put_mission_artifact, append_mission_evidence,
  put_mission_side_effect,
}
use grok_mcp_server.Missions.Sweep.{sweep_expired_leases}
use grok_mcp_server.Missions.Sweep.Recovery.{Swept, kept, moved, sweep_expired_leases-recovers}
use grok_mcp_server.Missions.Calls.{
  Call, claim, heartbeat, touch, swap, requeue, event, artifact, proof, side_effect, sweep, perform,
}
use grok_mcp_server.Missions.Evolution.Operations.{
  put_mission_artifact-same, append_mission_evidence-same, put_mission_side_effect-same,
}
use Open.{
  same-StaysOpen, update-row, claim_mission-StaysOpen, heartbeat_mission-StaysOpen,
  touch_mission_envelope-StaysOpen, requeue_expired_mission-StaysOpen,
  append_mission_event-StaysOpen, sweep_expired_leases-StaysOpen,
}

legal-complete : (s : MissionStatus) → legal_transition s complete ≡ true → s ≡ verifying
unfolding legal_transition
legal-complete queued h = cc
legal-complete running h = cc
legal-complete verifying h = refl
legal-complete complete h = cc
legal-complete failed h = cc
legal-complete waiting_event h = cc
legal-complete waiting_timer h = cc
legal-complete dormant h = cc
legal-complete escalated h = cc
legal-complete budget_exhausted h = cc
legal-complete cancelled h = cc

-- The swap that completes a mission.
pub record Completes (id : ℕ) (m : Mission) (c : Call) : Type 0 where
  pub now : ℕ
  pub request : CasRequest
  pub call : c ≡ swap now request
  pub names : request.mission_id ≡ id
  pub verified : m.status ≡ verifying
  pub version : request.expect_version ≡ m.checkpoint_version
  pub generation : request.expect_lease_generation ≡ m.lease_generation
  pub holder : token_matches request.expect_lease_token m ≡ true

cas_mission_status-rows :
    (now : ℕ) (q : CasRequest) (db : MissionStore)
    → ((cas_mission_status now q db).1.missions ≡ db.missions)
      ⊎ (legal_transition q.expect_status q.new_status ≡ true)
        × (read : Mission) × ((cas_mission_status now q db).1.missions
            ≡ update_where (is_swappable q) (swapped now q read) db.missions)
unfolding cas_mission_status swap_loaded swap_row close_job
cas_mission_status-rows now q db =
    elim (Bool-cases (legal_transition q.expect_status q.new_status)) [
      | inr illegal ↦ inl (rw (illegal, cas_mission_status) refl)
      | inl legal ↦ elim (Option-cases (load_mission q.mission_id db)) [
        | inl missing ↦ inl (rw (legal, missing, cas_mission_status) refl)
        | inr (m, found) ↦ elim (Bool-cases (expects q m)) [
          | inr stale ↦ inl (ground (arith, legal, found, stale))
          | inl seen ↦ inr (legal, m, ground (arith, legal, found, seen))
        ]
      ]
    ]

swapped-id :
    (now : ℕ) (q : CasRequest) (read m : Mission) → (swapped now q read m).mission_id ≡ m.mission_id
unfolding swapped
swapped-id now q read m = refl

swapped-status :
    (now : ℕ) (q : CasRequest) (read m : Mission) → (swapped now q read m).status ≡ q.new_status
unfolding swapped
swapped-status now q read m = refl

swappable-Completes :
    (id now : ℕ) (q : CasRequest) (m : Mission)
    → legal_transition q.expect_status q.new_status ≡ true
    → is_swappable q m ≡ true
    → has_mission_id id m ≡ true
    → q.new_status ≡ complete
    → Completes id m (swap now q)
swappable-Completes id now q m legal passes mine done =
    let (named, rest) = &&-true (has_mission_id q.mission_id m) _ passes in
    let (seen, holder) = &&-true (expects q m) _ rest in
    let (status, fence) = &&-true (has_status m.status q.expect_status) _ seen in
    let (version, generation) = &&-true (m.checkpoint_version == q.expect_version) _ fence in
    let from =
      legal-complete q.expect_status
        (subst (λ s. legal_transition q.expect_status s ≡ true) done legal) in
    record {
      now = now;
      request = q;
      call = refl;
      names = sym ((==_iff m.mission_id q.mission_id).0 named) ∙ (==_iff m.mission_id id).0 mine;
      verified = has_status-true m.status q.expect_status status ∙ from;
      version = sym ((==_iff m.checkpoint_version q.expect_version).0 version);
      generation = sym ((==_iff m.lease_generation q.expect_lease_generation).0 generation);
      holder = holder;
    }

swap-Completes :
    (id now : ℕ) (q : CasRequest) (db : MissionStore) (m m' : Mission)
    → load_mission id db ≡ some m
    → load_mission id (cas_mission_status now q db).1 ≡ some m'
    → m.status ≢ complete
    → m'.status ≡ complete
    → Completes id m (swap now q)
swap-Completes id now q db m m' found found' open_before done =
    elim (cas_mission_status-rows now q db) [
      | inl same ↦ absurd (
          open_before
            (same-StaysOpen id db (cas_mission_status now q db).1 same m m' found found' done))
      | inr (legal, read, wrote) ↦
          let row =
            update-row id (is_swappable q) (swapped now q read) db m m' (swapped-id now q read)
              found (rw wrote at found') in
          elim (Bool-cases (is_swappable q m)) [
            | inr other ↦
                absurd (open_before (ap (λ (x : Mission). x.status) (sym (rw other at row)) ∙ done))
            | inl passes ↦
                swappable-Completes id now q m legal passes
                  (fetch_one-passes (has_mission_id id) db.missions found)
                  (sym (swapped-status now q read m)
                    ∙ ap (λ (x : Mission). x.status) (sym (rw passes at row))
                    ∙ done)
          ]
    ]

-- A call that takes a mission from another status to complete is a swap of this mission which
-- expects its checkpoint version, its lease generation and, where it names one, its token, and the
-- mission was being verified.
pub perform-Completes :
    (c : Call) (id : ℕ) (db : MissionStore) (m m' : Mission)
    → load_mission id db ≡ some m
    → load_mission id (perform c db).1 ≡ some m'
    → m.status ≢ complete
    → m'.status ≡ complete
    → Completes id m c
unfolding perform
perform-Completes (claim now i token ttl expect) id db m m' found found' ne done =
    absurd (ne (claim_mission-StaysOpen id now i token ttl expect db m m' found found' done))
perform-Completes (heartbeat now i token g ttl) id db m m' found found' ne done =
    absurd (ne (heartbeat_mission-StaysOpen id now i token g ttl db m m' found found' done))
perform-Completes (touch now i version token g) id db m m' found found' ne done =
    absurd
      (ne (touch_mission_envelope-StaysOpen id now i version token g db m m' found found' done))
perform-Completes (swap now q) id db m m' found found' ne done =
    swap-Completes id now q db m m' found found' ne done
perform-Completes (requeue now q) id db m m' found found' ne done =
    absurd (ne (requeue_expired_mission-StaysOpen id now q db m m' found found' done))
perform-Completes (event now n) id db m m' found found' ne done =
    absurd (ne (append_mission_event-StaysOpen id now n db m m' found found' done))
perform-Completes (artifact now n) id db m m' found found' ne done = absurd (
    ne (
      same-StaysOpen id db (put_mission_artifact now n db).1 (put_mission_artifact-same now n db) m
        m' found found' done))
perform-Completes (proof now n) id db m m' found found' ne done = absurd (
    ne (
      same-StaysOpen id db (append_mission_evidence now n db).1
        (append_mission_evidence-same now n db) m m' found found' done))
perform-Completes (side_effect now n) id db m m' found found' ne done = absurd (
    ne (
      same-StaysOpen id db (put_mission_side_effect now n db).1
        (put_mission_side_effect-same now n db) m m' found found' done))
perform-Completes (sweep now clock limit) id db m m' found found' ne done =
    absurd (ne (sweep_expired_leases-StaysOpen id now limit clock db m m' found found' done))
