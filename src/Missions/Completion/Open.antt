-- ===== src/Missions/Completion/Open.antt =====
-- The calls that complete no mission.
use grok_mcp_server.Base.{
  ℕ, ◌+◌, ◌≡◌, max, refl, sym, ◌∙◌, subst, ap, Option, some, Bool, arith, Bool-cases, Option-cases,
  ◌⊎◌, inl, inr, if◌then◌else◌,
}
use grok_mcp_server.Base.Tables.{update_where, fetch_one}
use grok_mcp_server.Base.Tables.Keys.{fetch_one-update_where}
use grok_mcp_server.Missions.Status.{
  MissionStatus, queued, running, verifying, complete, failed, waiting_event, waiting_timer,
  dormant, escalated, budget_exhausted, cancelled, legal_transition,
}
use grok_mcp_server.Missions.State.{Mission, MissionStore, has_mission_id, load_mission}
use grok_mcp_server.Missions.Lease.{
  status_when_claimed, is_claimable, claimed, claim_mission, is_owned, extended, heartbeat_mission,
  is_owned_live, bound_to_envelope, version_or_one, touch_mission_envelope,
}
use grok_mcp_server.Missions.Cas.{Requeue, is_requeueable, requeued, requeue_expired_mission}
use grok_mcp_server.Missions.Records.{NewEvent, at_cursor, append_mission_event}
use grok_mcp_server.Missions.Sweep.{sweep_expired_leases}
use grok_mcp_server.Missions.Sweep.Recovery.{Swept, kept, moved, sweep_expired_leases-recovers}

-- Between the two stores the mission does not become complete.
abbrev pub StaysOpen : ℕ → MissionStore → MissionStore → Type 0
StaysOpen id db db' =
    (m m' : Mission)
    → load_mission id db ≡ some m
    → load_mission id db' ≡ some m'
    → m'.status ≡ complete
    → m.status ≡ complete

pub same-StaysOpen :
    (id : ℕ) (db db' : MissionStore) → db'.missions ≡ db.missions → StaysOpen id db db'
same-StaysOpen id db db' same m m' found found' done =
    let again : load_mission id db ≡ some m' = rw (← same) found' in
    let equal : m ≡ m' = cc in ap (λ (x : Mission). x.status) equal ∙ done

-- The row that is loaded after an update.
pub update-row :
    (id : ℕ) (test : Mission → Bool) (change : Mission → Mission) (db : MissionStore)
    (m m' : Mission)
    → ((x : Mission) → (change x).mission_id ≡ x.mission_id)
    → load_mission id db ≡ some m
    → fetch_one (has_mission_id id) (update_where test change db.missions) ≡ some m'
    → m' ≡ (if test m then change m else m)
update-row id test change db m m' ids found found' =
    let t = fetch_one-update_where (λ x. x.mission_id) test change (λ x h. ids x) id db.missions in
    let t' : fetch_one (has_mission_id id) (update_where test change db.missions)
        ≡ some (if test m then change m else m) =
      t ∙ rw found refl in
    cc

update-StaysOpen :
    (id : ℕ) (test : Mission → Bool) (change : Mission → Mission) (db db' : MissionStore)
    → ((x : Mission) → (change x).mission_id ≡ x.mission_id)
    → ((x : Mission) → (change x).status ≡ complete → x.status ≡ complete)
    → db'.missions ≡ update_where test change db.missions
    → StaysOpen id db db'
update-StaysOpen id test change db db' ids safe wrote m m' found found' done =
    let row = update-row id test change db m m' ids found (rw wrote at found') in
    elim (Bool-cases (test m)) [
      | inl t ↦ safe m (ap (λ (x : Mission). x.status) (sym (rw t at row)) ∙ done)
      | inr f ↦ ap (λ (x : Mission). x.status) (sym (rw f at row)) ∙ done
    ]

claim-open : (s : MissionStatus) → status_when_claimed s ≡ complete → s ≡ complete
claim-open queued h = cc
claim-open running h = cc
claim-open verifying h = cc
claim-open complete h = refl
claim-open failed h = cc
claim-open waiting_event h = cc
claim-open waiting_timer h = cc
claim-open dormant h = cc
claim-open escalated h = cc
claim-open budget_exhausted h = cc
claim-open cancelled h = cc

pub claim_mission-StaysOpen :
    (id now i token ttl : ℕ) (expect : Option ℕ) (db : MissionStore)
    → StaysOpen id db (claim_mission now i token ttl expect db).1
unfolding claim_mission claimed
claim_mission-StaysOpen id now i token ttl expect db =
    elim (Option-cases (fetch_one (is_claimable now i token expect) db.missions)) [
      | inl missing ↦
          same-StaysOpen id db (claim_mission now i token ttl expect db).1
            (rw (missing, claim_mission) refl)
      | inr (m, found) ↦
          update-StaysOpen id (is_claimable now i token expect) (claimed now token ttl expect) db
            (claim_mission now i token ttl expect db).1 (λ x. refl) (λ x. claim-open x.status)
            (rw (found, claim_mission) refl)
    ]

pub heartbeat_mission-StaysOpen :
    (id now i token g ttl : ℕ) (db : MissionStore)
    → StaysOpen id db (heartbeat_mission now i token g ttl db).1
unfolding heartbeat_mission extended
heartbeat_mission-StaysOpen id now i token g ttl db =
    update-StaysOpen id (is_owned i token g) (extended now ttl) db
      (heartbeat_mission now i token g ttl db).1 (λ x. refl) (λ x h. h) refl

pub touch_mission_envelope-StaysOpen :
    (id now i version token g : ℕ) (db : MissionStore)
    → StaysOpen id db (touch_mission_envelope now i version token g db).1
unfolding touch_mission_envelope bound_to_envelope
touch_mission_envelope-StaysOpen id now i version token g db =
    elim (Option-cases (fetch_one (is_owned_live i token g) db.missions)) [
      | inl missing ↦
          same-StaysOpen id db (touch_mission_envelope now i version token g db).1
            (rw (missing, touch_mission_envelope) refl)
      | inr (m, found) ↦
          update-StaysOpen id (is_owned_live i token g)
            (bound_to_envelope now (max (version_or_one m.envelope_version) version) m.package_json)
            db (touch_mission_envelope now i version token g db).1 (λ x. refl) (λ x h. h)
            (rw (found, touch_mission_envelope) refl)
    ]

pub requeue_expired_mission-StaysOpen :
    (id now : ℕ) (q : Requeue) (db : MissionStore)
    → StaysOpen id db (requeue_expired_mission now q db).1
unfolding requeue_expired_mission requeued
requeue_expired_mission-StaysOpen id now q db =
    elim (Bool-cases (legal_transition q.expect_status queued)) [
      | inr illegal ↦
          same-StaysOpen id db (requeue_expired_mission now q db).1
            (rw (illegal, requeue_expired_mission) refl)
      | inl legal ↦
          update-StaysOpen id (is_requeueable now q) (requeued now) db
            (requeue_expired_mission now q db).1 (λ x. refl) (λ x h. cc)
            (rw (legal, requeue_expired_mission) refl)
    ]

append_mission_event-rows :
    (now : ℕ) (n : NewEvent) (db : MissionStore)
    → ((append_mission_event now n db).1.missions ≡ db.missions)
      ⊎ ((append_mission_event now n db).1.missions
          ≡ update_where
              (has_mission_id n.mission_id)
              (at_cursor now (db.event_sequence + 1))
              db.missions)
unfolding append_mission_event
append_mission_event-rows now n db = ground arith

pub append_mission_event-StaysOpen :
    (id now : ℕ) (n : NewEvent) (db : MissionStore)
    → StaysOpen id db (append_mission_event now n db).1
append_mission_event-StaysOpen id now n db = elim (append_mission_event-rows now n db) [
  | inl same ↦ same-StaysOpen id db (append_mission_event now n db).1 same
  | inr wrote ↦
      update-StaysOpen id (has_mission_id n.mission_id) (at_cursor now (db.event_sequence + 1)) db
        (append_mission_event now n db).1 (λ x. refl) (λ x h. h) wrote
]

requeued-open : (now : ℕ) (m : Mission) → (requeued now m).status ≡ queued
unfolding requeued
requeued-open now m = refl

swept-open : (m m' : Mission) → Swept m m' → m'.status ≡ complete → m.status ≡ complete
swept-open m m' kept done = done
swept-open m m' (moved now expiry free legal held late) done = let back = requeued-open now m in cc

pub sweep_expired_leases-StaysOpen :
    (id now limit : ℕ) (clock : Mission → ℕ) (db : MissionStore)
    → StaysOpen id db (sweep_expired_leases now clock limit db).1
sweep_expired_leases-StaysOpen id now limit clock db m m' found found' done =
    let (x, stored, how) = sweep_expired_leases-recovers now limit id clock m db found in
    let same : x ≡ m' = cc in swept-open m m' (subst (λ y. Swept m y) same how) done
