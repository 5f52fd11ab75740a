-- ===== src/Missions/Fencing.antt =====
-- The fence: a worker that acts under a lease generation which its mission has left behind.
use grok_mcp_server.Base.{
  ℕ, ◌+◌, ◌≤◌, ◌<◌, ◌≡◌, refl, Option, none, some, List, [], ◌∷◌, Bool, true, false, arith,
  Bool-cases, Option-cases, inl, inr, ==_iff, ◌==◌, &&-true,
}
use grok_mcp_server.Base.Tables.{fetch_one}
use grok_mcp_server.Base.Tables.Laws.{
  fetch_one-All, fetch_one-passes, count_where-none, update_where-none,
}
use grok_mcp_server.Base.Tables.Keys.{IsKeyed, IsKeyed-All}
use grok_mcp_server.Missions.Status.{has_status}
use grok_mcp_server.Missions.State.{
  Mission, MissionStore, has_mission_id, update_missions, changed_one, load_mission,
}
use grok_mcp_server.Missions.Lease.{
  is_owned, heartbeat_mission, is_owned_live, touch_mission_envelope,
}
use grok_mcp_server.Missions.Cas.{
  CasRequest, Requeue, is_swappable, expects, swap_loaded, cas_mission_status, is_requeueable,
  requeued, requeue_expired_mission,
}
use grok_mcp_server.Missions.Records.{
  NewEvent, append_mission_event, NewArtifact, put_mission_artifact, NewEvidence,
  append_mission_evidence, NewSideEffect, put_mission_side_effect, passes_fence,
}
use grok_mcp_server.Missions.Calls.{
  Call, claim, heartbeat, touch, swap, requeue, event, artifact, proof, side_effect, sweep, perform,
  run,
}
use grok_mcp_server.Missions.Evolution.Rows.{IsPast, Tables-IsPast}
use grok_mcp_server.Missions.Evolution.Operations.{run-Tables}

-- The call acts for the mission under the lease generation; an event or an artifact does when it
-- names the generation, and claims and sweeps never do.
abbrev pub ActsUnder : (id generation : ℕ) → Call → Type 0
ActsUnder id g (claim now i token ttl expect) = ⊥
ActsUnder id g (heartbeat now i token generation ttl) = (i ≡ id) × (generation ≡ g)
ActsUnder id g (touch now i version token generation) = (i ≡ id) × (generation ≡ g)
ActsUnder id g (swap now q) = (q.mission_id ≡ id) × (q.expect_lease_generation ≡ g)
ActsUnder id g (requeue now q) = (q.mission_id ≡ id) × (q.expect_lease_generation ≡ g)
ActsUnder id g (event now n) = (n.mission_id ≡ id) × (n.lease_generation ≡ some g)
ActsUnder id g (artifact now n) = (n.mission_id ≡ id) × (n.lease_generation ≡ some g)
ActsUnder id g (proof now n) = (n.mission_id ≡ id) × (n.lease_generation ≡ g)
ActsUnder id g (side_effect now n) = (n.mission_id ≡ id) × (n.lease_generation ≡ g)
ActsUnder id g (sweep now clock limit) = ⊥

module _ (id g : ℕ) (db : MissionStore) (past : IsPast id g db.missions) where
  -- A statement whose WHERE clause names the generation finds no row.
  module _ (test : Mission → Bool)
      (names : (m : Mission) → test m ≡ true → (m.mission_id ≡ id) × (m.lease_generation ≡ g)) where
    none_found : (ms : List Mission) → IsPast id g ms → fetch_one test ms ≡ none
    none_found [] p = refl
    none_found (m ∷ ms) p = elim (Bool-cases (test m)) [
      | inl t ↦ let (mine, same) = names m t in absurd (omega (arith, p.0 mine, same))
      | inr f ↦ rw f (none_found ms p.1)
    ]

    update_refused :
        (change : Mission → Mission)
        → (changed_one test db ≡ false) × (update_missions test change db ≡ db)
    update_refused change =
        let missing = none_found db.missions past in
        (
          rw (count_where-none test db.missions missing) refl,
          rw (update_where-none test change db.missions missing) refl,
        )

  past_generation : (m : Mission) → load_mission id db ≡ some m → g + 1 ≤ m.lease_generation
  past_generation m found =
      fetch_one-All (λ x. x.mission_id ≡ id → g + 1 ≤ x.lease_generation) (has_mission_id id)
        db.missions found past
        ((==_iff m.mission_id id).0 (fetch_one-passes (has_mission_id id) db.missions found))

is_owned-names :
    (i token g : ℕ) (m : Mission)
    → is_owned i token g m ≡ true
    → (m.mission_id ≡ i) × (m.lease_generation ≡ g)
is_owned-names i token g m h = ground (arith, h)

swappable-names :
    (q : CasRequest) (m : Mission)
    → is_swappable q m ≡ true
    → (m.mission_id ≡ q.mission_id) × (m.lease_generation ≡ q.expect_lease_generation)
swappable-names q m h =
    let (mine, rest) = &&-true (has_mission_id q.mission_id m) _ h in
    let (seen, _) = &&-true (expects q m) _ rest in
    let (_, fence) = &&-true (has_status m.status q.expect_status) _ seen in
    let (_, generation) = &&-true (m.checkpoint_version == q.expect_version) _ fence in
    (
      (==_iff m.mission_id q.mission_id).0 mine,
      (==_iff m.lease_generation q.expect_lease_generation).0 generation,
    )

requeueable-names :
    (now : ℕ) (q : Requeue) (m : Mission)
    → is_requeueable now q m ≡ true
    → (m.mission_id ≡ q.mission_id) × (m.lease_generation ≡ q.expect_lease_generation)
requeueable-names now q m h =
    let (mine, rest) = &&-true (has_mission_id q.mission_id m) _ h in
    let (_, fence) = &&-true (has_status m.status q.expect_status) _ rest in
    let (_, held) = &&-true (m.checkpoint_version == q.expect_version) _ fence in
    let (generation, _) = &&-true (m.lease_generation == q.expect_lease_generation) _ held in
    (
      (==_iff m.mission_id q.mission_id).0 mine,
      (==_iff m.lease_generation q.expect_lease_generation).0 generation,
    )

-- The store turns the call down and stays as it is.
abbrev pub IsRefused : Call → MissionStore → Type 0
IsRefused c db = ((perform c db).0 ≡ false) × ((perform c db).1 ≡ db)

heartbeat-IsRefused :
    (now id token g ttl : ℕ) (db : MissionStore)
    → IsPast id g db.missions
    → IsRefused (heartbeat now id token g ttl) db
unfolding perform heartbeat_mission
heartbeat-IsRefused now id token g ttl db past =
    update_refused id g db past (is_owned id token g) (is_owned-names id token g) _

touch-IsRefused :
    (now id version token g : ℕ) (db : MissionStore)
    → IsPast id g db.missions
    → IsRefused (touch now id version token g) db
unfolding perform touch_mission_envelope
touch-IsRefused now id version token g db past =
    let missing =
      none_found id g db past (is_owned_live id token g)
        (λ m h. is_owned-names id token g m (&&-true (is_owned id token g m) _ h).0) db.missions
        past in
    rw (missing, touch_mission_envelope, perform) (refl, refl)

swap-IsRefused :
    (now : ℕ) (q : CasRequest) (db : MissionStore)
    → IsPast q.mission_id q.expect_lease_generation db.missions
    → IsRefused (swap now q) db
unfolding perform cas_mission_status swap_loaded
swap-IsRefused now q db past = elim (Option-cases (load_mission q.mission_id db)) [
  | inl missing ↦ ground (arith, missing)
  | inr (m, found) ↦
      let g = past_generation q.mission_id q.expect_lease_generation db past m found in
      let other : (m.lease_generation == q.expect_lease_generation) ≡ false = ground (arith, g) in
      ground (arith, found, other)
]

requeue-IsRefused :
    (now : ℕ) (q : Requeue) (db : MissionStore)
    → IsPast q.mission_id q.expect_lease_generation db.missions
    → IsRefused (requeue now q) db
unfolding perform requeue_expired_mission
requeue-IsRefused now q db past =
    let refused =
      update_refused q.mission_id q.expect_lease_generation db past (is_requeueable now q)
        (requeueable-names now q) (requeued now) in
    ground (arith, refused.0, refused.1)

fence-closed :
    (id g : ℕ) (token : Option ℕ) (db : MissionStore)
    → IsPast id g db.missions
    → passes_fence id token (some g) db ≡ false
fence-closed id g none db past = refl
fence-closed id g (some t) db past =
    rw (none_found id g db past (is_owned id t g) (is_owned-names id t g) db.missions past) refl

event-IsRefused :
    (now g : ℕ) (n : NewEvent) (db : MissionStore)
    → n.lease_generation ≡ some g
    → IsPast n.mission_id g db.missions
    → IsRefused (event now n) db
unfolding perform append_mission_event
event-IsRefused now g n db same past =
    let closed = fence-closed n.mission_id g n.lease_token db past in rw (same, closed) (refl, refl)

artifact-IsRefused :
    (now g : ℕ) (n : NewArtifact) (db : MissionStore)
    → n.lease_generation ≡ some g
    → IsPast n.mission_id g db.missions
    → IsRefused (artifact now n) db
unfolding perform put_mission_artifact
artifact-IsRefused now g n db same past =
    let closed = fence-closed n.mission_id g n.lease_token db past in rw (same, closed) (refl, refl)

proof-IsRefused :
    (now : ℕ) (n : NewEvidence) (db : MissionStore)
    → IsPast n.mission_id n.lease_generation db.missions
    → IsRefused (proof now n) db
unfolding perform append_mission_evidence
proof-IsRefused now n db past = elim (Option-cases (load_mission n.mission_id db)) [
  | inl missing ↦ ground (arith, missing)
  | inr (m, found) ↦
      let g = past_generation n.mission_id n.lease_generation db past m found in
      let other : (m.lease_generation == n.lease_generation) ≡ false = ground (arith, g) in
      ground (arith, found, other)
]

side_effect-IsRefused :
    (now : ℕ) (n : NewSideEffect) (db : MissionStore)
    → IsPast n.mission_id n.lease_generation db.missions
    → IsRefused (side_effect now n) db
unfolding perform put_mission_side_effect
side_effect-IsRefused now n db past = elim (Option-cases (load_mission n.mission_id db)) [
  | inl missing ↦ ground (arith, missing)
  | inr (m, found) ↦
      let g = past_generation n.mission_id n.lease_generation db past m found in
      let other : (m.lease_generation == n.lease_generation) ≡ false = ground (arith, g) in
      ground (arith, found, other)
]

acting-IsRefused :
    (c : Call) (id g : ℕ) (db : MissionStore)
    → ActsUnder id g c
    → IsPast id g db.missions
    → IsRefused c db
acting-IsRefused (claim now i token ttl expect) id g db acts past = absurd acts
acting-IsRefused (heartbeat now i token h ttl) id g db acts past =
    heartbeat-IsRefused now i token h ttl db (rw (acts.0, acts.1) past)
acting-IsRefused (touch now i version token h) id g db acts past =
    touch-IsRefused now i version token h db (rw (acts.0, acts.1) past)
acting-IsRefused (swap now q) id g db acts past = swap-IsRefused now q db (rw (acts.0, acts.1) past)
acting-IsRefused (requeue now q) id g db acts past =
    requeue-IsRefused now q db (rw (acts.0, acts.1) past)
acting-IsRefused (event now n) id g db acts past =
    event-IsRefused now g n db acts.1 (rw (acts.0) past)
acting-IsRefused (artifact now n) id g db acts past =
    artifact-IsRefused now g n db acts.1 (rw (acts.0) past)
acting-IsRefused (proof now n) id g db acts past =
    proof-IsRefused now n db (rw (acts.0, acts.1) past)
acting-IsRefused (side_effect now n) id g db acts past =
    side_effect-IsRefused now n db (rw (acts.0, acts.1) past)
acting-IsRefused (sweep now clock limit) id g db acts past = absurd acts

-- In a store with unique mission ids, once a mission has left a lease generation behind, then whatever calls follow between two
-- retention passes, a call that acts for the mission under that generation is turned down and
-- leaves the whole store as it is.
pub stale_worker-IsRefused :
    (cs : List Call) (c : Call) (id g : ℕ) (m : Mission) (db : MissionStore)
    → IsKeyed (λ x. x.mission_id) db.missions
    → load_mission id db ≡ some m
    → g < m.lease_generation
    → ActsUnder id g c
    → IsRefused c (run cs db)
stale_worker-IsRefused cs c id g m db keyed found older acts =
    let past =
      IsKeyed-All (λ x. g + 1 ≤ x.lease_generation) (λ x. x.mission_id) id db.missions keyed found
        (omega (arith, older)) in
    acting-IsRefused c id g (run cs db) acts (Tables-IsPast id g (run-Tables cs db) past)
