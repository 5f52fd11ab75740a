-- ===== src/Missions/Creation.antt =====
-- Missions that are created can be loaded, and creation forgets no open mission.
use grok_mcp_server.Base.{
  ℕ, ◌≡◌, refl, none, some, List, [], ◌∷◌, ◌++◌, Bool, true, false, arith, Bool-cases, Option-cases,
  inl, inr,
}
use grok_mcp_server.Base.Tables.{fetch_one, delete_where}
use grok_mcp_server.Base.Tables.Keys.{IsKeyed, IsKeyed-append, IsKeyed-delete_where}
use grok_mcp_server.Missions.Status.{is_terminal}
use grok_mcp_server.Missions.State.{Mission, MissionStore, has_mission_id, load_mission}
use grok_mcp_server.Missions.Lease.{
  NewMission, collides, created_mission, is_expired_mission, prune_missions, create_mission,
}

-- A row that is appended under a new key, or stood in the table, and survives the retention.
appended-found :
    (id : ℕ) (gone : Mission → Bool) (x : Mission) (ms : List Mission)
    → fetch_one (has_mission_id id) ms ≡ none
    → has_mission_id id x ≡ true
    → gone x ≡ false
    → fetch_one (has_mission_id id) (delete_where gone (ms ++ x ∷ [])) ≡ some x
appended-found id gone x [] h mine kept = ground (arith, mine, kept)
appended-found id gone x (m ∷ ms) h mine kept =
    ground (arith, h, appended-found id gone x ms (ground (arith, h)) mine kept)

other-found :
    (id : ℕ) (gone : Mission → Bool) (x r : Mission) (ms : List Mission)
    → fetch_one (has_mission_id id) ms ≡ some r
    → gone r ≡ false
    → fetch_one (has_mission_id id) (delete_where gone (ms ++ x ∷ [])) ≡ some r
other-found id gone x r [] h kept = cc
other-found id gone x r (m ∷ ms) h kept = elim (Bool-cases (has_mission_id id m)) [
  | inl mine ↦ let same : m ≡ r = ground (arith, h, mine) in ground (arith, mine, same, kept)
  | inr other ↦
      let rest = other-found id gone x r ms (rw other at h) kept in ground (arith, other, rest)
]

no_collision-id :
    (n : NewMission) (ms : List Mission)
    → fetch_one (collides n) ms ≡ none
    → fetch_one (has_mission_id n.mission_id) ms ≡ none
no_collision-id n [] h = refl
no_collision-id n (m ∷ ms) h = ground (arith, h, no_collision-id n ms)

-- What a creation that succeeds found and left.
pub record Created (now : ℕ) (first : List (ℕ × ℕ)) (n : NewMission) (db db' : MissionStore)
    : Type 0 where
  -- No mission had the id, the job or the token,
  pub free : fetch_one (collides n) db.missions ≡ none
  -- the new id loads the new row,
  pub loads : load_mission n.mission_id db' ≡ some (created_mission now first n)
  -- and the ids stay unique.
  pub keyed : IsKeyed (λ (m : Mission). m.mission_id) db'.missions

module _ (now cutoff : ℕ) (first : List (ℕ × ℕ)) (n : NewMission) where
  after_creation : MissionStore → MissionStore
  after_creation db =
      prune_missions cutoff
        (record db { missions = db.missions ++ created_mission now first n ∷ [] })

  creation-wrote :
      (db db' : MissionStore)
      → create_mission now cutoff first n db ≡ some db'
      → (fetch_one (collides n) db.missions ≡ none) × (after_creation db ≡ db')
  unfolding create_mission after_creation
  creation-wrote db db' h = elim (Option-cases (fetch_one (collides n) db.missions)) [
    | inr (m, taken) ↦ cc (rw (taken, create_mission) at h)
    | inl free ↦ (free, cc (rw (free, create_mission) at h))
  ]

-- In a store with unique mission ids, when a creation succeeds, no mission had its id, its job or
-- its token; the store then loads the new row under its id, and the ids are unique.
pub create_mission-Created :
    (now cutoff : ℕ) (first : List (ℕ × ℕ)) (n : NewMission) (db db' : MissionStore)
    → IsKeyed (λ m. m.mission_id) db.missions
    → create_mission now cutoff first n db ≡ some db'
    → Created now first n db db'
unfolding after_creation prune_missions
create_mission-Created now cutoff first n db db' keyed h =
    let (free, wrote) = creation-wrote now cutoff first n db db' h in
    let x = created_mission now first n in
    let gone = is_expired_mission cutoff in
    let unseen = no_collision-id n db.missions free in
    rw (← wrote) (record {
      free = free;
      loads = appended-found n.mission_id gone x db.missions unseen (ground arith) (ground arith);
      keyed =
          IsKeyed-delete_where (λ m. m.mission_id) gone (db.missions ++ x ∷ [])
            (IsKeyed-append (λ m. m.mission_id) db.missions x unseen keyed);
    })

-- A creation that succeeds, with the retention pass that ends it, keeps each mission that is not
-- terminal as it was.
pub create_mission-keeps :
    (now cutoff id : ℕ) (first : List (ℕ × ℕ)) (n : NewMission) (m : Mission)
    (db db' : MissionStore)
    → create_mission now cutoff first n db ≡ some db'
    → load_mission id db ≡ some m
    → is_terminal m.status ≡ false
    → load_mission id db' ≡ some m
unfolding after_creation prune_missions
create_mission-keeps now cutoff id first n m db db' h found live =
    let (_, wrote) = creation-wrote now cutoff first n db db' h in
    rw (← wrote) (
      other-found id (is_expired_mission cutoff) (created_mission now first n) m db.missions found
        (ground (arith, live)))
