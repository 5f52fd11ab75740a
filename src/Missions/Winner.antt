-- ===== src/Missions/Winner.antt =====
-- The compare-and-swap of a mission's status: what a success writes, and that it is the only one.
use grok_mcp_server.Base.{
  ℕ, ◌+◌, ◌≤◌, ◌≡◌, refl, sym, ◌∙◌, subst, Option, none, some, List, Bool, true, false, arith,
  Bool-cases, Option-cases, inl, inr, if◌then◌else◌, ==_iff, ◌==◌, &&-true,
}
use grok_mcp_server.Base.Tables.{update_where, count_where, fetch_one}
use grok_mcp_server.Base.Tables.Laws.{fetch_one-All, fetch_one-passes, count_where-none}
use grok_mcp_server.Base.Tables.Keys.{IsKeyed, IsKeyed-All, fetch_one-update_where}
use grok_mcp_server.Missions.Status.{has_status, has_status-true, is_terminal, legal_transition}
use grok_mcp_server.Missions.State.{
  Mission, MissionStore, has_mission_id, changed_one, load_mission,
}
use grok_mcp_server.Missions.Cas.{
  CasRequest, expects, token_matches, is_swappable, swapped, swap_row, close_job, swap_loaded,
  cas_mission_status,
}
use grok_mcp_server.Missions.Calls.{Call, swap, perform, run}
use grok_mcp_server.Missions.Evolution.Operations.{run-Evolves}
use grok_mcp_server.Missions.Fencing.{IsRefused}

-- A row that passes a test on an id is the row that the id loads.
pub loaded-passes :
    (id : ℕ) (test : Mission → Bool) (db : MissionStore) (x m : Mission)
    → ((y : Mission) → test y ≡ true → y.mission_id ≡ id)
    → IsKeyed (λ y. y.mission_id) db.missions
    → fetch_one test db.missions ≡ some x
    → load_mission id db ≡ some m
    → x ≡ m
loaded-passes id test db x m mine keyed passed found =
    let only = IsKeyed-All (λ y. y ≡ m) (λ y. y.mission_id) id db.missions keyed found refl in
    fetch_one-All (λ y. y.mission_id ≡ id → y ≡ m) test db.missions passed only
      (mine x (fetch_one-passes test db.missions passed))

-- What a swap that succeeds read, and what the store loads after it.
pub record CasEffect (now : ℕ) (q : CasRequest) (db db' : MissionStore) : Type 0 where
  pub row : Mission
  pub found : load_mission q.mission_id db ≡ some row
  pub legal : legal_transition q.expect_status q.new_status ≡ true
  pub status : row.status ≡ q.expect_status
  pub version : row.checkpoint_version ≡ q.expect_version
  pub generation : row.lease_generation ≡ q.expect_lease_generation
  pub holder : token_matches q.expect_lease_token row ≡ true
  pub stored : load_mission q.mission_id db' ≡ some (swapped now q row row)
  pub jobs :
      db'.jobs
      ≡ (if is_terminal q.new_status then close_job now row.job_id q.new_status db else db).jobs

swappable-id :
    (q : CasRequest) (m : Mission) → is_swappable q m ≡ true → m.mission_id ≡ q.mission_id
swappable-id q m h =
    (==_iff m.mission_id q.mission_id).0 (&&-true (has_mission_id q.mission_id m) _ h).0

swapped-id :
    (now : ℕ) (q : CasRequest) (read m : Mission) → (swapped now q read m).mission_id ≡ m.mission_id
unfolding swapped
swapped-id now q read m = refl

swap_row-stored :
    (now : ℕ) (q : CasRequest) (read : Mission) (db : MissionStore)
    → load_mission q.mission_id db ≡ some read
    → is_swappable q read ≡ true
    → load_mission q.mission_id (swap_row now q read db).1 ≡ some (swapped now q read read)
unfolding swap_row close_job
swap_row-stored now q read db found passes =
    let t =
      fetch_one-update_where (λ m. m.mission_id) (is_swappable q) (swapped now q read)
        (λ m h. swapped-id now q read m) q.mission_id db.missions in
    let t' : fetch_one (has_mission_id q.mission_id)
          (update_where (is_swappable q) (swapped now q read) db.missions)
        ≡ some (swapped now q read read) =
      t ∙ rw (found, passes) refl in
    ground (arith, t')

swap_row-jobs :
    (now : ℕ) (q : CasRequest) (read : Mission) (db : MissionStore)
    → changed_one (is_swappable q) db ≡ true
    → (swap_row now q read db).1.jobs
      ≡ (if is_terminal q.new_status then close_job now read.job_id q.new_status db else db).jobs
unfolding swap_row close_job
swap_row-jobs now q read db won = ground (arith, won)

swap_row-won :
    (now : ℕ) (q : CasRequest) (read : Mission) (db : MissionStore)
    → (swap_row now q read db).0 ≡ true
    → changed_one (is_swappable q) db ≡ true
unfolding swap_row
swap_row-won now q read db won = won

won-passes :
    (q : CasRequest) (read : Mission) (db : MissionStore)
    → IsKeyed (λ m. m.mission_id) db.missions
    → load_mission q.mission_id db ≡ some read
    → changed_one (is_swappable q) db ≡ true
    → is_swappable q read ≡ true
won-passes q read db keyed found won =
    elim (Option-cases (fetch_one (is_swappable q) db.missions)) [
      | inl missing ↦
          let zero_rows = count_where-none (is_swappable q) db.missions missing in
          let one_row = (==_iff (count_where (is_swappable q) db.missions) 1).0 won in
          absurd (omega (arith, zero_rows, one_row))
      | inr (x, passed) ↦
          subst (λ y. is_swappable q y ≡ true)
            (loaded-passes q.mission_id (is_swappable q) db x read (swappable-id q) keyed passed
              found)
            (fetch_one-passes (is_swappable q) db.missions passed)
    ]

swapped-effect :
    (now : ℕ) (q : CasRequest) (read : Mission) (db : MissionStore)
    → IsKeyed (λ m. m.mission_id) db.missions
    → legal_transition q.expect_status q.new_status ≡ true
    → load_mission q.mission_id db ≡ some read
    → (swap_row now q read db).0 ≡ true
    → CasEffect now q db (swap_row now q read db).1
swapped-effect now q read db keyed legal found won =
    let one = swap_row-won now q read db won in
    let passes = won-passes q read db keyed found one in
    let (_, rest) = &&-true (has_mission_id q.mission_id read) _ passes in
    let (seen, holder) = &&-true (expects q read) _ rest in
    let (status, fence) = &&-true (has_status read.status q.expect_status) _ seen in
    let (version, generation) = &&-true (read.checkpoint_version == q.expect_version) _ fence in
    record {
      row = read;
      found = found;
      legal = legal;
      status = has_status-true read.status q.expect_status status;
      version = (==_iff read.checkpoint_version q.expect_version).0 version;
      generation = (==_iff read.lease_generation q.expect_lease_generation).0 generation;
      holder = holder;
      stored = swap_row-stored now q read db found passes;
      jobs = swap_row-jobs now q read db one;
    }

swap_loaded-won :
    (now : ℕ) (q : CasRequest) (o : Option Mission) (db : MissionStore)
    → (swap_loaded now q o db).0 ≡ true
    → (m : Mission) × (o ≡ some m) × (swap_loaded now q o db ≡ swap_row now q m db)
unfolding swap_loaded
swap_loaded-won now q none db won = cc
swap_loaded-won now q (some m) db won = elim (Bool-cases (expects q m)) [
  | inl seen ↦ (m, refl, rw seen refl)
  | inr stale ↦ cc (rw stale at won)
]

cas_mission_status-won :
    (now : ℕ) (q : CasRequest) (db : MissionStore)
    → (cas_mission_status now q db).0 ≡ true
    → (legal_transition q.expect_status q.new_status ≡ true)
      × (cas_mission_status now q db ≡ swap_loaded now q (load_mission q.mission_id db) db)
unfolding cas_mission_status
cas_mission_status-won now q db won =
    elim (Bool-cases (legal_transition q.expect_status q.new_status)) [
      | inl legal ↦ (legal, rw legal refl)
      | inr illegal ↦ cc (rw illegal at won)
    ]

-- In a store with unique mission ids, a swap that reports success was a legal transition of the mission that it read at the expected
-- status, version, generation and, where one is given, token; the mission then holds the swapped
-- row, and its job is closed exactly when the new status is terminal.
pub cas_mission_status-effect :
    (now : ℕ) (q : CasRequest) (db : MissionStore)
    → IsKeyed (λ m. m.mission_id) db.missions
    → (cas_mission_status now q db).0 ≡ true
    → CasEffect now q db (cas_mission_status now q db).1
cas_mission_status-effect now q db keyed won =
    let (legal, loaded) = cas_mission_status-won now q db won in
    let (m, found, swaps) =
      swap_loaded-won now q (load_mission q.mission_id db) db
        (subst (λ r. r.0 ≡ true) loaded won) in
    let same = loaded ∙ swaps in
    subst (λ r. CasEffect now q db r.1) (sym same)
      (swapped-effect now q m db keyed legal found (subst (λ r. r.0 ≡ true) same won))

version_behind :
    (now : ℕ) (q : CasRequest) (m : Mission) (db : MissionStore)
    → load_mission q.mission_id db ≡ some m
    → q.expect_version + 1 ≤ m.checkpoint_version
    → IsRefused (swap now q) db
unfolding perform cas_mission_status swap_loaded
version_behind now q m db found newer =
    let other : (m.checkpoint_version == q.expect_version) ≡ false = ground (arith, newer) in
    ground (arith, found, other)

swapped-version :
    (now : ℕ) (q : CasRequest) (read m : Mission)
    → (swapped now q read m).checkpoint_version ≡ q.expect_version + 1
unfolding swapped
swapped-version now q read m = refl

-- In a store with unique mission ids: of all swaps of one mission that expect one checkpoint version, at most one succeeds: after the
-- one that does, whatever else is called between two retention passes, each other one is turned
-- down and leaves the store as it is.
pub cas_mission_status-once :
    (now later : ℕ) (q q' : CasRequest) (cs : List Call) (db : MissionStore)
    → IsKeyed (λ m. m.mission_id) db.missions
    → (cas_mission_status now q db).0 ≡ true
    → q'.mission_id ≡ q.mission_id
    → q'.expect_version ≡ q.expect_version
    → IsRefused (swap later q') (run cs (cas_mission_status now q db).1)
cas_mission_status-once now later q q' cs db keyed won mine same =
    let e = cas_mission_status-effect now q db keyed won in
    let (m', found, grown) =
      run-Evolves cs q.mission_id (swapped now q e.row e.row) (cas_mission_status now q db).1
        e.stored in
    version_behind later q' m' (run cs (cas_mission_status now q db).1) (rw mine found)
      (omega (arith, grown.version, swapped-version now q e.row e.row, same))
