-- ===== src/Missions/Sweep/Recovery.antt =====
-- What a sweep does to a mission.
use grok_mcp_server.Base.{
  ℕ, zero, suc, ◌≤◌, ◌<◌, ◌≡◌, refl, sym, ◌∙◌, subst, some, List, [], ◌∷◌, true, false, arith,
  Bool-cases, Option-cases, inl, inr, if◌then◌else◌, ◌==◌, &&-true, min, max, length, take,
}
use grok_mcp_server.Base.Tables.{select_where}
use grok_mcp_server.Base.Tables.Keys.{fetch_one-update_where}
use grok_mcp_server.Missions.Status.{queued, has_status, has_status-true, legal_transition}
use grok_mcp_server.Missions.State.{
  Mission, MissionStore, has_mission_id, holds_value, load_mission,
}
use grok_mcp_server.Missions.Cas.{Requeue, is_requeueable, requeued, requeue_expired_mission}
use grok_mcp_server.Missions.Sweep.{
  is_hands_off, requeue_of, sweep_row, sweep_rows, sweep_expired_leases,
  list_expired_mission_leases, order_by_updated, has_expired_lease,
}

-- A mission is kept as it is, or it was requeued at an instant after its lease had expired, from a
-- status that the sweeper may touch.
pub data Swept (m : Mission) : Mission → Type 0 where
  kept : Swept m m
  moved :
      (now expiry : ℕ)
      → is_hands_off m.status ≡ false
      → legal_transition m.status queued ≡ true
      → m.lease_expires_at ≡ some expiry
      → expiry < now
      → Swept m (requeued now m)

-- A requeued mission has no lease, so that it is not swept again.
requeued-once : (now expiry : ℕ) (m : Mission) → (requeued now m).lease_expires_at ≡ some expiry → ⊥
unfolding requeued
requeued-once now expiry m h = cc

Swept-trans : {m m' m'' : Mission} → Swept m m' → Swept m' m'' → Swept m m''
Swept-trans kept s = s
Swept-trans (moved now expiry free legal held late) kept = moved now expiry free legal held late
Swept-trans {m} (moved now expiry free legal held late)
      (moved now' expiry' free' legal' held' late') =
    absurd (requeued-once now expiry' m held')

requeueable-facts :
    (now : ℕ) (q : Requeue) (m : Mission)
    → is_requeueable now q m ≡ true
    → (m.status ≡ q.expect_status)
      × (m.lease_expires_at ≡ some q.expect_lease_expires_at)
      × (q.expect_lease_expires_at < now)
requeueable-facts now q m h =
    let (_, rest) = &&-true (has_mission_id q.mission_id m) _ h in
    let (status, fence) = &&-true (has_status m.status q.expect_status) _ rest in
    let (_, held) = &&-true (m.checkpoint_version == q.expect_version) _ fence in
    let (_, lease) = &&-true (m.lease_generation == q.expect_lease_generation) _ held in
    let (expiry, late) =
      &&-true (holds_value m.lease_expires_at q.expect_lease_expires_at) _ lease in
    (has_status-true m.status q.expect_status status, ground (arith, expiry), ground (arith, late))

requeued-id : (now : ℕ) (m : Mission) → (requeued now m).mission_id ≡ m.mission_id
unfolding requeued
requeued-id now m = refl

requeue-load :
    (now id : ℕ) (q : Requeue) (db : MissionStore) (r : Mission)
    → legal_transition q.expect_status queued ≡ true
    → load_mission id db ≡ some r
    → load_mission id (requeue_expired_mission now q db).1
      ≡ some (if is_requeueable now q r then requeued now r else r)
unfolding requeue_expired_mission
requeue-load now id q db r legal found = rw legal (
    fetch_one-update_where (λ m. m.mission_id) (is_requeueable now q) (requeued now)
      (λ m t. requeued-id now m) id db.missions
    ∙ rw found refl)

-- The mission after one row of the sweep.
SweptIn : (id : ℕ) → Mission → MissionStore → Type 0
SweptIn id m db = (m' : Mission) × (load_mission id db ≡ some m') × Swept m m'

requeue-swept :
    (now id expiry : ℕ) (x : Mission) (db : MissionStore) (r : Mission)
    → is_hands_off x.status ≡ false
    → legal_transition x.status queued ≡ true
    → load_mission id db ≡ some r
    → SweptIn id r (requeue_expired_mission now (requeue_of x expiry) db).1
unfolding SweptIn
requeue-swept now id expiry x db r free legal found =
    let loaded = requeue-load now id (requeue_of x expiry) db r legal found in
    elim (Bool-cases (is_requeueable now (requeue_of x expiry) r)) [
      | inr other ↦ (r, loaded ∙ rw other refl, kept)
      | inl passes ↦
          let (same, held, late) = requeueable-facts now (requeue_of x expiry) r passes in
          (
            requeued now r,
            loaded ∙ rw passes refl,
            moved now expiry (subst (λ s. is_hands_off s ≡ false) (sym same) free)
                (subst (λ s. legal_transition s queued ≡ true) (sym same) legal) held late,
          )
    ]

sweep_row-swept :
    (clock : Mission → ℕ) (id : ℕ) (x : Mission) (db : MissionStore) (r : Mission)
    → load_mission id db ≡ some r
    → SweptIn id r (sweep_row clock x db).1
unfolding sweep_row SweptIn
sweep_row-swept clock id x db r found = elim (Bool-cases (is_hands_off x.status)) [
  | inl hands_off ↦ rw (hands_off, sweep_row) (r, found, kept)
  | inr free ↦ elim (Bool-cases (legal_transition x.status queued)) [
    | inr illegal ↦ rw (free, illegal, sweep_row) (r, found, kept)
    | inl legal ↦ elim (Option-cases x.lease_expires_at) [
      | inl missing ↦ rw (free, legal, missing, sweep_row) (r, found, kept)
      | inr (expiry, held) ↦
          rw (free, legal, held, sweep_row)
            (requeue-swept (clock x) id expiry x db r free legal found)
    ]
  ]
]

sweep_rows-swept :
    (clock : Mission → ℕ) (id : ℕ) (xs : List Mission) (db : MissionStore) (r : Mission)
    → load_mission id db ≡ some r
    → SweptIn id r (sweep_rows clock xs db).1
unfolding sweep_rows SweptIn
sweep_rows-swept clock id [] db r found = (r, found, kept)
sweep_rows-swept clock id (x ∷ xs) db r found =
    let (r', found', first) = sweep_row-swept clock id x db r found in
    let (r'', found'', rest) = sweep_rows-swept clock id xs (sweep_row clock x db).1 r' found' in
    (r'', found'', Swept-trans first rest)

-- A sweep, with no call of others between its list and its requeues, keeps each mission in the
-- store, and either leaves it as it is or requeues it once, at an
-- instant after its lease had expired; it never touches a mission that is being verified, that is
-- escalated, or whose status has no legal transition to queued.
pub sweep_expired_leases-recovers :
    (now limit id : ℕ) (clock : Mission → ℕ) (m : Mission) (db : MissionStore)
    → load_mission id db ≡ some m
    → (m' : Mission) × (load_mission id (sweep_expired_leases now clock limit db).1 ≡ some m')
      × Swept m m'
unfolding sweep_expired_leases SweptIn
sweep_expired_leases-recovers now limit id clock m db found =
    sweep_rows-swept clock id (list_expired_mission_leases now limit db) db m found

count_within :
    (clock : Mission → ℕ) (xs : List Mission) (db : MissionStore)
    → (sweep_rows clock xs db).0 ≤ length xs
unfolding sweep_rows
count_within clock [] db = omega arith
count_within clock (x ∷ xs) db = ground (arith, count_within clock xs (sweep_row clock x db).1)

length-take_le {ℓ} : {A : Type ℓ} (n : ℕ) (xs : List A) → length (take n xs) ≤ n
length-take_le zero xs = ground arith
length-take_le (suc n) [] = omega arith
length-take_le (suc n) (x ∷ xs) = omega (arith, length-take_le n xs)

-- A sweep, with no call of others between its list and its requeues, reports at most 200 requeued
-- missions, and no more than the limit unless that is 0,
-- where it reports at most one.
pub sweep_expired_leases-bounded :
    (now limit : ℕ) (clock : Mission → ℕ) (db : MissionStore)
    → (sweep_expired_leases now clock limit db).0 ≤ max 1 (min limit 200)
unfolding sweep_expired_leases list_expired_mission_leases
sweep_expired_leases-bounded now limit clock db =
    let rows = list_expired_mission_leases now limit db in
    omega (
      arith,
      count_within clock rows db,
      length-take_le (max 1 (min limit 200))
          (order_by_updated (select_where (has_expired_lease now) db.missions)),
    )
