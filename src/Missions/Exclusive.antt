-- ===== src/Missions/Exclusive.antt =====
-- Claims: what one that succeeds gives to the worker, and that it keeps other workers out.
use grok_mcp_server.Base.{
  ℕ, ◌+◌, ◌<◌, ◌≡◌, ◌≢◌, refl, sym, ◌∙◌, subst, ap, Option, none, some, List, [], ◌∷◌, Bool, true,
  false, ◌||◌, arith, Bool-cases, Option-cases, ◌⊎◌, inl, inr, ==_iff, &&-true, All,
}
use grok_mcp_server.Base.Tables.{fetch_one}
use grok_mcp_server.Base.Tables.Laws.{fetch_one-passes}
use grok_mcp_server.Base.Tables.Keys.{
  IsKeyed, IsKeyed-All, IsKeyed-update_where, fetch_one-update_where,
}
use grok_mcp_server.Missions.State.{
  Mission, MissionStore, has_mission_id, update_missions, load_mission, lease_expiry,
}
use grok_mcp_server.Missions.Lease.{
  is_claimable, is_claimable_status, is_renewal, is_lease_free, claimed, generation_of,
  claim_mission,
}
use grok_mcp_server.Missions.Winner.{loaded-passes}

-- What a claim that succeeds read, and what the store loads after it.
pub record ClaimEffect (now id token ttl : ℕ) (expect : Option ℕ) (db db' : MissionStore) (g : ℕ)
    : Type 0 where
  pub row : Mission
  pub found : load_mission id db ≡ some row
  pub free : (is_renewal token expect row || is_lease_free now row) ≡ true
  pub stored : load_mission id db' ≡ some (claimed now token ttl expect row)
  pub generation : (claimed now token ttl expect row).lease_generation ≡ g
  pub fresh :
      (g ≡ row.lease_generation + 1)
      ⊎ (is_renewal token expect row ≡ true) × (g ≡ row.lease_generation)
  pub keyed : IsKeyed (λ m. m.mission_id) db'.missions

claimed-id :
    (now token ttl : ℕ) (expect : Option ℕ) (m : Mission)
    → (claimed now token ttl expect m).mission_id ≡ m.mission_id
unfolding claimed
claimed-id now token ttl expect m = refl

claimed-generation :
    (now token ttl : ℕ) (expect : Option ℕ) (m : Mission)
    → ((claimed now token ttl expect m).lease_generation ≡ m.lease_generation + 1)
      ⊎ (is_renewal token expect m ≡ true)
        × ((claimed now token ttl expect m).lease_generation ≡ m.lease_generation)
unfolding claimed
claimed-generation now token ttl expect m = elim (Bool-cases (is_renewal token expect m)) [
  | inl mine ↦ inr (mine, rw mine refl)
  | inr new ↦ inl (rw new refl)
]

claimable-id :
    (now id token : ℕ) (expect : Option ℕ) (m : Mission)
    → is_claimable now id token expect m ≡ true
    → m.mission_id ≡ id
claimable-id now id token expect m h =
    (==_iff m.mission_id id).0 (&&-true (has_mission_id id m) _ h).0

module _ (now id token ttl : ℕ) (expect : Option ℕ) (db : MissionStore) where
  after_claim : MissionStore
  after_claim = update_missions (is_claimable now id token expect) (claimed now token ttl expect) db

  claim_mission-won :
      (claim_mission now id token ttl expect db).0.0 ≡ true
      → (m : Mission) × (fetch_one (is_claimable now id token expect) db.missions ≡ some m)
        × (claim_mission now id token ttl expect db
            ≡ ((true, (claimed now token ttl expect m).lease_generation), after_claim))
  unfolding claim_mission after_claim
  claim_mission-won won =
      elim (Option-cases (fetch_one (is_claimable now id token expect) db.missions)) [
        | inl missing ↦ cc (rw (missing, claim_mission) at won)
        | inr (m, passed) ↦ (m, passed, rw (passed, claim_mission) refl)
      ]

  stored_claim :
      (m : Mission)
      → load_mission id db ≡ some m
      → is_claimable now id token expect m ≡ true
      → load_mission id after_claim ≡ some (claimed now token ttl expect m)
  unfolding after_claim
  stored_claim m found passes =
      fetch_one-update_where (λ x. x.mission_id) (is_claimable now id token expect)
        (claimed now token ttl expect) (λ x t. claimed-id now token ttl expect x) id db.missions
      ∙ rw (found, passes) refl

  after_claim-IsKeyed :
      IsKeyed (λ m. m.mission_id) db.missions → IsKeyed (λ m. m.mission_id) after_claim.missions
  unfolding after_claim
  after_claim-IsKeyed keyed =
      IsKeyed-update_where (λ x. x.mission_id) (is_claimable now id token expect)
        (claimed now token ttl expect) (λ x t. claimed-id now token ttl expect x) db.missions keyed

-- A row of the id that is found by some test is loaded by the id.
claim-loaded :
    (id : ℕ) (m : Mission) (ms : List Mission) (test : Mission → Bool)
    → ((y : Mission) → test y ≡ true → y.mission_id ≡ id)
    → fetch_one test ms ≡ some m
    → (x : Mission) × (fetch_one (has_mission_id id) ms ≡ some x)
claim-loaded id m [] test mine h = cc
claim-loaded id m (y ∷ ys) test mine h = elim (Bool-cases (has_mission_id id y)) [
  | inl t ↦ (y, rw t refl)
  | inr f ↦ elim (Bool-cases (test y)) [
    | inl t ↦ let t' = (==_iff y.mission_id id).1 (mine y t) in cc
    | inr other ↦ let (x, found) = claim-loaded id m ys test mine (rw other at h) in (x, rw f found)
  ]
]

-- In a store with unique mission ids, a claim that reports success found its mission open to it: the worker held the lease under the
-- generation it named, or there was no lease, or it had expired. The mission then holds the claimed
-- row, under the generation that is reported: the next one, or the same for a renewal.
pub claim_mission-effect :
    (now id token ttl : ℕ) (expect : Option ℕ) (db : MissionStore)
    → IsKeyed (λ m. m.mission_id) db.missions
    → (claim_mission now id token ttl expect db).0.0 ≡ true
    → ClaimEffect now id token ttl expect db
        (claim_mission now id token ttl expect db).1
        (claim_mission now id token ttl expect db).0.1
claim_mission-effect now id token ttl expect db keyed won =
    let (m, passed, same) = claim_mission-won now id token ttl expect db won in
    let mine = claimable-id now id token expect in
    let (x, found) = claim-loaded id m db.missions (is_claimable now id token expect) mine passed in
    let read = loaded-passes id (is_claimable now id token expect) db m x mine keyed passed found in
    let passes = fetch_one-passes (is_claimable now id token expect) db.missions passed in
    let found' : load_mission id db ≡ some m = found ∙ ap some (sym read) in
    let (_, rest) = &&-true (has_mission_id id m) _ passes in
    let (_, free) = &&-true (is_claimable_status m.status) _ rest in
    subst (λ r. ClaimEffect now id token ttl expect db r.1 r.0.1) (sym same)
      (record {
        row = m;
        found = found';
        free = free;
        stored = stored_claim now id token ttl expect db m found' passes;
        generation = refl;
        fresh = claimed-generation now token ttl expect m;
        keyed = after_claim-IsKeyed now id token ttl expect db keyed;
      })

-- The lease of a claimed row, seen by another worker.
claimed-taken :
    (now now' id token token' ttl : ℕ) (expect expect' : Option ℕ) (m : Mission)
    → token ≢ 0
    → token ≢ token'
    → now' < lease_expiry now ttl
    → is_claimable now' id token' expect' (claimed now token ttl expect m) ≡ false
unfolding claimed
claimed-taken now now' id token token' ttl expect none m real other early =
    ground (arith, real, other, early)
claimed-taken now now' id token token' ttl expect (some e) m real other early =
    ground (arith, real, other, early)

not_claimable :
    (id : ℕ) (test : Mission → Bool) (r : Mission) (ms : List Mission)
    → ((y : Mission) → test y ≡ true → y.mission_id ≡ id)
    → test r ≡ false
    → All (λ y. y.mission_id ≡ id → y ≡ r) ms
    → fetch_one test ms ≡ none
not_claimable id test r [] mine closed only = refl
not_claimable id test r (y ∷ ys) mine closed only = elim (Bool-cases (test y)) [
  | inl t ↦ let same = only.0 (mine y t) in cc
  | inr f ↦ rw f (not_claimable id test r ys mine closed only.1)
]

claim_mission-missed :
    (now id token ttl : ℕ) (expect : Option ℕ) (db : MissionStore)
    → fetch_one (is_claimable now id token expect) db.missions ≡ none
    → claim_mission now id token ttl expect db ≡ ((false, generation_of (load_mission id db)), db)
unfolding claim_mission
claim_mission-missed now id token ttl expect db missing = rw (missing, claim_mission) refl

-- In a store with unique mission ids, right after a claim that succeeds with a token that is not
-- empty, and before the lease expires, a claim of the same mission with
-- another token fails, reports the generation of the lease, and leaves the store as it is.
pub claim_mission-exclusive :
    (now now' id token token' ttl ttl' : ℕ) (expect expect' : Option ℕ) (db : MissionStore)
    → IsKeyed (λ m. m.mission_id) db.missions
    → token ≢ 0
    → token ≢ token'
    → now' < lease_expiry now ttl
    → (claim_mission now id token ttl expect db).0.0 ≡ true
    → claim_mission now' id token' ttl' expect' (claim_mission now id token ttl expect db).1 ≡ (
      (false, (claim_mission now id token ttl expect db).0.1),
      (claim_mission now id token ttl expect db).1,
    )
claim_mission-exclusive now now' id token token' ttl ttl' expect expect' db keyed real other early
      won =
    let e = claim_mission-effect now id token ttl expect db keyed won in
    let db' = (claim_mission now id token ttl expect db).1 in
    let r = claimed now token ttl expect e.row in
    let only = IsKeyed-All (λ y. y ≡ r) (λ y. y.mission_id) id db'.missions e.keyed e.stored refl in
    let missing =
      not_claimable id (is_claimable now' id token' expect') r db'.missions
        (claimable-id now' id token' expect')
        (claimed-taken now now' id token token' ttl expect expect' e.row real other early) only in
    claim_mission-missed now' id token' ttl' expect' db' missing
    ∙ ap (λ g. ((false, g), db')) (ap generation_of e.stored ∙ e.generation)
