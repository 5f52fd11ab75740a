-- ===== src/Missions/Evolution/Rows.antt =====
-- Tables of missions whose rows evolve one by one.
use grok_mcp_server.Base.{
  ℕ, ◌+◌, ◌≤◌, ◌≡◌, refl, sym, ◌∙◌, subst, none, some, List, [], ◌∷◌, Bool, true, arith, All,
  Bool-cases, inl, inr,
}
use grok_mcp_server.Base.Tables.{update_where, fetch_one}
use grok_mcp_server.Base.Tables.Keys.{IsKeyed}
use grok_mcp_server.Missions.State.{Mission, has_mission_id}
use grok_mcp_server.Missions.Evolution.{Evolves, Evolves-refl, Evolves-trans}

pub data Tables : List Mission → List Mission → Type 0 where
  nil : Tables [] []
  cons :
      {m m' : Mission} {ms ms' : List Mission}
      → Evolves m m'
      → Tables ms ms'
      → Tables (m ∷ ms) (m' ∷ ms')

pub Tables-refl : (ms : List Mission) → Tables ms ms
Tables-refl [] = nil
Tables-refl (m ∷ ms) = cons (Evolves-refl m) (Tables-refl ms)

pub Tables-trans : {ms ms' ms'' : List Mission} → Tables ms ms' → Tables ms' ms'' → Tables ms ms''
Tables-trans nil nil = nil
Tables-trans (cons e t) (cons f u) = cons (Evolves-trans _ _ _ e f) (Tables-trans t u)

pub Tables-update_where :
    (test : Mission → Bool) (change : Mission → Mission)
    → ((m : Mission) → test m ≡ true → Evolves m (change m))
    → (ms : List Mission) → Tables ms (update_where test change ms)
Tables-update_where test change h [] = nil
Tables-update_where test change h (m ∷ ms) = elim (Bool-cases (test m)) [
  | inl t ↦ rw t (cons (h m t) (Tables-update_where test change h ms))
  | inr f ↦ rw f (cons (Evolves-refl m) (Tables-update_where test change h ms))
]

-- A mission that is found stays found, as it has evolved.
pub Tables-found :
    (id : ℕ) {r : Mission} {ms ms' : List Mission}
    → Tables ms ms'
    → fetch_one (has_mission_id id) ms ≡ some r
    → (m' : Mission) × (fetch_one (has_mission_id id) ms' ≡ some m') × Evolves r m'
Tables-found id nil h = cc
Tables-found id {r} (cons {m} {m'} {ms} {ms'} e t) h = elim (Bool-cases (has_mission_id id m)) [
  | inl mine ↦
      let same : m ≡ r = ground (arith, h, mine) in
      (m', rw (e.mission_id, mine) refl, subst (λ x. Evolves x m') same e)
  | inr other ↦
      let (r', found, later) = Tables-found id t (rw other at h) in
      (r', rw (e.mission_id, other) found, later)
]

Tables-absent :
    (id : ℕ) {ms ms' : List Mission}
    → Tables ms ms'
    → fetch_one (has_mission_id id) ms ≡ none
    → fetch_one (has_mission_id id) ms' ≡ none
Tables-absent id nil h = refl
Tables-absent id (cons {m} {m'} {ms} {ms'} e t) h = elim (Bool-cases (has_mission_id id m)) [
  | inl mine ↦ cc (rw mine at h)
  | inr other ↦ rw (e.mission_id, other) (Tables-absent id t (rw other at h))
]

-- Ids stay unique.
pub Tables-IsKeyed :
    {ms ms' : List Mission}
    → Tables ms ms'
    → IsKeyed (λ m. m.mission_id) ms
    → IsKeyed (λ m. m.mission_id) ms'
Tables-IsKeyed nil keyed = tt
Tables-IsKeyed (cons e t) keyed =
    (rw (e.mission_id) (Tables-absent _ t keyed.0), Tables-IsKeyed t keyed.1)

-- All rows of a mission have left a generation behind.
abbrev pub IsPast : (id generation : ℕ) → List Mission → Type 0
IsPast id g ms = All (λ m. m.mission_id ≡ id → g + 1 ≤ m.lease_generation) ms

pub Tables-IsPast :
    (id g : ℕ) {ms ms' : List Mission} → Tables ms ms' → IsPast id g ms → IsPast id g ms'
Tables-IsPast id g nil past = tt
Tables-IsPast id g (cons e t) past =
    ((λ h. omega (arith, e.generation, past.0 (sym e.mission_id ∙ h))), Tables-IsPast id g t past.1)
