-- ===== src/Autonomy/Pages.antt =====
-- Reading the events of an autonomy job page by page (src/unigrok_public/state.py).
use grok_mcp_server.Base.{
  ℕ, zero, suc, ◌≤◌, ◌<◌, ◌≡◌, refl, sym, subst, ◌∙◌, ap, List, [], ◌∷◌, ◌++◌, false, arith,
  Bool-cases, inl, inr, ◌==◌, length, take,
}
use grok_mcp_server.Base.Tables.{select_where}
use grok_mcp_server.Autonomy.{
  AutonomyEvent, AutonomyStore, page_limit, is_event_after, list_autonomy_events,
}

-- The ids grow along the ledger, from above a bound.
abbrev pub IsAscending : (bound : ℕ) → List AutonomyEvent → Type 0
IsAscending bound [] = Unit
IsAscending bound (e ∷ es) = (bound < e.id) × IsAscending e.id es

abbrev pub last_id : (default : ℕ) → List AutonomyEvent → ℕ
last_id default [] = default
last_id default (e ∷ es) = last_id e.id es

abbrev drop : ℕ → List AutonomyEvent → List AutonomyEvent
drop zero es = es
drop (suc n) [] = []
drop (suc n) (e ∷ es) = drop n es

take-drop : (n : ℕ) (es : List AutonomyEvent) → take n es ++ drop n es ≡ es
take-drop zero es = refl
take-drop (suc n) [] = refl
take-drop (suc n) (e ∷ es) = ap (λ xs. e ∷ xs) (take-drop n es)

length-take_le : (n : ℕ) (es : List AutonomyEvent) → length (take n es) ≤ n
length-take_le zero es = omega arith
length-take_le (suc n) [] = omega arith
length-take_le (suc n) (e ∷ es) = omega (arith, length-take_le n es)

module _ (job : ℕ) where
  -- After an id below all of the ledger nothing is left out by the id.
  above-all :
      (after bound : ℕ) (es : List AutonomyEvent)
      → after ≤ bound
      → IsAscending bound es
      → select_where (is_event_after job after) es
        ≡ select_where (λ (e : AutonomyEvent). e.job_id == job) es
  above-all after bound [] le up = refl
  above-all after bound (e ∷ es) le up =
      let rest = above-all after e.id es (omega (arith, le, up.0)) up.1 in
      ground (arith, le, up.0, rest)

  last_id-above :
      (n d after bound : ℕ) (es : List AutonomyEvent)
      → IsAscending bound es
      → d ≤ bound
      → d ≤ last_id d (take n (select_where (is_event_after job after) es))
  last_id-above zero d after bound es up le = omega arith
  last_id-above (suc n) d after bound [] up le = omega arith
  last_id-above (suc n) d after bound (e ∷ es) up le =
      elim (Bool-cases (is_event_after job after e)) [
        | inr skipped ↦
            rw skipped (last_id-above (suc n) d after e.id es up.1 (omega (arith, le, up.0)))
        | inl shown ↦
            let rest = last_id-above n e.id after e.id es up.1 (omega arith) in
            rw shown (omega (arith, le, up.0, rest))
      ]

  last_id-after :
      (n after bound : ℕ) (es : List AutonomyEvent)
      → IsAscending bound es
      → after ≤ last_id after (take n (select_where (is_event_after job after) es))
  last_id-after zero after bound es up = omega arith
  last_id-after (suc n) after bound [] up = omega arith
  last_id-after (suc n) after bound (e ∷ es) up = elim (Bool-cases (is_event_after job after e)) [
    | inr skipped ↦ rw skipped (last_id-after (suc n) after e.id es up.1)
    | inl shown ↦
        let rest = last_id-above n e.id after e.id es up.1 (omega arith) in
        let later : after < e.id = ground (arith, shown) in rw shown (omega (arith, later, rest))
  ]

  not_shown :
      (e : AutonomyEvent) (after after' : ℕ)
      → is_event_after job after e ≡ false
      → after ≤ after'
      → is_event_after job after' e ≡ false
  not_shown e after after' skipped le = ground (arith, skipped, le)

  -- What follows a page is what the ledger has after the page's last event.
  after_page :
      (n after bound : ℕ) (es : List AutonomyEvent)
      → IsAscending bound es
      → drop n (select_where (is_event_after job after) es)
        ≡ select_where
            (is_event_after job
              (last_id after (take n (select_where (is_event_after job after) es))))
            es
  after_page zero after bound es up = refl
  after_page (suc n) after bound [] up = refl
  after_page (suc n) after bound (e ∷ es) up = elim (Bool-cases (is_event_after job after e)) [
    | inr skipped ↦
        let later = last_id-after (suc n) after e.id es up.1 in
        let page : select_where (is_event_after job after) (e ∷ es)
            ≡ select_where (is_event_after job after) es =
          rw skipped refl in
        subst
          (λ xs.
            drop (suc n) xs
            ≡ select_where (is_event_after job (last_id after (take (suc n) xs))) (e ∷ es))
          (sym page)
          (rw
            (not_shown e after
              (last_id after (take (suc n) (select_where (is_event_after job after) es))) skipped
              later)
            (after_page (suc n) after e.id es up.1))
    | inl shown ↦
        let past : after < e.id = ground (arith, shown) in
        let same =
          above-all after e.id es (omega (arith, past)) up.1
          ∙ sym (above-all e.id e.id es (omega arith) up.1) in
        let later = last_id-after n e.id e.id es up.1 in
        let hidden : is_event_after job e.id e ≡ false = ground arith in
        let page : select_where (is_event_after job after) (e ∷ es)
            ≡ e ∷ select_where (is_event_after job e.id) es =
          rw (shown, same) refl in
        subst
          (λ xs.
            drop (suc n) xs
            ≡ select_where (is_event_after job (last_id after (take (suc n) xs))) (e ∷ es))
          (sym page)
          (rw
            (not_shown e e.id (last_id e.id (take n (select_where (is_event_after job e.id) es)))
              hidden later)
            (after_page n e.id e.id es up.1))
  ]

-- In a ledger whose ids grow: a page has at most as many events as its limit, which is between 1 and
-- 200, and the page, followed by what the ledger has of the job after the page's last event, is what
-- it has after the event from which the page was asked; so a reader that goes on from the last event of
-- each page misses none and reads none twice.
pub list_autonomy_events-pages :
    (job after limit : ℕ) (db : AutonomyStore)
    → IsAscending 0 db.ledger
    → (length (list_autonomy_events job after limit db) ≤ page_limit limit)
      × (list_autonomy_events job after limit db
            ++ select_where
                (is_event_after job (last_id after (list_autonomy_events job after limit db)))
                db.ledger
          ≡ select_where (is_event_after job after) db.ledger)
unfolding list_autonomy_events
list_autonomy_events-pages job after limit db up = (
  length-take_le (page_limit limit) (select_where (is_event_after job after) db.ledger),
  ap (λ es. take (page_limit limit) (select_where (is_event_after job after) db.ledger) ++ es)
        (sym (after_page job (page_limit limit) after 0 db.ledger up))
      ∙ take-drop (page_limit limit) (select_where (is_event_after job after) db.ledger),
)
