-- ===== src/LocalAuth/Memory.antt =====
-- The limiter's memory and its verdict, over any sequence of calls.
use grok_mcp_server.Base.{
  ℕ, ◌+◌, ◌-◌, ◌≤◌, ◌≡◌, refl, none, some, List, [], ◌∷◌, false, arith, length, All, length-append,
  All-append, Bool-cases, Option-cases, inl, inr,
}
use grok_mcp_server.Base.Tables.{fetch_one, delete_where}
use grok_mcp_server.Base.Tables.Laws.{delete_where-All, fetch_one-All}
use grok_mcp_server.LocalAuth.{
  Peer, FailureLimiter, is_peer, pop_oldest, drop_expired, events_of, counted, with_peer,
  record_failure, clear, retry_after,
}

pub data Call : Type 0 where
  fails : (peer now : ℕ) → Call
  passes : (peer : ℕ) → Call
  asks : (peer now : ℕ) → Call

unfoldable pub perform : Call → FailureLimiter → FailureLimiter
perform (fails peer now) l = (record_failure peer now l).1
perform (passes peer) l = clear peer l
perform (asks peer now) l = (retry_after peer now l).1

unfoldable pub run : List Call → FailureLimiter → FailureLimiter
run [] l = l
run (c ∷ cs) l = run cs (perform c l)

abbrev pub HasFewEvents : ℕ → Peer → Type 0
HasFewEvents limit e = length e.1 ≤ limit + 1

-- The limits of the limiter are as given, and its memory is within them.
pub record IsBounded (failure_limit peer_limit : ℕ) (l : FailureLimiter) : Type 0 where
  pub failure_limit_kept : l.failure_limit ≡ failure_limit
  pub peer_limit_kept : l.peer_limit ≡ peer_limit
  pub peers : length l.failures ≤ peer_limit
  pub events : All (HasFewEvents failure_limit) l.failures

length-drop_expired_le :
    (window now : ℕ) (es : List ℕ) → length (drop_expired window now es) ≤ length es
unfolding drop_expired
length-drop_expired_le window now [] = omega arith
length-drop_expired_le window now (e ∷ es) = ground (arith, length-drop_expired_le window now es)

length-counted_le :
    (limit now : ℕ) (es : List ℕ)
    → length es ≤ limit + 1
    → length (counted limit now es) ≤ limit + 1
unfolding counted
length-counted_le limit now es h = ground (arith, h, length-append es (now ∷ []))

length-delete_le : (peer : ℕ) (ps : List Peer) → length (delete_where (is_peer peer) ps) ≤ length ps
length-delete_le peer [] = omega arith
length-delete_le peer (p ∷ ps) = ground (arith, length-delete_le peer ps)

-- A peer that is found leaves room for itself.
length-delete_lt :
    (peer : ℕ) (ps : List Peer) {e : Peer}
    → fetch_one (is_peer peer) ps ≡ some e
    → length (delete_where (is_peer peer) ps) + 1 ≤ length ps
length-delete_lt peer [] h = cc
length-delete_lt peer (p ∷ ps) {e} h = elim (Bool-cases (is_peer peer p)) [
  | inl t ↦ rw t (omega (arith, length-delete_le peer ps))
  | inr f ↦ rw f (omega (arith, length-delete_lt peer ps (rw f at h)))
]

pop_oldest-All : (P : Peer → Type 0) (ps : List Peer) → All P ps → All P (pop_oldest ps)
pop_oldest-All P [] a = tt
pop_oldest-All P (p ∷ ps) a = a.1

length-pop_oldest : (ps : List Peer) → length (pop_oldest ps) ≡ length ps - 1
length-pop_oldest [] = omega arith
length-pop_oldest (p ∷ ps) = omega arith

module _ (f n : ℕ) (room : 1 ≤ n) where
  -- What `_events` finds and leaves.
  record Lookup (peer now : ℕ) (l : FailureLimiter) : Type 0 where
    few : length (events_of peer now l).0 ≤ f + 1
    space : length (events_of peer now l).1 + 1 ≤ n
    others : All (HasFewEvents f) (events_of peer now l).1

  Lookup-missing :
      (peer now : ℕ) (l : FailureLimiter)
      → IsBounded f n l
      → fetch_one (is_peer peer) l.failures ≡ none
      → Lookup peer now l
  unfolding events_of
  Lookup-missing peer now l b missing = record {
    few = rw (missing, events_of) (omega arith);
    space =
        rw (missing, events_of)
          (ground (arith, b.peers, b.peer_limit_kept, room, length-pop_oldest l.failures));
    others =
        rw (missing, events_of)
          (ground (arith, b.events, pop_oldest-All (HasFewEvents f) l.failures b.events));
  }

  Lookup-found :
      (peer now : ℕ) (l : FailureLimiter) (e : Peer)
      → IsBounded f n l
      → fetch_one (is_peer peer) l.failures ≡ some e
      → Lookup peer now l
  unfolding events_of
  Lookup-found peer now l e b found =
      let short = fetch_one-All (HasFewEvents f) (is_peer peer) l.failures found b.events in
      record {
        few = rw (found, events_of) (omega (arith, short, length-drop_expired_le l.window now e.1));
        space =
            rw (found, events_of) (omega (arith, b.peers, length-delete_lt peer l.failures found));
        others =
            rw (found, events_of)
              (delete_where-All (HasFewEvents f) (is_peer peer) l.failures b.events);
      }

  lookup : (peer now : ℕ) (l : FailureLimiter) → IsBounded f n l → Lookup peer now l
  lookup peer now l b = elim (Option-cases (fetch_one (is_peer peer) l.failures)) [
    | inl missing ↦ Lookup-missing peer now l b missing
    | inr (e, found) ↦ Lookup-found peer now l e b found
  ]

  with_peer-IsBounded :
      (peer : ℕ) (events : List ℕ) (others : List Peer) (l : FailureLimiter)
      → IsBounded f n l
      → length events ≤ f + 1
      → length others + 1 ≤ n
      → All (HasFewEvents f) others
      → IsBounded f n (with_peer peer events others l)
  with_peer-IsBounded peer events others l b few space short = record {
    failure_limit_kept = b.failure_limit_kept;
    peer_limit_kept = b.peer_limit_kept;
    peers = omega (arith, space, length-append others ((peer, events) ∷ []));
    events = All-append (HasFewEvents f) others ((peer, events) ∷ []) short (few, tt);
  }

  perform-IsBounded :
      (c : Call) (l : FailureLimiter) → IsBounded f n l → IsBounded f n (perform c l)
  unfolding perform record_failure retry_after clear events_of
  perform-IsBounded (fails peer now) l b =
      let found = lookup peer now l b in
      with_peer-IsBounded peer _ _ l b
        (rw (b.failure_limit_kept) (length-counted_le f now _ found.few)) found.space found.others
  perform-IsBounded (passes peer) l b = record {
    failure_limit_kept = b.failure_limit_kept;
    peer_limit_kept = b.peer_limit_kept;
    peers = omega (arith, b.peers, length-delete_le peer l.failures);
    events = delete_where-All (HasFewEvents f) (is_peer peer) l.failures b.events;
  }
  perform-IsBounded (asks peer now) l b =
      let found = lookup peer now l b in
      with_peer-IsBounded peer _ _ l b found.few found.space found.others

  -- With room for one peer at least, over any sequence of failures, successes and questions of any
  -- peers, a limiter within its bounds stays so: no more peers than its peer limit, and at most one
  -- failure more than its failure limit of each.
  pub run-IsBounded :
      (cs : List Call) (l : FailureLimiter) → IsBounded f n l → IsBounded f n (run cs l)
  unfolding run
  run-IsBounded [] l b = b
  run-IsBounded (c ∷ cs) l b = run-IsBounded cs (perform c l) (perform-IsBounded c l b)

forgotten :
    (peer : ℕ) (ps : List Peer) → fetch_one (is_peer peer) (delete_where (is_peer peer) ps) ≡ none
forgotten peer [] = refl
forgotten peer (p ∷ ps) = ground (arith, forgotten peer ps)

-- With a failure limit of one at least, the first failure of a peer after its success is not
-- limited, whatever the limiter remembered of it.
pub record_failure-clear :
    (peer now : ℕ) (l : FailureLimiter)
    → 1 ≤ l.failure_limit
    → (record_failure peer now (clear peer l)).0 ≡ false
unfolding record_failure clear counted events_of
record_failure-clear peer now l h = rw (forgotten peer l.failures, events_of) (ground (arith, h))
