-- ===== src/LocalAuth.antt =====
-- The limiter of failed local authentications: `_FailureLimiter` of
-- src/unigrok_public/local_auth.py. The dictionary of peers is a list in its order, the oldest
-- first; instants and the window are in microseconds.
pub mod Memory
mod Tests
use grok_mcp_server.Base.{
  ℕ, ◌+◌, ◌-◌, ◌/◌, max, Option, none, some, List, [], ◌∷◌, ◌++◌, Bool, true, false, ltb, leb, ◌==◌,
  if◌then◌else◌, length,
}
use grok_mcp_server.Base.Tables.{fetch_one, delete_where}

abbrev pub Peer : Type 0
Peer = ℕ × List ℕ

pub record FailureLimiter : Type 0 where
  pub window : ℕ
  pub failure_limit : ℕ
  pub peer_limit : ℕ
  pub failures : List Peer

abbrev pub is_peer : ℕ → Peer → Bool
is_peer peer e = e.0 == peer

-- `popitem(last=False)`; the peer limit is positive, so that the dictionary is not empty.
abbrev pub pop_oldest : List Peer → List Peer
pop_oldest [] = []
pop_oldest (e ∷ es) = es

-- `while events and events[0] <= now - window: events.popleft()`
unfoldable pub drop_expired : (window now : ℕ) → List ℕ → List ℕ
drop_expired window now [] = []
drop_expired window now (e ∷ es) =
    let rest = drop_expired window now es in if leb (e + window) now then rest else e ∷ es

-- `_events`: the events of the peer that count, and the other peers. The peer itself is moved, or
-- added, to the end.
unfoldable pub events_of : (peer now : ℕ) → FailureLimiter → List ℕ × List Peer
events_of peer now l = elim (fetch_one (is_peer peer) l.failures) [
  | none ↦ ([], if leb l.peer_limit (length l.failures) then pop_oldest l.failures else l.failures)
  | some e ↦ (drop_expired l.window now e.1, delete_where (is_peer peer) l.failures)
]

-- An event at the end of those that count, unless they are more than the limit already.
unfoldable pub counted : (failure_limit now : ℕ) → List ℕ → List ℕ
counted limit now events = if leb (length events) limit then events ++ now ∷ [] else events

abbrev pub with_peer : ℕ → List ℕ → List Peer → FailureLimiter → FailureLimiter
with_peer peer events others l = record l { failures = others ++ (peer, events) ∷ [] }

-- `record`: whether the peer is limited.
unfoldable pub record_failure : (peer now : ℕ) → FailureLimiter → Bool × FailureLimiter
record_failure peer now l =
    let r = events_of peer now l in
    let events = counted l.failure_limit now r.0 in
    (ltb l.failure_limit (length events), with_peer peer events r.1 l)

-- `clear`
unfoldable pub clear : (peer : ℕ) → FailureLimiter → FailureLimiter
clear peer l = record l { failures = delete_where (is_peer peer) l.failures }

-- Seconds until the oldest event leaves the window, rounded up to a thousandth less than a second.
abbrev pub seconds_left : (window now : ℕ) → List ℕ → ℕ
seconds_left window now [] = 1
seconds_left window now (e ∷ es) = max 1 ((e + window + 999_000 - now) / 1_000_000)

-- `retry_after`
unfoldable pub retry_after : (peer now : ℕ) → FailureLimiter → ℕ × FailureLimiter
retry_after peer now l =
    let r = events_of peer now l in (seconds_left l.window now r.0, with_peer peer r.0 r.1 l)
