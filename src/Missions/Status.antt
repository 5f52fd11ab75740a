-- ===== src/Missions/Status.antt =====
-- The status machine of src/unigrok_public/mission/types.py.
use grok_mcp_server.Base.{
  ℕ, ◌≡◌, refl, ap, sym, ◌∙◌, Bool, true, false, ◌==◌, ==_iff, if◌then◌else◌,
}

pub data MissionStatus : Type 0 where
  queued running verifying complete failed waiting_event waiting_timer : MissionStatus
  dormant escalated budget_exhausted cancelled : MissionStatus

-- `TERMINAL_STATUSES`
abbrev pub is_terminal : MissionStatus → Bool
is_terminal complete = true
is_terminal failed = true
is_terminal budget_exhausted = true
is_terminal cancelled = true
is_terminal _ = false

-- `_ALLOWED`
abbrev pub is_allowed : MissionStatus → MissionStatus → Bool
is_allowed queued running = true
is_allowed running verifying = true
is_allowed running waiting_event = true
is_allowed running waiting_timer = true
is_allowed running dormant = true
is_allowed running escalated = true
is_allowed running failed = true
is_allowed running budget_exhausted = true
is_allowed running cancelled = true
is_allowed verifying complete = true
is_allowed verifying running = true
is_allowed verifying failed = true
is_allowed verifying escalated = true
is_allowed verifying waiting_event = true
is_allowed waiting_event queued = true
is_allowed waiting_event running = true
is_allowed waiting_timer queued = true
is_allowed dormant queued = true
is_allowed escalated queued = true
is_allowed escalated cancelled = true
is_allowed running queued = true
is_allowed verifying queued = true
is_allowed _ _ = false

unfoldable pub legal_transition : MissionStatus → MissionStatus → Bool
legal_transition current next = if is_terminal current then false else is_allowed current next

-- The texts of the statuses, compared by a number for each.
abbrev pub status_code : MissionStatus → ℕ
status_code queued = 0
status_code running = 1
status_code verifying = 2
status_code complete = 3
status_code failed = 4
status_code waiting_event = 5
status_code waiting_timer = 6
status_code dormant = 7
status_code escalated = 8
status_code budget_exhausted = 9
status_code cancelled = 10

abbrev pub has_status : MissionStatus → MissionStatus → Bool
has_status s t = status_code s == status_code t

status_of : ℕ → MissionStatus
status_of n =
    if n == 0
    then queued
    else if n == 1
    then running
    else if n == 2
    then verifying
    else if n == 3
    then complete
    else if n == 4
    then failed
    else if n == 5
    then waiting_event
    else if n == 6
    then waiting_timer
    else if n == 7
    then dormant
    else if n == 8
    then escalated
    else if n == 9
    then budget_exhausted
    else cancelled

status_of-status_code : (s : MissionStatus) → status_of (status_code s) ≡ s
unfolding status_of
status_of-status_code queued = refl
status_of-status_code running = refl
status_of-status_code verifying = refl
status_of-status_code complete = refl
status_of-status_code failed = refl
status_of-status_code waiting_event = refl
status_of-status_code waiting_timer = refl
status_of-status_code dormant = refl
status_of-status_code escalated = refl
status_of-status_code budget_exhausted = refl
status_of-status_code cancelled = refl

pub has_status-true : (s t : MissionStatus) → has_status s t ≡ true → s ≡ t
has_status-true s t h =
    sym (status_of-status_code s)
    ∙ ap status_of ((==_iff (status_code s) (status_code t)).0 h)
    ∙ status_of-status_code t

-- A sequence of legal transitions.
pub data Transitions : MissionStatus → MissionStatus → Type 0 where
  stay : {s : MissionStatus} → Transitions s s
  go : {s t u : MissionStatus} → legal_transition s t ≡ true → Transitions t u → Transitions s u

pub Transitions-trans :
    {s t u : MissionStatus} → Transitions s t → Transitions t u → Transitions s u
Transitions-trans stay q = q
Transitions-trans (go l p) q = go l (Transitions-trans p q)

pub terminal-illegal : (s t : MissionStatus) → is_terminal s ≡ true → legal_transition s t ≡ false
unfolding legal_transition
terminal-illegal s t h = rw h refl
