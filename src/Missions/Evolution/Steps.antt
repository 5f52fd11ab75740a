-- ===== src/Missions/Evolution/Steps.antt =====
-- The updates of single rows let them evolve.
use grok_mcp_server.Base.{
  Bool-cases, inl, inr, ℕ, ◌≡◌, refl, sym, subst, Option, true, false, arith, ==_iff, ◌==◌, &&-true,
}
use grok_mcp_server.Missions.Status.{
  MissionStatus, queued, running, verifying, complete, failed, waiting_event, waiting_timer,
  dormant, escalated, budget_exhausted, cancelled, is_terminal, Transitions, stay, go, has_status,
  has_status-true, legal_transition, terminal-illegal,
}
use grok_mcp_server.Missions.State.{Mission, Package, has_mission_id}
use grok_mcp_server.Missions.Lease.{
  is_claimable, is_claimable_status, status_when_claimed, claimed, bound_to_envelope,
}
use grok_mcp_server.Missions.Cas.{
  CasRequest, Requeue, is_swappable, expects, swapped, is_requeueable, requeued,
}
use grok_mcp_server.Missions.Evolution.{Evolves}

claim-Transitions :
    (s : MissionStatus)
    → is_claimable_status s ≡ true
    → Transitions s (status_when_claimed s) × (is_terminal s ≡ false)
unfolding legal_transition
claim-Transitions queued h = (go refl stay, refl)
claim-Transitions running h = (stay, refl)
claim-Transitions verifying h = (stay, refl)
claim-Transitions waiting_event h = (go refl stay, refl)
claim-Transitions complete h = cc
claim-Transitions failed h = cc
claim-Transitions waiting_timer h = cc
claim-Transitions dormant h = cc
claim-Transitions escalated h = cc
claim-Transitions budget_exhausted h = cc
claim-Transitions cancelled h = cc

pub claimed-Evolves :
    (now id token ttl : ℕ) (expect : Option ℕ) (m : Mission)
    → is_claimable now id token expect m ≡ true
    → Evolves m (claimed now token ttl expect m)
unfolding claimed
claimed-Evolves now id token ttl expect m h =
    let (_, rest) = &&-true (has_mission_id id m) _ h in
    let (live, _) = &&-true (is_claimable_status m.status) _ rest in
    let (path, open_status) = claim-Transitions m.status live in
    record {
      mission_id = refl;
      job_id = refl;
      acceptance_hash = refl;
      continue_token = refl;
      path = path;
      generation = ground arith;
      version = omega arith;
      versioned = inr refl;
      frozen = inl open_status;
    }

-- A heartbeat and an event write the lease's expiry, the ledger's cursor and `updated_at` alone.
pub idle-Evolves :
    (m : Mission) (expiry : Option ℕ) (cursor now : ℕ)
    → Evolves m (record m { lease_expires_at = expiry; ledger_cursor = cursor; updated_at = now })
idle-Evolves m expiry cursor now = record {
  mission_id = refl;
  job_id = refl;
  acceptance_hash = refl;
  continue_token = refl;
  path = stay;
  generation = omega arith;
  version = omega arith;
  versioned = inr refl;
  frozen = inr (record {
    status = refl;
    checkpoint = refl;
    package_json = refl;
    checkpoint_version = refl;
    lease_generation = refl;
    lease_token = refl;
    verify_failures = refl;
  });
}

pub bound_to_envelope-Evolves :
    (now version : ℕ) (p : Package) (m : Mission)
    → is_terminal m.status ≡ false
    → Evolves m (bound_to_envelope now version p m)
unfolding bound_to_envelope
bound_to_envelope-Evolves now version p m live = record {
  mission_id = refl;
  job_id = refl;
  acceptance_hash = refl;
  continue_token = refl;
  path = stay;
  generation = omega arith;
  version = omega arith;
  versioned = inr refl;
  frozen = inl live;
}

pub swapped-Evolves :
    (now : ℕ) (q : CasRequest) (read m : Mission)
    → legal_transition q.expect_status q.new_status ≡ true
    → is_swappable q m ≡ true
    → Evolves m (swapped now q read m)
unfolding swapped
swapped-Evolves now q read m legal h =
    let (_, rest) = &&-true (has_mission_id q.mission_id m) _ h in
    let (seen, _) = &&-true (expects q m) _ rest in
    let (status, fence) = &&-true (has_status m.status q.expect_status) _ seen in
    let same = has_status-true m.status q.expect_status status in
    let (version, generation) = &&-true (m.checkpoint_version == q.expect_version) _ fence in
    let v = (==_iff m.checkpoint_version q.expect_version).0 version in
    let g = (==_iff m.lease_generation q.expect_lease_generation).0 generation in
    let allowed = subst (λ s. legal_transition s q.new_status ≡ true) (sym same) legal in
    record {
      mission_id = refl;
      job_id = refl;
      acceptance_hash = refl;
      continue_token = refl;
      path = go allowed stay;
      generation = ground (arith, g);
      version = omega (arith, v);
      versioned = inl (omega (arith, v));
      frozen = elim (Bool-cases (is_terminal m.status)) [
        | inl ended ↦ let never = terminal-illegal m.status q.new_status ended in cc
        | inr live ↦ inl live
      ];
    }

pub requeued-Evolves :
    (now : ℕ) (q : Requeue) (m : Mission)
    → legal_transition q.expect_status queued ≡ true
    → is_requeueable now q m ≡ true
    → Evolves m (requeued now m)
unfolding requeued
requeued-Evolves now q m legal h =
    let (_, rest) = &&-true (has_mission_id q.mission_id m) _ h in
    let (status, _) = &&-true (has_status m.status q.expect_status) _ rest in
    let same = has_status-true m.status q.expect_status status in
    let allowed = subst (λ s. legal_transition s queued ≡ true) (sym same) legal in
    record {
      mission_id = refl;
      job_id = refl;
      acceptance_hash = refl;
      continue_token = refl;
      path = go allowed stay;
      generation = omega arith;
      version = omega arith;
      versioned = inl (omega arith);
      frozen = elim (Bool-cases (is_terminal m.status)) [
        | inl ended ↦ let never = terminal-illegal m.status queued ended in cc
        | inr live ↦ inl live
      ];
    }
