-- ===== src/Missions/Evolution.antt =====
-- How a mission row may change, call by call: along the status machine, with a lease generation and a
-- checkpoint version that never fall, and not at all where its status is terminal.
pub mod Rows
pub mod Steps
pub mod Operations
use grok_mcp_server.Base.{◌≤◌, ◌<◌, ◌≡◌, refl, ◌∙◌, subst, ◌⊎◌, inl, inr, false, arith}
use grok_mcp_server.Missions.Status.{is_terminal, Transitions, stay, go, Transitions-trans}
use grok_mcp_server.Missions.State.{Mission}

-- What a terminal mission keeps: all but its lease's expiry, the ledger's cursor and `updated_at`.
pub record Frozen (m m' : Mission) : Type 0 where
  pub status : m'.status ≡ m.status
  pub checkpoint : m'.checkpoint ≡ m.checkpoint
  pub package_json : m'.package_json ≡ m.package_json
  pub checkpoint_version : m'.checkpoint_version ≡ m.checkpoint_version
  pub lease_generation : m'.lease_generation ≡ m.lease_generation
  pub lease_token : m'.lease_token ≡ m.lease_token
  pub verify_failures : m'.verify_failures ≡ m.verify_failures

pub record Evolves (m m' : Mission) : Type 0 where
  pub mission_id : m'.mission_id ≡ m.mission_id
  pub job_id : m'.job_id ≡ m.job_id
  pub acceptance_hash : m'.acceptance_hash ≡ m.acceptance_hash
  pub continue_token : m'.continue_token ≡ m.continue_token
  pub path : Transitions m.status m'.status
  pub generation : m.lease_generation ≤ m'.lease_generation
  pub version : m.checkpoint_version ≤ m'.checkpoint_version
  pub versioned : (m.checkpoint_version < m'.checkpoint_version) ⊎ (m'.checkpoint ≡ m.checkpoint)
  pub frozen : (is_terminal m.status ≡ false) ⊎ Frozen m m'

Frozen-refl : (m : Mission) → Frozen m m
Frozen-refl m = record {
  status = refl;
  checkpoint = refl;
  package_json = refl;
  checkpoint_version = refl;
  lease_generation = refl;
  lease_token = refl;
  verify_failures = refl;
}

Frozen-trans : (m m' m'' : Mission) → Frozen m m' → Frozen m' m'' → Frozen m m''
Frozen-trans m m' m'' f g = record {
  status = g.status ∙ f.status;
  checkpoint = g.checkpoint ∙ f.checkpoint;
  package_json = g.package_json ∙ f.package_json;
  checkpoint_version = g.checkpoint_version ∙ f.checkpoint_version;
  lease_generation = g.lease_generation ∙ f.lease_generation;
  lease_token = g.lease_token ∙ f.lease_token;
  verify_failures = g.verify_failures ∙ f.verify_failures;
}

pub Evolves-refl : (m : Mission) → Evolves m m
Evolves-refl m = record {
  mission_id = refl;
  job_id = refl;
  acceptance_hash = refl;
  continue_token = refl;
  path = stay;
  generation = omega arith;
  version = omega arith;
  versioned = inr refl;
  frozen = inr (Frozen-refl m);
}

pub Evolves-trans : (m m' m'' : Mission) → Evolves m m' → Evolves m' m'' → Evolves m m''
Evolves-trans m m' m'' e f = record {
  mission_id = f.mission_id ∙ e.mission_id;
  job_id = f.job_id ∙ e.job_id;
  acceptance_hash = f.acceptance_hash ∙ e.acceptance_hash;
  continue_token = f.continue_token ∙ e.continue_token;
  path = Transitions-trans e.path f.path;
  generation = omega (arith, e.generation, f.generation);
  version = omega (arith, e.version, f.version);
  versioned = elim e.versioned [
    | inl newer ↦ inl (omega (arith, newer, f.version))
    | inr same ↦ elim f.versioned [
      | inl newer ↦ inl (omega (arith, newer, e.version))
      | inr same' ↦ inr (same' ∙ same)
    ]
  ];
  frozen = elim e.frozen [
    | inl live ↦ inl live
    | inr first ↦ elim f.frozen [
      | inl live ↦ inl (subst (λ s. is_terminal s ≡ false) first.status live)
      | inr second ↦ inr (Frozen-trans m m' m'' first second)
    ]
  ];
}
