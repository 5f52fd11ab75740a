-- ===== src/Verification/Voters.antt =====
-- The voter council of src/unigrok_public/mission/voters.py: its slots, the local executor and the
-- merge of the cards.
use grok_mcp_server.Base.{
  ℕ, min, max, List, [], ◌∷◌, ◌++◌, Bool, true, false, not, ◌&&◌, ◌||◌, if◌then◌else◌, ◌/◌, map,
  take, length, ltb, leb, Option, none, some,
}
use grok_mcp_server.Base.Tables.{select_where}
use grok_mcp_server.Base.Texts.{Text, codes, text_eq, is_empty}
use grok_mcp_server.Verification.Python.{Python}

-- `ROLE_BRIEF`
abbrev pub role_brief : List (Text × Text)
role_brief =
    (codes "architect", codes "Boundaries, maintainability, reversibility.")
    ∷ (codes "pm", codes "Sequencing, dependencies, scope, budget.")
    ∷ (codes "engineer", codes "Implementation correctness and simplicity.")
    ∷ (codes "qa", codes "Evidence, recovery, operability; veto unsupported completion.")
    ∷ (codes "security", codes "Secret safety, abuse, attack surface; veto unsafe execution.")
    ∷ (codes "product", codes "User value and honest acceptance.")
    ∷ (codes "perf", codes "Latency and resource efficiency.")
    ∷ []

abbrev pub brief_of : Text → List (Text × Text) → Option Text
brief_of role [] = none
brief_of role (r ∷ rs) = if text_eq role r.0 then some r.1 else brief_of role rs

-- `VoterSlot`, without what is the same for every slot.
pub record VoterSlot : Type 0 where
  pub role_id : Text
  pub brief : Text

pub data Action : Type 0 where
  continue_work propose_done revise : Action

-- `Scorecard`, without what no code reads.
pub record Scorecard : Type 0 where
  pub role_id : Text
  pub recommended_action : Action
  pub hard_veto : Bool
  pub veto_reason : Text
  pub valid : Bool

-- The dict of `merge_scorecards`; `votes` is missing where a veto wins, and `veto_roles` and
-- `reasons` where none does.
pub record Merge : Type 0 where
  pub action : Action
  pub hard_veto : Bool
  pub veto_roles : List Text
  pub reasons : List Text
  pub votes : Option ℕ

abbrev pub engineer_slot : VoterSlot
engineer_slot = record {
  role_id = codes "engineer";
  brief = codes "Implementation correctness and simplicity.";
}

abbrev pub add_slot : (role : Text) → Option Text → List VoterSlot
add_slot role none = []
add_slot role (some brief) = record { role_id = role; brief = brief } ∷ []

abbrev pub or_engineer : List VoterSlot → List VoterSlot
or_engineer [] = engineer_slot ∷ []
or_engineer (s ∷ ss) = s ∷ ss

-- `max(1, min(cap, 7))`
abbrev pub slot_limit : ℕ → ℕ
slot_limit cap = max 1 (min cap 7)

module _ (py : Python) where
  abbrev pub slots_of : List Text → List VoterSlot
  slots_of [] = []
  slots_of (role ∷ roles) =
      let rid = py.lower (py.strip role) in add_slot rid (brief_of rid role_brief) ++ slots_of roles

  unfoldable pub build_slots : List Text → (cap : ℕ) → List VoterSlot
  build_slots roles cap = or_engineer (slots_of (take (slot_limit cap) roles))

  abbrev pub is_thin : (draft : Text) → Bool
  is_thin draft = ltb (length (py.strip draft)) 40

  -- `ShadowVoterExecutor.invoke`
  unfoldable pub invoke : (draft : Text) → VoterSlot → Scorecard
  invoke draft slot =
      let thin = is_thin draft in
      let veto =
        (text_eq slot.role_id (codes "qa") || text_eq slot.role_id (codes "security")) && thin in
      record {
        role_id = slot.role_id;
        recommended_action = if thin then continue_work else propose_done;
        hard_veto = veto;
        veto_reason = if veto then codes "thin_draft" else [];
        valid = true;
      }

abbrev pub can_veto : Scorecard → Bool
can_veto c = c.hard_veto && (text_eq c.role_id (codes "qa") || text_eq c.role_id (codes "security"))

abbrev pub proposes_done : Scorecard → Bool
proposes_done c = elim c.recommended_action [ propose_done ↦ true | other ↦ false ]

-- The hard vetoes of qa and security win; otherwise the valid cards vote.
abbrev pub merge_cards : (valid vetoes : List Scorecard) → Merge
merge_cards valid [] = record {
  action =
      if leb (max 1 (length valid / 2)) (length (select_where proposes_done valid))
      then propose_done
      else continue_work;
  hard_veto = false;
  veto_roles = [];
  reasons = [];
  votes = some (length valid);
}
merge_cards valid (v ∷ vs) = record {
  action = revise;
  hard_veto = true;
  veto_roles = map (λ (c : Scorecard). c.role_id) (v ∷ vs);
  reasons =
      select_where (λ (r : Text). not (is_empty r))
        (map (λ (c : Scorecard). c.veto_reason) (v ∷ vs));
  votes = none;
}

unfoldable pub merge_scorecards : List Scorecard → Merge
merge_scorecards cards =
    let valid = select_where (λ (c : Scorecard). c.valid) cards in
    merge_cards valid (select_where can_veto valid)
