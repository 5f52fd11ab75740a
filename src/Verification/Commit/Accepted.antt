-- ===== src/Verification/Commit/Accepted.antt =====
-- When a candidate is committed: an independent description of `verify_commit`.
use grok_mcp_server.Base.{
  ◌≤◌, ◌≡◌, ◌↔◌, ◌⊎◌, inl, inr, refl, List, [], ◌∷◌, ◌++◌, Bool, true, false, not, ◌&&◌, arith,
  ◌==◌, ==_iff, length, any, All, Bool-cases, ◌<◌, take, Option, none, some,
}
use grok_mcp_server.Base.Texts.{codes, text_eq, text_eq-true, text_eq_refl, is_empty, is_infix}
use grok_mcp_server.Missions.Status.{verifying, has_status, has_status-true}
use grok_mcp_server.Verification.Python.{Value, null, truth, number, text, arr, obj, Fields}
use grok_mcp_server.Verification.Evidence.{allows, is_human}
use grok_mcp_server.Verification.Gaps.{Gap, when, dedupe}
use grok_mcp_server.Verification.Commit.{
  VerifyInput, Host, is_invalid, is_object, class_of_record, is_independent, sealed_content_hash,
  text_gaps, payload_of, smuggles, is_smuggled, smuggling_gaps, records_of, is_forbidden,
  record_gaps, acceptable, has_independent, is_insufficient, lacks_human, all_gaps,
  verification_mode_of, verify_commit,
}

when-nil : (c : Bool) (g : Gap) → when c g ≡ [] → c ≡ false
when-nil true g h = cc
when-nil false g h = refl

nil-append : (xs ys : List Gap) → xs ++ ys ≡ [] → (xs ≡ []) × (ys ≡ [])
nil-append [] ys h = (refl, h)
nil-append (x ∷ xs) ys h = cc

is_empty-true : (xs : List Gap) → is_empty xs ≡ true → xs ≡ []
is_empty-true [] h = refl
is_empty-true (x ∷ xs) h = cc

dedupe-nil : (gs : List Gap) → is_empty (dedupe [] gs) ≡ true → gs ≡ []
dedupe-nil [] h = refl
dedupe-nil (g ∷ gs) h = cc

not-false : (b : Bool) → not b ≡ false → b ≡ true
not-false true h = refl
not-false false h = cc

module _ (host : Host) (i : VerifyInput) where
  -- A record that counts: an object of an allowed class in which, unless its class is structural, none
  -- of the candidate's references stands.
  abbrev pub IsClean : Value → Type 0
  IsClean v =
      (is_object v ≡ true)
      × (is_forbidden host i v ≡ false)
      × (allows i.policy (class_of_record v) ≡ true)

  -- The first 40 characters of a candidate that has as many do not stand in the JSON of a payload.
  abbrev pub IsUnsmuggled : Value → Type 0
  IsUnsmuggled v =
      (payload : Fields)
      → payload_of v ≡ some (obj payload)
      → (length i.candidate_text < 40)
        ⊎ (is_infix (take 40 i.candidate_text) (host.py.dumps (obj payload)) ≡ false)

  is_smuggled-false : (v : Value) → is_smuggled host i v ≡ false → IsUnsmuggled v
  is_smuggled-false v h payload e =
      let apart : smuggles host i (some (obj payload)) ≡ false = rw e at h in ground (arith, apart)

  smuggles-false :
      (o : Option Value)
      → ((payload : Fields)
          → o ≡ some (obj payload)
          → (length i.candidate_text < 40)
            ⊎ (is_infix (take 40 i.candidate_text) (host.py.dumps (obj payload)) ≡ false))
      → smuggles host i o ≡ false
  smuggles-false none h = refl
  smuggles-false (some null) h = refl
  smuggles-false (some (truth b)) h = refl
  smuggles-false (some (number n)) h = refl
  smuggles-false (some (text t)) h = refl
  smuggles-false (some (arr xs)) h = refl
  smuggles-false (some (obj payload)) h = let apart = h payload refl in ground (arith, apart)

  pub record Accepted : Type 0 where
    pub class_known : is_invalid i.frozen_task_class ≡ false
    pub mode_known : is_invalid i.frozen_verification_mode ≡ false
    pub status : i.status ≡ verifying
    pub generation : i.lease_generation ≡ i.expected_lease_generation
    pub no_security_veto : i.security_veto ≡ false
    pub no_qa_veto : i.qa_veto ≡ false
    pub sealed : sealed_content_hash host (codes "candidate") i.candidate_text ≡ i.candidate_hash
    pub text : text_gaps host i ≡ []
    pub unsmuggled : All IsUnsmuggled i.evidence_records
    pub clean : All IsClean (records_of host i)
    pub enough : i.policy.min_records ≤ length (acceptable host i)
    pub independent :
        (is_independent (verification_mode_of host i) ≡ false) ⊎ (has_independent host i ≡ true)
    pub human :
        (i.destructive ≡ false)
        ⊎ (i.policy.require_human_for_destructive ≡ false)
        ⊎ (any (λ v. is_human (class_of_record v)) (acceptable host i) ≡ true)

  smuggling-All : (vs : List Value) → smuggling_gaps host i vs ≡ [] → All IsUnsmuggled vs
  unfolding smuggling_gaps
  smuggling-All [] h = tt
  smuggling-All (v ∷ vs) h =
      let (first, rest) = nil-append (when (is_smuggled host i v) _) (smuggling_gaps host i vs) h in
      (is_smuggled-false v (when-nil (is_smuggled host i v) _ first), smuggling-All vs rest)

  All-smuggling : (vs : List Value) → All IsUnsmuggled vs → smuggling_gaps host i vs ≡ []
  unfolding smuggling_gaps
  All-smuggling [] h = refl
  All-smuggling (v ∷ vs) h = rw (smuggles-false (payload_of v) h.0, All-smuggling vs h.1) refl

  record_gaps-All : (vs : List Value) → record_gaps host i vs ≡ [] → All IsClean vs
  unfolding record_gaps
  record_gaps-All [] h = tt
  record_gaps-All (v ∷ vs) h = elim (Bool-cases (is_object v)) [
    | inr other ↦ cc (rw (other, record_gaps) at h)
    | inl object ↦
        let (first, rest) = nil-append _ (record_gaps host i vs) (rw (object, record_gaps) at h) in
        let (own, allowed) = nil-append (when (is_forbidden host i v) _) _ first in
        (
          (
            object,
            when-nil (is_forbidden host i v) _ own,
            not-false (allows i.policy (class_of_record v)) (when-nil _ _ allowed),
          ),
          record_gaps-All vs rest,
        )
  ]

  All-record_gaps : (vs : List Value) → All IsClean vs → record_gaps host i vs ≡ []
  unfolding record_gaps
  All-record_gaps [] h = refl
  All-record_gaps (v ∷ vs) h = rw (h.0.0, h.0.1, h.0.2, All-record_gaps vs h.1) refl

  sufficient :
      is_insufficient host i ≡ false
      → (i.policy.min_records ≤ length (acceptable host i))
        × ((is_independent (verification_mode_of host i) ≡ false) ⊎ (has_independent host i ≡ true))
  unfolding is_insufficient
  sufficient h = ground (arith, h)

  human_enough :
      lacks_human host i ≡ false
      → (i.destructive ≡ false)
        ⊎ (i.policy.require_human_for_destructive ≡ false)
        ⊎ (any (λ v. is_human (class_of_record v)) (acceptable host i) ≡ true)
  human_enough h = ground (arith, h)

  accepted_sound : all_gaps host i ≡ [] → Accepted
  unfolding all_gaps
  accepted_sound h =
      let (g0, h0) = nil-append (when (is_invalid i.frozen_task_class) _) _ h in
      let (g1, h1) = nil-append (when (is_invalid i.frozen_verification_mode) _) _ h0 in
      let (g2, h2) = nil-append (when (not (has_status i.status verifying)) _) _ h1 in
      let (g3, h3) =
        nil-append (when (not (i.lease_generation == i.expected_lease_generation)) _) _ h2 in
      let (g4, h4) = nil-append (when i.security_veto _) _ h3 in
      let (g5, h5) = nil-append (when i.qa_veto _) _ h4 in
      let (g6, h6) = nil-append (when (not (text_eq _ i.candidate_hash)) _) _ h5 in
      let (g7, h7) = nil-append (text_gaps host i) _ h6 in
      let (g8, h8) = nil-append (smuggling_gaps host i i.evidence_records) _ h7 in
      let (g9, h9) = nil-append (record_gaps host i (records_of host i)) _ h8 in
      let (g10, g11) = nil-append (when (is_insufficient host i && _) _) _ h9 in
      let weak = when-nil (is_insufficient host i && _) _ g10 in
      let passed = sufficient (ground (arith, weak, g7)) in
      record {
        class_known = when-nil _ _ g0;
        mode_known = when-nil _ _ g1;
        status = has_status-true i.status verifying (not-false _ (when-nil _ _ g2));
        generation =
            (==_iff i.lease_generation i.expected_lease_generation).0
              (not-false _ (when-nil _ _ g3));
        no_security_veto = when-nil _ _ g4;
        no_qa_veto = when-nil _ _ g5;
        sealed =
            text_eq-true (sealed_content_hash host (codes "candidate") i.candidate_text)
              i.candidate_hash (not-false _ (when-nil _ _ g6));
        text = g7;
        unsmuggled = smuggling-All i.evidence_records g8;
        clean = record_gaps-All (records_of host i) g9;
        enough = passed.0;
        independent = passed.1;
        human = human_enough (when-nil _ _ g11);
      }

  insufficient-false :
      i.policy.min_records ≤ length (acceptable host i)
      → (is_independent (verification_mode_of host i) ≡ false) ⊎ (has_independent host i ≡ true)
      → is_insufficient host i ≡ false
  unfolding is_insufficient
  insufficient-false enough independent = ground (arith, enough, independent)

  lacks_human-false :
      (i.destructive ≡ false)
        ⊎ (i.policy.require_human_for_destructive ≡ false)
        ⊎ (any (λ v. is_human (class_of_record v)) (acceptable host i) ≡ true)
      → lacks_human host i ≡ false
  lacks_human-false h = ground (arith, h)

  accepted_complete : Accepted → all_gaps host i ≡ []
  unfolding all_gaps
  accepted_complete a =
      let hash : text_eq (sealed_content_hash host (codes "candidate") i.candidate_text)
            i.candidate_hash
          ≡ true =
        rw (a.sealed) (text_eq_refl i.candidate_hash) in
      let now : has_status i.status verifying ≡ true = rw (a.status) refl in
      let held : (i.lease_generation == i.expected_lease_generation) ≡ true =
        (==_iff i.lease_generation i.expected_lease_generation).1 a.generation in
      simp
        (
          a.class_known,
          a.mode_known,
          now,
          held,
          a.no_security_veto,
          a.no_qa_veto,
          hash,
          a.text,
          All-smuggling i.evidence_records a.unsmuggled,
          All-record_gaps (records_of host i) a.clean,
          insufficient-false a.enough a.independent,
          lacks_human-false a.human,
        )
        refl

  -- The verifier accepts a candidate exactly when: its controls are known, the mission is being
  -- verified under the expected lease generation, no voter vetoes, the hash seals the text, the text
  -- has no gap, no object payload has in its JSON the first 40 characters of a candidate of at least
  -- 40 characters, every record counts (an object of an allowed class that, unless its class is
  -- structural, holds none of the candidate's references), there are enough of them, one of them is
  -- not structural where the mode asks for that, and one is a human approval where the mission is
  -- destructive and the policy asks for that.
  pub verify_commit_iff : ((verify_commit host i).ok ≡ true) ↔ Accepted
  unfolding verify_commit
  verify_commit_iff =
      ((λ h. accepted_sound (dedupe-nil (all_gaps host i) h)), (λ a. rw (accepted_complete a) refl))
