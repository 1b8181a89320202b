-- ===== src/Governance/Tests.antt =====
-- Runs of the approval rules, and the theorems at concrete inputs.
use aart.Base.{
  is_inherited, ◌≤◌, ◌≡◌, refl, ◌≢◌, ◌↔◌, ◌⊎◌, true, false, none, some, List, [], ◌∷◌, map, All,
  Member, codes, Text, has, Option, text_eq, if◌then◌else◌, arith, sym, ap, ◌∙◌, inl, inr, subst,
}
use aart.Governance.Closure.{
  CapabilityClosureNode, block, workflow, CapabilityClosureResult, risk_of,
  compute_capability_closure,
}
use aart.Governance.Closure.Exact.{Reach, Declares, compute_capability_closure-exact}
use aart.Governance.Closure.Depth.{IsClosed, compute_capability_closure-total}
use aart.Governance.Subjects.{
  workflow_version_approval_subject, decode_gate_from_step_id,
  decode_workflow_version_approval_subject, decode-workflow_version_approval_subject,
  decode_workflow_version_approval_subject-eq-some,
}
use aart.Governance.{
  TableValue, tier_value, inherited_value, risk_review, human_review, Gates, passed, waived, evals,
  governed, strict, production, required_gates_by_mode, draft, approved, is_satisfied,
  compute_approval_state, evaluate_promotion_for_environment, RiskTier, low, low_medium, medium,
  high, rank, max_risk_tier, risk_for_capability, check_capability, GrantedCapabilitiesInput,
  find_matching_standing_approval, get_granted_capabilities, normalize_environment_trust_mode,
}
use aart.Governance.Risk.{max_risk_tier-ceiling, max_risk_tier-capabilities}
use aart.Governance.Promotion.{
  is_promoted, compute_approval_state-production, evaluate_promotion_for_environment-promoted_iff,
}
use aart.Governance.Capabilities.{Within, Permits, check_capability-granted_iff}

-- Everything passed but the evals, which are waived.
abbrev gates : Gates
gates evals = waived
gates gate = passed

no_mode : normalize_environment_trust_mode (codes "prod") ≡ governed
unfolding normalize_environment_trust_mode
no_mode = refl

unknown : risk_for_capability (codes "teleport") ≡ tier_value high
unfolding risk_for_capability is_inherited
unknown = refl

-- A capability that has the name of a member of `Object.prototype` leaves the risk low.
low_risk : max_risk_tier (map risk_for_capability (codes "constructor" ∷ [])) ≡ low
unfolding max_risk_tier risk_for_capability is_inherited
low_risk = refl

all_gates : compute_approval_state gates (required_gates_by_mode production) ≡ approved
unfolding compute_approval_state
all_gates = refl

compute_approval_state-production_example :
    compute_approval_state gates (required_gates_by_mode strict) ≡ approved
compute_approval_state-production_example = compute_approval_state-production gates strict all_gates

evaluate_promotion_for_environment-promoted_iff_example :
    (is_promoted
        (evaluate_promotion_for_environment (some true) approved gates (evals ∷ []) (codes "prod"))
      ≡ true)
    ↔ ((some true ≢ some true)
        × (approved ≡ approved)
        × All (λ g. is_satisfied (gates g) ≡ true) (evals ∷ []))
evaluate_promotion_for_environment-promoted_iff_example =
    evaluate_promotion_for_environment-promoted_iff (some true) approved gates (evals ∷ [])
      (codes "prod")

abbrev tiers : List TableValue
tiers = tier_value low_medium ∷ tier_value high ∷ inherited_value ∷ tier_value medium ∷ []

max_risk_tier-ceiling_example :
    ((t : RiskTier) → Member (tier_value t) tiers → rank t ≤ rank (max_risk_tier tiers))
    × ((max_risk_tier tiers ≡ low) ⊎ Member (tier_value (max_risk_tier tiers)) tiers)
max_risk_tier-ceiling_example = max_risk_tier-ceiling tiers

abbrev names : List Text
names = codes "file.read" ∷ codes "toString" ∷ codes "http" ∷ []

max_risk_tier-capabilities_example :
    ((max_risk_tier (map risk_for_capability names) ≡ low) ↔ All (λ c. is_inherited c ≡ true) names)
    × ((c : Text) (t : RiskTier)
        → Member c names
        → risk_for_capability c ≡ tier_value t
        → rank t ≤ rank (max_risk_tier (map risk_for_capability names)))
max_risk_tier-capabilities_example = max_risk_tier-capabilities names

-- A draft that needs the network, and a standing approval for it.
abbrev input : GrantedCapabilitiesInput
input = record {
  trust_mode = strict;
  approval_state = draft;
  capability_closure = codes "http" ∷ [];
  risk_tier = medium;
  standing_approvals =
      record {
        capabilities = codes "llm" ∷ codes "http" ∷ [];
        max_tier = codes "Medium";
        expires_at = 200;
      }
      ∷ [];
  now = 100;
}

granted : check_capability (codes "http" ∷ []) (get_granted_capabilities input) ≡ true
unfolding check_capability get_granted_capabilities find_matching_standing_approval
granted = refl

expired :
    check_capability (codes "http" ∷ []) (get_granted_capabilities (record input { now = 200 }))
    ≡ false
unfolding check_capability get_granted_capabilities find_matching_standing_approval
expired = refl

check_capability-granted_iff_example :
    (check_capability (codes "http" ∷ []) (get_granted_capabilities input) ≡ true)
    ↔ (Within (codes "http" ∷ []) (codes "http" ∷ []) × Permits input)
check_capability-granted_iff_example =
    check_capability-granted_iff (codes "http" ∷ []) input (λ h. cc)

-- A workflow id with an `@` in it.
abbrev scoped : Text
scoped = codes "@acme/sync"

decode-workflow_version_approval_subject_example :
    decode_workflow_version_approval_subject
      (workflow_version_approval_subject scoped (codes "1.2.0") risk_review).run_id
      (some (workflow_version_approval_subject scoped (codes "1.2.0") risk_review).step_id)
    ≡ some (record { workflow_id = scoped; workflow_version = codes "1.2.0"; gate = risk_review })
decode-workflow_version_approval_subject_example =
    decode-workflow_version_approval_subject scoped (codes "1.2.0") risk_review refl

decodes :
    decode_workflow_version_approval_subject (codes "workflow-version:@acme/sync@1.2.0") none
    ≡ some (record { workflow_id = scoped; workflow_version = codes "1.2.0"; gate = human_review })
unfolding decode_workflow_version_approval_subject decode_gate_from_step_id
decodes = refl

decode_workflow_version_approval_subject-eq-some_example :
    ((workflow_version_approval_subject scoped (codes "1.2.0") human_review).run_id
      ≡ codes "workflow-version:@acme/sync@1.2.0")
    × (has b'@' (codes "1.2.0") ≡ false)
decode_workflow_version_approval_subject-eq-some_example =
    decode_workflow_version_approval_subject-eq-some (codes "workflow-version:@acme/sync@1.2.0")
      none (record { workflow_id = scoped; workflow_version = codes "1.2.0"; gate = human_review })
      decodes

-- Two workflows that use each other, and a block that one of them uses.
abbrev circle : Text → Option CapabilityClosureNode
circle b =
    if text_eq b (codes "a")
    then some (workflow (codes "b" ∷ codes "shell.exec" ∷ []))
    else if text_eq b (codes "b")
    then some (workflow (codes "a" ∷ []))
    else if text_eq b (codes "shell.exec")
    then some (block (codes "shell" ∷ []))
    else none

abbrev unsorted : List Text → List Text
unsorted xs = xs

unsorted-Member : (xs : List Text) (c : Text) → Member c (unsorted xs) ↔ Member c xs
unsorted-Member xs c = (λ m. m, λ m. m)

abbrev circle_result : CapabilityClosureResult
circle_result = record {
  capabilities = codes "shell" ∷ [];
  risk_tier = risk_of circle (codes "shell" ∷ []);
  unresolved = [];
}

circle_closed : compute_capability_closure circle unsorted 3 (codes "a" ∷ []) ≡ some circle_result
unfolding compute_capability_closure
circle_closed = refl

compute_capability_closure-exact_example :
    (circle_result.risk_tier ≡ risk_of circle circle_result.capabilities)
    × ((c : Text)
        → Member c circle_result.capabilities
          ↔ ((b : Text) × (Reach circle (codes "a" ∷ []) b × Declares circle b c)))
compute_capability_closure-exact_example =
    compute_capability_closure-exact circle unsorted unsorted-Member 3 (codes "a" ∷ [])
      circle_result circle_closed

abbrev circle_ids : List Text
circle_ids = codes "a" ∷ codes "b" ∷ codes "shell.exec" ∷ []

abbrev uses_of : Option CapabilityClosureNode → List Text
uses_of none = []
uses_of (some (block capabilities)) = []
uses_of (some (workflow uses)) = uses

-- What a block of the circle uses, when it is known.
circle_uses :
    (b c : Text) (inner : List Text)
    → b ≡ c
    → circle b ≡ some (workflow inner)
    → uses_of (circle c) ≡ inner
circle_uses b c inner e h = ap (λ x. uses_of (circle x)) (sym e) ∙ ap uses_of h

circle_ids-IsClosed : IsClosed circle circle_ids
circle_ids-IsClosed b inner (inl e) h = λ x m.
    elim (subst (Member x) (sym (circle_uses b (codes "a") inner e h)) m) [
      | inl same ↦ inr (inl same)
      | inr n ↦ inr (inr n)
    ]
circle_ids-IsClosed b inner (inr (inl e)) h = λ x m.
    elim (subst (Member x) (sym (circle_uses b (codes "b") inner e h)) m) [
      | inl same ↦ inl same
      | inr n ↦ absurd n
    ]
circle_ids-IsClosed b inner (inr (inr (inl e))) h =
    λ x m. absurd (subst (Member x) (sym (circle_uses b (codes "shell.exec") inner e h)) m)
circle_ids-IsClosed b inner (inr (inr (inr n))) h = absurd n

compute_capability_closure-total_example :
    (r : CapabilityClosureResult) × (compute_capability_closure circle unsorted 3 (codes "a" ∷ [])
      ≡ some r)
compute_capability_closure-total_example =
    compute_capability_closure-total circle unsorted circle_ids (codes "a" ∷ []) 3
      circle_ids-IsClosed (λ x m. elim m [ inl e ↦ inl e | inr n ↦ absurd n ]) (omega arith)
