-- ===== src/Governance.antt =====
-- packages/governance/src/gates.ts, approval.ts, risk-tiers.ts, standing-approvals.ts and
-- capability.ts (the closure of a step list in Governance/Closure)
--
-- A time is its number of milliseconds, which orders ISO strings. The set of a list is the list.
pub mod Risk
pub mod Capabilities
pub mod Promotion
pub mod Subjects
pub mod Closure
mod Tests
use aart.Base.{
  ℕ, Bool, true, false, not, ◌&&◌, ◌||◌, Option, none, some, List, [], ◌∷◌, map, Text, text_eq,
  codes, starts_with, is_inherited, length, filter, find, any, ltb, leb, ◌==◌, if◌then◌else◌,
}

pub data GateStatus : Type 0 where
  pending passed failed waived : GateStatus

pub data GateName : Type 0 where
  validate readiness evals risk_review human_review : GateName

abbrev pub Gates : Type 0
Gates = GateName → GateStatus

pub data TrustMode : Type 0 where
  dev governed strict production : TrustMode

pub data ApprovalState : Type 0 where
  draft approved deprecated : ApprovalState

-- `REQUIRED_GATES_BY_MODE`
abbrev pub required_gates_by_mode : TrustMode → List GateName
required_gates_by_mode dev = []
required_gates_by_mode governed = validate ∷ human_review ∷ []
required_gates_by_mode strict = validate ∷ human_review ∷ []
required_gates_by_mode production = validate ∷ readiness ∷ evals ∷ risk_review ∷ human_review ∷ []

-- `gates[gate] === "passed" || gates[gate] === "waived"`
abbrev pub is_satisfied : GateStatus → Bool
is_satisfied passed = true
is_satisfied waived = true
is_satisfied pending = false
is_satisfied failed = false

-- `Array.prototype.every`
abbrev pub every : {A : Type 0} → (A → Bool) → List A → Bool
every p [] = true
every p (x ∷ xs) = p x && every p xs

unfoldable pub compute_approval_state : Gates → List GateName → ApprovalState
compute_approval_state gates [] = draft
compute_approval_state gates (g ∷ gs) =
    if every (λ gate. is_satisfied (gates gate)) (g ∷ gs) then approved else draft

pub record PromotionRecord : Type 0 where
  pub environment : Text
  pub promoted : Bool
  pub global_approval : ApprovalState
  pub required_gates : List GateName
  pub unmet_gates : List GateName

abbrev pub is_approved : ApprovalState → Bool
is_approved approved = true
is_approved draft = false
is_approved deprecated = false

unfoldable pub compute_promotion_state :
    ApprovalState → Gates → List GateName → Text → PromotionRecord
compute_promotion_state global_approval gates required environment =
    let unmet = filter (λ gate. not (is_satisfied (gates gate))) required in
    record {
      environment = environment;
      promoted = is_approved global_approval && length unmet == 0;
      global_approval = global_approval;
      required_gates = required;
      unmet_gates = unmet;
    }

pub data PromotionEvaluation : Type 0 where
  promotion_blocked : Text → PromotionEvaluation
  evaluated : PromotionRecord → PromotionEvaluation

-- `blocked` is `workflow.promotionBlocked`.
unfoldable pub evaluate_promotion_for_environment :
    Option Bool → ApprovalState → Gates → List GateName → Text → PromotionEvaluation
evaluate_promotion_for_environment (some true) global_approval gates required environment =
    promotion_blocked environment
evaluate_promotion_for_environment blocked global_approval gates required environment =
    evaluated (compute_promotion_state global_approval gates required environment)

pub data RiskTier : Type 0 where
  low low_medium medium high : RiskTier

-- `RISK_TIER_RANK`
abbrev pub rank : RiskTier → ℕ
rank low = 0
rank low_medium = 1
rank medium = 2
rank high = 3

-- `compareRiskTiers(a, b) > 0`
abbrev pub is_riskier : RiskTier → RiskTier → Bool
is_riskier a b = ltb (rank b) (rank a)

-- What a table of tiers is found to have under a name: a tier, or a member that every object
-- inherits from `Object.prototype`.
pub data TableValue : Type 0 where
  tier_value : RiskTier → TableValue
  inherited_value : TableValue

-- A round of `reduce`. `RISK_TIER_RANK` has no rank of an inherited member, and a comparison with `NaN`
-- is false.
abbrev pub higher_tier : RiskTier → TableValue → RiskTier
higher_tier max (tier_value t) = if is_riskier t max then t else max
higher_tier max inherited_value = max

-- `tiers.reduce(…)`, from `max` on.
abbrev pub max_from : RiskTier → List TableValue → RiskTier
max_from max [] = max
max_from max (t ∷ tiers) = max_from (higher_tier max t) tiers

unfoldable pub max_risk_tier : List TableValue → RiskTier
max_risk_tier tiers = max_from low tiers

-- `isRiskTierName`, with the tier that the name stands for.
abbrev pub tier_named : Text → Option RiskTier
tier_named value =
    if text_eq value (codes "Low")
    then some low
    else if text_eq value (codes "Low-medium")
    then some low_medium
    else if text_eq value (codes "Medium")
    then some medium
    else if text_eq value (codes "High")
    then some high
    else none

-- `BASE_CAPABILITY_RISK`
abbrev pub base_capability_risk : List (Text × RiskTier)
base_capability_risk =
    (codes "file.read", low_medium)
    ∷ (codes "file.write", medium)
    ∷ (codes "http", medium)
    ∷ (codes "browser", medium)
    ∷ (codes "llm", medium)
    ∷ (codes "queue", medium)
    ∷ (codes "db.read", medium)
    ∷ (codes "email.send", high)
    ∷ (codes "command", high)
    ∷ (codes "db.write", high)
    ∷ []

-- `table[capability] ?? "High"`: an own entry, or else an inherited member.
abbrev pub risk_in : List (Text × RiskTier) → Text → TableValue
risk_in [] capability = if is_inherited capability then inherited_value else tier_value high
risk_in ((name, tier) ∷ table) capability =
    if text_eq name capability then tier_value tier else risk_in table capability

unfoldable pub risk_for_capability : Text → TableValue
risk_for_capability capability =
    if starts_with capability (codes "secrets:") || starts_with capability (codes "domain:")
    then tier_value high
    else risk_in base_capability_risk capability

-- `new Set(list).has(item)`
abbrev pub has : List Text → Text → Bool
has list item = any (text_eq item) list

-- `isSubset`
abbrev pub is_subset : List Text → List Text → Bool
is_subset subset superset = every (has superset) subset

pub record StandingApproval : Type 0 where
  pub capabilities : List Text
  pub max_tier : Text
  pub expires_at : ℕ

-- The test of `find`.
abbrev pub covers : RiskTier → List Text → ℕ → StandingApproval → Bool
covers risk_tier capability_closure now a =
    if leb a.expires_at now then false else elim (tier_named a.max_tier) [
      | none ↦ false
      | some tier ↦
          if is_riskier risk_tier tier then false else is_subset capability_closure a.capabilities
    ]

unfoldable pub find_matching_standing_approval :
    RiskTier → List Text → ℕ → List StandingApproval → Option StandingApproval
find_matching_standing_approval risk_tier capability_closure now approvals =
    find (covers risk_tier capability_closure now) approvals

unfoldable pub check_capability : List Text → List Text → Bool
check_capability declared granted = every (has granted) declared

pub record GrantedCapabilitiesInput : Type 0 where
  pub trust_mode : TrustMode
  pub approval_state : ApprovalState
  pub capability_closure : List Text
  pub risk_tier : RiskTier
  pub standing_approvals : List StandingApproval
  pub now : ℕ

abbrev pub is_dev : TrustMode → Bool
is_dev dev = true
is_dev mode = false

unfoldable pub get_granted_capabilities : GrantedCapabilitiesInput → List Text
get_granted_capabilities input =
    if is_dev input.trust_mode
    then input.capability_closure
    else if is_approved input.approval_state
    then input.capability_closure
    else elim (find_matching_standing_approval input.risk_tier input.capability_closure input.now
        input.standing_approvals) [ none ↦ [] | some a ↦ input.capability_closure ]

-- `normalizeEnvironmentTrustMode` of a string.
unfoldable pub normalize_environment_trust_mode : Text → TrustMode
normalize_environment_trust_mode raw =
    if text_eq raw (codes "dev")
    then dev
    else if text_eq raw (codes "governed")
    then governed
    else if text_eq raw (codes "strict")
    then strict
    else if text_eq raw (codes "production")
    then production
    else governed
