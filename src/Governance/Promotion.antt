-- ===== src/Governance/Promotion.antt =====
-- When a version is approved, and when it is promoted in an environment.
use aart.Base.{
  ◌≡◌, refl, sym, ◌∙◌, ◌≢◌, ◌↔◌, inl, inr, ◌==◌, Bool, true, false, not, ◌&&◌, Bool-cases,
  false≢true, Option, none, some, List, [], ◌∷◌, arith, All, Text, length, filter,
}
use aart.Governance.{
  Gates, GateName, validate, human_review, TrustMode, dev, governed, strict, production,
  required_gates_by_mode, ApprovalState, draft, approved, deprecated, is_satisfied, every,
  compute_approval_state, is_approved, PromotionEvaluation, promotion_blocked, evaluated,
  compute_promotion_state, evaluate_promotion_for_environment,
}

module _ {A : Type 0} (p : A → Bool) where
  pub every-All : (xs : List A) → every p xs ≡ true → All (λ x. p x ≡ true) xs
  every-All [] h = tt
  every-All (x ∷ xs) h = elim (Bool-cases (p x)) [
    | inl e ↦ (e, every-All xs (rw e at h))
    | inr e ↦ absurd (false≢true (rw e at h))
  ]

  pub All-every : (xs : List A) → All (λ x. p x ≡ true) xs → every p xs ≡ true
  All-every [] h = refl
  All-every (x ∷ xs) (e, h) = rw e (All-every xs h)

  every-filter-not : (xs : List A) → (length (filter (λ x. not (p x)) xs) == 0) ≡ every p xs
  every-filter-not [] = refl
  every-filter-not (x ∷ xs) = elim (Bool-cases (p x)) [
    | inl e ↦ rw e (every-filter-not xs)
    | inr e ↦ rw e (ground arith)
  ]

draft≢approved : draft ≢ approved
draft≢approved h = cc

-- A version is approved exactly if its mode requires a gate at all and every gate that it requires is
-- passed or waived.
pub compute_approval_state-approved_iff :
    (gates : Gates) (required : List GateName)
    → (compute_approval_state gates required ≡ approved)
      ↔ ((required ≢ []) × All (λ g. is_satisfied (gates g) ≡ true) required)
unfolding compute_approval_state
compute_approval_state-approved_iff gates [] =
    (λ h. absurd (draft≢approved h), λ (some_gate, h). absurd (some_gate refl))
compute_approval_state-approved_iff gates (g ∷ gs) = (
  λ h. elim (Bool-cases (every sat (g ∷ gs))) [
    | inl e ↦ (λ no_gate. cc, every-All sat (g ∷ gs) e)
    | inr e ↦ absurd (draft≢approved (rw e at h))
  ],
  λ (some_gate, h). rw (All-every sat (g ∷ gs) h) refl,
)
  where
    sat : GateName → Bool
    sat gate = is_satisfied (gates gate)

-- Gates that approve a version in production approve it in every mode but dev, where none do.
pub compute_approval_state-production :
    (gates : Gates) (mode : TrustMode)
    → compute_approval_state gates (required_gates_by_mode production) ≡ approved
    → compute_approval_state gates (required_gates_by_mode mode)
      ≡ elim mode [ dev ↦ draft | _ ↦ approved ]
unfolding compute_approval_state
compute_approval_state-production gates mode h =
    let (some_gate, (v, (r, (e, (k, (u, done)))))) =
      (compute_approval_state-approved_iff gates (required_gates_by_mode production)).0 h in
    modes v u mode
  where
    modes :
        is_satisfied (gates validate) ≡ true
        → is_satisfied (gates human_review) ≡ true
        → (mode : TrustMode)
        → compute_approval_state gates (required_gates_by_mode mode)
          ≡ elim mode [ dev ↦ draft | _ ↦ approved ]
    modes v u dev = refl
    modes v u governed = rw (v, u) refl
    modes v u strict = rw (v, u) refl
    modes v u production = h

abbrev pub is_promoted : PromotionEvaluation → Bool
is_promoted (promotion_blocked environment) = false
is_promoted (evaluated r) = r.promoted

and_iff : (a b : Bool) → ((a && b) ≡ true) ↔ ((a ≡ true) × (b ≡ true))
and_iff a b = ground arith

is_approved_iff : (a : ApprovalState) → (is_approved a ≡ true) ↔ (a ≡ approved)
is_approved_iff draft = (λ h. absurd (ground arith), λ h. absurd (draft≢approved h))
is_approved_iff approved = (λ h. refl, λ h. refl)
is_approved_iff deprecated = (λ h. absurd (ground arith), λ h. cc)

module _ (a : ApprovalState) (gates : Gates) (required : List GateName) where
  sat : GateName → Bool
  sat gate = is_satisfied (gates gate)

  promoted_iff :
      ((is_approved a && length (filter (λ g. not (is_satisfied (gates g))) required) == 0) ≡ true)
      ↔ ((a ≡ approved) × All (λ g. is_satisfied (gates g) ≡ true) required)
  unfolding sat
  promoted_iff = (
    λ h.
        let (granted, all) = (and_iff (is_approved a) _).0 h in
        (
          (is_approved_iff a).0 granted,
          every-All sat required (sym (every-filter-not sat required) ∙ all),
        ),
    λ (granted, all).
        (and_iff (is_approved a) _).1 (
          (is_approved_iff a).1 granted,
          every-filter-not sat required ∙ All-every sat required all,
        ),
  )

-- A version is promoted in an environment exactly if its promotion is not blocked, it is approved
-- globally, and every gate that the environment requires is passed or waived.
pub evaluate_promotion_for_environment-promoted_iff :
    (blocked : Option Bool) (global_approval : ApprovalState) (gates : Gates)
    (required : List GateName) (environment : Text)
    → (is_promoted
          (evaluate_promotion_for_environment blocked global_approval gates required environment)
        ≡ true)
      ↔ ((blocked ≢ some true)
          × (global_approval ≡ approved)
          × All (λ g. is_satisfied (gates g) ≡ true) required)
unfolding evaluate_promotion_for_environment compute_promotion_state
evaluate_promotion_for_environment-promoted_iff (some true) a gates required environment =
    (λ h. absurd (false≢true h), λ r. absurd (r.0 refl))
evaluate_promotion_for_environment-promoted_iff (some false) a gates required environment = (
  λ h. let (granted, all) = (promoted_iff a gates required).0 h in (λ same. cc, granted, all),
  λ (free, granted, all). (promoted_iff a gates required).1 (granted, all),
)
evaluate_promotion_for_environment-promoted_iff none a gates required environment = (
  λ h. let (granted, all) = (promoted_iff a gates required).0 h in (λ same. cc, granted, all),
  λ (free, granted, all). (promoted_iff a gates required).1 (granted, all),
)
