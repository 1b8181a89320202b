-- ===== src/Governance/Capabilities.antt =====
-- What a run may do.
use aart.Base.{
  find-Member, Member-find, ℕ, ◌≤◌, ◌<◌, ◌≡◌, refl, ap, sym, ◌∙◌, ◌≢◌, ◌↔◌, ◌⊎◌, inl, inr, true,
  false, Bool-cases, false≢true, some, Option-cases, List, [], ◌∷◌, arith, All, Member, Text,
  text_eq, text_eq_sound, text_eq_self, find, leb,
}
use aart.Governance.{
  every, is_approved, is_dev, RiskTier, rank, is_riskier, tier_named, has, StandingApproval, covers,
  find_matching_standing_approval, check_capability, GrantedCapabilitiesInput,
  get_granted_capabilities,
}
use aart.Governance.Promotion.{every-All, All-every}

has-Member : (list : List Text) (item : Text) → has list item ≡ true → Member item list
has-Member [] item h = absurd (false≢true h)
has-Member (x ∷ list) item h = elim (Bool-cases (text_eq item x)) [
  | inl e ↦ inl (text_eq_sound item x e)
  | inr e ↦ inr (has-Member list item (rw e at h))
]

Member-has : (list : List Text) (item : Text) → Member item list → has list item ≡ true
Member-has [] item m = absurd m
Member-has (x ∷ list) item (inl e) = rw (e, text_eq_self x) refl
Member-has (x ∷ list) item (inr m) = elim (Bool-cases (text_eq item x)) [
  | inl e ↦ rw e refl
  | inr e ↦ rw e (Member-has list item m)
]

All-map :
    {A : Type 0} (P Q : A → Type 0) → ((x : A) → P x → Q x) → (xs : List A) → All P xs → All Q xs
All-map P Q f [] h = tt
All-map P Q f (x ∷ xs) (p, h) = (f x p, All-map P Q f xs h)

-- Every member of a list is one of another.
abbrev pub Within : List Text → List Text → Type 0
Within xs ys = All (λ x. Member x ys) xs

pub every-Within_iff : (ys xs : List Text) → (every (has ys) xs ≡ true) ↔ Within xs ys
every-Within_iff ys xs = (
  λ h. All-map _ _ (has-Member ys) xs (every-All (has ys) xs h),
  λ w. All-every (has ys) xs (All-map _ _ (Member-has ys) xs w),
)

-- A standing approval that covers a closure: it has not expired, its tier is a known one and not below
-- the risk, and it has every capability of the closure.
pub record Covers (risk : RiskTier) (closure : List Text) (now : ℕ) (a : StandingApproval)
    : Type 0 where
  pub alive : now < a.expires_at
  pub tier : RiskTier
  pub known : tier_named a.max_tier ≡ some tier
  pub bounded : rank risk ≤ rank tier
  pub within : Within closure a.capabilities

covers-Covers :
    (risk : RiskTier) (closure : List Text) (now : ℕ) (a : StandingApproval)
    → covers risk closure now a ≡ true
    → Covers risk closure now a
covers-Covers risk closure now a h = elim (Bool-cases (leb a.expires_at now)) [
  | inl e ↦ absurd (false≢true (rw (e, covers) at h))
  | inr e ↦ elim (Option-cases (tier_named a.max_tier)) [
    | inl f ↦ absurd (false≢true (rw (e, f, covers) at h))
    | inr (t, f) ↦ elim (Bool-cases (is_riskier risk t)) [
      | inl r ↦ absurd (false≢true (rw (e, f, r, covers) at h))
      | inr r ↦ record {
        alive = ground arith;
        tier = t;
        known = f;
        bounded = ground arith;
        within = (every-Within_iff a.capabilities closure).0 (rw (e, f, r, covers) at h);
      }
    ]
  ]
]

Covers-covers :
    (risk : RiskTier) (closure : List Text) (now : ℕ) (a : StandingApproval)
    → Covers risk closure now a
    → covers risk closure now a ≡ true
Covers-covers risk closure now a c =
    let alive : leb a.expires_at now ≡ false = let k = c.alive in ground arith in
    let bounded : is_riskier risk c.tier ≡ false = let k = c.bounded in ground arith in
    rw (alive, c.known, bounded, covers) ((every-Within_iff a.capabilities closure).1 c.within)

-- What lets a run act: the mode dev, a global approval, or a standing approval that covers the closure.
abbrev pub Permits : GrantedCapabilitiesInput → Type 0
Permits input =
    (is_dev input.trust_mode ≡ true)
    ⊎ ((is_approved input.approval_state ≡ true)
        ⊎ ((a : StandingApproval) × Member a input.standing_approvals
            × Covers input.risk_tier input.capability_closure input.now a))

granted-all :
    (input : GrantedCapabilitiesInput)
    → Permits input
    → get_granted_capabilities input ≡ input.capability_closure
unfolding get_granted_capabilities find_matching_standing_approval
granted-all input (inl d) = rw d refl
granted-all input (inr (inl a)) = elim (Bool-cases (is_dev input.trust_mode)) [
  | inl d ↦ rw d refl
  | inr d ↦ rw (d, a) refl
]
granted-all input (inr (inr (a, m, c))) =
    let (b, f) =
      Member-find (covers input.risk_tier input.capability_closure input.now)
        input.standing_approvals a m
        (Covers-covers input.risk_tier input.capability_closure input.now a c) in
    elim (Bool-cases (is_dev input.trust_mode)) [
      | inl d ↦ rw d refl
      | inr d ↦ elim (Bool-cases (is_approved input.approval_state)) [
        | inl g ↦ rw (d, g) refl
        | inr g ↦ rw (d, g, f) refl
      ]
    ]

granted_cases :
    (input : GrantedCapabilitiesInput) → (get_granted_capabilities input ≡ []) ⊎ Permits input
unfolding get_granted_capabilities find_matching_standing_approval
granted_cases input = elim (Bool-cases (is_dev input.trust_mode)) [
  | inl d ↦ inr (inl d)
  | inr d ↦ elim (Bool-cases (is_approved input.approval_state)) [
    | inl g ↦ inr (inr (inl g))
    | inr g ↦
        elim (Option-cases (
          find (covers input.risk_tier input.capability_closure input.now)
            input.standing_approvals)) [
              | inl f ↦ inl (rw (d, g, f) refl)
              | inr (a, f) ↦
                  let (m, t) = find-Member _ input.standing_approvals a f in
                  inr (inr (inr (a, m, covers-Covers _ _ _ a t)))
            ]
  ]
]

-- A step that declares a capability is dispatched exactly if every capability that it declares is in
-- the closure, and the mode is dev, the version is approved, or a standing approval covers the closure:
-- one that has not expired, whose tier is a known one and not below the risk, with every capability of
-- the closure.
pub check_capability-granted_iff :
    (declared : List Text) (input : GrantedCapabilitiesInput)
    → declared ≢ []
    → (check_capability declared (get_granted_capabilities input) ≡ true)
      ↔ (Within declared input.capability_closure × Permits input)
unfolding check_capability
check_capability-granted_iff [] input some_declared = absurd (some_declared refl)
check_capability-granted_iff (c ∷ cs) input some_declared = (
  λ h. elim (granted_cases input) [
    | inl nothing ↦ absurd (false≢true (rw nothing at h))
    | inr p ↦ (
      (every-Within_iff input.capability_closure (c ∷ cs)).0
          (ap (λ l. every (has l) (c ∷ cs)) (sym (granted-all input p)) ∙ h),
      p,
    )
  ],
  λ (w, p).
      ap (λ l. every (has l) (c ∷ cs)) (granted-all input p)
      ∙ (every-Within_iff input.capability_closure (c ∷ cs)).1 w,
)
