-- ===== src/Governance/Risk.antt =====
-- The risk of a closure is its highest.
use aart.Base.{
  ◌≤◌, ◌<◌, ◌≡◌, refl, ap, sym, subst, ◌∙◌, ◌⊎◌, ◌↔◌, inl, inr, true, false, Bool-cases, List, [],
  ◌∷◌, arith, All, Member, map, any, Text, text_eq, text_eq_sound, codes, false≢true, starts_with,
  ◌||◌, is_inherited, object_members,
}
use aart.Governance.{
  RiskTier, low, rank, is_riskier, TableValue, tier_value, inherited_value, higher_tier, max_from,
  max_risk_tier, risk_in, high, base_capability_risk, risk_for_capability,
}

higher_tier-cases :
    (m : RiskTier) (v : TableValue)
    → ((higher_tier m v ≡ m) × ((t : RiskTier) → v ≡ tier_value t → rank t ≤ rank m))
      ⊎ ((v ≡ tier_value (higher_tier m v)) × (rank m < rank (higher_tier m v)))
higher_tier-cases m inherited_value = inl (refl, λ t e. cc)
higher_tier-cases m (tier_value u) = elim (Bool-cases (is_riskier u m)) [
  | inl e ↦ inr (rw e refl, rw e (ground arith))
  | inr e ↦
      inl (
        rw e refl,
        λ t f. let same : u ≡ t = cc in subst (λ x. rank x ≤ rank m) same (ground arith),
      )
]

max_from-ceiling :
    (m : RiskTier) (tiers : List TableValue)
    → (rank m ≤ rank (max_from m tiers))
      × ((t : RiskTier) → Member (tier_value t) tiers → rank t ≤ rank (max_from m tiers))
max_from-ceiling m [] = (omega arith, λ t k. absurd k)
max_from-ceiling m (v ∷ tiers) =
    let (above, all) = max_from-ceiling (higher_tier m v) tiers in
    elim (higher_tier-cases m v) [
      | inl (same, lower) ↦
          let here : rank (higher_tier m v) ≡ rank m = ap rank same in
          (
            omega arith,
            λ t k. elim k [
              | inl e ↦ let l = lower t (sym e) in omega arith
              | inr later ↦ all t later
            ],
          )
      | inr (same, higher) ↦ (
        omega arith,
        λ t k. elim k [
          | inl e ↦ let f : rank t ≡ rank (higher_tier m v) = cc in omega arith
          | inr later ↦ all t later
        ],
      )
    ]

max_from-attained :
    (m : RiskTier) (tiers : List TableValue)
    → (max_from m tiers ≡ m) ⊎ Member (tier_value (max_from m tiers)) tiers
max_from-attained m [] = inl refl
max_from-attained m (v ∷ tiers) = elim (max_from-attained (higher_tier m v) tiers) [
  | inr later ↦ inr (inr later)
  | inl same ↦ elim (higher_tier-cases m v) [
    | inl (kept, lower) ↦ inl (same ∙ kept)
    | inr (taken, higher) ↦ inr (inl (ap tier_value same ∙ sym taken))
  ]
]

-- The maximum of a list of tiers is a ceiling: none of them is above it, and it is one of them, or
-- low. A value of the list that is no tier, a member that every object inherits, is passed over.
pub max_risk_tier-ceiling :
    (tiers : List TableValue)
    → ((t : RiskTier) → Member (tier_value t) tiers → rank t ≤ rank (max_risk_tier tiers))
      × ((max_risk_tier tiers ≡ low) ⊎ Member (tier_value (max_risk_tier tiers)) tiers)
unfolding max_risk_tier
max_risk_tier-ceiling tiers = ((max_from-ceiling low tiers).1, max_from-attained low tiers)

any-All :
    (P : Text → Type 0) (c : Text) (names : List Text)
    → any (text_eq c) names ≡ true
    → All P names
    → P c
any-All P c [] h all = absurd (false≢true h)
any-All P c (n ∷ names) h (p, all) = elim (Bool-cases (text_eq c n)) [
  | inl e ↦ subst P (sym (text_eq_sound c n e)) p
  | inr e ↦ any-All P c names (rw e at h) all
]

risk_for_capability-inherited :
    (c : Text) → is_inherited c ≡ true → risk_for_capability c ≡ inherited_value
unfolding is_inherited risk_for_capability
risk_for_capability-inherited c h =
    any-All (λ n. risk_for_capability n ≡ inherited_value) c object_members h
      (
        refl,
        (refl, (refl, (refl, (refl, (refl, (refl, (refl, (refl, (refl, (refl, (refl, tt))))))))))),
      )

risk_in-above :
    (table : List (Text × RiskTier)) (c : Text)
    → All (λ row. 0 < rank (row.1)) table
    → is_inherited c ≡ false
    → (t : RiskTier) × ((risk_in table c ≡ tier_value t) × (0 < rank t))
risk_in-above [] c h f = (high, (rw f refl, omega arith))
risk_in-above ((name, tier) ∷ table) c (p, h) f = elim (Bool-cases (text_eq name c)) [
  | inl e ↦ (tier, (rw e refl, p))
  | inr e ↦ let (t, (k, l)) = risk_in-above table c h f in (t, (rw e k, l))
]

risk_for_capability-above :
    (c : Text)
    → is_inherited c ≡ false
    → (t : RiskTier) × ((risk_for_capability c ≡ tier_value t) × (0 < rank t))
unfolding risk_for_capability
risk_for_capability-above c f =
    elim (Bool-cases (starts_with c (codes "secrets:") || starts_with c (codes "domain:"))) [
      | inl e ↦ (high, (rw e refl, omega arith))
      | inr e ↦
          let (t, (k, l)) = risk_in-above base_capability_risk c (ground arith) f in
          (t, (rw e k, l))
    ]

Member-map :
    (c : Text) (cs : List Text)
    → Member c cs
    → Member (risk_for_capability c) (map risk_for_capability cs)
Member-map c [] m = absurd m
Member-map c (d ∷ cs) (inl e) = inl (ap risk_for_capability e)
Member-map c (d ∷ cs) (inr m) = inr (Member-map c cs m)

-- Of a list of capabilities: the name of no member of `Object.prototype` is among them, or some are.
tier_or_inherited :
    (cs : List Text)
    → All (λ c. is_inherited c ≡ true) cs ⊎ ((c : Text) × (Member c cs × (is_inherited c ≡ false)))
tier_or_inherited [] = inl tt
tier_or_inherited (c ∷ cs) = elim (Bool-cases (is_inherited c)) [
  | inr e ↦ inr (c, (inl refl, e))
  | inl e ↦ elim (tier_or_inherited cs) [
    | inl all ↦ inl (e, all)
    | inr (d, (m, f)) ↦ inr (d, (inr m, f))
  ]
]

no_tier :
    (cs : List Text) (t : RiskTier)
    → All (λ c. is_inherited c ≡ true) cs
    → Member (tier_value t) (map risk_for_capability cs)
    → ⊥
no_tier [] t all m = m
no_tier (c ∷ cs) t (e, all) (inl k) =
    let same : tier_value t ≡ inherited_value = k ∙ risk_for_capability-inherited c e in cc
no_tier (c ∷ cs) t (e, all) (inr m) = no_tier cs t all m

-- The risk of a closure is low exactly if each of its capabilities, if it has any, is a name of a member
-- of `Object.prototype`: any other capability, known or not, takes it above low. No tier of a capability
-- is above the risk of its closure.
pub max_risk_tier-capabilities :
    (cs : List Text)
    → ((max_risk_tier (map risk_for_capability cs) ≡ low) ↔ All (λ c. is_inherited c ≡ true) cs)
      × ((c : Text) (t : RiskTier)
          → Member c cs
          → risk_for_capability c ≡ tier_value t
          → rank t ≤ rank (max_risk_tier (map risk_for_capability cs)))
max_risk_tier-capabilities cs =
    let (ceiling, attained) = max_risk_tier-ceiling (map risk_for_capability cs) in
    (
      (
        λ h. elim (tier_or_inherited cs) [
          | inl all ↦ all
          | inr (c, (m, f)) ↦
              let (t, (k, l)) = risk_for_capability-above c f in
              let listed =
                subst (λ v. Member v (map risk_for_capability cs)) k (Member-map c cs m) in
              let bound = ceiling t listed in
              let zero_rank : rank (max_risk_tier (map risk_for_capability cs)) ≡ 0 = ap rank h in
              absurd (omega arith)
        ],
        λ all. elim attained [ inl e ↦ e | inr m ↦ absurd (no_tier cs _ all m) ],
      ),
      λ c t m k.
          ceiling t (subst (λ v. Member v (map risk_for_capability cs)) k (Member-map c cs m)),
    )
