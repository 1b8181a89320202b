-- ===== src/Governance/Closure/Exact.antt =====
-- The closure that packages/governance/src/capability.ts: `computeCapabilityClosure` computes
use aart.Base.{
  ℕ, zero, suc, ◌≡◌, refl, subst, ◌⊎◌, ◌↔◌, inl, inr, Option, none, some, List, [], ◌∷◌, ◌++◌, Text,
  Member, text_eq, any, Bool-cases, Option-cases, none-ne-some, some_inj,
}
use aart.Wait.Taint.{insert_new}
use aart.Governance.Closure.{
  CapabilityClosureNode, block, workflow, Walk, CapabilityClosureResult, is_visited, visit,
  and_then, walk_node, walk_block, walk_list, too_deep, walk_steps, risk_of, closure_of,
  compute_capability_closure,
}
use aart.Governance.Closure.Walks.{Subset, IsCollected, walk_steps-Walked}

Member-append_cases :
    (p : Text) (xs ys : List Text) → Member p (xs ++ ys) → Member p xs ⊎ Member p ys
Member-append_cases p [] ys m = inr m
Member-append_cases p (x ∷ xs) ys (inl e) = inl (inl e)
Member-append_cases p (x ∷ xs) ys (inr m) = elim (Member-append_cases p xs ys m) [
  | inl n ↦ inl (inr n)
  | inr n ↦ inr n
]

insert_new_cases :
    (xs : List Text) (p : Text) (set : List Text)
    → Member p (insert_new set xs)
    → Member p set ⊎ Member p xs
insert_new_cases [] p set m = inl m
insert_new_cases (x ∷ xs) p set m = elim (Bool-cases (any (text_eq x) set)) [
  | inl e ↦ elim (insert_new_cases xs p set (rw e at m)) [ inl n ↦ inl n | inr n ↦ inr (inr n) ]
  | inr e ↦ elim (insert_new_cases xs p (set ++ x ∷ []) (rw e at m)) [
    | inr n ↦ inr (inr n)
    | inl n ↦ elim (Member-append_cases p set (x ∷ []) n) [
      | inl old ↦ inl old
      | inr (inl same) ↦ inr (inl same)
      | inr (inr none_left) ↦ absurd none_left
    ]
  ]
]

module _ (lookup : Text → Option CapabilityClosureNode) where
  -- A block that is used, or used by a workflow that is reached.
  pub data Reach (uses : List Text) : Text → Type 0 where
    used : (b : Text) → Member b uses → Reach uses b
    within :
        (b c : Text) (inner : List Text)
        → Reach uses b
        → lookup b ≡ some (workflow inner)
        → Member c inner
        → Reach uses c

  abbrev pub Declares : Text → Text → Type 0
  Declares b c =
      (capabilities : List Text) × ((lookup b ≡ some (block capabilities)) × Member c capabilities)

  -- The capabilities of a walk come from blocks that are reached.
  abbrev pub IsFrom : List Text → Walk → Type 0
  IsFrom root w = (c : Text) → Member c w.capabilities → (b : Text) × (Reach root b × Declares b c)

  abbrev pub KeepsFrom : List Text → (List Text → Walk → Option Walk) → Type 0
  KeepsFrom root inside =
      (uses : List Text) (w v : Walk)
      → ((b : Text) → Member b uses → Reach root b)
      → IsFrom root w
      → inside uses w ≡ some v
      → IsFrom root v

  module _ (root : List Text) (inside : List Text → Walk → Option Walk)
      (keeps : KeepsFrom root inside) where
    walk_node-IsFrom :
        (b : Text) (node : Option CapabilityClosureNode) (w v : Walk)
        → lookup b ≡ node
        → Reach root b
        → IsFrom root w
        → walk_node lookup inside b node w ≡ some v
        → IsFrom root v
    walk_node-IsFrom b none w v e r f h = subst (IsFrom root) (some_inj h) f
    walk_node-IsFrom b (some (block capabilities)) w v e r f h =
        subst (IsFrom root) (some_inj h) (λ c m.
          elim (insert_new_cases capabilities c w.capabilities m) [
            | inl old ↦ f c old
            | inr new ↦ (b, (r, (capabilities, (e, new))))
          ])
    walk_node-IsFrom b (some (workflow inner)) w v e r f h =
        keeps inner w v (λ c m. within b c inner r e m) f h

    walk_list-IsFrom : KeepsFrom root (walk_list lookup inside)
    walk_list-IsFrom [] w v reach f h = subst (IsFrom root) (some_inj h) f
    walk_list-IsFrom (b ∷ uses) w v reach f h = elim (Option-cases (walk_block lookup inside b w)) [
      | inl e ↦ absurd (none-ne-some (rw (e, and_then) at h))
      | inr (u, e) ↦
          walk_list-IsFrom uses u v (λ c m. reach c (inr m))
            (elim (Bool-cases (is_visited b w)) [
              | inl seen ↦ subst (IsFrom root) (some_inj (rw seen at e)) f
              | inr new ↦
                  walk_node-IsFrom b (lookup b) (visit b w) u refl (reach b (inl refl)) f
                    (rw new at e)
            ])
            (rw (e, and_then) at h)
    ]

  walk_steps-IsFrom : (depth : ℕ) (root : List Text) → KeepsFrom root (walk_steps lookup depth)
  walk_steps-IsFrom zero root =
      walk_list-IsFrom root (too_deep lookup) (λ uses w v reach f h. absurd (none-ne-some h))
  walk_steps-IsFrom (suc depth) root =
      walk_list-IsFrom root (walk_steps lookup depth) (walk_steps-IsFrom depth root)

  -- Every block that is reached has been visited and collected.
  Reach-visited :
      (root : List Text) (w : Walk)
      → Subset root w.visited_blocks
      → ((b : Text) → Member b w.visited_blocks → IsCollected lookup b (lookup b) w)
      → (b : Text) → Reach root b
      → Member b w.visited_blocks
  Reach-visited root w start collected _ (used b m) = start b m
  Reach-visited root w start collected _ (within b c inner r e m) =
      let seen = Reach-visited root w start collected b r in
      subst (λ node. IsCollected lookup b node w) e (collected b seen) c m

  abbrev nothing : Walk
  nothing = record { capabilities = []; unresolved = []; visited_blocks = [] }

  walked-exact :
      (depth : ℕ) (root : List Text) (w : Walk)
      → walk_steps lookup depth root nothing ≡ some w
      → (c : Text) → Member c w.capabilities ↔ ((b : Text) × (Reach root b × Declares b c))
  walked-exact depth root w h c =
      let (grows, (start, collects)) = walk_steps-Walked lookup depth root nothing w h in
      let collected : (b : Text) → Member b w.visited_blocks → IsCollected lookup b (lookup b) w =
        λ b m. elim (collects b m) [ inl old ↦ absurd old | inr done ↦ done ] in
      (
        walk_steps-IsFrom depth root root nothing w (λ b m. used b m) (λ d m. absurd m) h c,
        λ found.
            let seen = Reach-visited root w start collected found.0 found.1.0 in
            subst (λ node. IsCollected lookup found.0 node w) found.1.1.1.0 (collected found.0 seen)
              c found.1.1.1.1,
      )

-- The capabilities of the closure of a list of steps, where the walk ends, are those that some block
-- declares that a step uses, or a step of a workflow that is reached so, and no others; the risk is that
-- of these capabilities. The sort keeps what is in a list.
pub compute_capability_closure-exact :
    (lookup : Text → Option CapabilityClosureNode) (sort : List Text → List Text)
    → ((xs : List Text) (c : Text) → Member c (sort xs) ↔ Member c xs)
    → (depth : ℕ) (uses : List Text) (r : CapabilityClosureResult)
    → compute_capability_closure lookup sort depth uses ≡ some r
    → (r.risk_tier ≡ risk_of lookup r.capabilities)
      × ((c : Text)
          → Member c r.capabilities ↔ ((b : Text) × (Reach lookup uses b × Declares lookup b c)))
unfolding compute_capability_closure
compute_capability_closure-exact lookup sort sorted depth uses r h =
    elim (Option-cases (walk_steps lookup depth uses (nothing lookup))) [
      | inl e ↦ absurd (none-ne-some (subst (λ o. closure_of lookup sort o ≡ some r) e h))
      | inr (w, e) ↦
          let same = some_inj (subst (λ o. closure_of lookup sort o ≡ some r) e h) in
          let exact = walked-exact lookup depth uses w e in
          subst
            (λ r.
              (r.risk_tier ≡ risk_of lookup r.capabilities)
              × ((c : Text)
                  → Member c r.capabilities
                    ↔ ((b : Text) × (Reach lookup uses b × Declares lookup b c))))
            same
            (
              refl,
              λ c. (
                λ m. (exact c).0 ((sorted w.capabilities c).0 m),
                λ f. (sorted w.capabilities c).1 ((exact c).1 f),
              ),
            )
    ]
