-- ===== src/Governance/Closure/Walks.antt =====
-- What the walk of packages/governance/src/capability.ts: `computeCapabilityClosure` has seen when it ends
use aart.Base.{
  ℕ, zero, suc, ◌≡◌, refl, sym, subst, ◌⊎◌, inl, inr, Option, none, some, List, [], ◌∷◌, Text,
  Member, Bool-cases, Option-cases, none-ne-some, some_inj,
}
use aart.Wait.Taint.Growth.{any_member, insert_new_kept, insert_new_added}
use aart.Governance.Closure.{
  CapabilityClosureNode, block, workflow, Walk, is_visited, visit, and_then, walk_node, walk_block,
  walk_list, too_deep, walk_steps,
}

abbrev pub Subset : List Text → List Text → Type 0
Subset xs ys = (a : Text) → Member a xs → Member a ys

-- A walk forgets nothing.
abbrev pub Grows : Walk → Walk → Type 0
Grows w v =
    Subset w.visited_blocks v.visited_blocks
    × (Subset w.capabilities v.capabilities × Subset w.unresolved v.unresolved)

Grows-trans : (w v u : Walk) → Grows w v → Grows v u → Grows w u
Grows-trans w v u (a, (b, c)) (d, (e, f)) =
    (λ x m. d x (a x m), (λ x m. e x (b x m), λ x m. f x (c x m)))

module _ (lookup : Text → Option CapabilityClosureNode) where
  -- What a block brings has been collected.
  abbrev pub IsCollected : Text → Option CapabilityClosureNode → Walk → Type 0
  IsCollected block_id none w = Member block_id w.unresolved
  IsCollected block_id (some (block capabilities)) w = Subset capabilities w.capabilities
  IsCollected block_id (some (workflow uses)) w = Subset uses w.visited_blocks

  IsCollected-Grows :
      (block_id : Text) (node : Option CapabilityClosureNode) (w v : Walk)
      → Grows w v
      → IsCollected block_id node w
      → IsCollected block_id node v
  IsCollected-Grows b none w v (a, (c, u)) h = u b h
  IsCollected-Grows b (some (block capabilities)) w v (a, (c, u)) h = λ x m. c x (h x m)
  IsCollected-Grows b (some (workflow uses)) w v (a, (c, u)) h = λ x m. a x (h x m)

  -- The blocks that a walk has visited anew are collected.
  abbrev pub Collects : Walk → Walk → Type 0
  Collects w v =
      (b : Text)
      → Member b v.visited_blocks
      → Member b w.visited_blocks ⊎ IsCollected b (lookup b) v

  abbrev pub Walked : List Text → Walk → Walk → Type 0
  Walked uses w v = Grows w v × (Subset uses v.visited_blocks × Collects w v)

  abbrev pub Works : (List Text → Walk → Option Walk) → Type 0
  Works inside = (uses : List Text) (w v : Walk) → inside uses w ≡ some v → Walked uses w v

  module _ (inside : List Text → Walk → Option Walk) (works : Works inside) where
    walk_node-Walked :
        (b : Text) (node : Option CapabilityClosureNode) (w v : Walk)
        → walk_node lookup inside b node w ≡ some v
        → Grows w v × (IsCollected b node v × Collects w v)
    walk_node-Walked b none w v h =
        subst (λ v. Grows w v × (IsCollected b none v × Collects w v)) (some_inj h)
          (
            (λ x m. m, (λ x m. m, λ x m. insert_new_kept x w.unresolved (b ∷ []) m)),
            (insert_new_added b w.unresolved (b ∷ []) (inl refl), λ x m. inl m),
          )
    walk_node-Walked b (some (block capabilities)) w v h =
        subst (λ v. Grows w v × (IsCollected b (some (block capabilities)) v × Collects w v))
          (some_inj h)
          (
            (λ x m. m, (λ x m. insert_new_kept x w.capabilities capabilities m, λ x m. m)),
            (λ x m. insert_new_added x w.capabilities capabilities m, λ x m. inl m),
          )
    walk_node-Walked b (some (workflow uses)) w v h = works uses w v h

    pub walk_block-Walked :
        (b : Text) (w v : Walk)
        → walk_block lookup inside b w ≡ some v
        → Grows w v × (Member b v.visited_blocks × Collects w v)
    walk_block-Walked b w v h = elim (Bool-cases (is_visited b w)) [
      | inl e ↦
          subst (λ v. Grows w v × (Member b v.visited_blocks × Collects w v)) (some_inj (rw e at h))
            ((λ x m. m, (λ x m. m, λ x m. m)), (any_member b w.visited_blocks e, λ x m. inl m))
      | inr e ↦
          let (grows, (mine, collects)) = walk_node-Walked b (lookup b) (visit b w) v (rw e at h) in
          let (a, rest) = grows in
          (
            (λ x m. a x (inr m), rest),
            (
              a b (inl refl),
              λ x m. elim (collects x m) [
                | inr done ↦ inr done
                | inl (inr old) ↦ inl old
                | inl (inl same) ↦ inr (subst (λ y. IsCollected y (lookup y) v) (sym same) mine)
              ],
            ),
          )
    ]

    pub walk_list-Walked : Works (walk_list lookup inside)
    walk_list-Walked [] w v h =
        subst (Walked [] w) (some_inj h)
          ((λ x m. m, (λ x m. m, λ x m. m)), (λ x m. absurd m, λ x m. inl m))
    walk_list-Walked (b ∷ uses) w v h = elim (Option-cases (walk_block lookup inside b w)) [
      | inl e ↦ absurd (none-ne-some (rw (e, and_then) at h))
      | inr (u, e) ↦
          let (grows, (mine, collects)) = walk_block-Walked b w u e in
          let (later, (others, more)) = walk_list-Walked uses u v (rw (e, and_then) at h) in
          (
            Grows-trans w u v grows later,
            (
              λ x m. elim m [
                | inl same ↦ later.0 x (subst (λ y. Member y u.visited_blocks) (sym same) mine)
                | inr n ↦ others x n
              ],
              λ x m. elim (more x m) [
                | inr done ↦ inr done
                | inl seen ↦ elim (collects x seen) [
                  | inl old ↦ inl old
                  | inr done ↦ inr (IsCollected-Grows x (lookup x) u v later done)
                ]
              ],
            ),
          )
    ]

  pub too_deep-Works : Works (too_deep lookup)
  too_deep-Works uses w v h = absurd (none-ne-some h)

  pub walk_steps-Walked : (depth : ℕ) → Works (walk_steps lookup depth)
  walk_steps-Walked zero = walk_list-Walked (too_deep lookup) too_deep-Works
  walk_steps-Walked (suc depth) =
      walk_list-Walked (walk_steps lookup depth) (walk_steps-Walked depth)
