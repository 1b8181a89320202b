-- ===== src/Governance/Closure/Depth.antt =====
-- The walk of packages/governance/src/capability.ts: `computeCapabilityClosure` ends, on cycles as well
use aart.Base.{
  ℕ, zero, suc, ◌≤◌, ◌<◌, ◌≡◌, refl, ap, sym, ◌∙◌, inl, inr, Bool, true, false, not, Option, none,
  some, List, [], ◌∷◌, Text, Member, text_eq, text_eq_self, any, filter, length, Bool-cases, arith,
}
use aart.Wait.Taint.Growth.{any_member}
use aart.Governance.Closure.{
  CapabilityClosureNode, block, workflow, Walk, CapabilityClosureResult, is_visited, visit,
  and_then, walk_node, walk_block, walk_list, too_deep, walk_steps, closure_of,
  compute_capability_closure,
}
use aart.Governance.Closure.Walks.{
  Subset, Works, walk_steps-Walked, walk_block-Walked, too_deep-Works,
}

member_any : (b : Text) (xs : List Text) → Member b xs → any (text_eq b) xs ≡ true
member_any b [] m = absurd m
member_any b (x ∷ xs) (inl e) =
    let t : text_eq b x ≡ true = ap (text_eq b) (sym e) ∙ text_eq_self b in rw t refl
member_any b (x ∷ xs) (inr m) = let t = member_any b xs m in ground arith

-- Of two tests, the stronger one keeps no more, and less where it drops one.
length-filter_le :
    (p q : Text → Bool) (xs : List Text)
    → ((x : Text) → q x ≡ true → p x ≡ true)
    → length (filter q xs) ≤ length (filter p xs)
length-filter_le p q [] f = omega arith
length-filter_le p q (x ∷ xs) f =
    let rest = length-filter_le p q xs f in
    elim (Bool-cases (q x)) [
      | inl e ↦ rw (e, f x e) (omega (arith, rest))
      | inr e ↦ elim (Bool-cases (p x)) [
        | inl g ↦ rw (e, g) (omega (arith, rest))
        | inr g ↦ rw (e, g) rest
      ]
    ]

length-filter_lt :
    (p q : Text → Bool) (b : Text) (xs : List Text)
    → ((x : Text) → q x ≡ true → p x ≡ true)
    → p b ≡ true
    → q b ≡ false
    → Member b xs
    → length (filter q xs) < length (filter p xs)
length-filter_lt p q b [] f yes_p no_q m = absurd m
length-filter_lt p q b (x ∷ xs) f yes_p no_q (inl e) =
    let rest = length-filter_le p q xs f in
    let g : p x ≡ true = ap p (sym e) ∙ yes_p in
    let h : q x ≡ false = ap q (sym e) ∙ no_q in rw (g, h) (omega (arith, rest))
length-filter_lt p q b (x ∷ xs) f yes_p no_q (inr m) =
    let rest = length-filter_lt p q b xs f yes_p no_q m in
    elim (Bool-cases (q x)) [
      | inl e ↦ rw (e, f x e) (omega (arith, rest))
      | inr e ↦ elim (Bool-cases (p x)) [
        | inl g ↦ rw (e, g) (omega (arith, rest))
        | inr g ↦ rw (e, g) rest
      ]
    ]

length-filter : (p : Text → Bool) (xs : List Text) → length (filter p xs) ≤ length xs
length-filter p [] = omega arith
length-filter p (x ∷ xs) =
    let rest = length-filter p xs in
    elim (Bool-cases (p x)) [
      | inl e ↦ rw e (omega (arith, rest))
      | inr e ↦ rw e (omega (arith, rest))
    ]

module _ (lookup : Text → Option CapabilityClosureNode) (ids : List Text) where
  -- The catalog's blocks that are not visited.
  abbrev remaining : Walk → ℕ
  remaining w = length (filter (λ b. not (is_visited b w)) ids)

  unseen-Subset :
      (w v : Walk)
      → Subset w.visited_blocks v.visited_blocks
      → (x : Text) → not (is_visited x v) ≡ true
      → not (is_visited x w) ≡ true
  unseen-Subset w v s x h = elim (Bool-cases (is_visited x w)) [
    | inl e ↦
        let seen = member_any x v.visited_blocks (s x (any_member x w.visited_blocks e)) in
        absurd (ground arith)
    | inr e ↦ rw e refl
  ]

  remaining_le : (w v : Walk) → Subset w.visited_blocks v.visited_blocks → remaining v ≤ remaining w
  remaining_le w v s =
      length-filter_le (λ b. not (is_visited b w)) (λ b. not (is_visited b v)) ids
        (unseen-Subset w v s)

  remaining-visit :
      (b : Text) (w : Walk)
      → is_visited b w ≡ false
      → Member b ids
      → remaining (visit b w) < remaining w
  remaining-visit b w new m =
      let seen : is_visited b (visit b w) ≡ true = member_any b (b ∷ w.visited_blocks) (inl refl) in
      length-filter_lt (λ x. not (is_visited x w)) (λ x. not (is_visited x (visit b w))) b ids
        (unseen-Subset w (visit b w) (λ x n. inr n)) (rw new refl) (rw seen refl) m

  abbrev Ends : ℕ → (List Text → Walk → Option Walk) → Type 0
  Ends k inside =
      (uses : List Text) (w : Walk)
      → Subset uses ids
      → remaining w < k
      → (v : Walk) × (inside uses w ≡ some v)

  -- The steps of a workflow in the catalog use blocks of the catalog.
  abbrev pub IsClosed : Type 0
  IsClosed =
      (b : Text) (inner : List Text)
      → Member b ids
      → lookup b ≡ some (workflow inner)
      → Subset inner ids

  module _ (closed : IsClosed) (k : ℕ) (inside : List Text → Walk → Option Walk)
      (ends : Ends k inside) (works : Works lookup inside) where
    walk_node-ends :
        (b : Text) (node : Option CapabilityClosureNode) (w : Walk)
        → lookup b ≡ node
        → Member b ids
        → remaining w < k
        → (v : Walk) × (walk_node lookup inside b node w ≡ some v)
    walk_node-ends b none w e m h = (_, refl)
    walk_node-ends b (some (block capabilities)) w e m h = (_, refl)
    walk_node-ends b (some (workflow inner)) w e m h = ends inner w (closed b inner m e) h

    walk_block-ends :
        (b : Text) (w : Walk)
        → Member b ids
        → remaining w < suc k
        → (v : Walk) × (walk_block lookup inside b w ≡ some v)
    walk_block-ends b w m h = elim (Bool-cases (is_visited b w)) [
      | inl e ↦ (w, rw e refl)
      | inr e ↦
          let fewer = remaining-visit b w e m in
          let (v, f) = walk_node-ends b (lookup b) (visit b w) refl m (omega (arith, fewer, h)) in
          (v, rw e f)
    ]

    walk_list-Ends : Ends (suc k) (walk_list lookup inside)
    walk_list-Ends [] w s h = (w, refl)
    walk_list-Ends (b ∷ uses) w s h =
        let (u, e) = walk_block-ends b w (s b (inl refl)) h in
        let (grows, rest) = walk_block-Walked lookup inside works b w u e in
        let fewer = remaining_le w u grows.0 in
        let (v, f) = walk_list-Ends uses u (λ x m. s x (inr m)) (omega (arith, fewer, h)) in
        (v, rw (e, and_then) f)

  walk_steps-Ends : IsClosed → (depth : ℕ) → Ends (suc depth) (walk_steps lookup depth)
  walk_steps-Ends closed zero =
      walk_list-Ends closed 0 (too_deep lookup) (λ uses w s h. absurd (omega (arith, h)))
        (too_deep-Works lookup)
  walk_steps-Ends closed (suc depth) =
      walk_list-Ends closed (suc depth) (walk_steps lookup depth) (walk_steps-Ends closed depth)
        (walk_steps-Walked lookup depth)

-- The walk ends for every catalog and every list of steps, also where workflows use each other in a circle:
-- calls no deeper than the catalog has blocks are enough. The catalog is a list that has the blocks
-- that the steps use, and those that the steps of its workflows use.
pub compute_capability_closure-total :
    (lookup : Text → Option CapabilityClosureNode) (sort : List Text → List Text)
    (ids uses : List Text) (depth : ℕ)
    → IsClosed lookup ids
    → Subset uses ids
    → length ids ≤ depth
    → (r : CapabilityClosureResult) × (compute_capability_closure lookup sort depth uses ≡ some r)
unfolding compute_capability_closure
compute_capability_closure-total lookup sort ids uses depth closed s enough =
    let start : Walk = record { capabilities = []; unresolved = []; visited_blocks = [] } in
    let all = length-filter (λ b. not (is_visited b start)) ids in
    let (w, e) =
      walk_steps-Ends lookup ids closed depth uses start s (omega (arith, all, enough)) in
    (_, ap (closure_of lookup sort) e)
