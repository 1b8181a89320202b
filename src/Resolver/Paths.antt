-- ===== src/Resolver/Paths.antt =====
-- `resolvePath` against a reading of paths that is apart from the loop.
use aart.Base.{
  ℕ, ◌+◌, ◌≡◌, ◌≢◌, refl, sym, ◌∙◌, subst, inl, inr, ◌↔◌, Option, none, some, List, [], ◌∷◌, Text,
  Option-cases, ok, ◌>>=◌, >>=-eq-ok, ok_inj, err-ne-ok, none-ne-some, some_inj, ap, arith,
}
use aart.Expr.{
  ExprRoot, inputs, steps, trigger, run, secrets, PathSegment, property, index, ParsedExpression,
}
use aart.Resolver.{
  Value, undefined, null, array, object, Items, Fields, ExprContext, root_value, item, get_property,
  read_step, walk, defined, ask, resolve_root, resolve_path,
}

-- A value is reached from another by a path: by a property of an object, or an item of an array.
pub data Walk (inherited : Text → Value) : List PathSegment → Value → Value → Type 0 where
  here : {v : Value} → Walk inherited [] v v
  by_property :
      {name : Text} {fs : Fields} {path : List PathSegment} {v : Value}
      → Walk inherited path (get_property inherited name fs) v
      → Walk inherited (property name ∷ path) (object fs) v
  by_index :
      {n : ℕ} {vs : Items} {path : List PathSegment} {v : Value}
      → Walk inherited path (item n vs) v
      → Walk inherited (index n ∷ path) (array vs) v

module _ (inherited : Text → Value) where
  walk_sound :
      (i : ℕ) (path : List PathSegment) (current v : Value)
      → walk inherited i path current ≡ ok v
      → Walk inherited path current v
  unfolding walk read_step
  walk_sound i [] current v h = subst (λ w. Walk inherited [] current w) (ok_inj h) here
  walk_sound i (property name ∷ path) (object fs) v h = by_property (walk_sound (i + 1) path _ v h)
  walk_sound i (index n ∷ path) (array vs) v h = by_index (walk_sound (i + 1) path _ v h)
  walk_sound i (property name ∷ path) _ v h = absurd (err-ne-ok h)
  walk_sound i (index n ∷ path) _ v h = absurd (err-ne-ok h)

  walk_complete :
      (i : ℕ) {path : List PathSegment} {current v : Value}
      → Walk inherited path current v
      → walk inherited i path current ≡ ok v
  unfolding walk read_step
  walk_complete i here = refl
  walk_complete i (by_property w) = walk_complete (i + 1) w
  walk_complete i (by_index w) = walk_complete (i + 1) w

defined_iff : (w v : Value) → (defined w ≡ ok v) ↔ ((w ≡ v) × (v ≢ undefined))
defined_iff undefined v = (λ h. absurd (err-ne-ok h), λ (e, n). absurd (n (sym e)))
defined_iff null v = (λ h. (ok_inj h, λ e. cc), λ (e, n). ap ok e)
defined_iff _ v = (λ h. (ok_inj h, λ e. cc), λ (e, n). ap ok e)

module _ (inherited : Text → Value) (resolver : Option (Text → Option Value))
    (context : ExprContext) where
  -- A path from a root other than `secrets` resolves to a value exactly if its segments lead there,
  -- each by a property of an object or an index of an array, and the value is not `undefined`.
  pub resolve_path-eq-ok_iff :
      (e : ParsedExpression) (v : Value)
      → e.root ≢ secrets
      → (resolve_path inherited resolver context e ≡ ok v)
        ↔ (Walk inherited e.path (root_value context e.root) v × (v ≢ undefined))
  unfolding resolve_path
  resolve_path-eq-ok_iff e v n = at_root e.root n
    where
      walked :
          (start : Value)
          → ((walk inherited 0 e.path start >>= defined) ≡ ok v)
            ↔ (Walk inherited e.path start v × (v ≢ undefined))
      walked start = (
        λ h.
            let (w, reached, kept) = >>=-eq-ok (walk inherited 0 e.path start) defined h in
            let (same, known) = (defined_iff w v).0 kept in
            (
              subst (λ u. Walk inherited e.path start u) same
                  (walk_sound inherited 0 e.path start w reached),
              known,
            ),
        λ (w, known). rw (walk_complete inherited 0 w) ((defined_iff v v).1 (refl, known)),
      )

      at_root :
          (root : ExprRoot)
          → root ≢ secrets
          → (resolve_root inherited resolver context root e.path ≡ ok v)
            ↔ (Walk inherited e.path (root_value context root) v × (v ≢ undefined))
      at_root inputs n = walked context.inputs_value
      at_root steps n = walked context.steps_value
      at_root trigger n = walked context.trigger_value
      at_root run n = walked context.run_value
      at_root secrets n = absurd (n refl)

ask_iff :
    (resolver : Option (Text → Option Value)) (name : Text) (v : Value)
    → (ask resolver name ≡ ok v)
      ↔ ((r : Text → Option Value) × (resolver ≡ some r) × (r name ≡ some v))
ask_iff none name v = (λ h. absurd (err-ne-ok h), λ (r, e, h). absurd (none-ne-some e))
ask_iff (some r) name v = elim (Option-cases (r name)) [
  | inl missing ↦ (
    λ h. absurd (err-ne-ok (rw (missing, ask) at h)),
    λ (q, e, h).
        absurd (none-ne-some (sym missing ∙ subst (λ f. f name ≡ some v) (sym (some_inj e)) h)),
  )
  | inr (w, found) ↦ (
    λ h. (r, refl, found ∙ ap some (ok_inj (rw (found, ask) at h))),
    λ (q, e, h). rw (subst (λ f. f name ≡ some v) (sym (some_inj e)) h, ask),
  )
]

-- A secret resolves exactly if its path is one property, a resolver was supplied, and it gives the
-- value of that name; no value of the context is read.
pub resolve_path-secrets_iff :
    (inherited : Text → Value) (resolver : Option (Text → Option Value)) (context : ExprContext)
    (path : List PathSegment) (raw : Text) (v : Value)
    → (resolve_path inherited resolver context (record { root = secrets; path = path; raw = raw })
        ≡ ok v)
      ↔ ((name : Text) × (path ≡ property name ∷ [])
          × (r : Text → Option Value) × (resolver ≡ some r)
          × (r name ≡ some v))
unfolding resolve_path
resolve_path-secrets_iff inherited resolver context [] raw v =
    (λ h. absurd (err-ne-ok h), λ (name, e, r, given, found). absurd (ground arith))
resolve_path-secrets_iff inherited resolver context (index n ∷ path) raw v =
    (λ h. absurd (err-ne-ok h), λ (name, e, r, given, found). absurd (ground arith))
resolve_path-secrets_iff inherited resolver context (property name ∷ []) raw v =
    let (there, back) = ask_iff resolver name v in
    (
      λ h. let (r, given, found) = there h in (name, refl, r, given, found),
      λ (n, e, r, given, found). back (r, given, rw (same_name e) found),
    )
  where
    same_name :
        {n : Text} → ◌≡◌ {A = List PathSegment} (property name ∷ []) (property n ∷ []) → name ≡ n
    same_name e = cc
resolve_path-secrets_iff inherited resolver context (property name ∷ s ∷ path) raw v =
    (λ h. absurd (err-ne-ok h), λ (n, e, r, given, found). absurd (ground arith))
