-- ===== src/EditDistance/Suggest.antt =====
-- What `computeDidYouMean` promises of its suggestion.
use aart.Base.{
  ℕ, ◌≤◌, ◌<◌, ◌≡◌, refl, ◌⊎◌, inl, inr, ◌↔◌, true, false, Option, none, some, List, [], ◌∷◌, Text,
  Member, All, subst, arith, ltb, if◌then◌else◌, Bool-cases,
}
use aart.EditDistance.{
  Best, levenshtein_distance, closer, best_of, candidate_of, alias_of, max_distance_of,
  compute_did_you_mean, suggested,
}

module _ (input : Text) (limit : ℕ) where
  abbrev next : Text → Best → Best
  next c best =
      let distance = levenshtein_distance input c in
      if ltb limit distance then best else closer c distance best

  next-some :
      (e c : Text) (d : ℕ) (best : Best)
      → next e best ≡ some (c, d)
      → (best ≡ some (c, d)) ⊎ ((c ≡ e) × (d ≡ levenshtein_distance input e) × (d ≤ limit))
  next-some e c d none h = ground arith
  next-some e c d (some (c', d')) h = ground arith

  -- A candidate within the limit, and a best one so far, both leave a best one that is no farther.
  next_near :
      (e : Text) (best : Best)
      → levenshtein_distance input e ≤ limit
      → (c : Text) × (d : ℕ) × (next e best ≡ some (c, d)) × (d ≤ levenshtein_distance input e)
  next_near e none l = (e, levenshtein_distance input e, ground arith, omega arith)
  next_near e (some (c', d')) l = elim (Bool-cases (ltb (levenshtein_distance input e) d')) [
    | inl nearer ↦ (e, levenshtein_distance input e, ground arith, omega arith)
    | inr farther ↦ (c', d', ground arith, ground arith)
  ]

  next_keeps :
      (e c' : Text) (d' : ℕ)
      → (c : Text) × (d : ℕ) × (next e (some (c', d')) ≡ some (c, d)) × (d ≤ d')
  next_keeps e c' d' = elim (Bool-cases (ltb limit (levenshtein_distance input e))) [
    | inl far ↦ (c', d', rw far, omega arith)
    | inr near ↦ elim (Bool-cases (ltb (levenshtein_distance input e) d')) [
      | inl nearer ↦ (e, levenshtein_distance input e, rw (near, nearer), ground arith)
      | inr farther ↦ (c', d', rw (near, farther), omega arith)
    ]
  ]

  next-none :
      (e : Text) (best : Best)
      → next e best ≡ none
      → (best ≡ none) × (limit < levenshtein_distance input e)
  next-none e none h = ground arith
  next-none e (some (c', d')) h = ground arith

  best_of-none :
      (catalog : List Text) (best : Best)
      → best_of input limit catalog best ≡ none
      → (best ≡ none) × All (λ e. limit < levenshtein_distance input e) catalog
  unfolding best_of
  best_of-none [] best h = (h, tt)
  best_of-none (e ∷ catalog) best h =
      let (none_yet, later) = best_of-none catalog (next e best) h in
      let (start, here) = next-none e best none_yet in (start, (here, later))

  best_of-some :
      (catalog : List Text) (best : Best) (c : Text) (d : ℕ)
      → best_of input limit catalog best ≡ some (c, d)
      → (best ≡ some (c, d)) ⊎ (Member c catalog × (d ≡ levenshtein_distance input c) × (d ≤ limit))
  unfolding best_of
  best_of-some [] best c d h = inl h
  best_of-some (e ∷ catalog) best c d h = elim (best_of-some catalog (next e best) c d h) [
    | inl now ↦ elim (next-some e c d best now) [
      | inl before ↦ inl before
      | inr (same, exact, near) ↦ inr (inl same, rw same exact, near)
    ]
    | inr (later, exact, near) ↦ inr (inr later, exact, near)
  ]

  best_of_far :
      (catalog : List Text) (best : Best)
      → All (λ e. limit < levenshtein_distance input e) catalog
      → best_of input limit catalog best ≡ best
  unfolding best_of
  best_of_far [] best h = refl
  best_of_far (e ∷ catalog) best (far, h) =
      let skip : ltb limit (levenshtein_distance input e) ≡ true = ground arith in
      rw skip (best_of_far catalog best h)

  best_of_le :
      (catalog : List Text) (c c' : Text) (d d' : ℕ)
      → best_of input limit catalog (some (c', d')) ≡ some (c, d)
      → d ≤ d'
  unfolding best_of
  best_of_le [] c c' d d' h = ground arith
  best_of_le (e ∷ catalog) c c' d d' h =
      let (c'', d'', same, low) = next_keeps e c' d' in
      let rest : d ≤ d'' = best_of_le catalog c c'' d d'' (rw same at h) in omega arith

  best_of_closest :
      (catalog : List Text) (best : Best) (c : Text) (d : ℕ)
      → best_of input limit catalog best ≡ some (c, d)
      → d ≤ limit
      → All (λ e. d ≤ levenshtein_distance input e) catalog
  unfolding best_of
  best_of_closest [] best c d h l = tt
  best_of_closest (e ∷ catalog) best c d h l = (
    here (Bool-cases (ltb limit (levenshtein_distance input e))),
    best_of_closest catalog (next e best) c d h l,
  )
    where
      here :
          (ltb limit (levenshtein_distance input e) ≡ true)
            ⊎ (ltb limit (levenshtein_distance input e) ≡ false)
          → d ≤ levenshtein_distance input e
      here (inl far) = ground arith
      here (inr near) =
          let (c'', d'', same, low) = next_near e best (ground arith) in
          let rest : d ≤ d'' = best_of_le catalog c c'' d d'' (rw same at h) in omega arith

-- With no alias of the input, and an input that is no name of an inherited member, a suggestion is a candidate of the catalog within the limit, and no
-- candidate is closer to the input.
pub compute_did_you_mean_closest :
    (input : Text) (catalog : List Text) (table : List (Text × Text)) (limit : Option ℕ) (c : Text)
    → alias_of input table ≡ none
    → compute_did_you_mean input catalog table limit ≡ some (suggested c)
    → Member c catalog
      × (levenshtein_distance input c ≤ max_distance_of limit input)
      × All (λ e. levenshtein_distance input c ≤ levenshtein_distance input e) catalog
unfolding compute_did_you_mean
compute_did_you_mean_closest input catalog table limit c a h =
    go (best_of input (max_distance_of limit input) catalog none) refl (rw a at h)
  where
    limit' : ℕ
    limit' = max_distance_of limit input

    same : (c' : Text) (d : ℕ) → candidate_of (some (c', d)) ≡ some (suggested c) → c ≡ c'
    same c' d k = cc

    go :
        (best : Best)
        → best_of input (max_distance_of limit input) catalog none ≡ best
        → candidate_of best ≡ some (suggested c)
        → Member c catalog
          × (levenshtein_distance input c ≤ max_distance_of limit input)
          × All (λ e. levenshtein_distance input c ≤ levenshtein_distance input e) catalog
    go none e k = cc
    go (some (c', d)) e k = elim (best_of-some input limit' catalog none c' d e) [
      | inl never ↦ cc
      | inr (listed, exact, near) ↦ rw (same c' d k) (
        listed,
        subst (λ n. n ≤ limit') exact near,
        subst (λ n. All (λ e. n ≤ levenshtein_distance input e) catalog) exact
            (best_of_closest input limit' catalog none c' d e near),
      )
    ]

-- Where the input has no alias and is no name of an inherited member, no suggestion is made exactly when
-- every candidate is farther from it than the limit.
pub compute_did_you_mean-none :
    (input : Text) (catalog : List Text) (table : List (Text × Text)) (limit : Option ℕ)
    → alias_of input table ≡ none
    → (compute_did_you_mean input catalog table limit ≡ none)
      ↔ All (λ e. max_distance_of limit input < levenshtein_distance input e) catalog
unfolding compute_did_you_mean
compute_did_you_mean-none input catalog table limit a =
    (λ h. there (best_of input limit' catalog none) refl (rw a at h), λ h. back h)
  where
    limit' : ℕ
    limit' = max_distance_of limit input

    there :
        (best : Best)
        → best_of input limit' catalog none ≡ best
        → candidate_of best ≡ none
        → All (λ e. limit' < levenshtein_distance input e) catalog
    there none e k = (best_of-none input limit' catalog none e).1
    there (some (c', d)) e k = cc

    back :
        All (λ e. limit' < levenshtein_distance input e) catalog
        → compute_did_you_mean input catalog table limit ≡ none
    back h = rw (a, best_of_far input limit' catalog none h)
