-- ===== src/Cron/Steps.antt =====
-- The loop over the values of a step in packages/server/src/ticker/cron.ts: `parseField`
use aart.Base.{
  le→leb, max_exact, add_number, add_number-zero, add_number_exact, add_number_stuck, ℕ, zero, suc,
  ◌+◌, ◌*◌, ◌≤◌, ◌<◌, ◌≡◌, refl, ap, sym, ◌∙◌, subst, inl, inr, true, none, some, List, [], ◌∷◌,
  leb, Bool-cases, Option-cases, none-ne-some, some_inj, leb→le, leb-false→lt, ◌⊎◌, ◌↔◌, arith, ok,
  Member,
}
use aart.Cron.{stepped, values_by}

stepped_go :
    (fuel lo hi step : ℕ) (vs : List ℕ)
    → leb lo hi ≡ true
    → stepped fuel (add_number lo step) hi step ≡ some vs
    → stepped (suc fuel) lo hi step ≡ some (lo ∷ vs)
stepped_go fuel lo hi step vs e f = rw (e, f, stepped) refl

-- The loop ends within a round for each number from `lo` on, and one.
stepped_total :
    (fuel lo hi step : ℕ)
    → 1 ≤ step
    → hi + step ≤ max_exact
    → suc hi < lo + fuel
    → 1 ≤ fuel
    → (vs : List ℕ) × (stepped fuel lo hi step ≡ some vs)
stepped_total zero lo hi step s b h k = absurd (omega arith)
stepped_total (suc fuel) lo hi step s b h k = elim (Bool-cases (leb lo hi)) [
  | inl e ↦
      let room : 1 ≤ fuel = ground arith in
      let le : lo ≤ hi = leb→le lo hi e in
      let next : add_number lo step ≡ lo + step = add_number_exact lo step (omega arith) in
      let (vs, f) =
        stepped_total fuel (add_number lo step) hi step s b (omega (arith, next)) room in
      (lo ∷ vs, stepped_go fuel lo hi step vs e f)
  | inr e ↦ ([], rw (e, stepped) refl)
]

-- With a step of zero the loop over the values from `lo` to `hi` does not end, when `lo` is not above
-- `hi`: no number of rounds is enough.
pub stepped_endless : (fuel lo hi : ℕ) → lo ≤ hi → stepped fuel lo hi 0 ≡ none
stepped_endless zero lo hi h = refl
stepped_endless (suc fuel) lo hi h =
    let e : leb lo hi ≡ true = ground arith in
    let same : add_number lo 0 ≡ lo = add_number-zero lo in
    let rest : stepped fuel (add_number lo 0) hi 0 ≡ none =
      ap (λ x. stepped fuel x hi 0) same ∙ stepped_endless fuel lo hi h in
    rw (e, rest, stepped) refl

mul_suc : (k step : ℕ) → suc k * step ≡ step + k * step
mul_suc k step = omega arith

-- What a round that goes on has found.
stepped_rest :
    (fuel lo hi step : ℕ) (vs : List ℕ)
    → stepped (suc fuel) lo hi step ≡ some vs
    → ((lo ≤ hi)
        × ((rest : List ℕ) × ((stepped fuel (add_number lo step) hi step ≡ some rest)
              × (vs ≡ lo ∷ rest))))
      ⊎ ((hi < lo) × (vs ≡ []))
stepped_rest fuel lo hi step vs h = elim (Bool-cases (leb lo hi)) [
  | inl e ↦ elim (Option-cases (stepped fuel (add_number lo step) hi step)) [
    | inl f ↦ absurd (none-ne-some (rw (e, f, stepped) at h))
    | inr (rest, f) ↦ inl (leb→le lo hi e, (rest, (f, sym (some_inj (rw (e, f, stepped) at h)))))
  ]
  | inr e ↦ inr (leb-false→lt lo hi e, sym (some_inj (rw (e, stepped) at h)))
]

-- The values are those that steps from the first one reach, up to the last.
abbrev pub IsStep : ℕ → ℕ → ℕ → ℕ → Type 0
IsStep lo hi step v = (k : ℕ) × ((v ≡ lo + k * step) × (v ≤ hi))

stepped_sound :
    (fuel lo hi step v : ℕ) (vs : List ℕ)
    → hi + step ≤ max_exact
    → stepped fuel lo hi step ≡ some vs
    → Member v vs
    → IsStep lo hi step v
stepped_sound zero lo hi step v vs b h m = absurd (none-ne-some h)
stepped_sound (suc fuel) lo hi step v vs b h m = elim (stepped_rest fuel lo hi step vs h) [
  | inr (late, e) ↦ absurd (subst (Member v) e m)
  | inl (le, (rest, (f, e))) ↦ elim (subst (Member v) e m) [
    | inl same ↦ (0, (omega (arith, same), omega (arith, same, le)))
    | inr n ↦
        let (k, (at, l)) = stepped_sound fuel (add_number lo step) hi step v rest b f n in
        let next : add_number lo step ≡ lo + step = add_number_exact lo step (omega arith) in
        (suc k, (omega (arith, at, next, mul_suc k step), l))
  ]
]

stepped_complete :
    (fuel lo hi step k : ℕ) (vs : List ℕ)
    → hi + step ≤ max_exact
    → stepped fuel lo hi step ≡ some vs
    → lo + k * step ≤ hi
    → Member (lo + k * step) vs
stepped_complete zero lo hi step k vs b h m = absurd (none-ne-some h)
stepped_complete (suc fuel) lo hi step zero vs b h m = elim (stepped_rest fuel lo hi step vs h) [
  | inr (late, e) ↦ absurd (omega arith)
  | inl (le, (rest, (f, e))) ↦ subst (Member (lo + 0 * step)) (sym e) (inl (omega arith))
]
stepped_complete (suc fuel) lo hi step (suc k) vs b h m = elim (stepped_rest fuel lo hi step vs h) [
  | inr (late, e) ↦ absurd (omega arith)
  | inl (le, (rest, (f, e))) ↦
      let next : add_number lo step ≡ lo + step = add_number_exact lo step (omega arith) in
      let same : add_number lo step + k * step ≡ lo + suc k * step =
        omega (arith, next, mul_suc k step) in
      let within : add_number lo step + k * step ≤ hi = omega (arith, same) in
      subst (Member (lo + suc k * step)) (sym e) (
        inr (
          subst (λ v. Member v rest) same
            (stepped_complete fuel (add_number lo step) hi step k rest b f within)))
]

-- The loop over the values from `lo` to `hi` ends when the step is not zero and `hi` and the step
-- together are at most 2 ^ 53, and its values are then those that steps from `lo` reach, up to `hi`.
pub values_by-total :
    (lo hi step : ℕ)
    → 1 ≤ step
    → hi + step ≤ max_exact
    → (vs : List ℕ) × ((values_by lo hi step ≡ ok vs)
        × ((v : ℕ) → Member v vs ↔ IsStep lo hi step v))
values_by-total lo hi step s b =
    let (vs, f) = stepped_total (suc (suc hi)) lo hi step s b (omega arith) (omega arith) in
    (
      vs,
      (
        rw (f, values_by) refl,
        λ v. (
          stepped_sound (suc (suc hi)) lo hi step v vs b f,
          λ m.
              subst (λ w. Member w vs) (sym m.1.0)
                (stepped_complete (suc (suc hi)) lo hi step m.0 vs b f
                  (omega (arith, m.1.0, m.1.1))),
        ),
      ),
    )

-- At 2 ^ 53 the loop does not end for a step of one either: no number of rounds is enough, when `hi` is
-- not below.
pub stepped_stuck : (fuel hi : ℕ) → max_exact ≤ hi → stepped fuel max_exact hi 1 ≡ none
stepped_stuck zero hi h = refl
stepped_stuck (suc fuel) hi h =
    let e : leb max_exact hi ≡ true = le→leb max_exact hi h in
    let rest : stepped fuel (add_number max_exact 1) hi 1 ≡ none =
      ap (λ x. stepped fuel x hi 1) add_number_stuck ∙ stepped_stuck fuel hi h in
    rw (e, rest, stepped) refl
