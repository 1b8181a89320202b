-- ===== src/Cron/Windows.antt =====
-- Successive windows of packages/server/src/ticker/cron.ts: `cronFireTimesBetween`
use aart.Base.{
  ℕ, zero, suc, ◌+◌, ◌*◌, ◌/◌, ◌≤◌, ◌<◌, ◌≡◌, refl, ap, sym, ◌∙◌, subst, inl, inr, Bool, true,
  false, List, [], ◌∷◌, ◌++◌, Text, leb, if◌then◌else◌, Bool-cases, arith, ok,
}
use aart.Cron.{
  Number, CronFields, ZonedParts, first_minute, cron_matches, fire_times, guard_max, parse_cron,
  cron_fire_times_between,
}

pub first_minute_lem : (from : ℕ) → first_minute from ≡ (from / 60000 + 1) * 60000
unfolding first_minute
first_minute_lem from = ground arith

module _ (zoned_parts : ℕ → ZonedParts) (fields : CronFields) where
  pub fire_times_stop :
      (n cursor to : ℕ) → to < cursor → fire_times zoned_parts n fields cursor to ≡ []
  fire_times_stop zero cursor to h = refl
  fire_times_stop (suc n) cursor to h =
      let e : leb cursor to ≡ false = ground arith in rw (e, fire_times) refl

  pub fire_times_go :
      (n cursor to : ℕ)
      → leb cursor to ≡ true
      → fire_times zoned_parts (suc n) fields cursor to ≡ (
          let rest = fire_times zoned_parts n fields (cursor + 60000) to in
          if cron_matches zoned_parts fields cursor then cursor ∷ rest else rest)
  fire_times_go n cursor to e = rw (e, fire_times) refl

  -- More rounds than the window has minutes change nothing.
  fire_times-rounds :
      (n m cursor to : ℕ)
      → to < cursor + n * 60000
      → to < cursor + m * 60000
      → fire_times zoned_parts n fields cursor to ≡ fire_times zoned_parts m fields cursor to
  fire_times-rounds zero m cursor to h k = sym (fire_times_stop m cursor to (omega arith))
  fire_times-rounds (suc n) zero cursor to h k = fire_times_stop (suc n) cursor to (omega arith)
  fire_times-rounds (suc n) (suc m) cursor to h k = elim (Bool-cases (leb cursor to)) [
    | inl e ↦
        let rest = fire_times-rounds n m (cursor + 60000) to (omega arith) (omega arith) in
        fire_times_go n cursor to e
        ∙ ap (λ r. if cron_matches zoned_parts fields cursor then cursor ∷ r else r) rest
        ∙ sym (fire_times_go m cursor to e)
    | inr e ↦
        let late : to < cursor = ground arith in
        fire_times_stop (suc n) cursor to late ∙ sym (fire_times_stop (suc m) cursor to late)
  ]

  if-append :
      (t : Bool) (x : ℕ) (xs ys : List ℕ)
      → (if t then x ∷ (xs ++ ys) else xs ++ ys) ≡ (if t then x ∷ xs else xs) ++ ys
  if-append true x xs ys = refl
  if-append false x xs ys = refl

  -- What a window from a minute on is, in two parts.
  abbrev Splits : ℕ → ℕ → ℕ → ℕ → ℕ → ℕ → Type 0
  Splits n m l cursor b c =
      fire_times zoned_parts n fields cursor c
      ≡ fire_times zoned_parts m fields cursor b
        ++ fire_times zoned_parts l fields (first_minute b) c

  Splits-late :
      (n m l q b c : ℕ)
      → b < q * 60000
      → q * 60000 ≤ b + 60000
      → c < q * 60000 + n * 60000
      → c < first_minute b + l * 60000
      → Splits n m l (q * 60000) b c
  Splits-late n m l q b c late near h j =
      let start : q * 60000 ≡ first_minute b = omega (arith, first_minute_lem b) in
      fire_times-rounds n l (q * 60000) c h (omega arith)
      ∙ ap (λ x. fire_times zoned_parts l fields x c) start
      ∙ ap (λ xs. xs ++ fire_times zoned_parts l fields (first_minute b) c)
          (sym (fire_times_stop m (q * 60000) b late))

  -- The loop up to a later time goes on where the loop up to an earlier one ends.
  fire_times-append :
      (n m l q b c : ℕ)
      → q * 60000 ≤ b + 60000
      → b ≤ c
      → c < q * 60000 + n * 60000
      → b < q * 60000 + m * 60000
      → c < first_minute b + l * 60000
      → Splits n m l (q * 60000) b c
  fire_times-append zero m l q b c near le h k j = Splits-late zero m l q b c (omega arith) near h j
  fire_times-append (suc n) zero l q b c near le h k j =
      Splits-late (suc n) zero l q b c (omega arith) near h j
  fire_times-append (suc n) (suc m) l q b c near le h k j = elim (Bool-cases (leb (q * 60000) b)) [
    | inr e ↦ Splits-late (suc n) (suc m) l q b c (ground arith) near h j
    | inl e ↦
        let within : q * 60000 ≤ b = ground arith in
        let e_c : leb (q * 60000) c ≡ true = ground arith in
        let rest =
          fire_times-append n m l (suc q) b c (omega arith) le (omega arith) (omega arith) j in
        let next : suc q * 60000 ≡ q * 60000 + 60000 = omega arith in
        fire_times_go n (q * 60000) c e_c
        ∙ ap (λ xs. if cron_matches zoned_parts fields (q * 60000) then q * 60000 ∷ xs else xs)
            (subst (λ x. Splits n m l x b c) next rest)
        ∙ if-append (cron_matches zoned_parts fields (q * 60000)) (q * 60000)
            (fire_times zoned_parts m fields (q * 60000 + 60000) b)
            (fire_times zoned_parts l fields (first_minute b) c)
        ∙ ap (λ xs. xs ++ fire_times zoned_parts l fields (first_minute b) c)
            (sym (fire_times_go m (q * 60000) b e))
  ]

-- The fire times of a window are those of its first part and then those of the rest, for an expression
-- that parses: successive ticks, each from the time of the one before, neither miss a fire time nor have
-- one twice. The whole window is no longer than the guard on the loop, 6 * 366 days.
pub cron_fire_times_between-append :
    (zoned_parts : ℕ → ZonedParts) (number : Text → Number) (expr : Text) (fields : CronFields)
    (a b c : ℕ)
    → parse_cron number expr ≡ ok fields
    → a ≤ b
    → b ≤ c
    → c ≤ a + guard_max * 60000
    → (first : List ℕ) × ((rest : List ℕ) × ((cron_fire_times_between zoned_parts number expr a b
            ≡ ok first)
          × ((cron_fire_times_between zoned_parts number expr b c ≡ ok rest)
              × (cron_fire_times_between zoned_parts number expr a c ≡ ok (first ++ rest)))))
unfolding cron_fire_times_between
cron_fire_times_between-append zoned_parts number expr fields a b c p ab bc within =
    let g = guard_max in
    let near = first_minute_lem a in
    let after = first_minute_lem b in
    let split =
      fire_times-append zoned_parts fields g g g (a / 60000 + 1) b c (omega arith) bc (omega arith)
        (omega arith) (omega arith) in
    (
      fire_times zoned_parts g fields (first_minute a) b,
      (
        fire_times zoned_parts g fields (first_minute b) c,
        (
          rw p refl,
          (
            rw p refl,
            rw p (ap ok (subst (λ x. Splits zoned_parts fields g g g x b c) (sym near) split)),
          ),
        ),
      ),
    )
