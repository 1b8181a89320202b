-- ===== src/Cron/Exact.antt =====
-- What packages/server/src/ticker/cron.ts: `cronFireTimesBetween` lists
use aart.Base.{
  ℕ, zero, suc, ◌+◌, ◌*◌, ◌/◌, ◌%◌, ◌≤◌, ◌<◌, ◌≡◌, refl, ap, sym, ◌∙◌, subst, ◌↔◌, inl, inr, Bool,
  true, false, List, ◌∷◌, Text, leb, if◌then◌else◌, Bool-cases, false≢true, arith, ok, Member, ◌⊎◌,
  ◌==◌, ◌≢◌,
}
use aart.Cron.{
  Number, CronFields, ZonedParts, first_minute, cron_matches, fire_times, guard_max, parse_cron,
  cron_fire_times_between,
}
use aart.Cron.Windows.{first_minute_lem, fire_times_stop, fire_times_go}

module _ (zoned_parts : ℕ → ZonedParts) (fields : CronFields) where
  -- A minute from a cursor up to a time that matches.
  abbrev pub IsFire : ℕ → ℕ → ℕ → Type 0
  IsFire from to t =
      (from < t) × ((t ≤ to) × ((t % 60000 ≡ 0) × (cron_matches zoned_parts fields t ≡ true)))

  abbrev IsFrom : ℕ → ℕ → ℕ → Type 0
  IsFrom cursor to t =
      (cursor ≤ t) × ((t ≤ to) × ((t % 60000 ≡ 0) × (cron_matches zoned_parts fields t ≡ true)))

  chosen :
      (b : Bool) (x t : ℕ) (xs : List ℕ)
      → Member t (if b then x ∷ xs else xs)
      → ((t ≡ x) × (b ≡ true)) ⊎ Member t xs
  chosen true x t xs (inl e) = inl (e, refl)
  chosen true x t xs (inr m) = inr m
  chosen false x t xs m = inr m

  kept :
      (b : Bool) (x t : ℕ) (xs : List ℕ)
      → ((t ≡ x) × (b ≡ true)) ⊎ Member t xs
      → Member t (if b then x ∷ xs else xs)
  kept true x t xs (inl (e, h)) = inl e
  kept true x t xs (inr m) = inr m
  kept false x t xs (inl (e, h)) = absurd (false≢true h)
  kept false x t xs (inr m) = m

  fire_times_sound :
      (n q to t : ℕ)
      → Member t (fire_times zoned_parts n fields (q * 60000) to)
      → IsFrom (q * 60000) to t
  fire_times_sound zero q to t m = absurd m
  fire_times_sound (suc n) q to t m = elim (Bool-cases (leb (q * 60000) to)) [
    | inr e ↦
        let late : to < q * 60000 = ground arith in
        absurd (subst (Member t) (fire_times_stop zoned_parts fields (suc n) (q * 60000) to late) m)
    | inl e ↦
        elim (chosen (cron_matches zoned_parts fields (q * 60000)) (q * 60000) t
          (fire_times zoned_parts n fields (q * 60000 + 60000) to)
          (subst (Member t) (fire_times_go zoned_parts fields n (q * 60000) to e) m)) [
            | inl (same, match) ↦ (
              omega (arith, same),
              (
                ground (arith, same),
                (omega (arith, same), ap (cron_matches zoned_parts fields) same ∙ match),
              ),
            )
            | inr k ↦
                let next : q * 60000 + 60000 ≡ suc q * 60000 = omega arith in
                let (l, rest) =
                  fire_times_sound n (suc q) to t
                    (subst (λ x. Member t (fire_times zoned_parts n fields x to)) next k) in
                (omega (arith, l), rest)
          ]
  ]

  fire_times_complete :
      (n q to t : ℕ)
      → to < q * 60000 + n * 60000
      → IsFrom (q * 60000) to t
      → Member t (fire_times zoned_parts n fields (q * 60000) to)
  fire_times_complete zero q to t h (l, (k, f)) = absurd (omega arith)
  fire_times_complete (suc n) q to t h (l, (k, (z, f))) =
      let e : leb (q * 60000) to ≡ true = ground arith in
      subst (Member t) (sym (fire_times_go zoned_parts fields n (q * 60000) to e)) (
        kept _ _ t _ (elim (Bool-cases (t == q * 60000)) [
          | inl s ↦
              let same : t ≡ q * 60000 = ground arith in
              inl (same, ap (cron_matches zoned_parts fields) (sym same) ∙ f)
          | inr s ↦
              let other : t ≢ q * 60000 = ground arith in
              let next : suc q * 60000 ≡ q * 60000 + 60000 = omega arith in
              let later : suc q * 60000 ≤ t = omega (arith, other) in
              inr (
                subst (λ x. Member t (fire_times zoned_parts n fields x to)) next
                  (fire_times_complete n (suc q) to t (omega arith) (later, (k, (z, f)))))
        ]))

-- The fire times of a window, for an expression that parses, are the full minutes after its start, up to
-- its end, that match the fields, and nothing else. The window is no longer than the guard on the loop,
-- 6 * 366 days.
pub cron_fire_times_between-exact :
    (zoned_parts : ℕ → ZonedParts) (number : Text → Number) (expr : Text) (fields : CronFields)
    (from to : ℕ)
    → parse_cron number expr ≡ ok fields
    → to ≤ from + guard_max * 60000
    → (fires : List ℕ) × ((cron_fire_times_between zoned_parts number expr from to ≡ ok fires)
        × ((t : ℕ) → Member t fires ↔ IsFire zoned_parts fields from to t))
unfolding cron_fire_times_between
cron_fire_times_between-exact zoned_parts number expr fields from to p within =
    let start = first_minute_lem from in
    let q = from / 60000 + 1 in
    let same : fire_times zoned_parts guard_max fields (first_minute from) to
        ≡ fire_times zoned_parts guard_max fields (q * 60000) to =
      ap (λ x. fire_times zoned_parts guard_max fields x to) start in
    (
      fire_times zoned_parts guard_max fields (first_minute from) to,
      (
        rw p refl,
        λ t. (
          λ m.
              let (l, rest) =
                fire_times_sound zoned_parts fields guard_max q to t (subst (Member t) same m) in
              (omega (arith, l), rest),
          λ m.
              let late : q * 60000 ≤ t = omega (arith, m.0, m.1.1.0) in
              subst (Member t) (sym same)
                (fire_times_complete zoned_parts fields guard_max q to t (omega arith) (late, m.1)),
        ),
      ),
    )
