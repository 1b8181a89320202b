-- ===== src/Base/Searches.antt =====
-- What a search of a list finds.
use mathlib.Core.Path.{◌≡◌, refl, sym, ap, ◌∙◌}
use mathlib.Core.Logic.{inl, inr}
use mathlib.Core.Bool.{Bool, true}
use mathlib.Core.Option.{some}
use mathlib.Core.List.{List, [], ◌∷◌}
use native.Mathlib.Omega.{arith}
use aart.Base.Tests.{Bool-cases, some_inj}
use aart.Base.Lists.{find, Member}

module _ {A : Type 0} (p : A → Bool) where
  pub find-Member : (xs : List A) (a : A) → find p xs ≡ some a → Member a xs × (p a ≡ true)
  find-Member [] a h = absurd (ground arith)
  find-Member (x ∷ xs) a h = elim (Bool-cases (p x)) [
    | inl e ↦ let same : x ≡ a = some_inj (rw e at h) in (inl (sym same), ap p (sym same) ∙ e)
    | inr e ↦ let (m, t) = find-Member xs a (rw e at h) in (inr m, t)
  ]

  pub Member-find :
      (xs : List A) (a : A) → Member a xs → p a ≡ true → (b : A) × (find p xs ≡ some b)
  Member-find [] a m t = absurd m
  Member-find (x ∷ xs) a (inl same) t = (x, rw (ap p (sym same) ∙ t) refl)
  Member-find (x ∷ xs) a (inr m) t = elim (Bool-cases (p x)) [
    | inl e ↦ (x, rw e refl)
    | inr e ↦ let (b, f) = Member-find xs a m t in (b, rw e f)
  ]
