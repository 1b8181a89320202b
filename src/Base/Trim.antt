-- ===== src/Base/Trim.antt =====
-- What `String.prototype.trim` takes away, and what it leaves.
use mathlib.Core.Path.{◌≡◌, refl, sym, ap, ◌∙◌}
use mathlib.Core.Logic.{inl, inr}
use mathlib.Core.Bool.{Bool, not, true, false}
use mathlib.Core.List.{[], ◌∷◌, ◌++◌, reverse, reverse-cons, reverse-append, reverse-reverse}
use native.Mathlib.Omega.{arith}
use Prim.Native.Nat.{ℕ}
use aart.Base.Lists.{All, All-append, any, any-reverse, length}
use aart.Base.Tests.{Bool-cases, ◌==◌, if◌then◌else◌}
use aart.Base.Strings.{Text, is_space, trim_start, trim}

abbrev pub is_ink : ℕ → Bool
is_ink c = not (is_space c)

any-trim_start : (s : Text) → any is_ink s ≡ true → any is_ink (trim_start s) ≡ true
any-trim_start [] h = h
any-trim_start (c ∷ s) h = elim (Bool-cases (is_space c)) [
  | inl e ↦ rw e (any-trim_start s (rw e at h))
  | inr e ↦ rw e (rw e)
]

any-nonempty : (s : Text) → any is_ink s ≡ true → (length s == 0) ≡ false
any-nonempty [] e = cc
any-nonempty (c ∷ s) e = ground arith

-- A text with a character that is no white space is not trimmed to nothing.
pub trim_nonempty : (s : Text) → any is_ink s ≡ true → (length (trim s) == 0) ≡ false
trim_nonempty s h =
    let start = any-trim_start s h in
    let turned = any-reverse is_ink (trim_start s) start in
    let both = any-trim_start (reverse (trim_start s)) turned in
    any-nonempty (trim s) (any-reverse is_ink (trim_start (reverse (trim_start s))) both)

-- The white space that `trim_start` takes away.
abbrev pub lead : Text → Text
lead [] = []
lead (c ∷ s) = if is_space c then c ∷ lead s else []

abbrev pub AreBlank : Text → Type 0
AreBlank s = All (λ c. is_space c ≡ true) s

pub lead-append-trim_start : (s : Text) → lead s ++ trim_start s ≡ s
lead-append-trim_start [] = refl
lead-append-trim_start (c ∷ s) = ground (arith, lead-append-trim_start s)

pub lead-AreBlank : (s : Text) → AreBlank (lead s)
lead-AreBlank [] = tt
lead-AreBlank (c ∷ s) = elim (Bool-cases (is_space c)) [
  | inl e ↦ rw e (e, lead-AreBlank s)
  | inr e ↦ rw e tt
]

pub trim_start-append : (s t : Text) → AreBlank s → trim_start (s ++ t) ≡ trim_start t
trim_start-append [] t h = refl
trim_start-append (c ∷ s) t (e, h) = rw e (trim_start-append s t h)

-- A text starts with a character that is no white space.
abbrev pub StartsInked : Text → Type 0
StartsInked [] = ⊥
StartsInked (c ∷ s) = is_space c ≡ false

pub trim_start-inked : (s : Text) → StartsInked s → trim_start s ≡ s
trim_start-inked [] h = refl
trim_start-inked (c ∷ s) h = rw h

StartsInked-append : (s t : Text) → StartsInked s → StartsInked (s ++ t)
StartsInked-append [] t h = absurd h
StartsInked-append (c ∷ s) t h = h

AreBlank-reverse : (s : Text) → AreBlank s → AreBlank (reverse s)
AreBlank-reverse [] h = tt
AreBlank-reverse (c ∷ s) (e, h) =
    rw reverse-cons
      (All-append (λ d. is_space d ≡ true) (reverse s) (c ∷ []) (AreBlank-reverse s h) (e, tt))

-- Trimming takes the white space at both ends and nothing else.
pub trim-padded :
    (before s after : Text)
    → AreBlank before
    → AreBlank after
    → StartsInked s
    → StartsInked (reverse s)
    → trim (before ++ (s ++ after)) ≡ s
trim-padded before s after b a first last = rw (
  trim_start-append before (s ++ after) b,
  trim_start-inked (s ++ after) (StartsInked-append s after first),
  reverse-append s after,
  trim_start-append (reverse after) (reverse s) (AreBlank-reverse after a),
  trim_start-inked (reverse s) last,
  reverse-reverse s,
)

-- A text is its trimmed form between white space.
pub record IsTrim (s : Text) : Type 0 where
  pub before : Text
  pub after : Text
  pub split : s ≡ before ++ (trim s ++ after)
  pub blank_before : AreBlank before
  pub blank_after : AreBlank after

trim_end : (t : Text) → reverse (trim_start (reverse t)) ++ reverse (lead (reverse t)) ≡ t
trim_end t =
    sym (reverse-append (lead (reverse t)) (trim_start (reverse t)))
    ∙ ap reverse (lead-append-trim_start (reverse t))
    ∙ reverse-reverse t

pub trim_lem : (s : Text) → IsTrim s
trim_lem s =
    let t = trim_start s in
    record {
      before = lead s;
      after = reverse (lead (reverse t));
      split = sym (ap (λ u. lead s ++ u) (trim_end t) ∙ lead-append-trim_start s);
      blank_before = lead-AreBlank s;
      blank_after = AreBlank-reverse (lead (reverse t)) (lead-AreBlank (reverse t));
    }
