-- ===== src/Base/Doubles.antt =====
-- The language's addition of numbers, of which the program adds natural ones: IEEE 754 doubles.
use Prim.Native.Nat.{ℕ, zero, suc, ◌+◌, ◌*◌, ◌/◌, ◌%◌, ◌≤◌}
use mathlib.Core.Path.{◌≡◌, refl}
use mathlib.Core.Logic.{inl, inr}
use mathlib.Core.Bool.{true, false}
use native.Mathlib.Omega.{arith}
use aart.Base.Tests.{Bool-cases, ==_iff, le→leb, ◌==◌, leb, ltb, if◌then◌else◌}

-- `Number.MAX_SAFE_INTEGER + 1`, 2 ^ 53: every natural number up to it is a double.
abbrev pub max_exact : ℕ
max_exact = 9007199254740992

-- The distance of the doubles around a number, for numbers below 2 ^ (53 + fuel).
spacing : ℕ → ℕ → ℕ
spacing zero n = 1
spacing (suc fuel) n = elim (ltb n max_exact) [ true ↦ 1 | false ↦ 2 * spacing fuel (n / 2) ]

-- The nearest multiple of a distance, of two as near the even one.
nearest : ℕ → ℕ → ℕ
nearest unit n =
    let below = n / unit in
    let rest = 2 * (n % unit) in
    if ltb rest unit
    then below * unit
    else if ltb unit rest
    then (below + 1) * unit
    else (below + below % 2) * unit

-- `x + y` of two doubles whose sum is below 2 ^ 1024.
unfoldable pub add_number : ℕ → ℕ → ℕ
unfolding spacing nearest
add_number x y =
    if y == 0
    then x
    else if leb (x + y) max_exact
    then x + y
    else nearest (spacing 971 (x + y)) (x + y)

pub add_number-zero : (x : ℕ) → add_number x 0 ≡ x
unfolding add_number
add_number-zero x = refl

pub add_number_exact : (x y : ℕ) → x + y ≤ max_exact → add_number x y ≡ x + y
unfolding add_number
add_number_exact x y h = elim (Bool-cases (y == 0)) [
  | inl e ↦ let none_left : y ≡ 0 = (==_iff y 0).0 e in rw e (omega arith)
  | inr e ↦
      let small : leb (x + y) max_exact ≡ true = le→leb (x + y) max_exact h in rw (e, small) refl
]

-- One more than the last exact number is lost.
pub add_number_stuck : add_number max_exact 1 ≡ max_exact
unfolding add_number
add_number_stuck = refl

add_three : add_number max_exact 3 ≡ max_exact + 4
unfolding add_number
add_three = refl
