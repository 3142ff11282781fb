-- ===== src/Base/Lists.antt =====
-- Lists measured and indexed by native numbers, under the library's names.
use Prim.Native.Nat.{ℕ, zero, suc, ◌+◌, ◌<◌}
use mathlib.Core.Path.{◌≡◌, refl}
use mathlib.Core.List.{List, [], ◌∷◌, ◌++◌}
use mathlib.Core.Option.{Option, none, some}
use native.Mathlib.Omega.{arith}

module _ {ℓ} {A : Type ℓ} where
  abbrev pub length : List A → ℕ
  length [] = 0
  length (x ∷ xs) = suc (length xs)

  abbrev pub get_elem? : List A → ℕ → Option A
  get_elem? [] i = none
  get_elem? (x ∷ xs) zero = some x
  get_elem? (x ∷ xs) (suc i) = get_elem? xs i

  pub length-append : (xs ys : List A) → length (xs ++ ys) ≡ length xs + length ys
  length-append [] ys = omega arith
  length-append (x ∷ xs) ys = omega (arith, length-append xs ys)

  pub get_elem?-left :
      (xs ys : List A) (i j : ℕ) → i ≡ j → j < length xs → get_elem? (xs ++ ys) i ≡ get_elem? xs j
  get_elem?-left [] ys i j e h = absurd (omega (arith, h))
  get_elem?-left (x ∷ xs) ys zero zero e h = refl
  get_elem?-left (x ∷ xs) ys zero (suc j) e h = absurd (omega (arith, e))
  get_elem?-left (x ∷ xs) ys (suc i) zero e h = absurd (omega (arith, e))
  get_elem?-left (x ∷ xs) ys (suc i) (suc j) e h =
      get_elem?-left xs ys i j (omega (arith, e)) (omega (arith, h))

  pub get_elem?-right :
      (xs ys : List A) (i j : ℕ) → i ≡ length xs + j → get_elem? (xs ++ ys) i ≡ get_elem? ys j
  get_elem?-right [] ys i j h = let e : i ≡ j = omega (arith, h) in rw e refl
  get_elem?-right (x ∷ xs) ys zero j h = absurd (omega (arith, h))
  get_elem?-right (x ∷ xs) ys (suc i) j h = get_elem?-right xs ys i j (omega (arith, h))
