-- ===== src/Base/Splitting.antt =====
-- `split` undoes `join` where no part holds the separator.
use Prim.Native.Nat.{ℕ}
use mathlib.Core.Path.{◌≡◌, refl, ap, ◌∙◌}
use mathlib.Core.Logic.{inl, inr}
use mathlib.Core.Bool.{Bool, true, false, ◌&&◌, not}
use mathlib.Core.List.{List, [], ◌∷◌, ◌++◌}
use native.Mathlib.Omega.{arith}
use llm_wake_proxy.Base.Tests.{Bool-cases, ◌==◌, ==_iff}
use llm_wake_proxy.Base.Text.{split_on, join_with, grow}

-- No character of the text is `sep`.
abbrev pub is_free : ℕ → List ℕ → Bool
is_free sep [] = true
is_free sep (c ∷ s) = not (c == sep) && is_free sep s

abbrev pub AllFree : ℕ → List (List ℕ) → Type 0
AllFree sep [] = Unit {0}
AllFree sep (p ∷ ps) = (is_free sep p ≡ true) × AllFree sep ps

pub split_on_free : (sep : ℕ) (s : List ℕ) → is_free sep s ≡ true → split_on sep s ≡ s ∷ []
unfolding split_on grow
split_on_free sep [] h = refl
split_on_free sep (c ∷ s) h = ground (arith, split_on_free sep s)

split_on-append :
    (sep : ℕ) (s rest : List ℕ)
    → is_free sep s ≡ true
    → split_on sep (s ++ sep ∷ rest) ≡ s ∷ split_on sep rest
unfolding split_on grow
split_on-append sep [] rest h = rw ((==_iff sep sep).1 refl)
split_on-append sep (c ∷ s) rest h = ground (arith, split_on-append sep s rest)

pub split-join :
    (sep : ℕ) (p : List ℕ) (ps : List (List ℕ))
    → AllFree sep (p ∷ ps)
    → split_on sep (join_with sep (p ∷ ps)) ≡ p ∷ ps
unfolding join_with
split-join sep p [] h = split_on_free sep p h.0
split-join sep p (q ∷ qs) h =
    split_on-append sep p (join_with sep (q ∷ qs)) h.0 ∙ ap (λ t. p ∷ t) (split-join sep q qs h.1)

pub is_free-append :
    (sep : ℕ) (s t : List ℕ)
    → is_free sep s ≡ true
    → is_free sep t ≡ true
    → is_free sep (s ++ t) ≡ true
is_free-append sep [] t h k = k
is_free-append sep (c ∷ s) t h k = ground (arith, is_free-append sep s t)

AllFree-grow :
    (sep c : ℕ) (parts : List (List ℕ))
    → (c == sep) ≡ false
    → AllFree sep parts
    → AllFree sep (grow c parts)
unfolding grow
AllFree-grow sep c [] e h = (ground arith, tt)
AllFree-grow sep c (p ∷ ps) e h = (ground arith, h.1)

-- No part of a split text holds the separator.
pub split_on-AllFree : (sep : ℕ) (s : List ℕ) → AllFree sep (split_on sep s)
unfolding split_on
split_on-AllFree sep [] = (refl, tt)
split_on-AllFree sep (c ∷ s) = elim (Bool-cases (c == sep)) [
  | inl e ↦ rw e (refl, split_on-AllFree sep s)
  | inr e ↦ rw e (AllFree-grow sep c (split_on sep s) e (split_on-AllFree sep s))
]
