-- ===== src/Base/Text.antt =====
-- Text as a list of code points, and the standard library's functions on it that the source calls.
use Prim.Native.Char.{code}
use Prim.Native.String.{String}
use Prim.Native.Nat.{ℕ, suc, ◌+◌, ◌-◌, ◌*◌, ◌≤◌}
use mathlib.Core.Path.{◌≡◌, refl, ap, ◌∙◌}
use mathlib.Core.Logic.{inl, inr}
use mathlib.Core.Bool.{Bool, true, false, ◌&&◌, ◌||◌}
use mathlib.Core.Option.{Option, none, some}
use mathlib.Core.List.{List, [], ◌∷◌, ◌++◌}
use native.Mathlib.Omega.{arith}
use llm_wake_proxy.Base.Tests.{leb, ◌==◌, if◌then◌else◌, Bool-cases, ==_iff}

abbrev pub codes : String → List ℕ
codes String.[] = []
codes (String.◌∷◌ c s) = code c ∷ codes s

-- `str::split` at a character: there is always one part.
unfoldable pub grow : ℕ → List (List ℕ) → List (List ℕ)
grow c [] = (c ∷ []) ∷ []
grow c (part ∷ parts) = (c ∷ part) ∷ parts

unfoldable pub split_on : ℕ → List ℕ → List (List ℕ)
unfolding grow
split_on sep [] = [] ∷ []
split_on sep (c ∷ s) = let rest = split_on sep s in if c == sep then [] ∷ rest else grow c rest

-- `[T]::join` with a one-character separator.
unfoldable pub join_with : ℕ → List (List ℕ) → List ℕ
join_with sep [] = []
join_with sep (part ∷ []) = part
join_with sep (part ∷ other ∷ parts) = part ++ sep ∷ join_with sep (other ∷ parts)

-- `str::strip_prefix`.
unfoldable pub strip_prefix : List ℕ → List ℕ → Option (List ℕ)
strip_prefix [] s = some s
strip_prefix (p ∷ ps) [] = none
strip_prefix (p ∷ ps) (c ∷ s) = if p == c then strip_prefix ps s else none

abbrev pub is_found : Option (List ℕ) → Bool
is_found none = false
is_found (some s) = true

-- `str::contains`.
unfoldable pub contains : List ℕ → List ℕ → Bool
unfolding strip_prefix
contains [] needle = is_found (strip_prefix needle [])
contains (c ∷ s) needle = is_found (strip_prefix needle (c ∷ s)) || contains s needle

-- A line without a final `\r`, and whether it had one: `str::strip_suffix('\r')`.
unfoldable pub add_front : ℕ → List ℕ × Bool → List ℕ × Bool
add_front c (s, b) = (c ∷ s, b)

unfoldable pub strip_return : List ℕ → List ℕ × Bool
unfolding add_front
strip_return [] = ([], false)
strip_return (c ∷ []) = if c == 13 then ([], true) else (c ∷ [], false)
strip_return (c ∷ d ∷ s) = add_front c (strip_return (d ∷ s))

abbrev no_digit : ℕ
no_digit = 36

-- The value of an ASCII digit or letter, and 36 for all else.
digit_value : ℕ → ℕ
digit_value c =
    if leb b'0' c && leb c b'9'
    then c - b'0'
    else if leb b'a' c && leb c b'z'
    then c - b'a' + 10
    else if leb b'A' c && leb c b'Z'
    then c - b'A' + 10
    else no_digit

-- The loop of `from_str_radix`: checked multiplication and addition.
digits_from : ℕ → ℕ → ℕ → List ℕ → Option ℕ
digits_from radix most acc [] = some acc
digits_from radix most acc (c ∷ s) =
    let next = acc * radix + digit_value c in
    let rest = digits_from radix most next s in
    if leb radix (digit_value c) || leb (suc most) next then none else rest

-- `from_str_radix` of an unsigned type whose largest value is `most`: one `+` may stand in front.
unfoldable pub from_str_radix : ℕ → ℕ → List ℕ → Option ℕ
unfolding digits_from digit_value
from_str_radix radix most [] = none
from_str_radix radix most (c ∷ []) = digits_from radix most 0 (c ∷ [])
from_str_radix radix most (c ∷ d ∷ s) =
    digits_from radix most 0 (if c == b'+' then d ∷ s else c ∷ d ∷ s)

-- `char::is_whitespace`: the code points of Unicode's White_Space.
is_whitespace : ℕ → Bool
is_whitespace c =
    (leb 9 c && leb c 13)
    || c == 32
    || c == 0x85
    || c == 0xa0
    || c == 0x1680
    || (leb 0x2000 c && leb c 0x200a)
    || c == 0x2028
    || c == 0x2029
    || c == 0x202f
    || c == 0x205f
    || c == 0x3000

-- `value.trim().is_empty()`.
unfoldable pub is_blank : List ℕ → Bool
unfolding is_whitespace
is_blank [] = true
is_blank (c ∷ s) = is_whitespace c && is_blank s

digits_from-le :
    (radix most acc : ℕ) (s : List ℕ) (n : ℕ)
    → acc ≤ most
    → digits_from radix most acc s ≡ some n
    → n ≤ most
unfolding digits_from
digits_from-le radix most acc [] n h e = ground arith
digits_from-le radix most acc (c ∷ s) n h e =
    ground (arith, digits_from-le radix most (acc * radix + digit_value c) s n)

-- A parsed number fits its type.
pub from_str_radix-le :
    (radix most : ℕ) (s : List ℕ) {n : ℕ} → from_str_radix radix most s ≡ some n → n ≤ most
unfolding from_str_radix
from_str_radix-le radix most [] e = cc
from_str_radix-le radix most (c ∷ []) {n} e = digits_from-le radix most 0 (c ∷ []) n (omega arith) e
from_str_radix-le radix most (c ∷ d ∷ s) {n} e =
    digits_from-le radix most 0 (if c == b'+' then d ∷ s else c ∷ d ∷ s) n (omega arith) e

pub split_on-cons :
    (sep : ℕ) (s : List ℕ) → (p : List ℕ) × (ps : List (List ℕ)) × (split_on sep s ≡ p ∷ ps)
unfolding split_on
split_on-cons sep [] = ([], [], refl)
split_on-cons sep (c ∷ s) = elim (Bool-cases (c == sep)) [
  | inl e ↦ ([], split_on sep s, rw e)
  | inr e ↦ let (p, ps, q) = split_on-cons sep s in (c ∷ p, ps, rw e (rw (q, grow)))
]

join-grow :
    (sep c : ℕ) (parts : List (List ℕ)) → join_with sep (grow c parts) ≡ c ∷ join_with sep parts
unfolding join_with grow
join-grow sep c [] = refl
join-grow sep c (p ∷ []) = refl
join-grow sep c (p ∷ o ∷ ps) = refl

-- Nothing is lost by splitting.
pub join-split : (sep : ℕ) (s : List ℕ) → join_with sep (split_on sep s) ≡ s
unfolding split_on join_with
join-split sep [] = refl
join-split sep (c ∷ s) = elim (Bool-cases (c == sep)) [
  | inl e ↦
      let (p, ps, q) = split_on-cons sep s in
      rw e (rw (q, join_with) (cc (join-split sep s, q, (==_iff c sep).0 e)))
  | inr e ↦ rw e (join-grow sep c (split_on sep s) ∙ ap (λ t. c ∷ t) (join-split sep s))
]
