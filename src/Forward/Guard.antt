-- ===== src/Forward/Guard.antt =====
-- src/forward.rs, rewrite_model_alias: the test for the key, on the whole text and on a payload, only saves
-- work.
use llm_wake_proxy.Base.{
  ℕ, ◌≡◌, refl, ap, ◌∙◌, sym, Bool, true, false, Option, none, some, List, [], ◌∷◌, ◌++◌, map,
  arith, inl, inr, if◌then◌else◌, Bool-cases, Option-cases, split_on, join_with, strip_prefix,
  contains, is_found, strip_return, join-split, split_on-cons, ◌==◌, ==_iff,
}
use mathlib.Core.List.{append-nil}
use llm_wake_proxy.Forward.{
  Json, model_key, data_prefix, rewrite_payload, after_strip, rewrite_clean, rewrite_part,
  rewrite_model_alias,
}
use llm_wake_proxy.Forward.Rewriting.{back, back-strip_return}

-- A prefix of a text is one of any longer text.
is_found-append :
    (needle s rest : List ℕ)
    → is_found (strip_prefix needle s) ≡ true
    → is_found (strip_prefix needle (s ++ rest)) ≡ true
unfolding strip_prefix
is_found-append [] s rest h = refl
is_found-append (p ∷ ps) [] rest h = absurd (ground (arith, h))
is_found-append (p ∷ ps) (c ∷ s) rest h = ground (arith, is_found-append ps s rest)

contains-left :
    (k : ℕ) (ks s rest : List ℕ) → contains s (k ∷ ks) ≡ true → contains (s ++ rest) (k ∷ ks) ≡ true
unfolding contains strip_prefix
contains-left k ks [] rest h = absurd (ground (arith, h))
contains-left k ks (c ∷ s) rest h = elim (Bool-cases (is_found (strip_prefix (k ∷ ks) (c ∷ s)))) [
  | inl e ↦ rw (is_found-append (k ∷ ks) (c ∷ s) rest e) refl
  | inr e ↦ ground (arith, contains-left k ks s rest (rw e at h))
]

contains-right :
    (needle before s : List ℕ) → contains s needle ≡ true → contains (before ++ s) needle ≡ true
unfolding contains
contains-right needle [] s h = h
contains-right needle (c ∷ before) s h = ground (arith, contains-right needle before s h)

abbrev AllLack : List ℕ → List (List ℕ) → Type 0
AllLack needle [] = Unit {0}
AllLack needle (p ∷ ps) = (contains p needle ≡ false) × AllLack needle ps

join_with-cons :
    (sep : ℕ) (p : List ℕ) (ps : List (List ℕ))
    → (rest : List ℕ) × (join_with sep (p ∷ ps) ≡ p ++ rest)
unfolding join_with
join_with-cons sep p [] = ([], sym (append-nil p))
join_with-cons sep p (q ∷ qs) = (sep ∷ join_with sep (q ∷ qs), refl)

pub true_is_false : ¬ (true ≡ false)
true_is_false q = cc

-- What a text lacks, the first part of it lacks with one more character in front.
first_part-lacks :
    (k : ℕ) (ks : List ℕ) (c : ℕ) (p rest s : List ℕ)
    → s ≡ p ++ rest
    → contains (c ∷ s) (k ∷ ks) ≡ false
    → contains (c ∷ p) (k ∷ ks) ≡ false
first_part-lacks k ks c p rest s e h = elim (Bool-cases (contains (c ∷ p) (k ∷ ks))) [
  | inl found ↦
      let still = contains-left k ks (c ∷ p) rest found in
      absurd (true_is_false (sym still ∙ ap (λ t. contains (c ∷ t) (k ∷ ks)) (sym e) ∙ h))
  | inr lacks ↦ lacks
]

split_on-lacks :
    (k : ℕ) (ks : List ℕ) (sep : ℕ) (s : List ℕ)
    → contains s (k ∷ ks) ≡ false
    → AllLack (k ∷ ks) (split_on sep s)
unfolding split_on contains strip_prefix
split_on-lacks k ks sep [] h = (refl, tt)
split_on-lacks k ks sep (c ∷ s) h =
    let rest = split_on-lacks k ks sep s (ground (arith, h)) in
    elim (Bool-cases (c == sep)) [
      | inl e ↦ rw e (refl, rest)
      | inr e ↦
          let (p, ps, q) = split_on-cons sep s in
          let (tail, j) = join_with-cons sep p ps in
          let whole : s ≡ p ++ tail = sym (join-split sep s) ∙ ap (join_with sep) q ∙ j in
          rw (e, q) (first_part-lacks k ks c p tail s whole h, (rw q at rest).1)
    ]

strip_prefix-eq : (p s r : List ℕ) → strip_prefix p s ≡ some r → s ≡ p ++ r
unfolding strip_prefix
strip_prefix-eq [] s r h = ground (arith, h)
strip_prefix-eq (c ∷ p) [] r h = absurd (ground (arith, h))
strip_prefix-eq (c ∷ p) (d ∷ s) r h = elim (Bool-cases (c == d)) [
  | inl e ↦ cc ((==_iff c d).0 e, strip_prefix-eq p s r (rw e at h))
  | inr e ↦ absurd (none_is_some (rw e at h))
]
  where
    none_is_some : ¬ (◌≡◌ {A = Option (List ℕ)} none (some r))
    none_is_some q = cc

lacks_payload :
    (d : List ℕ) → contains (data_prefix ++ d) model_key ≡ false → contains d model_key ≡ false
lacks_payload d h = elim (Bool-cases (contains d model_key)) [
  | inl e ↦ absurd (true_is_false (sym (contains-right model_key data_prefix d e) ∙ h))
  | inr e ↦ e
]

lacks_clean :
    (clean : List ℕ) (has_r : Bool)
    → contains (back (clean, has_r)) model_key ≡ false
    → contains clean model_key ≡ false
lacks_clean clean has_r h = elim (Bool-cases (contains clean model_key)) [
  | inl e ↦
      absurd
        (true_is_false (sym (contains-left b'"' _ clean (if has_r then 13 ∷ [] else []) e) ∙ h))
  | inr e ↦ e
]

module _ {V : Type 0} (json : Json V) where
  pub rewrite_clean-lacking :
      (alias clean : List ℕ)
      → contains clean model_key ≡ false
      → rewrite_clean json alias clean ≡ clean
  unfolding rewrite_clean after_strip rewrite_payload
  rewrite_clean-lacking alias clean h = elim (Option-cases (strip_prefix data_prefix clean)) [
    | inl e ↦ rw e (rw h refl)
    | inr (d, e) ↦
        rw e (rw (lacks_payload d (rw (strip_prefix-eq data_prefix clean d e) at h)) refl)
  ]

  rewrite_part-lacking :
      (alias part : List ℕ) → contains part model_key ≡ false → rewrite_part json alias part ≡ part
  unfolding rewrite_part
  rewrite_part-lacking alias part h =
      let (clean, has_r) = strip_return part in
      let whole = back-strip_return part in
      ap (λ t. t ++ (if has_r then 13 ∷ [] else []))
        (rewrite_clean-lacking alias clean
          (lacks_clean clean has_r (ap (λ t. contains t model_key) whole ∙ h)))
      ∙ whole

  map-lacking :
      (alias : List ℕ) (parts : List (List ℕ))
      → AllLack model_key parts
      → map (rewrite_part json alias) parts ≡ parts
  map-lacking alias [] h = refl
  map-lacking alias (p ∷ ps) h = cc (rewrite_part-lacking alias p h.0, map-lacking alias ps h.1)

  -- The test on the whole text changes nothing: the text is rewritten line by line.
  pub rewrite_model_alias-each :
      (body alias : List ℕ)
      → rewrite_model_alias json body alias
        ≡ join_with 10 (map (rewrite_part json alias) (split_on 10 body))
  unfolding rewrite_model_alias
  rewrite_model_alias-each body alias = elim (Bool-cases (contains body model_key)) [
    | inl e ↦ rw e refl
    | inr e ↦ rw e (
        sym (
          ap (join_with 10) (map-lacking alias (split_on 10 body) (split_on-lacks b'"' _ 10 body e))
          ∙ join-split 10 body))
  ]
