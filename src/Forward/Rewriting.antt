-- ===== src/Forward/Rewriting.antt =====
-- src/forward.rs, rewrite_model_alias: what passes unchanged, and what is relied on of serde_json.
use llm_wake_proxy.Base.{
  ℕ, ◌≡◌, refl, ap, ◌∙◌, Bool, Option, none, some, List, [], ◌∷◌, ◌++◌, map, arith, if◌then◌else◌,
  split_on, strip_prefix, strip_return, join-split, add_front,
}
use llm_wake_proxy.Forward.{
  Json, data_prefix, rewrite_payload, after_strip, rewrite_clean, rewrite_part, rewrite_model_alias,
}

-- The payload of a line: what follows `data: `, or all of it.
abbrev pub payload_of : List ℕ → List ℕ
payload_of clean = elim (strip_prefix data_prefix clean) [ none ↦ clean | some sse_data ↦ sse_data ]

abbrev pub back : List ℕ × Bool → List ℕ
back (clean, has_r) = clean ++ (if has_r then 13 ∷ [] else [])

back-add_front : (c : ℕ) (r : List ℕ × Bool) → back (add_front c r) ≡ c ∷ back r
unfolding add_front
back-add_front c (s, b) = refl

-- A line is what `strip_suffix('\r')` leaves, with what it took.
pub back-strip_return : (s : List ℕ) → back (strip_return s) ≡ s
unfolding strip_return
back-strip_return [] = refl
back-strip_return (c ∷ []) = ground arith
back-strip_return (c ∷ d ∷ s) =
    back-add_front c (strip_return (d ∷ s)) ∙ ap (λ t. c ∷ t) (back-strip_return (d ∷ s))

module _ {V : Type 0} (json : Json V) where
  -- The payload of no line of the text is JSON.
  abbrev pub IsOpaque : List (List ℕ) → Type 0
  IsOpaque [] = Unit {0}
  IsOpaque (part ∷ parts) =
      (json.from_str (payload_of (strip_return part).0) ≡ none) × IsOpaque parts

  rewrite_payload-opaque :
      (alias before clean payload : List ℕ)
      → json.from_str payload ≡ none
      → rewrite_payload json alias before clean payload ≡ clean
  unfolding rewrite_payload
  rewrite_payload-opaque alias before clean payload h = rw h (ground arith)

  after_strip-opaque :
      (alias clean : List ℕ) (o : Option (List ℕ))
      → json.from_str (elim o [ none ↦ clean | some sse_data ↦ sse_data ]) ≡ none
      → after_strip json alias clean o ≡ clean
  unfolding after_strip
  after_strip-opaque alias clean none h = rewrite_payload-opaque alias [] clean clean h
  after_strip-opaque alias clean (some d) h = rewrite_payload-opaque alias data_prefix clean d h

  pub rewrite_part-opaque :
      (alias part : List ℕ)
      → json.from_str (payload_of (strip_return part).0) ≡ none
      → rewrite_part json alias part ≡ part
  unfolding rewrite_part rewrite_clean
  rewrite_part-opaque alias part h =
      ap (λ t. t ++ (if (strip_return part).1 then 13 ∷ [] else []))
        (after_strip-opaque alias (strip_return part).0
          (strip_prefix data_prefix (strip_return part).0) h)
      ∙ back-strip_return part

  map-rewrite_part-opaque :
      (alias : List ℕ) (parts : List (List ℕ))
      → IsOpaque parts
      → map (rewrite_part json alias) parts ≡ parts
  map-rewrite_part-opaque alias [] h = refl
  map-rewrite_part-opaque alias (p ∷ ps) h =
      cc (rewrite_part-opaque alias p h.0, map-rewrite_part-opaque alias ps h.1)

  -- A text none of whose lines is JSON, alone or after `data: `, passes unchanged, its line ends and
  -- carriage returns included, whatever names it holds.
  pub rewrite_model_alias-opaque :
      (body alias : List ℕ)
      → IsOpaque (split_on 10 body)
      → rewrite_model_alias json body alias ≡ body
  unfolding rewrite_model_alias
  rewrite_model_alias-opaque body alias h =
      rw (map-rewrite_part-opaque alias (split_on 10 body) h)
        (rw (join-split 10 body) (ground arith))

  -- What the program relies on of serde_json: where a value has a model, assigning one replaces it.
  pub record IsJson : Type 0 where
    pub get_model-set_model :
        (v x m : V) → json.get_model v ≡ some m → json.get_model (json.set_model x v) ≡ some x
