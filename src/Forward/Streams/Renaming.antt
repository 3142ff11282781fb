-- ===== src/Forward/Streams/Renaming.antt =====
-- src/forward.rs, rewrite_model_alias: the rewritten text is that of the renamed lines.
use llm_wake_proxy.Base.{
  ℕ, ◌≡◌, refl, ap, ◌∙◌, Bool, true, false, some, List, [], ◌∷◌, ◌++◌, map, none, arith, inl, inr,
  if◌then◌else◌, Option-cases, join_with, strip_prefix, contains, strip_return, add_front, is_free,
  AllFree, is_free-append, split-join,
}
use llm_wake_proxy.Forward.{
  Json, model_key, data_prefix, renamed, or_else, after_parse, rewrite_payload, after_strip,
  rewrite_clean, rewrite_part, rewrite_model_alias,
}
use llm_wake_proxy.Forward.Rewriting.{back, payload_of, IsJson, rewrite_part-opaque}
use llm_wake_proxy.Forward.Guard.{rewrite_model_alias-each, rewrite_clean-lacking}
use llm_wake_proxy.Forward.Streams.{
  Line, event, object, other, content, ends, print, rename_line, model_of, aliased, renamed_text,
  IsLine, AreLines,
}

strip_return-back :
    (s : List ℕ) (has_r : Bool) → is_free 13 s ≡ true → strip_return (back (s, has_r)) ≡ (s, has_r)
unfolding strip_return add_front
strip_return-back [] true h = refl
strip_return-back [] false h = refl
strip_return-back (c ∷ []) true h = refl
strip_return-back (c ∷ []) false h = ground (arith, h)
strip_return-back (c ∷ d ∷ s) has_r h =
    ap (add_front c) (strip_return-back (d ∷ s) has_r (ground (arith, h)))

module _ {V : Type 0} (json : Json V) where
  -- A value that is read comes out renamed, after what stands before it.
  rewrite_payload-text :
      (alias before text : List ℕ) (v : V)
      → contains text model_key ≡ true
      → json.from_str text ≡ some v
      → rewrite_payload json alias before (before ++ text) text
        ≡ before ++ renamed_text json alias text v
  unfolding rewrite_payload after_parse or_else
  rewrite_payload-text alias before text v k e = rw k (
      rw e (elim (Option-cases (json.to_string (renamed json alias v))) [
        | inl n ↦ rw n refl
        | inr (out, p) ↦ rw p refl
      ]))

  rewrite_clean-event :
      (alias text : List ℕ) (v : V)
      → contains text model_key ≡ true
      → json.from_str text ≡ some v
      → rewrite_clean json alias (data_prefix ++ text)
        ≡ data_prefix ++ renamed_text json alias text v
  unfolding rewrite_clean after_strip strip_prefix
  rewrite_clean-event alias text v k e = rewrite_payload-text alias data_prefix text v k e

  rewrite_clean-object :
      (alias text : List ℕ) (v : V)
      → contains text model_key ≡ true
      → json.from_str text ≡ some v
      → strip_prefix data_prefix text ≡ none
      → rewrite_clean json alias text ≡ renamed_text json alias text v
  unfolding rewrite_clean after_strip
  rewrite_clean-object alias text v k e n = rw n (rewrite_payload-text alias [] text v k e)

  rewrite_part-back :
      (alias s : List ℕ) (has_r : Bool)
      → is_free 13 s ≡ true
      → rewrite_part json alias (back (s, has_r)) ≡ back (rewrite_clean json alias s, has_r)
  unfolding rewrite_part
  rewrite_part-back alias s has_r h = rw (strip_return-back s has_r h) refl

  rewrite_part-print :
      (alias : List ℕ) (l : Line V)
      → IsLine json l
      → rewrite_part json alias (print json l) ≡ print json (rename_line json alias l)
  rewrite_part-print alias (event text v has_r) (plain, is_text) =
      rewrite_part-back alias (data_prefix ++ text) has_r
        (is_free-append 13 data_prefix text refl plain.1)
      ∙ ap (λ t. back (t, has_r)) (rewrite_clean-event alias text v is_text.0 is_text.1)
  rewrite_part-print alias (object text v has_r) (plain, is_text, start) =
      rewrite_part-back alias text has_r plain.1
      ∙ ap (λ t. back (t, has_r)) (rewrite_clean-object alias text v is_text.0 is_text.1 start)
  rewrite_part-print alias (other text has_r) (plain, inl lacks) =
      rewrite_part-back alias text has_r plain.1
      ∙ ap (λ t. back (t, has_r)) (rewrite_clean-lacking json alias text lacks)
  rewrite_part-print alias (other text has_r) (plain, inr opaque) =
      rewrite_part-opaque json alias (back (text, has_r)) (
        ap (λ (c : List ℕ × Bool). json.from_str (payload_of c.0))
          (strip_return-back text has_r plain.1)
        ∙ opaque)

  map-print :
      (alias : List ℕ) (ls : List (Line V))
      → AreLines json ls
      → map (rewrite_part json alias) (map (print json) ls)
        ≡ map (print json) (map (rename_line json alias) ls)
  map-print alias [] h = refl
  map-print alias (l ∷ ls) h = cc (rewrite_part-print alias l h.0, map-print alias ls h.1)

  ends-free : (b : Bool) → is_free 10 (if b then 13 ∷ [] else []) ≡ true
  ends-free true = refl
  ends-free false = refl

  content-free : (l : Line V) → IsLine json l → is_free 10 (content json l) ≡ true
  content-free (event text v has_r) h = is_free-append 10 data_prefix text refl h.0.0
  content-free (object text v has_r) h = h.0.0
  content-free (other text has_r) h = h.0.0

  print-AllFree : (ls : List (Line V)) → AreLines json ls → AllFree 10 (map (print json) ls)
  print-AllFree [] h = tt
  print-AllFree (l ∷ ls) h = (
    is_free-append 10 (content json l) (if ends json l then 13 ∷ [] else []) (content-free l h.0)
        (ends-free (ends json l)),
    print-AllFree ls h.1,
  )

module _ {V : Type 0} (json : Json V) (laws : IsJson json) where
  renamed-aliased :
      (alias : List ℕ) (v : V)
      → json.get_model (renamed json alias v) ≡ aliased json alias (json.get_model v)
  unfolding renamed
  renamed-aliased alias v = elim (Option-cases (json.get_model v)) [
    | inl e ↦ rw e e
    | inr (m, e) ↦ rw e (laws.get_model-set_model v (json.string alias) m e)
  ]

  map-aliased :
      (alias : List ℕ) (ls : List (Line V))
      → map (model_of json) (map (rename_line json alias) ls)
        ≡ map (λ l. aliased json alias (model_of json l)) ls
  map-aliased alias [] = refl
  map-aliased alias (event t v r ∷ ls) = cc (renamed-aliased alias v, map-aliased alias ls)
  map-aliased alias (object t v r ∷ ls) = cc (renamed-aliased alias v, map-aliased alias ls)
  map-aliased alias (other text r ∷ ls) = cc (map-aliased alias ls)

  -- The program's rewriting of a text is the renaming of its lines. A line is a text that holds the
  -- key `"model"` and is read as a JSON value, after `data: ` or alone, or a text that does not hold the
  -- key, or one whose payload is not JSON; none has a carriage return but at its end, and one alone does
  -- not begin with `data: `. The rewritten text has the same lines in the same order with their carriage
  -- returns, a value's text being what the JSON library prints of the renamed value (or, if it prints
  -- nothing, the old text), and every other line as it was. Where assigning a model replaces it, the
  -- renamed values have a model where the values had one, which is the alias.
  pub rewrite_model_alias-renames :
      (alias : List ℕ) (l : Line V) (ls : List (Line V))
      → AreLines json (l ∷ ls)
      → (rewrite_model_alias json (join_with 10 (map (print json) (l ∷ ls))) alias
          ≡ join_with 10 (map (print json) (map (rename_line json alias) (l ∷ ls))))
        × (map (model_of json) (map (rename_line json alias) (l ∷ ls))
            ≡ map (λ k. aliased json alias (model_of json k)) (l ∷ ls))
  rewrite_model_alias-renames alias l ls h = (
    rewrite_model_alias-each json (join_with 10 (map (print json) (l ∷ ls))) alias
        ∙ ap (λ parts. join_with 10 (map (rewrite_part json alias) parts))
            (split-join 10 (print json l) (map (print json) ls) (print-AllFree json (l ∷ ls) h))
        ∙ ap (join_with 10) (map-print json alias (l ∷ ls) h),
    map-aliased alias (l ∷ ls),
  )
