-- ===== src/Examples/Texts.antt =====
-- The rewriting of the model's name and the configuration at concrete inputs.

use llm_wake_proxy.Base.{
  ℕ, ◌≡◌, refl, true, false, none, some, List, [], ◌∷◌, ◌++◌, codes, arith, is_free, if◌then◌else◌,
  strip_prefix, split_on, contains, strip_return, map, inl, inr, join_with,
}
use llm_wake_proxy.Forward.{Json, model_key, rewrite_model_alias}
use llm_wake_proxy.Forward.Rewriting.{IsJson, rewrite_model_alias-opaque}
use llm_wake_proxy.Forward.Streams.{Line, event, other, print, rename_line, model_of, aliased}
use llm_wake_proxy.Forward.Streams.Renaming.{rewrite_model_alias-renames}
use llm_wake_proxy.Config.{parse_mac}
use llm_wake_proxy.Config.Mac.{format_mac, parse_mac-format_mac}

-- A language whose values are model names, written after the key; a name with a line feed has no text.
abbrev pub sample_json : Json (List ℕ)
sample_json = record {
  from_str = λ s. strip_prefix model_key s;
  to_string = λ v. if is_free 10 v then some (model_key ++ v) else none;
  get_model = λ v. some v;
  set_model = λ x v. x;
  string = λ s. s;
}

sample-IsJson : IsJson sample_json
sample-IsJson = record { get_model-set_model = λ v x m h. refl }

abbrev new_name : List ℕ
new_name = codes "alias"

-- The first half of an object that was split over two chunks.
rewrite_model_alias-opaque_example :
    rewrite_model_alias sample_json (codes "data: {\"model\":\"up") new_name
    ≡ codes "data: {\"model\":\"up"
unfolding split_on strip_prefix strip_return
rewrite_model_alias-opaque_example =
    rewrite_model_alias-opaque sample_json (codes "data: {\"model\":\"up") new_name (refl, tt)

abbrev first_line : Line (List ℕ)
first_line = event (model_key ++ codes "up") (codes "up") true

-- The empty line after an event, and the end of the stream.
abbrev last_lines : List (Line (List ℕ))
last_lines = other [] true ∷ other (codes "data: [DONE]") false ∷ []

rewrite_model_alias-renames_example :
    (rewrite_model_alias sample_json
        (join_with 10 (map (print sample_json) (first_line ∷ last_lines)))
        new_name
      ≡ join_with 10 (
          map
            (print sample_json)
            (map (rename_line sample_json new_name) (first_line ∷ last_lines))))
    × (map (model_of sample_json) (map (rename_line sample_json new_name) (first_line ∷ last_lines))
        ≡ map
            (λ k. aliased sample_json new_name (model_of sample_json k))
            (first_line ∷ last_lines))
unfolding strip_prefix contains
rewrite_model_alias-renames_example =
    rewrite_model_alias-renames sample_json sample-IsJson new_name first_line last_lines
      (((refl, refl), (refl, refl)), (((refl, refl), inl refl), (((refl, refl), inr refl), tt)))

parse_mac-format_mac_example :
    parse_mac (format_mac (0 ∷ 17 ∷ 34 ∷ 170 ∷ 187 ∷ 255 ∷ []))
    ≡ some (0 ∷ 17 ∷ 34 ∷ 170 ∷ 187 ∷ 255 ∷ [])
parse_mac-format_mac_example =
    parse_mac-format_mac (0 ∷ 17 ∷ 34 ∷ 170 ∷ 187 ∷ 255 ∷ []) refl
      (omega arith, (omega arith, (omega arith, (omega arith, (omega arith, (omega arith, tt))))))
