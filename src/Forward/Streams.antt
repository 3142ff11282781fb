-- ===== src/Forward/Streams.antt =====
-- src/forward.rs, rewrite_model_alias: a reference definition, on the lines of a text as what they mean.
pub mod Renaming
use llm_wake_proxy.Base.{
  ℕ, ◌≡◌, Bool, true, false, Option, none, some, List, [], ◌∷◌, ◌++◌, strip_prefix, contains,
  unwrap_or, is_free, ◌⊎◌,
}
use llm_wake_proxy.Forward.{Json, model_key, data_prefix, renamed}
use llm_wake_proxy.Forward.Rewriting.{back, payload_of}

-- A line, with whether a carriage return stands at its end: the text of a value that mentions a model,
-- after `data: ` or alone, or some other text.
pub data Line (V : Type 0) : Type 0 where
  event object : (text : List ℕ) (value : V) (has_r : Bool) → Line V
  other : (text : List ℕ) (has_r : Bool) → Line V

module _ {V : Type 0} (json : Json V) where
  abbrev pub content : Line V → List ℕ
  content (event text v has_r) = data_prefix ++ text
  content (object text v has_r) = text
  content (other text has_r) = text

  abbrev pub ends : Line V → Bool
  ends (event text v has_r) = has_r
  ends (object text v has_r) = has_r
  ends (other text has_r) = has_r

  abbrev pub print : Line V → List ℕ
  print l = back (content l, ends l)

  -- The text of the renamed value, as the library prints it; a value that it cannot print keeps its own.
  abbrev pub renamed_text : List ℕ → List ℕ → V → List ℕ
  renamed_text alias text v = unwrap_or (json.to_string (renamed json alias v)) text

  abbrev pub rename_line : List ℕ → Line V → Line V
  rename_line alias (event text v has_r) =
      event (renamed_text alias text v) (renamed json alias v) has_r
  rename_line alias (object text v has_r) =
      object (renamed_text alias text v) (renamed json alias v) has_r
  rename_line alias (other text has_r) = other text has_r

  abbrev pub model_of : Line V → Option V
  model_of (event text v has_r) = json.get_model v
  model_of (object text v has_r) = json.get_model v
  model_of (other text has_r) = none

  -- The alias in place of a model.
  abbrev pub aliased : List ℕ → Option V → Option V
  aliased alias none = none
  aliased alias (some m) = some (json.string alias)

  -- A text on one line.
  abbrev pub IsPlain : List ℕ → Type 0
  IsPlain text = (is_free 10 text ≡ true) × (is_free 13 text ≡ true)

  -- A text that holds the key of a model and that the library reads as this value.
  abbrev pub IsTextOf : List ℕ → V → Type 0
  IsTextOf text v = (contains text model_key ≡ true) × (json.from_str text ≡ some v)

  -- An object alone does not begin with `data: `. Some other text does not hold the key, or its payload
  -- is not JSON.
  abbrev pub IsLine : Line V → Type 0
  IsLine (event text v has_r) = IsPlain text × IsTextOf text v
  IsLine (object text v has_r) =
      IsPlain text × IsTextOf text v × (strip_prefix data_prefix text ≡ none)
  IsLine (other text has_r) =
      IsPlain text × ((contains text model_key ≡ false) ⊎ (json.from_str (payload_of text) ≡ none))

  abbrev pub AreLines : List (Line V) → Type 0
  AreLines [] = Unit {0}
  AreLines (l ∷ ls) = IsLine l × AreLines ls
