-- ===== src/Helper/Systemd/Readback.antt =====
-- src/helper.rs, parse_systemctl_output: what `systemctl show` prints is read back.
use Prim.Native.Char.{code}
use Prim.Native.String
use Prim.Native.String.{String}
use text.Mathlib.Text.{◌==◌ as str_eq}
use text.Mathlib.TextLemmas.{cons-append, nil-append}
use llm_wake_proxy.Base.{
  ℕ, ◌≡◌, refl, Bool, true, false, not, ◌&&◌, Option, none, some, List, [], ◌∷◌, ◌==◌, arith,
  if◌then◌else◌, fun_ext, ok, ◌∙◌, ap,
}
use llm_wake_proxy.Helper.Types.{Properties}
use llm_wake_proxy.Helper.Systemd.{
  strip_cr, split_lines, lines, split_once, insert, read_lines, no_properties, parse_properties,
  parse_systemctl_output,
}

-- The character does not stand in the text.
abbrev pub lacks : ℕ → String → Bool
lacks n String.[] = true
lacks n (String.◌∷◌ c s) = not (code c == n) && lacks n s

-- A line of the output, and the output.
abbrev pub property_line : String × String → String
property_line (key, value) = String.◌++◌ key (String.◌++◌ "=" value)

abbrev pub show_text : List (String × String) → String
show_text [] = ""
show_text (p ∷ ps) = String.◌++◌ (property_line p) (String.◌++◌ "\n" (show_text ps))

-- A name with no `=`, and neither it nor the value with a line end.
pub record IsPrintable (p : String × String) : Type 0 where
  pub name : lacks b'=' p.0 ≡ true
  pub line_feed : (lacks 10 p.0 ≡ true) × (lacks 10 p.1 ≡ true)
  pub carriage : (lacks 13 p.0 ≡ true) × (lacks 13 p.1 ≡ true)

abbrev pub AllPrintable : List (String × String) → Type 0
AllPrintable [] = Unit {0}
AllPrintable (p ∷ ps) = IsPrintable p × AllPrintable ps

-- The last value that is printed for a name.
abbrev pub last_value : String → List (String × String) → Option String → Option String
last_value name [] found = found
last_value name ((key, value) ∷ ps) found =
    last_value name ps (if str_eq key name then some value else found)

lacks-append :
    (n : ℕ) (s t : String) → lacks n s ≡ true → lacks n t ≡ true → lacks n (String.◌++◌ s t) ≡ true
lacks-append n String.[] t h k = rw (nil-append t) k
lacks-append n (String.◌∷◌ c s) t h k = rw (cons-append c s t) (ground (arith, lacks-append n s t))

lacks-equals :
    (n : ℕ) (t : String)
    → (b'=' == n) ≡ false
    → lacks n t ≡ true
    → lacks n (String.◌++◌ "=" t) ≡ true
lacks-equals n t d h =
    rw (cons-append _ "" t, nil-append t) (ap (λ (b : Bool). not b && lacks n t) d ∙ h)

strip_cr-lacks : (s : String) → lacks 13 s ≡ true → strip_cr s ≡ s
unfolding strip_cr
strip_cr-lacks String.[] h = refl
strip_cr-lacks (String.◌∷◌ c s) h = ground (arith, strip_cr-lacks s)

split_lines-append :
    (s t : String)
    → lacks 10 s ≡ true
    → split_lines (String.◌++◌ s (String.◌++◌ "\n" t))
      ≡ record { first = s; ended = true; rest = lines t }
unfolding split_lines lines
split_lines-append String.[] t h =
    rw (nil-append (String.◌++◌ "\n" t), cons-append _ "" t, nil-append t) refl
split_lines-append (String.◌∷◌ c s) t h =
    rw (cons-append c s (String.◌++◌ "\n" t)) (ground (arith, split_lines-append s t))

split_once-append :
    (s t : String)
    → lacks b'=' s ≡ true
    → split_once b'=' (String.◌++◌ s (String.◌++◌ "=" t)) ≡ some (s, t)
unfolding split_once
split_once-append String.[] t h =
    rw (nil-append (String.◌++◌ "=" t), cons-append _ "" t, nil-append t) refl
split_once-append (String.◌∷◌ c s) t h =
    rw (cons-append c s (String.◌++◌ "=" t)) (ground (arith, split_once-append s t))

property_line-lacks :
    (n : ℕ) (key value : String)
    → (b'=' == n) ≡ false
    → (lacks n key ≡ true) × (lacks n value ≡ true)
    → lacks n (property_line (key, value)) ≡ true
property_line-lacks n key value d h =
    lacks-append n key (String.◌++◌ "=" value) (h.0) (lacks-equals n value d (h.1))

lines-show_text :
    (key value t : String)
    → IsPrintable (key, value)
    → lines (String.◌++◌ (property_line (key, value)) (String.◌++◌ "\n" t))
      ≡ property_line (key, value) ∷ lines t
unfolding lines
lines-show_text key value t h =
    rw
      (
        split_lines-append _ t (property_line-lacks 10 key value refl h.line_feed),
        strip_cr-lacks _ (property_line-lacks 13 key value refl h.carriage),
      )
      refl

read_lines-line :
    (key value : String) (rest : List String) (map : Properties)
    → IsPrintable (key, value)
    → read_lines (property_line (key, value) ∷ rest) map ≡ read_lines rest (insert key value map)
unfolding read_lines
read_lines-line key value rest map h = rw (split_once-append key value h.name) refl

read_lines-show_text :
    (ps : List (String × String)) (map : Properties) (name : String)
    → AllPrintable ps
    → read_lines (lines (show_text ps)) map name ≡ last_value name ps (map name)
read_lines-show_text [] map name h = unfold read_lines lines split_lines in refl
read_lines-show_text ((key, value) ∷ ps) map name h =
    rw
      (
        lines-show_text key value (show_text ps) (h.0),
        read_lines-line key value (lines (show_text ps)) map (h.0),
      )
      (read_lines-show_text ps (insert key value map) name (h.1))

-- What `systemctl show` prints is read back: when every property has a name without an equals sign,
-- and neither the names nor the values hold a line feed or a carriage return, then the parser gives
-- the map in which each name has the value that was printed last for it, and none where none was.
pub parse_systemctl_output-show_text :
    (ps : List (String × String))
    → AllPrintable ps
    → parse_systemctl_output (ok (show_text ps)) ≡ ok (λ name. last_value name ps none)
unfolding parse_systemctl_output parse_properties
parse_systemctl_output-show_text ps h =
    ap ok (fun_ext (λ name. read_lines-show_text ps no_properties name h))
