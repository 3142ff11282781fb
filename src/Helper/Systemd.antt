-- ===== src/Helper/Systemd.antt =====
-- src/helper.rs, RealSystemd and CurlHttp: the machine that the helper runs on, by way of systemctl,
-- systemd-run and curl. To run a process, the clock and to sleep are the operating system's.
pub mod Readback
use Prim.Native.Char.{Char, code}
use Prim.Native.String
use Prim.Native.String.{String}
use text.Mathlib.Text.{◌==◌ as str_eq}
use llm_wake_proxy.Base.{
  ℕ, Bool, true, false, ◌&&◌, Option, none, some, List, [], ◌∷◌, ◌++◌, Result, ok, err, ◌==◌,
  if◌then◌else◌,
}
use llm_wake_proxy.Helper.Types.{ProcessOutput, Properties, Machine}

pub record Processes (W : Type 0) : Type 0 where
  pub output : String → List String → W → Result ProcessOutput String × W
  pub instant : W → ℕ
  pub sleep : ℕ → W → W

abbrev pub is_empty_text : String → Bool
is_empty_text String.[] = true
is_empty_text (String.◌∷◌ c s) = false

-- A line without the `\r` that may stand before its line feed.
unfoldable pub strip_cr : String → String
strip_cr String.[] = ""
strip_cr (String.◌∷◌ c s) =
    let rest = strip_cr s in if code c == 13 && is_empty_text s then "" else String.◌∷◌ c rest

-- The first line of a text, whether a line feed ends it, and the lines after it.
pub record Split : Type 0 where
  pub first : String
  pub ended : Bool
  pub rest : List String

abbrev pub lines_of : Split → List String
lines_of s =
    if s.ended
    then strip_cr s.first ∷ s.rest
    else if is_empty_text s.first
    then []
    else s.first ∷ s.rest

unfoldable pub split_lines : String → Split
split_lines String.[] = record { first = ""; ended = false; rest = [] }
split_lines (String.◌∷◌ c s) =
    let after = split_lines s in
    if code c == 10
    then record { first = ""; ended = true; rest = lines_of after }
    else record after { first = String.◌∷◌ c after.first }

-- `str::lines`
unfoldable pub lines : String → List String
unfolding split_lines
lines s = lines_of (split_lines s)

abbrev pub add_first : Char → Option (String × String) → Option (String × String)
add_first c none = none
add_first c (some (front, back)) = some (String.◌∷◌ c front, back)

-- `str::split_once`
unfoldable pub split_once : ℕ → String → Option (String × String)
split_once sep String.[] = none
split_once sep (String.◌∷◌ c s) =
    let rest = split_once sep s in if code c == sep then some ("", s) else add_first c rest

-- `HashMap::insert`
abbrev pub insert : String → String → Properties → Properties
insert key value map = λ name. if str_eq key name then some value else map name

abbrev pub insert_line : Option (String × String) → Properties → Properties
insert_line none map = map
insert_line (some (key, value)) map = insert key value map

unfoldable pub read_lines : List String → Properties → Properties
unfolding split_once
read_lines [] map = map
read_lines (line ∷ rest) map = read_lines rest (insert_line (split_once b'=' line) map)

abbrev no_properties : Properties
no_properties = λ name. none

-- `parse_systemctl_output`, of output that is UTF-8.
unfoldable pub parse_properties : String → Properties
unfolding read_lines lines
parse_properties text = read_lines (lines text) no_properties

unfoldable pub parse_systemctl_output : Result String String → Result Properties String
unfolding parse_properties
parse_systemctl_output (err e) = err (String.◌++◌ "invalid UTF-8 in systemctl output: " e)
parse_systemctl_output (ok text) = ok (parse_properties text)

abbrev failed_to_run : String → String → String
failed_to_run program e = String.◌++◌ "failed to run " (String.◌++◌ program (String.◌++◌ ": " e))

shown : Result ProcessOutput String → Result Properties String
unfolding parse_systemctl_output
shown (err e) = err (failed_to_run "systemctl" e)
shown (ok output) =
    if output.success
    then parse_systemctl_output output.stdout
    else err (String.◌++◌ "systemctl show failed: " output.stderr)

was_active : Result ProcessOutput String → Result Bool String
was_active (err e) = err (failed_to_run "systemctl" e)
was_active (ok output) = ok output.success

-- A command of `program` that gives nothing but its success.
commanded : String → String → Result ProcessOutput String → Result (Unit {0}) String
commanded program label (err e) = err (failed_to_run program e)
commanded program label (ok output) =
    if output.success
    then ok tt
    else err (String.◌++◌ label (String.◌++◌ " failed: " output.stderr))

fetched : Result ProcessOutput String → Result String String
fetched (err e) = err (failed_to_run "curl" e)
fetched (ok output) =
    if output.success
    then elim output.stdout [ ok text ↦ ok text | err e ↦ err (String.◌++◌ "invalid UTF-8: " e) ]
    else err (String.◌++◌ "curl failed: " output.stderr)

abbrev pub show_args : String → List String
show_args unit =
    "--user" ∷ "show" ∷ unit ∷ "--property=ActiveState" ∷ "--property=SubState"
    ∷ "--property=Description" ∷ []

abbrev pub run_args : String → String → List String → List String
run_args unit description args =
    ("--user" ∷ "--unit" ∷ unit ∷ "--replace" ∷ "--description" ∷ description ∷ "--collect" ∷ [])
    ++ args

module _ {W : Type 0} (processes : Processes W) where
  -- A process is run, and its output read.
  abbrev run_then :
      {A : Type 0} → String → List String → (Result ProcessOutput String → A) → W → A × W
  run_then program args read w =
      let (output, w') = processes.output program args w in (read output, w')

  unfoldable pub real_machine : Machine W
  unfolding shown was_active commanded fetched
  real_machine = record {
    show_unit = λ unit. run_then "systemctl" (show_args unit) shown;
    is_active = λ unit. run_then "systemctl" ("--user" ∷ "is-active" ∷ unit ∷ []) was_active;
    start_unit = λ unit.
        run_then "systemctl" ("--user" ∷ "start" ∷ unit ∷ [])
          (commanded "systemctl" "systemctl start");
    stop_unit = λ unit.
        run_then "systemctl" ("--user" ∷ "stop" ∷ unit ∷ [])
          (commanded "systemctl" "systemctl stop");
    replace_transient_unit = λ unit description args.
        run_then "systemd-run" (run_args unit description args)
          (commanded "systemd-run" "systemd-run");
    get_text = λ url. run_then "curl" ("-sf" ∷ url ∷ []) fetched;
    instant = processes.instant;
    sleep = processes.sleep;
  }
