-- ===== src/HelperCli.antt =====
-- src/bin/helper.rs: the command line of the helper. What is written to the standard error is left out;
-- what is printed is the answer, before it becomes JSON.
pub mod Reports
pub mod Starting
use Prim.Native.String
use Prim.Native.String.{String}
use text.Mathlib.Text.{◌==◌ as str_eq}
use llm_wake_proxy.Base.{
  ℕ, ◌+◌, Bool, true, false, not, Option, none, some, List, Result, and_then, unwrap_or,
  if◌then◌else◌, get_elem?, codes, from_str_radix,
}
use llm_wake_proxy.Config.{Env, u64_max}
use llm_wake_proxy.Helper.Types.{
  HelperStatus, Target, StatusResponse, EnsureStartedResponse, LeaseAcquireResponse, LeaseResponse,
  Machine, ModelsJson, HelperConfig, is_ok_status,
}
use llm_wake_proxy.Helper
use llm_wake_proxy.Helper.{helper_from_env, ensure_started}
use llm_wake_proxy.Helper.Leasing.{lease_acquire, lease_release, lease_inspect}

pub data ExitCode : Type 0 where
  success failure : ExitCode

pub data Printed : Type 0 where
  of_status : StatusResponse → Printed
  of_ensure_started : EnsureStartedResponse → Printed
  of_lease_acquire : LeaseAcquireResponse → Printed
  of_lease : LeaseResponse → Printed

pub record Outcome (W : Type 0) : Type 0 where
  pub printed : Option Printed
  pub exit : ExitCode
  pub world : W

unfoldable pub exit_for_status : HelperStatus → ExitCode
exit_for_status HelperStatus.ok = ExitCode.success
exit_for_status HelperStatus.mismatch = ExitCode.failure
exit_for_status HelperStatus.error = ExitCode.failure

abbrev default_ttl : ℕ
default_ttl = 900

abbrev parse_ttl : String → Option ℕ
parse_ttl value = from_str_radix 10 u64_max (codes value)

ttl_of_flag : List String → ℕ → String → ℕ
ttl_of_flag args pos flag =
    if str_eq flag "--ttl"
    then unwrap_or (and_then (get_elem? args (pos + 1)) parse_ttl) default_ttl
    else default_ttl

ttl_at : List String → ℕ → Option String → ℕ
unfolding ttl_of_flag
ttl_at args pos none = default_ttl
ttl_at args pos (some flag) = ttl_of_flag args pos flag

unfoldable pub parse_ttl_arg : List String → ℕ → ℕ
unfolding ttl_at
parse_ttl_arg args pos = ttl_at args pos (get_elem? args pos)

-- `Target::from_str`
unfoldable pub target_from_str : String → Option Target
target_from_str s =
    if str_eq s "chat"
    then some Target.chat
    else if str_eq s "embeddings"
    then some Target.embeddings
    else none

abbrev non_empty : String → Option String
non_empty path = if str_eq path "" then none else some path

module _ {W V : Type 0} (machine : Machine W) (json : ModelsJson V) (env : Env) where
  abbrev refuse : W → Outcome W
  refuse w = record { printed = none; exit = ExitCode.failure; world = w }

  run_status : W → Outcome W
  unfolding exit_for_status
  run_status w =
      let (response, w') = Helper.status machine json (helper_from_env env) w in
      record {
        printed = some (of_status response);
        exit = exit_for_status response.status;
        world = w';
      }

  unfoldable pub after_ensure_started : Option (EnsureStartedResponse × W) → Option (Outcome W)
  unfolding exit_for_status
  after_ensure_started none = none
  after_ensure_started (some (response, w)) = some (record {
    printed = some (of_ensure_started response);
    exit = exit_for_status response.status;
    world = w;
  })

  -- The three values that `ensure-started` needs, in the order in which they are asked for.
  run_ensure_started : ℕ → Option Target → Option String → Option String → W → Option (Outcome W)
  unfolding after_ensure_started ensure_started
  run_ensure_started fuel none alias path w = some (refuse w)
  run_ensure_started fuel (some target) none path w = some (refuse w)
  run_ensure_started fuel (some target) (some alias) none w = some (refuse w)
  run_ensure_started fuel (some target) (some alias) (some path) w =
      after_ensure_started
        (ensure_started machine json (helper_from_env env) target alias path fuel w)

  run_lease_acquire : List String → W → Outcome W
  unfolding exit_for_status parse_ttl_arg
  run_lease_acquire args w =
      let (response, w') =
        lease_acquire machine json (helper_from_env env) (parse_ttl_arg args 3) w in
      record {
        printed = some (of_lease_acquire response);
        exit = exit_for_status response.status;
        world = w';
      }

  answered_lease : LeaseResponse × W → Outcome W
  unfolding exit_for_status
  answered_lease (response, w) = record {
    printed = some (of_lease response);
    exit = exit_for_status response.status;
    world = w;
  }

  run_lease : List String → Option String → W → Outcome W
  unfolding run_lease_acquire answered_lease
  run_lease args none w = refuse w
  run_lease args (some command) w =
      if str_eq command "acquire"
      then run_lease_acquire args w
      else if str_eq command "release"
      then answered_lease (lease_release machine json (helper_from_env env) w)
      else if str_eq command "inspect"
      then answered_lease (lease_inspect machine json (helper_from_env env) w)
      else refuse w

  run_subcommand : ℕ → List String → Option String → W → Option (Outcome W)
  unfolding run_status run_ensure_started run_lease target_from_str
  run_subcommand fuel args none w = some (refuse w)
  run_subcommand fuel args (some subcommand) w =
      if str_eq subcommand "status"
      then some (run_status w)
      else if str_eq subcommand "ensure-started"
      then run_ensure_started fuel (and_then (get_elem? args 2) target_from_str) (get_elem? args 3)
          (and_then (env "EXPECTED_MODEL_PATH") non_empty) w
      else if str_eq subcommand "lease"
      then some (run_lease args (get_elem? args 2) w)
      else some (refuse w)

  -- `main`, with the fuel of `wait_for_server`.
  unfoldable pub main : ℕ → List String → W → Option (Outcome W)
  unfolding run_subcommand
  main fuel args w = run_subcommand fuel args (get_elem? args 1) w
