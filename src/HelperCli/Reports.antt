-- ===== src/HelperCli/Reports.antt =====
-- src/bin/helper.rs: the exit code against what was printed.
use Prim.Native.String.{String}
use text.Mathlib.Text.{◌==◌ as str_eq}
use llm_wake_proxy.Base.{
  ℕ, suc, ◌*◌, ◌≤◌, ◌≡◌, refl, Bool, true, false, Option, none, some, List, Bool-cases, get_elem?,
  inl, inr,
}
use llm_wake_proxy.Config.{Env}
use llm_wake_proxy.Helper.Types.{HelperStatus, Target, Machine, ModelsJson, is_ok_status}
use llm_wake_proxy.Helper.{helper_from_env}
use llm_wake_proxy.Helper.Waiting.{IsTicking}
use llm_wake_proxy.Helper.Answers.{ensure_started-IsAnswered}
use llm_wake_proxy.HelperCli.{
  ExitCode, Printed, of_status, of_ensure_started, of_lease_acquire, of_lease, Outcome,
  exit_for_status, run_status, after_ensure_started, run_ensure_started, run_lease_acquire,
  answered_lease, run_lease, run_subcommand, main,
}

abbrev pub is_success : ExitCode → Bool
is_success ExitCode.success = true
is_success ExitCode.failure = false

-- An answer was printed, and its status is Ok.
abbrev pub reports_ok : Option Printed → Bool
reports_ok none = false
reports_ok (some (of_status r)) = is_ok_status r.status
reports_ok (some (of_ensure_started r)) = is_ok_status r.status
reports_ok (some (of_lease_acquire r)) = is_ok_status r.status
reports_ok (some (of_lease r)) = is_ok_status r.status

pub exit_for_status-is_success :
    (s : HelperStatus) → is_success (exit_for_status s) ≡ is_ok_status s
unfolding exit_for_status
exit_for_status-is_success HelperStatus.ok = refl
exit_for_status-is_success HelperStatus.mismatch = refl
exit_for_status-is_success HelperStatus.error = refl

module _ {W V : Type 0} (machine : Machine W) (json : ModelsJson V) (env : Env) where
  -- The program ends, and its exit code is the one of what it printed.
  abbrev pub IsReported : Option (Outcome W) → Type 0
  IsReported out = (o : Outcome W) × (out ≡ some o) × (is_success o.exit ≡ reports_ok o.printed)

  run_ensure_started-IsReported :
      IsTicking machine
      → (k : ℕ) (target : Option Target) (alias path : Option String) (w : W)
      → 2 * (helper_from_env env).server_start_timeout_secs ≤ k
      → IsReported (run_ensure_started machine json env (suc k) target alias path w)
  unfolding run_ensure_started after_ensure_started
  run_ensure_started-IsReported ticking k none alias path w h = (_, refl, refl)
  run_ensure_started-IsReported ticking k (some target) none path w h = (_, refl, refl)
  run_ensure_started-IsReported ticking k (some target) (some alias) none w h = (_, refl, refl)
  run_ensure_started-IsReported ticking k (some target) (some alias) (some path) w h =
      let (r, e, honest) =
        ensure_started-IsAnswered machine json (helper_from_env env) target alias path ticking k w
          h in
      rw e (_, refl, exit_for_status-is_success r.0.status)

  run_lease-IsReported :
      (args : List String) (command : Option String) (w : W)
      → IsReported (some (run_lease machine json env args command w))
  unfolding run_lease run_lease_acquire answered_lease
  run_lease-IsReported args none w = (_, refl, refl)
  run_lease-IsReported args (some command) w = elim (Bool-cases (str_eq command "acquire")) [
    | inl e ↦ rw e (_, refl, exit_for_status-is_success _)
    | inr e ↦ rw e (elim (Bool-cases (str_eq command "release")) [
      | inl f ↦ rw f (_, refl, exit_for_status-is_success _)
      | inr f ↦ rw f (elim (Bool-cases (str_eq command "inspect")) [
        | inl g ↦ rw g (_, refl, exit_for_status-is_success _)
        | inr g ↦ rw g (_, refl, refl)
      ])
    ])
  ]

  run_subcommand-IsReported :
      IsTicking machine
      → (k : ℕ) (args : List String) (subcommand : Option String) (w : W)
      → 2 * (helper_from_env env).server_start_timeout_secs ≤ k
      → IsReported (run_subcommand machine json env (suc k) args subcommand w)
  unfolding run_subcommand run_status
  run_subcommand-IsReported ticking k args none w h = (_, refl, refl)
  run_subcommand-IsReported ticking k args (some subcommand) w h =
      elim (Bool-cases (str_eq subcommand "status")) [
        | inl e ↦ rw e (_, refl, exit_for_status-is_success _)
        | inr e ↦ rw e (elim (Bool-cases (str_eq subcommand "ensure-started")) [
          | inl f ↦ rw f (run_ensure_started-IsReported ticking k _ _ _ w h)
          | inr f ↦ rw f (elim (Bool-cases (str_eq subcommand "lease")) [
            | inl g ↦ rw g (run_lease-IsReported args (get_elem? args 2) w)
            | inr g ↦ rw g (_, refl, refl)
          ])
        ])
      ]

  -- Over a clock that ticks, with more rounds of fuel than half seconds in the configured timeout, the
  -- command line ends for all arguments, and its exit code is success exactly if it printed an answer
  -- whose status is Ok.
  pub main-IsReported :
      IsTicking machine
      → (k : ℕ) (args : List String) (w : W)
      → 2 * (helper_from_env env).server_start_timeout_secs ≤ k
      → IsReported (main machine json env (suc k) args w)
  unfolding main
  main-IsReported ticking k args w h =
      run_subcommand-IsReported ticking k args (get_elem? args 1) w h
