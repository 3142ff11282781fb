-- ===== src/HelperCli/Starting.antt =====
-- src/bin/helper.rs: the subcommand `ensure-started`, run the way src/host.rs runs it.
use Prim.Native.String.{String}
use text.Mathlib.Text.{◌==◌ as str_eq}
use llm_wake_proxy.Base.{ℕ, suc, ◌*◌, ◌≤◌, ◌≡◌, refl, false, some, List, [], ◌∷◌, ap, ◌∙◌}
use llm_wake_proxy.Config.{Env}
use llm_wake_proxy.Helper.Types.{Target, EnsureStartedResponse, Machine, ModelsJson, target_text}
use llm_wake_proxy.Helper.{helper_from_env, ensure_started}
use llm_wake_proxy.Helper.Waiting.{IsTicking}
use llm_wake_proxy.Helper.Answers.{IsHonest, ensure_started-IsAnswered}
use llm_wake_proxy.HelperCli.{
  of_ensure_started, exit_for_status, after_ensure_started, run_ensure_started, run_subcommand,
  main, target_from_str,
}

target_from_str-target_text : (target : Target) → target_from_str (target_text target) ≡ some target
unfolding target_from_str target_text
target_from_str-target_text Target.chat = refl
target_from_str-target_text Target.embeddings = refl

abbrev pub ensure_started_args : String → Target → String → List String
ensure_started_args program target alias =
    program ∷ "ensure-started" ∷ target_text target ∷ alias ∷ []

module _ {W V : Type 0} (machine : Machine W) (json : ModelsJson V) (env : Env) where
  main-ensure_started :
      (fuel : ℕ) (program : String) (target : Target) (alias path : String) (w : W)
      → str_eq path "" ≡ false
      → env "EXPECTED_MODEL_PATH" ≡ some path
      → main machine json env fuel (ensure_started_args program target alias) w
        ≡ after_ensure_started machine json env
            (ensure_started machine json (helper_from_env env) target alias path fuel w)
  unfolding main run_subcommand run_ensure_started
  main-ensure_started fuel program target alias path w nonempty e =
      rw (target_from_str-target_text target, e, nonempty) refl

  -- The outcome of a run, and what was printed.
  pub main-starting :
      IsTicking machine
      → (k : ℕ) (program : String) (target : Target) (alias path : String) (w : W)
      → 2 * (helper_from_env env).server_start_timeout_secs ≤ k
      → str_eq path "" ≡ false
      → env "EXPECTED_MODEL_PATH" ≡ some path
      → (r : EnsureStartedResponse) × (w' : W) × (main machine json env
            (suc k)
            (ensure_started_args program target alias)
            w
          ≡ some (record {
            printed = some (of_ensure_started r);
            exit = exit_for_status r.status;
            world = w';
          }))
        × IsHonest machine json (helper_from_env env) target alias path r w'
  unfolding after_ensure_started
  main-starting ticking k program target alias path w enough nonempty e =
      let (out, answered, honest) =
        ensure_started-IsAnswered machine json (helper_from_env env) target alias path ticking k w
          enough in
      (
        out.0,
        out.1,
        main-ensure_started (suc k) program target alias path w nonempty e
            ∙ ap (after_ensure_started machine json env) answered,
        honest,
      )
