-- ===== src/Production/Remote.antt =====
-- src/host.rs with src/bin/helper.rs at the other end of ssh: what the proxy is told by the helper that
-- it runs. The ssh connection and serde's JSON are parameters.
use Prim.Native.String.{String}
use text.Mathlib.Text.{◌==◌ as str_eq}
use llm_wake_proxy.Base.{
  ℕ, suc, ◌*◌, ◌≤◌, ◌≡◌, refl, Bool, true, false, Option, none, some, Result, ok, err, ◌⊎◌, inl,
  inr, Bool-cases, if◌then◌else◌, arith,
}
use llm_wake_proxy.Config.{Env}
use llm_wake_proxy.Lifecycle.Types.{LifecycleState, LifecycleError, ObservedBackendState}
use llm_wake_proxy.Helper.Types.{
  HelperStatus, EnsureStartedResponse, Machine, ModelsJson, ProcessOutput, is_ok_status,
}
use llm_wake_proxy.Helper.{helper_from_env}
use llm_wake_proxy.Helper.Waiting.{IsTicking}
use llm_wake_proxy.Helper.Answers.{IsHonest, IsVerified}
use llm_wake_proxy.HelperCli.{Printed, of_ensure_started, Outcome, main, exit_for_status}
use llm_wake_proxy.HelperCli.Reports.{is_success, exit_for_status-is_success}
use llm_wake_proxy.HelperCli.Starting.{ensure_started_args, main-starting}
use llm_wake_proxy.Host.{
  System, HelperJson, SshHelperRpc, ssh_args, run_helper_cmd, rpc_ensure_started, text_of_output,
  parsed_ensure, decoded_ensure,
}
use llm_wake_proxy.Host.Answers.{observed_of_ensure, lifecycle_of_answer}
use llm_wake_proxy.Host.Observing.{ensure_args}

-- `env EXPECTED_MODEL_PATH=…`
abbrev pub with_path : String → Env → Env
with_path path env = λ name. if str_eq name "EXPECTED_MODEL_PATH" then some path else env name

abbrev pub succeeds : Result ProcessOutput String → Bool
succeeds (err e) = false
succeeds (ok output) = output.success

-- serde_json's `to_string` of an answer.
abbrev pub text_of : (Printed → String) → Option Printed → String
text_of print none = ""
text_of print (some answer) = print answer

module _ {W V : Type 0} (system : System W) (json : HelperJson) (machine : Machine W)
    (models : ModelsJson V) (print : Printed → String) (env : Env) (rpc : SshHelperRpc) where
  abbrev pub remote_run : ℕ → W → Option (Outcome W)
  remote_run fuel =
      main machine models (with_path rpc.model_path env) fuel
        (ensure_started_args rpc.helper_path rpc.target rpc.model_alias)

  abbrev pub ssh_run : W → Result ProcessOutput String × W
  ssh_run = system.run "ssh" (ssh_args rpc (ensure_args system json rpc))

  -- ssh gives back the outcome of the remote command.
  abbrev pub IsDelivered : W → Outcome W → Type 0
  IsDelivered w o =
      (stderr : String) × (ssh_run w ≡ (
        ok (record {
          success = is_success o.exit;
          stdout = ok (text_of print o.printed);
          stderr = stderr;
        }),
        o.world,
      ))

  -- The helper is installed on the host: ssh fails, or runs it and gives back its outcome; and serde
  -- reads what serde wrote.
  pub record IsInstalled (fuel : ℕ) (w : W) : Type 0 where
    pub runs :
        (o : Outcome W)
        → remote_run fuel w ≡ some o
        → (succeeds (ssh_run w).0 ≡ false) ⊎ IsDelivered w o
    pub reads :
        (o : Outcome W) (r : EnsureStartedResponse)
        → remote_run fuel w ≡ some o
        → o.printed ≡ some (of_ensure_started r)
        → json.ensure_started_response (print (of_ensure_started r)) ≡ ok r

  -- An error; or the backend is ready, and the server on the host has named the expected model.
  abbrev pub IsTold : Result ObservedBackendState LifecycleError × W → Type 0
  IsTold (err e, w) = Unit {0}
  IsTold (ok state, w) =
      (state.lifecycle ≡ LifecycleState.ready)
      × IsVerified machine models (helper_from_env (with_path rpc.model_path env)) rpc.target
          rpc.model_alias rpc.model_path w

  lost-IsTold :
      (out : Result ProcessOutput String) (w : W)
      → succeeds out ≡ false
      → IsTold (parsed_ensure system json (text_of_output system out), w)
  unfolding parsed_ensure text_of_output
  lost-IsTold (err e) w h = tt
  lost-IsTold (ok output) w h = rw h tt

  is_ok_status-cases : (s : HelperStatus) → (is_ok_status s ≡ true) ⊎ (is_ok_status s ≡ false)
  is_ok_status-cases s = Bool-cases (is_ok_status s)

  lifecycle_of_answer-verified :
      (s : HelperStatus) (verified : Bool)
      → is_ok_status s ≡ true
      → verified ≡ true
      → lifecycle_of_answer s verified ≡ LifecycleState.ready
  unfolding lifecycle_of_answer
  lifecycle_of_answer-verified HelperStatus.ok true h v = refl
  lifecycle_of_answer-verified HelperStatus.ok false h v = ground arith
  lifecycle_of_answer-verified HelperStatus.mismatch verified h v = ground arith
  lifecycle_of_answer-verified HelperStatus.error verified h v = ground arith

  answered-IsTold :
      (r : EnsureStartedResponse) (stderr : String) (w : W)
      → json.ensure_started_response (print (of_ensure_started r)) ≡ ok r
      → IsHonest machine models
          (helper_from_env (with_path rpc.model_path env))
          rpc.target
          rpc.model_alias
          rpc.model_path
          r
          w
      → IsTold (
        parsed_ensure system json (
            text_of_output system (
              ok (record {
                success = is_success (exit_for_status r.status);
                stdout = ok (print (of_ensure_started r));
                stderr = stderr;
              }))),
        w,
      )
  unfolding parsed_ensure text_of_output decoded_ensure observed_of_ensure
  answered-IsTold r stderr w reads honest = elim (is_ok_status-cases r.status) [
    | inl fine ↦ elim honest.verified [
      | inl unverified ↦ absurd (ground (arith, honest.verdict, fine, unverified))
      | inr (v, ready, verified) ↦
          rw (exit_for_status-is_success r.status, fine, reads)
            (lifecycle_of_answer-verified r.status r.model_verified fine v, verified)
    ]
    | inr bad ↦ rw (exit_for_status-is_success r.status, bad) tt
  ]

  -- Let the helper be installed on the host: ssh fails, or runs it and gives back its outcome, and what
  -- it printed is read back. Let the clock there tick, the fuel be more rounds than half seconds in the
  -- helper's timeout, and the path not be empty. Then `ensure_started` gives an error, or it says that
  -- the backend is ready, and the server on the host was asked just before the last look at the unit
  -- and named the expected model. It never says that the backend is warming or in error.
  pub rpc_ensure_started-IsTold :
      IsTicking machine
      → (k : ℕ) (w : W)
      → 2 * (helper_from_env (with_path rpc.model_path env)).server_start_timeout_secs ≤ k
      → str_eq rpc.model_path "" ≡ false
      → IsInstalled (suc k) w
      → IsTold (rpc_ensure_started system json rpc w)
  unfolding rpc_ensure_started run_helper_cmd
  rpc_ensure_started-IsTold ticking k w enough nonempty installed =
      let (r, w', e, honest) =
        main-starting machine models (with_path rpc.model_path env) ticking k rpc.helper_path
          rpc.target rpc.model_alias rpc.model_path w enough nonempty refl in
      elim (installed.runs _ e) [
        | inl failed ↦ lost-IsTold (ssh_run w).0 (ssh_run w).1 failed
        | inr (stderr, d) ↦ rw d (answered-IsTold r stderr w' (installed.reads _ r e refl) honest)
      ]
