-- ===== src/Host/Observing.antt =====
-- src/host.rs, SshHelperRpc::observe_backend: when the proxy takes the backend for ready.
use Prim.Native.String
use Prim.Native.String.{String}
use llm_wake_proxy.Base.{
  ◌≡◌, refl, Bool, true, false, List, [], ◌∷◌, Result, ok, err, ◌⊎◌, Bool-cases, ap, ◌∙◌, inl, inr,
}
use llm_wake_proxy.Lifecycle.Types.{
  LifecycleRequest, LifecycleError, ObservedBackendState, is_ready_state,
}
use llm_wake_proxy.Helper.Types.{HelperStatus, EnsureStartedResponse, target_text}
use llm_wake_proxy.Host.{
  System, HelperJson, SshHelperRpc, run_helper_cmd, decoded_ensure, parsed_ensure,
  rpc_ensure_started, with_units, after_ensure_started, observe_backend, fetch_status,
}
use llm_wake_proxy.Host.Answers.{lifecycle_of_answer, observed_of_ensure}

module _ {W : Type 0} (system : System W) (json : HelperJson) (rpc : SshHelperRpc) where
  abbrev pub ensure_args : List String
  ensure_args =
      "env"
      ∷ String.◌++◌ "EXPECTED_MODEL_PATH=" rpc.model_path
      ∷ rpc.helper_path
      ∷ "ensure-started"
      ∷ target_text rpc.target
      ∷ rpc.model_alias
      ∷ []

  -- The helper was run for this target, alias and path, and said that the model is verified.
  abbrev pub IsVouched : W → Type 0
  IsVouched w =
      (text : String) × (answer : EnsureStartedResponse) × ((run_helper_cmd system rpc ensure_args
          w).0
        ≡ ok text)
      × (json.ensure_started_response text ≡ ok answer)
      × (answer.status ≡ HelperStatus.ok)
      × (answer.model_verified ≡ true)

  abbrev pub says_ready : Result ObservedBackendState LifecycleError → Bool
  says_ready (ok state) = is_ready_state state.lifecycle
  says_ready (err e) = false

  lifecycle_of_answer-ready :
      (s : HelperStatus) (verified : Bool)
      → (is_ready_state (lifecycle_of_answer s verified) ≡ false)
        ⊎ ((s ≡ HelperStatus.ok) × (verified ≡ true))
  unfolding lifecycle_of_answer
  lifecycle_of_answer-ready HelperStatus.ok true = inr (refl, refl)
  lifecycle_of_answer-ready HelperStatus.ok false = inl refl
  lifecycle_of_answer-ready HelperStatus.mismatch verified = inl refl
  lifecycle_of_answer-ready HelperStatus.error verified = inl refl

  decoded_ensure-ready :
      (w : W) (text : String) (r : Result EnsureStartedResponse String)
      → (run_helper_cmd system rpc ensure_args w).0 ≡ ok text
      → json.ensure_started_response text ≡ r
      → (says_ready (decoded_ensure system json r) ≡ false) ⊎ IsVouched w
  unfolding decoded_ensure observed_of_ensure
  decoded_ensure-ready w text (err e) h d = inl refl
  decoded_ensure-ready w text (ok answer) h d =
      elim (lifecycle_of_answer-ready answer.status answer.model_verified) [
        | inl other ↦ inl other
        | inr (s, v) ↦ inr (text, answer, h, d, s, v)
      ]

  parsed_ensure-ready :
      (w : W) (r : Result String LifecycleError)
      → (run_helper_cmd system rpc ensure_args w).0 ≡ r
      → (says_ready (parsed_ensure system json r) ≡ false) ⊎ IsVouched w
  unfolding parsed_ensure
  parsed_ensure-ready w (err e) h = inl refl
  parsed_ensure-ready w (ok text) h =
      decoded_ensure-ready w text (json.ensure_started_response text) h refl

  with_units-lifecycle :
      (state : ObservedBackendState) (r : Result ObservedBackendState LifecycleError)
      → (with_units system json state r).lifecycle ≡ state.lifecycle
  unfolding with_units
  with_units-lifecycle state (ok other) = refl
  with_units-lifecycle state (err e) = refl

  after_ensure_started-lifecycle :
      (r : Result ObservedBackendState LifecycleError) (w : W)
      → says_ready (after_ensure_started system json rpc (r, w)).0 ≡ says_ready r
  unfolding after_ensure_started
  after_ensure_started-lifecycle (err e) w = refl
  after_ensure_started-lifecycle (ok state) w = elim (Bool-cases (is_ready_state state.lifecycle)) [
    | inl e ↦
        let (fetched, w') = fetch_status system json rpc w in
        let kept = with_units-lifecycle state fetched in rw e (ap is_ready_state kept ∙ e)
    | inr e ↦ rw e e
  ]

  -- The proxy takes the backend for ready only if the helper was run over ssh for this target, alias
  -- and path, and its answer has the status Ok and says that the model is verified. What the second
  -- command, `status`, answers does not matter for that, nor does its failure.
  pub observe_backend-IsVouched :
      (request : LifecycleRequest) (w : W)
      → (says_ready (observe_backend system json rpc request w).0
          ≡ says_ready (rpc_ensure_started system json rpc w).0)
        × ((says_ready (observe_backend system json rpc request w).0 ≡ false) ⊎ IsVouched w)
  unfolding observe_backend rpc_ensure_started
  observe_backend-IsVouched request w =
      let run = run_helper_cmd system rpc ensure_args w in
      let same = after_ensure_started-lifecycle (parsed_ensure system json run.0) run.1 in
      (
        same,
        elim (parsed_ensure-ready w run.0 refl) [
          | inl other ↦ inl (same ∙ other)
          | inr vouched ↦ inr vouched
        ],
      )
