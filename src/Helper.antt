-- ===== src/Helper.antt =====
-- src/helper.rs: the helper on the host, which starts the model server, verifies the model and holds
-- the lease that keeps the host awake. The waiting loop runs on fuel; a `none` says that it ran out.
mod Environment
pub mod Types
pub mod Waiting
pub mod Answers
pub mod Leasing
pub mod Systemd
unfoldable pub use Environment.*
use Prim.Native.String
use Prim.Native.String.{String}
use text.Mathlib.Text.{◌==◌ as str_eq}
use llm_wake_proxy.Base.{
  ℕ, zero, suc, ◌+◌, ◌*◌, Bool, true, false, ◌||◌, Option, none, some, List, [], ◌∷◌, Result, ok,
  err, is_ok, ok_or, and_then, unwrap_or, leb, min, max, if◌then◌else◌, contains, codes,
  from_str_radix,
}
use llm_wake_proxy.Http.{to_text}
use llm_wake_proxy.Config.{Env, u16_max, u64_max}
use Types.{
  HelperStatus, Target, UnitInfo, ModelInfo, StatusResponse, EnsureStartedResponse,
  LeaseAcquireResponse, LeaseResponse, Properties, Machine, ModelsJson, HelperConfig, unit_for,
  port_for,
}

module _ {W V : Type 0} (machine : Machine W) (json : ModelsJson V) where
  -- It never gives `none`, so that the `unwrap_or` of its callers is not reached.
  unfoldable pub collect_unit_info : String → W → Option UnitInfo × W
  unfolding unit_of_result
  collect_unit_info unit w =
      let (r, w') = machine.show_unit unit w in (some (unit_of_result unit r), w')

  unfoldable pub is_server_alive : ℕ → W → Bool × W
  unfolding build_server_url
  is_server_alive port w =
      let (r, w') = machine.get_text (build_server_url port "/v1/models") w in (is_ok r, w')

  -- The loop of `wait_for_server`: one round is one look at the clock.
  unfoldable pub wait_loop : ℕ → ℕ → ℕ → W → Option Bool × W
  unfolding is_server_alive
  wait_loop zero deadline port w = (none, w)
  wait_loop (suc fuel) deadline port w =
      let (alive, w') = is_server_alive port w in
      let rest = wait_loop fuel deadline port (machine.sleep 500 w') in
      if leb deadline (machine.instant w)
      then (some false, w)
      else if alive
      then (some true, w')
      else rest

  -- For a timeout with which the deadline fits in an Instant; the source panics at others.
  unfoldable pub wait_for_server : ℕ → ℕ → ℕ → W → Option Bool × W
  unfolding wait_loop
  wait_for_server fuel port timeout_secs w =
      wait_loop fuel (machine.instant w + 1000 * timeout_secs) port w

  identity_of : Result String String → Result (Option String) String
  unfolding first_id
  identity_of (err e) = err e
  identity_of (ok body) = elim (json.from_str body) [
    | err e ↦ err (String.◌++◌ "failed to parse models response: " e)
    | ok v ↦ ok (and_then (json.as_array (json.index v "data")) (first_id json))
  ]

  unfoldable pub check_model_identity : ℕ → W → Result (Option String) String × W
  unfolding identity_of build_server_url
  check_model_identity port w =
      let (r, w') = machine.get_text (build_server_url port "/v1/models") w in (identity_of r, w')

  model_of : Result (Option String) String → ModelInfo
  model_of (ok reported_id) = record {
    model_alias = unwrap_or reported_id "";
    model_path = unwrap_or reported_id "";
    serving = true;
    ready = true;
    reported_id = none;
  }
  model_of (err e) = record {
    model_alias = "";
    model_path = "";
    serving = true;
    ready = false;
    reported_id = none;
  }

  unfoldable pub active_model_for : ℕ → W → Option ModelInfo × W
  unfolding is_server_alive check_model_identity model_of
  active_model_for port w =
      let (alive, w') = is_server_alive port w in
      if alive
      then (let (r, w'') = check_model_identity port w' in (some (model_of r), w''))
      else (none, w')

  unfoldable pub status : HelperConfig → W → StatusResponse × W
  unfolding collect_unit_info active_model_for
  status config w =
      let (llama_server, w1) = collect_unit_info config.llama_server_unit w in
      let (inhibit_holder, w2) = collect_unit_info config.inhibit_holder_unit w1 in
      let (active_model, w3) = active_model_for config.llama_server_port w2 in
      let (llama_server_embeddings, w4) =
        collect_unit_info config.llama_server_embeddings_unit w3 in
      let (active_model_embeddings, w5) = active_model_for config.llama_server_embeddings_port w4 in
      (
        record {
          status = HelperStatus.ok;
          message = "current host unit state";
          llama_server = llama_server;
          inhibit_holder = inhibit_holder;
          active_model = active_model;
          llama_server_embeddings = llama_server_embeddings;
          active_model_embeddings = active_model_embeddings;
        },
        w5,
      )

  -- An answer of `ensure_started` with the unit as it is now.
  module _ (config : HelperConfig) (target : Target) (model_alias model_path : String) where
    answer : HelperStatus → String → Bool → Bool → Bool → UnitInfo → W → EnsureStartedResponse × W
    unfolding collect_unit_info unit_for
    answer s text startup_triggered server_ready model_verified instead w =
        let (unit_info, w') = collect_unit_info (unit_for config target) w in
        (
          record {
            status = s;
            message = text;
            model_alias = model_alias;
            model_path = model_path;
            startup_triggered = startup_triggered;
            server_ready = server_ready;
            model_verified = model_verified;
            llama_server = some (unwrap_or unit_info instead);
          },
          w',
        )

    -- What follows `check_model_identity`.
    after_identity : Bool → Result (Option String) String → W → EnsureStartedResponse × W
    unfolding answer is_same_model
    after_identity triggered (ok (some reported_id)) w =
        if is_same_model reported_id model_path
        then answer HelperStatus.ok
            (if triggered
              then "model started and verified successfully"
              else "model is already running and ready")
            triggered true true (fallback (unit_for config target) "active" "running" "") w
        else answer HelperStatus.mismatch
            (String.◌++◌ "expected model path '" (
              String.◌++◌ model_path
                (String.◌++◌ "', but server reports '" (String.◌++◌ reported_id "'"))))
            triggered true false (fallback (unit_for config target) "active" "running" "") w
    after_identity triggered (ok none) w =
        answer HelperStatus.error "server responded but returned no model identifiers" triggered
          true false (fallback (unit_for config target) "active" "running" "") w
    after_identity triggered (err e) w =
        answer HelperStatus.error (String.◌++◌ "model identity check failed: " e) triggered true
          false (fallback (unit_for config target) "unknown" "model_identity_check_error" e) w

    not_ready_text : String
    unfolding to_text
    not_ready_text =
        String.◌++◌ "llama-server did not become ready within "
          (String.◌++◌ (to_text config.server_start_timeout_secs) " seconds")

    after_waiting : Bool → Option Bool × W → Option (EnsureStartedResponse × W)
    unfolding after_identity check_model_identity answer port_for not_ready_text
    after_waiting triggered (none, w) = none
    after_waiting triggered (some false, w) = some (
        answer HelperStatus.error not_ready_text triggered false false
          (fallback (unit_for config target) "unknown" "server_not_responding" "") w)
    after_waiting triggered (some true, w) =
        let (r, w') = check_model_identity (port_for config target) w in
        some (after_identity triggered r w')

    wait_then_verify : ℕ → Bool → W → Option (EnsureStartedResponse × W)
    unfolding after_waiting wait_for_server port_for
    wait_then_verify fuel triggered w =
        after_waiting triggered
          (wait_for_server fuel (port_for config target) config.server_start_timeout_secs w)

    after_start : ℕ → Result (Unit {0}) String × W → Option (EnsureStartedResponse × W)
    unfolding wait_then_verify
    after_start fuel (ok done, w) = wait_then_verify fuel true w
    after_start fuel (err e, w) = some (
      record {
        status = HelperStatus.error;
        message = String.◌++◌ "failed to start llama-server: " e;
        model_alias = model_alias;
        model_path = model_path;
        startup_triggered = false;
        server_ready = false;
        model_verified = false;
        llama_server = some (fallback (unit_for config target) "failed" "startup_error" e);
      },
      w,
    )

    -- `Helper::ensure_started`
    unfoldable pub ensure_started : ℕ → W → Option (EnsureStartedResponse × W)
    unfolding wait_then_verify after_start unit_for
    ensure_started fuel w =
        let (r, w') = machine.is_active (unit_for config target) w in
        if ok_or r false
        then wait_then_verify fuel false w'
        else after_start fuel (machine.start_unit (unit_for config target) w')
