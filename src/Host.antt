-- ===== src/Host.antt =====
-- src/host.rs: the services that the proxy uses in production: Wake-on-LAN, the probe of the SSH port,
-- the helper over ssh, and the tunnel. The processes and sockets are the operating system's, parameters
-- here, and so is the parser of the helper's answers.
pub mod Answers
pub mod Packet
pub mod Observing
pub mod Tunnel
use Prim.Native.String
use Prim.Native.String.{String}
use text.Mathlib.Text.{◌==◌ as str_eq}
use llm_wake_proxy.Base.{
  ℕ, zero, suc, ◌+◌, Bool, true, false, ◌||◌, Option, none, some, List, [], ◌∷◌, ◌++◌, Result, ok,
  err, if◌then◌else◌,
}
use llm_wake_proxy.Http.{to_text}
use llm_wake_proxy.Lifecycle.Types.{
  LifecycleState, CapabilityState, TunnelState, UnitState, LifecycleRequest, LifecycleError,
  ObservedBackendState, is_ready_state,
}
use Answers.{observed_of_ensure, observed_of_status}
use llm_wake_proxy.Helper.Types.{
  HelperStatus, Target, UnitInfo, StatusResponse, EnsureStartedResponse, target_text, ProcessOutput,
}

repeated : ℕ → List ℕ → List ℕ
repeated zero bytes = []
repeated (suc n) bytes = bytes ++ repeated n bytes

-- The bytes that `request_wake` sends.
unfoldable pub wol_packet : List ℕ → List ℕ
unfolding repeated
wol_packet mac = (0xff ∷ 0xff ∷ 0xff ∷ 0xff ∷ 0xff ∷ 0xff ∷ []) ++ repeated 16 mac

-- What the services ask the operating system for. A failure is the text of its error.
pub record System (W : Type 0) : Type 0 where
  pub udp_bind : W → Result (Unit {0}) String × W
  pub set_broadcast : W → Result (Unit {0}) String × W
  pub send_to : List ℕ → String → W → Result (Unit {0}) String × W
  -- connected within 10 seconds
  pub tcp_connect : String → W → Bool × W
  pub run : String → List String → W → Result ProcessOutput String × W
  -- A child is a number. `try_wait` gives the exit status of a child that has ended.
  pub spawn : String → List String → W → Result ℕ String × W
  pub try_wait : ℕ → W → Result (Option String) String × W
  pub sleep : ℕ → W → W

-- `serde_json::from_str` at the helper's two answers.
pub record HelperJson : Type 0 where
  pub ensure_started_response : String → Result EnsureStartedResponse String
  pub status_response : String → Result StatusResponse String

pub record WolWakeRequester : Type 0 where
  pub mac : List ℕ
  pub broadcast : String
  pub port : ℕ

pub record SshTcpProbe : Type 0 where
  pub host : String
  pub port : ℕ

pub record SshHelperRpc : Type 0 where
  pub ssh_user : String
  pub ssh_host : String
  pub helper_path : String
  pub model_path : String
  pub model_alias : String
  pub ssh_key_path : String
  pub target : Target

abbrev pub prefixed {ℓ} : {A : Type ℓ} → String → Result A String → Result A LifecycleError
prefixed text (ok a) = ok a
prefixed text (err e) = err (record { message = String.◌++◌ text e })

abbrev pub ssh_options : List String
ssh_options =
    "-o" ∷ "ConnectTimeout=10" ∷ "-o" ∷ "BatchMode=yes" ∷ "-o" ∷ "StrictHostKeyChecking=accept-new"
    ∷ []

abbrev pub at_host : String → String → String
at_host user host = String.◌++◌ user (String.◌++◌ "@" host)

abbrev pub address : String → ℕ → String
address host port = String.◌++◌ host (String.◌++◌ ":" (to_text port))

-- The arguments of `ssh` in `run_helper_cmd`.
unfoldable pub ssh_args : SshHelperRpc → List String → List String
ssh_args rpc args =
    ssh_options ++ ("-i" ∷ rpc.ssh_key_path ∷ at_host rpc.ssh_user rpc.ssh_host ∷ args)

module _ {W : Type 0} (system : System W) where
  after_broadcast :
      WolWakeRequester → Result (Unit {0}) String × W → Result (Unit {0}) LifecycleError × W
  unfolding wol_packet
  after_broadcast requester (err e, w) = (prefixed "WOL broadcast failed: " (err e), w)
  after_broadcast requester (ok set, w) =
      let (sent, w') =
        system.send_to (wol_packet requester.mac) (address requester.broadcast requester.port) w in
      (prefixed "WOL send failed: " sent, w')

  after_bind :
      WolWakeRequester → Result (Unit {0}) String × W → Result (Unit {0}) LifecycleError × W
  unfolding after_broadcast
  after_bind requester (err e, w) = (prefixed "WOL bind failed: " (err e), w)
  after_bind requester (ok bound, w) = after_broadcast requester (system.set_broadcast w)

  -- `WolWakeRequester::request_wake`
  unfoldable pub request_wake :
      WolWakeRequester → LifecycleRequest → W → Result (Unit {0}) LifecycleError × W
  unfolding after_bind
  request_wake requester request w = after_bind requester (system.udp_bind w)

  -- `SshTcpProbe::is_ready`
  unfoldable pub is_ready : SshTcpProbe → W → Result Bool LifecycleError × W
  is_ready probe w =
      let (connected, w') = system.tcp_connect (address probe.host probe.port) w in
      (ok connected, w')

  unfoldable pub text_of_output : Result ProcessOutput String → Result String LifecycleError
  text_of_output (err e) = prefixed "ssh failed: " (err e)
  text_of_output (ok output) =
      if output.success
      then prefixed "invalid UTF-8 from helper: " output.stdout
      else err (record { message = String.◌++◌ "helper command failed: " output.stderr })

  unfoldable pub run_helper_cmd : SshHelperRpc → List String → W → Result String LifecycleError × W
  unfolding text_of_output ssh_args
  run_helper_cmd rpc args w =
      let (output, w') = system.run "ssh" (ssh_args rpc args) w in (text_of_output output, w')

module _ {W : Type 0} (system : System W) (json : HelperJson) where
  unfoldable pub decoded_ensure :
      Result EnsureStartedResponse String → Result ObservedBackendState LifecycleError
  unfolding observed_of_ensure
  decoded_ensure (err e) = prefixed "failed to parse ensure-started response: " (err e)
  decoded_ensure (ok answer) = ok (observed_of_ensure answer)

  unfoldable pub parsed_ensure :
      Result String LifecycleError → Result ObservedBackendState LifecycleError
  unfolding decoded_ensure
  parsed_ensure (err e) = err e
  parsed_ensure (ok text) = decoded_ensure (json.ensure_started_response text)

  -- `SshHelperRpc::ensure_started`
  unfoldable pub rpc_ensure_started :
      SshHelperRpc → W → Result ObservedBackendState LifecycleError × W
  unfolding parsed_ensure run_helper_cmd target_text
  rpc_ensure_started rpc w =
      let args =
        "env"
        ∷ String.◌++◌ "EXPECTED_MODEL_PATH=" rpc.model_path
        ∷ rpc.helper_path
        ∷ "ensure-started"
        ∷ target_text rpc.target
        ∷ rpc.model_alias
        ∷ [] in
      let (text, w') = run_helper_cmd system rpc args w in (parsed_ensure text, w')

  parsed_status : Target → Result String LifecycleError → Result ObservedBackendState LifecycleError
  unfolding observed_of_status
  parsed_status target (err e) = err e
  parsed_status target (ok text) = elim (json.status_response text) [
    | err e ↦ prefixed "failed to parse status response: " (err e)
    | ok answer ↦ ok (observed_of_status target answer)
  ]

  unfoldable pub fetch_status : SshHelperRpc → W → Result ObservedBackendState LifecycleError × W
  unfolding parsed_status run_helper_cmd
  fetch_status rpc w =
      let (text, w') = run_helper_cmd system rpc (rpc.helper_path ∷ "status" ∷ []) w in
      (parsed_status rpc.target text, w')

  with_units :
      ObservedBackendState → Result ObservedBackendState LifecycleError → ObservedBackendState
  with_units state (err e) = state
  with_units state (ok status_state) = record state {
    llama_server_unit = status_state.llama_server_unit;
    inhibit_unit = status_state.inhibit_unit;
  }

  after_ensure_started :
      SshHelperRpc
      → Result ObservedBackendState LifecycleError × W
      → Result ObservedBackendState LifecycleError × W
  unfolding fetch_status with_units
  after_ensure_started rpc (err e, w) = (err e, w)
  after_ensure_started rpc (ok state, w) =
      if is_ready_state state.lifecycle
      then (let (fetched, w') = fetch_status rpc w in (ok (with_units state fetched), w'))
      else (ok state, w)

  -- `SshHelperRpc::observe_backend`
  unfoldable pub observe_backend :
      SshHelperRpc → LifecycleRequest → W → Result ObservedBackendState LifecycleError × W
  unfolding after_ensure_started rpc_ensure_started
  observe_backend rpc request w = after_ensure_started rpc (rpc_ensure_started rpc w)
