-- ===== src/Lifecycle/Types.antt =====
-- src/lifecycle.rs: the states, the decisions and the services that the manager is generic over.
use Prim.Native.String.{String}
use llm_wake_proxy.Base.{ℕ, ◌+◌, ◌-◌, ◌^◌, Bool, true, false, ◌&&◌, Option, none, Result, min}

pub data LifecycleState : Type 0 where
  cold warming ready error : LifecycleState

pub data CapabilityState : Type 0 where
  ready degraded : CapabilityState

pub data TunnelState : Type 0 where
  down connecting ready : TunnelState

pub data UnitState : Type 0 where
  unknown inactive activating active failed : UnitState

pub data LifecycleRequest : Type 0 where
  chat embeddings : LifecycleRequest

pub record LifecycleError : Type 0 where
  pub message : String

-- Timestamps are unix seconds (u64).
pub record BackendStatus : Type 0 where
  pub lifecycle : LifecycleState
  pub chat : CapabilityState
  pub embeddings : CapabilityState
  pub embeddings_reason : Option String
  pub tunnel : TunnelState
  pub last_wake_attempt_at : Option ℕ
  pub lease_expires_at : Option ℕ
  pub llama_server_unit : UnitState
  pub inhibit_unit : UnitState

-- `BackendStatus::default`.
abbrev pub default_status : BackendStatus
default_status = record {
  lifecycle = LifecycleState.cold;
  chat = CapabilityState.ready;
  embeddings = CapabilityState.ready;
  embeddings_reason = none;
  tunnel = TunnelState.down;
  last_wake_attempt_at = none;
  lease_expires_at = none;
  llama_server_unit = UnitState.unknown;
  inhibit_unit = UnitState.unknown;
}

pub record ObservedBackendState : Type 0 where
  pub lifecycle : LifecycleState
  pub chat : CapabilityState
  pub embeddings : CapabilityState
  pub embeddings_reason : Option String
  pub error : Option String
  pub llama_server_unit : UnitState
  pub inhibit_unit : UnitState

pub data LifecycleDecision : Type 0 where
  ready : BackendStatus → LifecycleDecision
  warming : (status : BackendStatus) (retry_after_secs : ℕ) → LifecycleDecision
  failed : (status : BackendStatus) (error : LifecycleError) → LifecycleDecision

pub record LifecycleTiming : Type 0 where
  pub cold_wait_budget_secs : ℕ
  pub hard_boot_deadline_secs : ℕ
  pub bootstrap_poll_interval_millis : ℕ
  pub retry_after_secs : ℕ

-- The traits WakeRequester, SshReadinessProbe, HelperRpc, TunnelOwner and Clock, with the runtime's
-- `Instant::now` (milliseconds) and `sleep`. A call may change the world that it runs in.
pub record Services (W : Type 0) : Type 0 where
  pub request_wake : LifecycleRequest → W → Result (Unit {0}) LifecycleError × W
  pub is_ready : W → Result Bool LifecycleError × W
  pub observe_backend : LifecycleRequest → W → Result ObservedBackendState LifecycleError × W
  pub ensure_tunnel : W → Result TunnelState LifecycleError × W
  pub now : W → ℕ
  pub instant : W → ℕ
  pub sleep : ℕ → W → W

pub record BootstrapState : Type 0 where
  pub active : Bool
  pub last_error : Option LifecycleError
  pub observe_request : LifecycleRequest

-- `BootstrapState::default`.
abbrev pub default_bootstrap : BootstrapState
default_bootstrap = record {
  active = false;
  last_error = none;
  observe_request = LifecycleRequest.chat;
}

-- The shared part of LifecycleCore: the mutex, the watch channel's value and the outside world.
pub record Core (W : Type 0) : Type 0 where
  pub bootstrap : BootstrapState
  pub status : BackendStatus
  pub world : W

abbrev pub is_warming : LifecycleState → Bool
is_warming LifecycleState.warming = true
is_warming _ = false

abbrev pub is_ready_state : LifecycleState → Bool
is_ready_state LifecycleState.ready = true
is_ready_state _ = false

abbrev pub is_error : LifecycleState → Bool
is_error LifecycleState.error = true
is_error _ = false

abbrev pub is_tunnel_ready : TunnelState → Bool
is_tunnel_ready TunnelState.ready = true
is_tunnel_ready _ = false

unfoldable pub should_request_wake : LifecycleState → Bool
should_request_wake LifecycleState.cold = true
should_request_wake LifecycleState.ready = true
should_request_wake LifecycleState.error = true
should_request_wake LifecycleState.warming = false

unfoldable pub backend_is_ready : BackendStatus → Bool
backend_is_ready status = is_ready_state status.lifecycle && is_tunnel_ready status.tunnel

unfoldable pub request_priority : LifecycleRequest → ℕ
request_priority LifecycleRequest.chat = 0
request_priority LifecycleRequest.embeddings = 1

abbrev pub u64_max : ℕ
u64_max = 2 ^ 64 - 1

-- `u64::saturating_add`; `saturating_sub` is `-`, which stops at 0.
unfoldable pub saturating_add : ℕ → ℕ → ℕ
saturating_add a b = min (a + b) u64_max
