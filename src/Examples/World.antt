-- ===== src/Examples/World.antt =====
-- Test data: a world that is a clock in milliseconds, and services over it.

use llm_wake_proxy.Base.{ℕ, ◌+◌, ◌/◌, true, false, none, some, [], ◌∷◌, ok, err, leb, codes}
use llm_wake_proxy.Config.Types.{
  ModelConfig, EmbeddingsBackendConfig, WarmExecutionConfig, AppConfig,
}
use llm_wake_proxy.Lifecycle.Types.{
  LifecycleState, CapabilityState, TunnelState, UnitState, LifecycleError, BackendStatus,
  default_status, ObservedBackendState, LifecycleDecision, LifecycleTiming, Services, Core,
  default_bootstrap,
}
use llm_wake_proxy.Forward.{replied}
use llm_wake_proxy.Metrics.{default_metrics}
use llm_wake_proxy.State.{LifecycleOrchestrator, AppState}
use llm_wake_proxy.Orchestrate.{Outside}

abbrev pub sample_timing : LifecycleTiming
sample_timing = record {
  cold_wait_budget_secs = 1;
  hard_boot_deadline_secs = 2;
  bootstrap_poll_interval_millis = 500;
  retry_after_secs = 5;
}

abbrev pub ready_backend : ObservedBackendState
ready_backend = record {
  lifecycle = LifecycleState.ready;
  chat = CapabilityState.ready;
  embeddings = CapabilityState.ready;
  embeddings_reason = none;
  error = none;
  llama_server_unit = UnitState.active;
  inhibit_unit = UnitState.active;
}

-- A host that answers one second after the start, with a backend that is ready.
abbrev pub sample_services : Services ℕ
sample_services = record {
  request_wake = λ r w. (ok tt, w);
  is_ready = λ w. (ok (leb 1000 w), w);
  observe_backend = λ r w. (ok ready_backend, w);
  ensure_tunnel = λ w. (ok TunnelState.ready, w);
  now = λ w. w / 1000;
  instant = λ w. w;
  sleep = λ n w. w + n;
}

abbrev pub host_down : LifecycleError
host_down = record { message = "no route" }

-- A host that never answers and cannot be woken.
abbrev pub dead_services : Services ℕ
dead_services = record {
  request_wake = λ r w. (err host_down, w);
  is_ready = λ w. (ok false, w);
  observe_backend = λ r w. (err host_down, w);
  ensure_tunnel = λ w. (err host_down, w);
  now = λ w. w / 1000;
  instant = λ w. w;
  sleep = λ n w. w + n;
}

abbrev pub cold_core : Core ℕ
cold_core = record { bootstrap = default_bootstrap; status = default_status; world = 0 }

abbrev pub woken_status : BackendStatus
woken_status = record default_status {
  lifecycle = LifecycleState.warming;
  last_wake_attempt_at = some 0;
}

abbrev pub sample_model : ModelConfig
sample_model = record { alias = "chat-model"; provider_id = "home"; owned_by = "me" }

abbrev pub sample_backend : EmbeddingsBackendConfig
sample_backend = record {
  alias = "embed-model";
  provider_id = "home";
  owned_by = "me";
  model_path = "/m/e.gguf";
  tunnel_local_port = 9001;
  remote_port = 8081;
}

abbrev pub small_execution : WarmExecutionConfig
small_execution = record {
  max_active_requests = 1;
  max_queued_requests = 1;
  queue_timeout_secs = 30;
}

abbrev pub sample_config : AppConfig
sample_config = record {
  listen_port = 8787;
  model = sample_model;
  embeddings = record { enabled = true; backend = some sample_backend };
  warm_execution = small_execution;
  host = record {
    host = "host";
    ssh_user = "user";
    ssh_port = 22;
    wol_mac = 1 ∷ 2 ∷ 3 ∷ 4 ∷ 5 ∷ 6 ∷ [];
    wol_broadcast = "255.255.255.255";
    wol_port = 9;
    helper_path = "helper";
    model_path = "/m/c.gguf";
    ssh_key_path = "/key";
    tunnel_local_port = 9000;
    remote_port = 8080;
  };
  cold_start_max_waiting = 2;
}

abbrev pub ready_status : BackendStatus
ready_status = record default_status {
  lifecycle = LifecycleState.ready;
  tunnel = TunnelState.ready;
}

-- An orchestrator that is its status, and is ready as soon as it is asked.
abbrev pub sample_orchestrator : LifecycleOrchestrator BackendStatus ℕ
sample_orchestrator = record {
  ensure_backend = λ kind l w. (LifecycleDecision.ready ready_status, ready_status, w);
  status = λ l. l;
  degrade_embeddings = λ reason l. record l {
    embeddings = CapabilityState.degraded;
    embeddings_reason = some reason;
  };
  mark_warming = λ l. record l { lifecycle = LifecycleState.warming };
}

-- A server that admits everything and knows no embeddings.
abbrev pub sample_outside : Outside ℕ
sample_outside = record {
  admit = λ kind w. (none, w);
  release = λ w. w;
  send = λ request w. (replied 404 (some (codes "not found")) [], w);
}

abbrev pub sample_state : AppState BackendStatus ℕ
sample_state = record {
  config = sample_config;
  chat_lifecycle = default_status;
  embeddings_lifecycle = some default_status;
  metrics = default_metrics;
  prev_chat_tunnel_was_ready = false;
  prev_embeddings_tunnel_was_ready = true;
  cold_permits = 2;
  world = 0;
}
