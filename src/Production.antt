-- ===== src/Production.antt =====
-- src/state.rs, AppState::production and AppState::new: the services that a lifecycle manager is built
-- over, put together from src/host.rs or from services that do nothing, and the timing that
-- LifecycleTiming::default reads from the environment.
pub mod Seeing
pub mod Earned
pub mod Proxy
pub mod Remote
use Prim.Native.String.{String}
use llm_wake_proxy.Base.{
  ℕ, false, Option, none, some, Result, ok, err, unwrap_or, and_then, codes, from_str_radix,
}
use llm_wake_proxy.Config.{Env, u64_max, from_env}
use llm_wake_proxy.State.{AppState, production}
use llm_wake_proxy.Config.Types.{AppConfig, EmbeddingsBackendConfig}
use llm_wake_proxy.Helper.Types.{Target}
use llm_wake_proxy.Lifecycle.Types.{
  LifecycleState, CapabilityState, TunnelState, UnitState, ObservedBackendState, LifecycleTiming,
  Services,
}
use llm_wake_proxy.Host.{
  System, HelperJson, WolWakeRequester, SshTcpProbe, SshHelperRpc, request_wake, is_ready,
  observe_backend,
}
use llm_wake_proxy.Host.Tunnel.{SshTunnelManager, ensure_tunnel}

-- `read_env_or`
unfoldable pub read_env_or : Env → String → ℕ → ℕ
read_env_or env name default =
    unwrap_or (and_then (env name) λ text. from_str_radix 10 u64_max (codes text)) default

-- `LifecycleTiming::default`
unfoldable pub timing_from_env : Env → LifecycleTiming
unfolding read_env_or
timing_from_env env = record {
  cold_wait_budget_secs = read_env_or env "COLD_WAIT_BUDGET_SECS" 90;
  hard_boot_deadline_secs = read_env_or env "HARD_BOOT_DEADLINE_SECS" 300;
  bootstrap_poll_interval_millis = read_env_or env "BOOTSTRAP_POLL_INTERVAL_MS" 1000;
  retry_after_secs = read_env_or env "RETRY_AFTER_SECS" 10;
}

-- SystemClock and the runtime's clock.
pub record Clock (W : Type 0) : Type 0 where
  pub now : W → ℕ
  pub instant : W → ℕ

-- The world of one manager: the process that its tunnel holds, and everything outside.
pub record Held (W : Type 0) : Type 0 where
  pub child : Option ℕ
  pub outer : W

unfoldable pub wake_requester : AppConfig → WolWakeRequester
wake_requester config = record {
  mac = config.host.wol_mac;
  broadcast = config.host.wol_broadcast;
  port = config.host.wol_port;
}

unfoldable pub ssh_probe : AppConfig → SshTcpProbe
ssh_probe config = record { host = config.host.host; port = config.host.ssh_port }

unfoldable pub chat_helper : AppConfig → SshHelperRpc
chat_helper config = record {
  ssh_user = config.host.ssh_user;
  ssh_host = config.host.host;
  helper_path = config.host.helper_path;
  model_path = config.host.model_path;
  model_alias = config.model.alias;
  ssh_key_path = config.host.ssh_key_path;
  target = Target.chat;
}

unfoldable pub chat_tunnel : AppConfig → SshTunnelManager
chat_tunnel config = record {
  ssh_user = config.host.ssh_user;
  ssh_host = config.host.host;
  local_port = config.host.tunnel_local_port;
  remote_port = config.host.remote_port;
  ssh_key_path = config.host.ssh_key_path;
}

-- In dual-backend mode.
unfoldable pub embeddings_helper : AppConfig → EmbeddingsBackendConfig → SshHelperRpc
embeddings_helper config backend = record {
  ssh_user = config.host.ssh_user;
  ssh_host = config.host.host;
  helper_path = config.host.helper_path;
  model_path = backend.model_path;
  model_alias = backend.alias;
  ssh_key_path = config.host.ssh_key_path;
  target = Target.embeddings;
}

unfoldable pub embeddings_tunnel : AppConfig → EmbeddingsBackendConfig → SshTunnelManager
embeddings_tunnel config backend = record {
  ssh_user = config.host.ssh_user;
  ssh_host = config.host.host;
  local_port = backend.tunnel_local_port;
  remote_port = backend.remote_port;
  ssh_key_path = config.host.ssh_key_path;
}

abbrev pub kept : {A W : Type 0} → Option ℕ → A × W → A × Held W
kept child (a, w) = (a, record { child = child; outer = w })

abbrev pub handed : {A W : Type 0} → A × Option ℕ × W → A × Held W
handed (a, child, w) = (a, record { child = child; outer = w })

module _ {W : Type 0} (system : System W) (json : HelperJson) (clock : Clock W) where
  -- `LifecycleManager::new` at the services of one backend.
  unfoldable pub production_services :
      AppConfig → SshHelperRpc → SshTunnelManager → Services (Held W)
  unfolding wake_requester ssh_probe
  production_services config rpc tunnel = record {
    request_wake =
        λ request h. kept h.child (request_wake system (wake_requester config) request h.outer);
    is_ready = λ h. kept h.child (is_ready system (ssh_probe config) h.outer);
    observe_backend = λ request h. kept h.child (observe_backend system json rpc request h.outer);
    ensure_tunnel = λ h. handed (ensure_tunnel system tunnel h.child h.outer);
    now = λ h. clock.now h.outer;
    instant = λ h. clock.instant h.outer;
    sleep = λ n h. record h { outer = system.sleep n h.outer };
  }

  unfoldable pub chat_services : AppConfig → Services (Held W)
  unfolding production_services chat_helper chat_tunnel
  chat_services config = production_services config (chat_helper config) (chat_tunnel config)

  unfoldable pub embeddings_services : AppConfig → EmbeddingsBackendConfig → Services (Held W)
  unfolding production_services embeddings_helper embeddings_tunnel
  embeddings_services config backend =
      production_services config (embeddings_helper config backend)
        (embeddings_tunnel config backend)

started : {L W : Type 0} → Result AppConfig String → L → L → W → Result (AppState L W) String
started (err e) chat embeddings w = err e
started (ok config) chat embeddings w = ok (production config chat embeddings w)

-- `main`, up to the router: what it does after that is the server's.
unfoldable pub start : {L W : Type 0} → Env → L → L → W → Result (AppState L W) String
unfolding started
start env chat embeddings w = started (from_env env) chat embeddings w

-- What NoopHelperRpc says.
abbrev pub noop_state : ObservedBackendState
noop_state = record {
  lifecycle = LifecycleState.warming;
  chat = CapabilityState.ready;
  embeddings = CapabilityState.ready;
  embeddings_reason = none;
  error = none;
  llama_server_unit = UnitState.unknown;
  inhibit_unit = UnitState.unknown;
}

-- The services of `AppState::new`, over the runtime's `sleep`.
unfoldable pub noop_services : {W : Type 0} → Clock W → (ℕ → W → W) → Services W
noop_services clock sleep = record {
  request_wake = λ request w. (ok tt, w);
  is_ready = λ w. (ok false, w);
  observe_backend = λ request w. (ok noop_state, w);
  ensure_tunnel = λ w. (ok TunnelState.down, w);
  now = clock.now;
  instant = clock.instant;
  sleep = sleep;
}
