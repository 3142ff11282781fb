-- ===== src/State.antt =====
-- src/state.rs: AppState, over any lifecycle orchestrator. In the shared configuration both kinds of
-- request go through one orchestrator: `embeddings_lifecycle` is `none` where the source holds a
-- second reference to the chat one.
use Prim.Native.String.{String}
use llm_wake_proxy.Base.{
  ℕ, Bool, true, false, not, ◌&&◌, Option, none, some, if◌then◌else◌, is_some,
}
use llm_wake_proxy.Config.Types.{AppConfig, EmbeddingsBackendConfig}
use llm_wake_proxy.Metrics.{Metrics, default_metrics}
use llm_wake_proxy.Lifecycle.Types.{
  LifecycleState, TunnelState, LifecycleRequest, BackendStatus, LifecycleDecision, is_tunnel_ready,
}

-- The trait LifecycleOrchestrator, over the state `L` of an orchestrator and the world `W`.
pub record LifecycleOrchestrator (L W : Type 0) : Type 0 where
  pub ensure_backend : LifecycleRequest → L → W → LifecycleDecision × L × W
  pub status : L → BackendStatus
  pub degrade_embeddings : String → L → L
  pub mark_warming : L → L

pub record AppState (L W : Type 0) : Type 0 where
  pub config : AppConfig
  pub chat_lifecycle : L
  pub embeddings_lifecycle : Option L
  pub metrics : Metrics
  pub prev_chat_tunnel_was_ready : Bool
  pub prev_embeddings_tunnel_was_ready : Bool
  -- the free permits of `cold_start_semaphore`
  pub cold_permits : ℕ
  -- the scheduler and everything outside the process
  pub world : W

abbrev pub is_cold_state : LifecycleState → Bool
is_cold_state LifecycleState.cold = true
is_cold_state _ = false

abbrev pub embeddings_or : {A : Type 0} → Option A → A → A
embeddings_or none a = a
embeddings_or (some b) a = b

-- `production`, once the orchestrators are made: the embeddings have one of their own exactly in
-- dual-backend mode.
unfoldable pub production : {L W : Type 0} → AppConfig → L → L → W → AppState L W
production config chat embeddings w = record {
  config = config;
  chat_lifecycle = chat;
  embeddings_lifecycle = if is_some config.embeddings.backend then some embeddings else none;
  metrics = default_metrics;
  prev_chat_tunnel_was_ready = false;
  prev_embeddings_tunnel_was_ready = false;
  cold_permits = config.cold_start_max_waiting;
  world = w;
}

-- `AppState::new`: one orchestrator for both kinds of request.
unfoldable pub new : {L W : Type 0} → AppConfig → L → W → AppState L W
new config lifecycle w = record {
  config = config;
  chat_lifecycle = lifecycle;
  embeddings_lifecycle = none;
  metrics = default_metrics;
  prev_chat_tunnel_was_ready = false;
  prev_embeddings_tunnel_was_ready = false;
  cold_permits = config.cold_start_max_waiting;
  world = w;
}

alias_of : Option EmbeddingsBackendConfig → String → String
alias_of none alias = alias
alias_of (some backend) alias = backend.alias

port_of : Option EmbeddingsBackendConfig → ℕ → ℕ
port_of none port = port
port_of (some backend) port = backend.tunnel_local_port

unfoldable pub model_alias_for : LifecycleRequest → AppConfig → String
unfolding alias_of
model_alias_for LifecycleRequest.chat config = config.model.alias
model_alias_for LifecycleRequest.embeddings config =
    alias_of config.embeddings.backend config.model.alias

unfoldable pub tunnel_port_for : LifecycleRequest → AppConfig → ℕ
unfolding port_of
tunnel_port_for LifecycleRequest.chat config = config.host.tunnel_local_port
tunnel_port_for LifecycleRequest.embeddings config =
    port_of config.embeddings.backend config.host.tunnel_local_port

module _ {L W : Type 0} where
  unfoldable pub lifecycle_for : LifecycleRequest → AppState L W → L
  lifecycle_for LifecycleRequest.chat s = s.chat_lifecycle
  lifecycle_for LifecycleRequest.embeddings s =
      embeddings_or s.embeddings_lifecycle s.chat_lifecycle

  unfoldable pub put_embeddings : Option L → L → AppState L W → AppState L W
  put_embeddings none l s = record s { chat_lifecycle = l }
  put_embeddings (some _) l s = record s { embeddings_lifecycle = some l }

  -- The orchestrator that `lifecycle_for` gives has changed.
  unfoldable pub put_lifecycle : LifecycleRequest → L → AppState L W → AppState L W
  unfolding put_embeddings
  put_lifecycle LifecycleRequest.chat l s = record s { chat_lifecycle = l }
  put_lifecycle LifecycleRequest.embeddings l s = put_embeddings s.embeddings_lifecycle l s

  -- The flag is swapped for whether the tunnel is ready now; true if it was and is not.
  unfoldable pub check_tunnel_drop :
      LifecycleRequest → TunnelState → AppState L W → Bool × AppState L W
  check_tunnel_drop LifecycleRequest.chat current_tunnel s = (
    s.prev_chat_tunnel_was_ready && not (is_tunnel_ready current_tunnel),
    record s { prev_chat_tunnel_was_ready = is_tunnel_ready current_tunnel },
  )
  check_tunnel_drop LifecycleRequest.embeddings current_tunnel s = (
    s.prev_embeddings_tunnel_was_ready && not (is_tunnel_ready current_tunnel),
    record s { prev_embeddings_tunnel_was_ready = is_tunnel_ready current_tunnel },
  )

module _ {L W : Type 0} (orchestrator : LifecycleOrchestrator L W) where
  unfoldable pub is_cold : LifecycleRequest → AppState L W → Bool
  unfolding lifecycle_for
  is_cold kind s = is_cold_state (orchestrator.status (lifecycle_for kind s)).lifecycle
