-- ===== src/Production/Proxy.antt =====
-- src/main.rs and src/state.rs, AppState::production: the whole proxy, from the environment to the services
-- on the host. The managers are those of src/lifecycle.rs over the production services; what the tasks
-- of a manager and the rest of the world do during a call is a parameter.
pub mod Asleep
pub mod Awake
use Prim.Native.String.{String}
use llm_wake_proxy.Base.{ℕ, ◌≡◌, refl, Option, none, some, List, Result, ok}
use llm_wake_proxy.Config.{Env, from_env}
use llm_wake_proxy.Config.Types.{AppConfig, EmbeddingsBackendConfig}
use llm_wake_proxy.Lifecycle.Types.{LifecycleRequest, LifecycleTiming, Services, default_status}
use llm_wake_proxy.Lifecycle.Tasks.{Action}
use llm_wake_proxy.Lifecycle.Tasks.Manager.{Manager, new_with_timing, lifecycle_manager}
use llm_wake_proxy.State.{LifecycleOrchestrator, AppState, production}
use llm_wake_proxy.Host
use llm_wake_proxy.Host.{HelperJson}
use llm_wake_proxy.Production.{Clock, Held, chat_services, embeddings_services, start, started}

-- The world of the proxy: the processes that the tunnels of its managers hold, and everything outside.
pub record Shared (W : Type 0) : Type 0 where
  pub chat_child : Option ℕ
  pub embeddings_child : Option ℕ
  pub outer : W

-- The part of a world that services work on.
pub record Part (S W : Type 0) : Type 0 where
  pub view : S → W
  pub put : W → S → S

abbrev moved : {A S W : Type 0} → Part S W → S → A × W → A × S
moved part s (a, w) = (a, part.put w s)

unfoldable pub within : {S W : Type 0} → Part S W → Services W → Services S
within part sv = record {
  request_wake = λ request s. moved part s (sv.request_wake request (part.view s));
  is_ready = λ s. moved part s (sv.is_ready (part.view s));
  observe_backend = λ request s. moved part s (sv.observe_backend request (part.view s));
  ensure_tunnel = λ s. moved part s (sv.ensure_tunnel (part.view s));
  now = λ s. sv.now (part.view s);
  instant = λ s. sv.instant (part.view s);
  sleep = λ n s. part.put (sv.sleep n (part.view s)) s;
}

abbrev pub chat_part : {W : Type 0} → Part (Shared W) (Held W)
chat_part = record {
  view = λ s. record { child = s.chat_child; outer = s.outer };
  put = λ h s. record s { chat_child = h.child; outer = h.outer };
}

abbrev pub embeddings_part : {W : Type 0} → Part (Shared W) (Held W)
embeddings_part = record {
  view = λ s. record { child = s.embeddings_child; outer = s.outer };
  put = λ h s. record s { embeddings_child = h.child; outer = h.outer };
}

-- What the proxy starts with.
abbrev pub untouched : {W : Type 0} → W → Shared W
untouched w = record { chat_child = none; embeddings_child = none; outer = w }

module _ {W : Type 0} (system : Host.System W) (json : HelperJson) (clock : Clock W) where
  own_embeddings : AppConfig → Option EmbeddingsBackendConfig → Services (Shared W)
  own_embeddings config none = within chat_part (chat_services system json clock config)
  own_embeddings config (some backend) =
      within embeddings_part (embeddings_services system json clock config backend)

  -- The services of the manager that a request goes to.
  unfoldable pub services_for : AppConfig → LifecycleRequest → Services (Shared W)
  unfolding own_embeddings
  services_for config LifecycleRequest.chat =
      within chat_part (chat_services system json clock config)
  services_for config LifecycleRequest.embeddings = own_embeddings config config.embeddings.backend

  unfoldable pub proxy_lifecycles :
      (LifecycleRequest → Manager → Shared W → List (Action (Shared W)))
      → LifecycleTiming
      → AppConfig
      → LifecycleOrchestrator Manager (Shared W)
  proxy_lifecycles others timing config =
      let chat = lifecycle_manager (services_for config LifecycleRequest.chat) timing others in
      record {
        ensure_backend = λ kind.
            (lifecycle_manager (services_for config kind) timing others).ensure_backend kind;
        status = chat.status;
        degrade_embeddings = chat.degrade_embeddings;
        mark_warming = chat.mark_warming;
      }

-- `main`, up to the server.
unfoldable pub start_proxy : {W : Type 0} → Env → W → Result (AppState Manager (Shared W)) String
start_proxy env w =
    start env (new_with_timing default_status) (new_with_timing default_status) (untouched w)

-- What the proxy starts as.
abbrev pub fresh_proxy : {W : Type 0} → AppConfig → W → AppState Manager (Shared W)
fresh_proxy config w =
    production config (new_with_timing default_status) (new_with_timing default_status)
      (untouched w)

pub start_proxy-eq-ok :
    {W : Type 0} (env : Env) (config : AppConfig) (w : W)
    → from_env env ≡ ok config
    → start_proxy env w ≡ ok (fresh_proxy config w)
unfolding start_proxy start started
start_proxy-eq-ok env config w e = rw e refl
