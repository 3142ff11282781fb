-- ===== src/Examples/Proxy.antt =====
-- The whole proxy at a concrete environment.
use llm_wake_proxy.Base.{
  inl, inr, contains, ℕ, ◌≡◌, refl, true, false, Bool, none, some, List, [], ◌∷◌, ok, codes,
}
use llm_wake_proxy.Config.Examples.{sample_env, read_config, read_env}
use llm_wake_proxy.Lifecycle.Types.{LifecycleRequest}
use llm_wake_proxy.Lifecycle.Tasks.{Action, runs, arrives}
use llm_wake_proxy.Lifecycle.Tasks.Manager.{Manager}
use llm_wake_proxy.Forward.{was_cancelled, replied, forward_non_streaming, rewrite_model_alias}
use llm_wake_proxy.Orchestrate.{Outside}
use llm_wake_proxy.Scheduler.{queue_full}
use llm_wake_proxy.State.{LifecycleOrchestrator, AppState, production}
use llm_wake_proxy.Http.{Response, plain}
use llm_wake_proxy.Orchestrate.Success.{IsServing}
use llm_wake_proxy.App.{chat_completions, has_json}
use llm_wake_proxy.App.Validation.{IsChatRequest}
use llm_wake_proxy.App.Router.{Method, HttpRequest, Answer, serve, serve_all}
use llm_wake_proxy.App.Router.Silent.{is_refused_work}
use llm_wake_proxy.Host.{System, is_ready, observe_backend}
use llm_wake_proxy.Host.Tunnel.{ensure_tunnel}
use llm_wake_proxy.Production.Proxy.Awake.{
  IsUp, held_by, quiet_lifecycles, start_proxy-chat_completions,
}
use llm_wake_proxy.App.Requests.{
  Bodies, ChatCompletionRequest, is_known_role, role_of, has_no_content,
}
use llm_wake_proxy.Production.Proxy.{
  Shared, start_proxy, proxy_lifecycles, fresh_proxy, start_proxy-eq-ok,
}
use llm_wake_proxy.Production.Proxy.Asleep.{serve-asleep}
use llm_wake_proxy.Examples.World.{sample_timing}
use llm_wake_proxy.Examples.Texts.{sample_json}
use llm_wake_proxy.Examples.Requests.{sample_bodies, sample_chat}
use llm_wake_proxy.Examples.Host.{sample_system, sample_helper_json}
use llm_wake_proxy.Examples.Whole.{sample_clock}

-- A host whose ssh port takes no connection.
abbrev down_system : System ℕ
down_system = record sample_system { tcp_connect = λ to w. (false, w) }

-- Another request arrives meanwhile, and the first one runs on.
abbrev busy : LifecycleRequest → Manager → Shared ℕ → List (Action (Shared ℕ))
busy request m w = arrives LifecycleRequest.chat ∷ runs 0 ∷ runs 0 ∷ runs 1 ∷ []

-- Two servers that would answer differently.
abbrev open_server : Outside (Shared ℕ)
open_server = record {
  admit = λ kind w. (none, w);
  release = λ w. w;
  send = λ request w. (replied 200 (some (codes "{}")) [], w);
}

abbrev full_server : Outside (Shared ℕ)
full_server = record {
  admit = λ kind w. (some queue_full, w);
  release = λ w. w;
  send = λ request w. (was_cancelled, w);
}

abbrev chat_request : HttpRequest
chat_request = record {
  method = Method.post;
  path = "/v1/chat/completions";
  content_type = some (codes "application/json");
  body = codes "{}";
}

abbrev asleep : LifecycleOrchestrator Manager (Shared ℕ)
asleep = proxy_lifecycles down_system sample_helper_json sample_clock busy sample_timing read_config

-- The second of two chat requests, at a server.
abbrev second_answer : Outside (Shared ℕ) → Answer × AppState Manager (Shared ℕ)
second_answer outside = serve asleep outside sample_json sample_bodies chat_request (
    serve_all asleep outside sample_json sample_bodies (chat_request ∷ [])
      (fresh_proxy read_config 0))

serve-asleep_example :
    (second_answer full_server ≡ second_answer open_server)
    × (is_refused_work (second_answer open_server).0 ≡ true)
unfolding is_ready production
serve-asleep_example =
    serve-asleep down_system sample_helper_json sample_clock sample_json sample_bodies busy
      sample_timing open_server full_server sample_env 0 (fresh_proxy read_config 0)
      (chat_request ∷ []) chat_request (start_proxy-eq-ok sample_env read_config 0 read_env)
      (λ w. refl)

-- A chat request for the configured model.
abbrev env_chat : ChatCompletionRequest Bool
env_chat = record sample_chat { model = "llm-wake-proxy" }

abbrev env_bodies : Bodies Bool
env_bodies = record sample_bodies { chat_from_slice = λ body. ok env_chat }

sample-IsUp : IsUp sample_system sample_helper_json sample_clock read_config 0 500
unfolding is_ready observe_backend ensure_tunnel
sample-IsUp = record {
  probed = 0;
  seen = 0;
  observed = _;
  child = some 7;
  probes = refl;
  observes = refl;
  says_ready = refl;
  tunnels = refl;
}

abbrev quiet : LifecycleOrchestrator Manager (Shared ℕ)
quiet =
    quiet_lifecycles sample_system sample_helper_json sample_clock sample_json env_bodies
      sample_timing open_server read_config

sample-IsChatRequest :
    IsChatRequest quiet open_server sample_json env_bodies
      (some (codes "application/json"))
      (codes "{}")
      (fresh_proxy read_config 0)
unfolding has_json contains is_known_role production role_of has_no_content
sample-IsChatRequest = (
  env_chat,
  refl,
  refl,
  record {
    messages = refl;
    roles = (refl, tt);
    contents = (record { called = inl refl; call_id = inr (refl, refl); content = inl refl }, tt);
    model = refl;
  },
)

abbrev empty_object : Response
empty_object = record {
  status = 200;
  content_type = "application/json";
  retry_after = none;
  body = plain (codes "{}");
}

sample-IsServing :
    IsServing quiet open_server sample_json LifecycleRequest.chat
      (codes "{}")
      false
      read_config
      (held_by sample_system sample_helper_json sample_clock (some 7) 500)
      empty_object
unfolding forward_non_streaming rewrite_model_alias contains
sample-IsServing = record {
  admitted = _;
  left = _;
  sent = _;
  admits = refl;
  sends = refl;
  passes = refl;
}

start_proxy-chat_completions_example :
    (start_proxy {W = ℕ} sample_env 0 ≡ ok (fresh_proxy read_config 0))
    × ((chat_completions quiet open_server sample_json env_bodies
          (some (codes "application/json"))
          (codes "{}")
          (fresh_proxy read_config 0)).0
        ≡ empty_object)
unfolding sample-IsUp sample-IsChatRequest
start_proxy-chat_completions_example =
    start_proxy-chat_completions sample_system sample_helper_json sample_clock sample_json
      env_bodies sample_timing open_server sample_env read_config 0 500 sample-IsUp
      (some (codes "application/json")) (codes "{}") empty_object sample-IsChatRequest read_env
      sample-IsServing
