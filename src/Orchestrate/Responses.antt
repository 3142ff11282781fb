-- ===== src/Orchestrate/Responses.antt =====
-- src/orchestrate.rs: what the orchestrator calls, and the requests and responses that it makes.
use llm_wake_proxy.Config.Types.{AppConfig}
use Prim.Native.String.{String}
use llm_wake_proxy.Base.{ℕ, Bool, true, false, Option, none, some, List, codes}
use llm_wake_proxy.Http.{Response, openai_error, too_many_requests, service_unavailable}
use llm_wake_proxy.Lifecycle.Types.{CapabilityState, LifecycleRequest}
use llm_wake_proxy.Scheduler.{WarmExecutionError, message}
use llm_wake_proxy.Forward.{Sent}
use llm_wake_proxy.State.{tunnel_port_for}

-- A request to the upstream server.
pub record Upstream : Type 0 where
  pub port : ℕ
  pub path : String
  pub body : List ℕ
  pub stream : Bool

-- What `execute` calls: the scheduler, which admits a request or refuses it, and reqwest.
pub record Outside (W : Type 0) : Type 0 where
  pub admit : LifecycleRequest → W → Option WarmExecutionError × W
  pub release : W → W
  pub send : Upstream → W → Sent × W

unfoldable pub path_for : LifecycleRequest → String
path_for LifecycleRequest.chat = "/v1/chat/completions"
path_for LifecycleRequest.embeddings = "/v1/embeddings"

unfoldable pub upstream_request : LifecycleRequest → List ℕ → Bool → AppConfig → Upstream
unfolding tunnel_port_for path_for
upstream_request kind body stream config = record {
  port = tunnel_port_for kind config;
  path = path_for kind;
  body = body;
  stream = stream;
}

unfoldable pub warm_execution_error_response : WarmExecutionError → Response
unfolding message openai_error
warm_execution_error_response error =
    openai_error too_many_requests "overloaded" (codes (message error)) none

unfoldable pub warming_up : String → String → Response
unfolding openai_error
warming_up text retry_after =
    openai_error service_unavailable "warming_up" (codes text) (some retry_after)

unfoldable pub backend_error : String → Response
unfolding openai_error
backend_error text = openai_error service_unavailable "backend_error" (codes text) none

-- `kind == Embeddings && status.embeddings == Degraded`
unfoldable pub is_degraded_embeddings : LifecycleRequest → CapabilityState → Bool
is_degraded_embeddings LifecycleRequest.embeddings CapabilityState.degraded = true
is_degraded_embeddings LifecycleRequest.embeddings CapabilityState.ready = false
is_degraded_embeddings LifecycleRequest.chat capability = false
