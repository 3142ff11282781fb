-- ===== src/Examples/Requests.antt =====
-- The handlers and `execute` at concrete inputs.

use llm_wake_proxy.Base.{
  ℕ, ◌≡◌, ◌↔◌, ◌⊎◌, refl, Bool, true, false, Option, none, some, List, [], ◌∷◌, ok, codes, contains,
  inl, inr,
}
use llm_wake_proxy.Metrics.{inc_chat_requests, inc_embeddings_requests}
use llm_wake_proxy.Lifecycle.Types.{
  LifecycleRequest, CapabilityState, BackendStatus, LifecycleDecision,
}
use llm_wake_proxy.State.{LifecycleOrchestrator, model_alias_for}
use llm_wake_proxy.Orchestrate.{Outside, count, execute}
use llm_wake_proxy.Orchestrate.Accounting.{IsAccounted, execute-IsAccounted}
use llm_wake_proxy.Orchestrate.Routing.Kept.{OtherKept}
use llm_wake_proxy.Orchestrate.Routing.{execute-OtherKept}
use llm_wake_proxy.Orchestrate.Bypass.{execute-no_upstream}
use llm_wake_proxy.Scheduler.{queue_full}
use llm_wake_proxy.Forward.{was_cancelled}
use llm_wake_proxy.App.{chat_completions, embeddings, has_json}
use llm_wake_proxy.App.Router.{HttpRequest, Method, serve_all}
use llm_wake_proxy.App.Router.Served.{IsServed, asks_any, serve_all-IsServed}
use llm_wake_proxy.App.Requests.{
  ChatMessage, ChatCompletionRequest, EmbeddingsRequest, Bodies, content_error, role_of,
  has_no_content, is_known_role,
}
use llm_wake_proxy.App.Requests.Messages.{AllOf, IsWellFormed, content_error_iff}
use llm_wake_proxy.App.Validation.Checks.{IsAcceptable, IsAcceptableInput}
use llm_wake_proxy.App.Validation.{
  IsChatCarriedOut, IsEmbeddingsCarriedOut, IsChatRequest, IsEmbeddingsRequest, IsRefused,
  chat_completions-decides, embeddings-decides,
}
use llm_wake_proxy.Examples.World.{
  sample_config, sample_orchestrator, sample_outside, sample_state, ready_status,
}
use llm_wake_proxy.Examples.Texts.{sample_json}

execute-IsAccounted_example : IsAccounted sample_state (
    execute sample_orchestrator sample_outside sample_json LifecycleRequest.embeddings [] false
      sample_state)
execute-IsAccounted_example =
    execute-IsAccounted sample_orchestrator sample_outside sample_json LifecycleRequest.embeddings
      [] false sample_state

execute-OtherKept_example :
    OtherKept LifecycleRequest.embeddings sample_state
      (execute sample_orchestrator sample_outside sample_json LifecycleRequest.embeddings [] false
        sample_state).1
execute-OtherKept_example =
    execute-OtherKept sample_orchestrator sample_outside sample_json LifecycleRequest.embeddings []
      false sample_state refl

abbrev hello : ChatMessage Bool
hello = record { role = "user"; content = some true; tool_calls = none; tool_call_id = none }

abbrev pub sample_chat : ChatCompletionRequest Bool
sample_chat = record {
  model = "chat-model";
  stream = false;
  messages = hello ∷ [];
  tools = none;
  tool_choice = none;
}

abbrev sample_input : EmbeddingsRequest Bool
sample_input = record { model = "embed-model"; input = true }

-- Every body is the sample; a value is null if it is `false`.
abbrev pub sample_bodies : Bodies Bool
sample_bodies = record {
  chat_from_slice = λ body. ok sample_chat;
  embeddings_from_slice = λ body. ok sample_input;
  is_null = λ v. elim v [ true ↦ false | false ↦ true ];
}

abbrev json_type : Option (List ℕ)
json_type = some (codes "application/json")

is_json : has_json json_type ≡ true
unfolding has_json contains
is_json = refl

hello-IsWellFormed : IsWellFormed sample_bodies hello
unfolding role_of has_no_content
hello-IsWellFormed = record { called = inl refl; call_id = inr (refl, refl); content = inl refl }

sample_chat-IsAcceptable : IsAcceptable sample_bodies sample_config sample_chat
unfolding is_known_role
sample_chat-IsAcceptable = record {
  messages = refl;
  roles = (refl, tt);
  contents = (hello-IsWellFormed, tt);
  model = refl;
}

sample_input-IsAcceptableInput : IsAcceptableInput sample_bodies sample_config sample_input
unfolding model_alias_for
sample_input-IsAcceptableInput = record { input = refl; model = refl; enabled = refl }

chat_completions-decides_example :
    IsChatCarriedOut sample_orchestrator sample_outside sample_json sample_bodies json_type []
      sample_state
      (chat_completions sample_orchestrator sample_outside sample_json sample_bodies json_type []
        sample_state)
    ⊎ (IsRefused sample_orchestrator sample_outside sample_json sample_bodies sample_state
          (count inc_chat_requests sample_state)
          (chat_completions sample_orchestrator sample_outside sample_json sample_bodies json_type
            [] sample_state)
        × (¬ IsChatRequest sample_orchestrator sample_outside sample_json sample_bodies json_type []
            sample_state))
chat_completions-decides_example =
    chat_completions-decides sample_orchestrator sample_outside sample_json sample_bodies json_type
      [] sample_state

embeddings-decides_example :
    IsEmbeddingsCarriedOut sample_orchestrator sample_outside sample_json sample_bodies none []
      sample_state
      (embeddings sample_orchestrator sample_outside sample_json sample_bodies none [] sample_state)
    ⊎ (IsRefused sample_orchestrator sample_outside sample_json sample_bodies sample_state
          (count inc_embeddings_requests sample_state)
          (embeddings sample_orchestrator sample_outside sample_json sample_bodies none []
            sample_state)
        × (¬ IsEmbeddingsRequest sample_orchestrator sample_outside sample_json sample_bodies none
            [] sample_state))
embeddings-decides_example =
    embeddings-decides sample_orchestrator sample_outside sample_json sample_bodies none []
      sample_state

content_error_iff_example :
    (content_error sample_bodies (hello ∷ []) ≡ none)
    ↔ AllOf (IsWellFormed sample_bodies) (hello ∷ [])
content_error_iff_example = content_error_iff sample_bodies (hello ∷ [])

-- A server that refuses everything.
abbrev closed : Outside ℕ
closed = record {
  admit = λ kind w. (some queue_full, w);
  release = λ w. w;
  send = λ request w. (was_cancelled, w);
}

abbrev degraded_status : BackendStatus
degraded_status = record ready_status { embeddings = CapabilityState.degraded }

-- An orchestrator whose backend serves no embeddings.
abbrev degraded_orchestrator : LifecycleOrchestrator BackendStatus ℕ
degraded_orchestrator = record sample_orchestrator {
  ensure_backend = λ kind l w. (LifecycleDecision.ready degraded_status, degraded_status, w);
}

execute-no_upstream_example :
    execute degraded_orchestrator closed sample_json LifecycleRequest.embeddings [] false
      sample_state
    ≡ execute degraded_orchestrator sample_outside sample_json LifecycleRequest.embeddings [] false
        sample_state
execute-no_upstream_example =
    execute-no_upstream degraded_orchestrator sample_outside sample_json closed [] false
      sample_state degraded_status refl refl

-- Two requests that ask for nothing, and one for a chat completion.
abbrev sample_requests : List HttpRequest
sample_requests =
    record { method = Method.get; path = "/healthz"; content_type = none; body = [] }
    ∷ record { method = Method.post; path = "/status"; content_type = none; body = [] }
    ∷ record {
      method = Method.post;
      path = "/v1/chat/completions";
      content_type = json_type;
      body = [];
    }
    ∷ []

serve_all-IsServed_example :
    IsServed sample_orchestrator sample_outside sample_json sample_bodies
      (asks_any sample_orchestrator sample_outside sample_json sample_bodies sample_requests)
      sample_state
      (serve_all sample_orchestrator sample_outside sample_json sample_bodies sample_requests
        sample_state)
serve_all-IsServed_example =
    serve_all-IsServed sample_orchestrator sample_outside sample_json sample_bodies sample_requests
      sample_state
