-- ===== src/App.antt =====
-- src/app.rs: the HTTP handlers. A handler has the header content-type, the raw body and the state; what
-- it answers is the response and the state after it.
pub mod Requests
pub mod Validation
pub mod Models
pub mod Router
use Prim.Native.String
use Prim.Native.String.{String}
use text.Mathlib.Text.{◌==◌ as str_eq}
use llm_wake_proxy.Base.{
  ℕ, Bool, true, false, not, Option, none, some, List, [], ◌∷◌, ◌++◌, Result, ok, err,
  if◌then◌else◌, contains, codes, unwrap_or,
}
use llm_wake_proxy.Config.Types.{AppConfig, EmbeddingsBackendConfig}
use llm_wake_proxy.Http.{Response, openai_error, bad_request}
use llm_wake_proxy.Metrics.{Metrics, snapshot, inc_chat_requests, inc_embeddings_requests}
use llm_wake_proxy.Lifecycle.Types.{
  LifecycleState, CapabilityState, TunnelState, UnitState, LifecycleRequest, BackendStatus,
}
use llm_wake_proxy.Forward.{Json}
use llm_wake_proxy.State.{LifecycleOrchestrator, AppState, model_alias_for, lifecycle_for}
use llm_wake_proxy.Orchestrate.{Outside, count, execute}
use mathlib.Core.Option
use Requests.{
  first_some, ChatCompletionRequest, EmbeddingsRequest, Bodies, content_error, invalid_role,
  normalize_json_error,
}

-- The extractor RequireJsonContentType, at the header's text if it has one.
unfoldable pub has_json : Option (List ℕ) → Bool
unfolding contains
has_json none = false
has_json (some content_type) = contains content_type (codes "application/json")

unfoldable pub invalid_request : String → List ℕ → Response
unfolding openai_error
invalid_request code message = openai_error bad_request code message none

unfoldable pub unsupported_model : String → String → Response
unfolding invalid_request
unsupported_model model expected = invalid_request "model_not_found" (
    codes "unsupported model '"
    ++ codes model
    ++ codes "': expected '"
    ++ codes expected
    ++ codes "'")

abbrev no_messages : Response
no_messages = invalid_request "invalid_request_error" (codes "messages must not be empty")

abbrev unsupported_role : String → Response
unsupported_role role =
    invalid_request "unsupported_role"
      (codes "unsupported message role '" ++ codes role ++ codes "'")

abbrev invalid_content : String → Response
invalid_content message = invalid_request "invalid_request_error" (codes message)

abbrev null_input : Response
null_input = invalid_request "invalid_request_error" (codes "input must not be null")

abbrev disabled : Response
disabled =
    invalid_request "unsupported_embeddings" (codes "embeddings are disabled by configuration")

-- `if condition { return response; }`
abbrev check : Bool → Response → Option Response
check condition response = if condition then some response else none

abbrev is_empty : {A : Type 0} → List A → Bool
is_empty [] = true
is_empty (a ∷ rest) = false

-- An entry of `/v1/models`.
pub record Model : Type 0 where
  pub id : String
  pub owned_by : String
  pub provider : String

backend_models : Option EmbeddingsBackendConfig → List Model
backend_models none = []
backend_models (some backend) =
    record { id = backend.alias; owned_by = backend.owned_by; provider = backend.provider_id } ∷ []

unfoldable pub list_models : AppConfig → List Model
unfolding backend_models
list_models config =
    record {
      id = config.model.alias;
      owned_by = config.model.owned_by;
      provider = config.model.provider_id;
    }
    ∷ backend_models config.embeddings.backend

-- The JSON of `backend_status_json`.
pub record BackendStatusJson : Type 0 where
  pub model_alias : String
  pub state : LifecycleState
  pub capability : CapabilityState
  pub capability_reason : Option String
  pub tunnel : TunnelState
  pub last_wake_attempt_at : Option ℕ
  pub lease_expires_at : Option ℕ
  pub llama_server_unit : UnitState
  pub inhibit_unit : UnitState

unfoldable pub backend_status_json :
    BackendStatus → String → CapabilityState → Option String → BackendStatusJson
backend_status_json status model_alias capability capability_reason = record {
  model_alias = model_alias;
  state = status.lifecycle;
  capability = capability;
  capability_reason = capability_reason;
  tunnel = status.tunnel;
  last_wake_attempt_at = status.last_wake_attempt_at;
  lease_expires_at = status.lease_expires_at;
  llama_server_unit = status.llama_server_unit;
  inhibit_unit = status.inhibit_unit;
}

pub record StatusJson : Type 0 where
  pub chat : BackendStatusJson
  pub embeddings : Option BackendStatusJson
  pub metrics : Metrics

module _ {L W : Type 0} (orchestrator : LifecycleOrchestrator L W) where
  -- `GET /status`
  unfoldable pub status : AppState L W → StatusJson
  unfolding backend_status_json lifecycle_for model_alias_for snapshot
  status s =
      let chat_status = orchestrator.status s.chat_lifecycle in
      let embeddings_status = orchestrator.status (lifecycle_for LifecycleRequest.embeddings s) in
      record {
        chat = backend_status_json chat_status s.config.model.alias chat_status.chat none;
        embeddings =
            if s.config.embeddings.enabled
            then some (
                backend_status_json embeddings_status
                  (model_alias_for LifecycleRequest.embeddings s.config)
                  embeddings_status.embeddings embeddings_status.embeddings_reason)
            else none;
        metrics = snapshot s.metrics;
      }

abbrev not_json : Response
not_json = invalid_request "invalid_request_error" (codes "content-type must be application/json")

module _ {U : Type 0} (bodies : Bodies U) where
  -- The checks of `chat_completions` on a body that was parsed: `none` lets it pass.
  unfoldable pub chat_error : AppConfig → ChatCompletionRequest U → Option Response
  unfolding invalid_request invalid_role content_error unsupported_model
  chat_error config payload = first_some (check (is_empty payload.messages) no_messages) (
      first_some (Option.map unsupported_role (invalid_role payload.messages)) (
        first_some (Option.map invalid_content (content_error bodies payload.messages)) (
          check (not (str_eq payload.model config.model.alias))
            (unsupported_model payload.model config.model.alias))))

  -- The checks of `embeddings`.
  unfoldable pub embeddings_error : AppConfig → EmbeddingsRequest U → Option Response
  unfolding invalid_request unsupported_model model_alias_for
  embeddings_error config payload =
      let embeddings_alias = model_alias_for LifecycleRequest.embeddings config in
      first_some (check (bodies.is_null payload.input) null_input) (
        first_some
          (check (not (str_eq payload.model embeddings_alias))
            (unsupported_model payload.model embeddings_alias))
          (check (not config.embeddings.enabled) disabled))

module _ {L W V U : Type 0} (orchestrator : LifecycleOrchestrator L W) (outside : Outside W)
    (json : Json V) (bodies : Bodies U) where
  -- What a handler does once the body is parsed and checked.
  answer_to :
      LifecycleRequest → List ℕ → Bool → Option Response → AppState L W → Response × AppState L W
  answer_to kind raw_body stream (some response) s = (response, s)
  answer_to kind raw_body stream none s = execute orchestrator outside json kind raw_body stream s

  after_chat_parse :
      List ℕ → Result (ChatCompletionRequest U) (List ℕ) → AppState L W → Response × AppState L W
  unfolding answer_to chat_error normalize_json_error invalid_request
  after_chat_parse raw_body (err e) s =
      (invalid_request "invalid_request_error" (normalize_json_error e), s)
  after_chat_parse raw_body (ok payload) s =
      answer_to LifecycleRequest.chat raw_body payload.stream (chat_error bodies s.config payload) s

  -- `POST /v1/chat/completions`
  unfoldable pub chat_completions :
      Option (List ℕ) → List ℕ → AppState L W → Response × AppState L W
  unfolding after_chat_parse has_json
  chat_completions content_type raw_body s =
      if has_json content_type
      then after_chat_parse raw_body (bodies.chat_from_slice raw_body) (count inc_chat_requests s)
      else (not_json, s)

  after_embeddings_parse :
      List ℕ → Result (EmbeddingsRequest U) (List ℕ) → AppState L W → Response × AppState L W
  unfolding answer_to embeddings_error normalize_json_error invalid_request
  after_embeddings_parse raw_body (err e) s =
      (invalid_request "invalid_request_error" (normalize_json_error e), s)
  after_embeddings_parse raw_body (ok payload) s =
      answer_to LifecycleRequest.embeddings raw_body false
        (embeddings_error bodies s.config payload) s

  -- `POST /v1/embeddings`
  unfoldable pub embeddings : Option (List ℕ) → List ℕ → AppState L W → Response × AppState L W
  unfolding after_embeddings_parse has_json
  embeddings content_type raw_body s =
      if has_json content_type
      then after_embeddings_parse raw_body (bodies.embeddings_from_slice raw_body)
          (count inc_embeddings_requests s)
      else (not_json, s)
