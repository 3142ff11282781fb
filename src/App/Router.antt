-- ===== src/App/Router.antt =====
-- src/app.rs, build_router: which handler answers a request. axum answers a path that has no route with
-- 404, and a method that the route does not take with 405; a GET route takes HEAD too.
pub mod Served
pub mod Silent
use Prim.Native.String.{String}
use text.Mathlib.Text.{◌==◌ as str_eq}
use llm_wake_proxy.Base.{
  ℕ, ◌≡◌, refl, Bool, true, false, ◌&&◌, ◌||◌, Option, none, some, List, [], ◌∷◌, Result, ok, err,
  if◌then◌else◌, Bool-cases, Result-cases, inl, inr, arith, ◌∙◌, sym,
}
use llm_wake_proxy.Http.{Response}
use llm_wake_proxy.Metrics.{inc_chat_requests, inc_embeddings_requests}
use llm_wake_proxy.Lifecycle.Types.{LifecycleRequest}
use llm_wake_proxy.Forward.{Json}
use llm_wake_proxy.State.{LifecycleOrchestrator, AppState}
use llm_wake_proxy.Orchestrate.{Outside, count, execute}
use llm_wake_proxy.Orchestrate.Accounting.{IsAccounted, execute-IsAccounted}
use llm_wake_proxy.App.{
  Model, StatusJson, list_models, status, chat_completions, embeddings, has_json, answer_to,
  after_chat_parse, after_embeddings_parse, chat_error, embeddings_error,
}
use llm_wake_proxy.App.Requests.{Bodies}

pub data Method : Type 0 where
  get head post other : Method

pub record HttpRequest : Type 0 where
  pub method : Method
  pub path : String
  pub content_type : Option (List ℕ)
  pub body : List ℕ

pub data Answer : Type 0 where
  -- `{ "status": "ok" }`
  healthy : Answer
  status_json : StatusJson → Answer
  models : List Model → Answer
  responded : Response → Answer
  not_found method_not_allowed : Answer

abbrev pub is_get : Method → Bool
is_get Method.get = true
is_get Method.head = true
is_get Method.post = false
is_get Method.other = false

abbrev pub is_post : Method → Bool
is_post Method.post = true
is_post _ = false

-- A request that a completion handler takes.
abbrev pub is_completion : HttpRequest → Bool
is_completion r =
    is_post r.method && (str_eq r.path "/v1/chat/completions" || str_eq r.path "/v1/embeddings")

module _ {L W : Type 0} where
  abbrev pub on_get : HttpRequest → Answer → AppState L W → Answer × AppState L W
  on_get r answer s = if is_get r.method then (answer, s) else (method_not_allowed, s)

  abbrev pub on_post : HttpRequest → Response × AppState L W → AppState L W → Answer × AppState L W
  on_post r (response, s') s =
      if is_post r.method then (responded response, s') else (method_not_allowed, s)

module _ {L W V U : Type 0} (orchestrator : LifecycleOrchestrator L W) (outside : Outside W)
    (json : Json V) (bodies : Bodies U) where
  -- `build_router`
  unfoldable pub serve : HttpRequest → AppState L W → Answer × AppState L W
  serve r s =
      if str_eq r.path "/healthz"
      then on_get r healthy s
      else if str_eq r.path "/status"
      then on_get r (status_json (status orchestrator s)) s
      else if str_eq r.path "/v1/models"
      then on_get r (models (list_models s.config)) s
      else if str_eq r.path "/v1/chat/completions"
      then on_post r (chat_completions orchestrator outside json bodies r.content_type r.body s) s
      else if str_eq r.path "/v1/embeddings"
      then on_post r (embeddings orchestrator outside json bodies r.content_type r.body s) s
      else (not_found, s)

  -- One request after the other.
  unfoldable pub serve_all : List HttpRequest → AppState L W → AppState L W
  unfolding serve
  serve_all [] s = s
  serve_all (r ∷ rs) s = serve_all rs (serve r s).1
