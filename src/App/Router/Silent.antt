-- ===== src/App/Router/Silent.antt =====
-- src/app.rs, build_router: requests over lifecycles that never find the backend ready.
use text.Mathlib.Text.{◌==◌ as str_eq}
use llm_wake_proxy.Base.{
  ℕ, ◌≡◌, refl, Bool, false, Option, none, some, List, [], ◌∷◌, Bool-cases, Result-cases, ◌==◌,
  ◌||◌, true, inl, inr, ◌∙◌, ap,
}
use llm_wake_proxy.Http.{Response, openai_error, bad_request, service_unavailable}
use llm_wake_proxy.Metrics.{inc_chat_requests, inc_embeddings_requests}
use llm_wake_proxy.Lifecycle.Types.{LifecycleRequest}
use llm_wake_proxy.Forward.{Json}
use llm_wake_proxy.State.{LifecycleOrchestrator, AppState}
use llm_wake_proxy.Orchestrate.{Outside, count}
use llm_wake_proxy.Orchestrate.Silent.{IsSilent, AllSilent, execute-silent}
use llm_wake_proxy.App.{
  list_models, status, chat_completions, embeddings, has_json, answer_to, after_chat_parse,
  invalid_request, after_embeddings_parse, chat_error, embeddings_error,
}
use llm_wake_proxy.App.Requests.{Bodies}
use llm_wake_proxy.App.Validation.Checks.{
  IsBad, bad_status, chat_error-IsBad, embeddings_error-IsBad,
}
use llm_wake_proxy.App.Router.{
  HttpRequest, Answer, healthy, status_json, models, responded, is_get, is_post, on_get, on_post,
  serve, serve_all,
}

abbrev pub refuses : ℕ → Bool
refuses n = n == bad_request || n == service_unavailable

-- An answer of one of the two endpoints that need a backend is a refusal; any other answer passes.
abbrev pub is_refused_work : Answer → Bool
is_refused_work (responded response) = refuses response.status
is_refused_work _ = true

module _ {L W : Type 0} (P : L → Type 0) where
  -- The same outcome, which is a refusal, and from which the lifecycles stay silent.
  abbrev AreRefused : Response × AppState L W → Response × AppState L W → Type 0
  AreRefused x y = (x ≡ y) × AllSilent P y.1 × (refuses y.0.status ≡ true)

  -- Likewise for an answer to any request.
  abbrev AreSame : Answer × AppState L W → Answer × AppState L W → Type 0
  AreSame x y = (x ≡ y) × AllSilent P y.1 × (is_refused_work y.0 ≡ true)

module _ {L W V U : Type 0} (orchestrator : LifecycleOrchestrator L W) (P : L → Type 0)
    (silent : IsSilent orchestrator P) (outside other : Outside W) (json : Json V)
    (bodies : Bodies U) where
  answer_to-silent :
      (kind : LifecycleRequest) (body : List ℕ) (stream : Bool) (refusal : Option Response)
      (s : AppState L W)
      → IsBad refusal
      → AllSilent P s
      → AreRefused P
          (answer_to orchestrator other json bodies kind body stream refusal s)
          (answer_to orchestrator outside json bodies kind body stream refusal s)
  unfolding answer_to
  answer_to-silent kind body stream (some response) s b h =
      (refl, h, rw (bad_status response b) refl)
  answer_to-silent kind body stream none s b h =
      let (same, kept, unavailable) =
        execute-silent orchestrator P silent outside other json kind body stream s h in
      (same, kept, rw unavailable refl)

  chat_completions-silent :
      (content_type : Option (List ℕ)) (body : List ℕ) (s : AppState L W)
      → AllSilent P s
      → AreRefused P
          (chat_completions orchestrator other json bodies content_type body s)
          (chat_completions orchestrator outside json bodies content_type body s)
  unfolding chat_completions after_chat_parse invalid_request openai_error
  chat_completions-silent content_type body s h = elim (Bool-cases (has_json content_type)) [
    | inl e ↦ rw e (elim (Result-cases (bodies.chat_from_slice body)) [
      | inl (payload, p) ↦ rw p (
          answer_to-silent LifecycleRequest.chat body payload.stream
            (chat_error bodies s.config payload) (count inc_chat_requests s)
            (chat_error-IsBad bodies s.config payload) h)
      | inr (error, p) ↦ rw p (refl, h, refl)
    ])
    | inr e ↦ rw e (refl, h, refl)
  ]

  embeddings-silent :
      (content_type : Option (List ℕ)) (body : List ℕ) (s : AppState L W)
      → AllSilent P s
      → AreRefused P
          (embeddings orchestrator other json bodies content_type body s)
          (embeddings orchestrator outside json bodies content_type body s)
  unfolding embeddings after_embeddings_parse invalid_request openai_error
  embeddings-silent content_type body s h = elim (Bool-cases (has_json content_type)) [
    | inl e ↦ rw e (elim (Result-cases (bodies.embeddings_from_slice body)) [
      | inl (payload, p) ↦ rw p (
          answer_to-silent LifecycleRequest.embeddings body false
            (embeddings_error bodies s.config payload) (count inc_embeddings_requests s)
            (embeddings_error-IsBad bodies s.config payload) h)
      | inr (error, p) ↦ rw p (refl, h, refl)
    ])
    | inr e ↦ rw e (refl, h, refl)
  ]

  on_get-silent :
      (r : HttpRequest) (a : Answer) (s : AppState L W)
      → AllSilent P s
      → is_refused_work a ≡ true
      → AreSame P (on_get r a s) (on_get r a s)
  on_get-silent r a s h n = elim (Bool-cases (is_get r.method)) [
    | inl e ↦ rw e (refl, h, n)
    | inr e ↦ rw e (refl, h, refl)
  ]

  on_post-silent :
      (r : HttpRequest) (x y : Response × AppState L W) (s : AppState L W)
      → AllSilent P s
      → AreRefused P x y
      → AreSame P (on_post r x s) (on_post r y s)
  on_post-silent r x y s h k = elim (Bool-cases (is_post r.method)) [
    | inl e ↦ (ap (λ z. on_post r z s) k.0, rw e k.1, rw e k.2)
    | inr e ↦ rw e (refl, h, refl)
  ]

  serve-silent :
      (r : HttpRequest) (s : AppState L W)
      → AllSilent P s
      → AreSame P
          (serve orchestrator other json bodies r s)
          (serve orchestrator outside json bodies r s)
  unfolding serve
  serve-silent r s h = elim (Bool-cases (str_eq r.path "/healthz")) [
    | inl e ↦ rw e (on_get-silent r healthy s h refl)
    | inr e ↦ rw e (elim (Bool-cases (str_eq r.path "/status")) [
      | inl f ↦ rw f (on_get-silent r (status_json (status orchestrator s)) s h refl)
      | inr f ↦ rw f (elim (Bool-cases (str_eq r.path "/v1/models")) [
        | inl g ↦ rw g (on_get-silent r (models (list_models s.config)) s h refl)
        | inr g ↦ rw g (elim (Bool-cases (str_eq r.path "/v1/chat/completions")) [
          | inl c ↦
              rw c (on_post-silent r _ _ s h (chat_completions-silent r.content_type r.body s h))
          | inr c ↦ rw c (elim (Bool-cases (str_eq r.path "/v1/embeddings")) [
            | inl m ↦ rw m (on_post-silent r _ _ s h (embeddings-silent r.content_type r.body s h))
            | inr m ↦ rw m (refl, h, refl)
          ])
        ])
      ])
    ])
  ]

  serve_all-silent :
      (rs : List HttpRequest) (s : AppState L W)
      → AllSilent P s
      → (serve_all orchestrator other json bodies rs s
          ≡ serve_all orchestrator outside json bodies rs s)
        × AllSilent P (serve_all orchestrator outside json bodies rs s)
  unfolding serve_all
  serve_all-silent [] s h = (refl, h)
  serve_all-silent (r ∷ rs) s h =
      let (same, kept, n) = serve-silent r s h in
      let (rest, all) = serve_all-silent rs (serve orchestrator outside json bodies r s).1 kept in
      (
        ap (λ (x : Answer × AppState L W). serve_all orchestrator other json bodies rs x.1) same
            ∙ rest,
        all,
      )

  -- Over lifecycles that never find the backend ready, no request that the router takes gets to the
  -- scheduler or to the upstream server, after any requests before it: its answer and the state that it
  -- leaves are the same whatever these would do, and a chat completion or an embeddings request is
  -- answered with status 400 or 503.
  pub served-silent :
      (before : List HttpRequest) (r : HttpRequest) (s : AppState L W)
      → AllSilent P s
      → (serve orchestrator other json bodies r (serve_all orchestrator other json bodies before s)
          ≡ serve orchestrator outside json bodies r
              (serve_all orchestrator outside json bodies before s))
        × (is_refused_work
              (serve orchestrator outside json bodies r
                (serve_all orchestrator outside json bodies before s)).0
            ≡ true)
  served-silent before r s h =
      let (same, kept) = serve_all-silent before s h in
      let (equal, all, n) =
        serve-silent r (serve_all orchestrator outside json bodies before s) kept in
      (ap (serve orchestrator other json bodies r) same ∙ equal, n)
