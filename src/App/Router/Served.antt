-- ===== src/App/Router/Served.antt =====
-- src/app.rs, build_router: what requests leave behind, whatever they ask for.
use text.Mathlib.Text.{◌==◌ as str_eq}
use llm_wake_proxy.Base.{
  ℕ, ◌≡◌, refl, Bool, true, false, ◌&&◌, ◌||◌, Option, none, some, List, [], ◌∷◌, Bool-cases,
  Result-cases, inl, inr, arith, ◌∙◌, sym,
}
use llm_wake_proxy.Http.{Response}
use llm_wake_proxy.Metrics.{inc_chat_requests, inc_embeddings_requests}
use llm_wake_proxy.Lifecycle.Types.{LifecycleRequest}
use llm_wake_proxy.Forward.{Json}
use llm_wake_proxy.State.{LifecycleOrchestrator, AppState}
use llm_wake_proxy.Orchestrate.{Outside, count, execute}
use llm_wake_proxy.Orchestrate.Accounting.{execute-IsAccounted}
use llm_wake_proxy.App.{
  list_models, status, chat_completions, embeddings, has_json, answer_to, after_chat_parse,
  after_embeddings_parse, chat_error, embeddings_error,
}
use llm_wake_proxy.App.Requests.{Bodies}
use llm_wake_proxy.App.Router.{
  HttpRequest, Answer, healthy, status_json, models, is_get, is_post, is_completion, on_get,
  on_post, serve, serve_all,
}

module _ {L W V U : Type 0} (orchestrator : LifecycleOrchestrator L W) (outside : Outside W)
    (json : Json V) (bodies : Bodies U) where
  -- From a state, to the state after a request.
  pub record IsServed (asked : Bool) (s s' : AppState L W) : Type 0 where
    pub permits : s'.cold_permits ≡ s.cold_permits
    pub counted :
        s.metrics.cold_starts ≡ s.metrics.wake_attempts
        → s'.metrics.cold_starts ≡ s'.metrics.wake_attempts
    pub quiet : asked ≡ false → s' ≡ s

  unasked-IsServed : (asked : Bool) (s : AppState L W) → IsServed asked s s
  unasked-IsServed asked s = record { permits = refl; counted = λ e. e; quiet = λ e. refl }

  execute-IsServed :
      (kind : LifecycleRequest) (body : List ℕ) (stream : Bool) (s : AppState L W)
      → IsServed true s (execute orchestrator outside json kind body stream s).1
  execute-IsServed kind body stream s =
      let a = execute-IsAccounted orchestrator outside json kind body stream s in
      record {
        permits = a.permits;
        counted = λ e. ground (arith, a.wakes, e);
        quiet = λ e. absurd (ground (arith, e));
      }

  counted-IsServed :
      (s s' t : AppState L W)
      → s'.cold_permits ≡ s.cold_permits
      → s'.metrics.cold_starts ≡ s.metrics.cold_starts
      → s'.metrics.wake_attempts ≡ s.metrics.wake_attempts
      → IsServed true s' t
      → IsServed true s t
  counted-IsServed s s' t p c w h = record {
    permits = h.permits ∙ p;
    counted = λ e. h.counted (c ∙ e ∙ sym w);
    quiet = λ e. absurd (ground (arith, e));
  }

  answer_to-IsServed :
      (kind : LifecycleRequest) (body : List ℕ) (stream : Bool) (refusal : Option Response)
      (s : AppState L W)
      → IsServed true s (answer_to orchestrator outside json bodies kind body stream refusal s).1
  unfolding answer_to
  answer_to-IsServed kind body stream (some response) s = unasked-IsServed true s
  answer_to-IsServed kind body stream none s = execute-IsServed kind body stream s

  chat_completions-IsServed :
      (content_type : Option (List ℕ)) (body : List ℕ) (s : AppState L W)
      → IsServed true s (chat_completions orchestrator outside json bodies content_type body s).1
  unfolding chat_completions after_chat_parse inc_chat_requests
  chat_completions-IsServed content_type body s = elim (Bool-cases (has_json content_type)) [
    | inl e ↦ rw e (
        counted-IsServed s (count inc_chat_requests s) _ refl refl refl
          (elim (Result-cases (bodies.chat_from_slice body)) [
            | inl (payload, p) ↦ rw p (
                answer_to-IsServed LifecycleRequest.chat body payload.stream
                  (chat_error bodies s.config payload) (count inc_chat_requests s))
            | inr (error, p) ↦ rw p (unasked-IsServed true (count inc_chat_requests s))
          ]))
    | inr e ↦ rw e (unasked-IsServed true s)
  ]

  embeddings-IsServed :
      (content_type : Option (List ℕ)) (body : List ℕ) (s : AppState L W)
      → IsServed true s (embeddings orchestrator outside json bodies content_type body s).1
  unfolding embeddings after_embeddings_parse inc_embeddings_requests
  embeddings-IsServed content_type body s = elim (Bool-cases (has_json content_type)) [
    | inl e ↦ rw e (
        counted-IsServed s (count inc_embeddings_requests s) _ refl refl refl
          (elim (Result-cases (bodies.embeddings_from_slice body)) [
            | inl (payload, p) ↦ rw p (
                answer_to-IsServed LifecycleRequest.embeddings body false
                  (embeddings_error bodies s.config payload) (count inc_embeddings_requests s))
            | inr (error, p) ↦ rw p (unasked-IsServed true (count inc_embeddings_requests s))
          ]))
    | inr e ↦ rw e (unasked-IsServed true s)
  ]

  on_get-IsServed :
      (asked : Bool) (r : HttpRequest) (a : Answer) (s : AppState L W)
      → IsServed asked s (on_get r a s).1
  on_get-IsServed asked r a s = elim (Bool-cases (is_get r.method)) [
    | inl e ↦ rw e (unasked-IsServed asked s)
    | inr e ↦ rw e (unasked-IsServed asked s)
  ]

  on_post-IsServed :
      (r : HttpRequest) (out : Response × AppState L W) (s : AppState L W)
      → IsServed true s out.1
      → IsServed (is_post r.method && true) s (on_post r out s).1
  on_post-IsServed r out s h = elim (Bool-cases (is_post r.method)) [
    | inl e ↦ rw e h
    | inr e ↦ rw e (unasked-IsServed false s)
  ]

  serve-IsServed :
      (r : HttpRequest) (s : AppState L W)
      → IsServed (is_completion r) s (serve orchestrator outside json bodies r s).1
  unfolding serve
  serve-IsServed r s = elim (Bool-cases (str_eq r.path "/healthz")) [
    | inl e ↦ rw e (on_get-IsServed (is_completion r) r healthy s)
    | inr e ↦ rw e (elim (Bool-cases (str_eq r.path "/status")) [
      | inl f ↦ rw f (on_get-IsServed (is_completion r) r (status_json (status orchestrator s)) s)
      | inr f ↦ rw f (elim (Bool-cases (str_eq r.path "/v1/models")) [
        | inl g ↦ rw g (on_get-IsServed (is_completion r) r (models (list_models s.config)) s)
        | inr g ↦ rw g (elim (Bool-cases (str_eq r.path "/v1/chat/completions")) [
          | inl h ↦
              rw h (on_post-IsServed r _ s (chat_completions-IsServed r.content_type r.body s))
          | inr h ↦ rw h (elim (Bool-cases (str_eq r.path "/v1/embeddings")) [
            | inl k ↦ rw k (on_post-IsServed r _ s (embeddings-IsServed r.content_type r.body s))
            | inr k ↦ rw k (unasked-IsServed (is_post r.method && false) s)
          ])
        ])
      ])
    ])
  ]

  -- Some request is for a completion.
  abbrev pub asks_any : List HttpRequest → Bool
  asks_any [] = false
  asks_any (r ∷ rs) = is_completion r || asks_any rs

  -- Over all requests, one after the other: the free cold-start permits are as many as at first; the
  -- counters of cold starts and of wake attempts are equal if they were; and without a POST to one of
  -- the two completion paths nothing changes, neither the lifecycles, nor the metrics, nor the world.
  pub serve_all-IsServed :
      (rs : List HttpRequest) (s : AppState L W)
      → IsServed (asks_any rs) s (serve_all orchestrator outside json bodies rs s)
  unfolding serve_all
  serve_all-IsServed [] s = unasked-IsServed false s
  serve_all-IsServed (r ∷ rs) s =
      let one = serve-IsServed r s in
      let rest = serve_all-IsServed rs (serve orchestrator outside json bodies r s).1 in
      record {
        permits = rest.permits ∙ one.permits;
        counted = λ e. rest.counted (one.counted e);
        quiet = λ e. rest.quiet (ground (arith, e)) ∙ one.quiet (ground (arith, e));
      }
