-- ===== src/App/Validation.antt =====
-- src/app.rs, the two POST handlers: which requests are carried out, and what happens to the others.
pub mod Checks
use Prim.Native.String.{String}
use mathlib.Core.Option
use text.Mathlib.Text.{◌==◌ as str_eq}
use llm_wake_proxy.Base.{
  ℕ, ◌≡◌, refl, Bool, true, false, not, Option, none, some, List, ok, ◌⊎◌, inl, inr, arith,
  Bool-cases, Option-cases, Result-cases, subst,
}
use llm_wake_proxy.Config.Types.{AppConfig}
use llm_wake_proxy.Http.{Response, openai_error, bad_request}
use llm_wake_proxy.Metrics.{inc_chat_requests, inc_embeddings_requests}
use llm_wake_proxy.Lifecycle.Types.{LifecycleRequest}
use llm_wake_proxy.Forward.{Json}
use llm_wake_proxy.State.{LifecycleOrchestrator, AppState, model_alias_for}
use llm_wake_proxy.Orchestrate.{Outside, count, execute}
use llm_wake_proxy.App.Requests.{ChatCompletionRequest, EmbeddingsRequest, Bodies, first_some}
use llm_wake_proxy.App.Requests.Messages.{
  AllOf, HasKnownRole, IsWellFormed, first_some-none, content_error_iff, invalid_role_sound,
  invalid_role_complete,
}
use llm_wake_proxy.App.{
  has_json, invalid_request, check, is_empty, chat_error, embeddings_error, answer_to,
  after_chat_parse, chat_completions, after_embeddings_parse, embeddings, unsupported_model,
  unsupported_role, invalid_content, null_input, disabled,
}
use llm_wake_proxy.App.Validation.Checks.{
  IsBad, bad_status, IsAcceptable, IsAcceptableInput, chat_error-IsBad, chat_error_sound,
  chat_error_complete, embeddings_error-IsBad, embeddings_error_sound, embeddings_error_complete,
}

module _ {L W V U : Type 0} (orchestrator : LifecycleOrchestrator L W) (outside : Outside W)
    (json : Json V) (bodies : Bodies U) where
  -- The request was refused with 400 before anything else happened; at most it was counted.
  abbrev pub IsRefused : AppState L W → AppState L W → Response × AppState L W → Type 0
  IsRefused s counted out = (out.0.status ≡ bad_request) × ((out.1 ≡ s) ⊎ (out.1 ≡ counted))

  -- It is of JSON type, parses and is acceptable.
  abbrev pub IsChatRequest : Option (List ℕ) → List ℕ → AppState L W → Type 0
  IsChatRequest content_type raw_body s =
      (p : ChatCompletionRequest U) × (has_json content_type ≡ true)
      × (bodies.chat_from_slice raw_body ≡ ok p)
      × IsAcceptable bodies s.config p

  abbrev pub IsChatCarriedOut :
      Option (List ℕ) → List ℕ → AppState L W → Response × AppState L W → Type 0
  IsChatCarriedOut content_type raw_body s out =
      (p : ChatCompletionRequest U) × (has_json content_type ≡ true)
      × (bodies.chat_from_slice raw_body ≡ ok p)
      × IsAcceptable bodies s.config p
      × (out
          ≡ execute orchestrator outside json LifecycleRequest.chat raw_body p.stream
              (count inc_chat_requests s))

  -- A chat request is carried out exactly if it is of JSON type, parses and is acceptable: has messages
  -- with known roles and fitting contents and names the configured model. Any other one is refused with
  -- 400, and the lifecycle, the scheduler and the upstream server never see it.
  pub chat_completions-decides :
      (content_type : Option (List ℕ)) (raw_body : List ℕ) (s : AppState L W)
      → let out = chat_completions orchestrator outside json bodies content_type raw_body s in
        IsChatCarriedOut content_type raw_body s out
        ⊎ (IsRefused s (count inc_chat_requests s) out × (¬ IsChatRequest content_type raw_body s))
  unfolding chat_completions after_chat_parse answer_to invalid_request openai_error
  chat_completions-decides content_type raw_body s = elim (Bool-cases (has_json content_type)) [
    | inl t ↦ rw t (elim (Result-cases (bodies.chat_from_slice raw_body)) [
      | inl (p, e) ↦ rw e (elim (Option-cases (chat_error bodies s.config p)) [
        | inl n ↦ rw n (inl (p, refl, refl, chat_error_sound bodies s.config p n, refl))
        | inr (r, n) ↦ rw n (
            inr (
              (bad_status r (subst IsBad n (chat_error-IsBad bodies s.config p)), inr refl),
              λ h.
                  let (p', _, e', a) = h in
                  let passed = chat_error_complete bodies s.config p' a in cc (n, e', passed),
            ))
      ])
      | inr (m, e) ↦ rw e (inr ((refl, inr refl), λ h. cc (h.2)))
    ])
    | inr f ↦ rw f (inr ((refl, inl refl), λ h. cc (h.1)))
  ]

  -- It is of JSON type, parses and is acceptable.
  abbrev pub IsEmbeddingsRequest : Option (List ℕ) → List ℕ → AppState L W → Type 0
  IsEmbeddingsRequest content_type raw_body s =
      (p : EmbeddingsRequest U) × (has_json content_type ≡ true)
      × (bodies.embeddings_from_slice raw_body ≡ ok p)
      × IsAcceptableInput bodies s.config p

  abbrev pub IsEmbeddingsCarriedOut :
      Option (List ℕ) → List ℕ → AppState L W → Response × AppState L W → Type 0
  IsEmbeddingsCarriedOut content_type raw_body s out =
      (p : EmbeddingsRequest U) × (has_json content_type ≡ true)
      × (bodies.embeddings_from_slice raw_body ≡ ok p)
      × IsAcceptableInput bodies s.config p
      × (out
          ≡ execute orchestrator outside json LifecycleRequest.embeddings raw_body false
              (count inc_embeddings_requests s))

  -- An embeddings request is carried out exactly if it is of JSON type, parses, has an input, names the
  -- model that serves embeddings, and embeddings are enabled; any other one is refused with 400, and the
  -- lifecycle, the scheduler and the upstream server never see it.
  pub embeddings-decides :
      (content_type : Option (List ℕ)) (raw_body : List ℕ) (s : AppState L W)
      → let out = embeddings orchestrator outside json bodies content_type raw_body s in
        IsEmbeddingsCarriedOut content_type raw_body s out
        ⊎ (IsRefused s (count inc_embeddings_requests s) out
            × (¬ IsEmbeddingsRequest content_type raw_body s))
  unfolding embeddings after_embeddings_parse answer_to invalid_request openai_error
  embeddings-decides content_type raw_body s = elim (Bool-cases (has_json content_type)) [
    | inl t ↦ rw t (elim (Result-cases (bodies.embeddings_from_slice raw_body)) [
      | inl (p, e) ↦ rw e (elim (Option-cases (embeddings_error bodies s.config p)) [
        | inl n ↦ rw n (inl (p, refl, refl, embeddings_error_sound bodies s.config p n, refl))
        | inr (r, n) ↦ rw n (
            inr (
              (bad_status r (subst IsBad n (embeddings_error-IsBad bodies s.config p)), inr refl),
              λ h.
                  let (p', _, e', a) = h in
                  let passed = embeddings_error_complete bodies s.config p' a in cc (n, e', passed),
            ))
      ])
      | inr (m, e) ↦ rw e (inr ((refl, inr refl), λ h. cc (h.2)))
    ])
    | inr f ↦ rw f (inr ((refl, inl refl), λ h. cc (h.1)))
  ]
