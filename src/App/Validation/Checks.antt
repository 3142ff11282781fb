-- ===== src/App/Validation/Checks.antt =====
-- src/app.rs, the checks of a parsed body: which bodies pass.
use Prim.Native.String.{String}
use mathlib.Core.Option
use text.Mathlib.Text.{◌==◌ as str_eq}
use llm_wake_proxy.Base.{◌≡◌, refl, Bool, true, false, not, Option, none, some, arith}
use llm_wake_proxy.Config.Types.{AppConfig}
use llm_wake_proxy.Http.{Response, openai_error, bad_request}
use llm_wake_proxy.Lifecycle.Types.{LifecycleRequest}
use llm_wake_proxy.State.{model_alias_for}
use llm_wake_proxy.App.Requests.{ChatCompletionRequest, EmbeddingsRequest, Bodies, first_some}
use llm_wake_proxy.App.Requests.Messages.{
  AllOf, HasKnownRole, IsWellFormed, first_some-none, content_error_iff, invalid_role_sound,
  invalid_role_complete,
}
use llm_wake_proxy.App.{
  invalid_request, check, is_empty, chat_error, embeddings_error, unsupported_model,
  unsupported_role, invalid_content, null_input, disabled,
}

-- No response, or one with the code of a bad request.
pub data IsBad : Option Response → Type 0 where
  passes : IsBad none
  is_bad : (r : Response) → r.status ≡ bad_request → IsBad (some r)

pub bad_status : (r : Response) → IsBad (some r) → r.status ≡ bad_request
bad_status r (is_bad _ h) = h

first_some-IsBad : (o rest : Option Response) → IsBad o → IsBad rest → IsBad (first_some o rest)
first_some-IsBad none rest h k = k
first_some-IsBad (some r) rest h k = h

check-IsBad : (b : Bool) (r : Response) → r.status ≡ bad_request → IsBad (check b r)
check-IsBad true r h = is_bad r h
check-IsBad false r h = passes

check-none : (b : Bool) (r : Response) → check b r ≡ none → b ≡ false
check-none true r h = absurd (ground arith)
check-none false r h = refl

not-false : (b : Bool) → not b ≡ false → b ≡ true
not-false true h = refl
not-false false h = absurd (ground arith)

map-IsBad :
    (o : Option String) (f : String → Response)
    → ((t : String) → (f t).status ≡ bad_request)
    → IsBad (Option.map f o)
map-IsBad none f h = passes
map-IsBad (some t) f h = is_bad (f t) (h t)

map-none : (o : Option String) (f : String → Response) → Option.map f o ≡ none → o ≡ none
map-none none f h = refl
map-none (some t) f h = absurd (ground arith)

module _ {U : Type 0} (bodies : Bodies U) where
  -- What makes a chat request acceptable.
  pub record IsAcceptable (config : AppConfig) (p : ChatCompletionRequest U) : Type 0 where
    pub messages : is_empty p.messages ≡ false
    pub roles : AllOf HasKnownRole p.messages
    pub contents : AllOf (IsWellFormed bodies) p.messages
    pub model : str_eq p.model config.model.alias ≡ true

  pub record IsAcceptableInput (config : AppConfig) (p : EmbeddingsRequest U) : Type 0 where
    pub input : bodies.is_null p.input ≡ false
    pub model : str_eq p.model (model_alias_for LifecycleRequest.embeddings config) ≡ true
    pub enabled : config.embeddings.enabled ≡ true

  pub chat_error-IsBad :
      (config : AppConfig) (p : ChatCompletionRequest U) → IsBad (chat_error bodies config p)
  unfolding chat_error unsupported_model invalid_request openai_error
  chat_error-IsBad config p = first_some-IsBad _ _ (check-IsBad _ _ refl) (
      first_some-IsBad _ _ (map-IsBad _ unsupported_role (λ t. refl))
        (first_some-IsBad _ _ (map-IsBad _ invalid_content (λ t. refl)) (check-IsBad _ _ refl)))

  pub chat_error_sound :
      (config : AppConfig) (p : ChatCompletionRequest U)
      → chat_error bodies config p ≡ none
      → IsAcceptable config p
  unfolding chat_error
  chat_error_sound config p h =
      let (a, h1) = first_some-none _ _ h in
      let (b, h2) = first_some-none _ _ h1 in
      let (c, d) = first_some-none _ _ h2 in
      record {
        messages = check-none _ _ a;
        roles = invalid_role_sound p.messages (map-none _ _ b);
        contents = (content_error_iff bodies p.messages).0 (map-none _ _ c);
        model = not-false _ (check-none _ _ d);
      }

  pub chat_error_complete :
      (config : AppConfig) (p : ChatCompletionRequest U)
      → IsAcceptable config p
      → chat_error bodies config p ≡ none
  unfolding chat_error
  chat_error_complete config p a =
      let r = invalid_role_complete p.messages a.roles in
      let c = (content_error_iff bodies p.messages).1 a.contents in
      rw (a.messages, r, c, a.model) refl

  pub embeddings_error-IsBad :
      (config : AppConfig) (p : EmbeddingsRequest U) → IsBad (embeddings_error bodies config p)
  unfolding embeddings_error unsupported_model invalid_request openai_error
  embeddings_error-IsBad config p =
      let alias = model_alias_for LifecycleRequest.embeddings config in
      first_some-IsBad _ _ (check-IsBad (bodies.is_null p.input) null_input refl) (
        first_some-IsBad _ _
          (check-IsBad (not (str_eq p.model alias)) (unsupported_model p.model alias) refl)
          (check-IsBad (not config.embeddings.enabled) disabled refl))

  pub embeddings_error_sound :
      (config : AppConfig) (p : EmbeddingsRequest U)
      → embeddings_error bodies config p ≡ none
      → IsAcceptableInput config p
  unfolding embeddings_error
  embeddings_error_sound config p h =
      let alias = model_alias_for LifecycleRequest.embeddings config in
      let (a, h1) = first_some-none _ _ h in
      let (b, c) = first_some-none _ _ h1 in
      record {
        input = check-none _ _ a;
        model = not-false _ (check-none _ _ b);
        enabled = not-false _ (check-none _ _ c);
      }

  pub embeddings_error_complete :
      (config : AppConfig) (p : EmbeddingsRequest U)
      → IsAcceptableInput config p
      → embeddings_error bodies config p ≡ none
  unfolding embeddings_error
  embeddings_error_complete config p a = rw (a.input, a.model, a.enabled) refl
