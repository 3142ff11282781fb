-- ===== src/App/Models.antt =====
-- src/app.rs, list_models: the models that the handlers take.
use Prim.Native.String.{String}
use llm_wake_proxy.Base.{ℕ, ◌≡◌, refl, some, List, map, get_elem?, inl, inr, Option-cases}
use llm_wake_proxy.Config.Types.{AppConfig}
use llm_wake_proxy.Lifecycle.Types.{LifecycleRequest}
use llm_wake_proxy.State.{model_alias_for}
use llm_wake_proxy.App.{Model, backend_models, list_models}

abbrev pub ids : List Model → List String
ids models = map (λ (m : Model). m.id) models

-- The alias that a handler expects in a request of either kind is the id of a listed model.
pub list_models-model_alias_for :
    (kind : LifecycleRequest) (config : AppConfig)
    → (i : ℕ) × (get_elem? (ids (list_models config)) i ≡ some (model_alias_for kind config))
unfolding list_models backend_models model_alias_for
list_models-model_alias_for LifecycleRequest.chat config = (0, refl)
list_models-model_alias_for LifecycleRequest.embeddings config =
    elim (Option-cases config.embeddings.backend) [
      | inl e ↦ (0, rw e refl)
      | inr (backend, e) ↦ (1, rw e refl)
    ]
