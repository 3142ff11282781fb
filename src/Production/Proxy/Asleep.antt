-- ===== src/Production/Proxy/Asleep.antt =====
-- src/main.rs, src/app.rs, src/orchestrate.rs, src/lifecycle.rs and src/host.rs together: the proxy while
-- the host is down.
use llm_wake_proxy.Base.{
  ◌≡◌, refl, Bool, true, false, Option, none, some, List, Result, ok, err, inl, inr, Result-cases,
  sym, subst, ◌∙◌, ok-injective, is_some, if◌then◌else◌,
}
use llm_wake_proxy.Config.{Env, from_env}
use llm_wake_proxy.Config.Types.{AppConfig, EmbeddingsBackendConfig}
use llm_wake_proxy.Lifecycle.Types.{
  LifecycleRequest, LifecycleError, LifecycleTiming, default_status, backend_is_ready,
}
use llm_wake_proxy.Lifecycle.Tasks.{Action}
use llm_wake_proxy.Lifecycle.Tasks.Manager.{Manager, new_with_timing}
use llm_wake_proxy.Lifecycle.Tasks.Manager.Calls.{UnreadyManager, new_with_timing-UnreadyManager}
use llm_wake_proxy.Lifecycle.Tasks.Manager.Silent.{lifecycle_manager-IsSilent}
use llm_wake_proxy.State.{AppState, production}
use llm_wake_proxy.Forward.{Json}
use llm_wake_proxy.Orchestrate.{Outside}
use llm_wake_proxy.Orchestrate.Silent.{IsSilent, AllSilent, OptionSilent}
use llm_wake_proxy.App.Requests.{Bodies}
use llm_wake_proxy.App.Router.{HttpRequest, serve, serve_all}
use llm_wake_proxy.App.Router.Silent.{is_refused_work, served-silent}
use llm_wake_proxy.Host
use llm_wake_proxy.Host.{HelperJson, is_ready}
use llm_wake_proxy.Production.{
  Clock, chat_services, embeddings_services, start, started, ssh_probe, production_services,
}
use llm_wake_proxy.Production.Proxy.{
  Shared, within, own_embeddings, services_for, proxy_lifecycles, start_proxy, untouched,
  fresh_proxy, start_proxy-eq-ok,
}

module _ {W : Type 0} (system : Host.System W) (json : HelperJson) (clock : Clock W) where
  -- No connection to the host's ssh port succeeds.
  abbrev pub IsDown : AppConfig → Type 0
  IsDown config = (w : W) → (is_ready system (ssh_probe config) w).0 ≡ ok false

  services_for-asleep :
      (config : AppConfig) (kind : LifecycleRequest)
      → IsDown config
      → (s : Shared W) → ((services_for system json clock config kind).is_ready s).0 ≡ ok false
  unfolding services_for within chat_services embeddings_services production_services
  services_for-asleep config LifecycleRequest.chat down s = down s.outer
  services_for-asleep config LifecycleRequest.embeddings down s = go config.embeddings.backend
    where
      go :
          (o : Option EmbeddingsBackendConfig)
          → ((own_embeddings system json clock config o).is_ready s).0 ≡ ok false
      go none = down s.outer
      go (some backend) = down s.outer

  module _ (others : LifecycleRequest → Manager → Shared W → List (Action (Shared W)))
      (timing : LifecycleTiming) (config : AppConfig) where
    proxy_lifecycles-IsSilent :
        IsDown config
        → IsSilent (proxy_lifecycles system json clock others timing config) UnreadyManager
    unfolding proxy_lifecycles
    proxy_lifecycles-IsSilent down =
        let silent = λ (kind : LifecycleRequest).
          lifecycle_manager-IsSilent (services_for system json clock config kind) timing
            (λ s e. absurd (false_is_true (sym (services_for-asleep config kind down s) ∙ e)))
            others in
        record {
          ensured = λ kind. (silent kind).ensured kind;
          unready = λ kind. (silent kind).unready kind;
        }
      where
        false_is_true : ¬ (◌≡◌ {A = Result Bool LifecycleError} (ok false) (ok true))
        false_is_true e = cc

production-silent :
    {W : Type 0} (config : AppConfig) (chat embeddings : Manager) (w : W)
    → UnreadyManager chat
    → UnreadyManager embeddings
    → AllSilent UnreadyManager (production config chat embeddings w)
unfolding production
production-silent config chat embeddings w h k = (h, go (is_some config.embeddings.backend))
  where
    go : (b : Bool) → OptionSilent UnreadyManager (if b then some embeddings else none)
    go true = k
    go false = tt

err_is_no_ok : {A E : Type 0} (e : E) (a : A) → ¬ (◌≡◌ {A = Result A E} (err e) (ok a))
err_is_no_ok e a h = cc

start_proxy-silent :
    {W : Type 0} (env : Env) (w : W) (s : AppState Manager (Shared W))
    → start_proxy env w ≡ ok s
    → AllSilent UnreadyManager s
unfolding start_proxy start started backend_is_ready
start_proxy-silent env w s e = elim (Result-cases (from_env env)) [
  | inl (config, f) ↦
      let made = new_with_timing-UnreadyManager default_status refl in
      let same =
        ok-injective (fresh_proxy config w) s (sym (start_proxy-eq-ok env config w f) ∙ e) in
      subst (AllSilent UnreadyManager) same (
        production-silent config (new_with_timing default_status) (new_with_timing default_status)
          (untouched w) made made)
  | inr (error, f) ↦ absurd (err_is_no_ok error s (rw f at e))
]

module _ {W V U : Type 0} (system : Host.System W) (json : HelperJson) (clock : Clock W)
    (upstream_json : Json V) (bodies : Bodies U) where
  -- As long as the host's ssh port takes no connection, a proxy that has been started from its
  -- environment answers every request without the scheduler and without the upstream server, whatever
  -- requests came before, whatever the tasks of its lifecycle managers, its clients and the rest of the
  -- world do meanwhile, and in single and in dual-backend mode: the answer and the state that the
  -- request leaves are the same whatever the scheduler and the upstream server would do. A chat
  -- completion or an embeddings request that is taken up is answered with status 400 or 503.
  pub serve-asleep :
      (others : LifecycleRequest → Manager → Shared W → List (Action (Shared W)))
      (timing : LifecycleTiming) (outside other : Outside (Shared W)) (env : Env) (w : W)
      (s : AppState Manager (Shared W)) (before : List HttpRequest) (r : HttpRequest)
      → start_proxy env w ≡ ok s
      → IsDown system json clock s.config
      → let lifecycles = proxy_lifecycles system json clock others timing s.config in
        let out =
          serve lifecycles outside upstream_json bodies r
            (serve_all lifecycles outside upstream_json bodies before s) in
        (serve lifecycles other upstream_json bodies r
            (serve_all lifecycles other upstream_json bodies before s)
          ≡ out)
        × (is_refused_work out.0 ≡ true)
  serve-asleep others timing outside other env w s before r e down =
      served-silent (proxy_lifecycles system json clock others timing s.config) UnreadyManager
        (proxy_lifecycles-IsSilent system json clock others timing s.config down) outside other
        upstream_json bodies before r s (start_proxy-silent env w s e)
