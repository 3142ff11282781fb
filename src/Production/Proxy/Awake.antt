-- ===== src/Production/Proxy/Awake.antt =====
-- src/main.rs, src/app.rs, src/orchestrate.rs, src/lifecycle.rs and src/host.rs together: the first request
-- to a proxy whose host is up.
use llm_wake_proxy.Base.{
  ℕ, ◌≡◌, ◌∙◌, ◌<◌, refl, ap, sym, subst, Bool, true, Option, none, some, List, ok, inl, inr,
  ok-injective,
}
use llm_wake_proxy.Config.{Env, from_env}
use llm_wake_proxy.Config.Types.{AppConfig}
use llm_wake_proxy.Config.Bounds.{from_env-IsValid}
use llm_wake_proxy.Http.{Response}
use llm_wake_proxy.Metrics.{inc_chat_requests}
use llm_wake_proxy.Lifecycle.Types.{
  LifecycleState, TunnelState, LifecycleRequest, LifecycleDecision, ObservedBackendState,
  LifecycleTiming, Services, default_status, backend_is_ready,
}
use llm_wake_proxy.Lifecycle.Ready.{ready_seen, observe_once-ready}
use llm_wake_proxy.Lifecycle.Tasks.Manager.{
  Manager, new_with_timing, ensure_backend, lifecycle_manager,
}
use llm_wake_proxy.Lifecycle.Tasks.Manager.Leading.{undisturbed, led_core, ensure_backend-leads}
use llm_wake_proxy.State.{LifecycleOrchestrator, AppState, production, lifecycle_for}
use llm_wake_proxy.Forward.{Json}
use llm_wake_proxy.Orchestrate.{Outside, execute, count, is_degraded_embeddings}
use llm_wake_proxy.Orchestrate.Success.{IsServing, execute-passes}
use llm_wake_proxy.App.{chat_completions}
use llm_wake_proxy.App.Requests.{Bodies, ChatCompletionRequest}
use llm_wake_proxy.App.Validation.{IsChatRequest, chat_completions-decides}
use llm_wake_proxy.Host
use llm_wake_proxy.Host.{HelperJson, is_ready, observe_backend}
use llm_wake_proxy.Host.Tunnel.{ensure_tunnel}
use llm_wake_proxy.Production.{
  Clock, chat_services, chat_helper, chat_tunnel, ssh_probe, production_services,
}
use llm_wake_proxy.Production.Proxy.{
  Shared, within, services_for, proxy_lifecycles, start_proxy, untouched, fresh_proxy,
  start_proxy-eq-ok,
}

module _ {W : Type 0} (system : Host.System W) (json : HelperJson) (clock : Clock W) where
  -- From one world to another: the host takes a connection on its ssh port, its helper says that the
  -- backend of chat is ready, and the tunnel comes up.
  pub record IsUp (config : AppConfig) (w w' : W) : Type 0 where
    pub probed : W
    pub seen : W
    pub observed : ObservedBackendState
    pub child : Option ℕ
    pub probes : is_ready system (ssh_probe config) w ≡ (ok true, probed)
    pub observes :
        observe_backend system json (chat_helper config) LifecycleRequest.chat probed
        ≡ (ok observed, seen)
    pub says_ready : observed.lifecycle ≡ LifecycleState.ready
    pub tunnels :
        ensure_tunnel system (chat_tunnel config) none seen ≡ (ok TunnelState.ready, child, w')

  -- The world that the first look leaves.
  abbrev pub held_by : Option ℕ → W → Shared W
  held_by child w = record { chat_child = child; embeddings_child = none; outer = w }

  module _ (timing : LifecycleTiming) (config : AppConfig) (w w' : W) (up : IsUp config w w') where
    abbrev chat_services_for : Services (Shared W)
    chat_services_for = services_for system json clock config LifecycleRequest.chat

    probe_up : chat_services_for.is_ready (untouched w) ≡ (ok true, held_by none up.probed)
    unfolding services_for within chat_services production_services
    probe_up = rw up.probes refl

    observe_up :
        chat_services_for.observe_backend LifecycleRequest.chat (held_by none up.probed)
        ≡ (ok up.observed, held_by none up.seen)
    unfolding services_for within chat_services production_services
    observe_up = rw up.observes refl

    tunnel_up :
        chat_services_for.ensure_tunnel (held_by none up.seen)
        ≡ (ok TunnelState.ready, held_by up.child w')
    unfolding services_for within chat_services production_services
    tunnel_up = rw up.tunnels refl

    first_call :
        (m : Manager) × (ensure_backend chat_services_for timing undisturbed LifecycleRequest.chat
            (new_with_timing default_status)
            (untouched w)
          ≡ (
            LifecycleDecision.ready
                (ready_seen chat_services_for timing up.observed default_status),
            m,
            held_by up.child w',
          ))
    unfolding backend_is_ready
    first_call = (
      _,
      ensure_backend-leads chat_services_for timing LifecycleRequest.chat default_status
          (untouched w) _ _ refl
          (observe_once-ready chat_services_for timing (some LifecycleRequest.chat)
            LifecycleRequest.chat up.observed default_status
            (led_core LifecycleRequest.chat default_status (untouched w)) (held_by none up.probed)
            (held_by none up.seen) (held_by up.child w') probe_up observe_up up.says_ready
            tunnel_up),
    )

module _ {W V U : Type 0} (system : Host.System W) (json : HelperJson) (clock : Clock W)
    (upstream_json : Json V) (bodies : Bodies U) (timing : LifecycleTiming)
    (outside : Outside (Shared W)) where
  -- The lifecycles of a proxy that is left alone.
  abbrev pub quiet_lifecycles : AppConfig → LifecycleOrchestrator Manager (Shared W)
  quiet_lifecycles config = proxy_lifecycles system json clock undisturbed timing config

  execute-awake :
      (config : AppConfig) (w w' : W) (up : IsUp system json clock config w w') (body : List ℕ)
      (stream : Bool) (response : Response)
      → 0 < config.cold_start_max_waiting
      → IsServing
          (quiet_lifecycles config)
          outside
          upstream_json
          LifecycleRequest.chat
          body
          stream
          config
          (held_by system json clock up.child w')
          response
      → (execute
          (quiet_lifecycles config)
          outside
          upstream_json
          LifecycleRequest.chat
          body
          stream
          (count inc_chat_requests (fresh_proxy config w))).0
        ≡ response
  unfolding production lifecycle_for proxy_lifecycles lifecycle_manager is_degraded_embeddings
  execute-awake config w w' up body stream response free serving =
      let (m, e) = first_call system json clock timing config w w' up in
      execute-passes (quiet_lifecycles config) outside upstream_json LifecycleRequest.chat body
        stream (count inc_chat_requests (fresh_proxy config w)) _ m
        (held_by system json clock up.child w') response free e refl serving

  -- A proxy that has just been started from its environment, whose host is up: it takes a connection on
  -- its ssh port, its helper says that the backend of chat is ready, and the tunnel comes up. If
  -- nothing else happens meanwhile, the scheduler admits the request and the upstream server answers
  -- it, then the first chat request, if it is one that the proxy accepts, gets what is made of the
  -- upstream server's answer.
  pub start_proxy-chat_completions :
      (env : Env) (config : AppConfig) (w w' : W) (up : IsUp system json clock config w w')
      (content_type : Option (List ℕ)) (body : List ℕ) (response : Response)
      (asked : IsChatRequest
        (quiet_lifecycles config)
        outside
        upstream_json
        bodies
        content_type
        body
        (fresh_proxy config w))
      → from_env env ≡ ok config
      → IsServing
          (quiet_lifecycles config)
          outside
          upstream_json
          LifecycleRequest.chat
          body
          asked.0.stream
          config
          (held_by system json clock up.child w')
          response
      → (start_proxy env w ≡ ok (fresh_proxy config w))
        × ((chat_completions
              (quiet_lifecycles config)
              outside
              upstream_json
              bodies
              content_type
              body
              (fresh_proxy config w)).0
            ≡ response)
  start_proxy-chat_completions env config w w' up content_type body response asked e serving = (
    start_proxy-eq-ok env config w e,
    elim (chat_completions-decides (quiet_lifecycles config) outside upstream_json bodies
        content_type body (fresh_proxy config w)) [
          | inl (p, j, f, a, done) ↦
              let same : p ≡ asked.0 = ok-injective p asked.0 (sym f ∙ asked.2) in
              ap (λ (out : Response × AppState Manager (Shared W)). out.0) done
              ∙ execute-awake config w w' up body p.stream response
                  (from_env-IsValid env config e).cold_start_positive
                  (subst
                    (λ (q : ChatCompletionRequest U).
                      IsServing (quiet_lifecycles config) outside upstream_json
                        LifecycleRequest.chat body q.stream config
                        (held_by system json clock up.child w') response)
                    (sym same) serving)
          | inr (refused, never) ↦ absurd (never asked)
        ],
  )
