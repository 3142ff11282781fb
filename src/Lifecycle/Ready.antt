-- ===== src/Lifecycle/Ready.antt =====
-- src/lifecycle.rs, LifecycleCore::observe_once: a look at a host that is up, with a backend that is ready.
use llm_wake_proxy.Base.{◌≡◌, refl, true, Option, ok}
use llm_wake_proxy.Lifecycle.Types.{
  LifecycleState, TunnelState, LifecycleRequest, BackendStatus, ObservedBackendState,
  LifecycleDecision, LifecycleTiming, Services, Core,
}
use llm_wake_proxy.Lifecycle.Observe.{
  adopt, observe_once, after_probe, after_observe, host_observed, after_tunnel, settle, publish,
  in_world,
}

module _ {W : Type 0} (sv : Services W) (timing : LifecycleTiming) where
  -- What such a look makes of the status.
  abbrev pub ready_seen : ObservedBackendState → BackendStatus → BackendStatus
  ready_seen observed status = record (adopt sv timing observed status) {
    tunnel = TunnelState.ready;
  }

  tunnelled_ready :
      (observed : ObservedBackendState) (status : BackendStatus) (c : Core W) (w : W)
      → observed.lifecycle ≡ LifecycleState.ready
      → sv.ensure_tunnel c.world ≡ (ok TunnelState.ready, w)
      → host_observed sv timing observed status c ≡ (
        LifecycleDecision.ready (ready_seen observed status),
        record c { status = ready_seen observed status; world = w },
      )
  unfolding host_observed after_tunnel settle publish
  tunnelled_ready observed status c w e t = rw e (rw t refl)

  pub observe_once-ready :
      (wake_request : Option LifecycleRequest) (observe_request : LifecycleRequest)
      (observed : ObservedBackendState) (status : BackendStatus) (c : Core W) (w₁ w₂ w₃ : W)
      → sv.is_ready c.world ≡ (ok true, w₁)
      → sv.observe_backend observe_request w₁ ≡ (ok observed, w₂)
      → observed.lifecycle ≡ LifecycleState.ready
      → sv.ensure_tunnel w₂ ≡ (ok TunnelState.ready, w₃)
      → observe_once sv timing wake_request observe_request status c ≡ (
        LifecycleDecision.ready (ready_seen observed status),
        record c { status = ready_seen observed status; world = w₃ },
      )
  unfolding observe_once after_probe after_observe
  observe_once-ready wake_request observe_request observed status c w₁ w₂ w₃ p o r t =
      rw p (rw o (tunnelled_ready observed status (in_world w₂ c) w₃ r t))
