-- ===== src/Lifecycle/Soundness.antt =====
-- What one look at the host decides and publishes (LifecycleCore::observe_once).
use llm_wake_proxy.Base.{
  ◌≡◌, refl, Bool, true, false, Option, none, some, Result, ok, err, arith, inl, inr, Result-cases,
}
use llm_wake_proxy.Lifecycle.Types.{
  LifecycleState, TunnelState, LifecycleRequest, LifecycleError, BackendStatus,
  ObservedBackendState, LifecycleDecision, LifecycleTiming, Services, Core, should_request_wake,
  backend_is_ready,
}
use llm_wake_proxy.Lifecycle.Observe.{
  publish, host_asleep, host_observed, after_observe, after_probe, observe_once,
}

-- What a caller may rely on, for each decision, from the core before and after.
abbrev pub IsSound : {W : Type 0} → LifecycleTiming → Core W → LifecycleDecision × Core W → Type 0
IsSound timing c (LifecycleDecision.ready status, c') =
    (backend_is_ready status ≡ true) × (c'.status ≡ status) × (c'.bootstrap ≡ c.bootstrap)
IsSound timing c (LifecycleDecision.warming status retry, c') =
    (backend_is_ready status ≡ false)
    × (c'.status ≡ status)
    × (retry ≡ timing.retry_after_secs)
    × (c'.bootstrap ≡ c.bootstrap)
IsSound timing c (LifecycleDecision.failed status error, c') =
    (status.lifecycle ≡ LifecycleState.error)
    × (status.tunnel ≡ TunnelState.down)
    × (c'.status ≡ c.status)
    × (c'.bootstrap ≡ c.bootstrap)

module _ {W : Type 0} (sv : Services W) (timing : LifecycleTiming) where
  host_asleep-IsSound :
      (wake_request : Option LifecycleRequest) (status : BackendStatus) (c : Core W)
      → IsSound timing c (host_asleep sv timing wake_request status c)
  unfolding host_asleep publish backend_is_ready should_request_wake
  host_asleep-IsSound none status c = ground arith
  host_asleep-IsSound (some r) status c = ground arith

  host_observed-IsSound :
      (observed : ObservedBackendState) (status : BackendStatus) (c : Core W)
      → IsSound timing c (host_observed sv timing observed status c)
  unfolding host_observed publish backend_is_ready
  host_observed-IsSound observed status c = ground arith

  after_probe-IsSound :
      (wake_request : Option LifecycleRequest) (observe_request : LifecycleRequest)
      (status : BackendStatus) (c : Core W) (r : Result Bool LifecycleError)
      → IsSound timing c (after_probe sv timing wake_request observe_request status c r)
  unfolding after_probe
  after_probe-IsSound wake_request observe_request status c (err e) = (refl, refl, refl, refl)
  after_probe-IsSound wake_request observe_request status c (ok false) =
      host_asleep-IsSound wake_request status c
  after_probe-IsSound wake_request observe_request status c (ok true) =
      elim (Result-cases (sv.observe_backend observe_request c.world).0) [
        | inl (observed, e) ↦ rw (e, after_observe) (host_observed-IsSound observed status _)
        | inr (error, e) ↦ rw (e, after_observe) (refl, refl, refl, refl)
      ]

  -- Whatever the services answer: `ready` is said of a backend that is ready and published as such,
  -- `warming` of one that is not ready and published, with the configured delay; a failure leaves
  -- the published status alone and reports an error with the tunnel down. The bootstrap record is
  -- never touched.
  pub observe_once-IsSound :
      (wake_request : Option LifecycleRequest) (observe_request : LifecycleRequest)
      (status : BackendStatus) (c : Core W)
      → IsSound timing c (observe_once sv timing wake_request observe_request status c)
  unfolding observe_once
  observe_once-IsSound wake_request observe_request status c =
      after_probe-IsSound wake_request observe_request status _ (sv.is_ready c.world).0
