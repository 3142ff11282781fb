-- ===== src/Lifecycle/Leases.antt =====
-- src/lifecycle.rs, LifecycleCore::observe_once: the lease in the statuses that it makes.
use llm_wake_proxy.Base.{
  ◌≡◌, Bool, true, false, Option, none, some, arith, Result, ok, err, Result-cases, inl, inr,
}
use llm_wake_proxy.Lifecycle.Types.{
  LifecycleRequest, LifecycleError, BackendStatus, ObservedBackendState, LifecycleDecision,
  LifecycleTiming, Services, Core, should_request_wake,
}
use llm_wake_proxy.Lifecycle.Observe.{
  publish, host_asleep, host_observed, after_observe, after_probe, observe_once,
}

abbrev pub HasNoLease : BackendStatus → Type 0
HasNoLease status = status.lease_expires_at ≡ none

abbrev pub status_of : LifecycleDecision → BackendStatus
status_of (LifecycleDecision.ready status) = status
status_of (LifecycleDecision.warming status retry) = status
status_of (LifecycleDecision.failed status error) = status

module _ {W : Type 0} (sv : Services W) (timing : LifecycleTiming) where
  abbrev pub IsLeaseless : LifecycleDecision × Core W → Type 0
  IsLeaseless (d, c) = HasNoLease (status_of d) × HasNoLease c.status

  host_asleep-IsLeaseless :
      (wake_request : Option LifecycleRequest) (status : BackendStatus) (c : Core W)
      → HasNoLease status
      → HasNoLease c.status
      → IsLeaseless (host_asleep sv timing wake_request status c)
  unfolding host_asleep publish should_request_wake
  host_asleep-IsLeaseless none status c h k = ground arith
  host_asleep-IsLeaseless (some r) status c h k = ground arith

  host_observed-IsLeaseless :
      (observed : ObservedBackendState) (status : BackendStatus) (c : Core W)
      → HasNoLease status
      → HasNoLease c.status
      → IsLeaseless (host_observed sv timing observed status c)
  unfolding host_observed publish
  host_observed-IsLeaseless observed status c h k = ground arith

  after_probe-IsLeaseless :
      (wake_request : Option LifecycleRequest) (observe_request : LifecycleRequest)
      (status : BackendStatus) (c : Core W) (r : Result Bool LifecycleError)
      → HasNoLease status
      → HasNoLease c.status
      → IsLeaseless (after_probe sv timing wake_request observe_request status c r)
  unfolding after_probe
  after_probe-IsLeaseless wake_request observe_request status c (err e) h k = (h, k)
  after_probe-IsLeaseless wake_request observe_request status c (ok false) h k =
      host_asleep-IsLeaseless wake_request status c h k
  after_probe-IsLeaseless wake_request observe_request status c (ok true) h k =
      elim (Result-cases (sv.observe_backend observe_request c.world).0) [
        | inl (observed, e) ↦
            rw (e, after_observe) (host_observed-IsLeaseless observed status _ h k)
        | inr (error, e) ↦ rw (e, after_observe) (h, k)
      ]

  pub observe_once-IsLeaseless :
      (wake_request : Option LifecycleRequest) (observe_request : LifecycleRequest)
      (status : BackendStatus) (c : Core W)
      → HasNoLease status
      → HasNoLease c.status
      → IsLeaseless (observe_once sv timing wake_request observe_request status c)
  unfolding observe_once
  observe_once-IsLeaseless wake_request observe_request status c h k =
      after_probe-IsLeaseless wake_request observe_request status _ (sv.is_ready c.world).0 h k
