-- ===== src/Lifecycle/Wake.antt =====
-- When no wake request is sent (LifecycleCore::observe_once), and what becomes of a backend that
-- `mark_warming` has marked.
use llm_wake_proxy.Base.{
  ℕ, suc, ◌≤◌, ◌≡◌, refl, Bool, true, false, Option, none, some, Result, ok, err, ◌⊎◌, inl, inr,
  arith,
}
use llm_wake_proxy.Lifecycle.Types.{
  LifecycleRequest, LifecycleError, BackendStatus, LifecycleTiming, Services, Core,
  should_request_wake, saturating_add,
}
use llm_wake_proxy.Lifecycle.Observe.{host_asleep, after_probe, observe_once}
use llm_wake_proxy.Lifecycle.Bootstrap.{
  mark_warming, remaining_secs, bootstrap_deadline, deadline_fits, start_bootstrap, expire,
}

module _ {W : Type 0} (sv : Services W) (timing : LifecycleTiming) where
  -- The same services with another way to send a wake request.
  abbrev pub with_wake : (LifecycleRequest → W → Result (Unit {0}) LifecycleError × W) → Services W
  with_wake wake = record sv { request_wake = wake }

  host_asleep-with_wake :
      (wake : LifecycleRequest → W → Result (Unit {0}) LifecycleError × W)
      (wake_request : Option LifecycleRequest) (status : BackendStatus) (c : Core W)
      → (wake_request ≡ none) ⊎ (should_request_wake status.lifecycle ≡ false)
      → host_asleep (with_wake wake) timing wake_request status c
        ≡ host_asleep sv timing wake_request status c
  unfolding host_asleep
  host_asleep-with_wake wake none status c h = refl
  host_asleep-with_wake wake (some r) status c (inl e) = cc
  host_asleep-with_wake wake (some r) status c (inr e) = rw e

  after_probe-with_wake :
      (wake : LifecycleRequest → W → Result (Unit {0}) LifecycleError × W)
      (wake_request : Option LifecycleRequest) (observe_request : LifecycleRequest)
      (status : BackendStatus) (c : Core W) (r : Result Bool LifecycleError)
      → (wake_request ≡ none) ⊎ (should_request_wake status.lifecycle ≡ false)
      → after_probe (with_wake wake) timing wake_request observe_request status c r
        ≡ after_probe sv timing wake_request observe_request status c r
  unfolding after_probe
  after_probe-with_wake wake wake_request observe_request status c (err e) h = refl
  after_probe-with_wake wake wake_request observe_request status c (ok false) h =
      host_asleep-with_wake wake wake_request status c h
  after_probe-with_wake wake wake_request observe_request status c (ok true) h = refl

  -- A look made for no request, or at a status that is `warming`, sends no wake request: it comes
  -- out the same whatever sending one would do.
  pub observe_once-no_wake :
      (wake : LifecycleRequest → W → Result (Unit {0}) LifecycleError × W)
      (wake_request : Option LifecycleRequest) (observe_request : LifecycleRequest)
      (status : BackendStatus) (c : Core W)
      → (wake_request ≡ none) ⊎ (should_request_wake status.lifecycle ≡ false)
      → observe_once (with_wake wake) timing wake_request observe_request status c
        ≡ observe_once sv timing wake_request observe_request status c
  unfolding observe_once
  observe_once-no_wake wake wake_request observe_request status c h =
      after_probe-with_wake wake wake_request observe_request status _ _ h

  -- After `mark_warming`, the look that a new bootstrap makes sends no wake request, also if the
  -- host does not answer.
  pub mark_warming-no_wake :
      (wake : LifecycleRequest → W → Result (Unit {0}) LifecycleError × W)
      (wake_request : Option LifecycleRequest) (observe_request : LifecycleRequest) (c : Core W)
      → let m = mark_warming c in
        observe_once (with_wake wake) timing wake_request observe_request m.status m
        ≡ observe_once sv timing wake_request observe_request m.status m
  unfolding mark_warming
  mark_warming-no_wake wake wake_request observe_request c =
      observe_once-no_wake wake wake_request observe_request _ _
        (inr (unfold should_request_wake in refl))

  nothing_remains :
      (c : Core W) (t : ℕ)
      → c.status.last_wake_attempt_at ≡ some t
      → saturating_add t timing.hard_boot_deadline_secs ≤ sv.now c.world
      → remaining_secs sv timing c ≡ 0
  unfolding remaining_secs
  nothing_remains c t stamped old = rw stamped (omega arith)

  -- If the boot deadline counted from the last wake request on record has passed, the background
  -- bootstrap ends in its first round, without a look at the host: it publishes the error.
  pub start_bootstrap-stale_wake :
      (fuel : ℕ) (c : Core W) (t : ℕ)
      → c.status.last_wake_attempt_at ≡ some t
      → saturating_add t timing.hard_boot_deadline_secs ≤ sv.now c.world
      → start_bootstrap sv timing (suc fuel) c ≡ some (expire c)
  unfolding start_bootstrap bootstrap_deadline deadline_fits
  start_bootstrap-stale_wake fuel c t stamped old =
      rw (nothing_remains c t stamped old) (ground arith)
