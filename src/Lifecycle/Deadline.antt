-- ===== src/Lifecycle/Deadline.antt =====
-- The background bootstrap ends (LifecycleCore::start_bootstrap).
use llm_wake_proxy.Base.{
  ℕ, zero, suc, ◌+◌, ◌-◌, ◌≤◌, ◌<◌, ◌≡◌, ◌∙◌, refl, Bool, true, false, none, some, Result, ok, err,
  ◌⊎◌, inl, inr, arith, leb, Bool-cases, Result-cases,
}
use llm_wake_proxy.Lifecycle.Types.{
  LifecycleState, TunnelState, LifecycleRequest, LifecycleError, BackendStatus,
  ObservedBackendState, LifecycleDecision, LifecycleTiming, Services, Core, backend_is_ready,
}
use llm_wake_proxy.Lifecycle.Observe.{
  publish, after_observe, host_observed, after_probe, observe_once,
}
use llm_wake_proxy.Lifecycle.Bootstrap.{
  Round, done, again, pause, after_round, expire, look, boot_round, boot_loop, bootstrap_deadline,
  deadline_fits, start_bootstrap,
}
use llm_wake_proxy.Lifecycle.Soundness.{IsSound, observe_once-IsSound}

-- What the model relies on of the runtime: no service turns the clock back, and `sleep` lasts at
-- least as long as it was told to.
pub record IsTimely {W : Type 0} (sv : Services W) : Type 0 where
  pub probe_time : (w : W) → sv.instant w ≤ sv.instant (sv.is_ready w).1
  pub observe_time :
      (r : LifecycleRequest) (w : W) → sv.instant w ≤ sv.instant (sv.observe_backend r w).1
  pub tunnel_time : (w : W) → sv.instant w ≤ sv.instant (sv.ensure_tunnel w).1
  pub sleep_time : (d : ℕ) (w : W) → sv.instant w + d ≤ sv.instant (sv.sleep d w)

-- How a bootstrap leaves the core: it is over, and the backend is ready, or the error is recorded.
abbrev pub IsFinished : {W : Type 0} → Core W → Type 0
IsFinished c =
    (c.bootstrap.active ≡ false)
    × (((backend_is_ready c.status ≡ true) × (c.bootstrap.last_error ≡ none))
        ⊎ ((c.status.lifecycle ≡ LifecycleState.error)
            × (c.status.tunnel ≡ TunnelState.down)
            × ((e : LifecycleError) × (c.bootstrap.last_error ≡ some e))))

module _ {W : Type 0} (sv : Services W) (timing : LifecycleTiming) (timely : IsTimely sv) where
  host_observed-time :
      (observed : ObservedBackendState) (status : BackendStatus) (c : Core W)
      → sv.instant c.world ≤ sv.instant (host_observed sv timing observed status c).1.world
  unfolding host_observed publish
  host_observed-time observed status c = ground (arith, timely.tunnel_time c.world)

  after_probe-time :
      (observe_request : LifecycleRequest) (status : BackendStatus) (c : Core W)
      (r : Result Bool LifecycleError)
      → sv.instant c.world
        ≤ sv.instant (after_probe sv timing none observe_request status c r).1.world
  unfolding after_probe publish
  after_probe-time observe_request status c (err e) = omega arith
  after_probe-time observe_request status c (ok false) = omega arith
  after_probe-time observe_request status c (ok true) =
      elim (Result-cases (sv.observe_backend observe_request c.world).0) [
        | inl (observed, e) ↦
            rw (e, after_observe)
              (omega (
                arith,
                timely.observe_time observe_request c.world,
                host_observed-time observed status
                    (record c { world = (sv.observe_backend observe_request c.world).1 }),
              ))
        | inr (error, e) ↦
            rw (e, after_observe) (omega (arith, timely.observe_time observe_request c.world))
      ]

  observe_once-time :
      (observe_request : LifecycleRequest) (status : BackendStatus) (c : Core W)
      → sv.instant c.world
        ≤ sv.instant (observe_once sv timing none observe_request status c).1.world
  unfolding observe_once
  observe_once-time observe_request status c = omega (
    arith,
    timely.probe_time c.world,
    after_probe-time observe_request status (record c { world = (sv.is_ready c.world).1 })
        (sv.is_ready c.world).0,
  )

  -- A round ends the bootstrap properly, or takes time before the deadline.
  abbrev RoundOk : ℕ → Core W → Round W → Type 0
  RoundOk deadline c (done c') = IsFinished c'
  RoundOk deadline c (again c') =
      (sv.instant c.world < sv.instant c'.world) × (sv.instant c.world < deadline)

  after_round-RoundOk :
      (deadline : ℕ) (b c : Core W) (out : LifecycleDecision × Core W)
      → sv.instant b.world < sv.instant out.1.world
      → sv.instant b.world < deadline
      → IsSound timing c out
      → RoundOk deadline b (after_round out)
  unfolding after_round
  after_round-RoundOk deadline b c (LifecycleDecision.ready status, c') later early s = ground arith
  after_round-RoundOk deadline b c (LifecycleDecision.failed status e, c') later early s =
      (refl, inr (s.0, s.1, (e, refl)))
  after_round-RoundOk deadline b c (LifecycleDecision.warming status retry, c') later early s =
      (later, early)

  look-RoundOk :
      (deadline : ℕ) (b c : Core W)
      → sv.instant b.world < sv.instant c.world
      → sv.instant b.world < deadline
      → RoundOk deadline b (look sv timing c)
  unfolding look
  look-RoundOk deadline b c later early =
      after_round-RoundOk deadline b c _
        (omega (arith, observe_once-time c.bootstrap.observe_request c.status c)) early
        (observe_once-IsSound sv timing none c.bootstrap.observe_request c.status c)

  expire-IsFinished : (c : Core W) → IsFinished (expire c)
  unfolding expire
  expire-IsFinished c = (refl, inr (refl, refl, (_, refl)))

  pause-time :
      (c : Core W)
      → 0 < timing.bootstrap_poll_interval_millis
      → sv.instant c.world < sv.instant (pause sv timing c).world
  unfolding pause
  pause-time c h = ground (arith, timely.sleep_time timing.bootstrap_poll_interval_millis c.world)

  boot_round-RoundOk :
      (deadline : ℕ) (c : Core W)
      → 0 < timing.bootstrap_poll_interval_millis
      → RoundOk deadline c (boot_round sv timing deadline c)
  unfolding boot_round
  boot_round-RoundOk deadline c h = elim (Bool-cases (leb deadline (sv.instant c.world))) [
    | inl past ↦ rw past (expire-IsFinished c)
    | inr early ↦
        rw early (elim (Bool-cases (leb deadline (sv.instant (pause sv timing c).world))) [
          | inl past ↦ rw past (expire-IsFinished (pause sv timing c))
          | inr still ↦
              rw still (look-RoundOk deadline c (pause sv timing c) (pause-time c h) (ground arith))
        ])
  ]

  boot_loop-again :
      (fuel deadline : ℕ) (c c' : Core W)
      → boot_round sv timing deadline c ≡ again c'
      → boot_loop sv timing (suc fuel) deadline c ≡ boot_loop sv timing fuel deadline c'
  unfolding boot_loop
  boot_loop-again fuel deadline c c' e = rw (e, boot_loop)

  boot_loop-done :
      (fuel deadline : ℕ) (c c' : Core W)
      → boot_round sv timing deadline c ≡ done c'
      → boot_loop sv timing (suc fuel) deadline c ≡ some c'
  unfolding boot_loop
  boot_loop-done fuel deadline c c' e = rw (e, boot_loop)

  -- More fuel than there are milliseconds to the deadline is enough: the loop ends, finished.
  boot_loop-IsFinished :
      (fuel deadline : ℕ) (c : Core W)
      → 0 < timing.bootstrap_poll_interval_millis
      → deadline - sv.instant c.world < fuel
      → (c' : Core W) × (boot_loop sv timing fuel deadline c ≡ some c') × IsFinished c'
  boot_loop-IsFinished zero deadline c h enough = elim enough [ ]
  boot_loop-IsFinished (suc fuel) deadline c h enough =
      go (boot_round sv timing deadline c) refl (boot_round-RoundOk deadline c h)
        (λ c'. boot_loop-IsFinished fuel deadline c' h)
    where
      go :
          (r : Round W)
          → boot_round sv timing deadline c ≡ r
          → RoundOk deadline c r
          → ((c' : Core W)
              → deadline - sv.instant c'.world < fuel
              → (c'' : Core W) × (boot_loop sv timing fuel deadline c' ≡ some c'') × IsFinished c'')
          → (c' : Core W) × (boot_loop sv timing (suc fuel) deadline c ≡ some c') × IsFinished c'
      go (done c') e f ih = (c', boot_loop-done fuel deadline c c' e, f)
      go (again c') e f ih =
          let (c'', e', f') = ih c' (omega arith) in
          (c'', boot_loop-again fuel deadline c c' e ∙ e', f')

  -- The background bootstrap ends whatever the services answer, if no service turns the clock back,
  -- `sleep` lasts at least as long as it was told to, the poll interval is not zero and the deadline fits
  -- in an Instant: more fuel than there are milliseconds to the deadline gives a result. The bootstrap is
  -- then no longer active, and either the backend is published as ready with no error on record, or it
  -- is published as failed with the tunnel down and an error on record.
  pub start_bootstrap-IsFinished :
      (fuel : ℕ) (c : Core W)
      → 0 < timing.bootstrap_poll_interval_millis
      → deadline_fits sv timing c ≡ true
      → bootstrap_deadline sv timing c - sv.instant c.world < fuel
      → (c' : Core W) × (start_bootstrap sv timing fuel c ≡ some c') × IsFinished c'
  unfolding start_bootstrap
  start_bootstrap-IsFinished fuel c h fits enough =
      rw fits (boot_loop-IsFinished fuel (bootstrap_deadline sv timing c) c h enough)
