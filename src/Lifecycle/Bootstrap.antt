-- ===== src/Lifecycle/Bootstrap.antt =====
-- src/lifecycle.rs, LifecycleCore: who starts a bootstrap, its rounds in the background and its end,
-- what a waiting request reads, and the operations of LifecycleManager that do not wait.
use Prim.Native.String.{String}
use llm_wake_proxy.Base.{
  ℕ, zero, suc, ◌+◌, ◌-◌, ◌*◌, Bool, true, false, not, ◌&&◌, Option, none, some, unwrap_or, ltb,
  leb, ◌==◌, if◌then◌else◌,
}
use llm_wake_proxy.Lifecycle.Types.{
  LifecycleState, CapabilityState, TunnelState, LifecycleRequest, LifecycleError, BackendStatus,
  LifecycleDecision, LifecycleTiming, Services, BootstrapState, Core, is_warming, is_error,
  backend_is_ready, request_priority, saturating_add,
}
use llm_wake_proxy.Lifecycle.Observe.{publish, observe_once}

-- The state of the mutex after the lock is released.
unfoldable pub start_or_join : LifecycleRequest → BootstrapState → Bool × BootstrapState
unfolding request_priority
start_or_join request b =
    if b.active
    then (
      false,
      (if ltb (request_priority b.observe_request) (request_priority request)
          then record b { observe_request = request }
          else b),
    )
    else (true, record { active = true; last_error = none; observe_request = request })

unfoldable pub bootstrap_wait_status : BackendStatus → Bool → BackendStatus
bootstrap_wait_status status stale_bootstrap_view =
    if stale_bootstrap_view
    then record status { lifecycle = LifecycleState.warming; tunnel = TunnelState.down }
    else status

abbrev pub boot_deadline_error : LifecycleError
boot_deadline_error = record { message = "backend did not become ready before the boot deadline" }

abbrev pub reported_error : LifecycleError
reported_error = record { message = "backend reported error state" }

unfoldable pub is_stale_view : BackendStatus → BootstrapState → Bool
is_stale_view status b = b.active && not (is_warming status.lifecycle)

module _ {W : Type 0} where
  unfoldable pub start_or_join_bootstrap : LifecycleRequest → Core W → Bool × Core W
  unfolding start_or_join
  start_or_join_bootstrap request c =
      let (should_start, b) = start_or_join request c.bootstrap in
      (should_start, record c { bootstrap = b })

  unfoldable pub finish_bootstrap : BackendStatus → Option LifecycleError → Core W → Core W
  unfolding publish
  finish_bootstrap status error c = record (publish status c) {
    bootstrap = record (c.bootstrap) { last_error = error; active = false };
  }

  -- `LifecycleManager::degrade_embeddings`
  unfoldable pub degrade_embeddings : String → Core W → Core W
  unfolding publish
  degrade_embeddings reason c =
      publish
        (record (c.status) {
          embeddings = CapabilityState.degraded;
          embeddings_reason = some reason;
        })
        c

  -- `LifecycleManager::mark_warming`
  unfoldable pub mark_warming : Core W → Core W
  unfolding publish
  mark_warming c =
      publish (record (c.status) { lifecycle = LifecycleState.warming; tunnel = TunnelState.down })
        c

  -- The status that the boot deadline leaves.
  abbrev pub expired_status : Core W → BackendStatus
  expired_status c = record (c.status) {
    lifecycle = LifecycleState.error;
    tunnel = TunnelState.down;
  }

-- One round of the background loop: it ends, or goes on.
pub data Round (W : Type 0) : Type 0 where
  done again : Core W → Round W

module _ {W : Type 0} where
  unfoldable pub after_round : LifecycleDecision × Core W → Round W
  unfolding finish_bootstrap
  after_round (LifecycleDecision.ready status, c) = done (finish_bootstrap status none c)
  after_round (LifecycleDecision.failed status error, c) =
      done (finish_bootstrap status (some error) c)
  after_round (LifecycleDecision.warming status retry, c) = again c

  unfoldable pub expire : Core W → Core W
  unfolding finish_bootstrap
  expire c = finish_bootstrap (expired_status c) (some boot_deadline_error) c

-- The last millisecond of an Instant, which counts its seconds in 63 bits.
abbrev pub instant_max : ℕ
instant_max = 9223372036854775807999

module _ {W : Type 0} (sv : Services W) (timing : LifecycleTiming) where
  -- The seconds that a bootstrap has left.
  unfoldable pub remaining_secs : Core W → ℕ
  unfolding saturating_add
  remaining_secs c =
      let now = sv.now c.world in
      let wake_started_at : ℕ = unwrap_or c.status.last_wake_attempt_at now in
      saturating_add wake_started_at timing.hard_boot_deadline_secs - now

  -- `Instant::now() + Duration::from_secs(…)`, in milliseconds, where it fits.
  unfoldable pub bootstrap_deadline : Core W → ℕ
  unfolding remaining_secs
  bootstrap_deadline c = sv.instant c.world + 1000 * remaining_secs c

  -- Whether the sum fits in an Instant. Where it does not, the source panics.
  unfoldable pub deadline_fits : Core W → Bool
  unfolding remaining_secs
  deadline_fits c = leb (1000 * remaining_secs c) (instant_max - sv.instant c.world)

  -- `if !poll_interval.is_zero() { sleep(poll_interval).await }`
  unfoldable pub pause : Core W → Core W
  pause c =
      if timing.bootstrap_poll_interval_millis == 0
      then c
      else record c { world = sv.sleep timing.bootstrap_poll_interval_millis c.world }

  abbrev pub is_past : ℕ → Core W → Bool
  is_past deadline c = leb deadline (sv.instant c.world)

  unfoldable pub look : Core W → Round W
  unfolding after_round observe_once
  look c = after_round (observe_once sv timing none c.bootstrap.observe_request c.status c)

  unfoldable pub boot_round : ℕ → Core W → Round W
  unfolding expire pause look
  boot_round deadline c =
      if is_past deadline c
      then done (expire c)
      else (let c' = pause c in if is_past deadline c' then done (expire c') else look c')

  -- The loop, on fuel: `none` means that the fuel ran out.
  unfoldable pub boot_loop : ℕ → ℕ → Core W → Option (Core W)
  unfolding boot_round
  boot_loop zero deadline c = none
  boot_loop (suc fuel) deadline c = elim (boot_round deadline c) [
    | done c' ↦ some c'
    | again c' ↦ boot_loop fuel deadline c'
  ]

  -- A deadline that does not fit is the end of the task, which then gives `none` for any fuel.
  unfoldable pub start_bootstrap : ℕ → Core W → Option (Core W)
  unfolding boot_loop bootstrap_deadline deadline_fits
  start_bootstrap fuel c = if deadline_fits c then boot_loop fuel (bootstrap_deadline c) c else none

  -- One pass of `wait_for_ready_or_timeout`, up to the next await: `none` means that it goes on.
  unfoldable pub wait_view : ℕ → ℕ → BackendStatus → BootstrapState → Option LifecycleDecision
  unfolding is_stale_view backend_is_ready bootstrap_wait_status
  wait_view wait_deadline now status b =
      let stale = is_stale_view status b in
      if not stale && backend_is_ready status
      then some (LifecycleDecision.ready status)
      else if not stale && is_error status.lifecycle
      then some (LifecycleDecision.failed status (unwrap_or b.last_error reported_error))
      else if leb wait_deadline now
      then some
          (LifecycleDecision.warming (bootstrap_wait_status status stale) timing.retry_after_secs)
      else none

  -- The timeout, or the channel's end, while the request waits for a change.
  unfoldable pub wait_elapsed : BackendStatus → Bool → LifecycleDecision
  unfolding bootstrap_wait_status
  wait_elapsed status stale =
      LifecycleDecision.warming (bootstrap_wait_status status stale) timing.retry_after_secs

  -- In milliseconds, for a budget with which the sum fits in an Instant; the source panics at others.
  unfoldable pub wait_deadline_of : Core W → ℕ
  wait_deadline_of c = sv.instant c.world + 1000 * timing.cold_wait_budget_secs
