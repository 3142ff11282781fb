-- ===== src/Lifecycle/Observe.antt =====
-- src/lifecycle.rs, LifecycleCore::observe_once: one look at the host, in the order of its awaits.
-- Each stage after the first is a function of the result of the service call before it.
use llm_wake_proxy.Base.{
  Bool, true, false, ◌&&◌, Option, none, some, Result, ok, err, unwrap_or, if◌then◌else◌,
}
use llm_wake_proxy.Lifecycle.Types.{
  LifecycleState, TunnelState, LifecycleRequest, LifecycleError, BackendStatus,
  ObservedBackendState, LifecycleDecision, LifecycleTiming, Services, Core, should_request_wake,
  is_ready_state, is_error, is_tunnel_ready,
}

module _ {W : Type 0} where
  unfoldable pub publish : BackendStatus → Core W → Core W
  publish status c = record c { status = status }

  abbrev pub in_world : W → Core W → Core W
  in_world w c = record c { world = w }

module _ {W : Type 0} (sv : Services W) (timing : LifecycleTiming) where
  -- The status is published, and the caller is told to come back later.
  unfoldable pub publish_warming : BackendStatus → Core W → LifecycleDecision × Core W
  unfolding publish
  publish_warming status c =
      (LifecycleDecision.warming status timing.retry_after_secs, publish status c)

  -- An error while the host is looked at: nothing is published here.
  abbrev pub fail_with : BackendStatus → LifecycleError → Core W → LifecycleDecision × Core W
  fail_with status error c = (
    LifecycleDecision.failed
        (record status { lifecycle = LifecycleState.error; tunnel = TunnelState.down }) error,
    c,
  )

  warm_without_wake : BackendStatus → Core W → LifecycleDecision × Core W
  unfolding publish_warming
  warm_without_wake status c =
      publish_warming
        (record status { lifecycle = LifecycleState.warming; tunnel = TunnelState.down }) c

  after_wake :
      BackendStatus → Core W → Result (Unit {0}) LifecycleError → LifecycleDecision × Core W
  unfolding warm_without_wake
  after_wake status c (err error) = fail_with status error c
  after_wake status c (ok _) = warm_without_wake status c

  send_wake : LifecycleRequest → BackendStatus → Core W → LifecycleDecision × Core W
  unfolding after_wake
  send_wake wake_request status c =
      let stamped : BackendStatus = record status {
        last_wake_attempt_at = some (sv.now c.world);
        tunnel = TunnelState.down;
      } in
      let (r, w) = sv.request_wake wake_request c.world in after_wake stamped (in_world w c) r

  -- `if !ssh_ready { … }`
  unfoldable pub host_asleep :
      Option LifecycleRequest → BackendStatus → Core W → LifecycleDecision × Core W
  unfolding send_wake warm_without_wake
  host_asleep none status c = warm_without_wake status c
  host_asleep (some wake_request) status c =
      if should_request_wake status.lifecycle
      then send_wake wake_request status c
      else warm_without_wake status c

  -- The end of the function, with the tunnel's state.
  unfoldable pub settle : BackendStatus → TunnelState → Core W → LifecycleDecision × Core W
  unfolding publish publish_warming
  settle status tunnel c =
      let seen : BackendStatus = record status {
        tunnel = tunnel;
        lifecycle = if is_tunnel_ready tunnel then status.lifecycle else LifecycleState.warming;
      } in
      if is_ready_state seen.lifecycle && is_tunnel_ready seen.tunnel
      then (LifecycleDecision.ready seen, publish seen c)
      else publish_warming seen c

  unfoldable pub after_tunnel :
      BackendStatus → Core W → Result TunnelState LifecycleError → LifecycleDecision × Core W
  unfolding settle
  after_tunnel status c (err error) = fail_with status error c
  after_tunnel status c (ok tunnel) = settle status tunnel c

  abbrev pub adopt : ObservedBackendState → BackendStatus → BackendStatus
  adopt observed status = record status {
    lifecycle = observed.lifecycle;
    chat = observed.chat;
    embeddings = observed.embeddings;
    embeddings_reason = observed.embeddings_reason;
    llama_server_unit = observed.llama_server_unit;
    inhibit_unit = observed.inhibit_unit;
  }

  -- What follows a successful `observe_backend`.
  unfoldable pub host_observed :
      ObservedBackendState → BackendStatus → Core W → LifecycleDecision × Core W
  unfolding publish_warming after_tunnel
  host_observed observed status c =
      let seen : BackendStatus = adopt observed status in
      if is_error observed.lifecycle
      then (
        LifecycleDecision.failed (record seen { tunnel = TunnelState.down })
            (record { message = unwrap_or observed.error "backend reported error state" }),
        c,
      )
      else if is_ready_state observed.lifecycle
      then (let (r, w) = sv.ensure_tunnel c.world in after_tunnel seen (in_world w c) r)
      else publish_warming (record seen { tunnel = TunnelState.down }) c

  unfoldable pub after_observe :
      BackendStatus
      → Core W
      → Result ObservedBackendState LifecycleError
      → LifecycleDecision × Core W
  unfolding host_observed
  after_observe status c (err error) = fail_with status error c
  after_observe status c (ok observed) = host_observed observed status c

  unfoldable pub after_probe :
      Option LifecycleRequest
      → LifecycleRequest
      → BackendStatus
      → Core W
      → Result Bool LifecycleError
      → LifecycleDecision × Core W
  unfolding host_asleep after_observe
  after_probe wake_request observe_request status c (err error) = fail_with status error c
  after_probe wake_request observe_request status c (ok false) = host_asleep wake_request status c
  after_probe wake_request observe_request status c (ok true) =
      let (r, w) = sv.observe_backend observe_request c.world in
      after_observe status (in_world w c) r

  unfoldable pub observe_once :
      Option LifecycleRequest
      → LifecycleRequest
      → BackendStatus
      → Core W
      → LifecycleDecision × Core W
  unfolding after_probe
  observe_once wake_request observe_request status c =
      let (r, w) = sv.is_ready c.world in
      after_probe wake_request observe_request status (in_world w c) r
