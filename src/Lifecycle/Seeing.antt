-- ===== src/Lifecycle/Seeing.antt =====
-- src/lifecycle.rs, LifecycleCore::observe_once: which calls of the services stand behind a decision that
-- the backend is ready, and in which order.
use llm_wake_proxy.Base.{
  ◌≡◌, refl, Bool, true, false, Option, none, some, Result, ok, err, inl, inr, Bool-cases, arith,
  ap,
}
use llm_wake_proxy.Lifecycle.Types.{
  TunnelState, LifecycleRequest, LifecycleError, BackendStatus, ObservedBackendState,
  LifecycleDecision, LifecycleTiming, Services, Core, should_request_wake, is_ready_state, is_error,
  is_tunnel_ready,
}
use llm_wake_proxy.Lifecycle.Observe.{
  in_world, adopt, host_asleep, host_observed, after_observe, after_probe, observe_once, publish,
  settle, after_tunnel, publish_warming,
}

module _ {W : Type 0} (sv : Services W) (timing : LifecycleTiming) where
  -- The probe found the host awake, the host said that the backend is ready and then the tunnel said
  -- so, each in the world that the call before it had left.
  abbrev pub AreSeen : Core W → LifecycleRequest → Core W → Type 0
  AreSeen c observe_request c' =
      let probed = sv.is_ready c.world in
      let seen = sv.observe_backend observe_request probed.1 in
      (observed : ObservedBackendState) × (tunnel : TunnelState) × (probed.0 ≡ ok true)
      × (seen.0 ≡ ok observed)
      × (is_ready_state observed.lifecycle ≡ true)
      × (sv.ensure_tunnel seen.1 ≡ (ok tunnel, c'.world))
      × (is_tunnel_ready tunnel ≡ true)

  abbrev pub IsSeen : Core W → LifecycleRequest → LifecycleDecision × Core W → Type 0
  IsSeen c observe_request (LifecycleDecision.ready status, c') = AreSeen c observe_request c'
  IsSeen c observe_request (LifecycleDecision.warming status retry, c') = Unit {0}
  IsSeen c observe_request (LifecycleDecision.failed status error, c') = Unit {0}

  -- Likewise, after the host was observed.
  abbrev IsTunnelled : Core W → ObservedBackendState → LifecycleDecision × Core W → Type 0
  IsTunnelled c observed (LifecycleDecision.ready status, c') =
      (tunnel : TunnelState) × (is_ready_state observed.lifecycle ≡ true)
      × (sv.ensure_tunnel c.world ≡ (ok tunnel, c'.world))
      × (is_tunnel_ready tunnel ≡ true)
  IsTunnelled c observed (LifecycleDecision.warming status retry, c') = Unit {0}
  IsTunnelled c observed (LifecycleDecision.failed status error, c') = Unit {0}

  settle-IsTunnelled :
      (observed : ObservedBackendState) (status : BackendStatus) (tunnel : TunnelState) (w : W)
      (c : Core W)
      → is_ready_state observed.lifecycle ≡ true
      → sv.ensure_tunnel c.world ≡ (ok tunnel, w)
      → IsTunnelled c observed (settle sv timing status tunnel (in_world w c))
  unfolding settle publish publish_warming
  settle-IsTunnelled observed status TunnelState.ready w c h e =
      elim (Bool-cases (is_ready_state status.lifecycle)) [
        | inl r ↦ rw r (TunnelState.ready, h, e, refl)
        | inr r ↦ rw r tt
      ]
  settle-IsTunnelled observed status TunnelState.down w c h e = tt
  settle-IsTunnelled observed status TunnelState.connecting w c h e = tt

  after_tunnel-IsTunnelled :
      (observed : ObservedBackendState) (status : BackendStatus) (c : Core W)
      (r : Result TunnelState LifecycleError) (w : W)
      → is_ready_state observed.lifecycle ≡ true
      → sv.ensure_tunnel c.world ≡ (r, w)
      → IsTunnelled c observed (after_tunnel sv timing status (in_world w c) r)
  unfolding after_tunnel
  after_tunnel-IsTunnelled observed status c (ok tunnel) w h e =
      settle-IsTunnelled observed status tunnel w c h e
  after_tunnel-IsTunnelled observed status c (err error) w h e = tt

  host_observed-IsTunnelled :
      (observed : ObservedBackendState) (status : BackendStatus) (c : Core W)
      → IsTunnelled c observed (host_observed sv timing observed status c)
  unfolding host_observed publish_warming
  host_observed-IsTunnelled observed status c = elim (Bool-cases (is_error observed.lifecycle)) [
    | inl e ↦ rw e tt
    | inr e ↦ rw e (elim (Bool-cases (is_ready_state observed.lifecycle)) [
      | inl h ↦
          let (r, w) = sv.ensure_tunnel c.world in
          rw h (after_tunnel-IsTunnelled observed (adopt sv timing observed status) c r w h refl)
      | inr h ↦ rw h tt
    ])
  ]

  host_asleep-never :
      (wake_request : Option LifecycleRequest) (observe_request : LifecycleRequest)
      (status : BackendStatus) (c c' : Core W)
      → IsSeen c observe_request (host_asleep sv timing wake_request status c')
  unfolding host_asleep should_request_wake publish
  host_asleep-never none observe_request status c c' = tt
  host_asleep-never (some r) observe_request status c c' = ground arith

  IsTunnelled-IsSeen :
      (c : Core W) (observe_request : LifecycleRequest) (observed : ObservedBackendState)
      (at : Core W) (d : LifecycleDecision) (c' : Core W)
      → (sv.is_ready c.world).0 ≡ ok true
      → sv.observe_backend observe_request (sv.is_ready c.world).1 ≡ (ok observed, at.world)
      → IsTunnelled at observed (d, c')
      → IsSeen c observe_request (d, c')
  IsTunnelled-IsSeen c observe_request observed at (LifecycleDecision.ready status) c' p e h =
      let (tunnel, r, t, s) = h in
      (
        observed,
        tunnel,
        p,
        ap (λ (out : Result ObservedBackendState LifecycleError × W). out.0) e,
        r,
        rw (ap (λ (out : Result ObservedBackendState LifecycleError × W). out.1) e) t,
        s,
      )
  IsTunnelled-IsSeen c observe_request observed at (LifecycleDecision.warming status r) c' p e h =
      tt
  IsTunnelled-IsSeen c observe_request observed at (LifecycleDecision.failed status x) c' p e h = tt

  after_observe-IsSeen :
      (c : Core W) (observe_request : LifecycleRequest) (status : BackendStatus)
      (r : Result ObservedBackendState LifecycleError) (w : W)
      → (sv.is_ready c.world).0 ≡ ok true
      → sv.observe_backend observe_request (sv.is_ready c.world).1 ≡ (r, w)
      → IsSeen c observe_request (after_observe sv timing status (in_world w c) r)
  unfolding after_observe
  after_observe-IsSeen c observe_request status (ok observed) w p e =
      let out = host_observed sv timing observed status (in_world w c) in
      IsTunnelled-IsSeen c observe_request observed (in_world w c) out.0 out.1 p e
        (host_observed-IsTunnelled observed status (in_world w c))
  after_observe-IsSeen c observe_request status (err error) w p e = tt

  after_probe-IsSeen :
      (wake_request : Option LifecycleRequest) (observe_request : LifecycleRequest)
      (status : BackendStatus) (c : Core W) (r : Result Bool LifecycleError)
      → (sv.is_ready c.world).0 ≡ r
      → IsSeen c observe_request (
          after_probe sv timing wake_request observe_request status
            (in_world (sv.is_ready c.world).1 c)
            r)
  unfolding after_probe
  after_probe-IsSeen wake_request observe_request status c (err e) p = tt
  after_probe-IsSeen wake_request observe_request status c (ok false) p =
      host_asleep-never wake_request observe_request status c (in_world (sv.is_ready c.world).1 c)
  after_probe-IsSeen wake_request observe_request status c (ok true) p =
      let seen = sv.observe_backend observe_request (sv.is_ready c.world).1 in
      after_observe-IsSeen c observe_request status seen.0 seen.1 p refl

  pub observe_once-IsSeen :
      (wake_request : Option LifecycleRequest) (observe_request : LifecycleRequest)
      (status : BackendStatus) (c : Core W)
      → IsSeen c observe_request (observe_once sv timing wake_request observe_request status c)
  unfolding observe_once
  observe_once-IsSeen wake_request observe_request status c =
      after_probe-IsSeen wake_request observe_request status c (sv.is_ready c.world).0 refl
