-- ===== src/Production/Seeing.antt =====
-- src/state.rs, AppState::production with src/lifecycle.rs and src/host.rs: what stands behind a decision
-- that the backend is ready.
use llm_wake_proxy.Base.{ℕ, ◌≡◌, true, some, Result, ok, inl, inr, arith, ap, subst, ◌∙◌, sym}
use llm_wake_proxy.Config.Types.{AppConfig}
use llm_wake_proxy.Lifecycle.Types.{
  TunnelState, LifecycleRequest, LifecycleError, ObservedBackendState, LifecycleTiming, Core,
  is_ready_state, is_tunnel_ready,
}
use llm_wake_proxy.Host.{System, HelperJson, SshHelperRpc, is_ready, observe_backend}
use llm_wake_proxy.Host.Tunnel.{SshTunnelManager, ensure_tunnel}
use llm_wake_proxy.Host.Observing
use llm_wake_proxy.Host.Observing.{IsVouched, observe_backend-IsVouched}
use llm_wake_proxy.Host.Tunnel.Honesty
use llm_wake_proxy.Host.Tunnel.Honesty.{IsRunning, IsHonest, ensure_tunnel-IsHonest}
use llm_wake_proxy.Production.{Clock, Held, ssh_probe, production_services, handed}
use llm_wake_proxy.Lifecycle.Seeing.{AreSeen}

module _ {W : Type 0} (system : System W) (json : HelperJson) (clock : Clock W) (config : AppConfig)
    (rpc : SshHelperRpc) (manager : SshTunnelManager) where
  abbrev IsKept : Held W → Type 0
  IsKept h = (child : ℕ) × (h.child ≡ some child) × IsRunning system child h.outer

  -- The host took a connection, the helper vouched for the model in the world that this probe left,
  -- and the tunnel's process, which the manager holds now, was found running last.
  abbrev pub AreEarned : Core (Held W) → Core (Held W) → Type 0
  AreEarned c c' =
      ((is_ready system (ssh_probe config) c.world.outer).0 ≡ ok true)
      × IsVouched system json rpc (is_ready system (ssh_probe config) c.world.outer).1
      × IsKept c'.world

  observe_backend-earned :
      (request : LifecycleRequest) (w : W) (observed : ObservedBackendState)
      → (observe_backend system json rpc request w).0 ≡ ok observed
      → is_ready_state observed.lifecycle ≡ true
      → IsVouched system json rpc w
  observe_backend-earned request w observed e h =
      elim ((observe_backend-IsVouched system json rpc request w).1) [
        | inl other ↦
            let silent = sym (ap (Observing.says_ready system json rpc) e) ∙ other in
            absurd (ground (arith, silent, h))
        | inr vouched ↦ vouched
      ]

  ensure_tunnel-earned :
      (h h' : Held W) (tunnel : TunnelState)
      → handed (ensure_tunnel system manager h.child h.outer) ≡ (ok tunnel, h')
      → is_tunnel_ready tunnel ≡ true
      → IsKept h'
  ensure_tunnel-earned h h' tunnel e r =
      let out = ensure_tunnel system manager h.child h.outer in
      let said = ap (λ (p : Result TunnelState LifecycleError × Held W). p.0) e in
      let left = ap (λ (p : Result TunnelState LifecycleError × Held W). p.1) e in
      subst IsKept left (elim ((ensure_tunnel-IsHonest system manager h.child h.outer).ready) [
        | inl other ↦
            let silent = sym (ap (Honesty.says_ready system) said) ∙ other in
            absurd (ground (arith, silent, r))
        | inr found ↦ found
      ])

  pub AreSeen-AreEarned :
      (timing : LifecycleTiming) (observe_request : LifecycleRequest) (c c' : Core (Held W))
      → AreSeen
          (production_services system json clock config rpc manager)
          timing
          c
          observe_request
          c'
      → AreEarned c c'
  unfolding production_services
  AreSeen-AreEarned timing observe_request c c' h =
      let (observed, tunnel, p, e, r, t, s) = h in
      let probed = (is_ready system (ssh_probe config) c.world.outer).1 in
      let seen = observe_backend system json rpc observe_request probed in
      (
        p,
        observe_backend-earned observe_request probed observed e r,
        ensure_tunnel-earned (record { child = c.world.child; outer = seen.1 }) c'.world tunnel t s,
      )
