-- ===== src/Orchestrate/Bypass.antt =====
-- src/orchestrate.rs: when the scheduler and the upstream server are asked.
use llm_wake_proxy.Base.{ℕ, ◌≡◌, ◌-◌, refl, Bool, true, false, List, Bool-cases, inl, inr, ap, ltb}
use llm_wake_proxy.Lifecycle.Types.{
  LifecycleRequest, CapabilityState, BackendStatus, LifecycleDecision,
}
use llm_wake_proxy.Forward.{Json}
use llm_wake_proxy.State.{LifecycleOrchestrator, AppState, lifecycle_for, is_cold}
use llm_wake_proxy.Orchestrate.{
  Outside, is_degraded_embeddings, ensure, handle_ready, after_ensure, execute, acquire_cold_permit,
  after_permit, drop_cold_permit, set_cold_permits,
}

module _ {L W V : Type 0} (orchestrator : LifecycleOrchestrator L W) (outside : Outside W)
    (json : Json V) where
  handle_ready-no_upstream :
      (other : Outside W) (body : List ℕ) (stream : Bool) (status : BackendStatus)
      (s : AppState L W)
      → is_degraded_embeddings LifecycleRequest.embeddings status.embeddings ≡ true
      → handle_ready orchestrator other json LifecycleRequest.embeddings body stream status s
        ≡ handle_ready orchestrator outside json LifecycleRequest.embeddings body stream status s
  unfolding handle_ready
  handle_ready-no_upstream other body stream status s h = rw h refl

  ensured-no_upstream :
      (other : Outside W) (body : List ℕ) (stream : Bool) (s : AppState L W)
      (status : BackendStatus)
      → (ensure orchestrator outside json LifecycleRequest.embeddings s).0
        ≡ LifecycleDecision.ready status
      → status.embeddings ≡ CapabilityState.degraded
      → after_ensure orchestrator other json LifecycleRequest.embeddings body stream
          (ensure orchestrator other json LifecycleRequest.embeddings s)
        ≡ after_ensure orchestrator outside json LifecycleRequest.embeddings body stream
            (ensure orchestrator outside json LifecycleRequest.embeddings s)
  unfolding after_ensure ensure is_degraded_embeddings
  ensured-no_upstream other body stream s status h d = rw h (
      handle_ready-no_upstream other body stream status
        (ensure orchestrator outside json LifecycleRequest.embeddings s).1 (rw d refl))

  -- If the lifecycle finds the backend ready with degraded embeddings, an embeddings request is answered
  -- without the scheduler and without the upstream server: whatever these would do, the response and the
  -- state that `execute` leaves are the same.
  pub execute-no_upstream :
      (other : Outside W) (body : List ℕ) (stream : Bool) (s : AppState L W)
      (status : BackendStatus)
      → (orchestrator.ensure_backend LifecycleRequest.embeddings
          (lifecycle_for LifecycleRequest.embeddings s)
          s.world).0
        ≡ LifecycleDecision.ready status
      → status.embeddings ≡ CapabilityState.degraded
      → execute orchestrator other json LifecycleRequest.embeddings body stream s
        ≡ execute orchestrator outside json LifecycleRequest.embeddings body stream s
  unfolding execute acquire_cold_permit after_permit ensure
  execute-no_upstream other body stream s status h d =
      elim (Bool-cases (is_cold orchestrator LifecycleRequest.embeddings s)) [
        | inl e ↦ rw e (elim (Bool-cases (ltb 0 s.cold_permits)) [
          | inl f ↦ rw f (
              ap (drop_cold_permit true) (
                ensured-no_upstream other body stream (set_cold_permits (s.cold_permits - 1) s)
                  status h d))
          | inr f ↦ rw f refl
        ])
        | inr e ↦
            rw e (ap (drop_cold_permit false) (ensured-no_upstream other body stream s status h d))
      ]
