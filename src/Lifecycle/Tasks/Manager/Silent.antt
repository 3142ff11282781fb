-- ===== src/Lifecycle/Tasks/Manager/Silent.antt =====
-- src/lifecycle.rs, LifecycleManager as a LifecycleOrchestrator: a host that never answers the probe.
use llm_wake_proxy.Base.{◌≡◌, true, false, List, [], ◌∷◌, inl, inr, ok}
use llm_wake_proxy.Lifecycle.Types.{LifecycleRequest, LifecycleTiming, Services}
use llm_wake_proxy.Lifecycle.Tasks.{Action}
use llm_wake_proxy.Lifecycle.Tasks.Seen.{AnySeen, Look}
use llm_wake_proxy.Lifecycle.Tasks.Manager.{Manager, ensure_backend, lifecycle_manager}
use llm_wake_proxy.Lifecycle.Tasks.Manager.Calls.{
  UnreadyManager, call_looks, ensure_backend-UnreadyManager,
}
use llm_wake_proxy.Orchestrate.Silent.{says_ready, IsSilent}

module _ {W : Type 0} (sv : Services W) (timing : LifecycleTiming)
    (asleep : (w : W) → ¬ ((sv.is_ready w).0 ≡ ok true)) where
  unseen : (ls : List (Look W)) → ¬ (AnySeen sv timing ls)
  unseen [] h = h
  unseen (l ∷ ls) (inl h) = asleep l.before.world h.2
  unseen (l ∷ ls) (inr h) = unseen ls h

  module _ (others : LifecycleRequest → Manager → W → List (Action W)) where
    ensure_backend-unready :
        (request : LifecycleRequest) (m : Manager) (w : W)
        → UnreadyManager m
        → UnreadyManager (ensure_backend sv timing others request m w).1
          × (says_ready (ensure_backend sv timing others request m w).0 ≡ false)
    ensure_backend-unready request m w h =
        elim (ensure_backend-UnreadyManager sv timing others request m w h) [
          | inl u ↦ u
          | inr seen ↦ absurd (unseen (call_looks sv timing others request m w) seen)
        ]

    -- A manager over a host that never answers the probe does not say `ready`, whatever its tasks do.
    pub lifecycle_manager-IsSilent : IsSilent (lifecycle_manager sv timing others) UnreadyManager
    unfolding lifecycle_manager
    lifecycle_manager-IsSilent = record {
      ensured = λ request m w h. (ensure_backend-unready request m w h).0;
      unready = λ request m w h. (ensure_backend-unready request m w h).1;
    }
