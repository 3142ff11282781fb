-- ===== src/Lifecycle/Tasks/Manager/Leading.antt =====
-- src/lifecycle.rs, LifecycleManager::ensure_backend: the call that leads, at a host that is up.
use llm_wake_proxy.Base.{◌≡◌, refl, true, false, none, some, List, []}
use llm_wake_proxy.Lifecycle.Types.{
  LifecycleRequest, BackendStatus, LifecycleDecision, LifecycleTiming, Services, Core,
  backend_is_ready,
}
use llm_wake_proxy.Lifecycle.Observe.{observe_once}
use llm_wake_proxy.Lifecycle.Bootstrap.{start_or_join_bootstrap, start_or_join, finish_bootstrap}
use llm_wake_proxy.Lifecycle.Tasks.{after_join, after_lead, advance, apply, run, run_at, Action}
use llm_wake_proxy.Lifecycle.Tasks.Manager.{
  Manager, new_with_timing, own_actions, finish, answered, while_asked, ensure_backend,
}

module _ {W : Type 0} where
  -- The core of a new manager whose first request has just become the leader.
  abbrev pub led_core : LifecycleRequest → BackendStatus → W → Core W
  led_core request initial_status w = record {
    bootstrap = record { active = true; last_error = none; observe_request = request };
    status = initial_status;
    world = w;
  }

  -- Nothing happens but what the call does by itself.
  abbrev pub undisturbed : LifecycleRequest → Manager → W → List (Action W)
  undisturbed request m w = []

module _ {W : Type 0} (sv : Services W) (timing : LifecycleTiming) where
  -- A new manager that is left alone answers its first request with what the first look at the host
  -- found, if that is that the backend is ready. The bootstrap is then over.
  pub ensure_backend-leads :
      (request : LifecycleRequest) (initial_status : BackendStatus) (w : W) (status : BackendStatus)
      (c : Core W)
      → backend_is_ready initial_status ≡ false
      → observe_once sv timing
          (some request)
          request
          initial_status
          (led_core request initial_status w)
        ≡ (LifecycleDecision.ready status, c)
      → ensure_backend sv timing undisturbed request (new_with_timing initial_status) w ≡ (
        LifecycleDecision.ready status,
        record {
          bootstrap = record (c.bootstrap) { last_error = none; active = false };
          status = c.status;
          tasks = [];
        },
        c.world,
      )
  unfolding ensure_backend answered new_with_timing while_asked run apply run_at finish own_actions
      advance after_join start_or_join_bootstrap start_or_join after_lead finish_bootstrap
  ensure_backend-leads request initial_status w status c n e = rw n (rw e refl)
