-- ===== src/Lifecycle/Tasks/Manager.antt =====
-- src/lifecycle.rs, LifecycleManager as the LifecycleOrchestrator that the rest of the proxy calls. A call
-- of `ensure_backend` is a task that joins the tasks there are. What happens until it is answered, its
-- own steps included, is a parameter; if that does not bring the answer, the call makes its other
-- steps by itself. What the background does between two calls is put at the start of the later one.
mod Ranks
pub mod Returns
pub mod Calls
pub mod Silent
pub mod Leading
use llm_wake_proxy.Base.{
  ℕ, zero, suc, ◌-◌, Bool, true, false, not, List, [], ◌∷◌, length, ◌==◌, if◌then◌else◌,
}
use llm_wake_proxy.Lifecycle.Types.{
  LifecycleRequest, BackendStatus, LifecycleDecision, LifecycleTiming, Services, BootstrapState,
  Core, default_bootstrap,
}
use llm_wake_proxy.Lifecycle.Bootstrap.{degrade_embeddings, mark_warming}
use llm_wake_proxy.Lifecycle.Tasks.{
  Task, parked, returned, dropped, ended, System, Action, arrives, runs, times_out, gives_up,
  world_becomes, apply, run,
}
use llm_wake_proxy.State.{LifecycleOrchestrator}

-- The mutex, the watch channel's value and the tasks that run.
pub record Manager : Type 0 where
  pub bootstrap : BootstrapState
  pub status : BackendStatus
  pub tasks : List Task

-- `LifecycleManager::new_with_timing`
unfoldable pub new_with_timing : BackendStatus → Manager
new_with_timing initial_status = record {
  bootstrap = default_bootstrap;
  status = initial_status;
  tasks = [];
}

abbrev pub task_at : ℕ → List Task → Task
task_at i [] = dropped
task_at zero (t ∷ ts) = t
task_at (suc i) (t ∷ ts) = task_at i ts

-- The tasks that still run.
abbrev pub live : List Task → List Task
live [] = []
live (returned decision ∷ ts) = live ts
live (dropped ∷ ts) = live ts
live (ended ∷ ts) = live ts
live (t ∷ ts) = t ∷ live ts

-- The longest way is eight steps: called, borrowed, joining, leading, observing, waiting, peeking,
-- parked.
abbrev pub own_steps : ℕ
own_steps = 8

-- Every call is answered: `Returns` has it that the last clause is not used.
abbrev pub answer_of : BackendStatus → Task → LifecycleDecision
answer_of status (returned decision) = decision
answer_of status _ = LifecycleDecision.warming status 0

module _ {W : Type 0} where
  abbrev pub core_of : Manager → W → Core W
  core_of m w = record { bootstrap = m.bootstrap; status = m.status; world = w }

  abbrev pub of_core : Manager → Core W → Manager
  of_core m c = record { bootstrap = c.bootstrap; status = c.status; tasks = m.tasks }

  abbrev pub as_system : Manager → W → System W
  as_system m w = record { core = core_of m w; tasks = m.tasks }

  abbrev pub of_system : System W → Manager
  of_system s = record {
    bootstrap = s.core.bootstrap;
    status = s.core.status;
    tasks = live s.tasks;
  }

  -- The client of the i-th task does not give up: the caller would not go on otherwise.
  pub while_asked : ℕ → List (Action W) → List (Action W)
  while_asked i [] = []
  while_asked i (gives_up j ∷ actions) =
      let rest = while_asked i actions in if i == j then rest else gives_up j ∷ rest
  while_asked i (a ∷ actions) = a ∷ while_asked i actions

module _ {W : Type 0} (sv : Services W) (timing : LifecycleTiming) where
  -- What the i-th task does by itself: one that is parked waits for its timeout.
  pub own_actions : ℕ → Task → Core W → List (Action W)
  own_actions i (parked deadline stale) c =
      world_becomes (sv.sleep (deadline - sv.instant c.world) c.world) ∷ times_out i ∷ []
  own_actions i _ c = runs i ∷ []

  pub finish : ℕ → ℕ → System W → System W
  unfolding own_actions
  finish zero i s = s
  finish (suc fuel) i s = finish fuel i (run sv timing (own_actions i (task_at i s.tasks) s.core) s)

module _ {W : Type 0} (sv : Services W) (timing : LifecycleTiming)
    (others : LifecycleRequest → Manager → W → List (Action W)) where
  -- The system when the call is answered.
  unfoldable pub answered : LifecycleRequest → Manager → W → System W
  unfolding finish while_asked
  answered request m w =
      let i = length m.tasks in
      finish sv timing own_steps i
        (run sv timing (arrives request ∷ while_asked i (others request m w)) (as_system m w))

  unfoldable pub ensure_backend : LifecycleRequest → Manager → W → LifecycleDecision × Manager × W
  unfolding answered
  ensure_backend request m w =
      let s = answered request m w in
      (answer_of s.core.status (task_at (length m.tasks) s.tasks), (of_system s), s.core.world)

  unfoldable pub lifecycle_manager : LifecycleOrchestrator Manager W
  unfolding ensure_backend degrade_embeddings mark_warming
  lifecycle_manager = record {
    ensure_backend = ensure_backend;
    status = λ m. m.status;
    degrade_embeddings = λ reason m. of_core m (degrade_embeddings reason (core_of m tt));
    mark_warming = λ m. of_core m (mark_warming (core_of m tt));
  }
