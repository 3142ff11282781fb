-- ===== src/Lifecycle/Tasks.antt =====
-- src/lifecycle.rs, LifecycleManager::ensure_backend and LifecycleCore::start_bootstrap as tasks that
-- interleave at their awaits. A task is its program counter with its local variables; `advance` runs
-- it up to the next await. The calls of services stand where `observe_once` publishes. The budget
-- of a waiting request is one with which its deadline fits in an Instant.
pub mod Owner
pub mod Answers
pub mod Dropped
pub mod Budget
pub mod Leases
pub mod Seen
pub mod Manager
use Prim.Native.String.{String}
use llm_wake_proxy.Base.{
  ℕ, zero, suc, Bool, true, false, not, ◌&&◌, Option, none, some, List, [], ◌∷◌, ◌++◌,
  if◌then◌else◌,
}
use llm_wake_proxy.Lifecycle.Types.{
  LifecycleState, TunnelState, LifecycleRequest, LifecycleError, BackendStatus, LifecycleDecision,
  LifecycleTiming, Services, Core, backend_is_ready, default_bootstrap,
}
use llm_wake_proxy.Lifecycle.Observe.{observe_once}
use llm_wake_proxy.Lifecycle.Bootstrap.{
  start_or_join_bootstrap, finish_bootstrap, degrade_embeddings, mark_warming, expired_status,
  boot_deadline_error, is_stale_view, bootstrap_deadline, deadline_fits, pause, is_past, wait_view,
  wait_elapsed, wait_deadline_of,
}

pub data Task : Type 0 where
  -- ensure_backend: called, the status borrowed, the fast path refused
  entered : LifecycleRequest → Task
  borrowed joining : LifecycleRequest → BackendStatus → Task
  -- the request that started a bootstrap, before and during its look at the host
  leading : LifecycleRequest → BackendStatus → Task
  observing : (request observe_request : LifecycleRequest) → BackendStatus → Task
  settling : BackendStatus → Option LifecycleError → LifecycleDecision → Task
  -- wait_for_ready_or_timeout: before the status is read, before the lock, before a change
  waiting : ℕ → Task
  peeking : ℕ → BackendStatus → Task
  parked : ℕ → Bool → Task
  returned : LifecycleDecision → Task
  dropped : Task
  -- start_bootstrap in the background
  -- A task whose deadline does not fit in an Instant has panicked, and stands at its start for good.
  boot_start : Task
  booting sleeping : ℕ → Task
  boot_leading : ℕ → BackendStatus → Task
  boot_observing : ℕ → LifecycleRequest → BackendStatus → Task
  boot_settling : BackendStatus → Option LifecycleError → Task
  ended : Task

pub record Next (W : Type 0) : Type 0 where
  pub task : Task
  pub spawned : List Task
  pub core : Core W

module _ {W : Type 0} where
  abbrev pub goes_to : Task → Core W → Next W
  goes_to t c = record { task = t; spawned = []; core = c }

  after_join : LifecycleRequest → BackendStatus → ℕ → Bool × Core W → Next W
  after_join request initial deadline (true, c) = goes_to (leading request initial) c
  after_join request initial deadline (false, c) = goes_to (waiting deadline) c

  after_wait : ℕ → Bool → Core W → Option LifecycleDecision → Next W
  after_wait deadline stale c none = goes_to (parked deadline stale) c
  after_wait deadline stale c (some d) = goes_to (returned d) c

  after_lead : ℕ → LifecycleDecision × Core W → Next W
  after_lead deadline (LifecycleDecision.ready status, c) =
      goes_to (settling c.status none (LifecycleDecision.ready status)) c
  after_lead deadline (LifecycleDecision.failed status error, c) =
      goes_to (settling status (some error) (LifecycleDecision.failed status error)) c
  after_lead deadline (LifecycleDecision.warming status retry, c) = record {
    task = waiting deadline;
    spawned = boot_start ∷ [];
    core = c;
  }

  after_look : ℕ → LifecycleDecision × Core W → Next W
  after_look deadline (LifecycleDecision.ready status, c) = goes_to (boot_settling status none) c
  after_look deadline (LifecycleDecision.failed status error, c) =
      goes_to (boot_settling status (some error)) c
  after_look deadline (LifecycleDecision.warming status retry, c) = goes_to (booting deadline) c

module _ {W : Type 0} (sv : Services W) (timing : LifecycleTiming) where
  pub advance : Task → Core W → Next W
  unfolding after_join after_wait after_lead after_look start_or_join_bootstrap finish_bootstrap
      backend_is_ready is_stale_view
  advance (entered request) c = goes_to (borrowed request c.status) c
  advance (borrowed request initial) c =
      if not c.bootstrap.active && backend_is_ready initial
      then goes_to (returned (LifecycleDecision.ready initial)) c
      else goes_to (joining request initial) c
  advance (joining request initial) c =
      after_join request initial (wait_deadline_of sv timing c) (start_or_join_bootstrap request c)
  advance (leading request initial) c =
      goes_to (observing request c.bootstrap.observe_request initial) c
  advance (observing request observe_request initial) c =
      let out = observe_once sv timing (some request) observe_request initial c in
      after_lead (wait_deadline_of sv timing out.1) out
  advance (settling status error decision) c =
      goes_to (returned decision) (finish_bootstrap status error c)
  advance (waiting deadline) c = goes_to (peeking deadline c.status) c
  advance (peeking deadline status) c =
      after_wait deadline (is_stale_view status c.bootstrap) c
        (wait_view sv timing deadline (sv.instant c.world) status c.bootstrap)
  advance (parked deadline stale) c = goes_to (waiting deadline) c
  advance (returned decision) c = goes_to (returned decision) c
  advance dropped c = goes_to dropped c
  advance boot_start c =
      if deadline_fits sv timing c
      then goes_to (booting (bootstrap_deadline sv timing c)) c
      else goes_to boot_start c
  advance (booting deadline) c =
      if is_past sv timing deadline c
      then goes_to (boot_settling (expired_status c) (some boot_deadline_error)) c
      else goes_to (sleeping deadline) c
  advance (sleeping deadline) c =
      let c' = pause sv timing c in
      if is_past sv timing deadline c'
      then goes_to (boot_settling (expired_status c') (some boot_deadline_error)) c'
      else goes_to (boot_leading deadline c'.status) c'
  advance (boot_leading deadline status) c =
      goes_to (boot_observing deadline c.bootstrap.observe_request status) c
  advance (boot_observing deadline observe_request status) c =
      after_look deadline (observe_once sv timing none observe_request status c)
  advance (boot_settling status error) c = goes_to ended (finish_bootstrap status error c)
  advance ended c = goes_to ended c

  -- The timeout of a parked request; nothing happens to any other task.
  pub elapse : Task → Core W → Task
  elapse (parked deadline stale) c = returned (wait_elapsed sv timing c.status stale)
  elapse t c = t

-- The future of a request that its client gave up on is dropped; a spawned task is not.
unfoldable pub give_up : Task → Task
give_up boot_start = boot_start
give_up (booting deadline) = booting deadline
give_up (sleeping deadline) = sleeping deadline
give_up (boot_leading deadline status) = boot_leading deadline status
give_up (boot_observing deadline r status) = boot_observing deadline r status
give_up (boot_settling status error) = boot_settling status error
give_up ended = ended
give_up (returned decision) = returned decision
give_up _ = dropped

pub record System (W : Type 0) : Type 0 where
  pub core : Core W
  pub tasks : List Task

pub data Action (W : Type 0) : Type 0 where
  arrives : LifecycleRequest → Action W
  runs times_out gives_up : ℕ → Action W
  -- calls from elsewhere in the proxy
  marks_warming : Action W
  degrades : String → Action W
  -- the outside world, time included, moves on
  world_becomes : W → Action W

-- Replace the i-th task.
pub edit_at : (Task → Task) → ℕ → List Task → List Task
edit_at f i [] = []
edit_at f zero (t ∷ ts) = f t ∷ ts
edit_at f (suc i) (t ∷ ts) = t ∷ edit_at f i ts

module _ {W : Type 0} (sv : Services W) (timing : LifecycleTiming) where
  -- Run the i-th task up to its next await; what it spawns goes to the end.
  pub run_at : ℕ → List Task → Core W → System W
  run_at i [] c = record { core = c; tasks = [] }
  run_at zero (t ∷ ts) c =
      let n = advance sv timing t c in record { core = n.core; tasks = n.task ∷ (ts ++ n.spawned) }
  run_at (suc i) (t ∷ ts) c = let s = run_at i ts c in record { core = s.core; tasks = t ∷ s.tasks }

  pub apply : Action W → System W → System W
  apply (arrives request) s = record s { tasks = s.tasks ++ entered request ∷ [] }
  apply (runs i) s = run_at i s.tasks s.core
  apply (times_out i) s = record s { tasks = edit_at (λ t. elapse sv timing t s.core) i s.tasks }
  apply (gives_up i) s = record s { tasks = edit_at give_up i s.tasks }
  apply marks_warming s = record s { core = mark_warming s.core }
  apply (degrades reason) s = record s { core = degrade_embeddings reason s.core }
  apply (world_becomes w) s = record s { core = record (s.core) { world = w } }

  pub run : List (Action W) → System W → System W
  run [] s = s
  run (a ∷ actions) s = run actions (apply a s)

-- A manager that has just been made.
unfoldable pub fresh : {W : Type 0} → BackendStatus → W → System W
fresh initial_status w = record {
  core = record { bootstrap = default_bootstrap; status = initial_status; world = w };
  tasks = [];
}
