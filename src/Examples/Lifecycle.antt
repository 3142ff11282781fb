-- ===== src/Examples/Lifecycle.antt =====
-- The lifecycle and the scheduler at concrete inputs.

use llm_wake_proxy.Base.{
  ℕ, ◌+◌, ◌-◌, ◌<◌, ◌≡◌, refl, true, ◌≤◌, some, List, [], ◌∷◌, ok, false, ◌⊎◌, arith,
}
use llm_wake_proxy.Lifecycle.Types.{
  LifecycleRequest, default_status, Core, default_bootstrap, saturating_add,
}
use llm_wake_proxy.Lifecycle.Observe.{observe_once}
use llm_wake_proxy.Lifecycle.Bootstrap.{
  start_bootstrap, mark_warming, expire, bootstrap_deadline, deadline_fits, remaining_secs,
}
use llm_wake_proxy.Lifecycle.Soundness.{IsSound, observe_once-IsSound}
use llm_wake_proxy.Lifecycle.Deadline.{IsTimely, IsFinished, start_bootstrap-IsFinished}
use llm_wake_proxy.Lifecycle.Wake.{with_wake, mark_warming-no_wake, start_bootstrap-stale_wake}
use llm_wake_proxy.Lifecycle.Tasks
use llm_wake_proxy.Lifecycle.Tasks.{
  Task, entered, leading, Action, arrives, runs, gives_up, times_out, world_becomes, fresh,
  returned,
}
use llm_wake_proxy.Lifecycle.Tasks.Manager.{
  Manager, task_at, answered, ensure_backend, lifecycle_manager,
}
use llm_wake_proxy.Lifecycle.Tasks.Manager.Calls.{call_looks, mark_warming-AnySeen}
use llm_wake_proxy.Lifecycle.Tasks.Seen.{AnySeen}
use llm_wake_proxy.Orchestrate.Silent.{says_ready}
use llm_wake_proxy.State.{LifecycleOrchestrator}
use llm_wake_proxy.Lifecycle.Tasks.Manager.Returns.{ensure_backend_returns}
use llm_wake_proxy.Lifecycle.Tasks.Owner.{IsExclusive, IsOwned, run-IsExclusive, run-IsOwned}
use llm_wake_proxy.Lifecycle.Tasks.Answers.{AllHonest, run-AllHonest}
use llm_wake_proxy.Lifecycle.Tasks.Dropped.{IsStuck, drop_leader-IsStuck}
use llm_wake_proxy.Lifecycle.Tasks.Leases.{LeaselessSystem, run-LeaselessSystem}
use llm_wake_proxy.Examples.World.{
  sample_timing, sample_services, cold_core, woken_status, ready_status,
}

observe_once-IsSound_example : IsSound sample_timing cold_core (
    observe_once sample_services sample_timing
      (some LifecycleRequest.chat)
      LifecycleRequest.chat
      default_status
      cold_core)
observe_once-IsSound_example =
    observe_once-IsSound sample_services sample_timing (some LifecycleRequest.chat)
      LifecycleRequest.chat default_status cold_core

sample-IsTimely : IsTimely sample_services
sample-IsTimely = record {
  probe_time = λ w. omega arith;
  observe_time = λ r w. omega arith;
  tunnel_time = λ w. omega arith;
  sleep_time = λ d w. omega arith;
}

deadline_early :
    bootstrap_deadline sample_services sample_timing cold_core
      - sample_services.instant cold_core.world
    < 2001
unfolding bootstrap_deadline remaining_secs
deadline_early = ground arith

cold-deadline_fits : deadline_fits sample_services sample_timing cold_core ≡ true
unfolding deadline_fits remaining_secs
cold-deadline_fits = ground arith

start_bootstrap-IsFinished_example :
    (c' : Core ℕ) × (start_bootstrap sample_services sample_timing 2001 cold_core ≡ some c')
    × IsFinished c'
start_bootstrap-IsFinished_example =
    start_bootstrap-IsFinished sample_services sample_timing sample-IsTimely 2001 cold_core
      (omega arith) cold-deadline_fits deadline_early

-- Two requests at a cold host, one of which leads and is then dropped, and time that passes.
abbrev history : List (Action ℕ)
history =
    arrives LifecycleRequest.chat
    ∷ arrives LifecycleRequest.embeddings
    ∷ runs 0
    ∷ runs 0
    ∷ runs 1
    ∷ runs 1
    ∷ runs 0
    ∷ world_becomes 700
    ∷ runs 0
    ∷ runs 1
    ∷ times_out 1
    ∷ []

run-IsExclusive_example :
    IsExclusive
      (Tasks.run sample_services sample_timing (gives_up 1 ∷ history) (fresh default_status 0))
run-IsExclusive_example =
    run-IsExclusive sample_services sample_timing (gives_up 1 ∷ history) default_status 0

run-IsOwned_example :
    IsOwned (Tasks.run sample_services sample_timing history (fresh default_status 0))
run-IsOwned_example = run-IsOwned sample_services sample_timing history default_status 0 tt

run-AllHonest_example :
    AllHonest sample_timing
      (Tasks.run sample_services sample_timing history (fresh default_status 0)).tasks
run-AllHonest_example = run-AllHonest sample_services sample_timing history default_status 0

run-LeaselessSystem_example :
    LeaselessSystem sample_services sample_timing
      (Tasks.run sample_services sample_timing history (fresh default_status 0))
run-LeaselessSystem_example =
    run-LeaselessSystem sample_services sample_timing history default_status 0 refl

abbrev led_core : Core ℕ
led_core = record cold_core { bootstrap = record default_bootstrap { active = true } }

drop_leader-IsStuck_example : IsStuck (
    Tasks.run sample_services sample_timing (gives_up 0 ∷ history) (record {
      core = led_core;
      tasks = leading LifecycleRequest.chat default_status ∷ entered LifecycleRequest.chat ∷ [];
    }))
drop_leader-IsStuck_example =
    drop_leader-IsStuck sample_services sample_timing history
      (leading LifecycleRequest.chat default_status) (entered LifecycleRequest.chat ∷ []) led_core
      tt (tt, tt) refl

mark_warming-no_wake_example :
    observe_once
      (with_wake sample_services sample_timing (λ r w. (ok tt, w + 1)))
      sample_timing
      (some LifecycleRequest.chat)
      LifecycleRequest.chat
      (mark_warming cold_core).status
      (mark_warming cold_core)
    ≡ observe_once sample_services sample_timing
        (some LifecycleRequest.chat)
        LifecycleRequest.chat
        (mark_warming cold_core).status
        (mark_warming cold_core)
mark_warming-no_wake_example =
    mark_warming-no_wake sample_services sample_timing (λ r w. (ok tt, w + 1))
      (some LifecycleRequest.chat) LifecycleRequest.chat cold_core

-- Two requests before this one, which all leave the host to it.
abbrev no_others : LifecycleRequest → Manager → ℕ → List (Action ℕ)
no_others request m w = runs 0 ∷ gives_up 0 ∷ gives_up 2 ∷ []

abbrev busy_manager : Manager
busy_manager = record {
  bootstrap = default_bootstrap;
  status = default_status;
  tasks = entered LifecycleRequest.chat ∷ entered LifecycleRequest.chat ∷ [];
}

ensure_backend_returns_example :
    task_at 2
      (answered sample_services sample_timing no_others LifecycleRequest.embeddings busy_manager
        0).tasks
    ≡ returned
        (ensure_backend sample_services sample_timing no_others LifecycleRequest.embeddings
          busy_manager 0).0
ensure_backend_returns_example =
    ensure_backend_returns sample_services sample_timing no_others LifecycleRequest.embeddings
      busy_manager 0

abbrev ready_manager : Manager
ready_manager = record busy_manager { status = ready_status }

abbrev sample_manager : LifecycleOrchestrator Manager ℕ
sample_manager = lifecycle_manager sample_services sample_timing no_others

mark_warming-AnySeen_example :
    (says_ready
        (sample_manager.ensure_backend LifecycleRequest.chat
          (sample_manager.mark_warming ready_manager)
          2000).0
      ≡ false)
    ⊎ AnySeen sample_services sample_timing (
        call_looks sample_services sample_timing no_others LifecycleRequest.chat
          (sample_manager.mark_warming ready_manager)
          2000)
mark_warming-AnySeen_example =
    mark_warming-AnySeen sample_services sample_timing no_others LifecycleRequest.chat ready_manager
      2000 (tt, (tt, tt))

-- Ten seconds after the last wake request, with a boot deadline of two.
abbrev late_core : Core ℕ
late_core = record cold_core { status = woken_status; world = 10000 }

late : saturating_add 0 sample_timing.hard_boot_deadline_secs ≤ sample_services.now late_core.world
unfolding saturating_add
late = ground arith

start_bootstrap-stale_wake_example :
    start_bootstrap sample_services sample_timing 1 late_core ≡ some (expire late_core)
start_bootstrap-stale_wake_example =
    start_bootstrap-stale_wake sample_services sample_timing 0 late_core 0 refl late
