-- ===== src/Examples/Whole.antt =====
-- The components together, at concrete inputs.

use Prim.Native.String.{String}
use llm_wake_proxy.Base.{
  ℕ, suc, ◌*◌, ◌≤◌, refl, false, none, some, [], ok, err, arith, inr, codes, Option, Result, List,
  ◌∷◌, ◌⊎◌,
}
use llm_wake_proxy.Lifecycle.Types.{
  LifecycleRequest, LifecycleDecision, CapabilityState, LifecycleState, BackendStatus, Core,
  default_status, default_bootstrap, backend_is_ready,
}
use llm_wake_proxy.State.{LifecycleOrchestrator, AppState}
use llm_wake_proxy.Scheduler.{Slots, drop_permit}
use llm_wake_proxy.Forward.{Sent, replied}
use llm_wake_proxy.Orchestrate.{Upstream, execute}
use llm_wake_proxy.Orchestrate.Counting.{IsThrifty}
use llm_wake_proxy.Orchestrate.Counting.Thrift.{execute-IsThrifty}
use llm_wake_proxy.Orchestrate.Scheduled.{
  Scheduled, scheduled, request_counters, scheduled-IsCounted,
}
use llm_wake_proxy.Production.{Clock, Held, production_services}
use llm_wake_proxy.Lifecycle.Tasks
use llm_wake_proxy.Lifecycle.Tasks.{Action, arrives, runs}
use llm_wake_proxy.Lifecycle.Tasks.Seen.{IsUnready, looks}
use llm_wake_proxy.Production.Earned.{AnyEarned, run-AnyEarned}
use llm_wake_proxy.Config.{Env}
use llm_wake_proxy.Helper.Types.{EnsureStartedResponse, ProcessOutput}
use llm_wake_proxy.Helper.{helper_from_env}
use llm_wake_proxy.HelperCli.{Printed, of_ensure_started, Outcome}
use llm_wake_proxy.HelperCli.Reports.{is_success}
use llm_wake_proxy.Host.{System, HelperJson, rpc_ensure_started}
use llm_wake_proxy.Production.Remote.{
  remote_run, text_of, with_path, IsInstalled, IsTold, rpc_ensure_started-IsTold,
}
use llm_wake_proxy.Examples.World.{
  sample_config, sample_state, ready_status, sample_timing, small_execution,
}
use llm_wake_proxy.Examples.Texts.{sample_json}
use llm_wake_proxy.Examples.Helper.{sample_machine, sample_models, sample-IsTicking}
use llm_wake_proxy.Examples.Host.{
  verified_answer, sample_system, sample_helper_json, sample_rpc, sample_manager,
}

abbrev steady_orchestrator : LifecycleOrchestrator BackendStatus (Scheduled ℕ)
steady_orchestrator = record {
  ensure_backend = λ kind l w. (LifecycleDecision.ready ready_status, ready_status, w);
  status = λ l. l;
  degrade_embeddings = λ reason l. record l { embeddings = CapabilityState.degraded };
  mark_warming = λ l. record l { lifecycle = LifecycleState.warming };
}

-- A server that answers `{}`.
abbrev empty_answer : Upstream → ℕ → Sent × ℕ
empty_answer request w = (replied 200 (some (codes "{}")) [], w)

-- Another request gives its permit back.
abbrev others : ℕ → Slots → Slots
others w s = drop_permit s

-- The only permit is taken.
abbrev scheduled_state : AppState BackendStatus (Scheduled ℕ)
scheduled_state = record {
  config = sample_config;
  chat_lifecycle = default_status;
  embeddings_lifecycle = none;
  metrics = sample_state.metrics;
  prev_chat_tunnel_was_ready = false;
  prev_embeddings_tunnel_was_ready = false;
  cold_permits = 2;
  world = record { slots = record { available = 0; queued = 0 }; held = 0; sent = 0; rest = 0 };
}

execute-IsThrifty_example :
    IsThrifty (request_counters small_execution others empty_answer) scheduled_state (
      execute steady_orchestrator
        (scheduled small_execution others empty_answer)
        sample_json
        LifecycleRequest.chat
        []
        false
        scheduled_state)
execute-IsThrifty_example =
    execute-IsThrifty steady_orchestrator (scheduled small_execution others empty_answer)
      sample_json (request_counters small_execution others empty_answer)
      (scheduled-IsCounted small_execution others empty_answer steady_orchestrator
        (λ kind l w. (refl, refl)))
      LifecycleRequest.chat [] false scheduled_state

abbrev pub sample_clock : Clock ℕ
sample_clock = record { now = λ w. w; instant = λ w. w }

abbrev cold_held : Core (Held ℕ)
cold_held = record {
  bootstrap = default_bootstrap;
  status = default_status;
  world = record { child = none; outer = 0 };
}

-- A request that leads, at a host that is up.
abbrev led : List (Action (Held ℕ))
led = arrives LifecycleRequest.chat ∷ runs 0 ∷ runs 0 ∷ runs 0 ∷ runs 0 ∷ runs 0 ∷ runs 0 ∷ []

abbrev idle_host : Tasks.System (Held ℕ)
idle_host = record { core = cold_held; tasks = [] }

run-AnyEarned_example :
    IsUnready (
      Tasks.run
        (production_services sample_system sample_helper_json sample_clock sample_config sample_rpc
          sample_manager)
        sample_timing
        led
        idle_host)
    ⊎ AnyEarned sample_system sample_helper_json sample_clock sample_config sample_rpc
        sample_manager
        (looks
          (production_services sample_system sample_helper_json sample_clock sample_config
            sample_rpc sample_manager)
          sample_timing
          led
          idle_host)
unfolding backend_is_ready
run-AnyEarned_example =
    run-AnyEarned sample_system sample_helper_json sample_clock sample_config sample_rpc
      sample_manager sample_timing led idle_host (refl, tt)

-- The helper's answer to the proxy's command, when the host is up.
abbrev answer_of : Option Printed → EnsureStartedResponse
answer_of (some (of_ensure_started r)) = r
answer_of _ = verified_answer

abbrev printed_by : Option (Outcome ℕ) → Option Printed
printed_by none = none
printed_by (some o) = o.printed

abbrev ran : Option (Outcome ℕ) → ℕ → Result ProcessOutput String × ℕ
ran none w = (err "no outcome", w)
ran (some o) w = (
  ok (record {
    success = is_success o.exit;
    stdout = ok (text_of (λ p. "{}") o.printed);
    stderr = "";
  }),
  o.world,
)

abbrev no_env : Env
no_env = λ name. none

-- The helper's command line on the sample host.
abbrev helper_run : ℕ → Option (Outcome ℕ)
helper_run =
    remote_run sample_system sample_helper_json sample_machine sample_models (λ p. "{}") no_env
      sample_rpc (suc 120)

abbrev remote_system : System ℕ
remote_system = record sample_system { run = λ program args w. ran (helper_run w) w }

abbrev remote_json : HelperJson
remote_json = record sample_helper_json {
  ensure_started_response = λ s. ok (answer_of (printed_by (helper_run 2000)));
}

remote-IsInstalled :
    IsInstalled remote_system remote_json sample_machine sample_models
      (λ p. "{}")
      no_env
      sample_rpc
      (suc 120)
      2000
remote-IsInstalled = record { runs = λ o e. inr ("", rw e refl); reads = λ o r e h. rw (e, h) refl }

remote_timeout :
    2 * (helper_from_env (with_path sample_rpc.model_path no_env)).server_start_timeout_secs ≤ 120
unfolding helper_from_env
remote_timeout = omega arith

rpc_ensure_started-IsTold_example :
    IsTold remote_system remote_json sample_machine sample_models
      (λ p. "{}")
      no_env
      sample_rpc
      (rpc_ensure_started remote_system remote_json sample_rpc 2000)
rpc_ensure_started-IsTold_example =
    rpc_ensure_started-IsTold remote_system remote_json sample_machine sample_models (λ p. "{}")
      no_env sample_rpc sample-IsTicking 120 2000 remote_timeout refl remote-IsInstalled
