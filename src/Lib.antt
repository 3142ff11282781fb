-- ===== src/Lib.antt =====
-- llm-wake-proxy: an HTTP proxy that wakes a sleeping host before it forwards requests to the model
-- server there, and the helper that runs on that host.
--
-- A request enters at a handler (App), is carried out by the orchestrator (Orchestrate), which asks
-- the lifecycle of its kind for a backend (Lifecycle), admits it to the scheduler (Scheduler) and
-- forwards it (Forward). The lifecycle works through services (Host), of which one runs the helper
-- (Helper) over ssh. The configuration (Config) says which kinds share a lifecycle (State).
--
-- Base          lists, options, results, Boolean tests and texts that the modules share. A text that
--               is taken apart is the list of its code points.
-- Config        src/config.rs. The environment is a function; a panic of `expect` is an error.
-- Http          src/http_error.rs. A response is a status, headers and a body.
-- Metrics       src/metrics.rs. The counters wrap at 2 ^ 64.
-- Lifecycle     src/lifecycle.rs. Types has the states and the traits (Services, over a world that
--               the calls change). Observe is `observe_once`. Bootstrap has the shared state, the
--               background loop on fuel, and what a waiting request makes of a status. Tasks cuts
--               `ensure_backend` and the background task at their awaits: a System is the shared
--               state with its tasks, and any list of actions (arrivals, single steps, timeouts,
--               dropped requests, calls from elsewhere, changes of the world) is a history. Seen keeps
--               the looks at the host that a history makes. Manager is the LifecycleManager as the
--               rest of the proxy calls it: what happens during a call is any list of actions, and a
--               call that is not answered by then makes its other steps, eight at most, by itself.
-- Scheduler     src/scheduler.rs. A history is a list of events on the requests, each an operation on
--               the semaphore or on the queue, so that threads may interleave between any two; an
--               event that the request's state does not allow changes nothing. The request that the
--               semaphore assigns a free permit to is a parameter (IsNext: one in the line, if there
--               is one). Abstract is the server that it stands for, with two numbers for its state.
-- Forward       src/forward.rs. JSON is a parameter with the law IsJson; so is what reqwest sends.
--               Streams has the lines of a text as what they mean.
-- State         src/state.rs. The shared lifecycle is one component of the record.
-- Production    src/state.rs, the services that AppState::production and AppState::new put together.
--               Seeing follows a look at the host through them; Remote puts HelperCli at the other end
--               of ssh, with ssh and the printing of JSON as parameters (IsInstalled). Proxy is the
--               program from src/main.rs to these services: `start` with the lifecycles of Manager.
-- Orchestrate   src/orchestrate.rs, over any lifecycle, any outside (the scheduler's answer and the
--               upstream server) and any JSON. Counting is over an outside that keeps a count
--               (IsCounted), which Scheduled fills with the scheduler, whatever other requests do.
--               Silent is over lifecycles that never find the backend ready (IsSilent), which Manager
--               fills for a host that never answers.
-- Host          src/host.rs. Processes and sockets are a parameter (System). Tunnel has the tunnel.
-- Helper        src/helper.rs. systemd, curl and the clock are a parameter (Machine). Leasing has
--               the lease that keeps the host awake. Systemd fills Machine over a parameter that runs
--               a process, with the parser of what systemctl prints.
-- HelperCli     src/bin/helper.rs, with the arguments and the environment as arguments.
-- App           src/app.rs. The parsed bodies are a parameter (Bodies); Requests has their checks.
--               Router has the table of routes.
-- Examples      the theorems at concrete inputs.
--
-- Fuel: the background loop gets more rounds than milliseconds to its deadline, since a round sleeps
-- at least one; the helper's wait gets more rounds than half seconds in its timeout, since a round
-- sleeps one. Both are then shown to return. A call of `ensure_backend` gets eight steps of its own,
-- the longest way through it, and is shown to return too. Every other loop is structural.
--
-- Requests to the whole proxy are served one after the other; the tasks of the lifecycles interleave
-- with them, and what the background does between two calls is put at the start of the later one.
--
-- A deadline is an Instant plus a number of seconds from the environment, and the program panics where
-- the sum does not fit. The boot deadline has that (`deadline_fits`). The deadlines of a waiting request
-- and of the helper's wait have no bound in the model: what is shown of them is for a
-- COLD_WAIT_BUDGET_SECS and a SERVER_START_TIMEOUT_SECS with which the sums fit.
--
-- Not modelled: the processes that are run (systemctl, systemd-run, curl, ssh), what the helper writes
-- to its standard error, extraction and serialisation (axum, serde), the order of the
-- semaphore's line, the killing of a dropped child process, the program's entry, which binds the socket, and
-- the constructors for tests.
mod Base
pub mod Config
pub mod Http
pub mod Metrics
pub mod Forward
pub mod Lifecycle
pub mod Scheduler
pub mod State
pub mod Orchestrate
pub mod Helper
pub mod HelperCli
pub mod Host
pub mod Production
pub mod App
mod Examples
