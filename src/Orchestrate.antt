-- ===== src/Orchestrate.antt =====
-- src/orchestrate.rs: a validated request on its way through the cold-start limit, the lifecycle, the
-- scheduler and the upstream server.
mod Responses
pub mod Accounting
pub mod Routing
pub mod Bypass
pub mod Counting
pub mod Scheduled
pub mod Silent
pub mod Success
unfoldable pub use Responses.*
use llm_wake_proxy.Config.Types.{AppConfig}
use Prim.Native.String
use Prim.Native.String.{String}
use llm_wake_proxy.Base.{
  ℕ, zero, suc, ◌+◌, ◌-◌, Bool, true, false, ◌&&◌, Option, none, some, List, Result, ok, err, ok_or,
  ltb, if◌then◌else◌, codes, ◌++◌, unwrap_or, [],
}
use llm_wake_proxy.Http.{
  Response, openai_error, bad_request, too_many_requests, service_unavailable, to_text,
}
use llm_wake_proxy.Metrics.{
  Metrics, inc_cold_starts, inc_wake_attempts, inc_wake_failures, inc_warm_requests, inc_queue_full,
  inc_queue_timeouts, inc_tunnel_drops, inc_embeddings_degraded, inc_forwarding_errors,
}
use llm_wake_proxy.Lifecycle.Types.{
  CapabilityState, LifecycleRequest, BackendStatus, LifecycleDecision,
}
use llm_wake_proxy.Scheduler.{WarmExecutionError, queue_full, queue_timeout, message}
use llm_wake_proxy.Forward.{
  Json, ForwardError, upstream_unreachable, upstream_error, cancelled, embeddings_unsupported,
  to_openai, Sent, forward_non_streaming, forward_streaming,
}
use llm_wake_proxy.State.{
  LifecycleOrchestrator, AppState, is_cold, lifecycle_for, put_lifecycle, check_tunnel_drop,
  tunnel_port_for, model_alias_for,
}

module _ {L W : Type 0} where
  abbrev pub count : (Metrics → Metrics) → AppState L W → AppState L W
  count inc s = record s { metrics = inc s.metrics }

  abbrev pub set_cold_permits : ℕ → AppState L W → AppState L W
  set_cold_permits n s = record s { cold_permits = n }

  -- The permit, if one was taken, goes back when `execute` is left.
  drop_cold_permit : Bool → Response × AppState L W → Response × AppState L W
  drop_cold_permit false r = r
  drop_cold_permit true (response, s) = (response, set_cold_permits (s.cold_permits + 1) s)

abbrev pub response_of : Result Response ForwardError → Response
response_of (ok response) = response
response_of (err error) = to_openai error

module _ {L W V : Type 0} (orchestrator : LifecycleOrchestrator L W) (outside : Outside W)
    (json : Json V) where
  -- `lifecycle_for(&kind).ensure_backend(kind).await`
  unfoldable pub ensure : LifecycleRequest → AppState L W → LifecycleDecision × AppState L W
  unfolding lifecycle_for put_lifecycle
  ensure kind s =
      let (decision, l, w) = orchestrator.ensure_backend kind (lifecycle_for kind s) s.world in
      (decision, record (put_lifecycle kind l s) { world = w })

  -- `true` if a permit was taken.
  unfoldable pub acquire_cold_permit :
      LifecycleRequest → AppState L W → Result (Bool × AppState L W) Response
  unfolding is_cold warming_up
  acquire_cold_permit kind s =
      if is_cold orchestrator kind s
      then if ltb 0 s.cold_permits
        then ok (true, set_cold_permits (s.cold_permits - 1) s)
        else err (warming_up "cold-start queue is full, retry later" "10")
      else ok (false, s)

  -- `embedding_degradation_response`
  unfoldable pub embedding_degradation_response : String → AppState L W → Response × AppState L W
  unfolding lifecycle_for put_lifecycle openai_error
  embedding_degradation_response reason s = (
    openai_error bad_request "unsupported_embeddings"
        (codes "upstream backend does not support embeddings: " ++ codes reason) none,
    put_lifecycle LifecycleRequest.embeddings
        (orchestrator.degrade_embeddings reason (lifecycle_for LifecycleRequest.embeddings s)) s,
  )

  -- One call of `forward_streaming` or `forward_non_streaming`.
  unfoldable pub forward :
      LifecycleRequest → List ℕ → Bool → AppState L W → Result Response ForwardError × AppState L W
  forward kind body stream s =
      let (sent, w) = outside.send (upstream_request kind body stream s.config) s.world in
      (
        (if stream
            then forward_streaming json (model_alias_for kind s.config) sent
            else forward_non_streaming json (path_for kind) (model_alias_for kind s.config) sent),
        record s { world = w },
      )

  after_retry :
      LifecycleRequest → List ℕ → Bool → LifecycleDecision × AppState L W → Response × AppState L W
  unfolding forward backend_error warming_up
  after_retry kind body stream (LifecycleDecision.ready status, s) =
      let (r, s') = forward kind body stream s in (response_of r, s')
  after_retry kind body stream (LifecycleDecision.warming status retry_after_secs, s) =
      (warming_up "backend is still starting" (to_text retry_after_secs), s)
  after_retry kind body stream (LifecycleDecision.failed status error, s) =
      (backend_error error.message, s)

  -- The upstream server cannot be reached: the backend is marked and started once more.
  unfoldable pub retry : LifecycleRequest → List ℕ → Bool → AppState L W → Response × AppState L W
  unfolding after_retry ensure lifecycle_for put_lifecycle
  retry kind body stream s =
      let counted = count inc_wake_attempts (count inc_cold_starts s) in
      let marked =
        put_lifecycle kind (orchestrator.mark_warming (lifecycle_for kind counted)) counted in
      after_retry kind body stream (ensure kind marked)

  after_forward :
      LifecycleRequest
      → List ℕ
      → Bool
      → Result Response ForwardError
      → AppState L W
      → Response × AppState L W
  unfolding retry embedding_degradation_response
  after_forward kind body stream (ok response) s = (response, count inc_warm_requests s)
  after_forward kind body stream (err embeddings_unsupported) s =
      embedding_degradation_response "upstream returned 404" (count inc_embeddings_degraded s)
  after_forward kind body stream (err upstream_unreachable) s = retry kind body stream s
  after_forward kind body stream (err (upstream_error status m)) s =
      (to_openai (upstream_error status m), count inc_forwarding_errors s)
  after_forward kind body stream (err cancelled) s =
      (to_openai cancelled, count inc_forwarding_errors s)

  after_admit :
      LifecycleRequest
      → List ℕ
      → Bool
      → Option WarmExecutionError × W
      → AppState L W
      → Response × AppState L W
  unfolding after_forward forward warm_execution_error_response
  after_admit kind body stream (some queue_full, w) s =
      (warm_execution_error_response queue_full, count inc_queue_full (record s { world = w }))
  after_admit kind body stream (some queue_timeout, w) s = (
    warm_execution_error_response queue_timeout,
    count inc_queue_timeouts (record s { world = w }),
  )
  after_admit kind body stream (none, w) s =
      let (r, s') = forward kind body stream (record s { world = w }) in
      after_forward kind body stream r (record s' { world = outside.release s'.world })

  unfoldable pub forward_via_scheduler :
      LifecycleRequest → List ℕ → Bool → AppState L W → Response × AppState L W
  unfolding after_admit
  forward_via_scheduler kind body stream s =
      after_admit kind body stream (outside.admit kind s.world) s

  -- `handle_ready`
  unfoldable pub handle_ready :
      LifecycleRequest → List ℕ → Bool → BackendStatus → AppState L W → Response × AppState L W
  unfolding check_tunnel_drop is_degraded_embeddings forward_via_scheduler openai_error
  handle_ready kind body stream status s =
      let (dropped, s') = check_tunnel_drop kind status.tunnel s in
      let counted = if dropped then count inc_tunnel_drops s' else s' in
      if is_degraded_embeddings kind status.embeddings
      then (
        openai_error bad_request "unsupported_embeddings"
            (codes (unwrap_or status.embeddings_reason "embeddings are degraded")) none,
        counted,
      )
      else forward_via_scheduler kind body stream counted

  after_ensure :
      LifecycleRequest → List ℕ → Bool → LifecycleDecision × AppState L W → Response × AppState L W
  unfolding handle_ready warming_up backend_error
  after_ensure kind body stream (LifecycleDecision.ready status, s) =
      handle_ready kind body stream status s
  after_ensure kind body stream (LifecycleDecision.warming status retry_after_secs, s) = (
    warming_up "backend is still starting" (to_text retry_after_secs),
    count inc_wake_attempts (count inc_cold_starts s),
  )
  after_ensure kind body stream (LifecycleDecision.failed status error, s) =
      (backend_error error.message, count inc_wake_failures s)

  after_permit :
      LifecycleRequest
      → List ℕ
      → Bool
      → AppState L W
      → Result (Bool × AppState L W) Response
      → Response × AppState L W
  unfolding drop_cold_permit after_ensure ensure
  after_permit kind body stream s (err response) = (response, s)
  after_permit kind body stream s (ok (taken, s')) =
      drop_cold_permit taken (after_ensure kind body stream (ensure kind s'))

  -- `Orchestrator::execute`
  unfoldable pub execute : LifecycleRequest → List ℕ → Bool → AppState L W → Response × AppState L W
  unfolding after_permit acquire_cold_permit
  execute kind body stream s = after_permit kind body stream s (acquire_cold_permit kind s)
