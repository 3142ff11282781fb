-- ===== src/Orchestrate/Counting.antt =====
-- What Orchestrator::execute uses: the requests to the upstream server, and the permits of the
-- scheduler, counted over any scheduler and any server that keep a count.
pub mod Thrift
use llm_wake_proxy.Base.{
  ℕ, ◌+◌, ◌-◌, ◌≤◌, ◌<◌, ◌≡◌, refl, Bool, Option, none, some, List, Result, ok, err, ◌⊎◌, inl, inr,
  arith, ltb, Bool-cases, ◌∙◌, ap,
}
use llm_wake_proxy.Http.{Response, ok_status, bad_request, service_unavailable, too_many_requests}
use llm_wake_proxy.Metrics.{Metrics, fetch_add, inc_wake_attempts, inc_cold_starts}
use llm_wake_proxy.Lifecycle.Types.{LifecycleRequest, BackendStatus, LifecycleDecision}
use llm_wake_proxy.Scheduler.{WarmExecutionError, queue_full, queue_timeout}
use llm_wake_proxy.Forward.{
  Json, ForwardError, upstream_unreachable, upstream_error, cancelled, embeddings_unsupported,
}
use llm_wake_proxy.State.{LifecycleOrchestrator, AppState, put_lifecycle, is_cold, lifecycle_for}
use llm_wake_proxy.Orchestrate.Accounting.Frames.{noted, noted-frame, forward-frame}
use llm_wake_proxy.Orchestrate.Accounting.Statuses.{IsForwardedStatus}
use llm_wake_proxy.Orchestrate.{
  warming_up, backend_error, response_of, Outside, Upstream, count, is_degraded_embeddings,
  warm_execution_error_response, warming_up, backend_error, ensure, set_cold_permits,
  acquire_cold_permit, embedding_degradation_response, forward, after_retry, retry, after_forward,
  after_admit, forward_via_scheduler, handle_ready, after_ensure, drop_cold_permit, after_permit,
  execute,
}

-- `held` counts the scheduler's permits that the request holds, and `sends` the requests that it sent.
pub record Counters (W : Type 0) : Type 0 where
  pub held : W → ℕ
  pub sends : W → ℕ

-- A permit was taken exactly if the request was admitted.
abbrev pub IsAdmission : {W : Type 0} → Counters W → W → Option WarmExecutionError × W → Type 0
IsAdmission counters w (none, w') =
    (counters.held w' ≡ counters.held w + 1) × (counters.sends w' ≡ counters.sends w)
IsAdmission counters w (some error, w') =
    (counters.held w' ≡ counters.held w) × (counters.sends w' ≡ counters.sends w)

-- Nothing was counted.
abbrev pub IsIdle : {W : Type 0} → Counters W → W → W → Type 0
IsIdle counters w w' = (counters.held w' ≡ counters.held w) × (counters.sends w' ≡ counters.sends w)

pub record IsCounted {L W : Type 0} (orchestrator : LifecycleOrchestrator L W) (outside : Outside W)
    (counters : Counters W) : Type 0 where
  pub admit : (kind : LifecycleRequest) (w : W) → IsAdmission counters w (outside.admit kind w)
  pub release_held : (w : W) → counters.held (outside.release w) ≡ counters.held w - 1
  pub release_sends : (w : W) → counters.sends (outside.release w) ≡ counters.sends w
  pub send_held : (u : Upstream) (w : W) → counters.held (outside.send u w).1 ≡ counters.held w
  pub send_sends :
      (u : Upstream) (w : W) → counters.sends (outside.send u w).1 ≡ counters.sends w + 1
  pub ensure_backend :
      (kind : LifecycleRequest) (l : L) (w : W)
      → IsIdle counters w (orchestrator.ensure_backend kind l w).2

module _ {L W : Type 0} (counters : Counters W) where
  -- From a state, to a response and the state after it: the permits are all given back, at most two requests
  -- were sent, two only if a wake attempt was counted, a success only if one was sent, and 429 only if none was.
  pub record IsThrifty (s : AppState L W) (out : Response × AppState L W) : Type 0 where
    pub permits : counters.held out.1.world ≡ counters.held s.world
    pub sent :
        (counters.sends out.1.world ≤ counters.sends s.world + 1)
        ⊎ ((counters.sends out.1.world ≡ counters.sends s.world + 2)
            × (out.1.metrics.wake_attempts ≡ fetch_add s.metrics.wake_attempts))
    pub served : out.0.status ≡ ok_status → counters.sends s.world < counters.sends out.1.world
    pub overloaded :
        out.0.status ≡ too_many_requests → counters.sends out.1.world ≡ counters.sends s.world

  pub put_lifecycle-world :
      (kind : LifecycleRequest) (l : L) (s : AppState L W)
      → ((put_lifecycle kind l s).world ≡ s.world) × ((put_lifecycle kind l s).metrics ≡ s.metrics)
  unfolding put_lifecycle
  put_lifecycle-world LifecycleRequest.chat l s = (refl, refl)
  put_lifecycle-world LifecycleRequest.embeddings l s = ground arith

module _ {L W V : Type 0} (orchestrator : LifecycleOrchestrator L W) (outside : Outside W)
    (json : Json V) (counters : Counters W)
    (counted : IsCounted orchestrator outside counters) where
  pub ensure-IsIdle :
      (kind : LifecycleRequest) (s : AppState L W)
      → let t = (ensure orchestrator outside json kind s).1 in
        IsIdle counters s.world t.world × (t.metrics ≡ s.metrics)
  unfolding ensure
  ensure-IsIdle kind s = (
    counted.ensure_backend kind (lifecycle_for kind s) s.world,
    (put_lifecycle-world counters kind _ s).1,
  )

  pub forward-count :
      (kind : LifecycleRequest) (body : List ℕ) (stream : Bool) (s : AppState L W)
      → let out = forward orchestrator outside json kind body stream s in
        let t = out.1 in
        (counters.held t.world ≡ counters.held s.world)
        × (counters.sends t.world ≡ counters.sends s.world + 1)
        × (t.metrics ≡ s.metrics)
        × IsForwardedStatus (response_of out.0).status
  unfolding forward
  forward-count kind body stream s = (
    counted.send_held _ s.world,
    counted.send_sends _ s.world,
    refl,
    (forward-frame orchestrator outside json kind body stream s).2,
  )

  -- At most one request more.
  after_retry-count :
      (kind : LifecycleRequest) (body : List ℕ) (stream : Bool) (d : LifecycleDecision)
      (s : AppState L W)
      → let out = after_retry orchestrator outside json kind body stream (d, s) in
        let t = out.1 in
        (counters.held t.world ≡ counters.held s.world)
        × (counters.sends t.world ≤ counters.sends s.world + 1)
        × (counters.sends s.world ≤ counters.sends t.world)
        × (t.metrics ≡ s.metrics)
        × IsForwardedStatus out.0.status
  unfolding after_retry warming_up backend_error
  after_retry-count kind body stream (LifecycleDecision.ready status) s =
      let (f, n, m, k) = forward-count kind body stream s in (f, omega arith, omega arith, m, k)
  after_retry-count kind body stream (LifecycleDecision.warming status r) s =
      (refl, omega arith, omega arith, refl, omega arith)
  after_retry-count kind body stream (LifecycleDecision.failed status e) s =
      (refl, omega arith, omega arith, refl, omega arith)

  pub retry-count :
      (kind : LifecycleRequest) (body : List ℕ) (stream : Bool) (s : AppState L W)
      → let out = retry orchestrator outside json kind body stream s in
        let t = out.1 in
        (counters.held t.world ≡ counters.held s.world)
        × (counters.sends t.world ≤ counters.sends s.world + 1)
        × (counters.sends s.world ≤ counters.sends t.world)
        × (t.metrics.wake_attempts ≡ fetch_add s.metrics.wake_attempts)
        × IsForwardedStatus out.0.status
  unfolding retry inc_wake_attempts inc_cold_starts
  retry-count kind body stream s =
      let s' = count inc_wake_attempts (count inc_cold_starts s) in
      let l = orchestrator.mark_warming (lifecycle_for kind s') in
      let (e, m) = put_lifecycle-world counters kind l s' in
      let (i, n) = ensure-IsIdle kind (put_lifecycle kind l s') in
      let (f, up, down, k, status) = after_retry-count kind body stream _ _ in
      let held : counters.held (put_lifecycle kind l s').world ≡ counters.held s.world =
        ap counters.held e in
      let sends : counters.sends (put_lifecycle kind l s').world ≡ counters.sends s.world =
        ap counters.sends e in
      (
        omega (arith, f, i, held),
        omega (arith, up, i, sends),
        omega (arith, down, i, sends),
        ap (λ (m : Metrics). m.wake_attempts) (k ∙ n ∙ m),
        status,
      )
