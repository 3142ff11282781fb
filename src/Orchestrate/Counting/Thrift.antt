-- ===== src/Orchestrate/Counting/Thrift.antt =====
-- What Orchestrator::execute uses, branch by branch.
use llm_wake_proxy.Base.{
  ℕ, ◌+◌, ◌-◌, ◌<◌, ◌≡◌, refl, Bool, Option, none, some, List, Result, ok, err, inl, inr, arith,
  ltb, Bool-cases, ◌∙◌, ap,
}
use llm_wake_proxy.Http.{Response, ok_status}
use llm_wake_proxy.Metrics.{Metrics, fetch_add}
use llm_wake_proxy.Lifecycle.Types.{LifecycleRequest, BackendStatus, LifecycleDecision}
use llm_wake_proxy.Scheduler.{WarmExecutionError, queue_full, queue_timeout}
use llm_wake_proxy.Forward.{
  Json, ForwardError, upstream_unreachable, upstream_error, cancelled, embeddings_unsupported,
}
use llm_wake_proxy.State.{LifecycleOrchestrator, AppState, is_cold}
use llm_wake_proxy.Orchestrate.Accounting.Frames.{noted, noted-frame}
use llm_wake_proxy.Orchestrate.Accounting.Statuses.{IsForwardedStatus}
use llm_wake_proxy.Orchestrate.{
  response_of, Outside, is_degraded_embeddings, warm_execution_error_response, warming_up,
  backend_error, ensure, set_cold_permits, acquire_cold_permit, embedding_degradation_response,
  forward, after_forward, after_admit, forward_via_scheduler, handle_ready, after_ensure,
  drop_cold_permit, after_permit, execute,
}
use llm_wake_proxy.Orchestrate.Counting.{
  Counters, IsAdmission, IsIdle, IsCounted, IsThrifty, put_lifecycle-world, ensure-IsIdle,
  forward-count, retry-count,
}

module _ {L W V : Type 0} (orchestrator : LifecycleOrchestrator L W) (outside : Outside W)
    (json : Json V) (counters : Counters W)
    (counted : IsCounted orchestrator outside counters) where
  -- Nothing was sent, and the answer is no success.
  refused-IsThrifty :
      (s t : AppState L W) (response : Response)
      → counters.held t.world ≡ counters.held s.world
      → counters.sends t.world ≡ counters.sends s.world
      → ok_status < response.status
      → IsThrifty counters s (response, t)
  refused-IsThrifty s t response f n h = record {
    permits = f;
    sent = inl (omega arith);
    served = λ e. omega arith;
    overloaded = λ e. n;
  }

  -- One request was sent.
  answered-IsThrifty :
      (s t : AppState L W) (response : Response)
      → counters.held t.world ≡ counters.held s.world
      → counters.sends t.world ≡ counters.sends s.world + 1
      → IsForwardedStatus response.status
      → IsThrifty counters s (response, t)
  answered-IsThrifty s t response f n k = record {
    permits = f;
    sent = inl (omega arith);
    served = λ e. omega arith;
    overloaded = λ e. absurd (omega (arith, e, k));
  }

  after_forward-IsThrifty :
      (kind : LifecycleRequest) (body : List ℕ) (stream : Bool) (r : Result Response ForwardError)
      (s t : AppState L W)
      → counters.held t.world ≡ counters.held s.world
      → counters.sends t.world ≡ counters.sends s.world + 1
      → t.metrics ≡ s.metrics
      → IsForwardedStatus (response_of r).status
      → IsThrifty counters s (after_forward orchestrator outside json kind body stream r t)
  unfolding after_forward embedding_degradation_response
  after_forward-IsThrifty kind body stream (ok response) s t f n m k =
      answered-IsThrifty s _ response f n k
  after_forward-IsThrifty kind body stream (err embeddings_unsupported) s t f n m k =
      let e = (put_lifecycle-world counters LifecycleRequest.embeddings _ _).0 in
      answered-IsThrifty s _ _ (ap counters.held e ∙ f) (ap counters.sends e ∙ n) (omega arith)
  after_forward-IsThrifty kind body stream (err upstream_unreachable) s t f n m k =
      let (g, up, down, w, status) =
        retry-count orchestrator outside json counters counted kind body stream t in
      record {
        permits = g ∙ f;
        sent = omega (arith, up, down, n, w ∙ ap (λ (m : Metrics). fetch_add m.wake_attempts) m);
        served = λ e. omega (arith, down, n);
        overloaded = λ e. absurd (omega (arith, e, status));
      }
  after_forward-IsThrifty kind body stream (err (upstream_error code m')) s t f n m k =
      answered-IsThrifty s _ _ f n k
  after_forward-IsThrifty kind body stream (err cancelled) s t f n m k =
      answered-IsThrifty s _ _ f n k

  after_admit-IsThrifty :
      (kind : LifecycleRequest) (body : List ℕ) (stream : Bool) (e : Option WarmExecutionError)
      (w : W) (s : AppState L W)
      → IsAdmission counters s.world (e, w)
      → IsThrifty counters s (after_admit orchestrator outside json kind body stream (e, w) s)
  unfolding after_admit warm_execution_error_response
  after_admit-IsThrifty kind body stream (some queue_full) w s a =
      refused-IsThrifty s _ _ (a.0) (a.1) (omega arith)
  after_admit-IsThrifty kind body stream (some queue_timeout) w s a =
      refused-IsThrifty s _ _ (a.0) (a.1) (omega arith)
  after_admit-IsThrifty kind body stream none w s a =
      let t : AppState L W = record s { world = w } in
      let t' = (forward orchestrator outside json kind body stream t).1 in
      let (f, n, m, k) =
        forward-count orchestrator outside json counters counted kind body stream t in
      after_forward-IsThrifty kind body stream
        (forward orchestrator outside json kind body stream t).0 s
        (record t' { world = outside.release t'.world })
        (omega (arith, counted.release_held t'.world, f, a.0))
        (omega (arith, counted.release_sends t'.world, n, a.1)) m k

  IsThrifty-from :
      (s t : AppState L W) (out : Response × AppState L W)
      → IsIdle counters s.world t.world
      → t.metrics.wake_attempts ≡ s.metrics.wake_attempts
      → IsThrifty counters t out
      → IsThrifty counters s out
  IsThrifty-from s t out i m h = record {
    permits = h.permits ∙ i.0;
    sent = ground (arith, h.sent);
    served = λ e. omega (arith, h.served e, i.1);
    overloaded = λ e. h.overloaded e ∙ i.1;
  }

  handle_ready-IsThrifty :
      (kind : LifecycleRequest) (body : List ℕ) (stream : Bool) (status : BackendStatus)
      (s : AppState L W)
      → IsThrifty counters s (handle_ready orchestrator outside json kind body stream status s)
  unfolding handle_ready forward_via_scheduler noted
  handle_ready-IsThrifty kind body stream status s =
      let t = noted orchestrator outside json kind status s in
      let (_, _, m, e) = noted-frame orchestrator outside json kind status s in
      IsThrifty-from s t _ (ap counters.held e, ap counters.sends e) m
        (elim (Bool-cases (is_degraded_embeddings kind status.embeddings)) [
          | inl h ↦ rw h (refused-IsThrifty t t _ refl refl (omega arith))
          | inr h ↦ rw h (after_admit-IsThrifty kind body stream _ _ t (counted.admit kind t.world))
        ])

  after_ensure-IsThrifty :
      (kind : LifecycleRequest) (body : List ℕ) (stream : Bool) (d : LifecycleDecision)
      (s : AppState L W)
      → IsThrifty counters s (after_ensure orchestrator outside json kind body stream (d, s))
  unfolding after_ensure warming_up backend_error
  after_ensure-IsThrifty kind body stream (LifecycleDecision.ready status) s =
      handle_ready-IsThrifty kind body stream status s
  after_ensure-IsThrifty kind body stream (LifecycleDecision.warming status r) s =
      refused-IsThrifty s _ _ refl refl (omega arith)
  after_ensure-IsThrifty kind body stream (LifecycleDecision.failed status e) s =
      refused-IsThrifty s _ _ refl refl (omega arith)

  ensured-IsThrifty :
      (kind : LifecycleRequest) (body : List ℕ) (stream : Bool) (s : AppState L W)
      → IsThrifty counters s (
          after_ensure orchestrator outside json kind body stream
            (ensure orchestrator outside json kind s))
  ensured-IsThrifty kind body stream s =
      let (i, m) = ensure-IsIdle orchestrator outside json counters counted kind s in
      IsThrifty-from s _ _ i (ap (λ (m : Metrics). m.wake_attempts) m)
        (after_ensure-IsThrifty kind body stream _ _)

  -- If the permits that a request holds and the requests that it sends to the upstream server are
  -- counted, and the orchestrator changes neither count, then on every branch `execute` gives back
  -- the permits of the scheduler that it took, sends at most two
  -- requests, two only with a wake attempt counted, answers with 200 only if it sent one, and with 429
  -- only if it sent none.
  pub execute-IsThrifty :
      (kind : LifecycleRequest) (body : List ℕ) (stream : Bool) (s : AppState L W)
      → IsThrifty counters s (execute orchestrator outside json kind body stream s)
  unfolding execute acquire_cold_permit after_permit drop_cold_permit warming_up
  execute-IsThrifty kind body stream s = elim (Bool-cases (is_cold orchestrator kind s)) [
    | inl e ↦ rw e (elim (Bool-cases (ltb 0 s.cold_permits)) [
      | inl f ↦
          let h = ensured-IsThrifty kind body stream (set_cold_permits (s.cold_permits - 1) s) in
          rw f (record {
            permits = h.permits;
            sent = h.sent;
            served = h.served;
            overloaded = h.overloaded;
          })
      | inr f ↦ rw f (refused-IsThrifty s s _ refl refl (omega arith))
    ])
    | inr e ↦ rw e (ensured-IsThrifty kind body stream s)
  ]
