-- ===== src/Orchestrate/Accounting.antt =====
-- What Orchestrator::execute leaves behind, on every branch: permits, counters and the status codes.
pub mod Statuses
pub mod Frames
use llm_wake_proxy.Orchestrate.Accounting.Statuses.{
  IsKnownStatus, IsForwardedStatus, IsForwardedStatus-IsKnownStatus, IsSuccess, to_openai-status,
  forward_streaming-IsSuccess, forward_non_streaming-IsSuccess,
}
use text.Mathlib.Text.{starts_with}
use Prim.Native.String.{String}
use llm_wake_proxy.Base.{
  ℕ, ◌-◌, ◌≡◌, refl, Bool, true, false, Option, none, some, List, Result, ok, err, ◌⊎◌, inl, inr,
  arith, ltb, if◌then◌else◌, Bool-cases, ◌==◌, ◌∙◌, ◌&&◌, ap, ltb→lt,
}
use llm_wake_proxy.Http.{
  Response, ok_status, bad_request, too_many_requests, service_unavailable, not_found,
}
use llm_wake_proxy.Metrics.{
  Metrics, fetch_add, inc_cold_starts, inc_wake_attempts, inc_wake_failures, inc_warm_requests,
  inc_queue_full, inc_queue_timeouts, inc_tunnel_drops, inc_embeddings_degraded,
  inc_forwarding_errors,
}
use llm_wake_proxy.Lifecycle.Types.{LifecycleRequest, BackendStatus, LifecycleDecision}
use llm_wake_proxy.Scheduler.{WarmExecutionError, queue_full, queue_timeout}
use llm_wake_proxy.Forward.{
  Json, ForwardError, upstream_unreachable, upstream_error, cancelled, embeddings_unsupported,
  to_openai, Sent, was_cancelled, failed, replied, forward_non_streaming, forward_streaming,
  is_success,
}
use llm_wake_proxy.State.{
  LifecycleOrchestrator, AppState, put_lifecycle, check_tunnel_drop, is_cold, lifecycle_for,
  model_alias_for,
}
use llm_wake_proxy.Orchestrate.{
  Outside, count, is_degraded_embeddings, warm_execution_error_response, warming_up, backend_error,
  ensure, set_cold_permits, acquire_cold_permit, embedding_degradation_response, forward,
  response_of, after_retry, retry, after_forward, after_admit, forward_via_scheduler, handle_ready,
  after_ensure, drop_cold_permit, after_permit, execute, upstream_request, path_for,
}
use llm_wake_proxy.Orchestrate.Accounting.Frames.{
  put_lifecycle-frame, ensure-frame, forward-frame, noted, noted-frame,
}

-- The counters of cold starts and of wake attempts stand, or both count one more.
abbrev pub WakesTogether : Metrics → Metrics → Type 0
WakesTogether m m' =
    ((m'.cold_starts ≡ m.cold_starts) × (m'.wake_attempts ≡ m.wake_attempts))
    ⊎ ((m'.cold_starts ≡ fetch_add m.cold_starts) × (m'.wake_attempts ≡ fetch_add m.wake_attempts))

module _ {L W : Type 0} where
  -- From a state, to a response and the state after it.
  pub record IsAccounted (s : AppState L W) (out : Response × AppState L W) : Type 0 where
    pub permits : out.1.cold_permits ≡ s.cold_permits
    pub wakes : WakesTogether s.metrics out.1.metrics
    pub status : IsKnownStatus out.0.status

module _ {L W V : Type 0} (orchestrator : LifecycleOrchestrator L W) (outside : Outside W)
    (json : Json V) where
  after_retry-IsAccounted :
      (kind : LifecycleRequest) (body : List ℕ) (stream : Bool) (s : AppState L W)
      (d : LifecycleDecision) (t : AppState L W)
      → t.cold_permits ≡ s.cold_permits
      → WakesTogether s.metrics t.metrics
      → IsAccounted s (after_retry orchestrator outside json kind body stream (d, t))
  unfolding after_retry
  after_retry-IsAccounted kind body stream s (LifecycleDecision.ready st) t p w =
      let (p', m', k) = forward-frame orchestrator outside json kind body stream t in
      record { permits = p' ∙ p; wakes = rw m' w; status = IsForwardedStatus-IsKnownStatus _ k }
  after_retry-IsAccounted kind body stream s (LifecycleDecision.warming st r) t p w = record {
    permits = p;
    wakes = w;
    status = unfold warming_up in omega arith;
  }
  after_retry-IsAccounted kind body stream s (LifecycleDecision.failed st e) t p w = record {
    permits = p;
    wakes = w;
    status = unfold backend_error in omega arith;
  }

  retry-IsAccounted :
      (kind : LifecycleRequest) (body : List ℕ) (stream : Bool) (s : AppState L W)
      → IsAccounted s (retry orchestrator outside json kind body stream s)
  unfolding retry inc_cold_starts inc_wake_attempts
  retry-IsAccounted kind body stream s =
      let counted = count inc_wake_attempts (count inc_cold_starts s) in
      let l = orchestrator.mark_warming (lifecycle_for kind counted) in
      let (p, m) = put_lifecycle-frame kind l counted in
      let (p', m') = ensure-frame orchestrator outside json kind (put_lifecycle kind l counted) in
      after_retry-IsAccounted kind body stream s _ _ (p' ∙ p) (rw (m' ∙ m) (inr (refl, refl)))

  after_forward-IsAccounted :
      (kind : LifecycleRequest) (body : List ℕ) (stream : Bool) (r : Result Response ForwardError)
      (s : AppState L W)
      → IsKnownStatus (response_of r).status
      → IsAccounted s (after_forward orchestrator outside json kind body stream r s)
  unfolding after_forward embedding_degradation_response inc_warm_requests inc_forwarding_errors
      inc_embeddings_degraded
  after_forward-IsAccounted kind body stream (ok response) s k = record {
    permits = refl;
    wakes = inl (refl, refl);
    status = k;
  }
  after_forward-IsAccounted kind body stream (err embeddings_unsupported) s k =
      let counted = count inc_embeddings_degraded s in
      let (p, m) =
        put_lifecycle-frame LifecycleRequest.embeddings
          (orchestrator.degrade_embeddings "upstream returned 404"
            (lifecycle_for LifecycleRequest.embeddings counted))
          counted in
      record { permits = p; wakes = rw m (inl (refl, refl)); status = omega arith }
  after_forward-IsAccounted kind body stream (err upstream_unreachable) s k =
      retry-IsAccounted kind body stream s
  after_forward-IsAccounted kind body stream (err (upstream_error code m)) s k = record {
    permits = refl;
    wakes = inl (refl, refl);
    status = k;
  }
  after_forward-IsAccounted kind body stream (err cancelled) s k = record {
    permits = refl;
    wakes = inl (refl, refl);
    status = k;
  }

  IsAccounted-from :
      (s t : AppState L W) (out : Response × AppState L W)
      → t.cold_permits ≡ s.cold_permits
      → t.metrics.cold_starts ≡ s.metrics.cold_starts
      → t.metrics.wake_attempts ≡ s.metrics.wake_attempts
      → IsAccounted t out
      → IsAccounted s out
  IsAccounted-from s t out p c w a = record {
    permits = a.permits ∙ p;
    wakes = ground arith;
    status = a.status;
  }

  after_admit-IsAccounted :
      (kind : LifecycleRequest) (body : List ℕ) (stream : Bool) (e : Option WarmExecutionError)
      (w : W) (s : AppState L W)
      → IsAccounted s (after_admit orchestrator outside json kind body stream (e, w) s)
  unfolding after_admit warm_execution_error_response inc_queue_full inc_queue_timeouts
  after_admit-IsAccounted kind body stream (some queue_full) w s = record {
    permits = refl;
    wakes = inl (refl, refl);
    status = omega arith;
  }
  after_admit-IsAccounted kind body stream (some queue_timeout) w s = record {
    permits = refl;
    wakes = inl (refl, refl);
    status = omega arith;
  }
  after_admit-IsAccounted kind body stream none w s =
      let t : AppState L W = record s { world = w } in
      let out = forward orchestrator outside json kind body stream t in
      let t' : AppState L W = record (out.1) { world = outside.release out.1.world } in
      let (p, m, k) = forward-frame orchestrator outside json kind body stream t in
      IsAccounted-from s t' _ p (ap (λ (m : Metrics). m.cold_starts) m)
        (ap (λ (m : Metrics). m.wake_attempts) m)
        (after_forward-IsAccounted kind body stream out.0 t' (IsForwardedStatus-IsKnownStatus _ k))

  handle_ready-IsAccounted :
      (kind : LifecycleRequest) (body : List ℕ) (stream : Bool) (status : BackendStatus)
      (s : AppState L W)
      → IsAccounted s (handle_ready orchestrator outside json kind body stream status s)
  unfolding handle_ready forward_via_scheduler noted
  handle_ready-IsAccounted kind body stream status s =
      let (p, c, w, _) = noted-frame orchestrator outside json kind status s in
      IsAccounted-from s (noted orchestrator outside json kind status s) _ p c w
        (elim (Bool-cases (is_degraded_embeddings kind status.embeddings)) [
          | inl e ↦ rw e (record { permits = refl; wakes = inl (refl, refl); status = omega arith })
          | inr e ↦ rw e (
              after_admit-IsAccounted kind body stream _ _
                (noted orchestrator outside json kind status s))
        ])

  after_ensure-IsAccounted :
      (kind : LifecycleRequest) (body : List ℕ) (stream : Bool) (d : LifecycleDecision)
      (s : AppState L W)
      → IsAccounted s (after_ensure orchestrator outside json kind body stream (d, s))
  unfolding after_ensure warming_up backend_error inc_cold_starts inc_wake_attempts
      inc_wake_failures
  after_ensure-IsAccounted kind body stream (LifecycleDecision.ready status) s =
      handle_ready-IsAccounted kind body stream status s
  after_ensure-IsAccounted kind body stream (LifecycleDecision.warming status r) s = record {
    permits = refl;
    wakes = inr (refl, refl);
    status = omega arith;
  }
  after_ensure-IsAccounted kind body stream (LifecycleDecision.failed status e) s = record {
    permits = refl;
    wakes = inl (refl, refl);
    status = omega arith;
  }

  ensured-IsAccounted :
      (kind : LifecycleRequest) (body : List ℕ) (stream : Bool) (s : AppState L W)
      → IsAccounted s (
          after_ensure orchestrator outside json kind body stream
            (ensure orchestrator outside json kind s))
  ensured-IsAccounted kind body stream s =
      let (p, m) = ensure-frame orchestrator outside json kind s in
      IsAccounted-from s _ _ p (ap (λ (m : Metrics). m.cold_starts) m)
        (ap (λ (m : Metrics). m.wake_attempts) m) (after_ensure-IsAccounted kind body stream _ _)

  -- On every branch, `execute` gives back the cold-start permit that it took, counts a cold start and
  -- a wake attempt together or neither, and answers with 200, 400, 429 or 503.
  pub execute-IsAccounted :
      (kind : LifecycleRequest) (body : List ℕ) (stream : Bool) (s : AppState L W)
      → IsAccounted s (execute orchestrator outside json kind body stream s)
  unfolding execute acquire_cold_permit after_permit drop_cold_permit warming_up
  execute-IsAccounted kind body stream s = elim (Bool-cases (is_cold orchestrator kind s)) [
    | inl e ↦ rw e (elim (Bool-cases (ltb 0 s.cold_permits)) [
      | inl f ↦
          let a = ensured-IsAccounted kind body stream (set_cold_permits (s.cold_permits - 1) s) in
          rw f (record {
            permits = omega (arith, a.permits, ltb→lt 0 s.cold_permits f);
            wakes = a.wakes;
            status = a.status;
          })
      | inr f ↦ rw f (record { permits = refl; wakes = inl (refl, refl); status = omega arith })
    ])
    | inr e ↦ rw e (ensured-IsAccounted kind body stream s)
  ]
