-- ===== src/Orchestrate/Routing.antt =====
-- Which backend a request touches (src/orchestrate.rs with src/state.rs).
pub mod Kept
use llm_wake_proxy.Orchestrate.Routing.Kept.{
  OtherKept, IsDual, OtherKept-refl, OtherKept-IsDual, OtherKept-trans, put_lifecycle-kept,
  check_tunnel_drop-kept, streaming-supported, non_streaming-supported, world-kept, count-kept,
  permits-kept, then-kept,
}
use Prim.Native.String.{String}
use llm_wake_proxy.Base.{
  ℕ, ◌-◌, ◌≡◌, ◌≢◌, ◌∙◌, refl, Bool, true, false, Option, none, some, List, Result, ok, err, inl,
  inr, arith, ltb, if◌then◌else◌, Bool-cases, is_some, ap,
}
use llm_wake_proxy.Http.{Response}
use llm_wake_proxy.Metrics.{
  Metrics, inc_tunnel_drops, inc_cold_starts, inc_wake_attempts, inc_wake_failures,
  inc_warm_requests, inc_queue_full, inc_queue_timeouts, inc_embeddings_degraded,
  inc_forwarding_errors,
}
use llm_wake_proxy.Lifecycle.Types.{LifecycleRequest, BackendStatus, LifecycleDecision}
use llm_wake_proxy.Scheduler.{WarmExecutionError, queue_full, queue_timeout}
use llm_wake_proxy.Forward.{
  Json, ForwardError, upstream_unreachable, upstream_error, cancelled, embeddings_unsupported, Sent,
  was_cancelled, failed, replied, forward_non_streaming, forward_streaming,
}
use llm_wake_proxy.State.{
  LifecycleOrchestrator, AppState, put_lifecycle, check_tunnel_drop, is_cold, lifecycle_for,
}
use llm_wake_proxy.Orchestrate.{
  Outside, count, is_degraded_embeddings, ensure, set_cold_permits, acquire_cold_permit,
  embedding_degradation_response, forward, path_for, after_retry, retry, after_forward, after_admit,
  forward_via_scheduler, handle_ready, after_ensure, drop_cold_permit, after_permit, execute,
}

module _ {L W V : Type 0} (orchestrator : LifecycleOrchestrator L W) (outside : Outside W)
    (json : Json V) where
  forward-kept :
      (kind : LifecycleRequest) (body : List ℕ) (stream : Bool) (s : AppState L W)
      → IsDual s
      → OtherKept kind s (forward orchestrator outside json kind body stream s).1
  unfolding forward
  forward-kept LifecycleRequest.chat body stream s d = (refl, refl)
  forward-kept LifecycleRequest.embeddings body stream s d = (d, refl, refl)

  ensure-kept :
      (kind : LifecycleRequest) (s : AppState L W)
      → IsDual s
      → OtherKept kind s (ensure orchestrator outside json kind s).1
  unfolding ensure
  ensure-kept kind s d =
      let (decision, l, w) = orchestrator.ensure_backend kind (lifecycle_for kind s) s.world in
      then-kept kind s (put_lifecycle kind l s) _ d (put_lifecycle-kept kind l s d)
        (world-kept kind (put_lifecycle kind l s) w)

  after_retry-kept :
      (kind : LifecycleRequest) (body : List ℕ) (stream : Bool) (decision : LifecycleDecision)
      (s : AppState L W)
      → IsDual s
      → OtherKept kind s (after_retry orchestrator outside json kind body stream (decision, s)).1
  unfolding after_retry
  after_retry-kept kind body stream (LifecycleDecision.ready status) s d =
      forward-kept kind body stream s d
  after_retry-kept kind body stream (LifecycleDecision.warming status r) s d =
      OtherKept-refl kind s d
  after_retry-kept kind body stream (LifecycleDecision.failed status e) s d =
      OtherKept-refl kind s d

  retry-kept :
      (kind : LifecycleRequest) (body : List ℕ) (stream : Bool) (s : AppState L W)
      → IsDual s
      → OtherKept kind s (retry orchestrator outside json kind body stream s).1
  unfolding retry
  retry-kept kind body stream s d =
      let once = count inc_cold_starts s in
      let counted = count inc_wake_attempts once in
      let marked =
        put_lifecycle kind (orchestrator.mark_warming (lifecycle_for kind counted)) counted in
      let ensured = ensure orchestrator outside json kind marked in
      then-kept kind s once _ d (count-kept kind s inc_cold_starts d) (λ d.
        then-kept kind once counted _ d (count-kept kind once inc_wake_attempts d) (λ d.
          then-kept kind counted marked _ d (put_lifecycle-kept kind _ counted d) (λ d.
            then-kept kind marked ensured.1 _ d (ensure-kept kind marked d)
              (after_retry-kept kind body stream ensured.0 ensured.1))))

  -- A chat request is never told that embeddings are unsupported.
  Supported : LifecycleRequest → Result Response ForwardError → Type 0
  Supported LifecycleRequest.chat r = r ≢ err embeddings_unsupported
  Supported LifecycleRequest.embeddings r = r ≡ r

  forward-Supported :
      (kind : LifecycleRequest) (body : List ℕ) (stream : Bool) (s : AppState L W)
      → Supported kind (forward orchestrator outside json kind body stream s).0
  unfolding forward Supported path_for
  forward-Supported LifecycleRequest.chat body true s = streaming-supported json _ _
  forward-Supported LifecycleRequest.chat body false s = non_streaming-supported json _ _
  forward-Supported LifecycleRequest.embeddings body stream s = refl

  after_forward-kept :
      (kind : LifecycleRequest) (body : List ℕ) (stream : Bool) (r : Result Response ForwardError)
      (s : AppState L W)
      → Supported kind r
      → IsDual s
      → OtherKept kind s (after_forward orchestrator outside json kind body stream r s).1
  unfolding after_forward Supported embedding_degradation_response
  after_forward-kept kind body stream (ok response) s u d = count-kept kind s inc_warm_requests d
  after_forward-kept LifecycleRequest.chat body stream (err embeddings_unsupported) s u d =
      absurd (u refl)
  after_forward-kept LifecycleRequest.embeddings body stream (err embeddings_unsupported) s u d =
      let kind = LifecycleRequest.embeddings in
      let counted = count inc_embeddings_degraded s in
      let l =
        orchestrator.degrade_embeddings "upstream returned 404" (lifecycle_for kind counted) in
      then-kept kind s counted (put_lifecycle kind l counted) d
        (count-kept kind s inc_embeddings_degraded d) (put_lifecycle-kept kind l counted)
  after_forward-kept kind body stream (err upstream_unreachable) s u d =
      retry-kept kind body stream s d
  after_forward-kept kind body stream (err (upstream_error code m)) s u d =
      count-kept kind s inc_forwarding_errors d
  after_forward-kept kind body stream (err cancelled) s u d =
      count-kept kind s inc_forwarding_errors d

  after_admit-kept :
      (kind : LifecycleRequest) (body : List ℕ) (stream : Bool) (e : Option WarmExecutionError)
      (w : W) (s : AppState L W)
      → IsDual s
      → OtherKept kind s (after_admit orchestrator outside json kind body stream (e, w) s).1
  unfolding after_admit
  after_admit-kept kind body stream (some queue_full) w s d =
      let t : AppState L W = record s { world = w } in
      then-kept kind s t _ d (world-kept kind s w d) (count-kept kind t inc_queue_full)
  after_admit-kept kind body stream (some queue_timeout) w s d =
      let t : AppState L W = record s { world = w } in
      then-kept kind s t _ d (world-kept kind s w d) (count-kept kind t inc_queue_timeouts)
  after_admit-kept kind body stream none w s d =
      let t : AppState L W = record s { world = w } in
      let out = forward orchestrator outside json kind body stream t in
      let released : AppState L W = record (out.1) { world = outside.release out.1.world } in
      then-kept kind s t _ d (world-kept kind s w d) (λ d.
        then-kept kind t out.1 _ d (forward-kept kind body stream t d) (λ d.
          then-kept kind out.1 released _ d (world-kept kind out.1 _ d) (
            after_forward-kept kind body stream out.0 released
              (forward-Supported kind body stream t))))

  handle_ready-kept :
      (kind : LifecycleRequest) (body : List ℕ) (stream : Bool) (status : BackendStatus)
      (s : AppState L W)
      → IsDual s
      → OtherKept kind s (handle_ready orchestrator outside json kind body stream status s).1
  unfolding handle_ready forward_via_scheduler
  handle_ready-kept kind body stream status s d =
      let (dropped, s') = check_tunnel_drop kind status.tunnel s in
      let counted = if dropped then count inc_tunnel_drops s' else s' in
      then-kept kind s counted _ d (check_tunnel_drop-kept kind status s d) (λ d.
        elim (Bool-cases (is_degraded_embeddings kind status.embeddings)) [
          | inl e ↦ rw e (OtherKept-refl kind counted d)
          | inr e ↦ rw e (after_admit-kept kind body stream _ _ counted d)
        ])

  after_ensure-kept :
      (kind : LifecycleRequest) (body : List ℕ) (stream : Bool) (decision : LifecycleDecision)
      (s : AppState L W)
      → IsDual s
      → OtherKept kind s (after_ensure orchestrator outside json kind body stream (decision, s)).1
  unfolding after_ensure
  after_ensure-kept kind body stream (LifecycleDecision.ready status) s d =
      handle_ready-kept kind body stream status s d
  after_ensure-kept kind body stream (LifecycleDecision.warming status r) s d =
      let once = count inc_cold_starts s in
      then-kept kind s once _ d (count-kept kind s inc_cold_starts d)
        (count-kept kind once inc_wake_attempts)
  after_ensure-kept kind body stream (LifecycleDecision.failed status e) s d =
      count-kept kind s inc_wake_failures d

  ensured-kept :
      (kind : LifecycleRequest) (body : List ℕ) (stream : Bool) (s : AppState L W)
      → IsDual s
      → OtherKept kind s
          (after_ensure orchestrator outside json kind body stream
            (ensure orchestrator outside json kind s)).1
  ensured-kept kind body stream s d =
      let e = ensure orchestrator outside json kind s in
      then-kept kind s e.1 _ d (ensure-kept kind s d) (after_ensure-kept kind body stream e.0 e.1)

  -- In dual-backend mode a request never changes the lifecycle, or the note about the tunnel, of the
  -- other kind: a failing, slow or unsupported embeddings server leaves chat as it was, and the other
  -- way round.
  pub execute-OtherKept :
      (kind : LifecycleRequest) (body : List ℕ) (stream : Bool) (s : AppState L W)
      → IsDual s
      → OtherKept kind s (execute orchestrator outside json kind body stream s).1
  unfolding execute acquire_cold_permit after_permit drop_cold_permit
  execute-OtherKept kind body stream s d = elim (Bool-cases (is_cold orchestrator kind s)) [
    | inl e ↦ rw e (elim (Bool-cases (ltb 0 s.cold_permits)) [
      | inl f ↦
          let t = set_cold_permits (s.cold_permits - 1) s in
          let out =
            after_ensure orchestrator outside json kind body stream
              (ensure orchestrator outside json kind t) in
          rw f (
            then-kept kind s t _ d (permits-kept kind s _ d) (λ d.
              then-kept kind t out.1 _ d (ensured-kept kind body stream t d)
                (permits-kept kind out.1 _)))
      | inr f ↦ rw f (OtherKept-refl kind s d)
    ])
    | inr e ↦ rw e (ensured-kept kind body stream s d)
  ]
