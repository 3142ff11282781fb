-- ===== src/Orchestrate/Accounting/Frames.antt =====
-- What the operations of src/orchestrate.rs leave alone: permits and counters.
use llm_wake_proxy.Orchestrate.Accounting.Statuses.{
  IsForwardedStatus, forward_streaming-IsSuccess, forward_non_streaming-IsSuccess,
}
use llm_wake_proxy.Base.{ℕ, ◌≡◌, refl, Bool, true, false, List, arith, if◌then◌else◌}
use llm_wake_proxy.Metrics.{inc_tunnel_drops}
use llm_wake_proxy.Lifecycle.Types.{LifecycleRequest, BackendStatus}
use llm_wake_proxy.Forward.{Json}
use llm_wake_proxy.State.{
  LifecycleOrchestrator, AppState, put_lifecycle, check_tunnel_drop, model_alias_for,
}
use llm_wake_proxy.Orchestrate.{
  Outside, count, ensure, forward, response_of, upstream_request, path_for,
}

module _ {L W : Type 0} where
  pub put_lifecycle-frame :
      (kind : LifecycleRequest) (l : L) (s : AppState L W)
      → ((put_lifecycle kind l s).cold_permits ≡ s.cold_permits)
        × ((put_lifecycle kind l s).metrics ≡ s.metrics)
  unfolding put_lifecycle
  put_lifecycle-frame LifecycleRequest.chat l s = (refl, refl)
  put_lifecycle-frame LifecycleRequest.embeddings l s = ground arith

module _ {L W V : Type 0} (orchestrator : LifecycleOrchestrator L W) (outside : Outside W)
    (json : Json V) where
  pub ensure-frame :
      (kind : LifecycleRequest) (s : AppState L W)
      → ((ensure orchestrator outside json kind s).1.cold_permits ≡ s.cold_permits)
        × ((ensure orchestrator outside json kind s).1.metrics ≡ s.metrics)
  unfolding ensure
  ensure-frame kind s = put_lifecycle-frame kind _ s

  pub forward-frame :
      (kind : LifecycleRequest) (body : List ℕ) (stream : Bool) (s : AppState L W)
      → let out = forward orchestrator outside json kind body stream s in
        (out.1.cold_permits ≡ s.cold_permits)
        × (out.1.metrics ≡ s.metrics)
        × IsForwardedStatus (response_of out.0).status
  unfolding forward
  forward-frame kind body true s =
      let sent = (outside.send (upstream_request kind body true s.config) s.world).0 in
      (refl, refl, forward_streaming-IsSuccess json (model_alias_for kind s.config) sent)
  forward-frame kind body false s =
      let sent = (outside.send (upstream_request kind body false s.config) s.world).0 in
      (
        refl,
        refl,
        forward_non_streaming-IsSuccess json (path_for kind) (model_alias_for kind s.config) sent,
      )

  -- The state that `handle_ready` goes on with.
  unfoldable pub noted : LifecycleRequest → BackendStatus → AppState L W → AppState L W
  noted kind status s =
      let (dropped, s') = check_tunnel_drop kind status.tunnel s in
      if dropped then count inc_tunnel_drops s' else s'

  pub noted-frame :
      (kind : LifecycleRequest) (status : BackendStatus) (s : AppState L W)
      → let t = noted kind status s in
        (t.cold_permits ≡ s.cold_permits)
        × (t.metrics.cold_starts ≡ s.metrics.cold_starts)
        × (t.metrics.wake_attempts ≡ s.metrics.wake_attempts)
        × (t.world ≡ s.world)
  unfolding noted check_tunnel_drop inc_tunnel_drops
  noted-frame LifecycleRequest.chat status s = ground arith
  noted-frame LifecycleRequest.embeddings status s = ground arith
