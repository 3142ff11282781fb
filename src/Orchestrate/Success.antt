-- ===== src/Orchestrate/Success.antt =====
-- src/orchestrate.rs, Orchestrator::execute: a request to a backend that is ready.
use llm_wake_proxy.Base.{
  ℕ, ◌≡◌, ◌-◌, ◌<◌, ◌∙◌, refl, Bool, false, none, List, Result, ok, Bool-cases, inl, inr, ap, arith,
  if◌then◌else◌, subst, sym, lt→ltb,
}
use llm_wake_proxy.Config.Types.{AppConfig}
use llm_wake_proxy.Lifecycle.Types.{LifecycleRequest, BackendStatus, LifecycleDecision}
use llm_wake_proxy.Http.{Response}
use llm_wake_proxy.Metrics.{inc_tunnel_drops}
use llm_wake_proxy.Forward.{Json, ForwardError, Sent, forward_non_streaming, forward_streaming}
use llm_wake_proxy.State.{
  LifecycleOrchestrator, AppState, lifecycle_for, put_lifecycle, is_cold, check_tunnel_drop,
  model_alias_for,
}
use llm_wake_proxy.Orchestrate.{
  Outside, upstream_request, path_for, count, is_degraded_embeddings, ensure, forward,
  after_forward, after_admit, forward_via_scheduler, handle_ready, after_ensure, execute,
  acquire_cold_permit, after_permit, drop_cold_permit, set_cold_permits,
}

module _ {L W V : Type 0} (orchestrator : LifecycleOrchestrator L W) (outside : Outside W)
    (json : Json V) where
  -- How the answer to a request is made of what the upstream server sent.
  abbrev pub passed_on : LifecycleRequest → Bool → AppConfig → Sent → Result Response ForwardError
  passed_on kind stream config sent =
      if stream
      then forward_streaming json (model_alias_for kind config) sent
      else forward_non_streaming json (path_for kind) (model_alias_for kind config) sent

  -- From a world, the scheduler admits the request and the upstream server sends an answer that is passed
  -- on as the response.
  pub record IsServing (kind : LifecycleRequest) (body : List ℕ) (stream : Bool)
      (config : AppConfig) (w : W) (response : Response) : Type 0 where
    pub admitted : W
    pub left : W
    pub sent : Sent
    pub admits : outside.admit kind w ≡ (none, admitted)
    pub sends : outside.send (upstream_request kind body stream config) admitted ≡ (sent, left)
    pub passes : passed_on kind stream config sent ≡ ok response

  after_admit-passes :
      (kind : LifecycleRequest) (body : List ℕ) (stream : Bool) (s : AppState L W)
      (response : Response)
      → IsServing kind body stream s.config s.world response
      → (forward_via_scheduler orchestrator outside json kind body stream s).0 ≡ response
  unfolding forward_via_scheduler after_admit forward after_forward
  after_admit-passes kind body stream s response h = rw h.admits (rw h.sends (rw h.passes refl))

  -- A state with the same configuration and world.
  forward_via_scheduler-passes :
      (kind : LifecycleRequest) (body : List ℕ) (stream : Bool) (s s' : AppState L W)
      (response : Response)
      → s'.config ≡ s.config
      → s'.world ≡ s.world
      → IsServing kind body stream s.config s.world response
      → (forward_via_scheduler orchestrator outside json kind body stream s').0 ≡ response
  forward_via_scheduler-passes kind body stream s s' response c w h =
      after_admit-passes kind body stream s' response (
        subst (λ v. IsServing kind body stream s'.config v response) (sym w)
          (subst (λ k. IsServing kind body stream k s.world response) (sym c) h))

  noted-same :
      (kind : LifecycleRequest) (status : BackendStatus) (s : AppState L W)
      → let (dropped, s') = check_tunnel_drop kind status.tunnel s in
        let counted = if dropped then count inc_tunnel_drops s' else s' in
        (counted.config ≡ s.config) × (counted.world ≡ s.world)
  unfolding check_tunnel_drop
  noted-same LifecycleRequest.chat status s = ground arith
  noted-same LifecycleRequest.embeddings status s = ground arith

  handle_ready-passes :
      (kind : LifecycleRequest) (body : List ℕ) (stream : Bool) (status : BackendStatus)
      (s : AppState L W) (response : Response)
      → is_degraded_embeddings kind status.embeddings ≡ false
      → IsServing kind body stream s.config s.world response
      → (handle_ready orchestrator outside json kind body stream status s).0 ≡ response
  unfolding handle_ready
  handle_ready-passes kind body stream status s response d h =
      let (dropped, s') = check_tunnel_drop kind status.tunnel s in
      let (c, w) = noted-same kind status s in
      rw d (
        forward_via_scheduler-passes kind body stream s
          (if dropped then count inc_tunnel_drops s' else s') response c w h)

  put_lifecycle-config :
      (kind : LifecycleRequest) (l : L) (s : AppState L W)
      → (put_lifecycle kind l s).config ≡ s.config
  unfolding put_lifecycle
  put_lifecycle-config LifecycleRequest.chat l s = refl
  put_lifecycle-config LifecycleRequest.embeddings l s = ground arith

  after_ensure-passes :
      (kind : LifecycleRequest) (body : List ℕ) (stream : Bool) (s : AppState L W)
      (status : BackendStatus) (l : L) (w : W) (response : Response)
      → orchestrator.ensure_backend kind (lifecycle_for kind s) s.world
        ≡ (LifecycleDecision.ready status, l, w)
      → is_degraded_embeddings kind status.embeddings ≡ false
      → IsServing kind body stream s.config w response
      → (after_ensure orchestrator outside json kind body stream
          (ensure orchestrator outside json kind s)).0
        ≡ response
  unfolding after_ensure ensure
  after_ensure-passes kind body stream s status l w response e d h = rw e (
      handle_ready-passes kind body stream status (record (put_lifecycle kind l s) { world = w })
        response d
        (subst (λ k. IsServing kind body stream k w response) (sym (put_lifecycle-config kind l s))
          h))

  lifecycle_for-permits :
      (kind : LifecycleRequest) (n : ℕ) (s : AppState L W)
      → lifecycle_for kind (set_cold_permits n s) ≡ lifecycle_for kind s
  unfolding lifecycle_for
  lifecycle_for-permits LifecycleRequest.chat n s = refl
  lifecycle_for-permits LifecycleRequest.embeddings n s = refl

  -- With a free cold-start permit, over a lifecycle that finds the backend ready, without degraded
  -- embeddings if they are asked for, a request that the scheduler admits gets what is made of the
  -- upstream server's answer.
  pub execute-passes :
      (kind : LifecycleRequest) (body : List ℕ) (stream : Bool) (s : AppState L W)
      (status : BackendStatus) (l : L) (w : W) (response : Response)
      → 0 < s.cold_permits
      → orchestrator.ensure_backend kind (lifecycle_for kind s) s.world
        ≡ (LifecycleDecision.ready status, l, w)
      → is_degraded_embeddings kind status.embeddings ≡ false
      → IsServing kind body stream s.config w response
      → (execute orchestrator outside json kind body stream s).0 ≡ response
  unfolding execute acquire_cold_permit after_permit drop_cold_permit
  execute-passes kind body stream s status l w response free e d h =
      elim (Bool-cases (is_cold orchestrator kind s)) [
        | inl cold ↦
            let taken = set_cold_permits (s.cold_permits - 1) s in
            rw cold (
              rw (lt→ltb 0 s.cold_permits free) (
                after_ensure-passes kind body stream taken status l w response
                  (ap (λ k. orchestrator.ensure_backend kind k s.world)
                      (lifecycle_for-permits kind (s.cold_permits - 1) s)
                    ∙ e)
                  d h))
        | inr warm ↦ rw warm (after_ensure-passes kind body stream s status l w response e d h)
      ]
