-- ===== src/Orchestrate/Silent.antt =====
-- src/orchestrate.rs: requests over lifecycles that never find the backend ready.
use llm_wake_proxy.Base.{
  ℕ, ◌≡◌, ◌-◌, refl, Bool, true, false, Option, none, some, List, Bool-cases, inl, inr, ap, ltb,
  arith,
}
use llm_wake_proxy.Lifecycle.Types.{LifecycleRequest, LifecycleDecision}
use llm_wake_proxy.Http.{Response, openai_error, service_unavailable}
use llm_wake_proxy.Forward.{Json}
use llm_wake_proxy.State.{
  LifecycleOrchestrator, AppState, lifecycle_for, put_lifecycle, put_embeddings, embeddings_or,
  is_cold,
}
use llm_wake_proxy.Orchestrate.{
  Outside, ensure, after_ensure, execute, acquire_cold_permit, after_permit, drop_cold_permit,
  set_cold_permits, warming_up, backend_error,
}

abbrev pub says_ready : LifecycleDecision → Bool
says_ready (LifecycleDecision.ready status) = true
says_ready _ = false

-- From a state with `P`, an orchestrator does not say `ready` and stays there.
pub record IsSilent {L W : Type 0} (orchestrator : LifecycleOrchestrator L W) (P : L → Type 0)
    : Type 0 where
  pub ensured :
      (kind : LifecycleRequest) (l : L) (w : W) → P l → P (orchestrator.ensure_backend kind l w).1
  pub unready :
      (kind : LifecycleRequest) (l : L) (w : W)
      → P l
      → says_ready (orchestrator.ensure_backend kind l w).0 ≡ false

abbrev pub OptionSilent : {L : Type 0} → (L → Type 0) → Option L → Type 0
OptionSilent P none = Unit {0}
OptionSilent P (some l) = P l

-- Every orchestrator of the proxy is in a state with `P`.
abbrev pub AllSilent : {L W : Type 0} → (L → Type 0) → AppState L W → Type 0
AllSilent P s = P s.chat_lifecycle × OptionSilent P s.embeddings_lifecycle

-- The same outcome, which is a 503, and from which the lifecycles stay silent.
abbrev pub AreUnavailable :
    {L W : Type 0} → (L → Type 0) → Response × AppState L W → Response × AppState L W → Type 0
AreUnavailable P x y = (x ≡ y) × AllSilent P y.1 × (y.0.status ≡ service_unavailable)

module _ {L W : Type 0} (P : L → Type 0) where
  lifecycle_for-silent :
      (kind : LifecycleRequest) (s : AppState L W) → AllSilent P s → P (lifecycle_for kind s)
  unfolding lifecycle_for
  lifecycle_for-silent LifecycleRequest.chat s h = h.0
  lifecycle_for-silent LifecycleRequest.embeddings s h = go s.embeddings_lifecycle h.1
    where
      go : (o : Option L) → OptionSilent P o → P (embeddings_or o s.chat_lifecycle)
      go none k = h.0
      go (some l) k = k

  put_lifecycle-silent :
      (kind : LifecycleRequest) (l : L) (s : AppState L W)
      → P l
      → AllSilent P s
      → AllSilent P (put_lifecycle kind l s)
  unfolding put_lifecycle put_embeddings
  put_lifecycle-silent LifecycleRequest.chat l s k h = (k, h.1)
  put_lifecycle-silent LifecycleRequest.embeddings l s k h = go s.embeddings_lifecycle
    where
      go : (o : Option L) → AllSilent P (put_embeddings o l s)
      go none = (k, h.1)
      go (some old) = (h.0, k)

module _ {L W V : Type 0} (orchestrator : LifecycleOrchestrator L W) (P : L → Type 0)
    (silent : IsSilent orchestrator P) (outside other : Outside W) (json : Json V) where
  -- What a decision other than `ready` leads to.
  after_ensure-silent :
      (kind : LifecycleRequest) (body : List ℕ) (stream : Bool) (d : LifecycleDecision)
      (s : AppState L W)
      → says_ready d ≡ false
      → AllSilent P s
      → AreUnavailable P
          (after_ensure orchestrator other json kind body stream (d, s))
          (after_ensure orchestrator outside json kind body stream (d, s))
  unfolding after_ensure warming_up backend_error openai_error
  after_ensure-silent kind body stream (LifecycleDecision.ready status) s n h =
      absurd (ground (arith, n))
  after_ensure-silent kind body stream (LifecycleDecision.warming status r) s n h = (refl, h, refl)
  after_ensure-silent kind body stream (LifecycleDecision.failed status e) s n h = (refl, h, refl)

  ensured-silent :
      (kind : LifecycleRequest) (body : List ℕ) (stream : Bool) (s : AppState L W)
      → AllSilent P s
      → AreUnavailable P
          (after_ensure orchestrator other json kind body stream
            (ensure orchestrator other json kind s))
          (after_ensure orchestrator outside json kind body stream
            (ensure orchestrator outside json kind s))
  unfolding ensure
  ensured-silent kind body stream s h =
      let l = lifecycle_for kind s in
      let k = lifecycle_for-silent P kind s h in
      after_ensure-silent kind body stream (orchestrator.ensure_backend kind l s.world).0 _
        (silent.unready kind l s.world k)
        (put_lifecycle-silent P kind (orchestrator.ensure_backend kind l s.world).1 s
          (silent.ensured kind l s.world k) h)

  -- Over lifecycles that never find the backend ready, `execute` does not use the scheduler or the
  -- upstream server, whatever these would do, answers 503 and leaves such lifecycles.
  pub execute-silent :
      (kind : LifecycleRequest) (body : List ℕ) (stream : Bool) (s : AppState L W)
      → AllSilent P s
      → AreUnavailable P
          (execute orchestrator other json kind body stream s)
          (execute orchestrator outside json kind body stream s)
  unfolding execute acquire_cold_permit after_permit drop_cold_permit warming_up openai_error
  execute-silent kind body stream s h = elim (Bool-cases (is_cold orchestrator kind s)) [
    | inl e ↦ rw e (elim (Bool-cases (ltb 0 s.cold_permits)) [
      | inl f ↦ rw f (
          let (same, kept, status) =
            ensured-silent kind body stream (set_cold_permits (s.cold_permits - 1) s) h in
          (ap (drop_cold_permit true) same, kept, status))
      | inr f ↦ rw f (refl, h, refl)
    ])
    | inr e ↦ rw e (ensured-silent kind body stream s h)
  ]
