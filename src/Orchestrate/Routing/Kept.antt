-- ===== src/Orchestrate/Routing/Kept.antt =====
-- What a step of src/orchestrate.rs keeps of the other kind, and how such steps compose.
use Prim.Native.String.{String}
use llm_wake_proxy.Base.{ℕ, ◌≡◌, ◌≢◌, ◌∙◌, refl, true, err, arith, if◌then◌else◌, is_some, ap}
use llm_wake_proxy.Metrics.{Metrics, inc_tunnel_drops}
use llm_wake_proxy.Lifecycle.Types.{LifecycleRequest, BackendStatus}
use llm_wake_proxy.Forward.{
  Json, embeddings_unsupported, Sent, was_cancelled, failed, replied, forward_non_streaming,
  forward_streaming,
}
use llm_wake_proxy.State.{AppState, put_lifecycle, check_tunnel_drop}
use llm_wake_proxy.Orchestrate.{count, set_cold_permits}

-- In dual-backend mode: what belongs to the other kind of request is as it was.
abbrev pub OtherKept : {L W : Type 0} → LifecycleRequest → AppState L W → AppState L W → Type 0
OtherKept LifecycleRequest.chat s t =
    (t.embeddings_lifecycle ≡ s.embeddings_lifecycle)
    × (t.prev_embeddings_tunnel_was_ready ≡ s.prev_embeddings_tunnel_was_ready)
OtherKept LifecycleRequest.embeddings s t =
    (is_some t.embeddings_lifecycle ≡ true)
    × (t.chat_lifecycle ≡ s.chat_lifecycle)
    × (t.prev_chat_tunnel_was_ready ≡ s.prev_chat_tunnel_was_ready)

abbrev pub IsDual : {L W : Type 0} → AppState L W → Type 0
IsDual s = is_some s.embeddings_lifecycle ≡ true

module _ {L W : Type 0} where
  pub OtherKept-refl : (kind : LifecycleRequest) (s : AppState L W) → IsDual s → OtherKept kind s s
  OtherKept-refl LifecycleRequest.chat s d = (refl, refl)
  OtherKept-refl LifecycleRequest.embeddings s d = (d, refl, refl)

  pub OtherKept-IsDual :
      (kind : LifecycleRequest) (s t : AppState L W) → IsDual s → OtherKept kind s t → IsDual t
  OtherKept-IsDual LifecycleRequest.chat s t d k = ap is_some k.0 ∙ d
  OtherKept-IsDual LifecycleRequest.embeddings s t d k = k.0

  pub OtherKept-trans :
      (kind : LifecycleRequest) (s t u : AppState L W)
      → OtherKept kind s t
      → OtherKept kind t u
      → OtherKept kind s u
  OtherKept-trans LifecycleRequest.chat s t u k m = (m.0 ∙ k.0, m.1 ∙ k.1)
  OtherKept-trans LifecycleRequest.embeddings s t u k m = (m.0, m.1 ∙ k.1, m.2 ∙ k.2)

  pub put_lifecycle-kept :
      (kind : LifecycleRequest) (l : L) (s : AppState L W)
      → IsDual s
      → OtherKept kind s (put_lifecycle kind l s)
  unfolding put_lifecycle
  put_lifecycle-kept LifecycleRequest.chat l s d = (refl, refl)
  put_lifecycle-kept LifecycleRequest.embeddings l s d = ground arith

  pub check_tunnel_drop-kept :
      (kind : LifecycleRequest) (status : BackendStatus) (s : AppState L W)
      → IsDual s
      → let (dropped, s') = check_tunnel_drop kind status.tunnel s in
        OtherKept kind s (if dropped then count inc_tunnel_drops s' else s')
  unfolding check_tunnel_drop
  check_tunnel_drop-kept LifecycleRequest.chat status s d = ground arith
  check_tunnel_drop-kept LifecycleRequest.embeddings status s d = ground arith

  pub world-kept :
      (kind : LifecycleRequest) (s : AppState L W) (w : W)
      → IsDual s
      → OtherKept kind s (record s { world = w })
  world-kept LifecycleRequest.chat s w d = (refl, refl)
  world-kept LifecycleRequest.embeddings s w d = (d, refl, refl)

  pub count-kept :
      (kind : LifecycleRequest) (s : AppState L W) (inc : Metrics → Metrics)
      → IsDual s
      → OtherKept kind s (count inc s)
  count-kept LifecycleRequest.chat s inc d = (refl, refl)
  count-kept LifecycleRequest.embeddings s inc d = (d, refl, refl)

  pub permits-kept :
      (kind : LifecycleRequest) (s : AppState L W) (n : ℕ)
      → IsDual s
      → OtherKept kind s (set_cold_permits n s)
  permits-kept LifecycleRequest.chat s n d = (refl, refl)
  permits-kept LifecycleRequest.embeddings s n d = (d, refl, refl)

  -- Two steps, each of which keeps what is not the request's.
  pub then-kept :
      (kind : LifecycleRequest) (s t u : AppState L W)
      → IsDual s
      → OtherKept kind s t
      → (IsDual t → OtherKept kind t u)
      → OtherKept kind s u
  then-kept kind s t u d k f = OtherKept-trans kind s t u k (f (OtherKept-IsDual kind s t d k))

module _ {V : Type 0} (json : Json V) where
  pub streaming-supported :
      (alias : String) (sent : Sent)
      → forward_streaming json alias sent ≢ err embeddings_unsupported
  unfolding forward_streaming
  streaming-supported alias was_cancelled = ground arith
  streaming-supported alias (failed e) = ground arith
  streaming-supported alias (replied status body chunks) = ground arith

  pub non_streaming-supported :
      (alias : String) (sent : Sent)
      → forward_non_streaming json "/v1/chat/completions" alias sent ≢ err embeddings_unsupported
  unfolding forward_non_streaming
  non_streaming-supported alias was_cancelled = ground arith
  non_streaming-supported alias (failed e) = ground arith
  non_streaming-supported alias (replied status body chunks) = ground arith
