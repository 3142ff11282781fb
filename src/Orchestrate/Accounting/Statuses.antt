-- ===== src/Orchestrate/Accounting/Statuses.antt =====
-- The status codes of the responses that src/forward.rs gives.
use text.Mathlib.Text.{starts_with}
use Prim.Native.String.{String}
use llm_wake_proxy.Base.{ℕ, ◌≡◌, Result, ◌⊎◌, inl, inr, arith, Bool-cases, ◌==◌, ◌&&◌}
use llm_wake_proxy.Http.{
  Response, ok_status, bad_request, too_many_requests, service_unavailable, not_found,
}
use llm_wake_proxy.Forward.{
  Json, ForwardError, upstream_unreachable, upstream_error, cancelled, embeddings_unsupported,
  to_openai, Sent, was_cancelled, failed, replied, forward_non_streaming, forward_streaming,
  is_success,
}
use llm_wake_proxy.Orchestrate.{response_of}

-- The codes that a client can see.
abbrev pub IsKnownStatus : ℕ → Type 0
IsKnownStatus status =
    (status ≡ ok_status)
    ⊎ (status ≡ bad_request)
    ⊎ (status ≡ too_many_requests)
    ⊎ (status ≡ service_unavailable)

-- The codes of a request that was admitted: any but 429.
abbrev pub IsForwardedStatus : ℕ → Type 0
IsForwardedStatus status =
    (status ≡ ok_status) ⊎ (status ≡ bad_request) ⊎ (status ≡ service_unavailable)

pub IsForwardedStatus-IsKnownStatus : (status : ℕ) → IsForwardedStatus status → IsKnownStatus status
IsForwardedStatus-IsKnownStatus status h = omega arith

pub to_openai-status : (error : ForwardError) → IsForwardedStatus (to_openai error).status
unfolding to_openai
to_openai-status upstream_unreachable = omega arith
to_openai-status (upstream_error code m) = omega arith
to_openai-status cancelled = omega arith
to_openai-status embeddings_unsupported = omega arith

module _ {V : Type 0} (json : Json V) where
  -- A success is a 200.
  abbrev pub IsSuccess : Result Response ForwardError → Type 0
  IsSuccess r = IsForwardedStatus (response_of r).status

  pub forward_streaming-IsSuccess :
      (model_alias : String) (sent : Sent) → IsSuccess (forward_streaming json model_alias sent)
  unfolding forward_streaming
  forward_streaming-IsSuccess model_alias was_cancelled = to_openai-status cancelled
  forward_streaming-IsSuccess model_alias (failed e) = to_openai-status _
  forward_streaming-IsSuccess model_alias (replied status body chunks) =
      elim (Bool-cases (is_success status)) [
        | inl e ↦ rw e (omega arith)
        | inr e ↦ rw e (to_openai-status (upstream_error status _))
      ]

  pub forward_non_streaming-IsSuccess :
      (path model_alias : String) (sent : Sent)
      → IsSuccess (forward_non_streaming json path model_alias sent)
  unfolding forward_non_streaming
  forward_non_streaming-IsSuccess path model_alias was_cancelled = to_openai-status cancelled
  forward_non_streaming-IsSuccess path model_alias (failed e) = to_openai-status _
  forward_non_streaming-IsSuccess path model_alias (replied status body chunks) =
      elim (Bool-cases (is_success status)) [
        | inl e ↦ rw e (omega arith)
        | inr e ↦
            rw e (elim (Bool-cases (status == not_found && starts_with path "/v1/embeddings")) [
              | inl f ↦ rw f (to_openai-status embeddings_unsupported)
              | inr f ↦ rw f (to_openai-status (upstream_error status _))
            ])
      ]
