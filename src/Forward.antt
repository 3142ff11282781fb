-- ===== src/Forward.antt =====
-- src/forward.rs: what the upstream server answers becomes a response or an error, and the model's
-- name in it is replaced. JSON is the library's that the program uses, a parameter here.
pub mod Rewriting
pub mod Guard
pub mod Streams
use Prim.Native.String
use Prim.Native.String.{String}
use text.Mathlib.Text.{starts_with}
use llm_wake_proxy.Base.{
  ℕ, ◌+◌, ◌<◌, ◌≤◌, ◌≡◌, Bool, true, false, ◌&&◌, ◌||◌, List, [], ◌∷◌, ◌++◌, map, Option, none,
  some, Result, ok, err, unwrap_or, leb, ltb, ◌==◌, if◌then◌else◌, codes, split_on, join_with,
  strip_prefix, contains, strip_return,
}
use llm_wake_proxy.Http.{
  plain, stream, Response, openai_error, ok_status, bad_request, not_found, service_unavailable,
}

-- serde_json's values, as far as the program uses them: `from_str` and `to_string` with their failure
-- as `none`, `obj.get_mut("model")` of a value that is an object, the assignment to what that gives,
-- and `Value::String`.
pub record Json (V : Type 0) : Type 0 where
  pub from_str : List ℕ → Option V
  pub to_string : V → Option (List ℕ)
  pub get_model : V → Option V
  pub set_model : V → V → V
  pub string : List ℕ → V

-- reqwest::Error.
pub record ReqwestError : Type 0 where
  pub is_connect : Bool
  pub is_timeout : Bool
  pub status : Option ℕ
  pub text : String

pub data ForwardError : Type 0 where
  upstream_unreachable : ForwardError
  upstream_error : ℕ → List ℕ → ForwardError
  cancelled : ForwardError
  embeddings_unsupported : ForwardError

unfoldable pub to_openai : ForwardError → Response
unfolding openai_error
to_openai upstream_unreachable =
    openai_error service_unavailable "backend_unavailable"
      (codes "upstream backend is not reachable") none
to_openai (upstream_error _ message) =
    openai_error service_unavailable "upstream_error" message none
to_openai cancelled =
    openai_error service_unavailable "request_cancelled" (codes "request was cancelled") none
to_openai embeddings_unsupported =
    openai_error bad_request "unsupported_embeddings"
      (codes "upstream backend does not support embeddings") none

-- `From<reqwest::Error>`.
unfoldable pub from_reqwest : ReqwestError → ForwardError
from_reqwest error =
    if error.is_connect || error.is_timeout
    then upstream_unreachable
    else upstream_error (unwrap_or error.status 502) (codes error.text)

-- How the `select!` of the cancellation and the request ends. The text of a reply is `none` if it
-- could not be read, and its chunks are texts, `none` where one failed.
pub data Sent : Type 0 where
  was_cancelled : Sent
  failed : ReqwestError → Sent
  replied : (status : ℕ) (body : Option (List ℕ)) (chunks : List (Option (List ℕ))) → Sent

abbrev pub is_success : ℕ → Bool
is_success status = leb 200 status && ltb status 300

abbrev pub model_key : List ℕ
model_key = codes "\"model\""

abbrev pub data_prefix : List ℕ
data_prefix = codes "data: "

module _ {V : Type 0} (json : Json V) where
  -- `if let Some(obj) = … && let Some(model) = … { *model = … }`
  rename : List ℕ → V → Option V → V
  rename alias value none = value
  rename alias value (some model) = json.set_model (json.string alias) value

  unfoldable pub renamed : List ℕ → V → V
  unfolding rename
  renamed alias value = rename alias value (json.get_model value)

  or_else : List ℕ → List ℕ → Option (List ℕ) → List ℕ
  or_else before clean none = clean
  or_else before clean (some rewritten) = before ++ rewritten

  unfoldable pub after_parse : List ℕ → List ℕ → List ℕ → Option V → List ℕ
  unfolding or_else
  after_parse alias before clean none = clean
  after_parse alias before clean (some value) =
      or_else before clean (json.to_string (renamed alias value))

  -- A payload with what stands before it on its line.
  unfoldable pub rewrite_payload : List ℕ → List ℕ → List ℕ → List ℕ → List ℕ
  unfolding after_parse renamed
  rewrite_payload alias before clean payload =
      if contains payload model_key
      then after_parse alias before clean (json.from_str payload)
      else clean

  unfoldable pub after_strip : List ℕ → List ℕ → Option (List ℕ) → List ℕ
  unfolding rewrite_payload
  after_strip alias clean (some sse_data) = rewrite_payload alias data_prefix clean sse_data
  after_strip alias clean none = rewrite_payload alias [] clean clean

  unfoldable pub rewrite_clean : List ℕ → List ℕ → List ℕ
  unfolding after_strip
  rewrite_clean alias clean = after_strip alias clean (strip_prefix data_prefix clean)

  unfoldable pub rewrite_part : List ℕ → List ℕ → List ℕ
  rewrite_part alias part =
      let (clean, has_r) = strip_return part in
      rewrite_clean alias clean ++ (if has_r then 13 ∷ [] else [])

  unfoldable pub rewrite_model_alias : List ℕ → List ℕ → List ℕ
  rewrite_model_alias body alias =
      if contains body model_key
      then join_with 10 (map (rewrite_part alias) (split_on 10 body))
      else body

  abbrev text_of : Option (List ℕ) → List ℕ
  text_of none = []
  text_of (some t) = t

  unfoldable pub forward_non_streaming : String → String → Sent → Result Response ForwardError
  unfolding from_reqwest
  forward_non_streaming path model_alias was_cancelled = err cancelled
  forward_non_streaming path model_alias (failed error) = err (from_reqwest error)
  forward_non_streaming path model_alias (replied status body chunks) =
      if is_success status
      then ok (record {
        status = ok_status;
        content_type = "application/json";
        retry_after = none;
        body = plain (rewrite_model_alias (text_of body) (codes model_alias));
      })
      else if status == not_found && starts_with path "/v1/embeddings"
      then err embeddings_unsupported
      else err (upstream_error status (text_of body))

  abbrev rewrite_chunk : List ℕ → Option (List ℕ) → Option (List ℕ)
  rewrite_chunk alias none = none
  rewrite_chunk alias (some chunk) = some (rewrite_model_alias chunk alias)

  unfoldable pub forward_streaming : String → Sent → Result Response ForwardError
  unfolding from_reqwest
  forward_streaming model_alias was_cancelled = err cancelled
  forward_streaming model_alias (failed error) = err (from_reqwest error)
  forward_streaming model_alias (replied status body chunks) =
      if is_success status
      then ok (record {
        status = ok_status;
        content_type = "text/event-stream";
        retry_after = none;
        body = stream (map (rewrite_chunk (codes model_alias)) chunks);
      })
      else err (upstream_error status (text_of body))
