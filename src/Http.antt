-- ===== src/Http.antt =====
-- src/http_error.rs: the responses of the proxy. A text is the list of its code points.
use Prim.Native.String
use Prim.Native.String.{String}
use llm_wake_proxy.Base.{ℕ, zero, suc, ◌/◌, ◌%◌, List, Option, ltb, if◌then◌else◌, ◌==◌}

-- axum's StatusCode.
abbrev pub ok_status : ℕ
ok_status = 200

abbrev pub bad_request : ℕ
bad_request = 400

abbrev pub not_found : ℕ
not_found = 404

abbrev pub too_many_requests : ℕ
too_many_requests = 429

abbrev pub service_unavailable : ℕ
service_unavailable = 503

pub data Body : Type 0 where
  -- {"error": {"message", "type", "param": null, "code"}}
  error_json : (message : List ℕ) (type_name code : String) → Body
  plain : List ℕ → Body
  -- The chunks of a stream; `none` is a chunk that failed.
  stream : List (Option (List ℕ)) → Body

pub record Response : Type 0 where
  pub status : ℕ
  pub content_type : String
  pub retry_after : Option String
  pub body : Body

unfoldable pub openai_error : ℕ → String → List ℕ → Option String → Response
openai_error status code message retry_after = record {
  status = status;
  content_type = "application/json";
  retry_after = retry_after;
  body = error_json message code code;
}

digit_text : ℕ → String
digit_text d =
    if d == 0
    then "0"
    else if d == 1
    then "1"
    else if d == 2
    then "2"
    else if d == 3
    then "3"
    else if d == 4
    then "4"
    else if d == 5
    then "5"
    else if d == 6
    then "6"
    else if d == 7
    then "7"
    else if d == 8
    then "8"
    else "9"

digits_text : ℕ → ℕ → String
unfolding digit_text
digits_text zero n = ""
digits_text (suc fuel) n =
    let rest = digits_text fuel (n / 10) in
    if ltb n 10 then digit_text n else String.◌++◌ rest (digit_text (n % 10))

-- `u64::to_string`: a u64 has at most 20 digits.
unfoldable pub to_text : ℕ → String
unfolding digits_text
to_text n = digits_text 20 n
