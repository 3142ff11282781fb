-- ===== src/App/Requests.antt =====
-- src/app.rs: the bodies of the requests and how they are validated. serde_json's values and its parser
-- are the library's, parameters here.
pub mod Messages
use Prim.Native.String
use Prim.Native.String.{String}
use text.Mathlib.Text.{◌==◌ as str_eq}
use llm_wake_proxy.Base.{
  ℕ, Bool, true, false, ◌||◌, ◌&&◌, not, Option, none, some, List, [], ◌∷◌, ◌++◌, Result,
  if◌then◌else◌, is_some, is_none, and_then, contains, codes, strip_prefix, ◌==◌,
}

-- A ToolCall with the function that it names.
pub record ToolCall : Type 0 where
  pub id : String
  pub name : String
  pub arguments : String

pub record ChatMessage (V : Type 0) : Type 0 where
  pub role : String
  pub content : Option V
  pub tool_calls : Option (List ToolCall)
  pub tool_call_id : Option String

pub data ToolKind : Type 0 where
  function : ToolKind

pub record ToolFunction (V : Type 0) : Type 0 where
  pub name : String
  pub description : Option String
  pub parameters : Option V

pub record ChatTool (V : Type 0) : Type 0 where
  pub kind : ToolKind
  pub tool_function : ToolFunction V

pub data ToolChoiceMode : Type 0 where
  tool_none auto required : ToolChoiceMode

pub record ToolChoiceFunction : Type 0 where
  pub name : String

pub record NamedToolChoice : Type 0 where
  pub kind : ToolKind
  pub choice_function : ToolChoiceFunction

pub data ToolChoice : Type 0 where
  mode : ToolChoiceMode → ToolChoice
  named : NamedToolChoice → ToolChoice

-- The tools and the choice of a tool are parsed and never read.
pub record ChatCompletionRequest (V : Type 0) : Type 0 where
  pub model : String
  pub stream : Bool
  pub messages : List (ChatMessage V)
  pub tools : Option (List (ChatTool V))
  pub tool_choice : Option ToolChoice

pub record EmbeddingsRequest (V : Type 0) : Type 0 where
  pub model : String
  pub input : V

-- `serde_json::from_slice` at the two types, with the text of its error, and `Value::is_null`.
pub record Bodies (V : Type 0) : Type 0 where
  pub chat_from_slice : List ℕ → Result (ChatCompletionRequest V) (List ℕ)
  pub embeddings_from_slice : List ℕ → Result (EmbeddingsRequest V) (List ℕ)
  pub is_null : V → Bool

-- The roles that `ChatMessage::content_error` tells apart.
pub data Role : Type 0 where
  assistant tool other : Role

unfoldable pub role_of : String → Role
role_of role =
    if str_eq role "assistant"
    then Role.assistant
    else if str_eq role "tool"
    then Role.tool
    else Role.other

unfoldable pub is_known_role : String → Bool
is_known_role role =
    str_eq role "system"
    || str_eq role "user"
    || str_eq role "assistant"
    || str_eq role "tool"
    || str_eq role "developer"

abbrev pub is_empty_calls : Option (List ToolCall) → Bool
is_empty_calls none = false
is_empty_calls (some []) = true
is_empty_calls (some (call ∷ calls)) = false

-- The first that is there: one element of `find_map`, and a return before the rest is reached.
abbrev pub first_some : {A : Type 0} → Option A → Option A → Option A
first_some (some a) rest = some a
first_some none rest = rest

module _ {V : Type 0} where
  -- `ChatCompletionRequest::invalid_role`
  unfoldable pub invalid_role : List (ChatMessage V) → Option String
  unfolding is_known_role
  invalid_role [] = none
  invalid_role (m ∷ ms) =
      let rest = invalid_role ms in if is_known_role m.role then rest else some m.role

module _ {V : Type 0} (bodies : Bodies V) where
  -- `content.as_ref().is_none_or(Value::is_null)`
  unfoldable pub has_no_content : Option V → Bool
  has_no_content none = true
  has_no_content (some v) = bodies.is_null v

  role_error : Role → Option V → Option (List ToolCall) → Option String → Option String
  unfolding has_no_content
  role_error Role.assistant content tool_calls tool_call_id =
      if is_some tool_call_id
      then some "only tool messages may include tool_call_id"
      else if is_empty_calls tool_calls
      then some "assistant messages tool_calls must not be empty"
      else if has_no_content content && is_none tool_calls
      then some "message content must not be null"
      else none
  role_error Role.tool content tool_calls tool_call_id =
      if is_some tool_calls
      then some "only assistant messages may include tool_calls"
      else if is_none tool_call_id
      then some "tool messages must include tool_call_id"
      else if has_no_content content
      then some "message content must not be null"
      else none
  role_error Role.other content tool_calls tool_call_id =
      if is_some tool_calls
      then some "only assistant messages may include tool_calls"
      else if is_some tool_call_id
      then some "only tool messages may include tool_call_id"
      else if has_no_content content
      then some "message content must not be null"
      else none

  -- `ChatMessage::content_error`
  unfoldable pub message_error : ChatMessage V → Option String
  unfolding role_error role_of
  message_error m = role_error (role_of m.role) m.content m.tool_calls m.tool_call_id

  -- `ChatCompletionRequest::content_error`
  unfoldable pub content_error : List (ChatMessage V) → Option String
  unfolding message_error
  content_error [] = none
  content_error (m ∷ ms) = first_some (message_error m) (content_error ms)

-- What follows the first place where `prefix` stands: `str::find` with the slice after it.
after_found : List ℕ → List ℕ → Option (List ℕ)
after_found prefix [] = strip_prefix prefix []
after_found prefix (c ∷ s) = elim (strip_prefix prefix (c ∷ s)) [
  | some suffix ↦ some suffix
  | none ↦ after_found prefix s
]

-- What stands before the first `c`, if there is one.
before_found : ℕ → List ℕ → Option (List ℕ)
before_found c [] = none
before_found c (d ∷ s) =
    let rest = before_found c s in
    if d == c then some [] else and_then rest λ front. some (d ∷ front)

abbrev backtick : ℕ
backtick = 0x60

unfoldable pub extract_quoted_value : List ℕ → String → Option (List ℕ)
unfolding after_found before_found
extract_quoted_value message prefix =
    and_then (after_found (codes prefix) message) (before_found backtick)

unfoldable pub normalize_json_error : List ℕ → List ℕ
unfolding extract_quoted_value contains
normalize_json_error msg = elim (extract_quoted_value msg "unknown field `") [
  | some field ↦ codes "unsupported field '" ++ field ++ codes "'"
  | none ↦
      if contains msg (codes "unknown variant")
      then codes "request body contains invalid fields"
      else if contains msg (codes "missing field `tool_call_id`")
      then codes "tool messages must include tool_call_id"
      else if contains msg (codes "missing field `content`")
      then codes "messages must include content unless assistant tool_calls are present"
      else if contains msg (codes "invalid type")
      then codes "request body contains an invalid field type"
      else codes "request body contains invalid fields"
]
