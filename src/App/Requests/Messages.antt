-- ===== src/App/Requests/Messages.antt =====
-- src/app.rs, the validation of a chat's messages against a description that has no order of checks.
use Prim.Native.String.{String}
use llm_wake_proxy.Base.{
  ◌≡◌, refl, Bool, true, false, Option, none, some, List, [], ◌∷◌, ◌⊎◌, ◌↔◌, inl, inr, arith,
  is_some, Bool-cases,
}
use llm_wake_proxy.App.Requests.{
  ToolCall, ChatMessage, Bodies, Role, role_of, is_known_role, is_empty_calls, has_no_content,
  role_error, message_error, content_error, invalid_role, first_some,
}

-- `p` of every element.
abbrev pub AllOf {ℓ} : {A : Type ℓ} → (A → Type 0) → List A → Type 0
AllOf p [] = Unit {0}
AllOf p (a ∷ rest) = p a × AllOf p rest

abbrev is_assistant : Role → Bool
is_assistant Role.assistant = true
is_assistant Role.tool = false
is_assistant Role.other = false

abbrev is_tool : Role → Bool
is_tool Role.tool = true
is_tool Role.assistant = false
is_tool Role.other = false

pub first_some-none :
    {A : Type 0} (o rest : Option A) → first_some o rest ≡ none → (o ≡ none) × (rest ≡ none)
first_some-none none rest h = (refl, h)
first_some-none (some a) rest h = absurd (ground arith)

module _ {V : Type 0} (bodies : Bodies V) where
  -- Tool calls stand in an assistant's message alone, and are not empty there; the call's id stands in
  -- a tool's message and there alone; and there is content, or tool calls in its place.
  pub record IsAllowed (r : Role) (c : Option V) (calls : Option (List ToolCall))
      (i : Option String) : Type 0 where
    pub called :
        (calls ≡ none)
        ⊎ ((is_assistant r ≡ true) × (is_some calls ≡ true) × (is_empty_calls calls ≡ false))
    pub call_id : ((is_tool r ≡ true) × (is_some i ≡ true)) ⊎ ((is_tool r ≡ false) × (i ≡ none))
    pub content :
        (has_no_content bodies c ≡ false) ⊎ ((is_assistant r ≡ true) × (is_some calls ≡ true))

  role_error_sound :
      (r : Role) (c : Option V) (calls : Option (List ToolCall)) (i : Option String)
      → role_error bodies r c calls i ≡ none
      → IsAllowed r c calls i
  unfolding role_error
  role_error_sound Role.assistant c calls i h = record {
    called = ground arith;
    call_id = ground arith;
    content = ground arith;
  }
  role_error_sound Role.tool c calls i h = record {
    called = ground arith;
    call_id = ground arith;
    content = ground arith;
  }
  role_error_sound Role.other c calls i h = record {
    called = ground arith;
    call_id = ground arith;
    content = ground arith;
  }

  role_error_complete :
      (r : Role) (c : Option V) (calls : Option (List ToolCall)) (i : Option String)
      → IsAllowed r c calls i
      → role_error bodies r c calls i ≡ none
  unfolding role_error
  role_error_complete Role.assistant c calls i h = ground arith
  role_error_complete Role.tool c calls i h = ground arith
  role_error_complete Role.other c calls i h = ground arith

  abbrev pub IsWellFormed : ChatMessage V → Type 0
  IsWellFormed m = IsAllowed (role_of m.role) m.content m.tool_calls m.tool_call_id

  content_error_sound :
      (ms : List (ChatMessage V)) → content_error bodies ms ≡ none → AllOf IsWellFormed ms
  unfolding content_error message_error
  content_error_sound [] h = tt
  content_error_sound (m ∷ ms) h =
      let (e, f) = first_some-none (message_error bodies m) (content_error bodies ms) h in
      (
        role_error_sound (role_of m.role) m.content m.tool_calls m.tool_call_id e,
        content_error_sound ms f,
      )

  content_error_complete :
      (ms : List (ChatMessage V)) → AllOf IsWellFormed ms → content_error bodies ms ≡ none
  unfolding content_error message_error
  content_error_complete [] h = refl
  content_error_complete (m ∷ ms) h =
      let e = role_error_complete (role_of m.role) m.content m.tool_calls m.tool_call_id h.0 in
      rw e (content_error_complete ms h.1)

  -- The messages have no content error exactly if each of them is well-formed.
  pub content_error_iff :
      (ms : List (ChatMessage V)) → (content_error bodies ms ≡ none) ↔ AllOf IsWellFormed ms
  content_error_iff ms = (content_error_sound ms, content_error_complete ms)

abbrev pub HasKnownRole : {V : Type 0} → ChatMessage V → Type 0
HasKnownRole m = is_known_role m.role ≡ true

pub invalid_role_sound :
    {V : Type 0} (ms : List (ChatMessage V)) → invalid_role ms ≡ none → AllOf HasKnownRole ms
unfolding invalid_role
invalid_role_sound [] h = tt
invalid_role_sound (m ∷ ms) h = elim (Bool-cases (is_known_role m.role)) [
  | inl e ↦ (e, invalid_role_sound ms (ground (arith, h, e)))
  | inr e ↦ absurd (ground (arith, h, e))
]

pub invalid_role_complete :
    {V : Type 0} (ms : List (ChatMessage V)) → AllOf HasKnownRole ms → invalid_role ms ≡ none
unfolding invalid_role
invalid_role_complete [] h = refl
invalid_role_complete (m ∷ ms) h = rw h.0 (invalid_role_complete ms h.1)
