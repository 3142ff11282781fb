-- ===== src/Host/Answers.antt =====
-- src/host.rs: the state of the backend that an answer of the helper stands for.

use Prim.Native.String.{String}
use text.Mathlib.Text.{◌==◌ as str_eq}
use llm_wake_proxy.Base.{Bool, true, false, ◌||◌, Option, none, some, if◌then◌else◌}
use llm_wake_proxy.Lifecycle.Types.{
  LifecycleState, CapabilityState, UnitState, ObservedBackendState,
}
use llm_wake_proxy.Helper.Types.{
  HelperStatus, Target, UnitInfo, StatusResponse, EnsureStartedResponse,
}

unfoldable pub map_unit_state : Option String → UnitState
map_unit_state none = UnitState.unknown
map_unit_state (some active_state) =
    if str_eq active_state "active"
    then UnitState.active
    else if str_eq active_state "activating" || str_eq active_state "reloading"
    then UnitState.activating
    else if str_eq active_state "inactive"
    then UnitState.inactive
    else if str_eq active_state "failed" || str_eq active_state "error"
    then UnitState.failed
    else UnitState.unknown

abbrev pub active_state_of : Option UnitInfo → Option String
active_state_of none = none
active_state_of (some unit) = some unit.active_state

unfoldable pub select_unit : Target → StatusResponse → Option UnitInfo
select_unit Target.chat s = s.llama_server
select_unit Target.embeddings s = s.llama_server_embeddings

unfoldable pub lifecycle_of_answer : HelperStatus → Bool → LifecycleState
lifecycle_of_answer HelperStatus.ok true = LifecycleState.ready
lifecycle_of_answer HelperStatus.ok false = LifecycleState.warming
lifecycle_of_answer HelperStatus.mismatch verified = LifecycleState.error
lifecycle_of_answer HelperStatus.error verified = LifecycleState.error

error_of_answer : HelperStatus → String → Option String
error_of_answer HelperStatus.ok text = none
error_of_answer HelperStatus.mismatch text = some text
error_of_answer HelperStatus.error text = some text

-- The state that an `ensure-started` answer stands for.
unfoldable pub observed_of_ensure : EnsureStartedResponse → ObservedBackendState
unfolding lifecycle_of_answer error_of_answer map_unit_state
observed_of_ensure answer = record {
  lifecycle = lifecycle_of_answer answer.status answer.model_verified;
  chat = CapabilityState.ready;
  embeddings = CapabilityState.ready;
  embeddings_reason = none;
  error = error_of_answer answer.status answer.message;
  llama_server_unit = map_unit_state (active_state_of answer.llama_server);
  inhibit_unit = UnitState.unknown;
}

lifecycle_of_unit : HelperStatus → UnitState → LifecycleState
lifecycle_of_unit HelperStatus.error unit = LifecycleState.error
lifecycle_of_unit s UnitState.active = LifecycleState.ready
lifecycle_of_unit s unit = LifecycleState.warming

-- The state that a `status` answer stands for.
unfoldable pub observed_of_status : Target → StatusResponse → ObservedBackendState
unfolding lifecycle_of_unit map_unit_state select_unit
observed_of_status target parsed =
    let unit = map_unit_state (active_state_of (select_unit target parsed)) in
    record {
      lifecycle = lifecycle_of_unit parsed.status unit;
      chat = CapabilityState.ready;
      embeddings = CapabilityState.ready;
      embeddings_reason = none;
      error = none;
      llama_server_unit = unit;
      inhibit_unit = map_unit_state (active_state_of parsed.inhibit_holder);
    }
