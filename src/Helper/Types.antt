-- ===== src/Helper/Types.antt =====
-- src/helper.rs: the answers of the helper, its configuration, and what it calls.

use Prim.Native.String.{String}
use llm_wake_proxy.Base.{ℕ, Bool, Option, List, Result}

pub data HelperStatus : Type 0 where
  ok mismatch error : HelperStatus

pub data Target : Type 0 where
  chat embeddings : Target

pub record UnitInfo : Type 0 where
  pub unit_name : String
  pub active_state : String
  pub sub_state : String
  pub description : String

pub record ModelInfo : Type 0 where
  pub model_alias : String
  pub model_path : String
  pub serving : Bool
  pub ready : Bool
  pub reported_id : Option String

pub record StatusResponse : Type 0 where
  pub status : HelperStatus
  pub message : String
  pub llama_server : Option UnitInfo
  pub inhibit_holder : Option UnitInfo
  pub active_model : Option ModelInfo
  pub llama_server_embeddings : Option UnitInfo
  pub active_model_embeddings : Option ModelInfo

pub record EnsureStartedResponse : Type 0 where
  pub status : HelperStatus
  pub message : String
  pub model_alias : String
  pub model_path : String
  pub startup_triggered : Bool
  pub server_ready : Bool
  pub model_verified : Bool
  pub llama_server : Option UnitInfo

pub record LeaseAcquireResponse : Type 0 where
  pub status : HelperStatus
  pub message : String
  pub inhibit_holder : Option UnitInfo
  pub ttl_secs : ℕ
  pub renewed : Bool

-- LeaseReleaseResponse and LeaseInspectResponse, which have the same fields.
pub record LeaseResponse : Type 0 where
  pub status : HelperStatus
  pub message : String
  pub inhibit_holder : Option UnitInfo

-- The output of a process: its standard output, or what it wrote to its standard error.
pub record ProcessOutput : Type 0 where
  pub success : Bool
  -- an error if it is not UTF-8
  pub stdout : Result String String
  pub stderr : String

-- What `systemctl show` says of a unit: a map from names to values.
abbrev pub Properties : Type 0
Properties = String → Option String

-- The traits SystemdControl and ServerCheck, with the clock of `std` (milliseconds). A call may change
-- the world that it runs in.
pub record Machine (W : Type 0) : Type 0 where
  pub show_unit : String → W → Result Properties String × W
  pub is_active : String → W → Result Bool String × W
  pub start_unit : String → W → Result (Unit {0}) String × W
  pub stop_unit : String → W → Result (Unit {0}) String × W
  pub replace_transient_unit : String → String → List String → W → Result (Unit {0}) String × W
  pub get_text : String → W → Result String String × W
  pub instant : W → ℕ
  pub sleep : ℕ → W → W

-- serde_json's values, as far as `check_model_identity` reads them.
pub record ModelsJson (V : Type 0) : Type 0 where
  pub from_str : String → Result V String
  pub index : V → String → V
  pub as_array : V → Option (List V)
  pub as_str : V → Option String

pub record HelperConfig : Type 0 where
  pub llama_server_unit : String
  pub inhibit_holder_unit : String
  pub llama_server_port : ℕ
  pub llama_server_embeddings_unit : String
  pub llama_server_embeddings_port : ℕ
  pub server_start_timeout_secs : ℕ

-- `HelperConfig::default`
abbrev pub default_helper_config : HelperConfig
default_helper_config = record {
  llama_server_unit = "llama-server";
  inhibit_holder_unit = "llm-wake-proxy-inhibit";
  llama_server_port = 8080;
  llama_server_embeddings_unit = "llama-server-embeddings";
  llama_server_embeddings_port = 8081;
  server_start_timeout_secs = 60;
}

unfoldable pub unit_for : HelperConfig → Target → String
unit_for config Target.chat = config.llama_server_unit
unit_for config Target.embeddings = config.llama_server_embeddings_unit

unfoldable pub port_for : HelperConfig → Target → ℕ
port_for config Target.chat = config.llama_server_port
port_for config Target.embeddings = config.llama_server_embeddings_port

unfoldable pub target_text : Target → String
target_text Target.chat = "chat"
target_text Target.embeddings = "embeddings"

abbrev pub is_ok_status : HelperStatus → Bool
is_ok_status HelperStatus.ok = Bool.true
is_ok_status _ = Bool.false
