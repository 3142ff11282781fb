-- ===== src/Config/Types.antt =====
-- src/config.rs: the records of the configuration. Ports are u16, counts usize, times in seconds.
use Prim.Native.String.{String}
use llm_wake_proxy.Base.{ℕ, Bool, List, Option}

pub record ModelConfig : Type 0 where
  pub alias : String
  pub provider_id : String
  pub owned_by : String

pub record EmbeddingsBackendConfig : Type 0 where
  pub alias : String
  pub provider_id : String
  pub owned_by : String
  pub model_path : String
  pub tunnel_local_port : ℕ
  pub remote_port : ℕ

pub record EmbeddingsConfig : Type 0 where
  pub enabled : Bool
  pub backend : Option EmbeddingsBackendConfig

pub record WarmExecutionConfig : Type 0 where
  pub max_active_requests : ℕ
  pub max_queued_requests : ℕ
  pub queue_timeout_secs : ℕ

pub record HostConfig : Type 0 where
  pub host : String
  pub ssh_user : String
  pub ssh_port : ℕ
  pub wol_mac : List ℕ
  pub wol_broadcast : String
  pub wol_port : ℕ
  pub helper_path : String
  pub model_path : String
  pub ssh_key_path : String
  pub tunnel_local_port : ℕ
  pub remote_port : ℕ

pub record AppConfig : Type 0 where
  pub listen_port : ℕ
  pub model : ModelConfig
  pub embeddings : EmbeddingsConfig
  pub warm_execution : WarmExecutionConfig
  pub host : HostConfig
  pub cold_start_max_waiting : ℕ

-- `WarmExecutionConfig::default`.
abbrev pub default_warm_execution : WarmExecutionConfig
default_warm_execution = record {
  max_active_requests = 2;
  max_queued_requests = 16;
  queue_timeout_secs = 30;
}
