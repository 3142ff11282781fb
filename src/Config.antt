-- ===== src/Config.antt =====
-- src/config.rs: AppConfig::from_env over an environment that is a function, and parse_mac.
-- A panic of `expect` is an error with its message.
pub mod Types
pub mod Bounds
pub mod Mac
pub mod Examples
use Prim.Native.String
use Prim.Native.String.{String}
use text.Mathlib.Text.{◌==◌ as str_eq}
use llm_wake_proxy.Base.{
  ℕ, suc, ◌-◌, ◌^◌, Bool, true, false, not, ◌||◌, Option, none, some, List, [], ◌∷◌, Result, ok,
  err, ◌>>=◌, ok_or_err, and_then, unwrap_or, is_some, if◌then◌else◌, ltb, ◌==◌, length, codes,
  split_on, from_str_radix, is_blank,
}
use Types.{
  ModelConfig, EmbeddingsBackendConfig, EmbeddingsConfig, WarmExecutionConfig, HostConfig,
  AppConfig,
}

abbrev pub u8_max : ℕ
u8_max = 255

abbrev pub u16_max : ℕ
u16_max = 65535

-- usize on the 64-bit targets that the images are built for, and u64.
abbrev pub u64_max : ℕ
u64_max = 2 ^ 64 - 1

-- The bytes of the loop of `parse_mac`, in order.
mac_bytes : List (List ℕ) → Option (List ℕ)
mac_bytes [] = some []
mac_bytes (part ∷ parts) =
    and_then (from_str_radix 16 u8_max part)
      λ byte. and_then (mac_bytes parts) λ bytes. some (byte ∷ bytes)

pub parse_mac : List ℕ → Option (List ℕ)
unfolding mac_bytes
parse_mac input =
    let parts = split_on b':' input in if length parts == 6 then mac_bytes parts else none

abbrev pub Env : Type 0
Env = String → Option String

abbrev non_blank : String → Option String
non_blank value = if is_blank (codes value) then none else some value

pub read_var : Env → String → Option String
read_var env name = and_then (env name) non_blank

-- `value.parse().ok()` at an unsigned type.
abbrev parse_up_to : ℕ → String → Option ℕ
parse_up_to most value = from_str_radix 10 most (codes value)

abbrev positive : ℕ → Option ℕ
positive n = if ltb 0 n then some n else none

pub read_positive_usize : Env → String → ℕ → ℕ
unfolding read_var
read_positive_usize env name default =
    unwrap_or (and_then (and_then (read_var env name) (parse_up_to u64_max)) positive) default

pub read_nonnegative_usize : Env → String → ℕ → ℕ
unfolding read_var
read_nonnegative_usize env name default =
    unwrap_or (and_then (read_var env name) (parse_up_to u64_max)) default

-- `read_var(name).and_then(|v| v.parse().ok()).unwrap_or(default)` at u16 and u64.
pub read_port : Env → String → ℕ → ℕ
unfolding read_var
read_port env name default = unwrap_or (and_then (read_var env name) (parse_up_to u16_max)) default

abbrev is_truthy : String → Bool
is_truthy value =
    str_eq value "1" || str_eq value "true" || str_eq value "TRUE" || str_eq value "yes"

model_from_env : Env → ModelConfig
unfolding read_var
model_from_env env = record {
  alias = unwrap_or (read_var env "MODEL_ALIAS") "llm-wake-proxy";
  provider_id = unwrap_or (read_var env "MODEL_PROVIDER_ID") "llama.cpp";
  owned_by = unwrap_or (read_var env "MODEL_OWNED_BY") "llm-wake-proxy";
}

backend_at : Env → ModelConfig → String → EmbeddingsBackendConfig
unfolding read_var read_port
backend_at env model model_path = record {
  alias = unwrap_or (read_var env "EMBEDDINGS_MODEL_ALIAS") (String.◌++◌ model.alias "-embeddings");
  provider_id = unwrap_or (read_var env "EMBEDDINGS_MODEL_PROVIDER_ID") model.provider_id;
  owned_by = unwrap_or (read_var env "EMBEDDINGS_MODEL_OWNED_BY") model.owned_by;
  model_path = model_path;
  tunnel_local_port = read_port env "EMBEDDINGS_TUNNEL_LOCAL_PORT" 18081;
  remote_port = read_port env "EMBEDDINGS_LLAMA_SERVER_PORT" 8081;
}

abbrev map_option : {A B : Type 0} → (A → B) → Option A → Option B
map_option f none = none
map_option f (some a) = some (f a)

embeddings_from_env : Env → ModelConfig → EmbeddingsConfig
unfolding backend_at
embeddings_from_env env model =
    let backend = map_option (backend_at env model) (read_var env "EMBEDDINGS_MODEL_PATH") in
    record {
      enabled =
          is_some backend
          || unwrap_or (map_option is_truthy (read_var env "EMBEDDINGS_ENABLED")) true;
      backend = backend;
    }

warm_execution_from_env : Env → WarmExecutionConfig
unfolding read_positive_usize read_nonnegative_usize read_var
warm_execution_from_env env = record {
  max_active_requests = read_positive_usize env "WARM_MAX_ACTIVE_REQUESTS" 2;
  max_queued_requests = read_nonnegative_usize env "WARM_MAX_QUEUED_REQUESTS" 16;
  queue_timeout_secs =
      unwrap_or (and_then (read_var env "WARM_QUEUE_TIMEOUT_SECS") (parse_up_to u64_max)) 30;
}

host_from_env : Env → Result HostConfig String
unfolding read_port parse_mac
host_from_env env = do
  host ← ok_or_err (read_var env "SSH_HOST") "SSH_HOST must be set"
  ssh_user ← ok_or_err (read_var env "SSH_USER") "SSH_USER must be set"
  mac_str ← ok_or_err (read_var env "WOL_MAC_ADDRESS") "WOL_MAC_ADDRESS must be set"
  wol_mac ←
      ok_or_err (parse_mac (codes mac_str)) "WOL_MAC_ADDRESS must be in XX:XX:XX:XX:XX:XX format"
  model_path ← ok_or_err (read_var env "MODEL_PATH") "MODEL_PATH must be set"
  ok (record {
    host = host;
    ssh_user = ssh_user;
    ssh_port = read_port env "SSH_PORT" 22;
    wol_mac = wol_mac;
    wol_broadcast = unwrap_or (read_var env "WOL_BROADCAST_ADDR") "255.255.255.255";
    wol_port = read_port env "WOL_PORT" 9;
    helper_path = unwrap_or (read_var env "HELPER_PATH") "/usr/local/bin/llm-wake-proxy-helper";
    model_path = model_path;
    ssh_key_path = unwrap_or (read_var env "SSH_KEY_PATH") "~/.ssh/ssh-privatekey";
    tunnel_local_port = read_port env "TUNNEL_LOCAL_PORT" 18080;
    remote_port = read_port env "LLAMA_SERVER_PORT" 8080;
  })

pub from_env : Env → Result AppConfig String
unfolding model_from_env embeddings_from_env warm_execution_from_env host_from_env
from_env env = do
  host ← host_from_env env
  let model = model_from_env env
  ok (record {
    listen_port = read_port env "PORT" 3000;
    model = model;
    embeddings = embeddings_from_env env model;
    warm_execution = warm_execution_from_env env;
    host = host;
    cold_start_max_waiting = read_positive_usize env "COLD_START_MAX_WAITING" 32;
  })
