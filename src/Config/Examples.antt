-- ===== src/Config/Examples.antt =====
-- The configuration read from a concrete environment.

use text.Mathlib.Text.{◌==◌ as str_eq}
use llm_wake_proxy.Base.{
  ◌≡◌, refl, true, [], ◌∷◌, is_blank, from_str_radix, split_on, ◌&&◌, none, some, if◌then◌else◌,
  is_ok, is_some, ok,
}
use llm_wake_proxy.Config.{Env, from_env, read_var}
use llm_wake_proxy.Config.Types.{AppConfig}
use llm_wake_proxy.Config.Bounds.{IsValid, from_env-IsValid, from_env_total, has_mac}

-- The variables that must be set, and nothing else.
abbrev pub sample_env : Env
sample_env = λ name.
    if str_eq name "SSH_HOST"
    then some "host"
    else if str_eq name "SSH_USER"
    then some "user"
    else if str_eq name "WOL_MAC_ADDRESS"
    then some "00:11:22:aa:bb:cc"
    else if str_eq name "MODEL_PATH"
    then some "/m/c.gguf"
    else none

from_env_total_example : is_ok (from_env sample_env) ≡ (
    is_some (read_var sample_env "SSH_HOST")
    && is_some (read_var sample_env "SSH_USER")
    && has_mac (read_var sample_env "WOL_MAC_ADDRESS")
    && is_some (read_var sample_env "MODEL_PATH"))
from_env_total_example = from_env_total sample_env

abbrev pub read_config : AppConfig
read_config = record {
  listen_port = 3000;
  model = record {
    alias = "llm-wake-proxy";
    provider_id = "llama.cpp";
    owned_by = "llm-wake-proxy";
  };
  embeddings = record { enabled = true; backend = none };
  warm_execution = record {
    max_active_requests = 2;
    max_queued_requests = 16;
    queue_timeout_secs = 30;
  };
  host = record {
    host = "host";
    ssh_user = "user";
    ssh_port = 22;
    wol_mac = 0 ∷ 17 ∷ 34 ∷ 170 ∷ 187 ∷ 204 ∷ [];
    wol_broadcast = "255.255.255.255";
    wol_port = 9;
    helper_path = "/usr/local/bin/llm-wake-proxy-helper";
    model_path = "/m/c.gguf";
    ssh_key_path = "~/.ssh/ssh-privatekey";
    tunnel_local_port = 18080;
    remote_port = 8080;
  };
  cold_start_max_waiting = 32;
}

pub read_env : from_env sample_env ≡ ok read_config
unfolding from_env is_blank from_str_radix split_on
read_env = refl

from_env-IsValid_example : IsValid read_config
from_env-IsValid_example = from_env-IsValid sample_env read_config read_env
