-- ===== src/Examples/Host.antt =====
-- The production services at concrete inputs.

use llm_wake_proxy.Base.{
  ℕ, ◌+◌, ◌*◌, ◌≡◌, ◌⊎◌, refl, true, false, none, some, List, [], ◌∷◌, ok, err, length, get_elem?,
  arith,
}
use llm_wake_proxy.Lifecycle.Types.{LifecycleRequest}
use llm_wake_proxy.Helper.Types.{HelperStatus, Target, EnsureStartedResponse}
use llm_wake_proxy.Host.{
  System, HelperJson, SshHelperRpc, wol_packet, observe_backend, rpc_ensure_started,
}
use llm_wake_proxy.Host.Tunnel.{SshTunnelManager, ensure_tunnel}
use llm_wake_proxy.Host.Packet.{wol_packet-magic}
use llm_wake_proxy.Host.Observing.{IsVouched, says_ready, observe_backend-IsVouched}
use llm_wake_proxy.Host.Tunnel.Honesty.{IsHonest, ensure_tunnel-IsHonest}

abbrev pub sample_system : System ℕ
sample_system = record {
  udp_bind = λ w. (ok tt, w);
  set_broadcast = λ w. (ok tt, w);
  send_to = λ packet to w. (ok tt, w);
  tcp_connect = λ to w. (true, w);
  run = λ program args w. (ok (record { success = true; stdout = ok "{}"; stderr = "" }), w);
  spawn = λ program args w. (ok 7, w);
  try_wait = λ child w. (ok none, w);
  sleep = λ n w. w + n;
}

abbrev pub verified_answer : EnsureStartedResponse
verified_answer = record {
  status = HelperStatus.ok;
  message = "model is already running and ready";
  model_alias = "chat-model";
  model_path = "/m/c.gguf";
  startup_triggered = false;
  server_ready = true;
  model_verified = true;
  llama_server = none;
}

abbrev pub sample_helper_json : HelperJson
sample_helper_json = record {
  ensure_started_response = λ s. ok verified_answer;
  status_response = λ s. err "eof";
}

abbrev pub sample_rpc : SshHelperRpc
sample_rpc = record {
  ssh_user = "user";
  ssh_host = "host";
  helper_path = "helper";
  model_path = "/m/c.gguf";
  model_alias = "chat-model";
  ssh_key_path = "/key";
  target = Target.chat;
}

abbrev pub sample_manager : SshTunnelManager
sample_manager = record {
  ssh_user = "user";
  ssh_host = "host";
  local_port = 9000;
  remote_port = 8080;
  ssh_key_path = "/key";
}

abbrev sample_mac : List ℕ
sample_mac = 1 ∷ 2 ∷ 3 ∷ 4 ∷ 5 ∷ 6 ∷ []

wol_packet-magic_example :
    (length (wol_packet sample_mac) ≡ 102)
    × (get_elem? (wol_packet sample_mac) 2 ≡ some 0xff)
    × (get_elem? (wol_packet sample_mac) (6 + (6 * 15 + 2)) ≡ get_elem? sample_mac 2)
wol_packet-magic_example = wol_packet-magic sample_mac 15 2 refl (omega arith) (omega arith)

observe_backend-IsVouched_example :
    (says_ready sample_system sample_helper_json sample_rpc
        (observe_backend sample_system sample_helper_json sample_rpc LifecycleRequest.chat 0).0
      ≡ says_ready sample_system sample_helper_json sample_rpc
          (rpc_ensure_started sample_system sample_helper_json sample_rpc 0).0)
    × ((says_ready sample_system sample_helper_json sample_rpc
            (observe_backend sample_system sample_helper_json sample_rpc LifecycleRequest.chat 0).0
          ≡ false)
        ⊎ IsVouched sample_system sample_helper_json sample_rpc 0)
observe_backend-IsVouched_example =
    observe_backend-IsVouched sample_system sample_helper_json sample_rpc LifecycleRequest.chat 0

ensure_tunnel-IsHonest_example :
    IsHonest sample_system (ensure_tunnel sample_system sample_manager none 0)
ensure_tunnel-IsHonest_example = ensure_tunnel-IsHonest sample_system sample_manager none 0
