-- ===== src/Examples/Helper.antt =====
-- The helper at concrete inputs.

use Prim.Native.String.{String}
use llm_wake_proxy.Base.{
  ℕ, suc, ◌+◌, ◌*◌, false, some, [], ◌∷◌, ok, err, leb, arith, if◌then◌else◌, List, none, ◌≤◌, ◌≡◌,
  refl,
}
use llm_wake_proxy.Helper.Types.{Target, Machine, ModelsJson, HelperConfig, default_helper_config}
use text.Mathlib.Text.{◌==◌ as str_eq}
use llm_wake_proxy.Config.{Env}
use llm_wake_proxy.HelperCli.{main}
use llm_wake_proxy.HelperCli.Reports.{IsReported, main-IsReported}
use llm_wake_proxy.Helper.{helper_from_env, ensure_started}
use llm_wake_proxy.Helper.Leasing.{lease_acquire}
use llm_wake_proxy.Helper.Systemd.{parse_systemctl_output}
use llm_wake_proxy.Helper.Systemd.Readback.{show_text, last_value, parse_systemctl_output-show_text}
use llm_wake_proxy.Helper.Waiting.{IsTicking}
use llm_wake_proxy.Helper.Answers.{IsAnswered, ensure_started-IsAnswered}
use llm_wake_proxy.Helper.Leasing.Bounds.{IsLease, lease_acquire-IsLease}

-- With an empty environment the configuration is the default one.
helper_from_env_default : helper_from_env (λ name. none) ≡ default_helper_config
unfolding helper_from_env
helper_from_env_default = refl

-- What systemctl prints for a running unit.
abbrev active_unit : List (String × String)
active_unit = ("ActiveState", "active") ∷ ("Description", "llama=chat") ∷ []

parse_systemctl_output-show_text_example :
    parse_systemctl_output (ok (show_text active_unit))
    ≡ ok (λ name. last_value name active_unit none)
parse_systemctl_output-show_text_example = parse_systemctl_output-show_text active_unit (
  record { name = refl; line_feed = (refl, refl); carriage = (refl, refl) },
  (record { name = refl; line_feed = (refl, refl); carriage = (refl, refl) }, tt),
)

-- A host whose unit must be started and whose server answers a second after the start.
abbrev pub sample_machine : Machine ℕ
sample_machine = record {
  show_unit = λ unit w. (ok (λ name. some "active"), w);
  is_active = λ unit w. (ok false, w);
  start_unit = λ unit w. (ok tt, w);
  stop_unit = λ unit w. (ok tt, w);
  replace_transient_unit = λ unit description args w. (ok tt, w);
  get_text = λ url w. ((if leb 1000 w then ok "/m/c.gguf" else err "refused"), w);
  instant = λ w. w;
  sleep = λ n w. w + n;
}

-- A value is a text, and its only id.
abbrev pub sample_models : ModelsJson String
sample_models = record {
  from_str = λ s. ok s;
  index = λ v key. v;
  as_array = λ v. some (v ∷ []);
  as_str = λ v. some v;
}

abbrev sample_helper_config : HelperConfig
sample_helper_config = record {
  llama_server_unit = "llama-server";
  inhibit_holder_unit = "inhibit";
  llama_server_port = 8080;
  llama_server_embeddings_unit = "llama-server-embeddings";
  llama_server_embeddings_port = 8081;
  server_start_timeout_secs = 60;
}

pub sample-IsTicking : IsTicking sample_machine
sample-IsTicking = record { sleep_instant = λ n w. omega arith; get_instant = λ url w. omega arith }

ensure_started-IsAnswered_example :
    IsAnswered sample_machine sample_models sample_helper_config Target.chat "chat-model"
      "/m/c.gguf"
      (ensure_started sample_machine sample_models sample_helper_config Target.chat "chat-model"
        "/m/c.gguf"
        (suc 120)
        0)
ensure_started-IsAnswered_example =
    ensure_started-IsAnswered sample_machine sample_models sample_helper_config Target.chat
      "chat-model" "/m/c.gguf" sample-IsTicking 120 0 (omega arith)

lease_acquire-IsLease_example :
    IsLease sample_machine sample_models sample_helper_config 5 0
      (lease_acquire sample_machine sample_models sample_helper_config 5 0)
lease_acquire-IsLease_example =
    lease_acquire-IsLease sample_machine sample_models sample_helper_config 5 0

abbrev sample_args : List String
sample_args = "helper" ∷ "ensure-started" ∷ "chat" ∷ "chat-model" ∷ []

abbrev sample_env : Env
sample_env = λ name. if str_eq name "EXPECTED_MODEL_PATH" then some "/m/c.gguf" else none

timeout_enough : 2 * (helper_from_env sample_env).server_start_timeout_secs ≤ 120
unfolding helper_from_env
timeout_enough = omega arith

main-IsReported_example :
    IsReported sample_machine sample_models sample_env
      (main sample_machine sample_models sample_env (suc 120) sample_args 0)
main-IsReported_example =
    main-IsReported sample_machine sample_models sample_env sample-IsTicking 120 sample_args 0
      timeout_enough
