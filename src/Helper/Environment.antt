-- ===== src/Helper/Environment.antt =====
-- src/helper.rs: the configuration from the environment, and what is made of texts and properties.
use Prim.Native.String
use Prim.Native.String.{String}
use llm_wake_proxy.Base.{
  ℕ, Bool, ◌||◌, Option, none, List, [], ◌∷◌, Result, ok, err, and_then, unwrap_or, contains, codes,
  from_str_radix,
}
use llm_wake_proxy.Http.{to_text}
use llm_wake_proxy.Config.{Env, u16_max, u64_max}
use llm_wake_proxy.Helper.Types.{UnitInfo, Properties, ModelsJson, HelperConfig}

abbrev pub number_or : ℕ → Option String → ℕ → ℕ
number_or most v default =
    unwrap_or (and_then v λ text. from_str_radix 10 most (codes text)) default

-- `HelperConfig::from_env`
unfoldable pub helper_from_env : Env → HelperConfig
helper_from_env env = record {
  llama_server_unit = unwrap_or (env "LLAMA_SERVER_UNIT") "llama-server";
  inhibit_holder_unit = unwrap_or (env "INHIBIT_HOLDER_UNIT") "llm-wake-proxy-inhibit";
  llama_server_port = number_or u16_max (env "LLAMA_SERVER_PORT") 8080;
  llama_server_embeddings_unit =
      unwrap_or (env "LLAMA_SERVER_EMBEDDINGS_UNIT") "llama-server-embeddings";
  llama_server_embeddings_port = number_or u16_max (env "LLAMA_SERVER_EMBEDDINGS_PORT") 8081;
  server_start_timeout_secs = number_or u64_max (env "SERVER_START_TIMEOUT_SECS") 60;
}

unfoldable pub build_server_url : ℕ → String → String
unfolding to_text
build_server_url port path = String.◌++◌ "http://127.0.0.1:" (String.◌++◌ (to_text port) path)

unfoldable pub unit_of_properties : String → Properties → UnitInfo
unit_of_properties unit props = record {
  unit_name = unit;
  active_state = unwrap_or (props "ActiveState") "unknown";
  sub_state = unwrap_or (props "SubState") "unknown";
  description = unwrap_or (props "Description") "";
}

unfoldable pub unit_of_result : String → Result Properties String → UnitInfo
unfolding unit_of_properties
unit_of_result unit (ok props) = unit_of_properties unit props
unit_of_result unit (err e) = record {
  unit_name = unit;
  active_state = "error";
  sub_state = e;
  description = "";
}

abbrev pub fallback : String → String → String → String → UnitInfo
fallback unit active_state sub_state description = record {
  unit_name = unit;
  active_state = active_state;
  sub_state = sub_state;
  description = description;
}

unfoldable pub first_id : {V : Type 0} → ModelsJson V → List V → Option String
first_id json [] = none
first_id json (first ∷ rest) = json.as_str (json.index first "id")

-- Either text is a part of the other.
unfoldable pub is_same_model : String → String → Bool
unfolding contains
is_same_model reported_id model_path =
    contains (codes reported_id) (codes model_path)
    || contains (codes model_path) (codes reported_id)
