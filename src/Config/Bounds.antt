-- ===== src/Config/Bounds.antt =====
-- What every configuration that AppConfig::from_env returns satisfies, and when it panics.
use Prim.Native.String.{String}
use llm_wake_proxy.Base.{
  ℕ, suc, ◌≤◌, ◌<◌, ◌≡◌, refl, Bool, true, false, ◌&&◌, Option, none, some, List, [], ◌∷◌, ok,
  ok_or_err, and_then, is_some, arith, length, codes, from_str_radix-le, from_str_radix, split_on,
  ◌==◌, Bool-cases, inl, inr, ap, and_then-eq-some, >>=-eq-ok, ok_or_err-eq-ok, unwrap_or, subst,
  ◌∙◌, ==_iff, ok-injective, is_ok,
}
use mathlib.Core.Option.{some-injective}
use llm_wake_proxy.Config.Types.{ModelConfig, HostConfig, AppConfig}
use llm_wake_proxy.Config.{
  Env, u8_max, u16_max, u64_max, mac_bytes, parse_mac, read_var, read_positive_usize,
  read_nonnegative_usize, read_port, embeddings_from_env, warm_execution_from_env, host_from_env,
  from_env,
}

abbrev pub AllBytes : List ℕ → Type 0
AllBytes [] = Unit {0}
AllBytes (b ∷ bs) = (b ≤ u8_max) × AllBytes bs

pub record IsHostValid (host : HostConfig) : Type 0 where
  pub ssh_port : host.ssh_port ≤ u16_max
  pub wol_port : host.wol_port ≤ u16_max
  pub tunnel_local_port : host.tunnel_local_port ≤ u16_max
  pub remote_port : host.remote_port ≤ u16_max
  pub mac_length : length host.wol_mac ≡ 6
  pub mac_bytes : AllBytes host.wol_mac

-- Ports fit u16, the two limits that may not be 0 are not, the queue limit fits its type, the MAC
-- address is six bytes, and a dedicated embeddings backend comes with embeddings enabled.
pub record IsValid (config : AppConfig) : Type 0 where
  pub listen_port : config.listen_port ≤ u16_max
  pub active_positive : 0 < config.warm_execution.max_active_requests
  pub queue_fits : config.warm_execution.max_queued_requests ≤ u64_max
  pub cold_start_positive : 0 < config.cold_start_max_waiting
  pub backend_enabled : is_some config.embeddings.backend ≡ true → config.embeddings.enabled ≡ true
  pub host : IsHostValid config.host

unwrap_or-le :
    (most default : ℕ) (o : Option ℕ)
    → default ≤ most
    → ((n : ℕ) → o ≡ some n → n ≤ most)
    → unwrap_or o default ≤ most
unwrap_or-le most default none h k = h
unwrap_or-le most default (some n) h k = k n refl

parsed-le :
    (most : ℕ) (v : Option String) (n : ℕ)
    → and_then v (λ s. from_str_radix 10 most (codes s)) ≡ some n
    → n ≤ most
parsed-le most none n e = cc
parsed-le most (some s) n e = from_str_radix-le 10 most (codes s) e

read_port-le :
    (env : Env) (name : String) (default : ℕ)
    → default ≤ u16_max
    → read_port env name default ≤ u16_max
unfolding read_port
read_port-le env name default h =
    unwrap_or-le u16_max default _ h (parsed-le u16_max (read_var env name))

read_nonnegative_usize-le :
    (env : Env) (name : String) (default : ℕ)
    → default ≤ u64_max
    → read_nonnegative_usize env name default ≤ u64_max
unfolding read_nonnegative_usize
read_nonnegative_usize-le env name default h =
    unwrap_or-le u64_max default _ h (parsed-le u64_max (read_var env name))

read_positive_usize-pos :
    (env : Env) (name : String) (default : ℕ)
    → 0 < default
    → 0 < read_positive_usize env name default
unfolding read_positive_usize
read_positive_usize-pos env name default h = ground arith

mac_bytes-valid :
    (parts : List (List ℕ)) (m : List ℕ)
    → mac_bytes parts ≡ some m
    → (length m ≡ length parts) × AllBytes m
unfolding mac_bytes
mac_bytes-valid [] m e = subst (λ m. (length m ≡ 0) × AllBytes m) (some-injective _ _ e) (refl, tt)
mac_bytes-valid (p ∷ ps) m e =
    let (byte, parsed, e') = and_then-eq-some (from_str_radix 16 u8_max p) _ e in
    let (bytes, rest, e'') = and_then-eq-some (mac_bytes ps) _ e' in
    let (n, all) = mac_bytes-valid ps bytes rest in
    subst (λ m. (length m ≡ suc (length ps)) × AllBytes m) (some-injective _ _ e'')
      (ap suc n, (from_str_radix-le 16 u8_max p parsed, all))

-- A parsed MAC address is six bytes.
parse_mac-valid : (input m : List ℕ) → parse_mac input ≡ some m → (length m ≡ 6) × AllBytes m
unfolding parse_mac
parse_mac-valid input m e = elim (Bool-cases (length (split_on b':' input) == 6)) [
  | inl six ↦
      let (n, all) = mac_bytes-valid (split_on b':' input) m (rw six at e) in
      (n ∙ (==_iff _ 6).0 six, all)
  | inr other ↦ let e' : none ≡ some m = rw other at e in cc
]

host_from_env-valid :
    (env : Env) (host : HostConfig) → host_from_env env ≡ ok host → IsHostValid host
unfolding host_from_env
host_from_env-valid env host e =
    let (h, _, e₁) = >>=-eq-ok (ok_or_err (read_var env "SSH_HOST") _) _ e in
    let (u, _, e₂) = >>=-eq-ok (ok_or_err (read_var env "SSH_USER") _) _ e₁ in
    let (s, _, e₃) = >>=-eq-ok (ok_or_err (read_var env "WOL_MAC_ADDRESS") _) _ e₂ in
    let (m, mac, e₄) = >>=-eq-ok (ok_or_err (parse_mac (codes s)) _) _ e₃ in
    let (p, _, e₅) = >>=-eq-ok (ok_or_err (read_var env "MODEL_PATH") _) _ e₄ in
    let (n, all) = parse_mac-valid (codes s) m (ok_or_err-eq-ok _ _ mac) in
    subst IsHostValid (ok-injective _ _ e₅) (record {
      ssh_port = read_port-le env "SSH_PORT" 22 (omega arith);
      wol_port = read_port-le env "WOL_PORT" 9 (omega arith);
      tunnel_local_port = read_port-le env "TUNNEL_LOCAL_PORT" 18080 (omega arith);
      remote_port = read_port-le env "LLAMA_SERVER_PORT" 8080 (omega arith);
      mac_length = n;
      mac_bytes = all;
    })

embeddings-enabled :
    (env : Env) (model : ModelConfig)
    → let c = embeddings_from_env env model in is_some c.backend ≡ true → c.enabled ≡ true
unfolding embeddings_from_env
embeddings-enabled env model h = rw h

-- Every configuration that `from_env` returns is valid.
pub from_env-IsValid : (env : Env) (config : AppConfig) → from_env env ≡ ok config → IsValid config
unfolding from_env warm_execution_from_env
from_env-IsValid env config e =
    let (host, h, e') = >>=-eq-ok (host_from_env env) _ e in
    subst IsValid (ok-injective _ _ e') (record {
      listen_port = read_port-le env "PORT" 3000 (omega arith);
      active_positive = read_positive_usize-pos env "WARM_MAX_ACTIVE_REQUESTS" 2 (omega arith);
      queue_fits = read_nonnegative_usize-le env "WARM_MAX_QUEUED_REQUESTS" 16 (omega arith);
      cold_start_positive = read_positive_usize-pos env "COLD_START_MAX_WAITING" 32 (omega arith);
      backend_enabled = embeddings-enabled env _;
      host = host_from_env-valid env host h;
    })

abbrev pub has_mac : Option String → Bool
has_mac none = false
has_mac (some s) = is_some (parse_mac (codes s))

-- `from_env` returns a configuration exactly if SSH_HOST, SSH_USER and MODEL_PATH are set and not
-- blank, and WOL_MAC_ADDRESS is set, not blank and parses; in all other cases it panics.
pub from_env_total :
    (env : Env)
    → is_ok (from_env env) ≡ (
        is_some (read_var env "SSH_HOST")
        && is_some (read_var env "SSH_USER")
        && has_mac (read_var env "WOL_MAC_ADDRESS")
        && is_some (read_var env "MODEL_PATH"))
unfolding from_env host_from_env
from_env_total env = ground arith
