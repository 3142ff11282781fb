-- ===== src/Host/Tunnel.antt =====
-- src/host.rs, SshTunnelManager: the ssh process that holds the tunnel.
pub mod Honesty
use Prim.Native.String
use Prim.Native.String.{String}
use text.Mathlib.Text.{◌==◌ as str_eq}
use llm_wake_proxy.Base.{
  ℕ, zero, suc, ◌+◌, Bool, true, false, ◌||◌, Option, none, some, List, [], ◌∷◌, ◌++◌, Result, ok,
  err, if◌then◌else◌,
}
use llm_wake_proxy.Http.{to_text}
use llm_wake_proxy.Lifecycle.Types.{
  LifecycleState, CapabilityState, TunnelState, UnitState, LifecycleRequest, LifecycleError,
  ObservedBackendState, is_ready_state,
}
use llm_wake_proxy.Helper.Types.{
  HelperStatus, Target, UnitInfo, StatusResponse, EnsureStartedResponse, target_text,
}
use llm_wake_proxy.Host.{System, prefixed, ssh_options, at_host, address}

pub record SshTunnelManager : Type 0 where
  pub ssh_user : String
  pub ssh_host : String
  pub local_port : ℕ
  pub remote_port : ℕ
  pub ssh_key_path : String

-- The arguments of `ssh` in `create_tunnel`.
unfoldable pub tunnel_args : SshTunnelManager → List String
tunnel_args manager =
    ssh_options
    ++ ("-o"
        ∷ "ExitOnForwardFailure=yes"
        ∷ "-i"
        ∷ manager.ssh_key_path
        ∷ "-L"
        ∷ String.◌++◌ (address "127.0.0.1" manager.local_port)
            (String.◌++◌ ":" (address "127.0.0.1" manager.remote_port))
        ∷ "-N"
        ∷ at_host manager.ssh_user manager.ssh_host
        ∷ [])

module _ {W : Type 0} (system : System W) where
  -- The SSH tunnel: a child that still runs after half a second.
  after_wait : ℕ → Result (Option String) String × W → Result ℕ LifecycleError × W
  after_wait child (ok (some code), w) =
      (err (record { message = String.◌++◌ "SSH tunnel exited immediately with status: " code }), w)
  after_wait child (ok none, w) = (ok child, w)
  after_wait child (err e, w) = (prefixed "failed to check tunnel: " (err e), w)

  after_spawn : Result ℕ String × W → Result ℕ LifecycleError × W
  unfolding after_wait
  after_spawn (err e, w) = (prefixed "failed to spawn SSH tunnel: " (err e), w)
  after_spawn (ok child, w) = after_wait child (system.try_wait child (system.sleep 500 w))

  unfoldable pub create_tunnel : SshTunnelManager → W → Result ℕ LifecycleError × W
  unfolding after_spawn tunnel_args
  create_tunnel manager w = after_spawn (system.spawn "ssh" (tunnel_args manager) w)

  -- The process that the mutex holds, with the world.
  abbrev pub Held : Type 0
  Held = Option ℕ × W

  after_create : Result ℕ LifecycleError × W → Result TunnelState LifecycleError × Option ℕ × W
  after_create (ok child, w) = (ok TunnelState.ready, some child, w)
  after_create (err e, w) = (err e, none, w)

  check_child :
      SshTunnelManager
      → ℕ
      → Result (Option String) String × W
      → Result TunnelState LifecycleError × Option ℕ × W
  unfolding after_create create_tunnel
  check_child manager child (ok (some code), w) = after_create (create_tunnel manager w)
  check_child manager child (ok none, w) = (ok TunnelState.ready, some child, w)
  check_child manager child (err e, w) = (ok TunnelState.down, some child, w)

  -- `SshTunnelManager::ensure_tunnel`
  unfoldable pub ensure_tunnel :
      SshTunnelManager → Option ℕ → W → Result TunnelState LifecycleError × Option ℕ × W
  unfolding check_child after_create create_tunnel
  ensure_tunnel manager none w = after_create (create_tunnel manager w)
  ensure_tunnel manager (some child) w = check_child manager child (system.try_wait child w)
