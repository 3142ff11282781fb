-- ===== src/Host/Tunnel/Honesty.antt =====
-- src/host.rs, SshTunnelManager::ensure_tunnel: what it holds and what it says.
use Prim.Native.String.{String}
use llm_wake_proxy.Base.{
  ℕ, ◌≡◌, refl, Bool, true, false, Option, none, some, Result, ok, err, ◌⊎◌, inl, inr, is_ok,
}
use llm_wake_proxy.Lifecycle.Types.{TunnelState, LifecycleError, is_tunnel_ready}
use llm_wake_proxy.Host.{System}
use llm_wake_proxy.Host.Tunnel.{
  SshTunnelManager, after_wait, after_spawn, create_tunnel, after_create, check_child,
  ensure_tunnel, tunnel_args,
}

module _ {W : Type 0} (system : System W) where
  -- The last thing that happened is that the process was asked for its exit status, and had none.
  abbrev pub IsRunning : ℕ → W → Type 0
  IsRunning child w = (u : W) × (system.try_wait child u ≡ (ok none, w))

  abbrev pub says_ready : Result TunnelState LifecycleError → Bool
  says_ready (ok t) = is_tunnel_ready t
  says_ready (err e) = false

  pub record IsHonest (out : Result TunnelState LifecycleError × Option ℕ × W) : Type 0 where
    pub ready :
        (says_ready out.0 ≡ false) ⊎ ((child : ℕ) × (out.1 ≡ some child) × IsRunning child out.2)
    pub released : (is_ok out.0 ≡ true) ⊎ (out.1 ≡ none)

  IsStarted : Result ℕ LifecycleError × W → Type 0
  IsStarted (ok child, w) = IsRunning child w
  IsStarted (err e, w) = is_ok {A = ℕ} (err e) ≡ false

  after_wait-IsStarted :
      (child : ℕ) (w w' : W) (r : Result (Option String) String)
      → system.try_wait child w ≡ (r, w')
      → IsStarted (after_wait system child (r, w'))
  unfolding after_wait IsStarted
  after_wait-IsStarted child w w' (ok (some code)) e = refl
  after_wait-IsStarted child w w' (ok none) e = (w, e)
  after_wait-IsStarted child w w' (err m) e = refl

  after_spawn-IsStarted : (r : Result ℕ String) (w : W) → IsStarted (after_spawn system (r, w))
  unfolding after_spawn IsStarted
  after_spawn-IsStarted (ok child) w =
      let slept = system.sleep 500 w in
      after_wait-IsStarted child slept (system.try_wait child slept).1
        (system.try_wait child slept).0 refl
  after_spawn-IsStarted (err m) w = refl

  after_create-IsHonest :
      (r : Result ℕ LifecycleError) (w : W)
      → IsStarted (r, w)
      → IsHonest (after_create system (r, w))
  unfolding after_create IsStarted
  after_create-IsHonest (ok child) w running = record {
    ready = inr (child, refl, running);
    released = inl refl;
  }
  after_create-IsHonest (err e) w h = record { ready = inl refl; released = inr refl }

  created-IsHonest :
      (manager : SshTunnelManager) (w : W)
      → IsHonest (after_create system (create_tunnel system manager w))
  unfolding create_tunnel
  created-IsHonest manager w =
      let spawned = system.spawn "ssh" (tunnel_args manager) w in
      let out = after_spawn system spawned in
      after_create-IsHonest out.0 out.1 (after_spawn-IsStarted spawned.0 spawned.1)

  check_child-IsHonest :
      (manager : SshTunnelManager) (child : ℕ) (w w' : W) (r : Result (Option String) String)
      → system.try_wait child w ≡ (r, w')
      → IsHonest (check_child system manager child (r, w'))
  unfolding check_child
  check_child-IsHonest manager child w w' (ok (some code)) e = created-IsHonest manager w'
  check_child-IsHonest manager child w w' (ok none) e = record {
    ready = inr (child, refl, (w, e));
    released = inl refl;
  }
  check_child-IsHonest manager child w w' (err m) e = record {
    ready = inl refl;
    released = inl refl;
  }

  -- Whatever the manager held, `ensure_tunnel` says ready only with a process in its hands, after a
  -- last `try_wait` that found this process still running, and after an error it holds no process.
  pub ensure_tunnel-IsHonest :
      (manager : SshTunnelManager) (held : Option ℕ) (w : W)
      → IsHonest (ensure_tunnel system manager held w)
  unfolding ensure_tunnel
  ensure_tunnel-IsHonest manager none w = created-IsHonest manager w
  ensure_tunnel-IsHonest manager (some child) w =
      let r = system.try_wait child w in check_child-IsHonest manager child w r.1 r.0 refl
