-- ===== src/Production/Earned.antt =====
-- src/state.rs, AppState::production with src/lifecycle.rs and src/host.rs: what stands behind the
-- answers `ready` of a whole run.
use llm_wake_proxy.Base.{List, [], ◌∷◌, ◌⊎◌, inl, inr}
use llm_wake_proxy.Config.Types.{AppConfig}
use llm_wake_proxy.Lifecycle.Types.{LifecycleTiming}
use llm_wake_proxy.Lifecycle.Tasks.{Action, System, run}
use llm_wake_proxy.Lifecycle.Tasks.Seen.{Look, IsUnready, looks, AnySeen}
use llm_wake_proxy.Lifecycle.Tasks.Seen.Runs.{run-IsUnready}
use llm_wake_proxy.Host
use llm_wake_proxy.Host.{HelperJson, SshHelperRpc}
use llm_wake_proxy.Host.Tunnel.{SshTunnelManager}
use llm_wake_proxy.Production.{Clock, Held, production_services}
use llm_wake_proxy.Production.Seeing.{AreEarned, AreSeen-AreEarned}

module _ {W : Type 0} (system : Host.System W) (json : HelperJson) (clock : Clock W)
    (config : AppConfig) (rpc : SshHelperRpc) (manager : SshTunnelManager) where
  -- One of the looks is earned.
  abbrev pub AnyEarned : List (Look (Held W)) → Type 0
  AnyEarned [] = ⊥
  AnyEarned (l ∷ ls) =
      AreEarned system json clock config rpc manager l.before l.after ⊎ AnyEarned ls

  AnySeen-AnyEarned :
      (timing : LifecycleTiming) (ls : List (Look (Held W)))
      → AnySeen (production_services system json clock config rpc manager) timing ls
      → AnyEarned ls
  AnySeen-AnyEarned timing [] h = h
  AnySeen-AnyEarned timing (l ∷ ls) (inl h) =
      inl (AreSeen-AreEarned system json clock config rpc manager timing l.asked l.before l.after h)
  AnySeen-AnyEarned timing (l ∷ ls) (inr h) = inr (AnySeen-AnyEarned timing ls h)

  -- Over the production services of any backend, from any system that says nowhere that the backend is
  -- ready, under every interleaving of requests, background bootstraps, timeouts and clients that give
  -- up: either no answer given or about to be given says `ready`, and neither does the published
  -- status, or one of the looks that the run made was earned: the host took a connection on its ssh
  -- port, then the helper, run over ssh, vouched for the backend's model, and then the tunnel's
  -- process, which the manager held from then on, was found running.
  pub run-AnyEarned :
      (timing : LifecycleTiming) (actions : List (Action (Held W))) (s : System (Held W))
      → IsUnready s
      → IsUnready (run (production_services system json clock config rpc manager) timing actions s)
        ⊎ AnyEarned
            (looks (production_services system json clock config rpc manager) timing actions s)
  run-AnyEarned timing actions s h =
      let services = production_services system json clock config rpc manager in
      elim (run-IsUnready services timing actions s h) [
        | inl n ↦ inl n
        | inr seen ↦ inr (AnySeen-AnyEarned timing (looks services timing actions s) seen)
      ]
