-- ===== src/Lifecycle/Tasks/Seen.antt =====
-- src/lifecycle.rs, LifecycleManager::ensure_backend with the background bootstrap: no answer `ready`
-- without a look at the host that saw it so, under every interleaving.
pub mod Runs
use llm_wake_proxy.Base.{
  ℕ, zero, suc, ◌≡◌, refl, Bool, true, false, not, ◌&&◌, Option, none, some, List, [], ◌∷◌, ◌++◌,
  arith, ◌⊎◌, inl, inr, Bool-cases, ap, ◌∙◌, sym,
}
use llm_wake_proxy.Lifecycle.Types.{
  LifecycleState, LifecycleRequest, BackendStatus, LifecycleError, LifecycleDecision,
  LifecycleTiming, Services, Core, BootstrapState, backend_is_ready,
}
use llm_wake_proxy.Lifecycle.Soundness.{IsSound, observe_once-IsSound}
use llm_wake_proxy.Lifecycle.Seeing.{AreSeen, IsSeen, observe_once-IsSeen}
use llm_wake_proxy.Lifecycle.Observe.{observe_once, publish}
use llm_wake_proxy.Lifecycle.Bootstrap.{
  wait_view, wait_elapsed, finish_bootstrap, start_or_join, start_or_join_bootstrap, mark_warming,
  degrade_embeddings, pause,
}
use llm_wake_proxy.Lifecycle.Tasks.{
  Task, entered, borrowed, joining, leading, observing, settling, waiting, peeking, parked,
  returned, dropped, boot_start, booting, sleeping, boot_leading, boot_observing, boot_settling,
  ended, Next, after_join, after_wait, after_lead, after_look, advance, elapse, give_up, System,
  Action, arrives, runs, times_out, gives_up, marks_warming, degrades, world_becomes, edit_at,
  run_at, apply, run,
}

-- A look at the host: what was asked, and the core before and after.
pub record Look (W : Type 0) : Type 0 where
  pub asked : LifecycleRequest
  pub before : Core W
  pub after : Core W

-- The status that a task may still answer with or publish is not ready.
abbrev pub UnreadyTask : Task → Type 0
UnreadyTask (borrowed request initial) = backend_is_ready initial ≡ false
UnreadyTask (peeking deadline status) = backend_is_ready status ≡ false
UnreadyTask (settling status error (LifecycleDecision.ready st)) = ⊥
UnreadyTask (settling status error d) = backend_is_ready status ≡ false
UnreadyTask (boot_settling status error) = backend_is_ready status ≡ false
UnreadyTask (returned (LifecycleDecision.ready st)) = ⊥
UnreadyTask _ = Unit {0}

abbrev pub AllUnready : List Task → Type 0
AllUnready [] = Unit {0}
AllUnready (t ∷ ts) = UnreadyTask t × AllUnready ts

-- No answer says that the backend is ready, and none is about to.
abbrev pub IsUnready : {W : Type 0} → System W → Type 0
IsUnready s = (backend_is_ready s.core.status ≡ false) × AllUnready s.tasks

module _ {W : Type 0} (sv : Services W) (timing : LifecycleTiming) where
  -- The look at the host that a step of a task makes.
  unfoldable pub looks_of : Task → Core W → List (Look W)
  looks_of (observing request observe_request initial) c =
      let out = observe_once sv timing (some request) observe_request initial c in
      record { asked = observe_request; before = c; after = out.1 } ∷ []
  looks_of (boot_observing deadline observe_request status) c =
      let out = observe_once sv timing none observe_request status c in
      record { asked = observe_request; before = c; after = out.1 } ∷ []
  looks_of _ c = []

  unfoldable pub looks_at : ℕ → List Task → Core W → List (Look W)
  looks_at i [] c = []
  looks_at zero (t ∷ ts) c = looks_of t c
  looks_at (suc i) (t ∷ ts) c = looks_at i ts c

  unfoldable pub looks_in : Action W → System W → List (Look W)
  looks_in (runs i) s = looks_at i s.tasks s.core
  looks_in _ s = []

  -- The looks at the host that the tasks make in a run, in order.
  unfoldable pub looks : List (Action W) → System W → List (Look W)
  looks [] s = []
  looks (a ∷ actions) s = looks_in a s ++ looks actions (apply sv timing a s)

  -- One of the looks saw the backend ready, and then the tunnel.
  abbrev pub AnySeen : List (Look W) → Type 0
  AnySeen [] = ⊥
  AnySeen (l ∷ ls) = AreSeen sv timing l.before l.asked l.after ⊎ AnySeen ls
