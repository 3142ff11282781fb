-- ===== src/Lifecycle/Tasks/Manager/Calls.antt =====
-- src/lifecycle.rs, LifecycleManager::ensure_backend: a call that finds the backend ready, and the looks at
-- the host that were made until it was answered.
use llm_wake_proxy.Base.{
  ℕ, zero, suc, ◌≡◌, refl, false, List, [], ◌∷◌, inl, inr, ◌⊎◌, ◌++◌, length, subst,
}
use llm_wake_proxy.Lifecycle.Types.{
  LifecycleRequest, BackendStatus, LifecycleDecision, LifecycleTiming, Services, backend_is_ready,
}
use llm_wake_proxy.Lifecycle.Tasks.{Task, returned, System, Action, arrives, run, dropped, ended}
use llm_wake_proxy.Lifecycle.Tasks.Seen.{UnreadyTask, AllUnready, IsUnready, looks, AnySeen, Look}
use llm_wake_proxy.Lifecycle.Tasks.Seen.Runs.{run-IsUnready, AnySeen-left, AnySeen-right}
use llm_wake_proxy.Lifecycle.Tasks.Manager.{
  Manager, live, new_with_timing, task_at, as_system, while_asked, own_actions, finish, own_steps,
  answered, ensure_backend, lifecycle_manager,
}
use llm_wake_proxy.Lifecycle.Tasks.Manager.Returns.{ensure_backend_returns}
use llm_wake_proxy.Orchestrate.Silent.{says_ready}
use llm_wake_proxy.Lifecycle.Bootstrap.{mark_warming}

-- The manager says nowhere that the backend is ready.
abbrev pub UnreadyManager : Manager → Type 0
UnreadyManager m = (backend_is_ready m.status ≡ false) × AllUnready m.tasks

pub new_with_timing-UnreadyManager :
    (initial_status : BackendStatus)
    → backend_is_ready initial_status ≡ false
    → UnreadyManager (new_with_timing initial_status)
unfolding new_with_timing
new_with_timing-UnreadyManager initial_status h = (h, tt)

task_at-UnreadyTask : (i : ℕ) (ts : List Task) → AllUnready ts → UnreadyTask (task_at i ts)
task_at-UnreadyTask i [] h = tt
task_at-UnreadyTask zero (t ∷ ts) h = h.0
task_at-UnreadyTask (suc i) (t ∷ ts) h = task_at-UnreadyTask i ts h.1

returned-unready : (d : LifecycleDecision) → UnreadyTask (returned d) → says_ready d ≡ false
returned-unready (LifecycleDecision.ready st) h = absurd h
returned-unready (LifecycleDecision.warming st r) h = refl
returned-unready (LifecycleDecision.failed st e) h = refl

live-AllUnready : (ts : List Task) → AllUnready ts → AllUnready (live ts)
live-AllUnready [] h = tt
live-AllUnready (returned d ∷ ts) h = live-AllUnready ts h.1
live-AllUnready (dropped ∷ ts) h = live-AllUnready ts h.1
live-AllUnready (ended ∷ ts) h = live-AllUnready ts h.1
live-AllUnready (t ∷ ts) h = (h.0, live-AllUnready ts h.1)

module _ {W : Type 0} (sv : Services W) (timing : LifecycleTiming) where
  -- The looks that a call makes by itself.
  own_looks : ℕ → ℕ → System W → List (Look W)
  own_looks zero i s = []
  own_looks (suc n) i s =
      let actions = own_actions sv timing i (task_at i s.tasks) s.core in
      looks sv timing actions s ++ own_looks n i (run sv timing actions s)

  finish-IsUnready :
      (n i : ℕ) (s : System W)
      → IsUnready s
      → IsUnready (finish sv timing n i s) ⊎ AnySeen sv timing (own_looks n i s)
  unfolding finish own_looks
  finish-IsUnready zero i s h = inl h
  finish-IsUnready (suc n) i s h =
      let actions = own_actions sv timing i (task_at i s.tasks) s.core in
      elim (run-IsUnready sv timing actions s h) [
        | inl u ↦ elim (finish-IsUnready n i (run sv timing actions s) u) [
          | inl v ↦ inl v
          | inr seen ↦ inr (
              AnySeen-right sv timing (looks sv timing actions s)
                (own_looks n i (run sv timing actions s)) seen)
        ]
        | inr seen ↦ inr (
            AnySeen-left sv timing (looks sv timing actions s)
              (own_looks n i (run sv timing actions s)) seen)
      ]

module _ {W : Type 0} (sv : Services W) (timing : LifecycleTiming)
    (others : LifecycleRequest → Manager → W → List (Action W)) where
  call_actions : LifecycleRequest → Manager → W → List (Action W)
  call_actions request m w = arrives request ∷ while_asked (length m.tasks) (others request m w)

  -- The looks at the host from the arrival of a call to its answer.
  unfoldable pub call_looks : LifecycleRequest → Manager → W → List (Look W)
  unfolding own_looks call_actions
  call_looks request m w =
      let actions = call_actions request m w in
      looks sv timing actions (as_system m w)
      ++ own_looks sv timing own_steps (length m.tasks) (run sv timing actions (as_system m w))

  answered-IsUnready :
      (request : LifecycleRequest) (m : Manager) (w : W)
      → UnreadyManager m
      → IsUnready (answered sv timing others request m w)
        ⊎ AnySeen sv timing (call_looks request m w)
  unfolding answered call_looks call_actions
  answered-IsUnready request m w h =
      let actions = call_actions request m w in
      let first = looks sv timing actions (as_system m w) in
      let s = run sv timing actions (as_system m w) in
      let rest = own_looks sv timing own_steps (length m.tasks) s in
      elim (run-IsUnready sv timing actions (as_system m w) h) [
        | inl u ↦ elim (finish-IsUnready sv timing own_steps (length m.tasks) s u) [
          | inl v ↦ inl v
          | inr seen ↦ inr (AnySeen-right sv timing first rest seen)
        ]
        | inr seen ↦ inr (AnySeen-left sv timing first rest seen)
      ]

  -- What a call leaves, or the look that was made until its answer.
  pub ensure_backend-UnreadyManager :
      (request : LifecycleRequest) (m : Manager) (w : W)
      → UnreadyManager m
      → (UnreadyManager (ensure_backend sv timing others request m w).1
          × (says_ready (ensure_backend sv timing others request m w).0 ≡ false))
        ⊎ AnySeen sv timing (call_looks request m w)
  unfolding ensure_backend
  ensure_backend-UnreadyManager request m w h = elim (answered-IsUnready request m w h) [
    | inl u ↦ inl (
      (u.0, live-AllUnready (answered sv timing others request m w).tasks u.1),
      returned-unready (ensure_backend sv timing others request m w).0 (
          subst UnreadyTask (ensure_backend_returns sv timing others request m w) (
            task_at-UnreadyTask (length m.tasks) (answered sv timing others request m w).tasks
              u.1)),
    )
    | inr seen ↦ inr seen
  ]

  -- After `mark_warming`, at a manager none of whose tasks still holds a status that is ready, a call is
  -- not answered `ready`, unless a look at the host was made since it arrived that found the host
  -- awake, had the backend's own word that it is ready, and after that a tunnel that is up: whatever
  -- the tasks, the services and the other clients do until then.
  pub mark_warming-AnySeen :
      (request : LifecycleRequest) (m : Manager) (w : W)
      → AllUnready m.tasks
      → let marked = (lifecycle_manager sv timing others).mark_warming m in
        (says_ready ((lifecycle_manager sv timing others).ensure_backend request marked w).0
          ≡ false)
        ⊎ AnySeen sv timing (call_looks request marked w)
  unfolding lifecycle_manager mark_warming backend_is_ready
  mark_warming-AnySeen request m w h =
      let marked = (lifecycle_manager sv timing others).mark_warming m in
      elim (ensure_backend-UnreadyManager request marked w (refl, h)) [
        | inl u ↦ inl u.1
        | inr seen ↦ inr seen
      ]
