-- ===== src/Lifecycle/Tasks/Manager/Returns.antt =====
-- src/lifecycle.rs, LifecycleManager::ensure_backend: every call is answered, by the steps of its own
-- task.
use llm_wake_proxy.Base.{
  ℕ, zero, suc, ◌-◌, ◌≤◌, ◌≡◌, refl, List, [], ◌∷◌, arith, inl, inr, Bool-cases, sym, length, ◌==◌,
  ==_iff,
}
use llm_wake_proxy.Lifecycle.Types.{
  LifecycleRequest, LifecycleDecision, LifecycleTiming, Services, Core,
}
use llm_wake_proxy.Lifecycle.Tasks.{
  Task, entered, parked, returned, elapse, give_up, System, Action, arrives, runs, times_out,
  gives_up, edit_at, run_at, apply, run,
}
use llm_wake_proxy.Lifecycle.Tasks.Manager.{
  Manager, task_at, as_system, while_asked, own_actions, finish, own_steps, answered,
  ensure_backend,
}
use llm_wake_proxy.Lifecycle.Tasks.Manager.Ranks.{
  rank, rank-zero, task_at-append, task_at-length, task_at-edit_at, task_at-edit_other, elapse-rank,
  run_at-rank, advance-lower, task_at-run_at,
}

module _ {W : Type 0} (sv : Services W) (timing : LifecycleTiming) where
  -- The i-th task is a call that has not been dropped.
  abbrev IsAsked : ℕ → System W → Type 0
  IsAsked i s = rank (task_at i s.tasks) ≤ 8

  edited-rank :
      (f : Task → Task) (i j : ℕ) (ts : List Task)
      → ((t : Task) → rank t ≤ 8 → rank (f t) ≤ 8)
      → rank (task_at i ts) ≤ 8
      → rank (task_at i (edit_at f j ts)) ≤ 8
  edited-rank f i j ts keep h = elim (Bool-cases (i == j)) [
    | inl e ↦ rw (sym ((==_iff i j).0 e)) (rw (task_at-edit_at f i ts h) (keep (task_at i ts) h))
    | inr n ↦ rw (task_at-edit_other f i j ts n) h
  ]

  while_asked-IsAsked :
      (i : ℕ) (actions : List (Action W)) (s : System W)
      → IsAsked i s
      → IsAsked i (run sv timing (while_asked i actions) s)
  unfolding while_asked run apply
  while_asked-IsAsked i [] s h = h
  while_asked-IsAsked i (gives_up j ∷ actions) s h = elim (Bool-cases (i == j)) [
    | inl e ↦ rw e (while_asked-IsAsked i actions s h)
    | inr n ↦ rw n (
        while_asked-IsAsked i actions (record s { tasks = edit_at give_up j s.tasks })
          (rw (task_at-edit_other give_up i j s.tasks n) h))
  ]
  while_asked-IsAsked i (arrives r ∷ actions) s h =
      while_asked-IsAsked i actions (apply sv timing (arrives r) s)
        (rw (task_at-append i s.tasks (entered r ∷ []) h) h)
  while_asked-IsAsked i (runs j ∷ actions) s h =
      while_asked-IsAsked i actions (run_at sv timing j s.tasks s.core)
        (run_at-rank sv timing i j s.tasks s.core h)
  while_asked-IsAsked i (times_out j ∷ actions) s h =
      while_asked-IsAsked i actions (apply sv timing (times_out j) s) (
        edited-rank (λ t. elapse sv timing t s.core) i j s.tasks
          (λ t. elapse-rank sv timing t s.core) h)
  while_asked-IsAsked i (a ∷ actions) s h = while_asked-IsAsked i actions (apply sv timing a s) h

  -- What the i-th task does by itself brings its answer nearer.
  own_actions-rank :
      (n i : ℕ) (t : Task) (s : System W)
      → task_at i s.tasks ≡ t
      → rank t ≤ suc n
      → n ≤ 7
      → rank (task_at i (run sv timing (own_actions sv timing i t s.core) s).tasks) ≤ n
  unfolding own_actions run apply elapse
  own_actions-rank n i (parked d stale) s e h b =
      let late : Core W = record (s.core) {
        world = sv.sleep (d - sv.instant s.core.world) s.core.world;
      } in
      rw (task_at-edit_at (λ t. elapse sv timing t late) i s.tasks (rw e (omega arith)))
        (rw e (omega arith))
  own_actions-rank n i t s e h b =
      rw (task_at-run_at sv timing i s.tasks s.core (rw e (omega (arith, h, b))))
        (rw e (advance-lower sv timing n t s.core h refl b))

  finish-returned :
      (n i : ℕ) (s : System W)
      → rank (task_at i s.tasks) ≤ n
      → n ≤ 8
      → (d : LifecycleDecision) × (task_at i (finish sv timing n i s).tasks ≡ returned d)
  unfolding finish
  finish-returned zero i s h b = rank-zero (task_at i s.tasks) h
  finish-returned (suc n) i s h b =
      finish-returned n i (run sv timing (own_actions sv timing i (task_at i s.tasks) s.core) s)
        (own_actions-rank n i (task_at i s.tasks) s refl h (omega (arith, b))) (omega (arith, b))

module _ {W : Type 0} (sv : Services W) (timing : LifecycleTiming)
    (others : LifecycleRequest → Manager → W → List (Action W)) where
  -- Every call of `ensure_backend` is answered, whatever tasks there are, whatever they, the services
  -- and the other clients do until then, and however few steps they leave to the call: the task of the
  -- call has returned with the decision that its caller gets.
  pub ensure_backend_returns :
      (request : LifecycleRequest) (m : Manager) (w : W)
      → task_at (length m.tasks) (answered sv timing others request m w).tasks
        ≡ returned (ensure_backend sv timing others request m w).0
  unfolding ensure_backend answered run apply
  ensure_backend_returns request m w =
      let i = length m.tasks in
      let asked = apply sv timing (arrives request) (as_system m w) in
      let s = run sv timing (while_asked i (others request m w)) asked in
      let (d, e) =
        finish-returned sv timing own_steps i s
          (while_asked-IsAsked sv timing i (others request m w) asked
            (rw (task_at-length m.tasks (entered request)) (omega arith)))
          (omega arith) in
      rw e refl
