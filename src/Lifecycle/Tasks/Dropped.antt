-- ===== src/Lifecycle/Tasks/Dropped.antt =====
-- What happens when the request that started a bootstrap is dropped before it has handed the work to
-- a background task (LifecycleManager::ensure_backend).
use llm_wake_proxy.Base.{ℕ, zero, suc, ◌≡◌, Bool, true, List, [], ◌∷◌, ◌++◌, arith}
use llm_wake_proxy.Lifecycle.Types.{
  BackendStatus, LifecycleDecision, LifecycleTiming, Services, Core, BootstrapState,
}
use llm_wake_proxy.Lifecycle.Bootstrap.{degrade_embeddings, mark_warming, wait_view, wait_elapsed}
use llm_wake_proxy.Lifecycle.Tasks.{
  Task, entered, borrowed, joining, leading, observing, settling, waiting, peeking, parked,
  returned, dropped, boot_start, booting, sleeping, boot_leading, boot_observing, boot_settling,
  ended, Next, after_wait, advance, elapse, give_up, System, Action, arrives, runs, times_out,
  gives_up, marks_warming, degrades, world_becomes, edit_at, run_at, apply, run,
}

abbrev pub IsWarmingDecision : LifecycleDecision → Type 0
IsWarmingDecision (LifecycleDecision.warming status retry) = Unit {0}
IsWarmingDecision _ = ⊥

-- A task that runs no bootstrap, and that has not been answered other than by `warming`.
abbrev pub IsIdle : Task → Type 0
IsIdle (leading r st) = ⊥
IsIdle (observing r o st) = ⊥
IsIdle (settling st e d) = ⊥
IsIdle boot_start = ⊥
IsIdle (booting d) = ⊥
IsIdle (sleeping d) = ⊥
IsIdle (boot_leading d st) = ⊥
IsIdle (boot_observing d o st) = ⊥
IsIdle (boot_settling st e) = ⊥
IsIdle (returned d) = IsWarmingDecision d
IsIdle _ = Unit {0}

abbrev pub AllIdle : List Task → Type 0
AllIdle [] = Unit {0}
AllIdle (t ∷ ts) = IsIdle t × AllIdle ts

-- `active` is set, and nobody is left to clear it.
abbrev pub IsStuck : {W : Type 0} → System W → Type 0
IsStuck s = (s.core.bootstrap.active ≡ true) × AllIdle s.tasks

AllIdle-append : (ts us : List Task) → AllIdle ts → AllIdle us → AllIdle (ts ++ us)
AllIdle-append [] us h k = k
AllIdle-append (t ∷ ts) us h k = (h.0, AllIdle-append ts us h.1 k)

AllIdle-edit_at :
    (f : Task → Task) (i : ℕ) (ts : List Task)
    → ((t : Task) → IsIdle t → IsIdle (f t))
    → AllIdle ts
    → AllIdle (edit_at f i ts)
unfolding edit_at
AllIdle-edit_at f i [] keep h = tt
AllIdle-edit_at f zero (t ∷ ts) keep h = (keep t h.0, h.1)
AllIdle-edit_at f (suc i) (t ∷ ts) keep h = (h.0, AllIdle-edit_at f i ts keep h.1)

give_up-IsIdle : (t : Task) → IsIdle t → IsIdle (give_up t)
unfolding give_up
give_up-IsIdle (returned d) h = h
give_up-IsIdle (entered r) h = tt
give_up-IsIdle (borrowed r st) h = tt
give_up-IsIdle (joining r st) h = tt
give_up-IsIdle (waiting d) h = tt
give_up-IsIdle (peeking d st) h = tt
give_up-IsIdle (parked d st) h = tt
give_up-IsIdle dropped h = tt
give_up-IsIdle ended h = tt
give_up-IsIdle _ h = absurd h

-- A request under way, which owns the bootstrap and has not spawned the background task.
abbrev pub IsLeader : Task → Type 0
IsLeader (leading r st) = Unit {0}
IsLeader (observing r o st) = Unit {0}
IsLeader (settling st e d) = Unit {0}
IsLeader _ = ⊥

module _ {W : Type 0} (sv : Services W) (timing : LifecycleTiming) where
  StepsIdle : Core W → Next W → Type 0
  StepsIdle c n = (n.core.bootstrap.active ≡ true) × IsIdle n.task × AllIdle n.spawned

  -- While a bootstrap is active, a look at the shared state answers `warming` or nothing.
  wait_view-warming :
      (deadline now : ℕ) (st : BackendStatus) (b : BootstrapState) (stale : Bool) (c : Core W)
      → b.active ≡ true
      → c.bootstrap.active ≡ true
      → StepsIdle c (after_wait deadline stale c (wait_view sv timing deadline now st b))
  unfolding StepsIdle wait_view after_wait
  wait_view-warming deadline now st b stale c h k = ground arith

  advance-StepsIdle :
      (t : Task) (c : Core W)
      → c.bootstrap.active ≡ true
      → IsIdle t
      → StepsIdle c (advance sv timing t c)
  unfolding advance StepsIdle
  advance-StepsIdle (borrowed r st) c h i = ground arith
  advance-StepsIdle (joining r st) c h i = ground arith
  advance-StepsIdle (peeking d st) c h i = wait_view-warming d _ st c.bootstrap _ c h h
  advance-StepsIdle (entered r) c h i = (h, tt, tt)
  advance-StepsIdle (waiting d) c h i = (h, tt, tt)
  advance-StepsIdle (parked d s) c h i = (h, tt, tt)
  advance-StepsIdle (returned d) c h i = (h, i, tt)
  advance-StepsIdle dropped c h i = (h, tt, tt)
  advance-StepsIdle ended c h i = (h, tt, tt)
  advance-StepsIdle _ c h i = absurd i

  elapse-IsIdle : (c : Core W) (t : Task) → IsIdle t → IsIdle (elapse sv timing t c)
  unfolding elapse wait_elapsed
  elapse-IsIdle c (parked d s) h = tt
  elapse-IsIdle c (returned d) h = h
  elapse-IsIdle c (entered r) h = tt
  elapse-IsIdle c (borrowed r st) h = tt
  elapse-IsIdle c (joining r st) h = tt
  elapse-IsIdle c (waiting d) h = tt
  elapse-IsIdle c (peeking d st) h = tt
  elapse-IsIdle c dropped h = tt
  elapse-IsIdle c ended h = tt
  elapse-IsIdle c _ h = absurd h

  run_at-IsStuck :
      (i : ℕ) (ts : List Task) (c : Core W)
      → c.bootstrap.active ≡ true
      → AllIdle ts
      → IsStuck (run_at sv timing i ts c)
  unfolding run_at StepsIdle
  run_at-IsStuck i [] c h k = (h, tt)
  run_at-IsStuck zero (t ∷ ts) c h k =
      let n = advance-StepsIdle t c h k.0 in
      (n.0, (n.1, AllIdle-append ts (advance sv timing t c).spawned k.1 n.2))
  run_at-IsStuck (suc i) (t ∷ ts) c h k = let s = run_at-IsStuck i ts c h k.1 in (s.0, (k.0, s.1))

  apply-IsStuck : (a : Action W) (s : System W) → IsStuck s → IsStuck (apply sv timing a s)
  unfolding apply mark_warming degrade_embeddings
  apply-IsStuck (arrives r) s h = (h.0, AllIdle-append s.tasks (entered r ∷ []) h.1 (tt, tt))
  apply-IsStuck (runs i) s h = run_at-IsStuck i s.tasks s.core h.0 h.1
  apply-IsStuck (times_out i) s h =
      (h.0, AllIdle-edit_at (λ t. elapse sv timing t s.core) i s.tasks (elapse-IsIdle s.core) h.1)
  apply-IsStuck (gives_up i) s h = (h.0, AllIdle-edit_at give_up i s.tasks give_up-IsIdle h.1)
  apply-IsStuck marks_warming s h = h
  apply-IsStuck (degrades r) s h = h
  apply-IsStuck (world_becomes w) s h = h

  run-IsStuck :
      (actions : List (Action W)) (s : System W) → IsStuck s → IsStuck (run sv timing actions s)
  unfolding run
  run-IsStuck [] s h = h
  run-IsStuck (a ∷ actions) s h = run-IsStuck actions (apply sv timing a s) (apply-IsStuck a s h)

  -- If the request that leads a bootstrap is dropped before it has spawned the background task, the
  -- others being idle, then whatever happens afterwards `active` stays set, no task ever runs a
  -- bootstrap again, and every answer that a request gets is `warming`.
  pub drop_leader-IsStuck :
      (actions : List (Action W)) (t : Task) (ts : List Task) (c : Core W)
      → IsLeader t
      → AllIdle ts
      → c.bootstrap.active ≡ true
      → IsStuck (run sv timing (gives_up 0 ∷ actions) (record { core = c; tasks = t ∷ ts }))
  unfolding run apply edit_at give_up
  drop_leader-IsStuck actions (leading r st) ts c l h k = run-IsStuck actions _ (k, (tt, h))
  drop_leader-IsStuck actions (observing r o st) ts c l h k = run-IsStuck actions _ (k, (tt, h))
  drop_leader-IsStuck actions (settling st e d) ts c l h k = run-IsStuck actions _ (k, (tt, h))
  drop_leader-IsStuck actions _ ts c l h k = absurd l
