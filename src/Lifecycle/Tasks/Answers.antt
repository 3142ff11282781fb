-- ===== src/Lifecycle/Tasks/Answers.antt =====
-- What the answers of LifecycleManager::ensure_backend say, under every interleaving.
use llm_wake_proxy.Base.{ℕ, zero, suc, ◌≡◌, refl, Bool, true, some, List, [], ◌∷◌, ◌++◌, arith}
use llm_wake_proxy.Lifecycle.Types.{
  LifecycleState, BackendStatus, LifecycleDecision, LifecycleTiming, Services, Core, BootstrapState,
  backend_is_ready,
}
use llm_wake_proxy.Lifecycle.Soundness.{IsSound, observe_once-IsSound}
use llm_wake_proxy.Lifecycle.Bootstrap.{wait_view, wait_elapsed}
use llm_wake_proxy.Lifecycle.Tasks.{
  Task, entered, borrowed, joining, observing, settling, peeking, parked, returned, boot_start,
  booting, sleeping, boot_observing, Next, after_wait, after_lead, after_look, advance, elapse,
  give_up, System, Action, arrives, runs, times_out, gives_up, marks_warming, degrades,
  world_becomes, edit_at, run_at, apply, run, fresh,
}

module _ (timing : LifecycleTiming) where
  -- `ready` comes with a status that is ready, `failed` with one in error, and `warming` with the
  -- configured delay.
  abbrev pub IsHonest : LifecycleDecision → Type 0
  IsHonest (LifecycleDecision.ready status) = backend_is_ready status ≡ true
  IsHonest (LifecycleDecision.failed status error) = status.lifecycle ≡ LifecycleState.error
  IsHonest (LifecycleDecision.warming status retry) = retry ≡ timing.retry_after_secs

  -- The answers given, or about to be.
  abbrev pub HonestTask : Task → Type 0
  HonestTask (returned d) = IsHonest d
  HonestTask (settling status error d) = IsHonest d
  HonestTask _ = Unit {0}

  abbrev pub AllHonest : List Task → Type 0
  AllHonest [] = Unit {0}
  AllHonest (t ∷ ts) = HonestTask t × AllHonest ts

  AllHonest-append : (ts us : List Task) → AllHonest ts → AllHonest us → AllHonest (ts ++ us)
  AllHonest-append [] us h k = k
  AllHonest-append (t ∷ ts) us h k = (h.0, AllHonest-append ts us h.1 k)

  AllHonest-edit_at :
      (f : Task → Task) (i : ℕ) (ts : List Task)
      → ((t : Task) → HonestTask t → HonestTask (f t))
      → AllHonest ts
      → AllHonest (edit_at f i ts)
  unfolding edit_at
  AllHonest-edit_at f i [] keep h = tt
  AllHonest-edit_at f zero (t ∷ ts) keep h = (keep t h.0, h.1)
  AllHonest-edit_at f (suc i) (t ∷ ts) keep h = (h.0, AllHonest-edit_at f i ts keep h.1)

  give_up-HonestTask : (t : Task) → HonestTask t → HonestTask (give_up t)
  unfolding give_up
  give_up-HonestTask (returned d) h = h
  give_up-HonestTask _ h = tt

module _ {W : Type 0} (sv : Services W) (timing : LifecycleTiming) where
  abbrev HonestNext : Next W → Type 0
  HonestNext n = HonestTask timing n.task × AllHonest timing n.spawned

  after_lead-Honest :
      (deadline : ℕ) (c : Core W) (out : LifecycleDecision × Core W)
      → IsSound timing c out
      → HonestNext (after_lead deadline out)
  unfolding after_lead
  after_lead-Honest deadline c (LifecycleDecision.ready st, c') s = (s.0, tt)
  after_lead-Honest deadline c (LifecycleDecision.warming st r, c') s = (tt, (tt, tt))
  after_lead-Honest deadline c (LifecycleDecision.failed st e, c') s = (s.0, tt)

  after_look-Honest :
      (deadline : ℕ) (out : LifecycleDecision × Core W) → HonestNext (after_look deadline out)
  unfolding after_look
  after_look-Honest deadline (LifecycleDecision.ready st, c') = (tt, tt)
  after_look-Honest deadline (LifecycleDecision.warming st r, c') = (tt, tt)
  after_look-Honest deadline (LifecycleDecision.failed st e, c') = (tt, tt)

  wait_view-Honest :
      (deadline now : ℕ) (st : BackendStatus) (b : BootstrapState) (stale : Bool) (c : Core W)
      → HonestNext (after_wait deadline stale c (wait_view sv timing deadline now st b))
  unfolding wait_view after_wait
  wait_view-Honest deadline now st b stale c = ground arith

  advance-Honest :
      (t : Task) (c : Core W) → HonestTask timing t → HonestNext (advance sv timing t c)
  unfolding advance
  advance-Honest (borrowed r st) c h = ground arith
  advance-Honest (joining r st) c h = ground arith
  advance-Honest (observing r o st) c h =
      after_lead-Honest _ c _ (observe_once-IsSound sv timing (some r) o st c)
  advance-Honest (settling st e d) c h = (h, tt)
  advance-Honest (returned d) c h = (h, tt)
  advance-Honest (peeking d st) c h = wait_view-Honest d _ st c.bootstrap _ c
  advance-Honest (boot_observing d o st) c h = after_look-Honest d _
  advance-Honest boot_start c h = ground arith
  advance-Honest (booting d) c h = ground arith
  advance-Honest (sleeping d) c h = ground arith
  advance-Honest _ c h = (tt, tt)

  elapse-Honest :
      (c : Core W) (t : Task) → HonestTask timing t → HonestTask timing (elapse sv timing t c)
  unfolding elapse wait_elapsed
  elapse-Honest c (parked d s) h = refl
  elapse-Honest c (returned d) h = h
  elapse-Honest c (settling st e d) h = h
  elapse-Honest c _ h = tt

  run_at-Honest :
      (i : ℕ) (ts : List Task) (c : Core W)
      → AllHonest timing ts
      → AllHonest timing (run_at sv timing i ts c).tasks
  unfolding run_at
  run_at-Honest i [] c h = tt
  run_at-Honest zero (t ∷ ts) c h =
      let n = advance-Honest t c h.0 in
      (n.0, AllHonest-append timing ts (advance sv timing t c).spawned h.1 n.1)
  run_at-Honest (suc i) (t ∷ ts) c h = (h.0, run_at-Honest i ts c h.1)

  apply-Honest :
      (a : Action W) (s : System W)
      → AllHonest timing s.tasks
      → AllHonest timing (apply sv timing a s).tasks
  unfolding apply
  apply-Honest (arrives r) s h = AllHonest-append timing s.tasks (entered r ∷ []) h (tt, tt)
  apply-Honest (runs i) s h = run_at-Honest i s.tasks s.core h
  apply-Honest (times_out i) s h =
      AllHonest-edit_at timing (λ t. elapse sv timing t s.core) i s.tasks (elapse-Honest s.core) h
  apply-Honest (gives_up i) s h =
      AllHonest-edit_at timing give_up i s.tasks (give_up-HonestTask timing) h
  apply-Honest marks_warming s h = h
  apply-Honest (degrades r) s h = h
  apply-Honest (world_becomes w) s h = h

  run_from-Honest :
      (actions : List (Action W)) (s : System W)
      → AllHonest timing s.tasks
      → AllHonest timing (run sv timing actions s).tasks
  unfolding run
  run_from-Honest [] s h = h
  run_from-Honest (a ∷ actions) s h =
      run_from-Honest actions (apply sv timing a s) (apply-Honest a s h)

  -- Every answer that any request gets, under any interleaving, is honest: `ready` only with a status
  -- that says ready with the tunnel up, `failed` only with a status in error, and `warming` with the
  -- configured delay.
  pub run-AllHonest :
      (actions : List (Action W)) (initial_status : BackendStatus) (w : W)
      → AllHonest timing (run sv timing actions (fresh initial_status w)).tasks
  unfolding fresh
  run-AllHonest actions initial_status w = run_from-Honest actions (fresh initial_status w) tt
