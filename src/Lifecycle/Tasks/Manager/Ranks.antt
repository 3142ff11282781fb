-- ===== src/Lifecycle/Tasks/Manager/Ranks.antt =====
-- src/lifecycle.rs, LifecycleManager::ensure_backend: the steps that a call still makes by itself.
use llm_wake_proxy.Base.{
  ℕ, zero, suc, ◌≤◌, ◌≡◌, refl, Bool, true, false, Option, none, some, List, [], ◌∷◌, ◌++◌, arith,
  length, ◌==◌,
}
use llm_wake_proxy.Lifecycle.Types.{
  LifecycleRequest, BackendStatus, LifecycleDecision, LifecycleTiming, Services, Core,
}
use llm_wake_proxy.Lifecycle.Tasks.{
  Task, entered, borrowed, joining, leading, observing, settling, waiting, peeking, parked,
  returned, after_join, after_wait, after_lead, advance, elapse, edit_at, run_at,
}
use llm_wake_proxy.Lifecycle.Tasks.Manager.{task_at}

-- How many steps a call still makes by itself, at most; 9 for a task that is no call, or was dropped.
abbrev pub rank : Task → ℕ
rank (entered request) = 8
rank (borrowed request initial) = 7
rank (joining request initial) = 6
rank (leading request initial) = 5
rank (observing request observe_request initial) = 4
rank (waiting deadline) = 3
rank (peeking deadline status) = 2
rank (parked deadline stale) = 1
rank (settling status error decision) = 1
rank (returned decision) = 0
rank _ = 9

abbrev pub is_parked : Task → Bool
is_parked (parked deadline stale) = true
is_parked _ = false

pub rank-zero : (t : Task) → rank t ≤ 0 → (d : LifecycleDecision) × (t ≡ returned d)
rank-zero (returned d) h = (d, refl)
rank-zero _ h = absurd (omega (arith, h))

pub task_at-append :
    (i : ℕ) (ts us : List Task) → rank (task_at i ts) ≤ 8 → task_at i (ts ++ us) ≡ task_at i ts
task_at-append i [] us h = absurd (omega (arith, h))
task_at-append zero (t ∷ ts) us h = refl
task_at-append (suc i) (t ∷ ts) us h = task_at-append i ts us h

pub task_at-length : (ts : List Task) (t : Task) → task_at (length ts) (ts ++ t ∷ []) ≡ t
task_at-length [] t = refl
task_at-length (u ∷ ts) t = task_at-length ts t

pub task_at-edit_at :
    (f : Task → Task) (i : ℕ) (ts : List Task)
    → rank (task_at i ts) ≤ 8
    → task_at i (edit_at f i ts) ≡ f (task_at i ts)
unfolding edit_at
task_at-edit_at f i [] h = absurd (omega (arith, h))
task_at-edit_at f zero (t ∷ ts) h = refl
task_at-edit_at f (suc i) (t ∷ ts) h = task_at-edit_at f i ts h

pub task_at-edit_other :
    (f : Task → Task) (i j : ℕ) (ts : List Task)
    → (i == j) ≡ false
    → task_at i (edit_at f j ts) ≡ task_at i ts
unfolding edit_at
task_at-edit_other f i j [] n = refl
task_at-edit_other f zero zero (t ∷ ts) n = absurd (ground (arith, n))
task_at-edit_other f zero (suc j) (t ∷ ts) n = refl
task_at-edit_other f (suc i) zero (t ∷ ts) n = refl
task_at-edit_other f (suc i) (suc j) (t ∷ ts) n = task_at-edit_other f i j ts (ground (arith, n))

module _ {W : Type 0} (sv : Services W) (timing : LifecycleTiming) where
  after_lead-rank :
      (deadline : ℕ) (out : LifecycleDecision × Core W) → rank (after_lead deadline out).task ≤ 3
  unfolding after_lead
  after_lead-rank deadline (LifecycleDecision.ready st, c) = omega arith
  after_lead-rank deadline (LifecycleDecision.warming st r, c) = omega arith
  after_lead-rank deadline (LifecycleDecision.failed st e, c) = omega arith

  after_wait-rank :
      (deadline : ℕ) (stale : Bool) (c : Core W) (o : Option LifecycleDecision)
      → rank (after_wait deadline stale c o).task ≤ 1
  unfolding after_wait
  after_wait-rank deadline stale c none = omega arith
  after_wait-rank deadline stale c (some d) = omega arith

  joined-rank :
      (request : LifecycleRequest) (initial : BackendStatus) (deadline : ℕ) (out : Bool × Core W)
      → rank (after_join request initial deadline out).task ≤ 5
  unfolding after_join
  joined-rank request initial deadline (true, c) = omega arith
  joined-rank request initial deadline (false, c) = omega arith

  pub advance-rank : (t : Task) (c : Core W) → rank t ≤ 8 → rank (advance sv timing t c).task ≤ 8
  unfolding advance
  advance-rank (entered r) c h = omega arith
  advance-rank (borrowed r initial) c h = ground arith
  advance-rank (joining r initial) c h = omega (arith, joined-rank r initial _ _)
  advance-rank (leading r initial) c h = omega arith
  advance-rank (observing r o initial) c h = omega (arith, after_lead-rank _ _)
  advance-rank (waiting d) c h = omega arith
  advance-rank (peeking d st) c h = omega (arith, after_wait-rank d _ c _)
  advance-rank (parked d stale) c h = omega arith
  advance-rank (settling st e d) c h = omega arith
  advance-rank (returned d) c h = omega arith
  advance-rank _ c h = absurd (omega (arith, h))

  pub elapse-rank : (t : Task) (c : Core W) → rank t ≤ 8 → rank (elapse sv timing t c) ≤ 8
  unfolding elapse
  elapse-rank (parked d stale) c h = omega arith
  elapse-rank t c h = h

  pub run_at-rank :
      (i j : ℕ) (ts : List Task) (c : Core W)
      → rank (task_at i ts) ≤ 8
      → rank (task_at i (run_at sv timing j ts c).tasks) ≤ 8
  unfolding run_at
  run_at-rank i j [] c h = h
  run_at-rank zero zero (t ∷ ts) c h = advance-rank t c h
  run_at-rank (suc i) zero (t ∷ ts) c h =
      rw (task_at-append i ts (advance sv timing t c).spawned h) h
  run_at-rank zero (suc j) (t ∷ ts) c h = h
  run_at-rank (suc i) (suc j) (t ∷ ts) c h = run_at-rank i j ts c h

  pub task_at-run_at :
      (i : ℕ) (ts : List Task) (c : Core W)
      → rank (task_at i ts) ≤ 8
      → task_at i (run_at sv timing i ts c).tasks ≡ (advance sv timing (task_at i ts) c).task
  unfolding run_at
  task_at-run_at i [] c h = absurd (omega (arith, h))
  task_at-run_at zero (t ∷ ts) c h = refl
  task_at-run_at (suc i) (t ∷ ts) c h = task_at-run_at i ts c h

  pub advance-lower :
      (n : ℕ) (t : Task) (c : Core W)
      → rank t ≤ suc n
      → is_parked t ≡ false
      → n ≤ 7
      → rank (advance sv timing t c).task ≤ n
  unfolding advance
  advance-lower n (entered r) c h k b = omega (arith, h)
  advance-lower n (borrowed r initial) c h k b = ground (arith, h)
  advance-lower n (joining r initial) c h k b = omega (arith, h, joined-rank r initial _ _)
  advance-lower n (leading r initial) c h k b = omega (arith, h)
  advance-lower n (observing r o initial) c h k b = omega (arith, h, after_lead-rank _ _)
  advance-lower n (waiting d) c h k b = omega (arith, h)
  advance-lower n (peeking d st) c h k b = omega (arith, h, after_wait-rank d _ c _)
  advance-lower n (settling st e d) c h k b = omega arith
  advance-lower n (returned d) c h k b = omega arith
  advance-lower n (parked d stale) c h k b = absurd (ground (arith, k))
  advance-lower n _ c h k b = absurd (omega (arith, h, b))
