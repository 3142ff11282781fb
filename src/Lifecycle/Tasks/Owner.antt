-- ===== src/Lifecycle/Tasks/Owner.antt =====
-- At most one task at a time runs the bootstrap (LifecycleManager::ensure_backend and
-- LifecycleCore::start_bootstrap, under every interleaving).
use llm_wake_proxy.Base.{
  ℕ, zero, suc, ◌+◌, ◌≤◌, ◌≡◌, refl, ap, Bool, true, false, Option, none, some, List, [], ◌∷◌, ◌++◌,
  arith,
}
use llm_wake_proxy.Lifecycle.Types.{
  LifecycleRequest, BackendStatus, LifecycleDecision, LifecycleTiming, Services, Core,
}
use llm_wake_proxy.Lifecycle.Observe.{observe_once}
use llm_wake_proxy.Lifecycle.Bootstrap.{degrade_embeddings, mark_warming, pause}
use llm_wake_proxy.Lifecycle.Tasks.{
  Task, entered, leading, observing, settling, peeking, parked, boot_start, booting, sleeping,
  boot_leading, boot_observing, boot_settling, Next, after_wait, after_lead, after_look, advance,
  elapse, give_up, System, Action, arrives, runs, times_out, gives_up, marks_warming, degrades,
  world_becomes, edit_at, run_at, apply, run, fresh,
}
use llm_wake_proxy.Lifecycle.Soundness.{IsSound, observe_once-IsSound}

-- 1 for a task that has set `active` and has to clear it.
unfoldable pub owns : Task → ℕ
owns (leading request initial) = 1
owns (observing request observe_request initial) = 1
owns (settling status error decision) = 1
owns boot_start = 1
owns (booting deadline) = 1
owns (sleeping deadline) = 1
owns (boot_leading deadline status) = 1
owns (boot_observing deadline r status) = 1
owns (boot_settling status error) = 1
owns _ = 0

unfoldable pub owners : List Task → ℕ
owners [] = 0
owners (t ∷ ts) = owns t + owners ts

abbrev pub as_number : Bool → ℕ
as_number true = 1
as_number false = 0

abbrev pub flag : {W : Type 0} → Core W → ℕ
flag c = as_number c.bootstrap.active

owners-append : (ts us : List Task) → owners (ts ++ us) ≡ owners ts + owners us
unfolding owners
owners-append [] us = omega arith
owners-append (t ∷ ts) us = omega (arith, owners-append ts us)

module _ {W : Type 0} (sv : Services W) (timing : LifecycleTiming) where
  observe_once-bootstrap :
      (wake_request : Option LifecycleRequest) (observe_request : LifecycleRequest)
      (status : BackendStatus) (c : Core W)
      → (observe_once sv timing wake_request observe_request status c).1.bootstrap ≡ c.bootstrap
  observe_once-bootstrap wake_request observe_request status c =
      go (observe_once sv timing wake_request observe_request status c)
        (observe_once-IsSound sv timing wake_request observe_request status c)
    where
      go : (out : LifecycleDecision × Core W) → IsSound timing c out → out.1.bootstrap ≡ c.bootstrap
      go (LifecycleDecision.ready st, c') s = s.2
      go (LifecycleDecision.warming st r, c') s = s.3
      go (LifecycleDecision.failed st e, c') s = s.3

  -- What a step does to the owners: the flag moves with them.
  abbrev Balanced : Task → Core W → Next W → Type 0
  Balanced t c n = owns n.task + owners n.spawned + flag c ≡ owns t + flag n.core

  after_lead-Balanced :
      (t : Task) (deadline : ℕ) (c : Core W) (out : LifecycleDecision × Core W)
      → owns t ≡ 1
      → out.1.bootstrap ≡ c.bootstrap
      → Balanced t c (after_lead deadline out)
  unfolding after_lead owns owners
  after_lead-Balanced t deadline c (LifecycleDecision.ready st, c') o e = ground arith
  after_lead-Balanced t deadline c (LifecycleDecision.warming st r, c') o e = ground arith
  after_lead-Balanced t deadline c (LifecycleDecision.failed st err, c') o e = ground arith

  after_look-Balanced :
      (t : Task) (deadline : ℕ) (c : Core W) (out : LifecycleDecision × Core W)
      → owns t ≡ 1
      → out.1.bootstrap ≡ c.bootstrap
      → Balanced t c (after_look deadline out)
  unfolding after_look owns owners
  after_look-Balanced t deadline c (LifecycleDecision.ready st, c') o e = ground arith
  after_look-Balanced t deadline c (LifecycleDecision.warming st r, c') o e = ground arith
  after_look-Balanced t deadline c (LifecycleDecision.failed st err, c') o e = ground arith

  after_wait-Balanced :
      (t : Task) (deadline : ℕ) (stale : Bool) (c : Core W) (d : Option LifecycleDecision)
      → owns t ≡ 0
      → Balanced t c (after_wait deadline stale c d)
  unfolding after_wait owns owners
  after_wait-Balanced t deadline stale c none o = omega arith
  after_wait-Balanced t deadline stale c (some d) o = omega arith

  pause-bootstrap : (c : Core W) → (pause sv timing c).bootstrap ≡ c.bootstrap
  unfolding pause
  pause-bootstrap c = ground arith

  advance-Balanced :
      (t : Task) (c : Core W) → owns t ≤ flag c → Balanced t c (advance sv timing t c)
  unfolding advance owns owners
  advance-Balanced (observing r o st) c h =
      after_lead-Balanced (observing r o st) _ c (observe_once sv timing (some r) o st c) refl
        (observe_once-bootstrap (some r) o st c)
  advance-Balanced (boot_observing d o st) c h =
      after_look-Balanced (boot_observing d o st) d c (observe_once sv timing none o st c) refl
        (observe_once-bootstrap none o st c)
  advance-Balanced (sleeping d) c h = ground (arith, pause-bootstrap c)
  advance-Balanced (peeking d st) c h = after_wait-Balanced (peeking d st) d _ c _ refl
  advance-Balanced _ c h = ground arith

  run_at-Balanced :
      (i : ℕ) (ts : List Task) (c : Core W)
      → owners ts ≤ flag c
      → let s = run_at sv timing i ts c in owners s.tasks + flag c ≡ owners ts + flag s.core
  unfolding run_at owners
  run_at-Balanced i [] c h = omega arith
  run_at-Balanced zero (t ∷ ts) c h =
      omega (
        arith,
        advance-Balanced t c (omega arith),
        owners-append ts (advance sv timing t c).spawned,
      )
  run_at-Balanced (suc i) (t ∷ ts) c h = omega (arith, run_at-Balanced i ts c (omega arith))

  owners-edit_at-elapse :
      (i : ℕ) (ts : List Task) (c : Core W)
      → owners (edit_at (λ t. elapse sv timing t c) i ts) ≡ owners ts
  unfolding edit_at owners elapse owns
  owners-edit_at-elapse i [] c = refl
  owners-edit_at-elapse zero (t ∷ ts) c = ap (λ (n : ℕ). n + owners ts) (owns-elapse t c)
    where
      owns-elapse : (t : Task) (c : Core W) → owns (elapse sv timing t c) ≡ owns t
      owns-elapse (parked d s) c = refl
      owns-elapse _ c = refl
  owners-edit_at-elapse (suc i) (t ∷ ts) c = omega (arith, owners-edit_at-elapse i ts c)

owns-give_up : (t : Task) → owns (give_up t) ≤ owns t
unfolding give_up owns
owns-give_up (entered r) = omega arith
owns-give_up _ = omega arith

owners-edit_at-give_up : (i : ℕ) (ts : List Task) → owners (edit_at give_up i ts) ≤ owners ts
unfolding edit_at owners
owners-edit_at-give_up i [] = omega arith
owners-edit_at-give_up zero (t ∷ ts) = omega (arith, owns-give_up t)
owners-edit_at-give_up (suc i) (t ∷ ts) = omega (arith, owners-edit_at-give_up i ts)

abbrev pub IsExclusive : {W : Type 0} → System W → Type 0
IsExclusive s = owners s.tasks ≤ flag s.core

module _ {W : Type 0} (sv : Services W) (timing : LifecycleTiming) where
  apply-IsExclusive :
      (a : Action W) (s : System W) → IsExclusive s → IsExclusive (apply sv timing a s)
  unfolding apply owners owns mark_warming degrade_embeddings
  apply-IsExclusive (arrives r) s h = omega (arith, owners-append s.tasks (entered r ∷ []))
  apply-IsExclusive (runs i) s h = omega (arith, run_at-Balanced sv timing i s.tasks s.core h)
  apply-IsExclusive (times_out i) s h =
      omega (arith, owners-edit_at-elapse sv timing i s.tasks s.core)
  apply-IsExclusive (gives_up i) s h = omega (arith, owners-edit_at-give_up i s.tasks)
  apply-IsExclusive marks_warming s h = h
  apply-IsExclusive (degrades r) s h = h
  apply-IsExclusive (world_becomes w) s h = h

  run_from-IsExclusive :
      (actions : List (Action W)) (s : System W)
      → IsExclusive s
      → IsExclusive (run sv timing actions s)
  unfolding run
  run_from-IsExclusive [] s h = h
  run_from-IsExclusive (a ∷ actions) s h =
      run_from-IsExclusive actions (apply sv timing a s) (apply-IsExclusive a s h)

  -- Under every interleaving of requests, background tasks, timeouts, dropped requests and outside
  -- changes, at most one task runs the bootstrap, and only while `active` is set.
  pub run-IsExclusive :
      (actions : List (Action W)) (initial_status : BackendStatus) (w : W)
      → IsExclusive (run sv timing actions (fresh initial_status w))
  unfolding fresh owners
  run-IsExclusive actions initial_status w =
      run_from-IsExclusive actions (fresh initial_status w) (omega arith)

-- No request is dropped.
abbrev pub IsPatient : {W : Type 0} → List (Action W) → Type 0
IsPatient [] = Unit {0}
IsPatient (gives_up i ∷ actions) = ⊥
IsPatient (_ ∷ actions) = IsPatient actions

abbrev pub IsOwned : {W : Type 0} → System W → Type 0
IsOwned s = owners s.tasks ≡ flag s.core

module _ {W : Type 0} (sv : Services W) (timing : LifecycleTiming) where
  run_from-IsOwned :
      (actions : List (Action W)) (s : System W)
      → IsPatient actions
      → IsOwned s
      → IsOwned (run sv timing actions s)
  unfolding run apply owners owns mark_warming degrade_embeddings
  run_from-IsOwned [] s p h = h
  run_from-IsOwned (arrives r ∷ actions) s p h =
      run_from-IsOwned actions _ p (omega (arith, owners-append s.tasks (entered r ∷ [])))
  run_from-IsOwned (runs i ∷ actions) s p h =
      run_from-IsOwned actions _ p
        (omega (arith, run_at-Balanced sv timing i s.tasks s.core (omega arith)))
  run_from-IsOwned (times_out i ∷ actions) s p h =
      run_from-IsOwned actions _ p (omega (arith, owners-edit_at-elapse sv timing i s.tasks s.core))
  run_from-IsOwned (gives_up i ∷ actions) s p h = absurd p
  run_from-IsOwned (marks_warming ∷ actions) s p h = run_from-IsOwned actions _ p h
  run_from-IsOwned (degrades r ∷ actions) s p h = run_from-IsOwned actions _ p h
  run_from-IsOwned (world_becomes w ∷ actions) s p h = run_from-IsOwned actions _ p h

  -- While no request is dropped, `active` is set exactly as long as one task runs the bootstrap, or has
  -- panicked on a boot deadline that does not fit in an Instant.
  pub run-IsOwned :
      (actions : List (Action W)) (initial_status : BackendStatus) (w : W)
      → IsPatient actions
      → IsOwned (run sv timing actions (fresh initial_status w))
  unfolding fresh owners
  run-IsOwned actions initial_status w p = run_from-IsOwned actions (fresh initial_status w) p refl
