-- ===== src/Lifecycle/Tasks/Leases.antt =====
-- src/lifecycle.rs: what becomes of `lease_expires_at`, which /status shows.
use llm_wake_proxy.Base.{
  inr, inl, Bool-cases, ℕ, zero, suc, Bool, true, false, none, some, List, [], ◌∷◌, ◌++◌, arith,
}
use llm_wake_proxy.Lifecycle.Types.{
  BackendStatus, LifecycleDecision, LifecycleTiming, Services, Core, BootstrapState,
}
use llm_wake_proxy.Lifecycle.Observe.{publish}
use llm_wake_proxy.Lifecycle.Bootstrap.{
  deadline_fits, wait_view, wait_elapsed, bootstrap_wait_status, finish_bootstrap,
  degrade_embeddings, mark_warming, start_or_join_bootstrap, pause,
}
use llm_wake_proxy.Lifecycle.Leases.{HasNoLease, status_of, IsLeaseless, observe_once-IsLeaseless}
use llm_wake_proxy.Lifecycle.Tasks.{
  boot_start, Task, entered, borrowed, joining, leading, observing, settling, waiting, peeking,
  parked, returned, booting, sleeping, boot_leading, boot_observing, boot_settling, Next,
  after_join, after_wait, after_lead, after_look, advance, elapse, give_up, System, Action, arrives,
  runs, times_out, gives_up, marks_warming, degrades, world_becomes, edit_at, run_at, apply, run,
  fresh,
}

-- The statuses that a task holds.
abbrev pub LeaselessTask : Task → Type 0
LeaselessTask (borrowed r st) = HasNoLease st
LeaselessTask (joining r st) = HasNoLease st
LeaselessTask (leading r st) = HasNoLease st
LeaselessTask (observing r o st) = HasNoLease st
LeaselessTask (settling st e d) = HasNoLease st × HasNoLease (status_of d)
LeaselessTask (peeking deadline st) = HasNoLease st
LeaselessTask (returned d) = HasNoLease (status_of d)
LeaselessTask (boot_leading deadline st) = HasNoLease st
LeaselessTask (boot_observing deadline o st) = HasNoLease st
LeaselessTask (boot_settling st e) = HasNoLease st
LeaselessTask _ = Unit {0}

abbrev pub AllLeaseless : List Task → Type 0
AllLeaseless [] = Unit {0}
AllLeaseless (t ∷ ts) = LeaselessTask t × AllLeaseless ts

AllLeaseless-append :
    (ts us : List Task) → AllLeaseless ts → AllLeaseless us → AllLeaseless (ts ++ us)
AllLeaseless-append [] us h k = k
AllLeaseless-append (t ∷ ts) us h k = (h.0, AllLeaseless-append ts us h.1 k)

AllLeaseless-edit_at :
    (f : Task → Task) (i : ℕ) (ts : List Task)
    → ((t : Task) → LeaselessTask t → LeaselessTask (f t))
    → AllLeaseless ts
    → AllLeaseless (edit_at f i ts)
unfolding edit_at
AllLeaseless-edit_at f i [] keep h = tt
AllLeaseless-edit_at f zero (t ∷ ts) keep h = (keep t h.0, h.1)
AllLeaseless-edit_at f (suc i) (t ∷ ts) keep h = (h.0, AllLeaseless-edit_at f i ts keep h.1)

give_up-LeaselessTask : (t : Task) → LeaselessTask t → LeaselessTask (give_up t)
unfolding give_up
give_up-LeaselessTask (returned d) h = h
give_up-LeaselessTask (boot_leading d st) h = h
give_up-LeaselessTask (boot_observing d o st) h = h
give_up-LeaselessTask (boot_settling st e) h = h
give_up-LeaselessTask _ h = tt

module _ {W : Type 0} (sv : Services W) (timing : LifecycleTiming) where
  abbrev LeaselessNext : Next W → Type 0
  LeaselessNext n = LeaselessTask n.task × AllLeaseless n.spawned × HasNoLease n.core.status

  after_lead-Leaseless :
      (deadline : ℕ) (out : LifecycleDecision × Core W)
      → IsLeaseless sv timing out
      → LeaselessNext (after_lead deadline out)
  unfolding after_lead
  after_lead-Leaseless deadline (LifecycleDecision.ready st, c) h = ((h.1, h.0), tt, h.1)
  after_lead-Leaseless deadline (LifecycleDecision.warming st r, c) h = (tt, (tt, tt), h.1)
  after_lead-Leaseless deadline (LifecycleDecision.failed st e, c) h = ((h.0, h.0), tt, h.1)

  after_look-Leaseless :
      (deadline : ℕ) (out : LifecycleDecision × Core W)
      → IsLeaseless sv timing out
      → LeaselessNext (after_look deadline out)
  unfolding after_look
  after_look-Leaseless deadline (LifecycleDecision.ready st, c) h = (h.0, tt, h.1)
  after_look-Leaseless deadline (LifecycleDecision.warming st r, c) h = (tt, tt, h.1)
  after_look-Leaseless deadline (LifecycleDecision.failed st e, c) h = (h.0, tt, h.1)

  wait_view-Leaseless :
      (deadline now : ℕ) (st : BackendStatus) (b : BootstrapState) (stale : Bool) (c : Core W)
      → HasNoLease st
      → HasNoLease c.status
      → LeaselessNext (after_wait deadline stale c (wait_view sv timing deadline now st b))
  unfolding wait_view after_wait bootstrap_wait_status
  wait_view-Leaseless deadline now st b stale c h k = ground arith

  advance-Leaseless :
      (t : Task) (c : Core W)
      → LeaselessTask t
      → HasNoLease c.status
      → LeaselessNext (advance sv timing t c)
  unfolding advance finish_bootstrap publish
  advance-Leaseless (entered r) c h k = (k, tt, k)
  advance-Leaseless (borrowed r st) c h k = ground arith
  advance-Leaseless (joining r st) c h k = unfold start_or_join_bootstrap after_join in ground arith
  advance-Leaseless (leading r st) c h k = (h, tt, k)
  advance-Leaseless (observing r o st) c h k =
      after_lead-Leaseless _ _ (observe_once-IsLeaseless sv timing (some r) o st c h k)
  advance-Leaseless (settling st e d) c h k = (h.1, tt, h.0)
  advance-Leaseless (waiting d) c h k = (k, tt, k)
  advance-Leaseless (peeking d st) c h k = wait_view-Leaseless d _ st c.bootstrap _ c h k
  advance-Leaseless (boot_observing d o st) c h k =
      after_look-Leaseless d _ (observe_once-IsLeaseless sv timing none o st c h k)
  advance-Leaseless (booting d) c h k = ground arith
  advance-Leaseless (sleeping d) c h k = unfold pause in ground arith
  advance-Leaseless (boot_leading d st) c h k = (h, tt, k)
  advance-Leaseless boot_start c h k = elim (Bool-cases (deadline_fits sv timing c)) [
    | inl fits ↦ rw fits (tt, tt, k)
    | inr over ↦ rw over (tt, tt, k)
  ]
  advance-Leaseless (boot_settling st e) c h k = (tt, tt, h)
  advance-Leaseless (returned d) c h k = (h, tt, k)
  advance-Leaseless _ c h k = (tt, tt, k)

  elapse-Leaseless :
      (c : Core W) (t : Task)
      → HasNoLease c.status
      → LeaselessTask t
      → LeaselessTask (elapse sv timing t c)
  unfolding elapse wait_elapsed bootstrap_wait_status
  elapse-Leaseless c (parked d true) k h = k
  elapse-Leaseless c (parked d false) k h = k
  elapse-Leaseless c (borrowed r st) k h = h
  elapse-Leaseless c (joining r st) k h = h
  elapse-Leaseless c (leading r st) k h = h
  elapse-Leaseless c (observing r o st) k h = h
  elapse-Leaseless c (settling st e d) k h = h
  elapse-Leaseless c (peeking d st) k h = h
  elapse-Leaseless c (returned d) k h = h
  elapse-Leaseless c (boot_leading d st) k h = h
  elapse-Leaseless c (boot_observing d o st) k h = h
  elapse-Leaseless c (boot_settling st e) k h = h
  elapse-Leaseless c _ k h = tt

  -- The published status and those that the tasks hold.
  pub record LeaselessSystem (s : System W) : Type 0 where
    pub published : HasNoLease s.core.status
    pub tasks : AllLeaseless s.tasks

  run_at-Leaseless :
      (i : ℕ) (ts : List Task) (c : Core W)
      → AllLeaseless ts
      → HasNoLease c.status
      → LeaselessSystem (run_at sv timing i ts c)
  unfolding run_at
  run_at-Leaseless i [] c h k = record { published = k; tasks = tt }
  run_at-Leaseless zero (t ∷ ts) c h k =
      let n = advance-Leaseless t c h.0 k in
      record {
        published = n.2;
        tasks = (n.0, AllLeaseless-append ts (advance sv timing t c).spawned h.1 n.1);
      }
  run_at-Leaseless (suc i) (t ∷ ts) c h k =
      let r = run_at-Leaseless i ts c h.1 k in
      record { published = r.published; tasks = (h.0, r.tasks) }

  apply-Leaseless :
      (a : Action W) (s : System W) → LeaselessSystem s → LeaselessSystem (apply sv timing a s)
  unfolding apply mark_warming degrade_embeddings publish
  apply-Leaseless (arrives r) s h = record {
    published = h.published;
    tasks = AllLeaseless-append s.tasks (entered r ∷ []) h.tasks (tt, tt);
  }
  apply-Leaseless (runs i) s h = run_at-Leaseless i s.tasks s.core h.tasks h.published
  apply-Leaseless (times_out i) s h = record {
    published = h.published;
    tasks =
        AllLeaseless-edit_at (λ t. elapse sv timing t s.core) i s.tasks
          (λ t k. elapse-Leaseless s.core t h.published k) h.tasks;
  }
  apply-Leaseless (gives_up i) s h = record {
    published = h.published;
    tasks = AllLeaseless-edit_at give_up i s.tasks give_up-LeaselessTask h.tasks;
  }
  apply-Leaseless marks_warming s h = record { published = h.published; tasks = h.tasks }
  apply-Leaseless (degrades r) s h = record { published = h.published; tasks = h.tasks }
  apply-Leaseless (world_becomes w) s h = record { published = h.published; tasks = h.tasks }

  run_from-Leaseless :
      (actions : List (Action W)) (s : System W)
      → LeaselessSystem s
      → LeaselessSystem (run sv timing actions s)
  unfolding run
  run_from-Leaseless [] s h = h
  run_from-Leaseless (a ∷ actions) s h =
      run_from-Leaseless actions (apply sv timing a s) (apply-Leaseless a s h)

  -- Under every interleaving, whatever the services answer: if the manager starts with a status that
  -- has no lease, no status that it publishes and no answer of it ever has one.
  pub run-LeaselessSystem :
      (actions : List (Action W)) (initial_status : BackendStatus) (w : W)
      → HasNoLease initial_status
      → LeaselessSystem (run sv timing actions (fresh initial_status w))
  unfolding fresh
  run-LeaselessSystem actions initial_status w h =
      run_from-Leaseless actions (fresh initial_status w) (record { published = h; tasks = tt })
