-- ===== src/Lifecycle/Tasks/Seen/Runs.antt =====
-- src/lifecycle.rs, LifecycleManager::ensure_backend with the background bootstrap: every step keeps the
-- answers from being `ready`, or is a look at the host that saw it so.
use llm_wake_proxy.Base.{
  Bool-cases, ℕ, zero, suc, ◌≡◌, refl, Bool, false, none, some, List, [], ◌∷◌, ◌++◌, arith, ◌⊎◌,
  inl, inr,
}
use llm_wake_proxy.Lifecycle.Types.{
  LifecycleState, LifecycleRequest, BackendStatus, LifecycleDecision, LifecycleTiming, Services,
  Core, backend_is_ready,
}
use llm_wake_proxy.Lifecycle.Soundness.{IsSound, observe_once-IsSound}
use llm_wake_proxy.Lifecycle.Seeing.{IsSeen, observe_once-IsSeen}
use llm_wake_proxy.Lifecycle.Observe.{publish}
use llm_wake_proxy.Lifecycle.Bootstrap.{
  deadline_fits, wait_view, wait_elapsed, finish_bootstrap, start_or_join, start_or_join_bootstrap,
  mark_warming, degrade_embeddings, pause,
}
use llm_wake_proxy.Lifecycle.Tasks.{
  Task, entered, borrowed, joining, leading, observing, settling, waiting, peeking, parked,
  returned, dropped, boot_start, booting, sleeping, boot_leading, boot_observing, boot_settling,
  ended, Next, after_join, after_wait, after_lead, after_look, advance, elapse, give_up, System,
  Action, arrives, runs, times_out, gives_up, marks_warming, degrades, world_becomes, edit_at,
  run_at, apply, run,
}
use llm_wake_proxy.Lifecycle.Tasks.Seen.{
  Look, UnreadyTask, AllUnready, IsUnready, looks_of, looks_at, looks_in, looks, AnySeen,
}

AllUnready-append : (ts us : List Task) → AllUnready ts → AllUnready us → AllUnready (ts ++ us)
AllUnready-append [] us h k = k
AllUnready-append (t ∷ ts) us h k = (h.0, AllUnready-append ts us h.1 k)

AllUnready-edit_at :
    (f : Task → Task) (i : ℕ) (ts : List Task)
    → ((t : Task) → UnreadyTask t → UnreadyTask (f t))
    → AllUnready ts
    → AllUnready (edit_at f i ts)
unfolding edit_at
AllUnready-edit_at f i [] keep h = h
AllUnready-edit_at f zero (t ∷ ts) keep h = (keep t h.0, h.1)
AllUnready-edit_at f (suc i) (t ∷ ts) keep h = (h.0, AllUnready-edit_at f i ts keep h.1)

give_up-UnreadyTask : (t : Task) → UnreadyTask t → UnreadyTask (give_up t)
unfolding give_up
give_up-UnreadyTask (returned d) h = h
give_up-UnreadyTask (boot_settling st e) h = h
give_up-UnreadyTask _ h = tt

pub error_unready :
    (status : BackendStatus)
    → status.lifecycle ≡ LifecycleState.error
    → backend_is_ready status ≡ false
unfolding backend_is_ready
error_unready status e = rw e refl

module _ {W : Type 0} (sv : Services W) (timing : LifecycleTiming) where
  pub AnySeen-left : (ls ms : List (Look W)) → AnySeen sv timing ls → AnySeen sv timing (ls ++ ms)
  AnySeen-left [] ms h = absurd h
  AnySeen-left (l ∷ ls) ms (inl h) = inl h
  AnySeen-left (l ∷ ls) ms (inr h) = inr (AnySeen-left ls ms h)

  pub AnySeen-right : (ls ms : List (Look W)) → AnySeen sv timing ms → AnySeen sv timing (ls ++ ms)
  AnySeen-right [] ms h = h
  AnySeen-right (l ∷ ls) ms h = inr (AnySeen-right ls ms h)

  abbrev UnreadyNext : Next W → Type 0
  UnreadyNext n =
      (backend_is_ready n.core.status ≡ false) × UnreadyTask n.task × AllUnready n.spawned

  -- What a step leaves, or the look that it made.
  abbrev Stays : Next W → List (Look W) → Type 0
  Stays n ls = UnreadyNext n ⊎ AnySeen sv timing ls

  wait_view-Unready :
      (deadline : ℕ) (status : BackendStatus) (stale : Bool) (c : Core W)
      → backend_is_ready c.status ≡ false
      → backend_is_ready status ≡ false
      → UnreadyNext (
          after_wait deadline stale c
            (wait_view sv timing deadline (sv.instant c.world) status c.bootstrap))
  unfolding wait_view after_wait
  wait_view-Unready deadline status stale c h k = ground (arith, h, k)

  after_join-Unready :
      (request : LifecycleRequest) (initial : BackendStatus) (deadline : ℕ) (c : Core W)
      → backend_is_ready c.status ≡ false
      → UnreadyNext (after_join request initial deadline (start_or_join_bootstrap request c))
  unfolding after_join start_or_join_bootstrap start_or_join
  after_join-Unready request initial deadline c h = ground (arith, h)

  after_lead-Stays :
      (deadline : ℕ) (request : LifecycleRequest) (c : Core W) (out : LifecycleDecision × Core W)
      → backend_is_ready c.status ≡ false
      → IsSound timing c out
      → IsSeen sv timing c request out
      → Stays (after_lead deadline out) (record { asked = request; before = c; after = out.1 } ∷ [])
  unfolding after_lead
  after_lead-Stays deadline request c (LifecycleDecision.ready st, c') h s seen = inr (inl seen)
  after_lead-Stays deadline request c (LifecycleDecision.warming st r, c') h s seen =
      inl (rw s.1 s.0, tt, (tt, tt))
  after_lead-Stays deadline request c (LifecycleDecision.failed st e, c') h s seen =
      inl (rw s.2 h, error_unready st s.0, tt)

  after_look-Stays :
      (deadline : ℕ) (request : LifecycleRequest) (c : Core W) (out : LifecycleDecision × Core W)
      → backend_is_ready c.status ≡ false
      → IsSound timing c out
      → IsSeen sv timing c request out
      → Stays (after_look deadline out) (record { asked = request; before = c; after = out.1 } ∷ [])
  unfolding after_look
  after_look-Stays deadline request c (LifecycleDecision.ready st, c') h s seen = inr (inl seen)
  after_look-Stays deadline request c (LifecycleDecision.warming st r, c') h s seen =
      inl (rw s.1 s.0, tt, tt)
  after_look-Stays deadline request c (LifecycleDecision.failed st e, c') h s seen =
      inl (rw s.2 h, error_unready st s.0, tt)

  advance-Stays :
      (t : Task) (c : Core W)
      → backend_is_ready c.status ≡ false
      → UnreadyTask t
      → Stays (advance sv timing t c) (looks_of sv timing t c)
  unfolding advance looks_of finish_bootstrap pause backend_is_ready
  advance-Stays (entered r) c h k = inl (h, h, tt)
  advance-Stays (borrowed r initial) c h k = inl (ground (arith, h, k))
  advance-Stays (joining r initial) c h k = inl (after_join-Unready r initial _ c h)
  advance-Stays (leading r initial) c h k = inl (h, tt, tt)
  advance-Stays (observing r o initial) c h k =
      after_lead-Stays _ o c _ h (observe_once-IsSound sv timing (some r) o initial c)
        (observe_once-IsSeen sv timing (some r) o initial c)
  advance-Stays (settling st e (LifecycleDecision.ready d)) c h k = absurd k
  advance-Stays (settling st e (LifecycleDecision.warming d r)) c h k = inl (k, tt, tt)
  advance-Stays (settling st e (LifecycleDecision.failed d x)) c h k = inl (k, tt, tt)
  advance-Stays (waiting d) c h k = inl (h, h, tt)
  advance-Stays (peeking d st) c h k = inl (wait_view-Unready d st _ c h k)
  advance-Stays (parked d stale) c h k = inl (h, tt, tt)
  advance-Stays (returned d) c h k = inl (h, k, tt)
  advance-Stays dropped c h k = inl (h, tt, tt)
  advance-Stays boot_start c h k = elim (Bool-cases (deadline_fits sv timing c)) [
    | inl fits ↦ rw fits (inl (h, tt, tt))
    | inr over ↦ rw over (inl (h, tt, tt))
  ]
  advance-Stays (booting d) c h k = inl (ground (arith, h))
  advance-Stays (sleeping d) c h k = inl (ground (arith, h))
  advance-Stays (boot_leading d st) c h k = inl (h, tt, tt)
  advance-Stays (boot_observing d o st) c h k =
      after_look-Stays d o c _ h (observe_once-IsSound sv timing none o st c)
        (observe_once-IsSeen sv timing none o st c)
  advance-Stays (boot_settling st e) c h k = inl (k, tt, tt)
  advance-Stays ended c h k = inl (h, tt, tt)

  elapse-UnreadyTask : (c : Core W) (t : Task) → UnreadyTask t → UnreadyTask (elapse sv timing t c)
  unfolding elapse wait_elapsed
  elapse-UnreadyTask c (parked d s) h = tt
  elapse-UnreadyTask c t h = h

  -- Likewise for a system.
  abbrev StaysAll : System W → List (Look W) → Type 0
  StaysAll s ls = IsUnready s ⊎ AnySeen sv timing ls

  run_at-StaysAll :
      (i : ℕ) (ts : List Task) (c : Core W)
      → backend_is_ready c.status ≡ false
      → AllUnready ts
      → StaysAll (run_at sv timing i ts c) (looks_at sv timing i ts c)
  unfolding run_at looks_at
  run_at-StaysAll i [] c h k = inl (h, tt)
  run_at-StaysAll zero (t ∷ ts) c h k = elim (advance-Stays t c h k.0) [
    | inl n ↦ inl (n.0, (n.1, AllUnready-append ts (advance sv timing t c).spawned k.1 n.2))
    | inr seen ↦ inr seen
  ]
  run_at-StaysAll (suc i) (t ∷ ts) c h k = elim (run_at-StaysAll i ts c h k.1) [
    | inl n ↦ inl (n.0, (k.0, n.1))
    | inr seen ↦ inr seen
  ]

  apply-StaysAll :
      (a : Action W) (s : System W)
      → IsUnready s
      → StaysAll (apply sv timing a s) (looks_in sv timing a s)
  unfolding apply looks_in mark_warming degrade_embeddings publish backend_is_ready
  apply-StaysAll (arrives r) s h =
      inl (h.0, AllUnready-append s.tasks (entered r ∷ []) h.1 (tt, tt))
  apply-StaysAll (runs i) s h = run_at-StaysAll i s.tasks s.core h.0 h.1
  apply-StaysAll (times_out i) s h = inl (
    h.0,
    AllUnready-edit_at (λ t. elapse sv timing t s.core) i s.tasks (elapse-UnreadyTask s.core) h.1,
  )
  apply-StaysAll (gives_up i) s h =
      inl (h.0, AllUnready-edit_at give_up i s.tasks give_up-UnreadyTask h.1)
  apply-StaysAll marks_warming s h = inl (refl, h.1)
  apply-StaysAll (degrades r) s h = inl h
  apply-StaysAll (world_becomes w) s h = inl h

  -- From any system that says nowhere that the backend is ready, such as one that has just been made:
  -- under every interleaving either it still says so nowhere, neither in the published status nor in
  -- an answer given or about to be given, or one of the looks at the host that its tasks made since
  -- then found the host awake, had the backend's own word that it is ready, and after that a tunnel
  -- that is up.
  pub run-IsUnready :
      (actions : List (Action W)) (s : System W)
      → IsUnready s
      → IsUnready (run sv timing actions s) ⊎ AnySeen sv timing (looks sv timing actions s)
  unfolding run looks
  run-IsUnready [] s h = inl h
  run-IsUnready (a ∷ actions) s h = elim (apply-StaysAll a s h) [
    | inl n ↦ elim (run-IsUnready actions (apply sv timing a s) n) [
      | inl m ↦ inl m
      | inr seen ↦ inr (
          AnySeen-right (looks_in sv timing a s) (looks sv timing actions (apply sv timing a s))
            seen)
    ]
    | inr seen ↦
        inr (
          AnySeen-left (looks_in sv timing a s) (looks sv timing actions (apply sv timing a s))
            seen)
  ]
