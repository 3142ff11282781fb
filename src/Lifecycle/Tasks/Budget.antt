-- ===== src/Lifecycle/Tasks/Budget.antt =====
-- src/lifecycle.rs, LifecycleCore::wait_for_ready_or_timeout: a request does not wait longer than its
-- budget, whatever the other tasks do.
pub mod Entering
use llm_wake_proxy.Base.{
  ℕ, ◌≤◌, ◌≡◌, refl, Bool, true, false, not, ◌&&◌, Option, none, some, List, [], ◌∷◌, ◌⊎◌, inl, inr,
  Bool-cases, le→leb, arith, ◌∙◌, ◌++◌, ◌+◌, ◌*◌,
}
use llm_wake_proxy.Lifecycle.Types.{
  BackendStatus, LifecycleRequest, LifecycleError, LifecycleDecision, LifecycleTiming, Services,
  Core, BootstrapState, is_error, backend_is_ready,
}
use llm_wake_proxy.Lifecycle.Observe.{observe_once}
use llm_wake_proxy.Lifecycle.Bootstrap.{
  start_or_join, start_or_join_bootstrap, wait_deadline_of, wait_view, is_stale_view,
}
use llm_wake_proxy.Lifecycle.Tasks.{
  Task, waiting, peeking, parked, returned, joining, entered, borrowed, settling, advance,
  after_wait, after_join, after_lead,
}

-- The deadline of a request that waits.
abbrev pub deadline_of : Task → Option ℕ
deadline_of (waiting deadline) = some deadline
deadline_of (peeking deadline status) = some deadline
deadline_of (parked deadline stale) = some deadline
deadline_of _ = none

abbrev pub has_returned : Task → Bool
has_returned (returned decision) = true
has_returned _ = false

module _ {W : Type 0} (sv : Services W) (timing : LifecycleTiming) where
  -- The steps of one task, each at a core that the other tasks, the clock and the rest of the world
  -- have left.
  unfoldable pub steps : List (Core W) → Task → Task
  steps [] t = t
  steps (c ∷ cs) t = steps cs (advance sv timing t c).task

  -- From a moment on, the clock has reached the deadline.
  abbrev pub AllLate : ℕ → List (Core W) → Type 0
  AllLate deadline [] = Unit {0}
  AllLate deadline (c ∷ cs) = (deadline ≤ sv.instant c.world) × AllLate deadline cs

  -- It has returned, or still waits for the same deadline.
  abbrev IsWaiting : ℕ → Task → Type 0
  IsWaiting deadline t = (has_returned t ≡ true) ⊎ (deadline_of t ≡ some deadline)

  after_wait-IsWaiting :
      (deadline : ℕ) (stale : Bool) (c : Core W) (o : Option LifecycleDecision)
      → IsWaiting deadline (after_wait deadline stale c o).task
  unfolding after_wait
  after_wait-IsWaiting deadline stale c none = inr refl
  after_wait-IsWaiting deadline stale c (some d) = inl refl

  pub steps-has_returned :
      (cs : List (Core W)) (t : Task) → has_returned t ≡ true → has_returned (steps cs t) ≡ true
  unfolding steps advance
  steps-has_returned [] t h = h
  steps-has_returned (c ∷ cs) (returned decision) h = steps-has_returned cs (returned decision) h
  steps-has_returned (c ∷ cs) _ h = absurd (ground (arith, h))

  steps-IsWaiting :
      (cs : List (Core W)) (deadline : ℕ) (t : Task)
      → deadline_of t ≡ some deadline
      → IsWaiting deadline (steps cs t)
  unfolding steps advance
  steps-IsWaiting [] deadline t h = inr h
  steps-IsWaiting (c ∷ cs) deadline (waiting d) h =
      steps-IsWaiting cs deadline (peeking d c.status) h
  steps-IsWaiting (c ∷ cs) deadline (peeking d status) h =
      elim (after_wait-IsWaiting d (is_stale_view status c.bootstrap) c
        (wait_view sv timing d (sv.instant c.world) status c.bootstrap)) [
          | inl back ↦ inl (steps-has_returned cs _ back)
          | inr same ↦ steps-IsWaiting cs deadline _ (same ∙ h)
        ]
  steps-IsWaiting (c ∷ cs) deadline (parked d stale) h = steps-IsWaiting cs deadline (waiting d) h
  steps-IsWaiting (c ∷ cs) deadline _ h = absurd (ground (arith, h))

  wait_view-late :
      (deadline now : ℕ) (status : BackendStatus) (b : BootstrapState)
      → deadline ≤ now
      → (d : LifecycleDecision) × (wait_view sv timing deadline now status b ≡ some d)
  unfolding wait_view
  wait_view-late deadline now status b late =
      elim (Bool-cases (not (is_stale_view status b) && backend_is_ready status)) [
        | inl r ↦ rw r (_, refl)
        | inr r ↦
            rw r (elim (Bool-cases (not (is_stale_view status b) && is_error status.lifecycle)) [
              | inl e ↦ rw e (_, refl)
              | inr e ↦ rw (e, le→leb deadline now late) (_, refl)
            ])
      ]

  peeking-late :
      (deadline : ℕ) (status : BackendStatus) (c : Core W)
      → deadline ≤ sv.instant c.world
      → has_returned (advance sv timing (peeking deadline status) c).task ≡ true
  unfolding advance after_wait
  peeking-late deadline status c late =
      let (d, e) = wait_view-late deadline (sv.instant c.world) status c.bootstrap late in rw e refl

  steps-append : (cs ds : List (Core W)) (t : Task) → steps (cs ++ ds) t ≡ steps ds (steps cs t)
  unfolding steps
  steps-append [] ds t = refl
  steps-append (c ∷ cs) ds t = steps-append cs ds (advance sv timing t c).task

  late-returned :
      (deadline : ℕ) (c₁ c₂ c₃ : Core W) (cs : List (Core W)) (t : Task)
      → deadline_of t ≡ some deadline
      → AllLate deadline (c₁ ∷ c₂ ∷ c₃ ∷ cs)
      → has_returned (steps (c₁ ∷ c₂ ∷ c₃ ∷ cs) t) ≡ true
  unfolding steps advance
  late-returned deadline c₁ c₂ c₃ cs (waiting d) h late =
      steps-has_returned (c₃ ∷ cs) _ (peeking-late d c₁.status c₂ (ground (arith, h, late.1.0)))
  late-returned deadline c₁ c₂ c₃ cs (peeking d status) h late =
      steps-has_returned (c₂ ∷ c₃ ∷ cs) _ (peeking-late d status c₁ (ground (arith, h, late.0)))
  late-returned deadline c₁ c₂ c₃ cs (parked d stale) h late =
      steps-has_returned cs _ (peeking-late d c₂.status c₃ (ground (arith, h, late.1.1.0)))
  late-returned deadline c₁ c₂ c₃ cs _ h late = absurd (ground (arith, h))

  pub waiting-returned :
      (deadline : ℕ) (early : List (Core W)) (c₁ c₂ c₃ : Core W) (cs : List (Core W)) (t : Task)
      → deadline_of t ≡ some deadline
      → AllLate deadline (c₁ ∷ c₂ ∷ c₃ ∷ cs)
      → has_returned (steps (early ++ c₁ ∷ c₂ ∷ c₃ ∷ cs) t) ≡ true
  waiting-returned deadline early c₁ c₂ c₃ cs t h late =
      rw (steps-append early (c₁ ∷ c₂ ∷ c₃ ∷ cs) t) (elim (steps-IsWaiting early deadline t h) [
        | inl back ↦ steps-has_returned (c₁ ∷ c₂ ∷ c₃ ∷ cs) _ back
        | inr same ↦ late-returned deadline c₁ c₂ c₃ cs _ same late
      ])
