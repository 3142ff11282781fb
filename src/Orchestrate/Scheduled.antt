-- ===== src/Orchestrate/Scheduled.antt =====
-- src/orchestrate.rs over src/scheduler.rs: one request at the warm-execution scheduler, while the other
-- requests do to its slots what they like.
use llm_wake_proxy.Base.{
  ℕ, ◌+◌, ◌-◌, refl, ◌≡◌, Option, none, some, Bool-cases, inl, inr, arith, ltb, leb, ltb→lt,
}
use llm_wake_proxy.Config.Types.{WarmExecutionConfig}
use llm_wake_proxy.Lifecycle.Types.{LifecycleRequest}
use llm_wake_proxy.Scheduler.{
  WarmExecutionError, Slots, Request, refused, start, go_on, assign, time_out, drop_permit,
  drop_ticket, after_reserve, reserve, turned_away, ticketed, queueing, assigned,
}
use llm_wake_proxy.Forward.{Sent}
use llm_wake_proxy.State.{LifecycleOrchestrator}
use llm_wake_proxy.Orchestrate.{Outside, Upstream}
use llm_wake_proxy.Orchestrate.Counting.{Counters, IsCounted, IsAdmission, IsIdle}

-- The scheduler's slots, the permits that the request holds and the number of requests that it sent,
-- and the rest of the world.
pub record Scheduled (X : Type 0) : Type 0 where
  pub slots : Slots
  pub held : ℕ
  pub sent : ℕ
  pub rest : X

-- The end of the wait in the semaphore's line, after what the others did: a permit that is free then is
-- assigned, and otherwise the time is over.
unfoldable pub waited : (Slots → Slots) → Request × Slots → Request × Slots
unfolding assign time_out
waited others (queueing, s) = let (r, s') = assign queueing (others s) in time_out r s'
waited others (r, s) = (r, s)

-- The next step, after what the others did.
unfoldable pub continued : WarmExecutionConfig → (Slots → Slots) → Request × Slots → Request × Slots
unfolding go_on
continued config others (turned_away, s) = go_on config turned_away (others s)
continued config others (ticketed, s) = go_on config ticketed (others s)
continued config others (assigned, s) = go_on config assigned (others s)
continued config others (r, s) = (r, s)

-- How `execute` of the scheduler goes on: it refuses the request, or runs its operation.
unfoldable pub error_of : Request → Option WarmExecutionError
error_of (refused error) = some error
error_of r = none

-- `execute` of the scheduler up to its operation.
unfoldable pub admission :
    WarmExecutionConfig → (Slots → Slots) → Slots → Option WarmExecutionError × Slots
unfolding start waited continued error_of
admission config others s =
    let reserved = continued config others (start s) in
    let asked = continued config others reserved in
    let (r, s') = continued config others (waited others asked) in (error_of r, s')

-- One permit was taken, or nothing.
abbrev IsSlotTaken : Slots → Option WarmExecutionError × Slots → Type 0
IsSlotTaken s (none, s') = (s.available ≡ s'.available + 1) × (s'.queued ≡ s.queued)
IsSlotTaken s (some error, s') = (s'.available ≡ s.available) × (s'.queued ≡ s.queued)

-- If the others do nothing, a request that is admitted has taken one permit, and one that is refused
-- has left the slots as they were.
admission-IsSlotTaken :
    (config : WarmExecutionConfig) (s : Slots) → IsSlotTaken s (admission config (λ t. t) s)
unfolding admission start waited continued go_on assign time_out drop_ticket error_of after_reserve
    reserve
admission-IsSlotTaken config s = elim (Bool-cases (ltb 0 s.available)) [
  | inl free ↦ rw free (omega (arith, ltb→lt 0 s.available free), refl)
  | inr busy ↦ rw busy (elim (Bool-cases (leb config.max_queued_requests s.queued)) [
    | inl full ↦ rw full (refl, refl)
    | inr room ↦ ground arith
  ])
]

abbrev took : Option WarmExecutionError → ℕ → ℕ
took none held = held + 1
took (some error) held = held

module _ {X : Type 0} (config : WarmExecutionConfig) (others : X → Slots → Slots)
    (send : Upstream → X → Sent × X) where
  admit : Scheduled X → Option WarmExecutionError × Scheduled X
  unfolding admission
  admit w =
      let (error, slots) = admission config (others w.rest) w.slots in
      (error, record w { slots = slots; held = took error w.held })

  sent_to : Upstream → Scheduled X → Sent × Scheduled X
  sent_to request w =
      let (answer, rest) = send request w.rest in
      (answer, record w { slots = others w.rest w.slots; sent = w.sent + 1; rest = rest })

  unfoldable pub scheduled : Outside (Scheduled X)
  unfolding admit sent_to drop_permit
  scheduled = record {
    admit = λ kind w. admit w;
    release = λ w. record w { slots = drop_permit w.slots; held = w.held - 1 };
    send = sent_to;
  }

  abbrev pub request_counters : Counters (Scheduled X)
  request_counters = record { held = λ w. w.held; sends = λ w. w.sent }

  took-IsAdmission :
      (error : Option WarmExecutionError) (slots : Slots) (w : Scheduled X)
      → IsAdmission request_counters w (error, record w { slots = slots; held = took error w.held })
  took-IsAdmission none slots w = (refl, refl)
  took-IsAdmission (some e) slots w = (refl, refl)

  -- The scheduler counts what it should, whatever the others do, if the orchestrator leaves it alone.
  pub scheduled-IsCounted :
      {L : Type 0} (orchestrator : LifecycleOrchestrator L (Scheduled X))
      → ((kind : LifecycleRequest) (l : L) (w : Scheduled X)
          → IsIdle request_counters w (orchestrator.ensure_backend kind l w).2)
      → IsCounted orchestrator scheduled request_counters
  unfolding scheduled sent_to drop_permit admit
  scheduled-IsCounted orchestrator idle = record {
    admit = λ kind w.
        let out = admission config (others w.rest) w.slots in took-IsAdmission out.0 out.1 w;
    release_held = λ w. refl;
    release_sends = λ w. refl;
    send_held = λ u w. refl;
    send_sends = λ u w. refl;
    ensure_backend = idle;
  }
