-- ===== src/Scheduler/Bounds.antt =====
-- Permits and tickets are never lost or made up (WarmExecutionScheduler).
use llm_wake_proxy.Base.{ℕ, zero, suc, ◌+◌, ◌≤◌, ◌≡◌, List, [], ◌∷◌, arith}
use llm_wake_proxy.Config.Types.{WarmExecutionConfig}
use llm_wake_proxy.Scheduler.{
  Slots, Request, turned_away, ticketed, queueing, assigned, executing, withdrawing, start, go_on,
  assign, time_out, complete, drop_request, Scheduler, Action, arrives, goes_on, times_out,
  completes, is_dropped, at, event, hand_off, step, run, new_scheduler,
}

-- The requests that hold a permit, and those that hold a ticket.
unfoldable pub holds_permit : Request → ℕ
holds_permit assigned = 1
holds_permit (executing g) = 1
holds_permit _ = 0

unfoldable pub holds_ticket : Request → ℕ
holds_ticket ticketed = 1
holds_ticket queueing = 1
holds_ticket assigned = 1
holds_ticket withdrawing = 1
holds_ticket _ = 0

unfoldable pub active : List Request → ℕ
active [] = 0
active (r ∷ rs) = holds_permit r + active rs

unfoldable pub waiting : List Request → ℕ
waiting [] = 0
waiting (r ∷ rs) = holds_ticket r + waiting rs

-- Every permit is free or held by a request, every ticket counted is held by a request, and
-- the queue is within its bound.
pub record IsConserved (config : WarmExecutionConfig) (s : Scheduler) : Type 0 where
  pub permits : s.slots.available + active s.requests ≡ config.max_active_requests
  pub tickets : s.slots.queued ≡ waiting s.requests
  pub bounded : s.slots.queued ≤ config.max_queued_requests

-- An event at one request moves what it holds, and keeps the queue within its bound.
abbrev Moves : WarmExecutionConfig → Request → Slots → Request × Slots → Type 0
Moves config r s (r', s') =
    (s'.available + holds_permit r' ≡ s.available + holds_permit r)
    × (s'.queued + holds_ticket r ≡ s.queued + holds_ticket r')
    × (s'.queued ≤ config.max_queued_requests)

IsMove : WarmExecutionConfig → (Request → Slots → Request × Slots) → Type 0
IsMove config f =
    (r : Request) (s : Slots)
    → holds_ticket r ≤ s.queued
    → s.queued ≤ config.max_queued_requests
    → Moves config r s (f r s)

module _ (config : WarmExecutionConfig) where
  go_on-IsMove : IsMove config (go_on config)
  unfolding IsMove go_on holds_permit holds_ticket
  go_on-IsMove turned_away s h k = ground arith
  go_on-IsMove ticketed s h k = ground arith
  go_on-IsMove assigned s h k = omega arith
  go_on-IsMove withdrawing s h k = omega arith
  go_on-IsMove _ s h k = omega arith

  assign-IsMove : IsMove config assign
  unfolding IsMove assign holds_permit holds_ticket
  assign-IsMove queueing s h k = ground arith
  assign-IsMove _ s h k = omega arith

  time_out-IsMove : IsMove config time_out
  unfolding IsMove time_out holds_permit holds_ticket
  time_out-IsMove queueing s h k = omega arith
  time_out-IsMove assigned s h k = omega arith
  time_out-IsMove _ s h k = omega arith

  complete-IsMove : IsMove config complete
  unfolding IsMove complete holds_permit holds_ticket
  complete-IsMove (executing g) s h k = omega arith
  complete-IsMove _ s h k = omega arith

  drop_request-IsMove : IsMove config drop_request
  unfolding IsMove drop_request holds_permit holds_ticket
  drop_request-IsMove queueing s h k = omega arith
  drop_request-IsMove assigned s h k = omega arith
  drop_request-IsMove (executing g) s h k = omega arith
  drop_request-IsMove _ s h k = omega arith

  at-Moves :
      (f : Request → Slots → Request × Slots)
      → IsMove config f
      → (i : ℕ) (rs : List Request) (s : Slots) → waiting rs ≤ s.queued
      → s.queued ≤ config.max_queued_requests
      → let n = at f i rs s in
        (n.slots.available + active n.requests ≡ s.available + active rs)
        × (n.slots.queued + waiting rs ≡ s.queued + waiting n.requests)
        × (n.slots.queued ≤ config.max_queued_requests)
  unfolding IsMove at active waiting
  at-Moves f m i [] s h k = omega arith
  at-Moves f m zero (r ∷ rs) s h k = omega (arith, m r s (omega arith) k)
  at-Moves f m (suc i) (r ∷ rs) s h k = omega (arith, at-Moves f m i rs s (omega arith) k)

  at-IsConserved :
      (f : Request → Slots → Request × Slots) (i : ℕ) (s : Scheduler)
      → IsMove config f
      → IsConserved config s
      → IsConserved config (at f i s.requests s.slots)
  at-IsConserved f i s m v =
      omega (arith, at-Moves f m i s.requests s.slots (omega arith) v.bounded)

  start-IsConserved :
      (s : Scheduler) → IsConserved config s → IsConserved config (event config arrives s)
  unfolding event start active waiting holds_permit holds_ticket
  start-IsConserved s v = ground arith

  pub event-IsConserved :
      (a : Action) (s : Scheduler) → IsConserved config s → IsConserved config (event config a s)
  unfolding event
  event-IsConserved arrives s v = start-IsConserved s v
  event-IsConserved (goes_on i) s v = at-IsConserved (go_on config) i s go_on-IsMove v
  event-IsConserved (times_out i) s v = at-IsConserved time_out i s time_out-IsMove v
  event-IsConserved (completes i) s v = at-IsConserved complete i s complete-IsMove v
  event-IsConserved (is_dropped i) s v = at-IsConserved drop_request i s drop_request-IsMove v

  pub new_scheduler-IsConserved : IsConserved config (new_scheduler config)
  unfolding new_scheduler active waiting
  new_scheduler-IsConserved = omega arith

  module _ (next : List Request → ℕ) where
    pub step-IsConserved :
        (a : Action) (s : Scheduler)
        → IsConserved config s
        → IsConserved config (step config next a s)
    unfolding step hand_off
    step-IsConserved a s v =
        at-IsConserved assign _ (event config a s) assign-IsMove (event-IsConserved a s v)

    run_from-IsConserved :
        (actions : List Action) (s : Scheduler)
        → IsConserved config s
        → IsConserved config (run config next actions s)
    unfolding run
    run_from-IsConserved [] s v = v
    run_from-IsConserved (a ∷ actions) s v =
        run_from-IsConserved actions (step config next a s) (step-IsConserved a s v)

    -- After any history of arrivals, steps, timeouts, completions and dropped requests on any number of
    -- threads, whichever request the semaphore assigns a free permit to, the free permits and the
    -- permits that requests hold add up to `max_active_requests`, the queue count is the number of
    -- requests that hold a ticket, and it is at most `max_queued_requests`.
    pub run-IsConserved :
        (actions : List Action)
        → IsConserved config (run config next actions (new_scheduler config))
    run-IsConserved actions =
        run_from-IsConserved actions (new_scheduler config) new_scheduler-IsConserved
