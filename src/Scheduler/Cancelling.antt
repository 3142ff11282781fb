-- ===== src/Scheduler/Cancelling.antt =====
-- Whose operation is told that it was cancelled (src/scheduler.rs).
use llm_wake_proxy.Base.{ℕ, zero, suc, ◌≡◌, true, false, List, [], ◌∷◌, arith}
use llm_wake_proxy.Config.Types.{WarmExecutionConfig}
use llm_wake_proxy.Scheduler.{
  Slots, Request, turned_away, ticketed, queueing, assigned, executing, answered, withdrawing,
  dropped, start, go_on, assign, time_out, complete, drop_request, Scheduler, Action, arrives,
  goes_on, times_out, completes, is_dropped, at, event, hand_off, step, run, new_scheduler,
}

-- The handle of a running operation is not cancelled and its guard is armed; an operation that
-- returned was never cancelled; one whose request was dropped is, and its waiters were woken once.
abbrev pub IsTold : Request → Type 0
IsTold (executing g) =
    (g.armed ≡ true) × (g.cancellation.cancelled ≡ false) × (g.cancellation.woken ≡ 0)
IsTold (answered r) = (r.cancelled ≡ false) × (r.woken ≡ 0)
IsTold (dropped r) = (r.cancelled ≡ true) × (r.woken ≡ 1)
IsTold _ = Unit {0}

abbrev pub AllTold : List Request → Type 0
AllTold [] = Unit {0}
AllTold (r ∷ rs) = IsTold r × AllTold rs

KeepsTold : (Request → Slots → Request × Slots) → Type 0
KeepsTold f = (r : Request) (s : Slots) → IsTold r → IsTold (f r s).0

go_on-KeepsTold : (config : WarmExecutionConfig) → KeepsTold (go_on config)
unfolding KeepsTold go_on
go_on-KeepsTold config turned_away s h = ground arith
go_on-KeepsTold config ticketed s h = ground arith
go_on-KeepsTold config assigned s h = ground arith
go_on-KeepsTold config (executing g) s h = h
go_on-KeepsTold config (answered c) s h = h
go_on-KeepsTold config (dropped c) s h = h
go_on-KeepsTold config withdrawing s h = tt
go_on-KeepsTold config _ s h = tt

assign-KeepsTold : KeepsTold assign
unfolding KeepsTold assign
assign-KeepsTold queueing s h = ground arith
assign-KeepsTold (executing g) s h = h
assign-KeepsTold (answered c) s h = h
assign-KeepsTold (dropped c) s h = h
assign-KeepsTold _ s h = tt

time_out-KeepsTold : KeepsTold time_out
unfolding KeepsTold time_out
time_out-KeepsTold assigned s h = ground arith
time_out-KeepsTold (executing g) s h = h
time_out-KeepsTold (answered c) s h = h
time_out-KeepsTold (dropped c) s h = h
time_out-KeepsTold _ s h = tt

complete-KeepsTold : KeepsTold complete
unfolding KeepsTold complete
complete-KeepsTold (executing g) s h = ground arith
complete-KeepsTold (answered c) s h = h
complete-KeepsTold (dropped c) s h = h
complete-KeepsTold _ s h = tt

drop_request-KeepsTold : KeepsTold drop_request
unfolding KeepsTold drop_request
drop_request-KeepsTold (executing g) s h = ground arith
drop_request-KeepsTold (answered c) s h = h
drop_request-KeepsTold (dropped c) s h = h
drop_request-KeepsTold _ s h = tt

at-AllTold :
    (f : Request → Slots → Request × Slots) (i : ℕ) (rs : List Request) (s : Slots)
    → KeepsTold f
    → AllTold rs
    → AllTold (at f i rs s).requests
unfolding KeepsTold at
at-AllTold f i [] s k h = tt
at-AllTold f zero (r ∷ rs) s k h = (k r s h.0, h.1)
at-AllTold f (suc i) (r ∷ rs) s k h = (h.0, at-AllTold f i rs s k h.1)

start-IsTold : (s : Slots) → IsTold (start s).0
unfolding start
start-IsTold s = ground arith

module _ (config : WarmExecutionConfig) where
  event-AllTold :
      (a : Action) (s : Scheduler) → AllTold s.requests → AllTold (event config a s).requests
  unfolding event
  event-AllTold arrives s h = (start-IsTold s.slots, h)
  event-AllTold (goes_on i) s h =
      at-AllTold (go_on config) i s.requests s.slots (go_on-KeepsTold config) h
  event-AllTold (times_out i) s h = at-AllTold time_out i s.requests s.slots time_out-KeepsTold h
  event-AllTold (completes i) s h = at-AllTold complete i s.requests s.slots complete-KeepsTold h
  event-AllTold (is_dropped i) s h =
      at-AllTold drop_request i s.requests s.slots drop_request-KeepsTold h

  module _ (next : List Request → ℕ) where
    step-AllTold :
        (a : Action) (s : Scheduler) → AllTold s.requests → AllTold (step config next a s).requests
    unfolding step hand_off
    step-AllTold a s h =
        at-AllTold assign _ (event config a s).requests (event config a s).slots assign-KeepsTold
          (event-AllTold a s h)

    run_from-AllTold :
        (actions : List Action) (s : Scheduler)
        → AllTold s.requests
        → AllTold (run config next actions s).requests
    unfolding run
    run_from-AllTold [] s h = h
    run_from-AllTold (a ∷ actions) s h =
        run_from-AllTold actions (step config next a s) (step-AllTold a s h)

    -- After any history, the handle of an operation that returned says that it was not cancelled, and
    -- the handle of one whose request was dropped says that it was, its waiters having been woken once.
    pub run-AllTold :
        (actions : List Action) → AllTold (run config next actions (new_scheduler config)).requests
    unfolding new_scheduler
    run-AllTold actions = run_from-AllTold actions (new_scheduler config) tt
