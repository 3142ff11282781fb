-- ===== src/Scheduler.antt =====
-- src/scheduler.rs: the semaphore of warm executions, its bounded queue, and the requests that go
-- through `execute`, on any number of threads: they interleave between the operations on the semaphore
-- and on the queue. A request is its program counter; the guards that run when it is dropped are in
-- `drop_request`. The semaphore is the library's: a permit that comes free while requests stand in its
-- line is assigned to one of them at once, before any other request sees it. Which one is a parameter.
pub mod Bounds
pub mod Cancelling
pub mod Abstract
pub mod Line
use Prim.Native.String.{String}
use llm_wake_proxy.Base.{
  ℕ, zero, suc, ◌+◌, ◌-◌, Bool, true, false, List, [], ◌∷◌, ◌++◌, Result, ok, err, ltb, leb,
  if◌then◌else◌,
}
use llm_wake_proxy.Config.Types.{WarmExecutionConfig}

pub data WarmExecutionError : Type 0 where
  queue_full queue_timeout : WarmExecutionError

unfoldable pub message : WarmExecutionError → String
message queue_full = "warm execution queue is full"
message queue_timeout = "request did not start before the warm queue timeout"

-- CancellationInner; `woken` counts the calls of `notify_waiters`.
pub record RequestCancellation : Type 0 where
  pub cancelled : Bool
  pub woken : ℕ

abbrev pub new_cancellation : RequestCancellation
new_cancellation = record { cancelled = false; woken = 0 }

-- RequestCancellation::cancel: the flag is swapped, and the first call wakes the waiters.
unfoldable pub cancel : RequestCancellation → RequestCancellation
cancel r = record { cancelled = true; woken = if r.cancelled then r.woken else r.woken + 1 }

pub record CancelOnDrop : Type 0 where
  pub cancellation : RequestCancellation
  pub armed : Bool

abbrev pub new_guard : CancelOnDrop
new_guard = record { cancellation = new_cancellation; armed = true }

-- CancelOnDrop::drop.
unfoldable pub drop_guard : CancelOnDrop → RequestCancellation
unfolding cancel
drop_guard g = if g.armed then cancel g.cancellation else g.cancellation

-- CancelOnDrop::disarm, which drops the guard too.
unfoldable pub disarm : CancelOnDrop → RequestCancellation
unfolding drop_guard
disarm g = drop_guard (record g { armed = false })

-- The semaphore's permits and QueueState.
pub record Slots : Type 0 where
  pub available : ℕ
  pub queued : ℕ

-- WarmExecutionScheduler::new.
unfoldable pub new_slots : WarmExecutionConfig → Slots
new_slots config = record { available = config.max_active_requests; queued = 0 }

-- QueueTicket::reserve.
unfoldable pub reserve : WarmExecutionConfig → Slots → Result Slots WarmExecutionError
reserve config s =
    if leb config.max_queued_requests s.queued
    then err queue_full
    else ok (record s { queued = s.queued + 1 })

-- QueueTicket::drop of an active ticket; the subtraction stops at 0.
unfoldable pub drop_ticket : Slots → Slots
drop_ticket s = record s { queued = s.queued - 1 }

unfoldable pub drop_permit : Slots → Slots
drop_permit s = record s { available = s.available + 1 }

-- A request in `execute`: after `try_acquire_owned` found no permit, with a ticket before it asks for a
-- permit, in the semaphore's line, with a permit assigned and the ticket not yet dropped, running its
-- operation with a permit and a guard, answered with its output, refused, dropped while its permit was
-- assigned with the ticket not yet dropped, dropped while it waited, or dropped while its operation
-- ran. What the operation's handle says in the end is kept.
pub data Request : Type 0 where
  turned_away : Request
  ticketed : Request
  queueing : Request
  assigned : Request
  executing : CancelOnDrop → Request
  answered : RequestCancellation → Request
  refused : WarmExecutionError → Request
  withdrawing : Request
  withdrawn : Request
  dropped : RequestCancellation → Request

-- `try_acquire_owned`, and the guard of an operation that starts.
unfoldable pub start : Slots → Request × Slots
start s =
    if ltb 0 s.available
    then (executing new_guard, record s { available = s.available - 1 })
    else (turned_away, s)

unfoldable pub after_reserve : Slots → Result Slots WarmExecutionError → Request × Slots
after_reserve s (err error) = (refused error, s)
after_reserve s (ok s') = (ticketed, s')

-- A request goes on: it reserves a ticket, asks for a permit, or drops its ticket.
unfoldable pub go_on : WarmExecutionConfig → Request → Slots → Request × Slots
unfolding after_reserve reserve drop_ticket
go_on config turned_away s = after_reserve s (reserve config s)
go_on config ticketed s =
    if ltb 0 s.available
    then (assigned, record s { available = s.available - 1 })
    else (queueing, s)
go_on config assigned s = (executing new_guard, drop_ticket s)
go_on config withdrawing s = (withdrawn, drop_ticket s)
go_on config r s = (r, s)

-- The semaphore assigns a free permit to a request in its line.
unfoldable pub assign : Request → Slots → Request × Slots
assign queueing s =
    if ltb 0 s.available
    then (assigned, record s { available = s.available - 1 })
    else (queueing, s)
assign r s = (r, s)

-- `queue_timeout` passes while a request waits; it looks for its permit once more.
unfoldable pub time_out : Request → Slots → Request × Slots
unfolding drop_ticket
time_out queueing s = (refused queue_timeout, drop_ticket s)
time_out assigned s = (executing new_guard, drop_ticket s)
time_out r s = (r, s)

-- The operation returns.
pub complete : Request → Slots → Request × Slots
unfolding drop_permit disarm
complete (executing guard) s = (answered (disarm guard), drop_permit s)
complete r s = (r, s)

-- The future of a request is dropped at one of its awaits: with it goes its ticket, or the permit that
-- was assigned to it, and then its ticket, or its guard and its permit.
unfoldable pub drop_request : Request → Slots → Request × Slots
unfolding drop_ticket drop_permit drop_guard
drop_request queueing s = (withdrawn, drop_ticket s)
drop_request assigned s = (withdrawing, drop_permit s)
drop_request (executing guard) s = (dropped (drop_guard guard), drop_permit s)
drop_request r s = (r, s)

pub record Scheduler : Type 0 where
  pub slots : Slots
  pub requests : List Request

pub data Action : Type 0 where
  arrives : Action
  goes_on times_out completes is_dropped : ℕ → Action

-- An event at a request, which the number of those that came after it names.
unfoldable pub at : (Request → Slots → Request × Slots) → ℕ → List Request → Slots → Scheduler
at f i [] s = record { slots = s; requests = [] }
at f zero (r ∷ rs) s = let (r', s') = f r s in record { slots = s'; requests = r' ∷ rs }
at f (suc i) (r ∷ rs) s =
    let rest = at f i rs s in record { slots = rest.slots; requests = r ∷ rest.requests }

-- What happens by itself, before the semaphore gives out what came free.
unfoldable pub event : WarmExecutionConfig → Action → Scheduler → Scheduler
event config arrives s =
    let (r, slots) = start s.slots in record { slots = slots; requests = r ∷ s.requests }
event config (goes_on i) s = at (go_on config) i s.requests s.slots
event config (times_out i) s = at time_out i s.requests s.slots
event config (completes i) s = at complete i s.requests s.slots
event config (is_dropped i) s = at drop_request i s.requests s.slots

module _ (config : WarmExecutionConfig) (next : List Request → ℕ) where
  -- `next` names the request whose turn it is; a permit that is free goes to it, if it is in the line.
  unfoldable pub hand_off : Scheduler → Scheduler
  hand_off s = at assign (next s.requests) s.requests s.slots

  unfoldable pub step : Action → Scheduler → Scheduler
  step a s = hand_off (event config a s)

  unfoldable pub run : List Action → Scheduler → Scheduler
  run [] s = s
  run (a ∷ actions) s = run actions (step a s)

unfoldable pub new_scheduler : WarmExecutionConfig → Scheduler
unfolding new_slots
new_scheduler config = record { slots = new_slots config; requests = [] }
