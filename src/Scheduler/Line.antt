-- ===== src/Scheduler/Line.antt =====
-- src/scheduler.rs: nobody overtakes the requests in the semaphore's line.
use llm_wake_proxy.Base.{
  ℕ, zero, suc, ◌+◌, ◌≤◌, ◌<◌, ◌≡◌, refl, Bool, true, false, List, [], ◌∷◌, ◌⊎◌, inl, inr, arith,
}
use llm_wake_proxy.Config.Types.{WarmExecutionConfig}
use llm_wake_proxy.Scheduler.{
  Slots, Request, turned_away, ticketed, queueing, assigned, executing, withdrawing, start, go_on,
  assign, time_out, complete, drop_request, Scheduler, Action, arrives, goes_on, times_out,
  completes, is_dropped, at, event, hand_off, step, run, new_scheduler,
}

-- The requests in the line.
unfoldable pub stands : Request → ℕ
stands queueing = 1
stands _ = 0

unfoldable pub in_line : List Request → ℕ
in_line [] = 0
in_line (r ∷ rs) = stands r + in_line rs

-- Whether the i-th request stands in the line.
unfoldable pub stands_at : ℕ → List Request → Bool
stands_at i [] = false
stands_at zero (queueing ∷ rs) = true
stands_at zero (r ∷ rs) = false
stands_at (suc i) (r ∷ rs) = stands_at i rs

-- What is relied on of the semaphore: if requests stand in the line, the turn is one of theirs.
abbrev pub IsNext : (List Request → ℕ) → Type 0
IsNext next = (rs : List Request) → (stands_at (next rs) rs ≡ true) ⊎ (in_line rs ≡ 0)

-- No permit is free while a request stands in the line.
abbrev IsFair : Scheduler → Type 0
IsFair s = (s.slots.available ≡ 0) ⊎ (in_line s.requests ≡ 0)

-- An event frees one permit at most, and puts nobody in the line while one is free.
abbrev Queues : ℕ → Slots → ℕ → Slots → Type 0
Queues n s n' s' = (s'.available ≤ s.available + 1) × ((n' ≤ n) ⊎ (s'.available ≡ 0))

IsQueueing : (Request → Slots → Request × Slots) → Type 0
IsQueueing f = (r : Request) (s : Slots) → Queues (stands r) s (stands (f r s).0) (f r s).1

go_on-IsQueueing : (config : WarmExecutionConfig) → IsQueueing (go_on config)
unfolding IsQueueing go_on stands
go_on-IsQueueing config turned_away s = ground arith
go_on-IsQueueing config ticketed s = ground arith
go_on-IsQueueing config assigned s = ground arith
go_on-IsQueueing config withdrawing s = ground arith
go_on-IsQueueing config _ s = ground arith

time_out-IsQueueing : IsQueueing time_out
unfolding IsQueueing time_out stands
time_out-IsQueueing queueing s = ground arith
time_out-IsQueueing assigned s = ground arith
time_out-IsQueueing _ s = ground arith

complete-IsQueueing : IsQueueing complete
unfolding IsQueueing complete stands
complete-IsQueueing (executing g) s = ground arith
complete-IsQueueing _ s = ground arith

drop_request-IsQueueing : IsQueueing drop_request
unfolding IsQueueing drop_request stands
drop_request-IsQueueing queueing s = ground arith
drop_request-IsQueueing assigned s = ground arith
drop_request-IsQueueing (executing g) s = ground arith
drop_request-IsQueueing _ s = ground arith

at-Queues :
    (f : Request → Slots → Request × Slots) (i : ℕ) (rs : List Request) (s : Slots)
    → IsQueueing f
    → let n = at f i rs s in Queues (in_line rs) s (in_line n.requests) n.slots
unfolding IsQueueing at in_line
at-Queues f i [] s e = ground arith
at-Queues f zero (r ∷ rs) s e = ground (arith, e r s)
at-Queues f (suc i) (r ∷ rs) s e = ground (arith, at-Queues f i rs s e)

-- After an event, at most one permit is free while requests stand in the line.
abbrev IsNearlyFair : Scheduler → Type 0
IsNearlyFair s = (s.slots.available ≤ 1) ⊎ (in_line s.requests ≡ 0)

at-IsNearlyFair :
    (f : Request → Slots → Request × Slots) (i : ℕ) (s : Scheduler)
    → IsQueueing f
    → IsFair s
    → IsNearlyFair (at f i s.requests s.slots)
at-IsNearlyFair f i s e v = ground (arith, at-Queues f i s.requests s.slots e)

event-IsNearlyFair :
    (config : WarmExecutionConfig) (a : Action) (s : Scheduler)
    → IsFair s
    → IsNearlyFair (event config a s)
unfolding event start in_line stands
event-IsNearlyFair config arrives s v = ground arith
event-IsNearlyFair config (goes_on i) s v =
    at-IsNearlyFair (go_on config) i s (go_on-IsQueueing config) v
event-IsNearlyFair config (times_out i) s v = at-IsNearlyFair time_out i s time_out-IsQueueing v
event-IsNearlyFair config (completes i) s v = at-IsNearlyFair complete i s complete-IsQueueing v
event-IsNearlyFair config (is_dropped i) s v =
    at-IsNearlyFair drop_request i s drop_request-IsQueueing v

-- Assigning puts nobody in the line and frees nothing.
at-assign-less :
    (i : ℕ) (rs : List Request) (s : Slots)
    → let n = at assign i rs s in
      (in_line n.requests ≤ in_line rs) × (n.slots.available ≤ s.available)
unfolding at assign in_line stands
at-assign-less i [] s = ground arith
at-assign-less zero (queueing ∷ rs) s = ground arith
at-assign-less zero (r ∷ rs) s = ground arith
at-assign-less (suc i) (r ∷ rs) s = ground (arith, at-assign-less i rs s)

-- A single free permit goes to the request whose turn it is.
at-assign-takes :
    (i : ℕ) (rs : List Request) (s : Slots)
    → stands_at i rs ≡ true
    → s.available ≤ 1
    → (at assign i rs s).slots.available ≡ 0
unfolding at assign stands_at
at-assign-takes i [] s h k = absurd (ground (arith, h))
at-assign-takes zero (queueing ∷ rs) s h k = ground arith
at-assign-takes zero (r ∷ rs) s h k = absurd (ground (arith, h))
at-assign-takes (suc i) (r ∷ rs) s h k = at-assign-takes i rs s h k

module _ (config : WarmExecutionConfig) (next : List Request → ℕ) (is_next : IsNext next) where
  hand_off-IsFair : (s : Scheduler) → IsNearlyFair s → IsFair (hand_off config next s)
  unfolding hand_off
  hand_off-IsFair s (inr none_stands) =
      inr (omega (arith, at-assign-less (next s.requests) s.requests s.slots))
  hand_off-IsFair s (inl few) = elim (is_next s.requests) [
    | inl turn ↦ inl (at-assign-takes (next s.requests) s.requests s.slots turn few)
    | inr none_stands ↦ inr (omega (arith, at-assign-less (next s.requests) s.requests s.slots))
  ]

  run_from-IsFair :
      (actions : List Action) (s : Scheduler) → IsFair s → IsFair (run config next actions s)
  unfolding run step
  run_from-IsFair [] s v = v
  run_from-IsFair (a ∷ actions) s v =
      run_from-IsFair actions (step config next a s)
        (hand_off-IsFair (event config a s) (event-IsNearlyFair config a s v))

  -- Nobody overtakes the line: after any history, on any number of threads, if the semaphore assigns a
  -- free permit to a request in its line whenever there is one, a request that arrives while another
  -- stands in the line finds no free permit and is turned away at first.
  pub run-turned_away :
      (actions : List Action)
      → let s = run config next actions (new_scheduler config) in
        0 < in_line s.requests → (start s.slots).0 ≡ turned_away
  unfolding new_scheduler start in_line
  run-turned_away actions h = elim (run_from-IsFair actions (new_scheduler config) (inr refl)) [
    | inl taken ↦ rw taken refl
    | inr none_stands ↦ absurd (omega arith)
  ]
