-- ===== src/Scheduler/Abstract/Refinement.antt =====
-- src/scheduler.rs keeps the promise of Scheduler/Abstract: permits and tickets are counted, and each
-- event is the step that its label says.
use llm_wake_proxy.Base.{ℕ, zero, suc, ◌+◌, ◌<◌, ◌≤◌, ◌≡◌, List, [], ◌∷◌}
use llm_wake_proxy.Config.Types.{WarmExecutionConfig}
use llm_wake_proxy.Scheduler.{
  Slots, Request, ticketed, queueing, assigned, executing, answered, refused, withdrawing,
  withdrawn, dropped, start, go_on, assign, time_out, complete, drop_request, Scheduler, Action,
  arrives, goes_on, times_out, completes, is_dropped, event, step,
}
use llm_wake_proxy.Scheduler.Bounds.{holds_permit, holds_ticket, active, waiting}
use llm_wake_proxy.Scheduler.Abstract.{
  Load, Label, admitted, enqueued, rejected, promoted, left, finished, silent,
}

-- The view that forgets the requests.
unfoldable pub load : Scheduler → Load
load s = record { running = active s.requests; waiting = waiting s.requests }

-- What became of a request that arrived.
unfoldable pub arrival : Request → Label
arrival (executing g) = admitted
arrival Request.turned_away = Label.turned_away
arrival _ = silent

-- What an event did to a request.
unfoldable pub moved : Request → Request → Label
moved Request.turned_away ticketed = enqueued
moved Request.turned_away (refused e) = rejected
moved ticketed assigned = promoted
moved queueing assigned = promoted
moved queueing (refused e) = left
moved queueing withdrawn = left
moved assigned (executing g) = left
moved assigned withdrawing = finished
moved withdrawing withdrawn = left
moved (executing g) (answered c) = finished
moved (executing g) (dropped c) = finished
moved r r' = silent

unfoldable pub label_at : (Request → Slots → Request × Slots) → ℕ → List Request → Slots → Label
label_at f i [] s = silent
label_at f zero (r ∷ rs) s = moved r (f r s).0
label_at f (suc i) (r ∷ rs) s = label_at f i rs s

unfoldable pub label : WarmExecutionConfig → Action → Scheduler → Label
label config arrives s = arrival (start s.slots).0
label config (goes_on i) s = label_at (go_on config) i s.requests s.slots
label config (times_out i) s = label_at time_out i s.requests s.slots
label config (completes i) s = label_at complete i s.requests s.slots
label config (is_dropped i) s = label_at drop_request i s.requests s.slots

module _ (config : WarmExecutionConfig) where
  -- How an event at one request changes the numbers of permits and tickets that are out.
  abbrev Changes : Slots → Label → ℕ → ℕ → ℕ → ℕ → Type 0
  Changes s admitted a w a' w' = ⊥
  Changes s Label.turned_away a w a' w' = ⊥
  Changes s enqueued a w a' w' = (s.queued < config.max_queued_requests) × (a' ≡ a) × (w' ≡ w + 1)
  Changes s rejected a w a' w' = (config.max_queued_requests ≤ s.queued) × (a' ≡ a) × (w' ≡ w)
  Changes s promoted a w a' w' = (0 < s.available) × (a' ≡ a + 1) × (w' ≡ w)
  Changes s left a w a' w' = (a' ≡ a) × (w ≡ w' + 1)
  Changes s finished a w a' w' = (a ≡ a' + 1) × (w' ≡ w)
  Changes s silent a w a' w' = (a' ≡ a) × (w' ≡ w)

  IsEvent : (Request → Slots → Request × Slots) → Type 0
  IsEvent f =
      (r : Request) (s : Slots)
      → Changes s (moved r (f r s).0) (holds_permit r) (holds_ticket r) (holds_permit (f r s).0)
          (holds_ticket (f r s).0)

module _ (config : WarmExecutionConfig) (next : List Request → ℕ) where
  -- What an event comes to, and then what the semaphore does with a free permit.
  unfoldable pub labels : List Action → Scheduler → List Label
  labels [] s = []
  labels (a ∷ actions) s =
      let t = event config a s in
      label config a s
      ∷ label_at assign (next t.requests) t.requests t.slots
      ∷ labels actions (step config next a s)
