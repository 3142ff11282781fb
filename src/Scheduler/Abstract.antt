-- ===== src/Scheduler/Abstract.antt =====
-- What WarmExecutionScheduler promises, without the requests and what they are about to do: a server
-- that has so many permits out and so many tickets, and says what happens at each event.
pub mod Refinement
use llm_wake_proxy.Base.{ℕ, ◌+◌, ◌≤◌, ◌<◌, ◌≡◌, refl, List, [], ◌∷◌, arith}
use llm_wake_proxy.Config.Types.{WarmExecutionConfig}

-- The permits and the tickets that are out.
pub record Load : Type 0 where
  pub running : ℕ
  pub waiting : ℕ

abbrev pub idle : Load
idle = record { running = 0; waiting = 0 }

-- What an event comes to.
pub data Label : Type 0 where
  admitted turned_away enqueued rejected promoted left finished silent : Label

pub data Step (config : WarmExecutionConfig) (l l' : Load) : Label → Type 0 where
  admit :
      l.running < config.max_active_requests
      → l' ≡ record l { running = l.running + 1 }
      → Step config l l' admitted
  turn_away : l.running ≡ config.max_active_requests → l' ≡ l → Step config l l' turned_away
  enqueue :
      l.waiting < config.max_queued_requests
      → l'.waiting ≡ l.waiting + 1
      → l'.running ≡ l.running
      → Step config l l' enqueued
  reject : l.waiting ≡ config.max_queued_requests → l' ≡ l → Step config l l' rejected
  promote :
      l.running < config.max_active_requests
      → l'.waiting ≡ l.waiting
      → l'.running ≡ l.running + 1
      → Step config l l' promoted
  leave : l.waiting ≡ l'.waiting + 1 → l'.running ≡ l.running → Step config l l' left
  finish : l.running ≡ l'.running + 1 → l'.waiting ≡ l.waiting → Step config l l' finished
  stay : l' ≡ l → Step config l l' silent

pub data Trace (config : WarmExecutionConfig) : List Label → Load → Load → Type 0 where
  done : (l : Load) → Trace config [] l l
  then_ :
      {x : Label} {xs : List Label} {l m n : Load}
      → Step config l m x
      → Trace config xs m n
      → Trace config (x ∷ xs) l n

-- The bounds that a server keeps.
pub record IsWithin (config : WarmExecutionConfig) (l : Load) : Type 0 where
  pub running : l.running ≤ config.max_active_requests
  pub waiting : l.waiting ≤ config.max_queued_requests

Step-IsWithin :
    {config : WarmExecutionConfig} {l l' : Load} {x : Label}
    → Step config l l' x
    → IsWithin config l
    → IsWithin config l'
Step-IsWithin (admit h e) w = rw e (record { running = omega arith; waiting = w.waiting })
Step-IsWithin (turn_away f e) w = rw e w
Step-IsWithin (enqueue h e f) w = record { running = omega arith; waiting = omega arith }
Step-IsWithin (reject f e) w = rw e w
Step-IsWithin (promote h e f) w = record { running = omega arith; waiting = omega arith }
Step-IsWithin (leave e f) w = record { running = omega arith; waiting = omega arith }
Step-IsWithin (finish e f) w = record { running = omega arith; waiting = omega arith }
Step-IsWithin (stay e) w = rw e w

pub Trace-IsWithin :
    {config : WarmExecutionConfig} {xs : List Label} {l n : Load}
    → Trace config xs l n
    → IsWithin config l
    → IsWithin config n
Trace-IsWithin (done l) w = w
Trace-IsWithin (then_ s p) w = Trace-IsWithin p (Step-IsWithin s w)
