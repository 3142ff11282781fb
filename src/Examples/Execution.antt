-- ===== src/Examples/Execution.antt =====
-- The scheduler at concrete inputs.

use llm_wake_proxy.Base.{ℕ, suc, ◌<◌, inl, inr, arith, ◌≡◌, refl, ◌∷◌, List, []}
use llm_wake_proxy.Scheduler
use llm_wake_proxy.Scheduler.Bounds.{IsConserved, run-IsConserved}
use llm_wake_proxy.Scheduler.Cancelling.{AllTold, run-AllTold}
use llm_wake_proxy.Scheduler.Abstract.{Label}
use llm_wake_proxy.Scheduler.Abstract.Refinement.{labels, label, label_at, arrival, moved}
use llm_wake_proxy.Scheduler.Line.{IsNext, in_line, stands, stands_at, run-turned_away}
use llm_wake_proxy.Examples.World.{small_execution}

-- The newest request in the line: the number is right for lines of one.
abbrev first_in_line : List Scheduler.Request → ℕ
first_in_line [] = 0
first_in_line (Scheduler.queueing ∷ rs) = 0
first_in_line (r ∷ rs) = suc (first_in_line rs)

-- One request executes, one waits and a third is refused; then the first is dropped, and the second
-- is assigned its permit. Before it takes it, a fourth arrives, which is refused: the ticket is still
-- out. The newest request has the number 0.
abbrev crowd : List Scheduler.Action
crowd =
    Scheduler.arrives
    ∷ Scheduler.arrives
    ∷ Scheduler.goes_on 0
    ∷ Scheduler.goes_on 0
    ∷ Scheduler.is_dropped 1
    ∷ Scheduler.arrives
    ∷ Scheduler.goes_on 0
    ∷ Scheduler.goes_on 1
    ∷ []

run-IsConserved_example :
    IsConserved small_execution
      (Scheduler.run small_execution first_in_line crowd (Scheduler.new_scheduler small_execution))
run-IsConserved_example = run-IsConserved small_execution first_in_line crowd

run-AllTold_example :
    AllTold
      (Scheduler.run small_execution first_in_line crowd
        (Scheduler.new_scheduler small_execution)).requests
run-AllTold_example = run-AllTold small_execution first_in_line crowd

labels-crowd :
    labels small_execution first_in_line crowd (Scheduler.new_scheduler small_execution)
    ≡ Label.admitted ∷ Label.silent ∷ Label.turned_away ∷ Label.silent ∷ Label.enqueued
      ∷ Label.silent ∷ Label.silent ∷ Label.silent ∷ Label.finished ∷ Label.promoted
      ∷ Label.turned_away ∷ Label.silent ∷ Label.rejected ∷ Label.silent ∷ Label.left ∷ Label.silent
      ∷ []
unfolding labels label label_at arrival moved Scheduler.step Scheduler.event Scheduler.hand_off
    Scheduler.new_scheduler Scheduler.start Scheduler.go_on Scheduler.assign Scheduler.drop_request
    Scheduler.at Scheduler.reserve Scheduler.after_reserve Scheduler.drop_ticket
labels-crowd = refl

first_in_line-IsNext : IsNext first_in_line
unfolding stands_at in_line stands
first_in_line-IsNext [] = inr refl
first_in_line-IsNext (Scheduler.queueing ∷ rs) = inl refl
first_in_line-IsNext (Scheduler.turned_away ∷ rs) = ground (arith, first_in_line-IsNext rs)
first_in_line-IsNext (Scheduler.ticketed ∷ rs) = ground (arith, first_in_line-IsNext rs)
first_in_line-IsNext (Scheduler.assigned ∷ rs) = ground (arith, first_in_line-IsNext rs)
first_in_line-IsNext (Scheduler.executing g ∷ rs) = ground (arith, first_in_line-IsNext rs)
first_in_line-IsNext (Scheduler.answered c ∷ rs) = ground (arith, first_in_line-IsNext rs)
first_in_line-IsNext (Scheduler.refused e ∷ rs) = ground (arith, first_in_line-IsNext rs)
first_in_line-IsNext (Scheduler.withdrawing ∷ rs) = ground (arith, first_in_line-IsNext rs)
first_in_line-IsNext (Scheduler.withdrawn ∷ rs) = ground (arith, first_in_line-IsNext rs)
first_in_line-IsNext (Scheduler.dropped c ∷ rs) = ground (arith, first_in_line-IsNext rs)

-- One executes, and one waits in the line.
abbrev pair : List Scheduler.Action
pair = Scheduler.arrives ∷ Scheduler.arrives ∷ Scheduler.goes_on 0 ∷ Scheduler.goes_on 0 ∷ []

one_stands :
    0
    < in_line
        (Scheduler.run small_execution first_in_line pair
          (Scheduler.new_scheduler small_execution)).requests
unfolding Scheduler.step Scheduler.event Scheduler.hand_off Scheduler.new_scheduler Scheduler.start
    Scheduler.go_on Scheduler.assign Scheduler.at Scheduler.reserve Scheduler.after_reserve
    Scheduler.run in_line stands
one_stands = omega arith

run-turned_away_example :
    (Scheduler.start
      (Scheduler.run small_execution first_in_line pair
        (Scheduler.new_scheduler small_execution)).slots).0
    ≡ Scheduler.turned_away
run-turned_away_example =
    run-turned_away small_execution first_in_line first_in_line-IsNext pair one_stands
