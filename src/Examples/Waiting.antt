-- ===== src/Examples/Waiting.antt =====
-- A waiting request at concrete inputs.

use llm_wake_proxy.Base.{ℕ, ◌++◌, ◌≡◌, true, List, [], ◌∷◌, arith}
use llm_wake_proxy.Lifecycle.Types.{LifecycleRequest, default_status, Core, default_bootstrap}
use llm_wake_proxy.Lifecycle.Bootstrap.{wait_deadline_of}
use llm_wake_proxy.Lifecycle.Tasks.{entered}
use llm_wake_proxy.Lifecycle.Tasks.Budget.{has_returned, steps, AllLate}
use llm_wake_proxy.Lifecycle.Tasks.Budget.Entering.{budget_end, entered-returned}
use llm_wake_proxy.Examples.World.{sample_timing, sample_services, cold_core}

-- The core that a request finds while another one leads.
abbrev led_core : Core ℕ
led_core = record cold_core { bootstrap = record default_bootstrap { active = true } }

-- Much later.
abbrev dawn : Core ℕ
dawn = record led_core { world = 10000000 }

abbrev dawns : List (Core ℕ)
dawns = dawn ∷ dawn ∷ dawn ∷ []

dawns_late :
    AllLate sample_services sample_timing
      (budget_end sample_services sample_timing LifecycleRequest.chat default_status led_core
        led_core led_core)
      dawns
unfolding wait_deadline_of
dawns_late = omega arith

entered-returned_example :
    has_returned (
      steps sample_services sample_timing
        (cold_core
          ∷ cold_core
          ∷ led_core
          ∷ led_core
          ∷ led_core
          ∷ ((led_core ∷ cold_core ∷ []) ++ dawns))
        (entered LifecycleRequest.chat))
    ≡ true
entered-returned_example =
    entered-returned sample_services sample_timing LifecycleRequest.chat cold_core cold_core
      led_core led_core led_core (led_core ∷ cold_core ∷ []) dawn dawn dawn [] dawns_late
