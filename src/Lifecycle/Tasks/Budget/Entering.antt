-- ===== src/Lifecycle/Tasks/Budget/Entering.antt =====
-- src/lifecycle.rs, LifecycleManager::ensure_backend: every request returns.
use llm_wake_proxy.Base.{
  ℕ, ◌≡◌, refl, true, false, not, ◌&&◌, Option, none, some, List, [], ◌∷◌, inl, inr, Bool-cases,
  ◌++◌, if◌then◌else◌, subst, Bool,
}
use llm_wake_proxy.Lifecycle.Types.{
  BackendStatus, LifecycleRequest, LifecycleError, LifecycleDecision, LifecycleTiming, Services,
  Core, backend_is_ready,
}
use llm_wake_proxy.Lifecycle.Observe.{observe_once}
use llm_wake_proxy.Lifecycle.Bootstrap.{start_or_join, start_or_join_bootstrap, wait_deadline_of}
use llm_wake_proxy.Lifecycle.Tasks.{
  waiting, returned, joining, entered, borrowed, settling, advance, after_join, after_lead,
}
use llm_wake_proxy.Lifecycle.Tasks.Budget.{
  has_returned, steps, AllLate, steps-has_returned, waiting-returned,
}

module _ {W : Type 0} (sv : Services W) (timing : LifecycleTiming) where
  -- A request that joins a running bootstrap waits from then on.
  joining-returned :
      (request : LifecycleRequest) (initial : BackendStatus) (c : Core W) (early : List (Core W))
      (c₁ c₂ c₃ : Core W) (cs : List (Core W))
      → c.bootstrap.active ≡ true
      → AllLate sv timing (wait_deadline_of sv timing c) (c₁ ∷ c₂ ∷ c₃ ∷ cs)
      → has_returned (steps sv timing (c ∷ (early ++ c₁ ∷ c₂ ∷ c₃ ∷ cs)) (joining request initial))
        ≡ true
  unfolding steps advance after_join start_or_join_bootstrap start_or_join wait_deadline_of
  joining-returned request initial c early c₁ c₂ c₃ cs active late = rw active (
      waiting-returned sv timing (wait_deadline_of sv timing c) early c₁ c₂ c₃ cs
        (waiting (wait_deadline_of sv timing c)) refl late)

  settling-returned :
      (status : BackendStatus) (error : Option LifecycleError) (d : LifecycleDecision)
      (early : List (Core W)) (c : Core W) (cs : List (Core W))
      → has_returned (steps sv timing (early ++ c ∷ cs) (settling status error d)) ≡ true
  unfolding steps advance
  settling-returned status error d [] c cs = steps-has_returned sv timing cs (returned d) refl
  settling-returned status error d (e ∷ early) c cs =
      steps-has_returned sv timing (early ++ c ∷ cs) (returned d) refl

  -- After its look at the host, the request that leads settles, or waits from then on.
  after_lead-returned :
      (deadline : ℕ) (out : LifecycleDecision × Core W) (early : List (Core W)) (c₁ c₂ c₃ : Core W)
      (cs : List (Core W))
      → AllLate sv timing deadline (c₁ ∷ c₂ ∷ c₃ ∷ cs)
      → has_returned (steps sv timing (early ++ c₁ ∷ c₂ ∷ c₃ ∷ cs) (after_lead deadline out).task)
        ≡ true
  unfolding after_lead
  after_lead-returned deadline (LifecycleDecision.ready st, c) early c₁ c₂ c₃ cs late =
      settling-returned c.status none (LifecycleDecision.ready st) early c₁ (c₂ ∷ c₃ ∷ cs)
  after_lead-returned deadline (LifecycleDecision.failed st e, c) early c₁ c₂ c₃ cs late =
      settling-returned st (some e) (LifecycleDecision.failed st e) early c₁ (c₂ ∷ c₃ ∷ cs)
  after_lead-returned deadline (LifecycleDecision.warming st r, c) early c₁ c₂ c₃ cs late =
      waiting-returned sv timing deadline early c₁ c₂ c₃ cs (waiting deadline) refl late

  -- The end of the look at the host, if it is this request that looks.
  abbrev pub looked_at : LifecycleRequest → BackendStatus → Core W → Core W → Core W
  looked_at request initial at_lead at_look =
      (observe_once sv timing (some request) at_lead.bootstrap.observe_request initial at_look).1

  leading-returned :
      (request : LifecycleRequest) (initial : BackendStatus) (c d e : Core W)
      (early : List (Core W)) (c₁ c₂ c₃ : Core W) (cs : List (Core W))
      → c.bootstrap.active ≡ false
      → AllLate sv timing
          (wait_deadline_of sv timing (looked_at request initial d e))
          (c₁ ∷ c₂ ∷ c₃ ∷ cs)
      → has_returned
          (steps sv timing (c ∷ d ∷ e ∷ (early ++ c₁ ∷ c₂ ∷ c₃ ∷ cs)) (joining request initial))
        ≡ true
  unfolding steps advance after_join start_or_join_bootstrap start_or_join
  leading-returned request initial c d e early c₁ c₂ c₃ cs idle late =
      rw idle (after_lead-returned _ _ early c₁ c₂ c₃ cs late)

  -- The fast path, or the request goes on to join.
  borrowed-returned :
      (request : LifecycleRequest) (initial : BackendStatus) (b : Core W) (cs : List (Core W))
      → has_returned (steps sv timing cs (joining request initial)) ≡ true
      → has_returned (steps sv timing (b ∷ cs) (borrowed request initial)) ≡ true
  unfolding steps advance
  borrowed-returned request initial b cs h =
      elim (Bool-cases (not b.bootstrap.active && backend_is_ready initial)) [
        | inl fast ↦
            rw fast
              (steps-has_returned sv timing cs (returned (LifecycleDecision.ready initial)) refl)
        | inr slow ↦ rw slow h
      ]

  -- The end of the cold-wait budget: of a request that joins a running bootstrap from then on, of one
  -- that leads from the end of its look at the host.
  abbrev pub budget_end : LifecycleRequest → BackendStatus → Core W → Core W → Core W → ℕ
  budget_end request initial at_join at_lead at_look =
      if at_join.bootstrap.active
      then wait_deadline_of sv timing at_join
      else wait_deadline_of sv timing (looked_at request initial at_lead at_look)

  -- Every request returns: at the latest with its third step after the cold-wait budget, counted from
  -- when it joined a running bootstrap, or from the end of its own look at the host if it leads. That
  -- holds whatever steps it made before, and whatever the other tasks, the services and the clients
  -- did between its steps.
  pub entered-returned :
      (request : LifecycleRequest) (a b c d e : Core W) (early : List (Core W)) (c₁ c₂ c₃ : Core W)
      (cs : List (Core W))
      → AllLate sv timing (budget_end request a.status c d e) (c₁ ∷ c₂ ∷ c₃ ∷ cs)
      → has_returned
          (steps sv timing (a ∷ b ∷ c ∷ d ∷ e ∷ (early ++ c₁ ∷ c₂ ∷ c₃ ∷ cs)) (entered request))
        ≡ true
  unfolding steps advance
  entered-returned request a b c d e early c₁ c₂ c₃ cs late =
      let joined = wait_deadline_of sv timing c in
      let led = wait_deadline_of sv timing (looked_at request a.status d e) in
      let late_at =
        λ (active : Bool). AllLate sv timing (if active then joined else led) (c₁ ∷ c₂ ∷ c₃ ∷ cs) in
      borrowed-returned request a.status b (c ∷ d ∷ e ∷ (early ++ c₁ ∷ c₂ ∷ c₃ ∷ cs))
        (elim (Bool-cases c.bootstrap.active) [
          | inl active ↦
              joining-returned request a.status c (d ∷ e ∷ early) c₁ c₂ c₃ cs active
                (subst late_at active late)
          | inr idle ↦
              leading-returned request a.status c d e early c₁ c₂ c₃ cs idle
                (subst late_at idle late)
        ])
