-- ===== src/Helper/Answers.antt =====
-- src/helper.rs, ensure_started: what its answer may be trusted for.
use Prim.Native.String.{String}
use llm_wake_proxy.Base.{
  ℕ, suc, ◌*◌, ◌≤◌, ◌≡◌, refl, arith, Bool, true, false, Option, none, some, Result, ok, err, ◌⊎◌,
  inl, inr, Bool-cases, ok_or, ap,
}
use llm_wake_proxy.Helper.Types.{
  HelperStatus, Target, UnitInfo, EnsureStartedResponse, Machine, ModelsJson, HelperConfig,
  unit_for, port_for, is_ok_status,
}
use llm_wake_proxy.Helper.{
  collect_unit_info, is_same_model, check_model_identity, wait_for_server, answer, after_identity,
  after_waiting, wait_then_verify, after_start, ensure_started, unit_of_result, unit_of_properties,
  fallback,
}
use llm_wake_proxy.Helper.Waiting.{IsTicking, wait_for_server-IsWaited}

module _ {W V : Type 0} (machine : Machine W) (json : ModelsJson V) (config : HelperConfig)
    (target : Target) (model_alias model_path : String) where
  -- The server was asked and named a model that is the expected one, and nothing came after that but
  -- the look at the unit, which led to the world `w'`.
  abbrev pub IsVerified : W → Type 0
  IsVerified w' =
      (reported_id : String) × (w : W) × ((check_model_identity machine json
          (port_for config target) w).0
        ≡ ok (some reported_id))
      × (is_same_model reported_id model_path ≡ true)
      × ((collect_unit_info machine json (unit_for config target)
            (check_model_identity machine json (port_for config target) w).1).1
          ≡ w')

  pub record IsHonest (r : EnsureStartedResponse) (w' : W) : Type 0 where
    pub echoed : (r.model_alias ≡ model_alias) × (r.model_path ≡ model_path)
    pub unit : (u : UnitInfo) × (r.llama_server ≡ some u) × (u.unit_name ≡ unit_for config target)
    pub verdict : is_ok_status r.status ≡ r.model_verified
    pub verified :
        (r.model_verified ≡ false)
        ⊎ ((r.model_verified ≡ true) × (r.server_ready ≡ true) × IsVerified w')

  unit_of_result-name :
      (unit : String) (r : Result (String → Option String) String)
      → (unit_of_result unit r).unit_name ≡ unit
  unfolding unit_of_result unit_of_properties
  unit_of_result-name unit (ok props) = refl
  unit_of_result-name unit (err e) = refl

  answer-IsHonest :
      (s : HelperStatus) (text : String) (triggered ready verified : Bool) (instead : UnitInfo)
      (w : W)
      → is_ok_status s ≡ verified
      → let out =
          answer machine json config target model_alias model_path s text triggered ready verified
            instead w in
        (verified ≡ false) ⊎ ((verified ≡ true) × (ready ≡ true) × IsVerified out.1)
        → IsHonest out.0 out.1
  unfolding answer collect_unit_info
  answer-IsHonest s text triggered ready verified instead w v h = record {
    echoed = (refl, refl);
    unit = (_, refl, unit_of_result-name _ _);
    verdict = v;
    verified = h;
  }

  after_identity-IsHonest :
      (triggered : Bool) (r : Result (Option String) String) (w w' : W)
      → check_model_identity machine json (port_for config target) w ≡ (r, w')
      → let out = after_identity machine json config target model_alias model_path triggered r w' in
        IsHonest out.0 out.1
  unfolding after_identity
  after_identity-IsHonest triggered (ok (some reported_id)) w w' e =
      elim (Bool-cases (is_same_model reported_id model_path)) [
        | inl same ↦ rw same (
            answer-IsHonest HelperStatus.ok _ triggered true true
              (fallback (unit_for config target) "active" "running" "") w' refl
              (inr (
                refl,
                refl,
                (
                  reported_id,
                  w,
                  ap (λ (out : Result (Option String) String × W). out.0) e,
                  same,
                  ap
                      (λ (out : Result (Option String) String × W).
                        (collect_unit_info machine json (unit_for config target) out.1).1)
                      e,
                ),
              )))
        | inr other ↦ rw other (
            answer-IsHonest HelperStatus.mismatch _ triggered true false
              (fallback (unit_for config target) "active" "running" "") w' refl (inl refl))
      ]
  after_identity-IsHonest triggered (ok none) w w' e =
      answer-IsHonest HelperStatus.error _ triggered true false
        (fallback (unit_for config target) "active" "running" "") w' refl (inl refl)
  after_identity-IsHonest triggered (err m) w w' e =
      answer-IsHonest HelperStatus.error _ triggered true false
        (fallback (unit_for config target) "unknown" "model_identity_check_error" m) w' refl
        (inl refl)

  -- The helper answers, and honestly.
  abbrev pub IsAnswered : Option (EnsureStartedResponse × W) → Type 0
  IsAnswered out = (r : EnsureStartedResponse × W) × (out ≡ some r) × IsHonest r.0 r.1

  after_waiting-IsAnswered :
      (triggered : Bool) (o : Option Bool) (w : W)
      → (o ≡ some true) ⊎ (o ≡ some false)
      → IsAnswered
          (after_waiting machine json config target model_alias model_path triggered (o, w))
  unfolding after_waiting
  after_waiting-IsAnswered triggered none w h = ground arith
  after_waiting-IsAnswered triggered (some true) w h =
      let (r, w') = check_model_identity machine json (port_for config target) w in
      (_, refl, after_identity-IsHonest triggered r w w' refl)
  after_waiting-IsAnswered triggered (some false) w h = (
    _,
    refl,
    answer-IsHonest HelperStatus.error _ triggered false false
        (fallback (unit_for config target) "unknown" "server_not_responding" "") w refl (inl refl),
  )

  wait_then_verify-IsAnswered :
      IsTicking machine
      → (k : ℕ) (triggered : Bool) (w : W) → 2 * config.server_start_timeout_secs ≤ k
      → IsAnswered
          (wait_then_verify machine json config target model_alias model_path (suc k) triggered w)
  unfolding wait_then_verify
  wait_then_verify-IsAnswered ticking k triggered w h =
      let port = port_for config target in
      let limit = config.server_start_timeout_secs in
      let out = wait_for_server machine json (suc k) port limit w in
      after_waiting-IsAnswered triggered out.0 out.1
        (elim (wait_for_server-IsWaited machine json ticking k port limit w h) [
          | inl (u, alive, same, early, e) ↦ inl e
          | inr (e, late) ↦ inr e
        ])

  after_start-IsAnswered :
      IsTicking machine
      → (k : ℕ) (started : Result (Unit {0}) String) (w : W)
      → 2 * config.server_start_timeout_secs ≤ k
      → IsAnswered
          (after_start machine json config target model_alias model_path (suc k) (started, w))
  unfolding after_start
  after_start-IsAnswered ticking k (ok done) w h = wait_then_verify-IsAnswered ticking k true w h
  after_start-IsAnswered ticking k (err m) w h = (
    _,
    refl,
    record { echoed = (refl, refl); unit = (_, refl, refl); verdict = refl; verified = inl refl },
  )

  -- Over a clock that ticks, with more rounds of fuel than half seconds in the timeout,
  -- `ensure_started` answers. The answer repeats the alias and the path and names the target's unit; its
  -- status is Ok exactly if it says that the model is verified, and then the server is ready and was
  -- asked, on the target's port, just before the last look at the unit, and reported an id that contains
  -- the expected path or is contained in it.
  pub ensure_started-IsAnswered :
      IsTicking machine
      → (k : ℕ) (w : W) → 2 * config.server_start_timeout_secs ≤ k
      → IsAnswered (ensure_started machine json config target model_alias model_path (suc k) w)
  unfolding ensure_started
  ensure_started-IsAnswered ticking k w h =
      let (r, w') = machine.is_active (unit_for config target) w in
      elim (Bool-cases (ok_or r false)) [
        | inl e ↦ rw e (wait_then_verify-IsAnswered ticking k false w' h)
        | inr e ↦
            let started = machine.start_unit (unit_for config target) w' in
            rw e (after_start-IsAnswered ticking k started.0 started.1 h)
      ]
