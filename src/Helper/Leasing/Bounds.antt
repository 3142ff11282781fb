-- ===== src/Helper/Leasing/Bounds.antt =====
-- src/helper.rs, the lease that keeps the host awake.
use Prim.Native.String.{String}
use text.Mathlib.Text.{◌==◌ as str_eq}
use llm_wake_proxy.Base.{
  ℕ, ◌≤◌, ◌≡◌, refl, Bool, true, false, some, Result, ok, err, ◌⊎◌, inl, inr, arith, ◌∙◌,
  Bool-cases, ok_or, min, max, [], ◌∷◌,
}
use llm_wake_proxy.Http.{to_text}
use llm_wake_proxy.Helper.Types.{
  UnitInfo, LeaseAcquireResponse, Machine, ModelsJson, HelperConfig, is_ok_status,
}
use llm_wake_proxy.Helper.{unit_of_result, collect_unit_info}
use llm_wake_proxy.Helper.Leasing.{is_verified_active, clamp_ttl, after_replace, lease_acquire}

module _ {W V : Type 0} (machine : Machine W) (json : ModelsJson V) (config : HelperConfig) where
  -- What comes of replacing the lease's unit by one that sleeps so long, after the look at the unit
  -- that was there before.
  abbrev pub replaced : ℕ → W → Result (Unit {0}) String × W
  replaced ttl_secs w =
      machine.replace_transient_unit config.inhibit_holder_unit "llm-wake-proxy inhibit holder"
        ("systemd-inhibit"
          ∷ "--what=sleep"
          ∷ "--who=llm-wake-proxy"
          ∷ "--why=Keep awake for active proxy session"
          ∷ "sleep"
          ∷ to_text ttl_secs
          ∷ [])
        (machine.is_active config.inhibit_holder_unit w).1

  -- The unit that sleeps for the time of the answer was put in place, and in the world that this
  -- left it was looked at and is active: that is the unit of the answer, after which nothing is done.
  abbrev pub IsHeld : W → LeaseAcquireResponse × W → Type 0
  IsHeld w (r, w') =
      (u : UnitInfo) × ((replaced r.ttl_secs w).0 ≡ ok tt)
      × (r.inhibit_holder ≡ some u)
      × (str_eq u.active_state "active" ≡ true)
      × (collect_unit_info machine json config.inhibit_holder_unit (replaced r.ttl_secs w).1
          ≡ (some u, w'))

  pub record IsLease (asked : ℕ) (w : W) (out : LeaseAcquireResponse × W) : Type 0 where
    pub bounds : (60 ≤ out.0.ttl_secs) × (out.0.ttl_secs ≤ 86400)
    pub clamped : out.0.ttl_secs ≡ max 60 (min asked 86400)
    pub held : (is_ok_status out.0.status ≡ false) ⊎ IsHeld w out
    pub renewal :
        (out.0.renewed ≡ false)
        ⊎ ((is_ok_status out.0.status ≡ true)
            × (ok_or (machine.is_active config.inhibit_holder_unit w).0 false ≡ true))

  after_replace-IsLease :
      (asked : ℕ) (was_active : Bool) (w : W) (out : Result (Unit {0}) String × W)
      → replaced (clamp_ttl asked) w ≡ out
      → ok_or (machine.is_active config.inhibit_holder_unit w).0 false ≡ was_active
      → IsLease asked w (after_replace machine json config (clamp_ttl asked) was_active out)
  unfolding after_replace clamp_ttl collect_unit_info is_verified_active
  after_replace-IsLease asked was_active w (ok done, w') f e =
      let unit =
        unit_of_result config.inhibit_holder_unit
          (machine.show_unit config.inhibit_holder_unit w').0 in
      elim (Bool-cases (str_eq unit.active_state "active")) [
        | inl active ↦ rw active (record {
          bounds = (omega arith, omega arith);
          clamped = refl;
          held = inr (unit, rw f refl, refl, active, rw f refl);
          renewal = elim (Bool-cases was_active) [
            | inl was ↦ inr (refl, e ∙ was)
            | inr was ↦ inl was
          ];
        })
        | inr idle ↦ rw idle (record {
          bounds = (omega arith, omega arith);
          clamped = refl;
          held = inl refl;
          renewal = inl refl;
        })
      ]
  after_replace-IsLease asked was_active w (err m, w') f e = record {
    bounds = (omega arith, omega arith);
    clamped = refl;
    held = inl refl;
    renewal = inl refl;
  }

  -- The lease's time is the one asked for, clamped to a minute and a day. The answer is Ok only if the
  -- lease's unit was replaced by one that sleeps for that time, and the unit, looked at in the world
  -- that this left, is active and is the one in the answer. It says renewed only if it is Ok and the
  -- unit was active before.
  pub lease_acquire-IsLease :
      (asked : ℕ) (w : W) → IsLease asked w (lease_acquire machine json config asked w)
  unfolding lease_acquire
  lease_acquire-IsLease asked w =
      after_replace-IsLease asked _ w (replaced (clamp_ttl asked) w) refl refl
