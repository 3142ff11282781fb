-- ===== src/Helper/Leasing.antt =====
-- src/helper.rs: the lease that keeps the host awake, a transient unit of systemd.
pub mod Bounds
use Prim.Native.String
use Prim.Native.String.{String}
use text.Mathlib.Text.{◌==◌ as str_eq}
use llm_wake_proxy.Base.{
  ℕ, zero, suc, ◌+◌, ◌*◌, Bool, true, false, ◌||◌, Option, none, some, List, [], ◌∷◌, Result, ok,
  err, is_ok, ok_or, and_then, unwrap_or, leb, min, max, if◌then◌else◌, contains, codes,
  from_str_radix,
}
use llm_wake_proxy.Http.{to_text}
use llm_wake_proxy.Config.{Env, u16_max, u64_max}
use llm_wake_proxy.Helper.Types.{
  HelperStatus, Target, UnitInfo, ModelInfo, StatusResponse, EnsureStartedResponse,
  LeaseAcquireResponse, LeaseResponse, Properties, Machine, ModelsJson, HelperConfig, unit_for,
  port_for,
}
use llm_wake_proxy.Helper.{collect_unit_info, unit_of_properties}

is_verified_active : Option UnitInfo → Bool
is_verified_active none = false
is_verified_active (some unit) = str_eq unit.active_state "active"

-- `ttl_secs.clamp(60, 86_400)`
unfoldable pub clamp_ttl : ℕ → ℕ
clamp_ttl ttl_secs = max 60 (min ttl_secs 86400)

abbrev pub lease_args : ℕ → List String
lease_args ttl_secs =
    "systemd-inhibit"
    ∷ "--what=sleep"
    ∷ "--who=llm-wake-proxy"
    ∷ "--why=Keep awake for active proxy session"
    ∷ "sleep"
    ∷ to_text ttl_secs
    ∷ []

module _ {W V : Type 0} (machine : Machine W) (json : ModelsJson V) where
  after_replace : HelperConfig → ℕ → Bool → Result (Unit {0}) String × W → LeaseAcquireResponse × W
  unfolding collect_unit_info is_verified_active
  after_replace config ttl_secs was_active (ok done, w) =
      let (unit, w') = collect_unit_info machine json config.inhibit_holder_unit w in
      if is_verified_active unit
      then (
        record {
          status = HelperStatus.ok;
          message = if was_active then "lease renewed" else "lease acquired";
          inhibit_holder = unit;
          ttl_secs = ttl_secs;
          renewed = was_active;
        },
        w',
      )
      else (
        record {
          status = HelperStatus.error;
          message = "lease was created but the inhibit unit is not active";
          inhibit_holder = unit;
          ttl_secs = ttl_secs;
          renewed = false;
        },
        w',
      )
  after_replace config ttl_secs was_active (err e, w) = (
    record {
      status = HelperStatus.error;
      message = String.◌++◌ "failed to acquire lease: " e;
      inhibit_holder = none;
      ttl_secs = ttl_secs;
      renewed = false;
    },
    w,
  )

  unfoldable pub lease_acquire : HelperConfig → ℕ → W → LeaseAcquireResponse × W
  unfolding after_replace clamp_ttl
  lease_acquire config ttl_secs w =
      let ttl = clamp_ttl ttl_secs in
      let (r, w') = machine.is_active config.inhibit_holder_unit w in
      after_replace config ttl (ok_or r false) (
        machine.replace_transient_unit config.inhibit_holder_unit "llm-wake-proxy inhibit holder"
          (lease_args ttl) w')

  after_stop : HelperConfig → Result (Unit {0}) String × W → LeaseResponse × W
  unfolding collect_unit_info
  after_stop config (ok done, w) =
      let (unit, w') = collect_unit_info machine json config.inhibit_holder_unit w in
      (record { status = HelperStatus.ok; message = "lease released"; inhibit_holder = unit }, w')
  after_stop config (err e, w) = (
    record {
      status = HelperStatus.error;
      message = String.◌++◌ "failed to release lease: " e;
      inhibit_holder = none;
    },
    w,
  )

  unfoldable pub lease_release : HelperConfig → W → LeaseResponse × W
  unfolding after_stop
  lease_release config w = after_stop config (machine.stop_unit config.inhibit_holder_unit w)

  after_show : HelperConfig → Result Properties String × W → LeaseResponse × W
  unfolding unit_of_properties
  after_show config (ok props, w) = (
    record {
      status = HelperStatus.ok;
      message = "current lease state";
      inhibit_holder = some (unit_of_properties config.inhibit_holder_unit props);
    },
    w,
  )
  after_show config (err e, w) = (
    record {
      status = HelperStatus.error;
      message = String.◌++◌ "failed to inspect lease: " e;
      inhibit_holder = none;
    },
    w,
  )

  unfoldable pub lease_inspect : HelperConfig → W → LeaseResponse × W
  unfolding after_show
  lease_inspect config w = after_show config (machine.show_unit config.inhibit_holder_unit w)
