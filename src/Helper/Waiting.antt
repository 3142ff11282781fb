-- ===== src/Helper/Waiting.antt =====
-- src/helper.rs, wait_for_server: it ends, within its timeout.
use Prim.Native.String.{String}
use llm_wake_proxy.Base.{
  ℕ, zero, suc, ◌+◌, ◌*◌, ◌≤◌, ◌<◌, ◌≡◌, refl, Bool, true, false, Option, some, ◌⊎◌, inl, inr,
  arith, leb, Bool-cases, leb→le, le→leb, leb-false,
}
use llm_wake_proxy.Helper.Types.{Machine, ModelsJson}
use llm_wake_proxy.Helper.{is_server_alive, wait_loop, wait_for_server, build_server_url}

-- What the standard library says of its clock: it does not go back, and `sleep` takes its time.
pub record IsTicking {W : Type 0} (machine : Machine W) : Type 0 where
  pub sleep_instant : (n : ℕ) (w : W) → machine.instant w + n ≤ machine.instant (machine.sleep n w)
  pub get_instant :
      (url : String) (w : W) → machine.instant w ≤ machine.instant (machine.get_text url w).1

module _ {W V : Type 0} (machine : Machine W) (json : ModelsJson V) where
  -- The server answered before the deadline, or the deadline is over.
  abbrev pub IsWaited : ℕ → ℕ → Option Bool × W → Type 0
  IsWaited deadline port out =
      ((w : W) × ((is_server_alive machine json port w).0 ≡ true)
        × ((is_server_alive machine json port w).1 ≡ out.1)
        × (machine.instant w < deadline)
        × (out.0 ≡ some true))
      ⊎ ((out.0 ≡ some false) × (deadline ≤ machine.instant out.1))

  is_server_alive-instant :
      IsTicking machine
      → (port : ℕ) (w : W)
      → machine.instant w ≤ machine.instant (is_server_alive machine json port w).1
  unfolding is_server_alive
  is_server_alive-instant ticking port w =
      ticking.get_instant (build_server_url port "/v1/models") w

  wait_loop-IsWaited :
      IsTicking machine
      → (k deadline port : ℕ) (w : W) → deadline ≤ machine.instant w + 500 * k
      → IsWaited deadline port (wait_loop machine json (suc k) deadline port w)
  unfolding wait_loop
  wait_loop-IsWaited ticking zero deadline port w h =
      let over : deadline ≤ machine.instant w = omega (arith, h) in
      rw (le→leb deadline (machine.instant w) over) (inr (refl, over))
  wait_loop-IsWaited ticking (suc k) deadline port w h =
      let out = is_server_alive machine json port w in
      let slept = machine.sleep 500 out.1 in
      let past = is_server_alive-instant ticking port w in
      let sleeps = ticking.sleep_instant 500 out.1 in
      let later =
        wait_loop-IsWaited ticking k deadline port slept (omega (arith, past, sleeps, h)) in
      elim (Bool-cases (leb deadline (machine.instant w))) [
        | inl e ↦ rw e (inr (refl, leb→le deadline (machine.instant w) e))
        | inr e ↦ rw e (elim (Bool-cases out.0) [
          | inl f ↦ rw f (inl (w, f, refl, leb-false deadline (machine.instant w) e, refl))
          | inr f ↦ rw f later
        ])
      ]

  -- Over a clock that ticks, with more rounds of fuel than half seconds in the timeout, the wait ends.
  -- Either it says yes, and a probe of that port was answered before the deadline, or it says no and
  -- the deadline is over.
  pub wait_for_server-IsWaited :
      IsTicking machine
      → (k port timeout_secs : ℕ) (w : W) → 2 * timeout_secs ≤ k
      → IsWaited
          (machine.instant w + 1000 * timeout_secs)
          port
          (wait_for_server machine json (suc k) port timeout_secs w)
  unfolding wait_for_server
  wait_for_server-IsWaited ticking k port timeout_secs w h =
      wait_loop-IsWaited ticking k (machine.instant w + 1000 * timeout_secs) port w
        (omega (arith, h))
