-- ===== src/Transport/Bluez/Agent/Bonds.antt =====
-- How long a window for pairings is held.
use pax.Prelude.{
  ℕ, zero, suc, ◌+◌, ◌-◌, ◌/◌, ◌≤◌, ◌≡◌, ◌⊎◌, refl, min, true, Option, some, ◌==◌, ==_iff,
  Bool-cases, inl, inr, arith,
}
use pax.Transport.Pairing.{PairingAgent}
use pax.Transport.Bluez.Agent.{Agents, Cells, on_prompt}
use pax.Transport.Bluez.Agent.Accept.{enough, window_loop}

module _ {W D : Type 0} (agents : Agents W D) (agent : PairingAgent W) where
  -- A sleep takes at least the time that it was asked for, whatever the callbacks do in it.
  abbrev pub Sleeps : Type 0
  Sleeps =
      (nanos : ℕ) (st : W × Cells)
      → agents.instant st.0 + nanos ≤ agents.instant (agents.sleep nanos (on_prompt agent) st).0

  -- The end of a window: enough devices have bonded, or the deadline has passed.
  abbrev pub Over : Option ℕ → ℕ → W × Cells → Type 0
  Over limit deadline st = (enough limit st.1 ≡ true) ⊎ (deadline ≤ agents.instant st.0)

  -- A window ends, with any agent, when a sleep takes at least the time that it was asked for: one
  -- round for each quarter of a second that has begun, and another, are enough. At the end as many
  -- devices as wanted have bonded, or the deadline has passed.
  pub window_loop-Over :
      Sleeps
      → (fuel : ℕ) (limit : Option ℕ) (deadline : ℕ) (st : W × Cells)
      → (deadline - agents.instant st.0 + 249_999_999) / 250_000_000 + 1 ≤ fuel
      → (end : W × Cells) × (window_loop agents agent fuel limit deadline st ≡ some end)
        × Over limit deadline end
  unfolding window_loop
  window_loop-Over sleeps zero limit deadline st short = absurd (omega arith)
  window_loop-Over sleeps (suc fuel) limit deadline st short =
      let remaining = deadline - agents.instant st.0 in
      let pause = min remaining 250_000_000 in
      elim (Bool-cases (enough limit st.1)) [
        | inl e ↦ (st, rw (window_loop, e) refl, inl e)
        | inr e ↦ elim (Bool-cases (remaining == 0)) [
          | inl z ↦
              let over : remaining ≡ 0 = (==_iff remaining 0).0 z in
              (st, rw (window_loop, e, z) refl, inr (omega (arith, over)))
          | inr n ↦
              let st1 = agents.sleep pause (on_prompt agent) st in
              let slept = sleeps pause st in
              let some_left : 1 ≤ remaining = ground arith in
              let (end, runs, over) =
                window_loop-Over sleeps fuel limit deadline st1
                  (omega (arith, slept, some_left, short)) in
              (end, rw (window_loop, e, n) runs, over)
        ]
      ]
