-- ===== src/Pairing/Device/Runs.antt =====
-- Every way that `pair_device` can end.
use pax.Prelude.{
  ℕ, zero, suc, ◌+◌, ◌-◌, ◌≡◌, refl, ap, sym, ◌∙◌, Bool, true, false, not, Option, none, some,
  arith, Bool-cases, inl, inr, ◌⊎◌,
}
use pax.Core.Address.{BdAddr}
use pax.Core.Device.{DeviceId}
use pax.Str.{codes}
use pax.Transport.Error.{TransportError, unsupported, Result, ok, err, ◌>>=◌}
use pax.Transport.Pairing.{PairingOutcome}
use pax.Transport.Backend.{Backend, kind_name, apply_spoof}
use pax.Transport.Retry.{
  Failing, Ending, succeeds, stops, runs_out, Ending-after, CanEnd, outcome-cases,
}
use pax.Pairing.Device.{PairOptions, PairReport, max_attempts, is_final, pair_loop, pair_device}

-- The errors that another attempt may cure.
abbrev pub is_retried : TransportError → Bool
is_retried e = not (is_final e)

-- What the workflow reports for a result that `k` failures precede.
unfoldable pub reported : Result PairingOutcome → ℕ → Result PairReport
reported (ok o) k = ok (record { outcome = o; attempts = k })
reported (err e) k = err e

module _ {S A : Type 0} (b : Backend S A) (target : DeviceId) (agent : A) where
  -- The end of at most `n` attempts, for a result of the workflow.
  abbrev pub PairEnds : ℕ → Option TransportError → S → ℕ → Result PairReport × S → Type 0
  PairEnds n before s attempt p =
      (r : Result PairingOutcome) × (k : ℕ) × (s' : S) × Ending (b.pair target agent) is_retried n
        before s r k s'
      × (p ≡ (reported r (k + attempt), s'))

  pair_loop-Ending :
      (n attempt : ℕ) (before : Option TransportError) (s : S)
      → CanEnd before n
      → PairEnds n before s attempt (pair_loop b target agent n attempt before s)
  unfolding pair_loop reported Failing
  pair_loop-Ending zero attempt none s h = elim h [ ]
  pair_loop-Ending zero attempt (some e) s h = (err e, 0, s, runs_out e s (refl, refl), refl)
  pair_loop-Ending (suc n) attempt before s _ = elim (outcome-cases (b.pair target agent s)) [
    | inl (o, h0, h) ↦
        let s1 = (b.pair target agent s).1 in
        let count : 0 + attempt ≡ attempt = omega arith in
        (
          ok o,
          0,
          s1,
          succeeds 0 before s s1 o (omega arith) (refl, refl) h,
          rw (h0, pair_loop) (rw count refl),
        )
    | inr (e, h0, h) ↦
        let s1 = (b.pair target agent s).1 in
        elim (Bool-cases (is_final e)) [
          | inl fin ↦ (
            err e,
            0,
            s1,
            stops 0 before s s1 e (omega arith) (refl, refl) h (ap not fin),
            rw (h0, fin, pair_loop) refl,
          )
          | inr more ↦
              let (r, k, s', h1, h2) = pair_loop-Ending n (attempt + 1) (some e) s1 tt in
              let count : k + (attempt + 1) ≡ suc k + attempt = omega arith in
              (
                r,
                suc k,
                s',
                Ending-after _ _ n before s e s1 r k s' h (ap not more) h1,
                rw (h0, more, pair_loop) (rw count at h2),
              )
        ]
  ]

  -- `pair_device` without a spoofed address ends as a retry of `pair` with `retries + 1` rounds
  -- (a u32, saturated): attempts that fail with an error that is not final, and then a success,
  -- whose report counts all attempts, the first final error, or the last error when the rounds
  -- are used up.
  pub pair_device-Ending :
      (options : PairOptions) (s : S)
      → options.spoof_local ≡ none
      → (r : Result PairingOutcome) × (k : ℕ) × (s' : S) × Ending
          (b.pair target agent)
          is_retried
          (max_attempts options.retries)
          none
          s
          r
          k
          s'
        × (pair_device b target agent options s ≡ (reported r (k + 1), s'))
  unfolding pair_device apply_spoof
  pair_device-Ending options s plain =
      let rounds : max_attempts options.retries ≡ suc (max_attempts options.retries - 1) =
        omega arith in
      let can : CanEnd none (max_attempts options.retries) = rw rounds tt in
      rw (plain, apply_spoof) (pair_loop-Ending (max_attempts options.retries) 1 none s can)

  -- `pair_device` with a spoofed address ends in one of three ways. When the backend cannot spoof,
  -- the answer is `Unsupported`, and the state stays as it is. When it can and refuses the address,
  -- the answer is its error, in the state that the refusal leaves. When it takes the address, the
  -- attempts from the state that it leaves end as those without a spoofed address do.
  pub pair_device-spoof :
      (options : PairOptions) (s : S) (addr : BdAddr)
      → options.spoof_local ≡ some addr
      → (((b.capabilities s).can_spoof_address ≡ false)
          × (pair_device b target agent options s ≡ (
            err (unsupported (kind_name (b.capabilities s).kind) (codes "set_local_address")),
            s,
          )))
        ⊎ ((((b.capabilities s).can_spoof_address ≡ true)
              × ((e : TransportError) × (s1 : S) × (b.set_local_address addr s ≡ (err e, s1))
                  × (pair_device b target agent options s ≡ (err e, s1))))
            ⊎ (((b.capabilities s).can_spoof_address ≡ true)
                × ((s1 : S) × (b.set_local_address addr s ≡ (ok tt, s1))
                    × ((r : Result PairingOutcome) × (k : ℕ) × (s' : S) × Ending
                          (b.pair target agent)
                          is_retried
                          (max_attempts options.retries)
                          none
                          s1
                          r
                          k
                          s'
                        × (pair_device b target agent options s ≡ (reported r (k + 1), s'))))))
  unfolding pair_device apply_spoof
  pair_device-spoof options s addr h = elim (Bool-cases (b.capabilities s).can_spoof_address) [
    | inr cannot ↦ inl (cannot, rw (h, apply_spoof) (rw (cannot, ◌>>=◌, cannot) refl))
    | inl can ↦
        let same : apply_spoof b (some addr) s ≡ b.set_local_address addr s = rw can refl in
        let s1 = (apply_spoof b (some addr) s).1 in
        elim (outcome-cases (apply_spoof b (some addr) s)) [
          | inr (x, e0, e) ↦ inr (inl (can, (x, s1, sym same ∙ e, rw h (rw (e0, ◌>>=◌) refl))))
          | inl (u, e0, e) ↦
              let (r, k, s', ends, rest) =
                pair_device-Ending (record options { spoof_local = none }) s1 refl in
              inr (inr (can, (s1, sym same ∙ e, (r, k, s', ends, rw h (rw (e0, ◌>>=◌) rest)))))
        ]
  ]
