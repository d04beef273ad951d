-- ===== src/Transport/Android/Bonded.antt =====
-- The loop over the bonded devices ends.
use pax.Prelude.{
  ℕ, zero, suc, ◌≡◌, ◌≤◌, ◌<◌, ◌∙◌, refl, ap, Bool, true, false, Option, none, some, List, [], ◌++◌,
  arith, inl, inr, ◌⊎◌,
}
use pax.Str.{Str, codes}
use pax.Core.Address.{BdAddr}
use pax.Core.Device.{DeviceInfo}
use pax.Transport.Error.{TransportError, backend, Result, ok, err, Op, ◌>>=◌}
use pax.Transport.Retry.{outcome-cases}
use pax.Transport.Radio.{Answer, done, failed, Call, Radio, moved}
use pax.Transport.Android.{Jni, jni}
use pax.Transport.Android.Devices.{
  parsed, with_class, describe, read_device, bonded_loop, begin_bonded, read_bonded, to_list,
}

Answer-cases : {A : Type 0} (a : Answer A) → ((x : A) × (a ≡ done x)) ⊎ ((e : Str) × (a ≡ failed e))
Answer-cases (done x) = inl (x, refl)
Answer-cases (failed e) = inr (e, refl)

module _ {W D : Type 0} (env : Jni W D) (left : W → ℕ) where
  -- `left` counts the devices that the iterator has yet to give: `next`, where `hasNext` said that
  -- there is one, leaves fewer, and no other call adds any.
  abbrev pub IsIterator : Type 0
  IsIterator =
      ((w : W) → left (env.has_next w).1 ≤ left w)
      × ((w : W) → (env.has_next w).0 ≡ done true → left (env.next (env.has_next w).1).1 < left w)
      × ((d : D) (w : W) → left (env.address d w).1 ≤ left w)
      × ((d : D) (w : W) → left (env.device_name d w).1 ≤ left w)
      × ((d : D) (w : W) → left (env.device_class d w).1 ≤ left w)

  -- An operation that leaves at most `n` devices, where there were no more.
  Below : {A : Type 0} → ℕ → Op (Radio W) A → Type 0
  Below n op = (r : Radio W) → left r.world ≤ n → left (op r).1.world ≤ n

  jni-cases :
      {A : Type 0} (call : Call W A) (r : Radio W)
      → ((x : A) × ((call r.world).0 ≡ done x) × (jni call r ≡ (ok x, moved r (call r.world).1)))
        ⊎ ((e : TransportError) × (jni call r ≡ (err e, moved r (call r.world).1)))
  jni-cases call r = elim (Answer-cases (call r.world).0) [
    | inl (x, e) ↦ inl (x, e, rw (jni, e) refl)
    | inr (x, e) ↦ inr (backend (codes "jni: " ++ x), rw (jni, e) refl)
  ]

  jni-world : {A : Type 0} (call : Call W A) (r : Radio W) → (jni call r).1.world ≡ (call r.world).1
  jni-world call r = elim (jni-cases call r) [
    | inl (x, _, e) ↦ ap (λ p. p.1.world) e
    | inr (x, e) ↦ ap (λ p. p.1.world) e
  ]

  bind-left :
      {A B : Type 0} (n : ℕ) (op : Op (Radio W) A) (f : A → Op (Radio W) B) (r : Radio W)
      → left (op r).1.world ≤ n
      → ((a : A) → Below n (f a))
      → left ((op >>= f) r).1.world ≤ n
  unfolding Below
  bind-left n op f r h k = elim (outcome-cases (op r)) [
    | inl (a, e, _) ↦ rw (◌>>=◌, e) (k a (op r).1 h)
    | inr (x, e, _) ↦ rw (◌>>=◌, e) h
  ]

  module _ (iterates : IsIterator) where
    describe-Below : (n : ℕ) (d : D) (a : Option BdAddr) → Below n (describe env d a)
    unfolding Below describe with_class
    describe-Below n d none r h = h
    describe-Below n d (some addr) r h =
        let (_, _, _, named, classed) = iterates in
        let first = jni-world (env.device_name d) r in
        bind-left n (jni (env.device_name d)) (with_class env d addr) r
          (omega (arith, ap left first, named d r.world, h))
          (λ name r' h'. omega (arith, classed d r'.world, h'))

    read_device-Below : (n : ℕ) (d : D) → Below n (read_device env d)
    unfolding Below read_device
    read_device-Below n d r h =
        let (_, _, addressed, _, _) = iterates in
        let first = jni-world (env.address d) r in
        bind-left n (jni (env.address d)) (λ text. describe env d (parsed text)) r
          (omega (arith, ap left first, addressed d r.world, h))
          (λ text. describe-Below n d (parsed text))

    -- The rest of a round, once the next device is read, and once `hasNext` has answered.
    abbrev once_read :
        ℕ
        → List DeviceInfo
        → Result (Option DeviceInfo) × Radio W
        → Option (Result (List DeviceInfo) × Radio W)
    once_read fuel out p = elim p.0 [
      | err e ↦ some (err e, p.1)
      | ok i ↦ bonded_loop env fuel (out ++ to_list i) p.1
    ]

    abbrev once_asked :
        ℕ → List DeviceInfo → Result Bool × Radio W → Option (Result (List DeviceInfo) × Radio W)
    once_asked fuel out p = elim p.0 [
      | err e ↦ some (err e, p.1)
      | ok b ↦ elim b [
        | false ↦ some (ok out, p.1)
        | true ↦ once_read fuel out ((jni env.next >>= read_device env) p.1)
      ]
    ]

    bonded_loop-ends :
        (fuel : ℕ) (out : List DeviceInfo) (r : Radio W)
        → left r.world < fuel
        → (p : Result (List DeviceInfo) × Radio W) × (bonded_loop env fuel out r ≡ some p)
    unfolding bonded_loop
    bonded_loop-ends zero out r h = absurd (omega arith)
    bonded_loop-ends (suc fuel) out r h =
        let (asked, given, _, _, _) = iterates in
        let r1 = moved r (env.has_next r.world).1 in
        let step = (jni env.next >>= read_device env) r1 in
        elim (jni-cases env.has_next r) [
          | inr (x, e) ↦ ((err x, r1), ap (once_asked fuel out) e)
          | inl (false, _, e) ↦ ((ok out, r1), ap (once_asked fuel out) e)
          | inl (true, said, e) ↦
              let fewer = given r.world said in
              let first = jni-world env.next r1 in
              let after : left step.1.world ≤ left (env.next r1.world).1 =
                bind-left _ (jni env.next) (read_device env) r1 (omega (arith, ap left first))
                  (λ d. read_device-Below _ d) in
              elim (outcome-cases step) [
                | inr (x, _, e') ↦
                    ((err x, step.1), ap (once_asked fuel out) e ∙ ap (once_read fuel out) e')
                | inl (i, _, e') ↦
                    let (p, ends) =
                      bonded_loop-ends fuel (out ++ to_list i) step.1
                        (omega (arith, after, fewer, h)) in
                    (p, ap (once_asked fuel out) e ∙ ap (once_read fuel out) e' ∙ ends)
              ]
        ]

    -- With more rounds than the iterator has devices at the start, the bonded devices are read, or
    -- reading them ends with an error.
    pub read_bonded-ends :
        (fuel : ℕ) (r : Radio W)
        → left (begin_bonded env r).1.world < fuel
        → (p : Result (List DeviceInfo) × Radio W) × (read_bonded env fuel r ≡ some p)
    unfolding read_bonded
    read_bonded-ends fuel r h = elim (outcome-cases (begin_bonded env r)) [
      | inr (x, e, _) ↦ ((err x, (begin_bonded env r).1), rw (read_bonded, e) refl)
      | inl (false, e, _) ↦ ((ok [], (begin_bonded env r).1), rw (read_bonded, e) refl)
      | inl (true, e, _) ↦
          let (p, ends) = bonded_loop-ends fuel [] (begin_bonded env r).1 h in
          (p, rw (read_bonded, e) ends)
    ]
