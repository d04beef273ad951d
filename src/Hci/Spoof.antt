-- ===== src/Hci/Spoof.antt =====
-- What `spoof_public_address` leaves in a record of the calls.
use pax.Prelude.{
  ℕ, ◌≡◌, Bool, true, false, List, [], ◌∷◌, ◌++◌, append_assoc, ◌∙◌, subst, refl, ◌⊎◌, inl, inr,
  if◌then◌else◌,
}
use pax.Hci.{SetAddressError, Result, ok, err}
use pax.Hci.Wire.{encode_command, bdaddr_le, op_set_powered, op_set_public_address}
use pax.Hci.Mgmt.{Libc, set_powered, set_public_address, and_then, spoof_public_address}
use pax.Hci.Sent.{Call, CallLog, Session, Logs, run_command-Session}

-- The frames of the three commands.
abbrev pub frame_power : ℕ → Bool → List ℕ
frame_power index on = encode_command op_set_powered index ((if on then 1 else 0) ∷ [])

abbrev pub frame_address : ℕ → List ℕ → List ℕ
frame_address index addr = encode_command op_set_public_address index (bdaddr_le addr)

-- The calls of an address change, and its result: it ends at the first command that fails.
pub data Spoofing {E : Type 0} (off address on : List ℕ)
    : Result (SetAddressError E) (Unit {0}) → List Call → Type 0 where
  not_off :
      (e : SetAddressError E) (c1 : List Call)
      → Session off (err e) c1
      → Spoofing off address on (err e) c1
  not_changed :
      (e : SetAddressError E) (c1 c2 : List Call)
      → Session {E = E} off (ok tt) c1
      → Session address (err e) c2
      → Spoofing off address on (err e) (c1 ++ c2)
  changed :
      (r : Result (SetAddressError E) (Unit {0})) (c1 c2 c3 : List Call)
      → Session {E = E} off (ok tt) c1
      → Session {E = E} address (ok tt) c2
      → Session on r c3
      → Spoofing off address on r (c1 ++ c2 ++ c3)

Result-cases : {X A : Type 0} (r : Result X A) → ((a : A) × (r ≡ ok a)) ⊎ ((x : X) × (r ≡ err x))
Result-cases (ok a) = inl (a, refl)
Result-cases (err x) = inr (x, refl)

module _ {S E : Type 0} (libc : Libc S E) (log : CallLog libc) where
  set_powered-Session :
      (index : ℕ) (on : Bool) (s : S)
      → Logs libc log (frame_power index on) (set_powered libc index on) s
  unfolding set_powered
  set_powered-Session index on s =
      run_command-Session libc log op_set_powered index ((if on then 1 else 0) ∷ []) s

  set_public_address-Session :
      (index : ℕ) (addr : List ℕ) (s : S)
      → Logs libc log (frame_address index addr) (set_public_address libc index addr) s
  unfolding set_public_address
  set_public_address-Session index addr s =
      run_command-Session libc log op_set_public_address index (bdaddr_le addr) s

  -- The last two commands, behind the calls `c1` of a first one that succeeded.
  then_changed :
      (index : ℕ) (addr : List ℕ) (s : S) (before c1 : List Call)
      → log.calls s ≡ before ++ c1
      → Session {E = E} (frame_power index false) (ok tt) c1
      → let p =
          and_then libc (set_public_address libc index addr) (set_powered libc index true) s in
        (new : List Call) × (log.calls p.1 ≡ before ++ new)
        × Spoofing
            (frame_power index false)
            (frame_address index addr)
            (frame_power index true)
            p.0
            new
  then_changed index addr s before c1 logs off =
      let (c2, logs2, set) = set_public_address-Session index addr s in
      let s2 = (set_public_address libc index addr s).1 in
      let (c3, logs3, on) = set_powered-Session index true s2 in
      let joined = logs2 ∙ rw (logs) (append_assoc before c1 c2) in
      elim (Result-cases (set_public_address libc index addr s).0) [
        | inl (u, good) ↦
            let full =
              logs3
              ∙ rw (joined) (append_assoc before (c1 ++ c2) c3 ∙ rw (append_assoc c1 c2 c3)) in
            rw (and_then, good)
              (
                c1 ++ c2 ++ c3,
                full,
                changed (set_powered libc index true s2).0 c1 c2 c3 off
                    (subst (λ r. Session (frame_address index addr) r c2) good set) on,
              )
        | inr (e, bad) ↦
            rw (and_then, bad)
              (
                c1 ++ c2,
                joined,
                not_changed e c1 c2 off
                    (subst (λ r. Session (frame_address index addr) r c2) bad set),
              )
      ]

  -- An address change powers the controller off, sets the address and powers it on, each in a
  -- session of its own: the address is written only after the power is off, and the power comes
  -- on only after the address was accepted.
  pub spoof_public_address-Spoofing :
      (index : ℕ) (addr : List ℕ) (s : S)
      → (new : List Call) × (log.calls (spoof_public_address libc index addr s).1
          ≡ log.calls s ++ new)
        × Spoofing
            (frame_power index false)
            (frame_address index addr)
            (frame_power index true)
            (spoof_public_address libc index addr s).0
            new
  unfolding spoof_public_address
  spoof_public_address-Spoofing index addr s =
      let (c1, logs, off) = set_powered-Session index false s in
      let s1 = (set_powered libc index false s).1 in
      let first =
        λ (r : Result (SetAddressError E) (Unit {0})). Session (frame_power index false) r c1 in
      elim (Result-cases (set_powered libc index false s).0) [
        | inl (u, good) ↦
            rw (spoof_public_address, and_then, good)
              (then_changed index addr s1 (log.calls s) c1 logs (subst first good off))
        | inr (e, bad) ↦
            rw (spoof_public_address, and_then, bad) (c1, logs, not_off e c1 (subst first bad off))
      ]
