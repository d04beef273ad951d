-- ===== src/Transport/Mock/Pair/Outcomes.antt =====
-- When pairing with the mock succeeds, and what it leaves.
use pax.Prelude.{
  ◌≡◌, refl, sym, Bool, true, false, ◌||◌, ◌&&◌, none, some, List, [], ◌∷◌, ◌++◌, Bool-cases,
  Option-cases, inl, inr, is_yes, arith,
}
use pax.Str.{Str}
use pax.Core.Device.{DeviceId, DeviceId-discrete}
use pax.Transport.Error.{Result, ok, err, is_ok, device_not_found, pairing_rejected, pairing_failed}
use pax.Transport.Pairing.{PairingAgent, PairingOutcome, bonded_by}
use pax.Transport.Mock.{MockDevice, MockBackend, find_device, emit}
use pax.Transport.Mock.Pair.{
  pair, pair_found, request_for, rejected, declined, contains_id, insert_id,
}

contains-snoc :
    (x id : DeviceId) (ids : List DeviceId)
    → contains_id x (ids ++ id ∷ []) ≡ (contains_id x ids || is_yes (DeviceId-discrete id x))
unfolding contains_id
contains-snoc x id [] = elim (Bool-cases (is_yes (DeviceId-discrete id x))) [
  | inl e ↦ rw e refl
  | inr e ↦ rw e refl
]
contains-snoc x id (y ∷ ids) = elim (Bool-cases (is_yes (DeviceId-discrete y x))) [
  | inl e ↦ rw e refl
  | inr e ↦ rw e (contains-snoc x id ids)
]

same_id→eq : (a b : DeviceId) → is_yes (DeviceId-discrete a b) ≡ true → a ≡ b
same_id→eq a b h = ground arith

or_false : (a : Bool) → (a || false) ≡ a
or_false true = refl
or_false false = refl

or_absorb : (a b : Bool) → (b ≡ true → a ≡ true) → a ≡ (a || b)
or_absorb true b h = refl
or_absorb false true h = h refl
or_absorb false false h = refl

pub contains-insert :
    (x id : DeviceId) (ids : List DeviceId)
    → contains_id x (insert_id id ids) ≡ (contains_id x ids || is_yes (DeviceId-discrete id x))
unfolding insert_id
contains-insert x id ids = elim (Bool-cases (contains_id id ids)) [
  | inl old ↦ rw old (or_absorb (contains_id x ids) _ (λ same. rw (same_id→eq id x same) at old))
  | inr new ↦ rw new (contains-snoc x id ids)
]

module _ {W : Type 0} (agent : PairingAgent W) where
  -- Why a pairing ends as it does.
  pub data Ends (id : DeviceId) (b : MockBackend) (w : W) : Result PairingOutcome → Type 0 where
    unknown : find_device id b.state.devices ≡ none → Ends id b w (err (device_not_found id))
    refused :
        (d : MockDevice)
        → find_device id b.state.devices ≡ some d
        → rejected (agent (request_for d.pairing_method) w).0 ≡ true
        → Ends id b w (err (pairing_rejected declined))
    failed :
        (d : MockDevice) (reason : Str)
        → find_device id b.state.devices ≡ some d
        → rejected (agent (request_for d.pairing_method) w).0 ≡ false
        → d.pairing_failure ≡ some reason
        → Ends id b w (err (pairing_failed reason))
    bonded :
        (d : MockDevice)
        → find_device id b.state.devices ≡ some d
        → rejected (agent (request_for d.pairing_method) w).0 ≡ false
        → d.pairing_failure ≡ none
        → Ends id b w (ok (bonded_by d.pairing_method))

  -- Pairing with the mock ends in one of four ways: the device is unknown; the agent declines
  -- the request of the device's method; the device's script fails it, with its reason; or it
  -- bonds by the device's method. The set of paired devices gains the target in the last case,
  -- and is left as it was in the others.
  pub pair-Ends :
      (id : DeviceId) (b : MockBackend) (w : W)
      → Ends id b w (pair agent id (b, w)).0
        × ((x : DeviceId)
            → contains_id x (pair agent id (b, w)).1.0.state.paired ≡ (
                contains_id x b.state.paired
                || (is_ok (pair agent id (b, w)).0 && is_yes (DeviceId-discrete id x))))
  unfolding pair pair_found emit
  pair-Ends id b w = elim (Option-cases (find_device id b.state.devices)) [
    | inl e ↦ (rw (e, pair) (unknown e), λ x. rw (e, pair) (sym (or_false _)))
    | inr (d, e) ↦ elim (Bool-cases (rejected (agent (request_for d.pairing_method) w).0)) [
      | inl no_ ↦ (rw (e, no_, pair) (refused d e no_), λ x. rw (e, no_, pair) (sym (or_false _)))
      | inr ok_ ↦ elim (Option-cases d.pairing_failure) [
        | inl good ↦ (
          rw (e, ok_, good, pair) (bonded d e ok_ good),
          λ x. rw (e, ok_, good, pair) (contains-insert x id b.state.paired),
        )
        | inr (reason, bad) ↦ (
          rw (e, ok_, bad, pair) (failed d reason e ok_ bad),
          λ x. rw (e, ok_, bad, pair) (sym (or_false _)),
        )
      ]
    ]
  ]
