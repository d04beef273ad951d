-- ===== src/Pairing/Batch/Results.antt =====
-- What `pair_devices` returns.
use pax.Prelude.{ℕ, All, ◌≡◌, refl, Option, none, some, List, [], map, max, inl, inr}
use pax.Core.Address.{BdAddr}
use pax.Core.Device.{DeviceId}
use pax.Transport.Backend.{Backend, apply_spoof}
use pax.Transport.Retry.{outcome-cases}
use pax.Pairing.Batch.{
  BatchPairOptions, PairItem, Items, get_item, dedup, Buffered, IsBuffered, unwrap_or,
  spoofed_rounds, spoof_failed, pair_devices,
}
use pax.Pairing.Batch.Keys.{IsFound}
use pax.Pairing.Batch.Panics.{IsDistinct, pair_rounds-IsFound, spoof_failed-ids}
use pax.Pairing.Batch.Dedup.{lists, AreKeys, dedup-AreKeys}

abbrev pub ids_of : List PairItem → List DeviceId
ids_of = map (λ (i : PairItem). i.id)

no_keys : AreKeys [] []
unfolding AreKeys IsDistinct get_item
no_keys = (tt, tt, λ j h. refl)

module _ {S A : Type 0} (b : Backend S A) (run : Buffered S) (agent : A)
    (buffered : IsBuffered run) where
  -- A batch returns its items in the order `order`.
  abbrev Returns : List DeviceId → Option (List PairItem × S) → Type 0
  Returns order r =
      (items : List PairItem) × (s' : S) × (r ≡ some (items, s')) × (ids_of items ≡ order)

  spoofed_rounds-Returns :
      (options : BatchPairOptions) (concurrency : ℕ) (order : List DeviceId) (rs : Items)
      (spoof : Option BdAddr) (s : S)
      → IsDistinct order
      → All (IsFound rs) order
      → Returns order (spoofed_rounds b run agent options concurrency order rs spoof s)
  unfolding spoofed_rounds
  spoofed_rounds-Returns options concurrency order rs none s distinct found =
      pair_rounds-IsFound b run agent buffered options concurrency order rs s distinct found
  spoofed_rounds-Returns options concurrency order rs (some addr) s distinct found =
      elim (outcome-cases (apply_spoof b (some addr) s)) [
        | inr (e, h0, h) ↦ (
          spoof_failed b run agent e order,
          (apply_spoof b (some addr) s).1,
          rw (h0, spoofed_rounds) refl,
          spoof_failed-ids b run agent buffered e order,
        )
        | inl (u, h0, h) ↦
            rw (h0, spoofed_rounds)
              (pair_rounds-IsFound b run agent buffered options concurrency order rs
                (apply_spoof b (some addr) s).1 distinct found)
      ]

  -- With a `buffer_unordered` that returns one result for each task, in any order, a batch
  -- never panics and returns one item for each target: the ids of the items are distinct, and
  -- an id is among them exactly if it is among the targets.
  pub pair_devices-IsDistinct :
      (targets : List DeviceId) (options : BatchPairOptions) (s : S)
      → (items : List PairItem) × (s' : S) × (pair_devices b run agent targets options s
          ≡ some (items, s'))
        × IsDistinct (ids_of items)
        × ((j : DeviceId) → lists j (ids_of items) ≡ lists j targets)
  unfolding pair_devices lists AreKeys
  pair_devices-IsDistinct targets options s =
      let ((found, distinct, only), same) = dedup-AreKeys targets [] [] no_keys in
      let (order, rs) = dedup targets [] [] in
      let (items, s', h1, h2) =
        spoofed_rounds-Returns options
          (max (unwrap_or options.concurrency (b.capabilities s).max_concurrent_pairings) 1) order
          rs options.per_device.spoof_local s distinct found in
      (items, s', h1, rw h2 distinct, λ j. rw h2 (same j))
