-- ===== src/Pairing/Batch.antt =====
-- crates/pax-pairing/src/workflow.rs, `pair_devices` and `pair_discovered`: pairing with many
-- devices. `buffer_unordered` of the futures crate is a parameter: it runs a task for each id,
-- at most so many at once, and returns the results in the order of completion.
pub mod Keys
pub mod Panics
pub mod Dedup
pub mod Results
use mathlib.Core.List.{Permᴰ}
use pax.Prelude.{
  ℕ, zero, suc, ◌+◌, Bool, false, not, Option, none, some, List, [], ◌∷◌, ◌++◌, map, min, max,
  if◌then◌else◌, length, is_yes,
}
use pax.Str.{codes}
use pax.Core.Address.{BdAddr}
use pax.Core.Device.{DeviceId, DeviceId-discrete, DeviceInfo}
use pax.Transport.Error.{
  TransportError, pairing_failed, local_address, display, Result, ok, err, is_ok, Op,
}
use pax.Transport.Backend.{Backend, DiscoveryFilter, apply_spoof}
use pax.Pairing.Device.{PairOptions, default_options, PairReport, is_final, pair_device}

pub record BatchPairOptions : Type 0 where
  pub concurrency : Option ℕ
  pub rounds : ℕ
  pub per_device : PairOptions

abbrev pub default_batch : BatchPairOptions
default_batch = record { concurrency = none; rounds = 2; per_device = default_options }

pub record PairItem : Type 0 where
  pub id : DeviceId
  pub outcome : Result PairReport
  pub attempts : ℕ

abbrev pub paired : PairItem → Bool
paired i = is_ok i.outcome

-- The `HashMap` from ids to items.
abbrev pub Items : Type 0
Items = List (DeviceId × PairItem)

abbrev pub same_id : DeviceId → DeviceId → Bool
same_id a b = is_yes (DeviceId-discrete a b)

unfoldable pub get_item : DeviceId → Items → Option PairItem
get_item id [] = none
get_item id (e ∷ es) = if same_id e.0 id then some e.1 else get_item id es

unfoldable pub insert_item : DeviceId → PairItem → Items → Items
insert_item id i [] = (id, i) ∷ []
insert_item id i (e ∷ es) = if same_id e.0 id then (id, i) ∷ es else e ∷ insert_item id i es

unfoldable pub remove_item : DeviceId → Items → Items
remove_item id [] = []
remove_item id (e ∷ es) = if same_id e.0 id then remove_item id es else e ∷ remove_item id es

abbrev pub not_attempted : DeviceId → PairItem
not_attempted id = record {
  id = id;
  outcome = err (pairing_failed (codes "not attempted"));
  attempts = 0;
}

-- The loop that drops repeated targets: the order of first sight, and an item for each id.
unfoldable pub dedup : List DeviceId → List DeviceId → Items → List DeviceId × Items
unfolding get_item insert_item
dedup [] order results = (order, results)
dedup (id ∷ ids) order results = elim (get_item id results) [
  | some i ↦ dedup ids order results
  | none ↦ dedup ids (order ++ id ∷ []) (insert_item id (not_attempted id) results)
]

-- `matches!(&outcome, Err(e) if !is_final(e))`.
unfoldable pub retryable : Result PairReport → Bool
retryable (ok r) = false
retryable (err e) = not (is_final e)

-- The loop over the results of a round; `none` is the panic of `expect`.
unfoldable pub absorb :
    List (DeviceId × Result PairReport) → Items → List DeviceId → Option (Items × List DeviceId)
unfolding get_item insert_item retryable
absorb [] results next_pending = some (results, next_pending)
absorb ((id, outcome) ∷ rest) results next_pending = elim (get_item id results) [
  | none ↦ none
  | some item ↦
      absorb rest
        (insert_item id (record item { attempts = item.attempts + 1; outcome = outcome }) results)
        (if retryable outcome then next_pending ++ id ∷ [] else next_pending)
]

-- The items in the order of the ids; `none` is the panic of `unwrap`.
unfoldable pub collect : List DeviceId → Items → Option (List PairItem)
unfolding get_item remove_item
collect [] results = some []
collect (id ∷ ids) results = elim (get_item id results) [
  | none ↦ none
  | some item ↦ elim (collect ids (remove_item id results)) [
    | none ↦ none
    | some items ↦ some (item ∷ items)
  ]
]

-- `buffer_unordered(active)` over the tasks of the ids.
abbrev pub Buffered : Type 0 → Type 0
Buffered S =
    ℕ → (DeviceId → Op S PairReport) → List DeviceId → S → List (DeviceId × Result PairReport) × S

-- What its documentation says of the results: one for each id, in some order.
abbrev pub IsBuffered : {S : Type 0} → Buffered S → Type 0
IsBuffered {S} run =
    (n : ℕ) (task : DeviceId → Op S PairReport) (ids : List DeviceId) (s : S)
    → Permᴰ (map (λ e. e.0) (run n task ids s).0) ids

abbrev pub unwrap_or : Option ℕ → ℕ → ℕ
unwrap_or none d = d
unwrap_or (some n) d = n

module _ {S A : Type 0} (b : Backend S A) (run : Buffered S) (agent : A) where
  -- `for _round in 0..rounds`, with the rounds left.
  unfoldable pub round_loop : ℕ → PairOptions → ℕ → List DeviceId → Items → S → Option (Items × S)
  unfolding absorb
  round_loop concurrency per_device zero pending results s = some (results, s)
  round_loop concurrency per_device (suc k) [] results s = some (results, s)
  round_loop concurrency per_device (suc k) (id ∷ ids) results s =
      let active = max (min concurrency (length (id ∷ ids))) 1 in
      let (outs, s') = run active (λ target. pair_device b target agent per_device) (id ∷ ids) s in
      elim (absorb outs results []) [
        | none ↦ none
        | some (results', pending') ↦ round_loop concurrency per_device k pending' results' s'
      ]

  -- The rest of `pair_devices`, with the spoof applied and cleared.
  unfoldable pub pair_rounds :
      BatchPairOptions → ℕ → List DeviceId → Items → S → Option (List PairItem × S)
  unfolding round_loop collect
  pair_rounds options concurrency order results s =
      elim (round_loop concurrency (record (options.per_device) { spoof_local = none })
        (max options.rounds 1) order results s) [
          | none ↦ none
          | some (results', s') ↦ elim (collect order results') [
            | none ↦ none
            | some items ↦ some (items, s')
          ]
        ]

  -- The items when the spoof fails.
  abbrev pub spoof_failed : TransportError → List DeviceId → List PairItem
  spoof_failed e =
      map (λ id. record { id = id; outcome = err (local_address (display e)); attempts = 0 })

  -- The spoof, applied once, and then the rounds without it.
  unfoldable pub spoofed_rounds :
      BatchPairOptions → ℕ → List DeviceId → Items → Option BdAddr → S → Option (List PairItem × S)
  unfolding pair_rounds apply_spoof
  spoofed_rounds options concurrency order results none s =
      pair_rounds options concurrency order results s
  spoofed_rounds options concurrency order results (some addr) s =
      let (r, s') = apply_spoof b (some addr) s in
      elim r [
        | err e ↦ some (spoof_failed e order, s')
        | ok u ↦ pair_rounds options concurrency order results s'
      ]

  -- `none` is a panic.
  unfoldable pub pair_devices : List DeviceId → BatchPairOptions → S → Option (List PairItem × S)
  unfolding spoofed_rounds dedup
  pair_devices targets options s =
      let concurrency =
        max (unwrap_or options.concurrency (b.capabilities s).max_concurrent_pairings) 1 in
      let (order, results) = dedup targets [] [] in
      spoofed_rounds options concurrency order results options.per_device.spoof_local s

  -- The spoof first, so that the scan runs under it; then it is cleared.
  unfoldable pub pair_discovered :
      DiscoveryFilter → BatchPairOptions → S → Option (Result (List PairItem) × S)
  unfolding pair_devices apply_spoof
  pair_discovered filter options s =
      let (spoofed, s1) = apply_spoof b options.per_device.spoof_local s in
      elim spoofed [
        | err e ↦ some (err e, s1)
        | ok u ↦
            let (found, s2) = b.discover filter s1 in
            elim found [
              | err e ↦ some (err e, s2)
              | ok infos ↦
                  let cleared = record options {
                    per_device = record (options.per_device) { spoof_local = none };
                  } in
                  elim (pair_devices (map (λ (d : DeviceInfo). d.id) infos) cleared s2) [
                    | none ↦ none
                    | some (items, s3) ↦ some (ok items, s3)
                  ]
            ]
      ]
