-- ===== src/Pairing/Batch/Panics.antt =====
-- A batch never panics: every result that it absorbs has its item, and every id its item at the
-- end.
use mathlib.Core.List.Permᴰ.{symm}
use pax.Prelude.{
  ℕ, ◌+◌, zero, suc, ◌≡◌, refl, ap, ◌∙◌, Bool, true, false, none, some, List, [], ◌∷◌, ◌++◌, map,
  All, All-append, if◌then◌else◌, min, max, length,
}
use pax.Core.Device.{DeviceId}
use pax.Transport.Error.{TransportError, Result}
use pax.Transport.Backend.{Backend}
use pax.Pairing.Device.{PairOptions, PairReport, pair_device}
use pax.Pairing.Batch.{
  BatchPairOptions, PairItem, Items, same_id, insert_item, remove_item, retryable, absorb, collect,
  Buffered, IsBuffered, round_loop, pair_rounds, spoof_failed,
}
use pax.Pairing.Batch.Keys.{IsFound, get-remove, insert-IsFound, insert-All, All-Permᴰ}

-- The ids differ from each other.
unfoldable pub IsDistinct : List DeviceId → Type 0
IsDistinct [] = Unit
IsDistinct (id ∷ ids) = All (λ (j : DeviceId). same_id id j ≡ false) ids × IsDistinct ids

-- What a round's results are absorbed into.
Absorbs : List (DeviceId × Result PairReport) → Items → List DeviceId → List DeviceId → Type 0
unfolding absorb
Absorbs outs rs next order =
    (rs' : Items) × (next' : List DeviceId) × (absorb outs rs next ≡ some (rs', next'))
    × All (IsFound rs') order
    × All (IsFound rs') next'

next_pending : Bool → List DeviceId → DeviceId → List DeviceId
next_pending again next id = if again then next ++ id ∷ [] else next

next-All :
    (P : DeviceId → Type 0) (again : Bool) (next : List DeviceId) (id : DeviceId)
    → All P next
    → P id
    → All P (next_pending again next id)
unfolding next_pending
next-All P true next id h p = All-append P next (id ∷ []) h (p, tt)
next-All P false next id h p = h

absorb-IsFound :
    (outs : List (DeviceId × Result PairReport)) (rs : Items) (next order : List DeviceId)
    → All (IsFound rs) (map (λ e. e.0) outs)
    → All (IsFound rs) next
    → All (IsFound rs) order
    → Absorbs outs rs next order
unfolding Absorbs absorb IsFound next_pending
absorb-IsFound [] rs next order _ hn ho = (rs, next, refl, ho, hn)
absorb-IsFound ((id, outcome) ∷ outs) rs next order ((item, found, same), rest) hn ho =
    let item' = record item { attempts = item.attempts + 1; outcome = outcome } in
    let rs' = insert_item id item' rs in
    let new = insert-IsFound id id item' rs same (item, found, same) in
    let (final, left, h1, h2, h3) =
      absorb-IsFound outs rs' (next_pending (retryable outcome) next id) order
        (insert-All _ id item' rs same rest)
        (next-All (IsFound rs') (retryable outcome) next id (insert-All next id item' rs same hn)
          new)
        (insert-All order id item' rs same ho) in
    (final, left, rw (found, absorb) h1, h2, h3)

remove-All :
    (id : DeviceId) (ids : List DeviceId) (rs : Items)
    → All (λ (j : DeviceId). same_id id j ≡ false) ids
    → All (IsFound rs) ids
    → All (IsFound (remove_item id rs)) ids
unfolding IsFound
remove-All id [] rs _ _ = tt
remove-All id (j ∷ ids) rs (h, hs) ((item, found, same), rest) =
    ((item, get-remove j id rs h ∙ found, same), remove-All id ids rs hs rest)

collect-IsFound :
    (order : List DeviceId) (rs : Items)
    → IsDistinct order
    → All (IsFound rs) order
    → (items : List PairItem) × (collect order rs ≡ some items)
      × (map (λ (i : PairItem). i.id) items ≡ order)
unfolding collect IsDistinct IsFound
collect-IsFound [] rs _ _ = ([], refl, refl)
collect-IsFound (id ∷ ids) rs (other, distinct) ((item, found, same), rest) =
    let (items, h1, h2) =
      collect-IsFound ids (remove_item id rs) distinct (remove-All id ids rs other rest) in
    (item ∷ items, rw (found, h1, collect) refl, rw (same, h2) refl)

module _ {S A : Type 0} (b : Backend S A) (run : Buffered S) (agent : A)
    (buffered : IsBuffered run) where
  round_loop-IsFound :
      (concurrency : ℕ) (per_device : PairOptions) (k : ℕ) (pending : List DeviceId) (rs : Items)
      (s : S) (order : List DeviceId)
      → All (IsFound rs) pending
      → All (IsFound rs) order
      → (rs' : Items) × (s' : S) × (round_loop b run agent concurrency per_device k pending rs s
          ≡ some (rs', s'))
        × All (IsFound rs') order
  unfolding round_loop Absorbs
  round_loop-IsFound concurrency per_device zero pending rs s order hp ho = (rs, s, refl, ho)
  round_loop-IsFound concurrency per_device (suc k) [] rs s order hp ho = (rs, s, refl, ho)
  round_loop-IsFound concurrency per_device (suc k) (id ∷ ids) rs s order hp ho =
      let active = max (min concurrency (length (id ∷ ids))) 1 in
      let task = λ (target : DeviceId). pair_device b target agent per_device in
      let perm = buffered active task (id ∷ ids) s in
      let outs = run active task (id ∷ ids) s in
      let (rs1, next, h1, h2, h3) =
        absorb-IsFound outs.0 rs [] order (All-Permᴰ (IsFound rs) _ _ (symm perm) hp) tt ho in
      let (rs', s', h4, h5) =
        round_loop-IsFound concurrency per_device k next rs1 outs.1 order h3 h2 in
      (rs', s', rw (h1, round_loop) h4, h5)

  pub pair_rounds-IsFound :
      (options : BatchPairOptions) (concurrency : ℕ) (order : List DeviceId) (rs : Items) (s : S)
      → IsDistinct order
      → All (IsFound rs) order
      → (items : List PairItem) × (s' : S) × (pair_rounds b run agent options concurrency order rs s
          ≡ some (items, s'))
        × (map (λ (i : PairItem). i.id) items ≡ order)
  unfolding pair_rounds
  pair_rounds-IsFound options concurrency order rs s distinct found =
      let (rs', s', h1, h2) =
        round_loop-IsFound concurrency (record (options.per_device) { spoof_local = none })
          (max options.rounds 1) order rs s order found found in
      let (items, h3, h4) = collect-IsFound order rs' distinct h2 in
      (items, s', rw (h1, h3, pair_rounds) refl, h4)

  pub spoof_failed-ids :
      (e : TransportError) (ids : List DeviceId)
      → map (λ (i : PairItem). i.id) (spoof_failed b run agent e ids) ≡ ids
  spoof_failed-ids e [] = refl
  spoof_failed-ids e (id ∷ ids) = ap (λ l. id ∷ l) (spoof_failed-ids e ids)
