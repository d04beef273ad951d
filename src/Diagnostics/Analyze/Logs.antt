-- ===== src/Diagnostics/Analyze/Logs.antt =====
-- The analyzer on the events of a log, in any order.
use mathlib.Core.List.{Permᴰ}
use pax.Prelude.{ℕ, ◌+◌, ◌≡◌, ◌≢◌, ◌<◌, refl, ap, sym, ◌∙◌, List, [], ◌∷◌, arith, All, subst}
use pax.Str.{Str}
use pax.Core.Event.{TransitEvent}
use pax.Transport.Mock.{MockBackendBuilder, build}
use pax.Transport.Mock.Stream.{From, IsStream}
use pax.Transport.Mock.Stream.Kept.{IsOrdered}
use pax.Transport.Mock.Stream.Calls.{Call, run_all, run_all-build}
use pax.Diagnostics.Analyze.{new_analyzer, insert_by_seq, sort_by_seq}
use pax.Pairing.Batch.Keys.{All-Permᴰ}
use pax.Diagnostics.Analyze.Flags.{new_analyzer-run_all}

-- Other numbers than `n`.
abbrev Others : ℕ → List TransitEvent → Type 0
Others n = All (λ (f : TransitEvent). n ≢ f.seq)

-- No number is there twice.
unfoldable pub IsNumbered : List TransitEvent → Type 0
IsNumbered [] = Unit
IsNumbered (e ∷ es) = Others e.seq es × IsNumbered es

-- Events whose numbers differ are inserted in either order.
insert_comm :
    (a b : TransitEvent) (es : List TransitEvent)
    → a.seq ≢ b.seq
    → insert_by_seq a (insert_by_seq b es) ≡ insert_by_seq b (insert_by_seq a es)
unfolding insert_by_seq
insert_comm a b [] h = ground arith
insert_comm a b (e ∷ es) h = ground (arith, insert_comm a b es h)

IsNumbered-Permᴰ : (es fs : List TransitEvent) → Permᴰ es fs → IsNumbered es → IsNumbered fs
unfolding IsNumbered
IsNumbered-Permᴰ _ _ Permᴰ.nil h = h
IsNumbered-Permᴰ _ _ (Permᴰ.cons {a = a} {l₂ = l₂} eq p) (h1, h2) =
    (subst (λ x. Others x.seq l₂) eq (All-Permᴰ _ _ _ p h1), IsNumbered-Permᴰ _ _ p h2)
IsNumbered-Permᴰ _ _ (Permᴰ.swap {a = a} {b = b} {b' = b'} {l = l} e1 e2) ((h1, h2), (h3, h4)) =
    subst (λ y. IsNumbered (y ∷ b' ∷ l)) e2
      (subst (λ x. IsNumbered (b ∷ x ∷ l)) e1 ((λ same. h1 (sym same), h3), (h2, h4)))
IsNumbered-Permᴰ _ _ (Permᴰ.trans p q) h = IsNumbered-Permᴰ _ _ q (IsNumbered-Permᴰ _ _ p h)

-- The sort forgets the order in which events with different numbers are given.
sort-Permᴰ :
    (es fs : List TransitEvent) → Permᴰ es fs → IsNumbered es → sort_by_seq es ≡ sort_by_seq fs
unfolding sort_by_seq IsNumbered
sort-Permᴰ _ _ Permᴰ.nil h = refl
sort-Permᴰ _ _ (Permᴰ.cons {l₂ = l₂} eq p) (h1, h2) =
    ap (insert_by_seq _) (sort-Permᴰ _ _ p h2) ∙ ap (λ x. insert_by_seq x (sort_by_seq l₂)) eq
sort-Permᴰ _ _ (Permᴰ.swap {a = a} {b = b} {b' = b'} {l = l} e1 e2) ((h1, h2), _) =
    insert_comm a b (sort_by_seq l) h1
    ∙ ap (λ x. insert_by_seq b (insert_by_seq x (sort_by_seq l))) e1
    ∙ ap (λ y. insert_by_seq y (insert_by_seq b' (sort_by_seq l))) e2
sort-Permᴰ _ _ (Permᴰ.trans p q) h =
    sort-Permᴰ _ _ p h ∙ sort-Permᴰ _ _ q (IsNumbered-Permᴰ _ _ p h)

From-IsNumbered :
    (n lo : ℕ) (es : List TransitEvent) (m hi : ℕ)
    → From n lo es m hi
    → ((k : ℕ) → k < n → Others k es) × IsNumbered es
unfolding From IsNumbered
From-IsNumbered n lo [] m hi h = (λ k lt. tt, tt)
From-IsNumbered n lo (e ∷ es) m hi (h1, h2, h3) =
    let (others, numbered) = From-IsNumbered (n + 1) e.at.nanos es m hi h3 in
    (λ k lt. (λ same. omega arith, others k (omega arith)), (others e.seq (omega arith), numbered))

-- The events that a mock has emitted in any calls, handed to the analyzer in any order, are put
-- back in the order in which they were emitted.
pub new_analyzer-rearranged :
    (to_lowercase : Str → Str) {W : Type 0} (builder : MockBackendBuilder) (w : W)
    (cs : List (Call W)) (es : List TransitEvent)
    → Permᴰ (run_all to_lowercase cs (build builder, w)).0.emitted es
    → (new_analyzer es).events ≡ (run_all to_lowercase cs (build builder, w)).0.emitted
unfolding new_analyzer IsOrdered IsStream
new_analyzer-rearranged lower builder w cs es perm =
    let (stream, fresh) = run_all-build lower builder w cs in
    let numbered = (From-IsNumbered 0 0 _ _ _ stream).1 in
    sym (sort-Permᴰ _ es perm numbered) ∙ new_analyzer-run_all lower builder w cs
