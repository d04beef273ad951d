-- ===== src/Transport/Retry.antt =====
-- What a bounded retry of an operation does: attempts that fail in a way that is worth another
-- one, and then an end. The workflows of pairing and of uploads are both instances.
use pax.Prelude.{
  ℕ, zero, suc, ◌<◌, ◌≡◌, refl, Bool, true, false, Option, none, some, arith, ◌⊎◌, inl, inr,
}
use pax.Transport.Error.{TransportError, Result, ok, err, Op}

-- An end can be reported: an error was recorded, or a round is left.
abbrev pub CanEnd : Option TransportError → ℕ → Type 0
CanEnd (some e) n = Unit
CanEnd none zero = ⊥
CanEnd none (suc n) = Unit

module _ {S : Type 0} {A : Type 0} (op : Op S A) (again : TransportError → Bool) where
  -- `k` attempts from `s` to `s'`, each failing with an error that is retried; `last` is the
  -- error of the latest, or the one from before.
  unfoldable pub Failing : ℕ → Option TransportError → S → Option TransportError → S → Type 0
  Failing zero before s last s' = (last ≡ before) × (s' ≡ s)
  Failing (suc k) before s last s' =
      (e : TransportError) × (s1 : S) × (op s ≡ (err e, s1))
      × (again e ≡ true)
      × Failing k (some e) s1 last s'

  -- The end of at most `n` attempts from `s`: the result, the number of failures before the
  -- deciding attempt, and the state left.
  pub data Ending (n : ℕ) (before : Option TransportError) (s : S) : Result A → ℕ → S → Type 0 where
    succeeds :
        (k : ℕ) (last : Option TransportError) (s1 s2 : S) (a : A)
        → k < n
        → Failing k before s last s1
        → op s1 ≡ (ok a, s2)
        → Ending n before s (ok a) k s2
    stops :
        (k : ℕ) (last : Option TransportError) (s1 s2 : S) (e : TransportError)
        → k < n
        → Failing k before s last s1
        → op s1 ≡ (err e, s2)
        → again e ≡ false
        → Ending n before s (err e) k s2
    runs_out :
        (e : TransportError) (s1 : S)
        → Failing n before s (some e) s1
        → Ending n before s (err e) n s1

  -- An attempt before the others.
  pub Ending-after :
      (n : ℕ) (before : Option TransportError) (s : S) (e : TransportError) (s1 : S) (r : Result A)
      (k : ℕ) (s2 : S)
      → op s ≡ (err e, s1)
      → again e ≡ true
      → Ending n (some e) s1 r k s2
      → Ending (suc n) before s r (suc k) s2
  unfolding Failing
  Ending-after n before s e s1 _ _ _ h ha (succeeds k last t s2 a lt f g) =
      succeeds (suc k) last t s2 a (omega arith) (e, s1, h, ha, f) g
  Ending-after n before s e s1 _ _ _ h ha (stops k last t s2 e' lt f g fin) =
      stops (suc k) last t s2 e' (omega arith) (e, s1, h, ha, f) g fin
  Ending-after n before s e s1 _ _ _ h ha (runs_out e' t f) = runs_out e' t (e, s1, h, ha, f)

pub outcome-cases {ℓ} :
    {S : Type 0} {A : Type ℓ} (p : Result A × S)
    → ((a : A) × (p.0 ≡ ok a) × (p ≡ (ok a, p.1)))
      ⊎ ((e : TransportError) × (p.0 ≡ err e) × (p ≡ (err e, p.1)))
outcome-cases (ok a, s) = inl (a, refl, refl)
outcome-cases (err e, s) = inr (e, refl, refl)
