-- ===== src/Transport/Bluez/Wpa/Best.antt =====
-- The state that a refresh stores.
use pax.Prelude.{
  Bool, subst, ◌≤◌, ◌<◌, ◌≡◌, ◌⊎◌, refl, Option, none, some, List, [], ◌∷◌, ltb, Bool-cases, inl,
  inr, arith, ltb→lt, if◌then◌else◌, All,
}
use pax.Str.{Str}
use pax.Core.Standards.{PortAuthState, not_applicable}
use pax.Transport.Error.{ok}
use pax.Transport.Radio.{done}
use pax.Transport.Bluez.Wpa.{
  Supplicant, WpaSupplicantStandards, rank, read_iface, better, refresh_loop, store_best, refresh,
}

module _ {W : Type 0} (wpa : Supplicant W) (want : Option Str) where
  -- The states of the interfaces that count, each read after the ones before it.
  abbrev pub states : List Str → W → List PortAuthState
  states [] w = []
  states (path ∷ paths) w =
      let (got, w1) = read_iface wpa want path w in
      let rest = states paths w1 in elim got [ none ↦ rest | some s ↦ s ∷ rest ]

-- Membership in a list of states.
abbrev pub Among : PortAuthState → List PortAuthState → Type 0
Among s [] = ⊥
Among s (x ∷ xs) = (s ≡ x) ⊎ Among s xs

-- A state that no state of a list outranks, and that is one of them or the one from before.
abbrev pub IsBest : PortAuthState → List PortAuthState → PortAuthState → Type 0
IsBest before xs best =
    ((best ≡ before) ⊎ Among best xs) × (rank before ≤ rank best) × All (λ x. rank x ≤ rank best) xs

IsBest-step :
    (before s : PortAuthState) (xs : List PortAuthState) (best : PortAuthState)
    → IsBest (better (some s) before) xs best
    → IsBest before (s ∷ xs) best
unfolding better
IsBest-step before s xs best h =
    let chosen = λ (b : Bool). IsBest (if b then s else before) xs best in
    elim (Bool-cases (ltb (rank before) (rank s))) [
      | inl e ↦
          let (from, above, all) = subst chosen e h in
          let below : rank before < rank s = ltb→lt (rank before) (rank s) e in
          (inr from, omega (arith, below, above), (above, all))
      | inr e ↦
          let (from, above, all) = subst chosen e h in
          let over : rank s ≤ rank before = ground arith in
          (later from, above, (omega (arith, over, above), all))
    ]
  where
    later : (best ≡ before) ⊎ Among best xs → (best ≡ before) ⊎ Among best (s ∷ xs)
    later (inl same) = inl same
    later (inr here) = inr (inr here)

module _ {W : Type 0} (wpa : Supplicant W) where
  refresh_loop-IsBest :
      (want : Option Str) (paths : List Str) (before : PortAuthState) (w : W)
      → IsBest before (states wpa want paths w) (refresh_loop wpa want paths before w).0
  unfolding refresh_loop
  refresh_loop-IsBest want [] before w = (inl refl, omega arith, tt)
  refresh_loop-IsBest want (path ∷ paths) before w =
      let (got, w1) = read_iface wpa want path w in
      let rest = refresh_loop-IsBest want paths (better got before) w1 in step got w1 rest
    where
      step :
          (got : Option PortAuthState) (w1 : W)
          → IsBest
              (better got before)
              (states wpa want paths w1)
              (refresh_loop wpa want paths (better got before) w1).0
          → IsBest before
              (elim got [ none ↦ states wpa want paths w1 | some s ↦ s ∷ states wpa want paths w1 ])
              (refresh_loop wpa want paths (better got before) w1).0
      step none w1 h = h
      step (some s) w1 h = IsBest-step before s (states wpa want paths w1) _ h

  -- A refresh whose interfaces are listed succeeds and stores a state that no state of a wanted and
  -- readable interface outranks: one of theirs, or not applicable.
  pub refresh-IsBest :
      (s : WpaSupplicantStandards W) (paths : List Str)
      → let w = (wpa.root_proxy s.world).1 in
        (wpa.root_proxy s.world).0 ≡ done tt
        → (wpa.interfaces w).0 ≡ done paths
        → ((refresh wpa s).0 ≡ ok tt)
          × IsBest not_applicable
              (states wpa s.ifname paths (wpa.interfaces w).1)
              (refresh wpa s).1.state
  unfolding refresh store_best
  refresh-IsBest s paths root lists =
      let w = (wpa.root_proxy s.world).1 in
      rw (refresh, root, lists)
        (refl, refresh_loop-IsBest s.ifname paths not_applicable (wpa.interfaces w).1)
