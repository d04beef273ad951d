-- ===== src/Transfer/Upload/Runs.antt =====
-- Every way that an upload can end.
use pax.Prelude.{
  ℕ, zero, suc, ◌-◌, ◌≡◌, refl, ap, Option, none, some, List, [], ◌∷◌, ◌++◌, append_snoc,
  append-nil, ◌⊎◌, arith, Bool-cases, inl, inr,
}
use pax.Core.Device.{DeviceId}
use pax.Transport.Error.{TransportError, Result, ok, err, ◌>>=◌}
use pax.Transport.Backend.{Backend, Connection}
use pax.Transport.Transfer.{OutboundFile, TransferReceipt}
use pax.Transport.Retry.{
  Failing, Ending, succeeds, stops, runs_out, Ending-after, CanEnd, outcome-cases,
}
use pax.Transfer.Upload.{
  UploadOptions, max_attempts, is_transient, push_loop, push_with_retries, hang_up, push_all,
  upload_files,
}

module _ {S A : Type 0} (b : Backend S A) where
  module _ (conn : Connection) (file : OutboundFile) where
    -- The end of at most `n` pushes.
    abbrev pub PushEnds : ℕ → Option TransportError → S → Result TransferReceipt × S → Type 0
    PushEnds n before s p =
        (k : ℕ) × Ending (b.push_file conn file) is_transient n before s p.0 k p.1

    push_loop-Ending :
        (n : ℕ) (before : Option TransportError) (s : S)
        → CanEnd before n
        → PushEnds n before s (push_loop b conn file n before s)
    unfolding push_loop Failing
    push_loop-Ending zero none s h = elim h [ ]
    push_loop-Ending zero (some e) s h = (0, runs_out e s (refl, refl))
    push_loop-Ending (suc n) before s _ = elim (outcome-cases (b.push_file conn file s)) [
      | inl (r, h0, h) ↦
          let s1 = (b.push_file conn file s).1 in
          (0, rw (h0, push_loop) (succeeds 0 before s s1 r (omega arith) (refl, refl) h))
      | inr (e, h0, h) ↦
          let s1 = (b.push_file conn file s).1 in
          elim (Bool-cases (is_transient e)) [
            | inr fin ↦ (
              0,
              rw (h0, fin, push_loop) (stops 0 before s s1 e (omega arith) (refl, refl) h fin),
            )
            | inl more ↦
                let (k, rest) = push_loop-Ending n (some e) s1 tt in
                (
                  suc k,
                  rw (h0, more, push_loop) (Ending-after _ _ n before s e s1 _ k _ h more rest),
                )
          ]
    ]

    -- A push with retries ends as a retry of `push_file` with `retries + 1` rounds (a u32,
    -- saturated): transient failures, and then a receipt, the first error that is not
    -- transient, or the last failure when the rounds are used up.
    pub push_with_retries-Ending :
        (retries : ℕ) (s : S)
        → (k : ℕ) × Ending
            (b.push_file conn file)
            is_transient
            (max_attempts retries)
            none
            s
            (push_with_retries b conn file retries s).0
            k
            (push_with_retries b conn file retries s).1
    unfolding push_with_retries
    push_with_retries-Ending retries s =
        let rounds : max_attempts retries ≡ suc (max_attempts retries - 1) = omega arith in
        let can : CanEnd none (max_attempts retries) = rw rounds tt in
        push_loop-Ending (max_attempts retries) none s can

  -- The files of a batch, pushed in order over one link from `s` to `s'`: all of them with
  -- their receipts, or those before the first that fails.
  unfoldable pub Pushed : Connection → ℕ → List OutboundFile → List TransferReceipt → S → S → Type 0
  Pushed conn retries [] [] s s' = s' ≡ s
  Pushed conn retries [] (r ∷ rs) s s' = ⊥
  Pushed conn retries (f ∷ fs) [] s s' = ⊥
  Pushed conn retries (f ∷ fs) (r ∷ rs) s s' =
      (s1 : S) × (push_with_retries b conn f retries s ≡ (ok r, s1))
      × Pushed conn retries fs rs s1 s'

  pub data BatchEnds (conn : Connection) (retries : ℕ) (files : List OutboundFile)
      (before : List TransferReceipt) (s : S) : Result (List TransferReceipt) × S → Type 0 where
    all_pushed :
        (rs : List TransferReceipt) (s' : S)
        → Pushed conn retries files rs s s'
        → BatchEnds conn retries files before s (ok (before ++ rs), s')
    one_failed :
        (done : List OutboundFile) (f : OutboundFile) (rest : List OutboundFile)
        (rs : List TransferReceipt) (s1 s' : S) (e : TransportError)
        → files ≡ done ++ f ∷ rest
        → Pushed conn retries done rs s s1
        → push_with_retries b conn f retries s1 ≡ (err e, s')
        → BatchEnds conn retries files before s (err e, s')

  BatchEnds-after :
      (conn : Connection) (retries : ℕ) (f : OutboundFile) (fs : List OutboundFile)
      (before : List TransferReceipt) (s s1 : S) (r : TransferReceipt)
      (p : Result (List TransferReceipt) × S)
      → push_with_retries b conn f retries s ≡ (ok r, s1)
      → BatchEnds conn retries fs (before ++ r ∷ []) s1 p
      → BatchEnds conn retries (f ∷ fs) before s p
  unfolding Pushed
  BatchEnds-after conn retries f fs before s s1 r _ h (all_pushed rs s' hp) =
      rw (append_snoc before r rs) (all_pushed (r ∷ rs) s' (s1, h, hp))
  BatchEnds-after conn retries f fs before s s1 r _ h (one_failed done g rest rs t s' e hf hp he) =
      one_failed (f ∷ done) g rest (r ∷ rs) t s' e (ap (λ l. f ∷ l) hf) (s1, h, hp) he

  pub push_all-BatchEnds :
      (conn : Connection) (retries : ℕ) (files : List OutboundFile) (before : List TransferReceipt)
      (s : S)
      → BatchEnds conn retries files before s (push_all b conn retries files before s)
  unfolding push_all Pushed
  push_all-BatchEnds conn retries [] before s =
      let done : BatchEnds conn retries [] before s (ok (before ++ []), s) = all_pushed [] s refl in
      rw (append-nil before) at done
  push_all-BatchEnds conn retries (f ∷ fs) before s =
      elim (outcome-cases (push_with_retries b conn f retries s)) [
        | inl (r, h0, h) ↦
            let s1 = (push_with_retries b conn f retries s).1 in
            rw (h0, push_all)
              (BatchEnds-after conn retries f fs before s s1 r _ h
                (push_all-BatchEnds conn retries fs (before ++ r ∷ []) s1))
        | inr (e, h0, h) ↦
            let s1 = (push_with_retries b conn f retries s).1 in
            rw (h0, push_all) (one_failed [] f fs [] s s1 e refl refl h)
      ]

  -- `upload_files` to a device that cannot be connected answers with that error and leaves the
  -- rest undone; else it pushes the files in order over one link up to the first that fails,
  -- with a receipt for each when none does, and, if asked to, hangs up in both cases.
  pub upload_files-BatchEnds :
      (target : DeviceId) (files : List OutboundFile) (options : UploadOptions) (s : S)
      → ((e : TransportError) × (s' : S) × (b.connect target s ≡ (err e, s'))
          × (upload_files b target files options s ≡ (err e, s')))
        ⊎ ((conn : Connection) × (s1 : S) × (r : Result (List TransferReceipt)) × (s2 : S)
            × (b.connect target s ≡ (ok conn, s1))
            × BatchEnds conn options.retries files [] s1 (r, s2)
            × (upload_files b target files options s
                ≡ (r, hang_up b options.disconnect_after conn s2)))
  unfolding upload_files
  upload_files-BatchEnds target files options s = elim (outcome-cases (b.connect target s)) [
    | inr (e, h0, h) ↦ inl (e, (b.connect target s).1, h, rw (h0, ◌>>=◌) refl)
    | inl (conn, h0, h) ↦
        let s1 = (b.connect target s).1 in
        let p = push_all b conn options.retries files [] s1 in
        inr (
          conn,
          s1,
          p.0,
          p.1,
          h,
          push_all-BatchEnds conn options.retries files [] s1,
          rw (h0, ◌>>=◌) refl,
        )
  ]
