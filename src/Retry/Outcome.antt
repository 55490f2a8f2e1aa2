-- ===== src/Retry/Outcome.antt =====
-- internal/retry/retry.go: what `Do` returns.
use signalstream.Common.{
  subst, ap, ℕ, ◌<◌, ◌≤◌, zero, suc, ◌+◌, ◌≡◌, refl, Bool, true, false, ◌++◌, codes, itoa, some,
  none, Failure, Err, wrap, wrap_quoting, plain, Text, arith, inl, inr, Bool-cases, Option-cases,
}
use signalstream.Common.Int.{pos}
use signalstream.Retry.{
  Floats, Runtime, Config, attempts, do_retry, pause, rounds, cancelled, interrupted,
  exhausted_message, is_last, jittered, backoff_delay,
}
use signalstream.Retry.Steps.{attempts-success, attempts-last, attempts-interrupted, attempts-again}

module _ {S F : Type 0} (fl : Floats F) (rt : Runtime S F) (cfg : Config F) (operation : Text)
    (fn : S → Failure × S) where
  -- The wait behind failed call number `k + 1`: for a random part of its delay, with this outcome.
  abbrev pub Waits : ℕ → S → Bool × S → Type 0
  Waits k s outcome =
      let (r, s') = rt.random s in rt.wait (jittered fl (backoff_delay fl cfg k) r) s' ≡ outcome

  -- The error in front of call number `k + 1`: it wraps the context's, and quotes that of the call before.
  abbrev pub Stopping : Err → ℕ → Failure → Err → Type 0
  Stopping e k none error = error ≡ wrap (operation ++ codes ": ") e
  Stopping e k (some last) error =
      error
      ≡ wrap_quoting (operation ++ (codes ": (after " ++ (itoa k ++ codes " attempts)"))) e last

  -- The error of a wait that was cut short: it wraps the context's, if there is one, and then
  -- quotes that of the call before.
  abbrev pub CuttingShort : Failure → Err → Err → Type 0
  CuttingShort (some e) last error =
      error ≡ wrap_quoting (operation ++ codes ": (during backoff)") e last
  CuttingShort none last error = error ≡ plain (operation ++ codes ": (during backoff)")

  cancelled-Stopping :
      (e : Err) (k : ℕ) (last : Failure) → Stopping e k last (cancelled operation e k last)
  unfolding cancelled
  cancelled-Stopping e k none = refl
  cancelled-Stopping e k (some last) = refl

  interrupted-CuttingShort :
      (f : Failure) (last : Err) → CuttingShort f last (interrupted operation f last)
  unfolding interrupted
  interrupted-CuttingShort (some e) last = refl
  interrupted-CuttingShort none last = refl

  pause-Waits :
      (k : ℕ) (s : S) (done : Bool)
      → (pause fl rt cfg k s).0 ≡ done
      → Waits k s (done, (pause fl rt cfg k s).1)
  unfolding pause
  pause-Waits k s done h = ground arith

  -- `Behind s k last s'`: from `s`, `k` calls failed, the latest with the error `last`, and the wait behind
  -- each was not cut short; each was made while the context was not done. State `s'` is the one behind.
  pub data Behind (s : S) : ℕ → Failure → S → Type 0 where
    start : Behind s 0 none s
    round :
        (k : ℕ) (last : Failure) (before after : S) (e : Err)
        → Behind s k last before
        → rt.ctx_err before ≡ none
        → (fn before).0 ≡ some e
        → Waits k (fn before).1 (false, after)
        → Behind s (suc k) (some e) after

  -- What a result `(failure, s')` of `Do` from `s` rests on: the failed calls behind it, and then a call
  -- that has just succeeded, the context's error at that moment, a wait that was cut short behind one more
  -- failed call, or the failure of call number `max + 1`.
  pub data Returns (max : ℕ) (s : S) (failure : Failure) (s' : S) : Type 0 where
    succeeded :
        (k : ℕ) (last : Failure) (before : S)
        → k ≤ max
        → Behind s k last before
        → rt.ctx_err before ≡ none
        → fn before ≡ (none, s')
        → failure ≡ none
        → Returns max s failure s'
    stopped :
        (k : ℕ) (last : Failure) (e error : Err)
        → k ≤ max
        → Behind s k last s'
        → rt.ctx_err s' ≡ some e
        → Stopping e k last error
        → failure ≡ some error
        → Returns max s failure s'
    cut_short :
        (k : ℕ) (last : Failure) (before : S) (e error : Err)
        → k < max
        → Behind s k last before
        → rt.ctx_err before ≡ none
        → (fn before).0 ≡ some e
        → Waits k (fn before).1 (true, s')
        → CuttingShort (rt.ctx_err s') e error
        → failure ≡ some error
        → Returns max s failure s'
    gave_up :
        (last : Failure) (before : S) (e : Err)
        → Behind s max last before
        → rt.ctx_err before ≡ none
        → fn before ≡ (some e, s')
        → failure ≡ some (wrap (exhausted_message operation cfg.max_retries) e)
        → Returns max s failure s'

  abbrev Sound : ℕ → S → Failure × S → Type 0
  Sound max s r = Returns max s r.0 r.1

  attempts-Returns :
      (max left k : ℕ) (last : Failure) (s₀ s : S)
      → cfg.max_retries ≡ pos max
      → left + k ≡ suc max
      → 0 < left
      → Behind s₀ k last s
      → Sound max s₀ (attempts fl rt cfg operation fn left k last s)
  unfolding is_last
  attempts-Returns max zero k last s₀ s m h p b = absurd (omega arith)
  attempts-Returns max (suc left) k last s₀ s m h p b = elim (Option-cases (rt.ctx_err s)) [
    | inr (e, done) ↦
        unfold attempts in
        rw (done, attempts)
          (stopped k last e _ (omega arith) b done (cancelled-Stopping e k last) refl)
    | inl live ↦ elim (Option-cases (fn s).0) [
      | inl fine ↦
          rw (attempts-success fl rt cfg operation fn left k last s live fine)
            (succeeded k last s (omega arith) b live (ground arith) refl)
      | inr (e, failed) ↦ elim (Bool-cases (is_last k cfg.max_retries)) [
        | inl at_end ↦
            let at_max : k ≡ max = ground arith in
            rw (attempts-last fl rt cfg operation fn left k last s live failed at_end)
              (gave_up last s e (subst (λ n. Behind s₀ n last s) at_max b) live (ground arith) refl)
        | inr more ↦
            let below : k < max = ground arith in
            elim (Bool-cases (pause fl rt cfg k (fn s).1).0) [
              | inl done ↦
                  rw
                    (attempts-interrupted fl rt cfg operation fn left k last s live failed more
                      done)
                    (cut_short k last s e _ below b live failed (pause-Waits k _ true done)
                      (interrupted-CuttingShort _ e) refl)
              | inr waited ↦
                  let b' : Behind s₀ (k + 1) (some e) (pause fl rt cfg k (fn s).1).1 =
                    subst (λ n. Behind s₀ n (some e) (pause fl rt cfg k (fn s).1).1) (omega arith)
                      (round k last s _ e b live failed (pause-Waits k _ false waited)) in
                  rw (attempts-again fl rt cfg operation fn left k last s live failed more waited) (
                    attempts-Returns max left (k + 1) (some e) s₀ _ m (omega arith) (omega arith)
                      b')
            ]
      ]
    ]
  ]

  -- With a `MaxRetries` of `max`, not negative, `Do` makes calls while the context is not done, each but
  -- the last of them failing and followed by a wait, of its jittered delay, that runs to its end. It
  -- returns `nil` right after a call that succeeded, at most the one with number `max + 1`; an error that
  -- wraps the context's error and quotes that of the last call, if there are such, when the context is
  -- done in front of one of these calls, or when the wait behind a failed call was cut short, which is not
  -- the call with number `max + 1`; and one that wraps the error of the last call right after it if its
  -- number was `max + 1`.
  pub do_retry-Returns :
      (max : ℕ) (s : S)
      → cfg.max_retries ≡ pos max
      → let (failure, s') = do_retry fl rt cfg operation fn s in Returns max s failure s'
  unfolding do_retry rounds
  do_retry-Returns max s m =
      rw (ap rounds m)
        (attempts-Returns max (suc max) 0 none s s m (omega arith) (omega arith) start)

  pub Returns-none :
      (max : ℕ) (s s' : S) → Returns max s none s' → (before : S) × (fn before ≡ (none, s'))
  Returns-none max s s' (succeeded k last before _ _ _ e _) = (before, e)
  Returns-none max s s' (stopped k last e error _ _ _ _ e') = cc
  Returns-none max s s' (cut_short k last before e error _ _ _ _ _ _ e') = cc
  Returns-none max s s' (gave_up last before e _ _ _ e') = cc

  -- The call behind a `nil` result.
  pub do_retry-last_call :
      (max : ℕ) (s : S)
      → cfg.max_retries ≡ pos max
      → (do_retry fl rt cfg operation fn s).0 ≡ none
      → (before : S) × (fn before ≡ (none, (do_retry fl rt cfg operation fn s).1))
  do_retry-last_call max s m h =
      let s' = (do_retry fl rt cfg operation fn s).1 in
      Returns-none max s s' (subst (λ f. Returns max s f s') h (do_retry-Returns max s m))
