-- ===== src/Retry/Calls.antt =====
-- internal/retry/retry.go: how often `Do` calls the function that it retries.
use signalstream.Common.{
  ℕ, zero, suc, ◌+◌, ◌≤◌, ◌<◌, ◌≡◌, refl, ap, subst, false, some, none, Failure, Err, wrap, Text,
  arith, inl, inr, Bool-cases, Option-cases,
}
use signalstream.Common.Int.{ℤ, pos}
use signalstream.Retry.{
  Floats, Runtime, Config, attempts, do_retry, pause, rounds, exhausted_message, is_last,
}
use signalstream.Retry.Steps.{attempts-success, attempts-last, attempts-interrupted, attempts-again}

-- `P n s` says that state `s` is one after `n` calls, whatever is being counted.
module _ {S F : Type 0} (fl : Floats F) (rt : Runtime S F) (cfg : Config F) (operation : Text)
    (fn : S → Failure × S) (P : ℕ → S → Type 0)
    (counted : (n : ℕ) (s : S) → P n s → P (suc n) (fn s).1)
    (random_keeps : (n : ℕ) (s : S) → P n s → P n (rt.random s).1)
    (wait_keeps : (n : ℕ) (d : ℤ) (s : S) → P n s → P n (rt.wait d s).1) where
  abbrev Run : ℕ → ℕ → Failure → S → Failure × S
  Run = attempts fl rt cfg operation fn

  pause_keeps : (n attempt : ℕ) (s : S) → P n s → P n (pause fl rt cfg attempt s).1
  unfolding pause
  pause_keeps n attempt s p = wait_keeps n _ _ (random_keeps n s p)

  abbrev Within : ℕ → ℕ → S → Type 0
  Within k left s = (n : ℕ) × (k ≤ n) × (n ≤ k + left) × P n s

  attempts-Within :
      (k left attempt : ℕ) (last : Failure) (s : S)
      → P k s
      → Within k left (Run left attempt last s).1
  unfolding attempts
  attempts-Within k zero attempt last s p = (k, omega arith, omega arith, p)
  attempts-Within k (suc left) attempt last s p = elim (Option-cases (rt.ctx_err s)) [
    | inr (e, done) ↦ rw (done, attempts) (k, omega arith, omega arith, p)
    | inl live ↦
        let q = counted k s p in
        let once : Within k (suc left) (fn s).1 = (suc k, omega arith, omega arith, q) in
        elim (Option-cases (fn s).0) [
          | inl fine ↦
              rw (attempts-success fl rt cfg operation fn left attempt last s live fine) once
          | inr (e, failed) ↦ elim (Bool-cases (is_last attempt cfg.max_retries)) [
            | inl at_end ↦
                rw (attempts-last fl rt cfg operation fn left attempt last s live failed at_end)
                  once
            | inr more ↦
                let q' = pause_keeps (suc k) attempt (fn s).1 q in
                elim (Bool-cases (pause fl rt cfg attempt (fn s).1).0) [
                  | inl done ↦
                      rw
                        (attempts-interrupted fl rt cfg operation fn left attempt last s live failed
                          more done)
                        (suc k, omega arith, omega arith, q')
                  | inr waited ↦
                      let (n, low, high, r) =
                        attempts-Within (suc k) left (attempt + 1) (some e) _ q' in
                      rw
                        (attempts-again fl rt cfg operation fn left attempt last s live failed more
                          waited)
                        (n, omega arith, omega arith, r)
                ]
          ]
        ]
  ]

  -- The counted form: after `Do`, `P n` holds for some number of calls `n` that is allowed.
  pub do_retry-counted :
      (s : S)
      → P 0 s
      → (n : ℕ) × (n ≤ rounds cfg.max_retries) × P n (do_retry fl rt cfg operation fn s).1
  unfolding do_retry
  do_retry-counted s p =
      let (n, _, high, q) = attempts-Within 0 (rounds cfg.max_retries) 0 none s p in
      (n, omega arith, q)

  module _ (never_done : (s : S) → rt.ctx_err s ≡ none)
      (no_interrupt : (d : ℤ) (s : S) → (rt.wait d s).0 ≡ false)
      (fails : (s : S) → (e : Err) × ((fn s).0 ≡ some e)) where
    pause-goes_on : (attempt : ℕ) (s : S) → (pause fl rt cfg attempt s).0 ≡ false
    unfolding pause
    pause-goes_on attempt s = no_interrupt _ _

    -- The result wraps the error of the call that has just failed.
    abbrev GaveUp : ℕ → Failure × S → Type 0
    GaveUp n r =
        (before : S) × (e : Err) × (fn before ≡ (some e, r.1))
        × (r.0 ≡ some (wrap (exhausted_message operation cfg.max_retries) e))
        × P n r.1

    attempts-GaveUp :
        (k max left attempt : ℕ) (last : Failure) (s : S)
        → cfg.max_retries ≡ pos max
        → left + attempt ≡ suc max
        → 0 < left
        → P k s
        → GaveUp (k + left) (Run left attempt last s)
    unfolding is_last
    attempts-GaveUp k max zero attempt last s m h l p = absurd (omega arith)
    attempts-GaveUp k max (suc left) attempt last s m h l p =
        let (e, failed) = fails s in
        let live = never_done s in
        let q = counted k s p in
        elim (Bool-cases (is_last attempt cfg.max_retries)) [
          | inl at_end ↦
              rw (attempts-last fl rt cfg operation fn left attempt last s live failed at_end)
                (s, e, ground arith, refl, subst (λ n. P n (fn s).1) (ground arith) q)
          | inr more ↦
              rw
                (attempts-again fl rt cfg operation fn left attempt last s live failed more
                  (pause-goes_on attempt (fn s).1))
                (subst
                  (λ n.
                    GaveUp n (Run left (attempt + 1) (some e) (pause fl rt cfg attempt (fn s).1).1))
                  (omega arith)
                  (attempts-GaveUp (suc k) max left (attempt + 1) (some e) _ m (omega arith)
                    (ground arith) (pause_keeps (suc k) attempt (fn s).1 q)))
        ]

    pub do_retry-GaveUp :
        (max : ℕ) (s : S)
        → cfg.max_retries ≡ pos max
        → P 0 s
        → let (failure, s') = do_retry fl rt cfg operation fn s in
          (before : S) × (e : Err) × (fn before ≡ (some e, s'))
          × (failure ≡ some (wrap (exhausted_message operation cfg.max_retries) e))
          × P (suc max) s'
    unfolding do_retry rounds
    do_retry-GaveUp max s m p = rw (ap rounds m) (
        subst (λ n. GaveUp n (Run (suc max) 0 none s)) (omega arith)
          (attempts-GaveUp 0 max (suc max) 0 none s m (omega arith) (omega arith) p))

module _ {S F : Type 0} (fl : Floats F) (rt : Runtime S F) (cfg : Config F) (operation : Text)
    (fn : S → Failure × S) (calls : S → ℕ) (counted : (s : S) → calls (fn s).1 ≡ suc (calls s))
    (random_keeps : (s : S) → calls (rt.random s).1 ≡ calls s)
    (wait_keeps : (d : ℤ) (s : S) → calls (rt.wait d s).1 ≡ calls s) where
  -- `Do` calls the function at most `MaxRetries + 1` times, and never if `MaxRetries` is negative.
  -- The hypotheses: each call adds one to `calls`, and neither the random source nor a wait does.
  pub do_retry-calls_bounds :
      (s : S)
      → let s' = (do_retry fl rt cfg operation fn s).1 in
        (calls s ≤ calls s') × (calls s' ≤ calls s + rounds cfg.max_retries)
  do_retry-calls_bounds s =
      let (n, high, e) =
        do_retry-counted fl rt cfg operation fn (λ n s'. calls s' ≡ calls s + n)
          (λ n s' p. omega (arith, counted s')) (λ n s' p. omega (arith, random_keeps s'))
          (λ n d s' p. omega (arith, wait_keeps d s')) s (omega arith) in
      (omega arith, omega arith)

  -- If the function always fails and the context is never done, `Do` calls it exactly
  -- `MaxRetries + 1` times and returns, right after the last call, the error that wraps the one
  -- which that call returned. The hypotheses: each call adds one to `calls`, and neither the random source nor a wait does.
  pub do_retry-exhausts :
      ((s : S) → rt.ctx_err s ≡ none)
      → ((d : ℤ) (s : S) → (rt.wait d s).0 ≡ false)
      → ((s : S) → (e : Err) × ((fn s).0 ≡ some e))
      → (max : ℕ) (s : S) → cfg.max_retries ≡ pos max
      → let (failure, s') = do_retry fl rt cfg operation fn s in
        (before : S) × (e : Err) × (fn before ≡ (some e, s'))
        × (failure ≡ some (wrap (exhausted_message operation cfg.max_retries) e))
        × (calls s' ≡ calls s + suc max)
  do_retry-exhausts never_done no_interrupt fails max s m =
      do_retry-GaveUp fl rt cfg operation fn (λ n s'. calls s' ≡ calls s + n)
        (λ n s' p. omega (arith, counted s')) (λ n s' p. omega (arith, random_keeps s'))
        (λ n d s' p. omega (arith, wait_keeps d s')) never_done no_interrupt fails max s m
        (omega arith)
