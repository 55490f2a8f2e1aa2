-- ===== src/Retry.antt =====
-- internal/retry/retry.go: exponential backoff with jitter. The clock, the random source and the
-- context are parameters over a state `S`, which the retried function changes too; float64 is the
-- abstract type `F`.
pub mod Steps
pub mod Calls
pub mod Outcome
pub mod Delay
mod Tests
use signalstream.Common.{
  ℕ, zero, suc, ◌+◌, ◌^◌, Bool, true, false, ◌++◌, some, none, Err, wrap, wrap_quoting, plain,
  Failure, Text, codes, itoa, itoa_ℤ, ◌==◌, if◌then◌else◌,
}
use signalstream.Common.Int.{ℤ, pos, negsuc, ltb_ℤ}

-- The float64 operations that the delays use; `power x n` is `math.Pow(x, float64(n))`, and
-- `to_int` the conversion to `time.Duration`, which counts nanoseconds.
pub record Floats (F : Type 0) : Type 0 where
  pub of_int : ℤ → F
  pub to_int : F → ℤ
  pub mul : F → F → F
  pub add : F → F → F
  pub power : F → ℕ → F
  pub half : F
  pub two : F

pub record Config (F : Type 0) : Type 0 where
  pub max_retries : ℤ
  pub base_delay : ℤ
  pub max_delay : ℤ
  pub multiplier : F

abbrev pub millisecond : ℕ
millisecond = 1_000_000

abbrev pub second : ℕ
second = 1_000_000_000

unfoldable pub default_config : {F : Type 0} → Floats F → Config F
default_config fl = record {
  max_retries = pos 3;
  base_delay = pos 500_000_000;
  max_delay = pos 10_000_000_000;
  multiplier = fl.two;
}

-- What the loop asks of the context, of `rand.Float64` and of the `select` between `ctx.Done()`
-- and `time.After`; `wait` answers true if `ctx.Done()` was taken.
pub record Runtime (S F : Type 0) : Type 0 where
  pub ctx_err : S → Failure
  pub random : S → F × S
  pub wait : ℤ → S → Bool × S

-- The same context, random source and timer for a state that also holds a variable which the retried
-- closure assigns.
abbrev pub with_local : {S F V : Type 0} → Runtime S F → Runtime (S × V) F
with_local rt = record {
  ctx_err = λ s. rt.ctx_err s.0;
  random = λ s. let (r, s') = rt.random s.0 in (r, (s', s.1));
  wait = λ d s. let (done, s') = rt.wait d s.0 in (done, (s', s.1));
}

-- How often the condition `attempt <= cfg.MaxRetries` can hold.
unfoldable pub rounds : ℤ → ℕ
rounds (pos n) = suc n
rounds (negsuc n) = 0

-- `attempt == cfg.MaxRetries`
unfoldable pub is_last : ℕ → ℤ → Bool
is_last attempt (pos n) = attempt == n
is_last attempt (negsuc n) = false

-- `n + 1` on an `int`, which has 64 bits.
suc_int : ℤ → ℤ
suc_int (pos n) = if suc n == 2 ^ 63 then negsuc n else pos (suc n)
suc_int (negsuc zero) = pos 0
suc_int (negsuc (suc n)) = negsuc n

module _ (operation : Text) where
  -- The error of the check at the head of a round.
  unfoldable pub cancelled : Err → ℕ → Failure → Err
  cancelled e attempt none = wrap (operation ++ codes ": ") e
  cancelled e attempt (some last) =
      wrap_quoting (operation ++ (codes ": (after " ++ (itoa attempt ++ codes " attempts)"))) e last

  -- `ctx.Err()` after `ctx.Done()` was taken; with no error `%w` formats `nil`.
  unfoldable pub interrupted : Failure → Err → Err
  interrupted (some e) last = wrap_quoting (operation ++ codes ": (during backoff)") e last
  interrupted none last = plain (operation ++ codes ": (during backoff)")

  unfoldable pub exhausted_message : ℤ → Text
  unfolding suc_int
  exhausted_message max_retries =
      operation
      ++ (codes ": all " ++ (itoa_ℤ (suc_int max_retries) ++ codes " retries exhausted: "))

  unfoldable pub exhausted : ℤ → Failure → Err
  exhausted max_retries none = plain (exhausted_message max_retries)
  exhausted max_retries (some e) = wrap (exhausted_message max_retries) e

module _ {F : Type 0} (fl : Floats F) where
  unfoldable pub backoff_delay : Config F → ℕ → ℤ
  backoff_delay cfg attempt =
      let delay = fl.to_int (fl.mul (fl.of_int cfg.base_delay) (fl.power cfg.multiplier attempt)) in
      if ltb_ℤ cfg.max_delay delay then cfg.max_delay else delay

  unfoldable pub jittered : ℤ → F → ℤ
  jittered delay r = fl.to_int (fl.mul (fl.of_int delay) (fl.add fl.half (fl.mul r fl.half)))

module _ {S F : Type 0} (fl : Floats F) (rt : Runtime S F) (cfg : Config F) where
  -- The jitter and the `select` behind a failed attempt.
  unfoldable pub pause : ℕ → S → Bool × S
  pause attempt s =
      let (r, s') = rt.random s in rt.wait (jittered fl (backoff_delay fl cfg attempt) r) s'

  module _ (operation : Text) (fn : S → Failure × S) where
    -- The loop with `left` rounds to go.
    unfoldable pub attempts : ℕ → ℕ → Failure → S → Failure × S
    attempts zero attempt last s = (some (exhausted operation cfg.max_retries last), s)
    attempts (suc left) attempt last s = elim (rt.ctx_err s) [
      | some e ↦ (some (cancelled operation e attempt last), s)
      | none ↦
          let (failure, s₁) = fn s in
          elim failure [
            | none ↦ (none, s₁)
            | some e ↦ elim (is_last attempt cfg.max_retries) [
              | true ↦ (some (exhausted operation cfg.max_retries (some e)), s₁)
              | false ↦
                  let (done, s₂) = pause attempt s₁ in
                  elim done [
                    | true ↦ (some (interrupted operation (rt.ctx_err s₂) e), s₂)
                    | false ↦ attempts left (attempt + 1) (some e) s₂
                  ]
            ]
          ]
    ]

    -- `Do`
    unfoldable pub do_retry : S → Failure × S
    do_retry s = attempts (rounds cfg.max_retries) 0 none s
