-- ===== src/Retry/Tests.antt =====
-- A function that always fails, one that recovers, and the theorems at these.
use Prim.Native.Nat.{min}
use signalstream.Common.{
  ℕ, zero, suc, ◌+◌, ◌*◌, ◌/◌, ◌^◌, ◌≡◌, refl, some, none, Failure, Err, wrap, plain, codes, arith,
}
use signalstream.Common.Int.{pos, ◌≤ℤ◌}
use signalstream.Retry.{
  do_retry, default_config, attempts, rounds, is_last, pause, backoff_delay, jittered,
  exhausted_message,
}
use signalstream.Retry.Calls.{do_retry-exhausts}
use signalstream.Retry.Outcome.{Returns, do_retry-Returns}
use signalstream.Retry.Delay.{default_wait_bounds}
use signalstream.Samples.{halves, halves-laws, calm}

-- The state counts the calls.
abbrev down : ℕ → Failure × ℕ
down n = (some (plain (codes "down")), suc n)

-- Fails twice, then succeeds.
abbrev recovering : ℕ → Failure × ℕ
recovering zero = (some (plain (codes "down")), 1)
recovering (suc zero) = (some (plain (codes "down")), 2)
recovering (suc (suc n)) = (none, suc (suc (suc n)))

recovers : do_retry halves calm (default_config halves) (codes "op") recovering 0 ≡ (none, 3)
unfolding do_retry attempts rounds is_last pause default_config
recovers = refl

do_retry-exhausts_example :
    let (failure, s') = do_retry halves calm (default_config halves) (codes "op") down 0 in
    (before : ℕ) × (e : Err) × (down before ≡ (some e, s'))
    × (failure ≡ some (wrap (exhausted_message (codes "op") (default_config halves).max_retries) e))
    × (s' ≡ 0 + suc 3)
unfolding default_config
do_retry-exhausts_example =
    do_retry-exhausts halves calm (default_config halves) (codes "op") down (λ n. n) (λ s. refl)
      (λ s. refl) (λ d s. refl) (λ s. refl) (λ d s. refl) (λ s. (plain (codes "down"), refl)) 3 0
      refl

do_retry-Returns_example :
    let (failure, s') = do_retry halves calm (default_config halves) (codes "op") down 0 in
    Returns halves calm (default_config halves) (codes "op") down 3 0 failure s'
unfolding default_config
do_retry-Returns_example =
    do_retry-Returns halves calm (default_config halves) (codes "op") down 3 0 refl

default_wait_bounds_example :
    let full = min (500_000_000 * 2 ^ 2) 10_000_000_000 in
    let wait = jittered halves (backoff_delay halves (default_config halves) 2) 1 in
    (pos (full / 2) ≤ℤ wait) × (wait ≤ℤ pos full)
default_wait_bounds_example =
    default_wait_bounds halves halves-laws 2 1 (omega arith) (omega arith) (omega arith)
