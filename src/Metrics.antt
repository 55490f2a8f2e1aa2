-- ===== src/Metrics.antt =====
-- internal/metrics/metrics.go: process-wide counters, each an `atomic.Int64` that wraps around.
use signalstream.Common.{
  ℕ, zero, suc, ◌<◌, ◌≡◌, arith, ◌+◌, ◌-◌, ◌%◌, ◌^◌, List, [], ◌∷◌, Text, codes, ltb, if◌then◌else◌,
}
use signalstream.Common.Int.{ℤ, pos, negsuc}

abbrev pub int64_mod : ℕ
int64_mod = 2 ^ 64

-- Each field is the 64-bit pattern of the counter.
pub record Counters : Type 0 where
  pub events_ingested : ℕ
  pub events_processed : ℕ
  pub events_enriched : ℕ
  pub alerts_triggered : ℕ
  pub errors_total : ℕ
  pub retry_attempts : ℕ

-- `Add(1)`
unfoldable pub add_one : ℕ → ℕ
add_one c = (c + 1) % int64_mod

-- `Load()`: the pattern read as a signed integer.
unfoldable pub load : ℕ → ℤ
load c = if ltb c (2 ^ 63) then pos c else negsuc (int64_mod - 1 - c)

unfoldable pub snapshot : Counters → List (Text × ℤ)
unfolding load
snapshot c =
    (codes "events_ingested", load c.events_ingested)
    ∷ (codes "events_processed", load c.events_processed)
    ∷ (codes "events_enriched", load c.events_enriched)
    ∷ (codes "alerts_triggered", load c.alerts_triggered)
    ∷ (codes "errors_total", load c.errors_total)
    ∷ (codes "retry_attempts", load c.retry_attempts)
    ∷ []

-- `n` calls of `Add(1)`
unfoldable pub add_times : ℕ → ℕ → ℕ
add_times zero c = c
add_times (suc n) c = add_one (add_times n c)

add_times-eq : (n c : ℕ) → c + n < 2 ^ 63 → add_times n c ≡ c + n
unfolding add_times add_one
add_times-eq zero c h = omega arith
add_times-eq (suc n) c h = omega (arith, add_times-eq n c)

-- The counters after `n` retry attempts more.
abbrev pub more_retries : ℕ → Counters → Counters
more_retries n c = record c { retry_attempts = add_times n c.retry_attempts }

-- `n` increments of a counter read `n` more, as long as the signed 64-bit range is not left.
pub load-add_times : (n c : ℕ) → c + n < 2 ^ 63 → load (add_times n c) ≡ pos (c + n)
unfolding load
load-add_times n c h = rw (add_times-eq n c h) (ground arith)
