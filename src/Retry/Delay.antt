-- ===== src/Retry/Delay.antt =====
-- internal/retry/retry.go: the length of the waits. What float64 arithmetic guarantees on the values
-- that occur, which are exact below 2^53, is the record `FloatLaws`.
use Prim.Native.Nat.{min}
use signalstream.Common.{subst, ℕ, ◌*◌, ◌/◌, ◌^◌, ◌<◌, ◌≡◌, arith}
use signalstream.Common.Int.{pos, ◌≤ℤ◌}
use signalstream.Retry.{Floats, default_config, backoff_delay, jittered}

-- IEEE 754: the operations are exact where the result is an integer below 2^53 and monotone on
-- non-negative numbers; the conversion to an integer drops the fraction.
pub record FloatLaws {F : Type 0} (fl : Floats F) : Type 1 where
  pub le : F → F → Type 0
  pub zero_f : F
  pub one_f : F
  pub half_nonneg : le zero_f fl.half
  pub int_nonneg : (n : ℕ) → le zero_f (fl.of_int (pos n))
  pub mul_nonneg : (a b : F) → le zero_f a → le zero_f b → le zero_f (fl.mul a b)
  pub mul_mono : (c a b : F) → le zero_f c → le a b → le (fl.mul c a) (fl.mul c b)
  pub mul_mono_left : (c a b : F) → le zero_f c → le a b → le (fl.mul a c) (fl.mul b c)
  pub add_mono : (c a b : F) → le a b → le (fl.add c a) (fl.add c b)
  pub add_zero_half : fl.add fl.half (fl.mul zero_f fl.half) ≡ fl.half
  pub add_half_half : fl.add fl.half (fl.mul one_f fl.half) ≡ one_f
  pub mul_one : (a : F) → fl.mul a one_f ≡ a
  pub to_int_exact : (n : ℕ) → n < 2 ^ 53 → fl.to_int (fl.of_int (pos n)) ≡ pos n
  pub to_int_half :
      (n : ℕ) → n < 2 ^ 53 → fl.to_int (fl.mul (fl.of_int (pos n)) fl.half) ≡ pos (n / 2)
  pub to_int_mono :
      (n : ℕ) (a b : F)
      → n < 2 ^ 53
      → le a b
      → le b (fl.of_int (pos n))
      → le zero_f a
      → fl.to_int a ≤ℤ fl.to_int b
  pub to_int_power :
      (n k : ℕ)
      → n * 2 ^ k < 2 ^ 53
      → fl.to_int (fl.mul (fl.of_int (pos n)) (fl.power fl.two k)) ≡ pos (n * 2 ^ k)
  pub le_refl : (a : F) → le a a
  pub le_trans : (a b c : F) → le a b → le b c → le a c

module _ {F : Type 0} (fl : Floats F) (laws : FloatLaws fl) where
  open laws use {le, zero_f, one_f}

  -- A delay of `d` nanoseconds is stretched by 0.5 + r * 0.5 with r between 0 and 1.
  jittered_bounds :
      (d : ℕ) (r : F)
      → d < 2 ^ 53
      → le zero_f r
      → le r one_f
      → (pos (d / 2) ≤ℤ jittered fl (pos d) r) × (jittered fl (pos d) r ≤ℤ pos d)
  unfolding jittered
  jittered_bounds d r small low high =
      let x = fl.of_int (pos d) in
      let scale = fl.add fl.half (fl.mul r fl.half) in
      let x_nonneg = laws.int_nonneg d in
      let scale_low : le fl.half scale =
        subst (λ h. le h scale) laws.add_zero_half
          (laws.add_mono fl.half _ _ (laws.mul_mono_left fl.half zero_f r laws.half_nonneg low)) in
      let scale_high : le scale one_f =
        subst (λ h. le scale h) laws.add_half_half
          (laws.add_mono fl.half _ _ (laws.mul_mono_left fl.half r one_f laws.half_nonneg high)) in
      let scale_nonneg = laws.le_trans zero_f fl.half scale laws.half_nonneg scale_low in
      let below : le (fl.mul x scale) x =
        subst (λ h. le (fl.mul x scale) h) (laws.mul_one x)
          (laws.mul_mono x scale one_f x_nonneg scale_high) in
      let lower =
        laws.to_int_mono d (fl.mul x fl.half) (fl.mul x scale) small
          (laws.mul_mono x fl.half scale x_nonneg scale_low) below
          (laws.mul_nonneg x fl.half x_nonneg laws.half_nonneg) in
      let upper =
        laws.to_int_mono d (fl.mul x scale) x small below (laws.le_refl x)
          (laws.mul_nonneg x scale x_nonneg scale_nonneg) in
      (rw (laws.to_int_half d small) at lower, rw (laws.to_int_exact d small) at upper)

  -- With the default configuration the delay behind attempt `k` is 0.5 s doubled `k` times, at most
  -- 10 s, as long as the doubled delay is below 2^53 nanoseconds.
  default_delay :
      (k : ℕ)
      → 500_000_000 * 2 ^ k < 2 ^ 53
      → backoff_delay fl (default_config fl) k ≡ pos (min (500_000_000 * 2 ^ k) 10_000_000_000)
  unfolding backoff_delay default_config
  default_delay k h = rw (laws.to_int_power 500_000_000 k h) (ground arith)

  -- With the default configuration the wait behind attempt `k` lies between half and all of 0.5 s
  -- doubled `k` times, capped at 10 s, for every random number between 0 and 1 and as long as the
  -- doubled delay is below 2^53 nanoseconds. The hypothesis: float64 obeys `FloatLaws`.
  pub default_wait_bounds :
      (k : ℕ) (r : F)
      → 500_000_000 * 2 ^ k < 2 ^ 53
      → le zero_f r
      → le r one_f
      → let full = min (500_000_000 * 2 ^ k) 10_000_000_000 in
        let wait = jittered fl (backoff_delay fl (default_config fl) k) r in
        (pos (full / 2) ≤ℤ wait) × (wait ≤ℤ pos full)
  default_wait_bounds k r small low high =
      rw (default_delay k small) (jittered_bounds _ r (omega arith) low high)
