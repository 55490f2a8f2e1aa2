-- ===== src/Retry/Steps.antt =====
-- internal/retry/retry.go: one round of the loop in `Do`, case by case.
use signalstream.Common.{ℕ, suc, ◌+◌, ◌≡◌, true, false, some, none, Failure, Err, wrap, Text, arith}
use signalstream.Retry.{
  Floats, Runtime, Config, attempts, pause, interrupted, exhausted, exhausted_message, is_last,
}

module _ {S F : Type 0} (fl : Floats F) (rt : Runtime S F) (cfg : Config F) (operation : Text)
    (fn : S → Failure × S) where
  module _ (left attempt : ℕ) (last : Failure) (s : S) (live : rt.ctx_err s ≡ none) where
    pub attempts-success :
        (fn s).0 ≡ none
        → attempts fl rt cfg operation fn (suc left) attempt last s ≡ (none, (fn s).1)
    unfolding attempts
    attempts-success fine = ground arith

    module _ {e : Err} (failed : (fn s).0 ≡ some e) where
      pub attempts-last :
          is_last attempt cfg.max_retries ≡ true
          → attempts fl rt cfg operation fn (suc left) attempt last s
            ≡ (some (wrap (exhausted_message operation cfg.max_retries) e), (fn s).1)
      unfolding attempts exhausted
      attempts-last at_end = ground arith

      module _ (more : is_last attempt cfg.max_retries ≡ false) where
        pub attempts-interrupted :
            (pause fl rt cfg attempt (fn s).1).0 ≡ true
            → let s' = (pause fl rt cfg attempt (fn s).1).1 in
              attempts fl rt cfg operation fn (suc left) attempt last s
              ≡ (some (interrupted operation (rt.ctx_err s') e), s')
        unfolding attempts
        attempts-interrupted done = ground arith

        pub attempts-again :
            (pause fl rt cfg attempt (fn s).1).0 ≡ false
            → attempts fl rt cfg operation fn (suc left) attempt last s
              ≡ attempts fl rt cfg operation fn left
                  (attempt + 1)
                  (some e)
                  (pause fl rt cfg attempt (fn s).1).1
        unfolding attempts
        attempts-again waited = ground arith
