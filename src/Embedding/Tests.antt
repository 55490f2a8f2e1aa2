-- ===== src/Embedding/Tests.antt =====
-- An API that answers with one vector, and the theorems at it.
use signalstream.Common.{ℕ, ◌≡◌, refl, List, [], ◌∷◌, none, Result, ok, Text, codes}
use signalstream.Platform.{Action}
use signalstream.Retry.{do_retry, attempts, rounds, default_config}
use signalstream.Embedding.{Vector, try_embed, embed}
use signalstream.Embedding.Attempts.{CountersKept}
use signalstream.Samples.{halves, calm, world}

abbrev api : Unit {0} → Text → Action ℕ (Result (List Vector))
api ctx text w = (ok ((1 ∷ []) ∷ []), w)

embeds : (embed api halves (λ ctx. calm) tt (codes "a") world).0 ≡ (1 ∷ [], none)
unfolding embed try_embed do_retry attempts rounds default_config
embeds = refl

kept : CountersKept api halves (λ ctx. calm)
kept = record { by_api = λ ctx text w. refl; by_random = λ ctx w. refl; by_wait = λ ctx d w. refl }
