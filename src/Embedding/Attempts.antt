-- ===== src/Embedding/Attempts.antt =====
-- internal/embedding/client.go: what a call of `Embed` rests on and what it counts.
use signalstream.Common.{
  ℕ, suc, ◌≤◌, ◌≡◌, refl, ◌∙◌, ap, List, [], ◌∷◌, none, Result, ok, err, Text, codes, arith, inl,
  inr, ◌⊎◌,
}
use signalstream.Common.Int.{ℤ}
use signalstream.Metrics.{Counters, add_times, add_one, more_retries}
use signalstream.Platform.{World, Action}
use signalstream.Retry.{Floats, Runtime, default_config, with_local, rounds}
use signalstream.Retry.Calls.{do_retry-counted}
use signalstream.Retry.Outcome.{do_retry-last_call}
use signalstream.Embedding.{Vector, try_embed, embed}

module _ {C E : Type 0} (create_embeddings : C → Text → Action E (Result (List Vector))) where
  try_embed-eq-none :
      (ctx : C) (text : Text) (w w' : World E) (old v : Vector)
      → try_embed create_embeddings ctx text (w, old) ≡ (none, (w', v))
      → (vs : List Vector) × (create_embeddings ctx text w ≡ (ok (v ∷ vs), w'))
  unfolding try_embed
  try_embed-eq-none ctx text w w' old v h = go (create_embeddings ctx text w) refl
    where
      go :
          (reply : Result (List Vector) × World E)
          → create_embeddings ctx text w ≡ reply
          → (vs : List Vector) × (create_embeddings ctx text w ≡ (ok (v ∷ vs), w'))
      go (err e, w₁) q = absurd (ground arith)
      go (ok [], w₁) q = absurd (ground arith)
      go (ok (v' ∷ vs), w₁) q = (vs, ground arith)

  module _ {F : Type 0} (fl : Floats F) (runtime : C → Runtime (World E) F) where
    -- `Embed` returns a nil error only with a vector that the API has just returned as its first.
    pub embed-returned :
        (ctx : C) (text : Text) (w : World E)
        → let ((vector, failure), w') = embed create_embeddings fl runtime ctx text w in
          failure ≡ none
          → (before : World E) × (vectors : List Vector) × (create_embeddings ctx text before
              ≡ (ok (vector ∷ vectors), w'))
    unfolding embed default_config
    embed-returned ctx text w h =
        let ((before, old), e) =
          do_retry-last_call fl (with_local (runtime ctx)) (default_config fl)
            (codes "openai-embedding") (try_embed create_embeddings ctx text) 3 (w, []) refl h in
        let (vs, q) = try_embed-eq-none ctx text before _ old _ e in (before, vs, q)

    -- The parameters never touch the process's counters.
    pub record CountersKept : Type 0 where
      pub by_api :
          (ctx : C) (text : Text) (w : World E)
          → (create_embeddings ctx text w).1.counters ≡ w.counters
      pub by_random : (ctx : C) (w : World E) → ((runtime ctx).random w).1.counters ≡ w.counters
      pub by_wait :
          (ctx : C) (d : ℤ) (w : World E) → ((runtime ctx).wait d w).1.counters ≡ w.counters

    module _ (kept : CountersKept) where
      abbrev one_retry : Counters → Counters
      one_retry c = record c { retry_attempts = add_one c.retry_attempts }

      abbrev UpTo : Counters → ℕ → World E × Vector → Type 0
      UpTo c n s = (k : ℕ) × (k ≤ n) × (s.0.counters ≡ more_retries k c)

      try_embed-counters :
          (ctx : C) (text : Text) (w : World E) (old : Vector)
          → let w' = (try_embed create_embeddings ctx text (w, old)).1.0 in
            (w'.counters ≡ w.counters) ⊎ (w'.counters ≡ one_retry w.counters)
      unfolding try_embed
      try_embed-counters ctx text w old = ground (arith, kept.by_api ctx text w)

      try_embed-UpTo :
          (ctx : C) (text : Text) (c : Counters) (n : ℕ) (s : World E × Vector)
          → UpTo c n s
          → UpTo c (suc n) (try_embed create_embeddings ctx text s).1
      unfolding add_times
      try_embed-UpTo ctx text c n (w, old) (k, le, e) = elim (try_embed-counters ctx text w old) [
        | inl same ↦ (k, omega arith, same ∙ e)
        | inr more ↦ (suc k, omega arith, more ∙ ap one_retry e)
      ]

      -- A call of `Embed` changes no counter but `retry_attempts`, which it raises by four at most.
      -- The hypothesis: the API client, the random source and the timer leave the counters alone.
      pub embed-counts :
          (ctx : C) (text : Text) (w : World E)
          → let w' = (embed create_embeddings fl runtime ctx text w).1 in
            (k : ℕ) × (k ≤ 4) × (w'.counters ≡ more_retries k w.counters)
      unfolding embed default_config rounds add_times
      embed-counts ctx text w =
          let (n, n_le, (k, k_le, e)) =
            do_retry-counted fl (with_local (runtime ctx)) (default_config fl)
              (codes "openai-embedding") (try_embed create_embeddings ctx text) (UpTo w.counters)
              (try_embed-UpTo ctx text w.counters)
              (λ n s p. (p.0, p.1, kept.by_random ctx s.0 ∙ p.2))
              (λ n d s p. (p.0, p.1, kept.by_wait ctx d s.0 ∙ p.2)) (w, [])
              (0, omega arith, refl) in
          (k, omega arith, e)
