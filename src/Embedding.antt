-- ===== src/Embedding.antt =====
-- internal/embedding/client.go: embeddings by the OpenAI API, with retries. The API client is a
-- parameter; a context is a value of `C`.
pub mod Attempts
mod Tests
use signalstream.Common.{
  List, [], ◌∷◌, some, none, Failure, Result, ok, err, plain, wrap, Text, codes,
}
use signalstream.Database.{Float32}
use signalstream.Platform.{World, Action, count_retry}
use signalstream.Retry.{Floats, Runtime, Config, default_config, do_retry, with_local}

abbrev pub Vector : Type 0
Vector = List Float32

-- The interface `Embedder`: a vector and an error, as `Embed` returns them.
abbrev pub Embedder : Type 0 → Type 0 → Type 0
Embedder C E = C → Text → Action E (Vector × Failure)

module _ {C E : Type 0} (create_embeddings : C → Text → Action E (Result (List Vector))) where
  -- The closure that `Embed` retries; `result` is the variable that it assigns.
  unfoldable pub try_embed : C → Text → World E × Vector → Failure × (World E × Vector)
  try_embed ctx text (w, result) =
      let (reply, w') = create_embeddings ctx text w in
      elim reply [
        | err e ↦ (some (wrap (codes "create embedding: ") e), (count_retry w', result))
        | ok vectors ↦ elim vectors [
          | [] ↦ (some (plain (codes "empty embedding response")), (w', result))
          | v ∷ vs ↦ (none, (w', v))
        ]
      ]

  -- `Embed` of a client with the configuration that `NewClient` gives it.
  unfoldable pub embed : {F : Type 0} → Floats F → (C → Runtime (World E) F) → Embedder C E
  embed fl runtime ctx text w =
      let (failure, (w', result)) =
        do_retry fl (with_local (runtime ctx)) (default_config fl) (codes "openai-embedding")
          (try_embed ctx text) (w, []) in
      ((result, failure), w')
