-- ===== src/Inspector.antt =====
-- tools/qdrant-inspector/main.go: what the tool prints. The Qdrant client is a parameter; `log.Fatalf` is an
-- error, and the lines of the log are left out.
use signalstream.Common.{
  ℕ, Bool, true, false, ◌++◌, none, some, Failure, Result, ok, err, plain, wrap, Text, codes, itoa,
}
use signalstream.Platform.{Action}

-- What the tool reads of `qdrant.CollectionInfo`.
pub record CollectionInfo : Type 0 where
  pub points_count : ℕ
  pub vector_size : ℕ
  pub distance : Text

pub record Inspected (E : Type 0) : Type 0 where
  pub new_client : (host : Text) (port : ℕ) → Failure
  pub collection_exists : Text → Action E (Result Bool)
  pub get_collection_info : Text → Action E (Result CollectionInfo)

abbrev pub collection_name : Text
collection_name = codes "financial_events"

unfoldable pub details : CollectionInfo → Text
details info =
    codes "\n--- QDRANT COLLECTION DETAILS ---\n"
    ++ codes "Collection Name: "
    ++ collection_name
    ++ codes "\nPoints Count:    "
    ++ itoa info.points_count
    ++ codes "\nVector Size:     "
    ++ itoa info.vector_size
    ++ codes "\nDistance Metric: "
    ++ info.distance
    ++ codes "\n---------------------------------\n"

module _ {E : Type 0} (client : Inspected E) where
  unfoldable pub show_collection : Action E (Result Text)
  show_collection w =
      let (info, w') = client.get_collection_info collection_name w in
      elim info [
        | err e ↦ (err (wrap (codes "Failed to get collection info: ") e), w')
        | ok i ↦ (ok (details i), w')
      ]

  -- `main`
  unfoldable pub inspect : Action E (Result Text)
  inspect w = elim (client.new_client (codes "localhost") 6334) [
    | some e ↦ (err (wrap (codes "Failed to create Qdrant client: ") e), w)
    | none ↦
        let (exists, w') = client.collection_exists collection_name w in
        elim exists [
          | err e ↦ (err (wrap (codes "Failed to check if collection exists: ") e), w')
          | ok there ↦ elim there [
            | false ↦ (err (plain (codes "Collection 'financial_events' not found.")), w')
            | true ↦ show_collection w'
          ]
        ]
  ]
