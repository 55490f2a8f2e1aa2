-- ===== src/Pipeline/Alerts/Toy.antt =====
-- Stand-ins for the embedding and the search.
use signalstream.Common.{[], ◌∷◌, none, codes}
use signalstream.Pipeline.Alerts.{Answers}
use signalstream.Samples.{exact_ops}

-- A search that finds the event with the score 9.
abbrev pub answers : Answers (Unit {0})
answers = record {
  embed = λ ctx text. ([], none);
  search = λ ctx v sources tickers limit. (record { point_id = codes "e1"; score = 9 } ∷ [], none);
  event_uuid = λ id. id;
  ops = exact_ops;
}
