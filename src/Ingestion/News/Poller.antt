-- ===== src/Ingestion/News/Poller.antt =====
-- internal/ingestion/news_api.go, `RunNewsAPIPoller`: polls until the limiter's wait fails, which it
-- does once the context is done.
use signalstream.Common.{
  ◌≡◌, Bool, true, false, List, [], ◌∷◌, ◌++◌, none, some, Failure, Err, Option, Option-cases, inl,
  inr, arith,
}
use signalstream.Common.{Text}
use signalstream.Platform.{World}
use signalstream.Ingestion.News.{Clock, NewsItem, Items, exhausted, Send, poll_news}
use signalstream.Ingestion.News.Once.{
  OpenSend, open_channel, prepend, polls, Fresh, in_time_order, send_in_order, polls_send_once,
}

-- One round of the loop: what `limiter.Wait` answers, and then the time and the feed of the poll.
pub record Round : Type 0 where
  pub limit : Failure
  pub now : Clock
  pub items : Items

module _ {E : Type 0} (send : Send E) where
  -- The loop, with `none` if a poll panics; the flag tells whether the poller has returned.
  unfoldable pub run_rounds : List Round → Text → World E → Option (Bool × World E)
  run_rounds [] last_seen w = some (false, w)
  run_rounds (round ∷ rounds) last_seen w = elim round.limit [
    | some e ↦ some (true, w)
    | none ↦ elim (poll_news send round.now round.items last_seen w) [
      | none ↦ none
      | some (last_seen', w') ↦ run_rounds rounds last_seen' w'
    ]
  ]

  unfoldable pub run_news_api_poller : List Round → World E → Option (Bool × World E)
  run_news_api_poller rounds w = run_rounds rounds [] w

module _ {E : Type 0} (send : OpenSend E) where
  -- Rounds that poll a feed which has grown by some articles at its front.
  abbrev pub growing : List (Clock × List NewsItem) → Items → List Round
  growing [] feed = []
  growing ((now, ns) ∷ more) feed =
      record { limit = none; now = now; items = prepend ns feed } ∷ growing more (prepend ns feed)

  run_rounds-polls :
      (batches : List (Clock × List NewsItem)) (feed : Items) (stop : Round) (e : Err)
      (later : List Round) (last last' : Text) (w w' : World E)
      → stop.limit ≡ some e
      → polls send batches feed last w ≡ some (last', w')
      → run_rounds (open_channel send) (growing batches feed ++ stop ∷ later) last w
        ≡ some (true, w')
  unfolding run_rounds
  run_rounds-polls [] feed stop e later last last' w w' h q = rw h (ground arith)
  run_rounds-polls ((now, ns) ∷ more) feed stop e later last last' w w' h q =
      elim (Option-cases (poll_news (open_channel send) now (prepend ns feed) last w)) [
        | inl stuck ↦ absurd (ground arith)
        | inr ((last₁, w₁), done) ↦
            let rest : polls send more (prepend ns feed) last₁ w₁ ≡ some (last', w') =
              ground arith in
            rw (done, run_rounds)
              (run_rounds-polls more (prepend ns feed) stop e later last₁ last' w₁ w' h rest)
      ]

  -- The poller of a feed that grows from nothing sends every article once, the oldest first, and returns
  -- at the first wait that fails, whatever comes later. The conditions: the channel is open, and no new
  -- article has the id of the one seen last, nor an empty one if there is none yet.
  pub run_news_api_poller-sends_once :
      (batches : List (Clock × List NewsItem)) (stop : Round) (e : Err) (later : List Round)
      (w : World E)
      → Fresh send batches []
      → stop.limit ≡ some e
      → run_news_api_poller (open_channel send) (growing batches exhausted ++ stop ∷ later) w
        ≡ some (true, send_in_order send (in_time_order send batches) w)
  unfolding run_news_api_poller
  run_news_api_poller-sends_once batches stop e later w fresh h =
      let (last', all) = polls_send_once send batches exhausted [] w tt fresh in
      run_rounds-polls batches exhausted stop e later [] last' w _ h all
