-- ===== src/Ingestion/News/Once.antt =====
-- internal/ingestion/news_api.go: what one poll and successive polls send.
use signalstream.Common.{
  ◌≡◌, ◌≢◌, refl, List, [], ◌∷◌, ◌++◌, map, reverse, ok, err, Err, Option, none, some, Text, All,
  text_eq_iff, arith,
}
use mathlib.Core.List.{reverse-cons}
use signalstream.Platform.{NormalizedEvent, World, count_error, count_ingested}
use signalstream.Ingestion.News.{
  Clock, NewsItem, Items, exhausted, failed, item, Send, news_event, collect, send_backwards,
  poll_news,
}

-- A list of items in front of the rest of the iteration.
abbrev pub prepend : List NewsItem → Items → Items
prepend [] rest = rest
prepend (n ∷ ns) rest = item n (prepend ns rest)

-- The iteration has come to the article seen last, or to its end.
abbrev pub Old : Text → Items → Type 0
Old last exhausted = Unit
Old last (failed e) = ⊥
Old last (item n rest) = n.id ≡ last

collect-prepend :
    (now : Clock) (last : Text) (ns : List NewsItem) (rest : Items)
    → All (λ n. n.id ≢ last) ns
    → Old last rest
    → collect now last (prepend ns rest) ≡ ok (map (news_event now) ns)
unfolding collect
collect-prepend now last [] exhausted h o = refl
collect-prepend now last [] (failed e) h o = absurd o
collect-prepend now last [] (item n rest) h o = ground (arith, text_eq_iff n.id last)
collect-prepend now last (n ∷ ns) rest h o =
    ground (arith, text_eq_iff n.id last, h.0, collect-prepend now last ns rest h.1 o)

collect-failed :
    (now : Clock) (last : Text) (ns : List NewsItem) (e : Err)
    → All (λ n. n.id ≢ last) ns
    → collect now last (prepend ns (failed e)) ≡ err e
unfolding collect
collect-failed now last [] e h = refl
collect-failed now last (n ∷ ns) e h =
    ground (arith, text_eq_iff n.id last, h.0, collect-failed now last ns e h.1)

-- What sends do while the channel is open.
abbrev pub OpenSend : Type 0 → Type 0
OpenSend E = NormalizedEvent → World E → World E

abbrev pub open_channel : {E : Type 0} → OpenSend E → Send E
open_channel send event w = some (send event w)

module _ {E : Type 0} (send : OpenSend E) where
  -- The events in the order in which they reach the channel, each counted behind its send.
  pub send_in_order : List NormalizedEvent → World E → World E
  send_in_order [] w = w
  send_in_order (event ∷ events) w = send_in_order events (count_ingested (send event w))

  send_in_order-append :
      (xs ys : List NormalizedEvent) (w : World E)
      → send_in_order (xs ++ ys) w ≡ send_in_order ys (send_in_order xs w)
  unfolding send_in_order
  send_in_order-append [] ys w = refl
  send_in_order-append (x ∷ xs) ys w = send_in_order-append xs ys (count_ingested (send x w))

  pub send_backwards-eq :
      (events : List NormalizedEvent) (w : World E)
      → send_backwards (open_channel send) events w ≡ some (send_in_order (reverse events) w)
  unfolding send_backwards send_in_order
  send_backwards-eq [] w = refl
  send_backwards-eq (event ∷ events) w = rw (reverse-cons event events) (
      rw (send_in_order-append (reverse events) (event ∷ []) w)
        (rw (send_backwards-eq events w, send_backwards) refl))

  -- The id to remember: that of the newest article, if there was one.
  abbrev pub newest : Text → List NewsItem → Text
  newest last [] = last
  newest last (n ∷ ns) = n.id

  poll_collected :
      (now : Clock) (last : Text) (ns : List NewsItem) (rest : Items) (w : World E)
      → collect now last (prepend ns rest) ≡ ok (map (news_event now) ns)
      → poll_news (open_channel send) now (prepend ns rest) last w
        ≡ some (newest last ns, send_in_order (reverse (map (news_event now) ns)) w)
  unfolding poll_news send_in_order news_event
  poll_collected now last [] rest w h = ground arith
  poll_collected now last (n ∷ ns) rest w h =
      rw (h, poll_news) (rw (send_backwards-eq (map (news_event now) (n ∷ ns)) w) refl)

  -- A poll whose iterator fails before it comes to the article seen last sends nothing, remembers what
  -- it remembered, and counts an error.
  pub poll_news_failed :
      (now : Clock) (last : Text) (ns : List NewsItem) (e : Err) (w : World E)
      → All (λ n. n.id ≢ last) ns
      → poll_news (open_channel send) now (prepend ns (failed e)) last w
        ≡ some (last, count_error w)
  unfolding poll_news
  poll_news_failed now last ns e w h = ground (arith, collect-failed now last ns e h)

  -- A poll that meets the articles `ns` before the one seen last, or before its end, sends exactly
  -- these, oldest first, and remembers the newest.
  pub poll_news-sends :
      (now : Clock) (last : Text) (ns : List NewsItem) (rest : Items) (w : World E)
      → All (λ n. n.id ≢ last) ns
      → Old last rest
      → poll_news (open_channel send) now (prepend ns rest) last w
        ≡ some (newest last ns, send_in_order (reverse (map (news_event now) ns)) w)
  poll_news-sends now last ns rest w h o =
      poll_collected now last ns rest w (collect-prepend now last ns rest h o)

  -- Successive polls, each at its own time, of a feed that has grown by some articles at its front.
  abbrev pub polls : List (Clock × List NewsItem) → Items → Text → World E → Option (Text × World E)
  polls [] feed last w = some (last, w)
  polls ((now, ns) ∷ more) feed last w =
      elim (poll_news (open_channel send) now (prepend ns feed) last w) [
        | none ↦ none
        | some (last', w') ↦ polls more (prepend ns feed) last' w'
      ]

  -- None of the articles that a poll finds new has the id of the article that was seen last.
  abbrev pub Fresh : List (Clock × List NewsItem) → Text → Type 0
  Fresh [] last = Unit
  Fresh ((now, ns) ∷ more) last = All (λ n. n.id ≢ last) ns × Fresh more (newest last ns)

  -- The events of all articles, the oldest first.
  abbrev pub in_time_order : List (Clock × List NewsItem) → List NormalizedEvent
  in_time_order [] = []
  in_time_order ((now, ns) ∷ more) = reverse (map (news_event now) ns) ++ in_time_order more

  Old-newest :
      (last : Text) (ns : List NewsItem) (feed : Items)
      → Old last feed
      → Old (newest last ns) (prepend ns feed)
  Old-newest last [] feed o = o
  Old-newest last (n ∷ ns) feed o = refl

  -- Over any number of polls of a growing feed every article is sent exactly once, and the oldest
  -- first, if no new article has the id of the one seen last.
  pub polls_send_once :
      (batches : List (Clock × List NewsItem)) (feed : Items) (last : Text) (w : World E)
      → Old last feed
      → Fresh batches last
      → (last' : Text) × (polls batches feed last w
          ≡ some (last', send_in_order (in_time_order batches) w))
  unfolding send_in_order
  polls_send_once [] feed last w o h = (last, refl)
  polls_send_once ((now, ns) ∷ more) feed last w o h =
      rw (poll_news-sends now last ns feed w h.0 o, polls)
        (rw (send_in_order-append (reverse (map (news_event now) ns)) (in_time_order more) w) (
          polls_send_once more (prepend ns feed) (newest last ns)
            (send_in_order (reverse (map (news_event now) ns)) w) (Old-newest last ns feed o) h.1))
