-- ===== src/Samples.antt =====
-- Concrete stand-ins for the parameters of the model, at which the theorems are tried out.
use signalstream.Common.{
  true, some, suc, leb, ok, Text, codes, List, [], ◌∷◌, ap, ◌≡◌, ℕ, ◌+◌, ◌*◌, ◌/◌, ◌^◌, ◌≤◌, refl,
  arith, none, false,
}
use signalstream.Common.Int.{pos, pos_part}
use signalstream.Retry.{Floats, Runtime}
use signalstream.Database.{Strategy}
use signalstream.Metrics.{Counters}
use signalstream.Config.{AppConfig}
use signalstream.Platform.{World, NormalizedEvent}
use signalstream.Alerter.Match.{FloatOps, ScoredResult}
use signalstream.Alerter.Service as Alerting
use signalstream.Enrichment as Enrichment
use signalstream.Retry.Delay.{FloatLaws}

-- Multiples of one half: `n` stands for n / 2.
abbrev pub halves : Floats ℕ
halves = record {
  of_int = λ z. 2 * pos_part z;
  to_int = λ x. pos (x / 2);
  mul = λ x y. x * y / 2;
  add = λ x y. x + y;
  power = λ x n. 2 * (x / 2) ^ n;
  half = 1;
  two = 4;
}

pub halves-mul_mono : (c a b : ℕ) → 0 ≤ c → a ≤ b → c * a / 2 ≤ c * b / 2
halves-mul_mono c a b h le = grind arith

pub halves-mul_mono_left : (c a b : ℕ) → 0 ≤ c → a ≤ b → a * c / 2 ≤ b * c / 2
halves-mul_mono_left c a b h le = grind arith

pub halves-power : (n k : ℕ) → 2 * n * (2 * (4 / 2) ^ k) / 2 / 2 ≡ n * 2 ^ k
halves-power n k = grind arith

abbrev pub halves-laws : FloatLaws halves
halves-laws = record {
  le = ◌≤◌;
  zero_f = 0;
  one_f = 2;
  half_nonneg = omega arith;
  int_nonneg = λ n. omega arith;
  mul_nonneg = λ a b h k. omega arith;
  mul_mono = halves-mul_mono;
  mul_mono_left = halves-mul_mono_left;
  add_mono = λ c a b h. omega arith;
  add_zero_half = refl;
  add_half_half = refl;
  mul_one = λ a. omega arith;
  to_int_exact = λ n h. ground arith;
  to_int_half = λ n h. ground arith;
  to_int_mono = λ n a b h le k l. omega arith;
  to_int_power = λ n k h. ap pos (halves-power n k);
  le_refl = λ a. omega arith;
  le_trans = λ a b c h k. omega arith;
}

-- A context that is never done, and a timer that always fires.
abbrev pub calm : {S : Type 0} → Runtime S ℕ
calm = record { ctx_err = λ s. none; random = λ s. (1, s); wait = λ d s. (false, s) }

abbrev pub no_counts : Counters
no_counts = record {
  events_ingested = 0;
  events_processed = 0;
  events_enriched = 0;
  alerts_triggered = 0;
  errors_total = 0;
  retry_attempts = 0;
}

-- A world whose environment is a number.
abbrev pub world : World ℕ
world = record { env = 0; counters = no_counts }

abbrev pub event : NormalizedEvent
event = record {
  id = codes "e1";
  source = codes "SEC EDGAR";
  tickers = codes "ACME" ∷ codes "XYZ" ∷ [];
  title = codes "Merger";
  content_url = codes "http://x";
  raw_text = [];
  published_at = 5;
  ingested_at = 6;
}

abbrev pub strategy : Strategy
strategy = record {
  id = 7;
  user_id = 9;
  name = codes "mergers";
  description = codes "merger news";
  query = codes "merger";
  source = codes "Polygon.io" ∷ codes "SEC EDGAR" ∷ [];
  tickers = codes "XYZ" ∷ [];
  similarity_threshold = 5;
  is_active = true;
  created_at = 1;
  updated_at = 1;
  owner_email = codes "ann@x";
}

-- Scores that are their own value, with the order of the numbers.
abbrev pub exact_ops : FloatOps
exact_ops = record { widen = λ a. a; narrow = λ a. a; at_least = λ a b. leb b a }

abbrev pub results : List ScoredResult
results =
    record { point_id = codes "e0"; score = 9 } ∷ record { point_id = codes "e1"; score = 6 } ∷ []

-- Services that answer at once; the environment counts the notifications.
abbrev pub alerting : Alerting.Service (Unit {0}) ℕ
alerting = record {
  embedder = λ ctx text w. ((1 ∷ [], none), w);
  searcher = λ ctx v sources tickers limit w. ((results, none), w);
  notifier = λ alert w. (none, record w { env = suc w.env });
  strategies = λ ctx w. ((strategy ∷ [], none), w);
  event_uuid = λ id. id;
  ops = exact_ops;
}

-- A page of sixty bytes.
abbrev pub page : Text
page = codes "012345678901234567890123456789012345678901234567890123456789"

-- A store whose environment counts the points.
abbrev pub enriching : Enrichment.Service (Unit {0}) ℕ ℕ
enriching = record {
  embedder = λ ctx text w. ((1 ∷ [], none), w);
  client = some (λ ctx uuid v payload w. (none, record w { env = suc w.env }));
  fetcher = λ url timeout w. (ok page, w);
  floats = halves;
  runtime = λ ctx. calm;
  event_uuid = λ id. id;
  rfc3339 = λ t. [];
}

-- A configuration that is accepted.
abbrev pub config : AppConfig
config = record {
  log_level = codes "INFO";
  polygon_api_key = [];
  openai_api_key = [];
  qdrant_host = codes "localhost";
  qdrant_port = pos 6334;
  database_url = [];
  jwt_secret = codes "0123456789abcdef";
  encryption_key = codes "0123456789abcdef0123456789abcdef";
  server_port = codes "8080";
  frontend_url = [];
}
