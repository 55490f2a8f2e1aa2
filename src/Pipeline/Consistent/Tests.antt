-- ===== src/Pipeline/Consistent/Tests.antt =====
-- A database in which one user has registered.
use signalstream.Common.{ℕ, true, some, [], codes, none, arith}
use signalstream.Database.Statements.{Db}
use signalstream.Database.Consistent.{IsConsistent}
use signalstream.Notification.Delivery.Toy.{delivering}
use signalstream.Api.{Request}
use signalstream.Api.Server.Toy.{outside, server}
use signalstream.Api.Server.Wired.{answer}
use signalstream.Pipeline.Alerts.Toy.{answers}
use signalstream.Pipeline.Consistent.{Reach, Change, stream, empty_db, Reach-IsConsistent}
use signalstream.Samples.{world}
use signalstream.Sse.{new_broker}
use signalstream.Api.Streaming.{BrokerOf}

abbrev registration : Request
registration = record {
  method = codes "POST";
  path = codes "/api/v1/auth/register";
  authorization = [];
  parameter = λ key. [];
  body = codes "ann";
  claims = none;
}

-- A broker that every request finds new.
abbrev fresh : BrokerOf ℕ
fresh = record { get = λ e. some new_broker; put = λ b e. e }

abbrev registered : Db
registered =
    (answer outside server (stream outside server delivering answers fresh true []) registration
      (world, empty_db 5 [] (record { tables = []; indexes = [] }))).1.1

registered-Reach : Reach outside server delivering answers fresh registered
registered-Reach =
    Reach.later (Reach.begin 5 [] (record { tables = []; indexes = [] }))
      (Change.answers true [] registration world)

Reach-IsConsistent_example : IsConsistent registered
Reach-IsConsistent_example =
    Reach-IsConsistent outside server delivering answers fresh (λ db e. ground arith)
      registered-Reach
