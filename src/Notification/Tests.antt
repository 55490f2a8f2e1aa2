-- ===== src/Notification/Tests.antt =====
-- A notifier that fails, in front of one that does not.
use signalstream.Common.{ℕ, suc, ◌≡◌, refl, [], ◌∷◌, some, plain, codes}
use signalstream.Notification.{AlertData, Notifier, multi_send, send_from, keep_first, log_send}
use signalstream.Samples.{exact_ops, event, strategy, world}
use signalstream.Alerter.Service.{alert_data}

abbrev broken : Notifier ℕ
broken alert w = (some (plain (codes "down")), record w { env = suc w.env })

abbrev alert : AlertData
alert = alert_data exact_ops event strategy 6

all_reached :
    multi_send (broken ∷ log_send ∷ broken ∷ []) alert world
    ≡ (some (plain (codes "down")), record world { env = 2 })
unfolding multi_send send_from keep_first log_send
all_reached = refl
