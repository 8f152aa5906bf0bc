-- ===== src/Redis/DeliveryTests.antt =====
-- A run of the Redis publishers and subscribers, and the theorem at inputs where its hypotheses hold.
use commlib_py.Prelude.{
  ℕ, ◌≡◌, refl, Bool, true, false, ◌+◌, ltb, Option, none, some, List, [], ◌∷◌,
}
use commlib_py.Prelude.Dict.{put, get}
use commlib_py.Mqtt.Pubsub.{
  pubsub_message, mapping, WPublisher, Noted, returns, raises, escapes_of, call_back, prepare_msg,
}
use commlib_py.Redis.Transport.{is_connected, bare_transport}
use commlib_py.Redis.Queues.{Unanswered, next}
use commlib_py.Redis.Publish.{
  RedisPublisher, done, raised, count_published, mpublish_on, wpublish_on, publish_payload,
  is_wrong,
}
use commlib_py.Redis.Subscribers.{
  WSubscriber, hear, wsubscribe, run_wsubscriber, bind_all, on_wmessage, on_msg_internal, unheard,
}
use commlib_py.Redis.Delivery.{hear-wpublish_on}

program : Unit {0}
unfolding put get escapes_of call_back prepare_msg is_connected bare_transport next count_published
    mpublish_on wpublish_on publish_payload is_wrong hear wsubscribe run_wsubscriber bind_all
    on_wmessage on_msg_internal
program = tt

abbrev up_link : ℕ → Bool
up_link n = true

abbrev never : ℕ → Unanswered
never n = record { carried = false; times_out = false }

abbrev is_small : ℕ → Bool
is_small topic = ltb topic 10

abbrev as_text : ℕ → List ℕ
as_text v = v ∷ []

unfoldable from_text : List ℕ → Option ℕ
from_text [] = none
from_text (v ∷ vs) = some v

abbrev fails_on : ℕ → Noted
fails_on v = raises

abbrev quiet : WSubscriber ℕ
quiet = record { subs = (4, λ v. returns) ∷ []; bound = []; msg_type = some (λ v. some (v + 1)) }

abbrev listening : WSubscriber ℕ
listening = record { subs = (4, fails_on) ∷ []; bound = []; msg_type = some (λ v. some (v + 1)) }

abbrev wrapped : WPublisher
wrapped = record { topic = 4; typed = true }

abbrev live : RedisPublisher (List ℕ)
live = record {
  transport = record (bare_transport 1 3 true) { has_redis = true };
  topic = none;
  typed = true;
  msg_seq = 2;
  told = [];
}

-- A dict is no message of a typed publisher.
refused : wpublish_on up_link never as_text is_small 3 wrapped (mapping 8) live ≡ some (raised live)
unfolding program
refused = refl

-- A message on a topic without a callback is not heard.
elsewhere :
    hear from_text (run_wsubscriber listening) (record { channel = 5; body = 8 ∷ [] }) ≡ unheard
unfolding program from_text
elsewhere = refl

hear-wpublish_on_example :
    (b : RedisPublisher (List ℕ)) × (wpublish_on up_link never as_text is_small 3 wrapped
        (pubsub_message 8)
        live
      ≡ some (done b))
    × (b.told ≡ (4, 8 ∷ []) ∷ [])
    × (b.msg_seq ≡ 3)
    × (hear from_text (run_wsubscriber listening) (record { channel = 4; body = 8 ∷ [] })
        ≡ record { called_with = some 9; escapes = false })
unfolding program from_text
hear-wpublish_on_example =
    hear-wpublish_on as_text from_text up_link never is_small 2 wrapped (pubsub_message 8) 8 live
      quiet listening fails_on (λ n. refl) (λ u. refl) refl refl refl (refl, tt) refl
