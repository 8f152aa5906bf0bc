-- ===== src/Mqtt/Tests.antt =====
-- Runs of the MQTT transport, and the theorems at inputs where their hypotheses hold. `simple_paho` is a
-- broker that keeps the filters it is asked for until the next connection.
use commlib_py.Prelude.{
  ℕ, ◌+◌, ◌≡◌, refl, Bool, true, false, ◌==◌, ◌||◌, Option, none, some, List, [], ◌∷◌,
  if◌then◌else◌, arith, ltb,
}
use commlib_py.Prelude.Dict.{get, put}
use commlib_py.Rpc.Messages.{
  CommMessage, mapping, request, answers, prepare_call_data, prepare_request, unpack_request,
  validate_rpc_req_msg, name_or,
}
use commlib_py.Mqtt.Transport.{
  PahoEvent, MqttTransport, returned, up, new_mqtt_transport, is_connected, log, disconnect, stop,
  unsubscribe, on_disconnect, ask, dial, connect, restore_one, restore_all, restore_subscriptions,
  on_connect, publish, end_subscribe, subscribe, start,
}
use commlib_py.Mqtt.Session.{Paho, Hears, position, on_connect_restores}
use commlib_py.Mqtt.Heard.{Step, Reach, left_by, Reach-Hears}
use commlib_py.Mqtt.Rpc.{
  MqttClient, Poll, MqttCodec, MqttService, answered, response_of, respond, on_response_wrapper,
  on_response_wrappers, sleep, wait_for_response, end_call, send_call, call, send_response,
  on_request_internal,
}
use commlib_py.Mqtt.Answers.{call-on_request_internal}
use commlib_py.Mqtt.Stale.{call_untyped_repeats}
use commlib_py.Mqtt.Start.{start_returns}
use commlib_py.Mqtt.Pubsub.{
  mapping as dict_of, Publisher, returns, escapes_of, prepare_msg, call_back, on_message, send,
  count_sent, topic_or, publish_msg,
}
use commlib_py.Mqtt.Delivery.{on_message-publish_msg}

program : Unit {0}
unfolding get put prepare_call_data prepare_request unpack_request validate_rpc_req_msg name_or up
    new_mqtt_transport is_connected log disconnect stop unsubscribe on_disconnect ask dial connect
    restore_one restore_all restore_subscriptions on_connect publish end_subscribe subscribe start
    position response_of respond on_response_wrapper on_response_wrappers sleep wait_for_response
    end_call send_call call send_response on_request_internal escapes_of prepare_msg call_back
    on_message send count_sent topic_or publish_msg
program = tt

abbrev Message : Type 0
Message = CommMessage ℕ

unfoldable holds : List (PahoEvent Message) → ℕ → Bool
holds [] x = false
holds (PahoEvent.subscribes topic qos ∷ es) x = topic == x || holds es x
holds (PahoEvent.unsubscribes topic ∷ es) x = if topic == x then false else holds es x
holds (PahoEvent.accepts ∷ es) x = false
holds (PahoEvent.makes ∷ es) x = holds es x
holds (PahoEvent.connects ∷ es) x = holds es x
holds (PahoEvent.loop_starts ∷ es) x = holds es x
holds (PahoEvent.loop_stops ∷ es) x = holds es x
holds (PahoEvent.disconnects ∷ es) x = holds es x
holds (PahoEvent.drops ∷ es) x = holds es x
holds (PahoEvent.adds_callback topic callback ∷ es) x = holds es x
holds (PahoEvent.publishes topic payload qos ∷ es) x = holds es x

unfoldable handler : List (PahoEvent Message) → ℕ → Option ℕ
handler [] x = none
handler (PahoEvent.adds_callback topic callback ∷ es) x =
    if topic == x then some callback else handler es x
handler (PahoEvent.subscribes topic qos ∷ es) x = handler es x
handler (PahoEvent.unsubscribes topic ∷ es) x = handler es x
handler (PahoEvent.accepts ∷ es) x = handler es x
handler (PahoEvent.makes ∷ es) x = none
handler (PahoEvent.connects ∷ es) x = handler es x
handler (PahoEvent.loop_starts ∷ es) x = handler es x
handler (PahoEvent.loop_stops ∷ es) x = handler es x
handler (PahoEvent.disconnects ∷ es) x = handler es x
handler (PahoEvent.drops ∷ es) x = handler es x
handler (PahoEvent.publishes topic payload qos ∷ es) x = handler es x

abbrev simple_paho : Paho Message
unfolding holds handler
simple_paho = record {
  holds = holds;
  handler = handler;
  holds_subscribes = λ es topic qos x u. refl;
  holds_adds_callback = λ es topic callback x. refl;
  holds_unsubscribes = λ es topic x u. refl;
  holds_publishes = λ es topic qos x payload. refl;
  handler_subscribes = λ es topic qos x. refl;
  handler_adds_callback = λ es topic callback x. refl;
  handler_publishes = λ es topic qos x payload. refl;
}

abbrev never : ℕ → Bool
never n = false

-- The third call and no other one is refused.
abbrev third : ℕ → Bool
third n = n == 2

abbrev same_topic : ℕ → ℕ
same_topic n = n

-- A connected transport with the topics 7 and 8, whose subscriptions were the calls 1 and 2 of paho.
abbrev listening : MqttTransport Message
listening = record {
  reconnect_attempts = 5;
  has_client = true;
  connected = true;
  stopped = false;
  subscriptions = (7, (70, 0)) ∷ (8, (80, 1)) ∷ [];
  exchanges = 1;
  events =
      PahoEvent.adds_callback 8 80
      ∷ PahoEvent.subscribes 8 1
      ∷ PahoEvent.adds_callback 7 70
      ∷ PahoEvent.subscribes 7 0
      ∷ PahoEvent.accepts
      ∷ PahoEvent.makes
      ∷ [];
}

-- The subscription of 8 is refused, that of 7 is not.
on_connect_restores_example :
    Hears simple_paho (on_connect third 0 (log PahoEvent.accepts listening)) 7 70
unfolding program
on_connect_restores_example =
    on_connect_restores simple_paho third 7 70 0 listening (refl, (refl, tt)) refl refl

abbrev fresh : MqttTransport Message
fresh = new_mqtt_transport 3

abbrev after_connect : MqttTransport Message
after_connect = left_by (connect never fresh)

abbrev after_accept : MqttTransport Message
after_accept = on_connect never 0 (log PahoEvent.accepts after_connect)

abbrev after_subscribe : MqttTransport Message
after_subscribe = left_by (subscribe never same_topic (some 7) 70 0 after_accept)

abbrev after_loss : MqttTransport Message
after_loss = on_disconnect 7 (log PahoEvent.drops after_subscribe)

abbrev after_return : MqttTransport Message
after_return = on_connect never 0 (log PahoEvent.accepts after_loss)

Reach-Hears_example : Hears simple_paho after_return 7 70
unfolding program
Reach-Hears_example =
    Reach-Hears never same_topic same_topic simple_paho 3 7 70 0 after_return (λ n. refl)
      (Reach.next
        (Reach.next
          (Reach.next (Reach.next (Reach.next Reach.here Step.connecting) Step.accepted)
            (Step.subscribing (some 7) 70 0))
          (Step.lost 7))
        Step.accepted)
      refl refl

-- The first three attempts are refused.
abbrev later : ℕ → Bool
later n = ltb n 3

start_returns_example :
    (t1 : MqttTransport Message) × (start later (λ n t. t) 4 fresh ≡ some (returned tt t1))
    × (t1.exchanges ≡ 0 + 3 + 1)
    × (t1.stopped ≡ false)
    × (t1.subscriptions ≡ [])
    × (es : List (PahoEvent Message)) × (t1.events
        ≡ PahoEvent.loop_starts ∷ PahoEvent.connects ∷ PahoEvent.makes ∷ es)
unfolding program
start_returns_example =
    start_returns later (λ n t. t) 3 fresh (λ n u. refl) (ground arith) refl (λ i l. ground arith)
      refl

abbrev codec : MqttCodec ℕ Message
codec = record {
  encode = λ (m : Message). m;
  decode = λ (m : Message). some m;
  data_of = λ (m : Message). some (some m.payload);
}

abbrev doubles : MqttService ℕ
doubles = record {
  typed = true;
  read_request = λ (n : ℕ). some n;
  on_request = λ (n : ℕ). answers (n + n);
}

abbrev client : MqttClient ℕ Message
client = record { transport = listening; response = none }

abbrev quiet : Poll Message
quiet = record { late = false; arrived = []; meanwhile = λ t. t }

abbrev late : Poll Message
late = record { late = true; arrived = []; meanwhile = λ t. t }

abbrev answer : ℕ → Message
answer n = record { reply_to = none; payload = n }

abbrev answering : ℕ → Poll Message
answering n = record { late = false; arrived = answer n ∷ []; meanwhile = λ t. t }

abbrev reader : ℕ → Option ℕ
reader n = if n == 13 then none else some n

-- The service 5 doubles 21; the answer comes in the second turn on the topic 9.
call-on_request_internal_example :
    (c1 : MqttClient ℕ Message) × ((send_call codec never same_topic same_topic true 1 5 9
        (request 21)
        client).1.transport.events
      ≡ PahoEvent.publishes 5 (record { reply_to = some 9; payload = 21 }) 1
        ∷ PahoEvent.adds_callback 9 1
        ∷ PahoEvent.subscribes 9 0
        ∷ listening.events)
    × ((on_request_internal codec never same_topic same_topic doubles
          (record { reply_to = some 9; payload = 21 })
          listening).events
        ≡ PahoEvent.publishes 9 (answer 42) 1 ∷ listening.events)
    × (call codec never same_topic same_topic true reader 1 5 9
          (request 21)
          (quiet ∷ answering 42 ∷ [])
          client
        ≡ answered 42 c1)
    × (c1.response ≡ none)
unfolding program
call-on_request_internal_example =
    call-on_request_internal codec never same_topic same_topic reader doubles 1 5 9 (request 21) 21
      42 (quiet ∷ []) [] (answering 42) client listening (λ m. refl, λ m. refl) (λ n. refl) refl
      refl refl refl refl refl refl ((refl, refl, λ t. refl), tt) refl refl (λ t. refl)

-- The second call, of 22, ends with the answer to the first, of 21.
call_untyped_repeats_example :
    (c1 : MqttClient ℕ Message) × (c2 : MqttClient ℕ Message) × (call codec never same_topic
        same_topic false reader 1 5 9
        (mapping 21)
        (answering 42 ∷ [])
        client
      ≡ answered 42 c1)
    × (call codec never same_topic same_topic false reader 1 5 10
          (mapping 22)
          (answering 44 ∷ [])
          c1
        ≡ answered 42 c2)
    × (c2.response ≡ some 42)
unfolding program
call_untyped_repeats_example =
    call_untyped_repeats codec never same_topic same_topic reader 1 5 9 10 (mapping 21) (mapping 22)
      21 22 42 (answer 42) [] [] (answering 44 ∷ []) (answering 42) client (λ n. refl) refl refl
      refl refl refl tt refl refl (λ t. refl) refl

abbrev publisher : Publisher Message
publisher = record { transport = listening; topic = some 6; typed = false; msg_seq = 4 }

on_message-publish_msg_example :
    (p1 : Publisher Message) × (t1 : MqttTransport Message) × (publish_msg
        (λ (n : ℕ). some (answer n))
        never
        same_topic
        (dict_of 21)
        none
        publisher
      ≡ some p1)
    × (p1.transport.events ≡ PahoEvent.publishes 6 (answer 21) 0 ∷ listening.events)
    × (p1.msg_seq ≡ 5)
    × (subscribe never same_topic (some 6) 60 0 listening ≡ returned (some 6) t1)
    × Hears simple_paho t1 6 60
    × (on_message
          (λ (m : Message). some m.payload)
          (record { onmessage = some (λ (n : ℕ). returns); msg_type = some (λ n. some (n + 1)) })
          (answer 21)
        ≡ record { called_with = some 22; escapes = false })
unfolding program
on_message-publish_msg_example =
    on_message-publish_msg (λ (n : ℕ). some (answer n)) (λ (m : Message). some m.payload) never
      same_topic same_topic simple_paho (dict_of 21) none 6 60 21 (answer 21) (λ (n : ℕ). returns)
      (some (λ n. some (n + 1))) publisher listening refl refl refl refl refl (refl, refl) refl
      (refl, refl)
