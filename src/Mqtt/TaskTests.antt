-- ===== src/Mqtt/TaskTests.antt =====
-- A task over MQTT, and the theorem at an input where its hypotheses hold. A payload is the value itself.
use commlib_py.Prelude.{ℕ, ◌≡◌, refl, Bool, true, false, Option, none, some, [], ◌∷◌}
use commlib_py.Topic.Text.{Text, codes}
use commlib_py.Serial.Value.{Value, number, dict, Fields, end, field, text_key, is_primitive}
use commlib_py.Serial.Primitives.{deserialize}
use commlib_py.Mqtt.Transport.{PahoEvent, MqttTransport, new_mqtt_transport}
use commlib_py.Mqtt.Tasks.{
  publish_value, send_task, publish_result, publish_progress, send_to_dlq, send_task_twice,
}

program : Unit {0}
unfolding new_mqtt_transport is_primitive
program = tt

abbrev decode : Text → Option Text
decode s = some s

abbrev same : ℕ → ℕ
same n = n

abbrev as_it_is : Value → Option Value
as_it_is v = some v

abbrev reads : Value → Option Value
reads v = some v

abbrev printed : Value → Text
printed v = codes "{}"

abbrev never : ℕ → Bool
never n = false

abbrev started : MqttTransport Value
started = record {
  reconnect_attempts = 3;
  has_client = true;
  connected = true;
  stopped = false;
  subscriptions = [];
  exchanges = 1;
  events = PahoEvent.accepts ∷ PahoEvent.connects ∷ PahoEvent.makes ∷ [];
}

abbrev task : Fields
task = field (text_key (codes "task_id")) (number 7) end

send_task_twice_example :
    (t1 : MqttTransport Value) × (publish_value decode same as_it_is reads printed never same 4
        (dict task)
        started
      ≡ some t1)
    × (t1.events ≡ PahoEvent.publishes 4 (dict task) 0 ∷ started.events)
    × (deserialize decode same as_it_is reads (dict task) ≡ some (dict task))
    × (send_task decode same as_it_is reads printed never same 4 task started ≡ none)
    × (publish_result decode same as_it_is reads printed never same 4 task started ≡ none)
    × (publish_progress decode same as_it_is reads printed never same 4 task started ≡ none)
    × (send_to_dlq decode same as_it_is reads printed never same 4 task started ≡ none)
unfolding program
send_task_twice_example =
    send_task_twice decode same as_it_is reads printed never same 4 task (dict task) started refl
      refl refl refl refl
