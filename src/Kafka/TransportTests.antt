-- ===== src/Kafka/TransportTests.antt =====
-- Runs of the Kafka transport, and the theorems at inputs where their hypotheses hold.
use commlib_py.Prelude.{ℕ, ◌≡◌, ◌≤◌, refl, Bool, true, false, none, List, [], ◌∷◌}
use commlib_py.Kafka.Transport.{
  KafkaTransport, new_kafka_transport, log, start, create_producer, create_consumer, publish_data,
  publish, ensure_topic, on_assign, subscribe, flush_all, join_all, close_all, stop_all, stop,
  Polled, nothing, other_error, message, poll_loop, run_forever,
}
use commlib_py.Kafka.Stops.{occurs, occurs_first, closing, making, closings, makings}
use commlib_py.Kafka.Kept.{Step, Reach, stop_closes_all}
use commlib_py.Kafka.Loops.{before_stop, before_error, messages}
use commlib_py.Kafka.Tasks.{
  TaskTopics, TaskCall, produce, send_task, publish_result, publish_progress, send_to_dlq, or_same,
  after_call, after_calls, send_task_never,
}

program : Unit {0}
unfolding new_kafka_transport log start create_producer create_consumer publish_data publish
    ensure_topic on_assign subscribe flush_all join_all close_all stop_all stop poll_loop
    run_forever occurs occurs_first closing making closings makings before_stop before_error
    messages produce send_task publish_result publish_progress send_to_dlq or_same after_call
    after_calls
program = tt

abbrev subscribed : KafkaTransport ℕ
subscribed = subscribe true 7 70 none true new_kafka_transport

stop_closes_all_example :
    (makings 0 (stop subscribed).calls ≤ closings 0 (stop subscribed).calls)
    × ((stop subscribed).consumers ≡ [])
unfolding program
stop_closes_all_example =
    stop_closes_all 0 subscribed (Reach.next Reach.here (Step.subscribing true 7 70 none true)) refl

abbrev turns : List (Bool × Polled ℕ)
turns =
    (false, message 1)
    ∷ (false, nothing)
    ∷ (false, other_error)
    ∷ (false, message 2)
    ∷ (true, nothing)
    ∷ (false, message 3)
    ∷ []

abbrev topics : TaskTopics
topics = record { tasks = 1; results = 2; progress = 3; dead_letters = 4 }

abbrev calls : List (TaskCall ℕ)
calls = TaskCall.runs ∷ TaskCall.sends_task 1 5 ∷ TaskCall.stops ∷ TaskCall.runs ∷ []

send_task_never_example :
    (send_task topics 1 5 (after_calls topics calls new_kafka_transport) ≡ none)
    × (publish_result topics 1 5 (after_calls topics calls new_kafka_transport) ≡ none)
    × (publish_progress topics 1 5 (after_calls topics calls new_kafka_transport) ≡ none)
    × (send_to_dlq topics 1 5 (after_calls topics calls new_kafka_transport) ≡ none)
send_task_never_example = send_task_never topics calls 1 5
