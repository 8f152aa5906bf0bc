-- ===== src/Kafka/Kept.antt =====
-- commlib/transports/kafka.py: every consumer that the transport has made is kept or closed, and no operation
-- but `publish` sets its producer.
use mathlib.Core.Path.{subst, sym}
use commlib_py.Prelude.{
  ℕ, ◌+◌, ◌≡◌, ◌≤◌, refl, ap, Bool, true, Option, Bool-cases, inl, inr, List, [], ◌∷◌, ◌++◌, arith,
}
use commlib_py.Kafka.Transport.{
  KafkaTransport, new_kafka_transport, log, start, create_producer, create_consumer, publish_data,
  publish, ensure_topic, on_assign, subscribe, stop_all, stop,
}
use commlib_py.Kafka.Stops.{
  occurs, closing, making, closings, makings, stop_all_adds, stop-closings,
}

occurs-append : (c : ℕ) (cs ds : List ℕ) → occurs c (cs ++ ds) ≡ occurs c cs + occurs c ds
unfolding occurs
occurs-append c [] ds = omega arith
occurs-append c (d ∷ cs) ds = ground (arith, occurs-append c cs ds)

module _ {Payload : Type 0} where
  pub data Step (t : KafkaTransport Payload) : KafkaTransport Payload → Type 0 where
    starting : Step t (start t)
    stopping : Step t (stop t)
    publishing : (topic : ℕ) (payload : Payload) (key : ℕ) → Step t (publish topic payload key t)
    making_producer : Step t (create_producer t).1
    making_consumer : (group_id : Option ℕ) → Step t (create_consumer group_id t).1
    subscribing :
        (assigned : Bool) (topic callback : ℕ) (group_id : Option ℕ) (wait_for_assignment : Bool)
        → Step t (subscribe assigned topic callback group_id wait_for_assignment t)
    assigning : Step t (on_assign t)

  pub data Reach (t : KafkaTransport Payload) : KafkaTransport Payload → Type 0 where
    here : Reach t t
    next : {u v : KafkaTransport Payload} → Reach t u → Step u v → Reach t v

  -- The consumers are kept or closed.
  abbrev Kept : ℕ → KafkaTransport Payload → Type 0
  Kept c t = makings c t.calls ≤ occurs c t.consumers + closings c t.calls

  start-Kept : (c : ℕ) (t : KafkaTransport Payload) → Kept c t → Kept c (start t)
  unfolding start
  start-Kept c t h = ground (arith, h)

  stop-Kept : (c : ℕ) (t : KafkaTransport Payload) → Kept c t → Kept c (stop t)
  stop-Kept c t h = elim (Bool-cases t.connected) [
    | inl connected ↦
        let same : stop t ≡ stop_all t = unfold stop in ground (arith, connected) in
        let (k, m, p, s) = stop_all_adds c t in subst (Kept c) (sym same) (omega (arith, k, m, h))
    | inr apart ↦
        let same : stop t ≡ t = unfold stop in ground (arith, apart) in subst (Kept c) (sym same) h
  ]

  publish-Kept :
      (c topic : ℕ) (payload : Payload) (key : ℕ) (t : KafkaTransport Payload)
      → Kept c t
      → Kept c (publish topic payload key t)
  unfolding publish publish_data create_producer log closings closing makings making
  publish-Kept c topic payload key t h = ground (arith, h)

  create_consumer-Kept :
      (c : ℕ) (group_id : Option ℕ) (t : KafkaTransport Payload)
      → Kept c t
      → Kept c (create_consumer group_id t).1
  unfolding create_consumer log closings closing makings making occurs
  create_consumer-Kept c group_id t h = ground (arith, h, occurs-append c t.consumers (t.made ∷ []))

  subscribe-Kept :
      (c : ℕ) (assigned : Bool) (topic callback : ℕ) (group_id : Option ℕ)
      (wait_for_assignment : Bool) (t : KafkaTransport Payload)
      → Kept c t
      → Kept c (subscribe assigned topic callback group_id wait_for_assignment t)
  unfolding subscribe ensure_topic create_consumer on_assign start log closings closing makings
      making occurs
  subscribe-Kept c assigned topic callback group_id wait_for_assignment t h =
      ground (arith, h, occurs-append c t.consumers (t.made ∷ []))

  create_producer-Kept :
      (c : ℕ) (t : KafkaTransport Payload) → Kept c t → Kept c (create_producer t).1
  unfolding create_producer log closings closing makings making
  create_producer-Kept c t h = ground (arith, h)

  step-Kept : (c : ℕ) (t u : KafkaTransport Payload) → Step t u → Kept c t → Kept c u
  step-Kept c t _ starting h = start-Kept c t h
  step-Kept c t _ stopping h = stop-Kept c t h
  step-Kept c t _ (publishing topic payload key) h = publish-Kept c topic payload key t h
  step-Kept c t _ making_producer h = create_producer-Kept c t h
  step-Kept c t _ (making_consumer group_id) h = create_consumer-Kept c group_id t h
  step-Kept c t _ (subscribing assigned topic callback group_id wait_for_assignment) h =
      subscribe-Kept c assigned topic callback group_id wait_for_assignment t h
  step-Kept c t _ assigning h = unfold on_assign in start-Kept c t h

  reach-Kept : (c : ℕ) (t u : KafkaTransport Payload) → Reach t u → Kept c t → Kept c u
  reach-Kept c t _ here h = h
  reach-Kept c t u (next {u = v} reach step) h = step-Kept c v u step (reach-Kept c t v reach h)

  -- After any sequence of operations, `stop` leaves no consumer open if the transport is marked as
  -- connected, which a `start` or an assignment does: each consumer that the transport ever made has been
  -- closed at least as often as it was made, and the table is empty.
  pub stop_closes_all :
      (c : ℕ) (t : KafkaTransport Payload)
      → Reach new_kafka_transport t
      → t.connected ≡ true
      → (makings c (stop t).calls ≤ closings c (stop t).calls) × ((stop t).consumers ≡ [])
  stop_closes_all c t reach h =
      let (k, consumers, subscribers, connected) = stop-closings c t h in
      let kept =
        reach-Kept c new_kafka_transport (stop t) (next reach stopping)
          (unfold new_kafka_transport makings in omega arith) in
      let empty : occurs c [] ≡ 0 = unfold occurs in refl in
      let emptied = ap (occurs c) consumers in (omega (arith, kept, emptied, empty), consumers)
