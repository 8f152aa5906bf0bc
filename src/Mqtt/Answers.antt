-- ===== src/Mqtt/Answers.antt =====
-- commlib/transports/mqtt.py: a call over MQTT from its client to its service and back, and the calls
-- that return the answer to another one.
use commlib_py.Prelude.{
  ℕ, ◌+◌, ◌≡◌, refl, Bool, true, false, Option, none, some, List, [], ◌∷◌, ◌++◌, arith, All,
}
use commlib_py.Rpc.Messages.{
  CommMessage, Argument, prepare_call_data, unpack_request, validate_rpc_req_msg,
}
use commlib_py.Mqtt.Transport.{
  PahoEvent, MqttTransport, is_connected, log, ask, publish, unsubscribe,
}
use commlib_py.Mqtt.Rpc.{
  MqttClient, Poll, got, MqttCodec, MqttService, Ended, answered, unreadable, respond, end_call,
  send_call, call, send_response, on_request_internal,
}
use commlib_py.Mqtt.Calls.{IsQuiet, waiting, send_up, call_gets}

module _ {Value Payload : Type 0} (codec : MqttCodec Value Payload) where
  -- A payload is read as it was written.
  abbrev pub Faithful : Type 0
  Faithful =
      ((m : CommMessage Value) → codec.decode (codec.encode m) ≡ some m)
      × ((m : CommMessage Value) → codec.data_of (codec.encode m) ≡ some (some m.payload))

  abbrev pub Free : (ℕ → Bool) → Type 0
  Free refuses = (n : ℕ) → refuses n ≡ false

  -- A typed client's last step with an answer: it is read, and the client is as before the call.
  abbrev pub read_as :
      (Value → Option Value) → Value → MqttClient Value Payload → Ended Value Payload
  read_as read_response r c = elim (read_response r) [
    | none ↦ unreadable c
    | some r1 ↦ answered r1 c
  ]

  pub end_call_typed :
      (read_response : Value → Option Value) (reply : ℕ) (r : Value) (c : MqttClient Value Payload)
      → c.transport.has_client ≡ true
      → end_call codec true read_response reply (got r c)
        ≡ read_as read_response r (record c {
          transport = log (PahoEvent.unsubscribes reply) c.transport;
          response = none;
        })
  unfolding end_call unsubscribe log
  end_call_typed read_response reply r c h = ground arith

  pub end_call_untyped :
      (read_response : Value → Option Value) (reply : ℕ) (r : Value) (c : MqttClient Value Payload)
      → c.transport.has_client ≡ true
      → end_call codec false read_response reply (got r c)
        ≡ answered r (record c { transport = log (PahoEvent.unsubscribes reply) c.transport })
  unfolding end_call unsubscribe log
  end_call_untyped read_response reply r c h = ground arith

  module _ (refuses : ℕ → Bool) (transform slashes : ℕ → ℕ) where
    pub service_up :
        (v : MqttService Value) (reply : ℕ) (fields r : Value) (s : MqttTransport Payload)
        → Faithful
        → Free refuses
        → s.has_client ≡ true
        → respond v (record { reply_to = some reply; payload = fields }) ≡ some r
        → (on_request_internal codec refuses transform slashes v
            (codec.encode (record { reply_to = some reply; payload = fields }))
            s).events
          ≡ PahoEvent.publishes
              (slashes reply)
              (codec.encode (record { reply_to = none; payload = r }))
              1
            ∷ s.events
    unfolding on_request_internal unpack_request validate_rpc_req_msg send_response publish ask log
    service_up v reply fields r s (reads, data_reads) free h o =
        let m : CommMessage Value = record { reply_to = some reply; payload = fields } in
        ground (arith, reads m, free s.exchanges)

    -- A typed client that keeps no response of an earlier call, and a service, both connected; paho refuses
    -- none of their calls, the reply topic has no wildcards, and payloads are read as they were written:
    -- `call` asks the broker for the messages of its reply topic and publishes the request; the service
    -- publishes on that topic the response that its callback makes of the request's data; and if that
    -- message comes first, within the timeout, `call` ends with it, read as the client's type, and keeps no
    -- response.
    pub call-on_request_internal :
        (read_response : Value → Option Value) (v : MqttService Value) (wrapper name reply : ℕ)
        (arg : Argument Value) (fields r : Value) (before after : List (Poll Payload))
        (p : Poll Payload) (c : MqttClient Value Payload) (s : MqttTransport Payload)
        → Faithful
        → Free refuses
        → transform reply ≡ slashes reply
        → c.response ≡ none
        → prepare_call_data true arg ≡ some fields
        → is_connected c.transport ≡ true
        → c.transport.stopped ≡ false
        → s.has_client ≡ true
        → respond v (record { reply_to = some reply; payload = fields }) ≡ some r
        → All IsQuiet before
        → p.late ≡ false
        → p.arrived ≡ codec.encode (record { reply_to = none; payload = r }) ∷ []
        → ((t : MqttTransport Payload) → p.meanwhile t ≡ t)
        → (c1 : MqttClient Value Payload) × ((send_call codec refuses transform slashes true wrapper
              name reply arg c).1.transport.events
            ≡ PahoEvent.publishes
                (slashes name)
                (codec.encode (record { reply_to = some reply; payload = fields }))
                1
              ∷ PahoEvent.adds_callback (transform reply) wrapper
              ∷ PahoEvent.subscribes (transform reply) 0
              ∷ c.transport.events)
          × ((on_request_internal codec refuses transform slashes v
                (codec.encode (record { reply_to = some reply; payload = fields }))
                s).events
              ≡ PahoEvent.publishes
                  (transform reply)
                  (codec.encode (record { reply_to = none; payload = r }))
                  1
                ∷ s.events)
          × (call codec refuses transform slashes true read_response wrapper name reply arg
                (before ++ p ∷ after)
                c
              ≡ read_as read_response r c1)
          × (c1.response ≡ none)
    call-on_request_internal read_response v wrapper name reply arg fields r before after p c s
          faithful free t o a u stop h m q l e still =
        let resp : CommMessage Value = record { reply_to = none; payload = r } in
        let w = record (waiting codec refuses transform slashes wrapper name reply fields c) {
          response = some r;
        } in
        let made : c.transport.has_client ≡ true = unfold is_connected in ground arith in
        let begun =
          send_up codec refuses transform slashes true wrapper name reply arg fields c a made
            (free c.transport.exchanges) (free (c.transport.exchanges + 1)) in
        (
          record c { transport = log (PahoEvent.unsubscribes reply) w.transport; response = none },
          ground (arith, begun),
          ground (arith, service_up v reply fields r s faithful free h m),
          ground (
            arith,
            call_gets codec refuses transform slashes true read_response wrapper name reply arg
                fields r (codec.encode resp) before after p c o a u stop
                (free c.transport.exchanges) (free (c.transport.exchanges + 1)) q l e still
                (faithful.1 resp),
            end_call_typed read_response reply r w made,
          ),
          refl,
        )
