-- ===== src/Mqtt/Calls.antt =====
-- commlib/transports/mqtt.py: what a call of RPCClient ends with.
use commlib_py.Prelude.{
  ℕ, ◌+◌, ◌≡◌, refl, Bool, true, false, Option, none, some, List, [], ◌∷◌, ◌++◌, arith, All,
}
use commlib_py.Prelude.Dict.{put}
use commlib_py.Rpc.Messages.{Argument, prepare_call_data, prepare_request, name_or}
use commlib_py.Mqtt.Transport.{
  PahoEvent, MqttTransport, up, is_connected, log, ask, publish, end_subscribe, subscribe,
}
use commlib_py.Mqtt.Rpc.{
  MqttClient, Poll, got, MqttCodec, on_response_wrapper, on_response_wrappers, sleep,
  wait_for_response, end_call, send_call, call,
}

-- A turn of the loop in which nothing comes, and the transport stays as it is.
abbrev pub IsQuiet : {Payload : Type 0} → Poll Payload → Type 0
IsQuiet {Payload = Payload} p =
    (p.late ≡ false) × (p.arrived ≡ []) × ((t : MqttTransport Payload) → p.meanwhile t ≡ t)

-- The transport of a client once it has subscribed and published a request.
abbrev pub sent_request :
    {Payload : Type 0} → ℕ → ℕ → ℕ → Payload → MqttTransport Payload → MqttTransport Payload
sent_request wrapper topic rpc_topic bytes t = record t {
  subscriptions = put topic (wrapper, 0) t.subscriptions;
  exchanges = t.exchanges + 1 + 1;
  events =
      PahoEvent.publishes rpc_topic bytes 1
      ∷ PahoEvent.adds_callback topic wrapper
      ∷ PahoEvent.subscribes topic 0
      ∷ t.events;
}

module _ {Value Payload : Type 0} (codec : MqttCodec Value Payload) where
  wait_has :
      (ps : List (Poll Payload)) (v : Value) (c : MqttClient Value Payload)
      → c.response ≡ some v
      → wait_for_response codec ps c ≡ got v c
  unfolding wait_for_response
  wait_has [] v c h = rw h refl
  wait_has (p ∷ ps) v c h = ground arith

  pub wait_quiet :
      (before : List (Poll Payload)) (p : Poll Payload) (ps : List (Poll Payload))
      (c : MqttClient Value Payload)
      → All IsQuiet before
      → c.response ≡ none
      → is_connected c.transport ≡ true
      → c.transport.stopped ≡ false
      → wait_for_response codec (before ++ p ∷ ps) c ≡ wait_for_response codec (p ∷ ps) c
  unfolding wait_for_response sleep on_response_wrappers
  wait_quiet [] p ps c q h u s = refl
  wait_quiet (b ∷ before) p ps c ((late, arrived, still), q) h u s =
      ground (arith, still c.transport, wait_quiet before p ps c q h u s)

  wait_answer :
      (v : Value) (bytes : Payload) (p : Poll Payload) (ps : List (Poll Payload))
      (c : MqttClient Value Payload)
      → c.response ≡ none
      → is_connected c.transport ≡ true
      → c.transport.stopped ≡ false
      → p.late ≡ false
      → p.arrived ≡ bytes ∷ []
      → ((t : MqttTransport Payload) → p.meanwhile t ≡ t)
      → codec.data_of bytes ≡ some (some v)
      → wait_for_response codec (p ∷ ps) c ≡ got v (record c { response = some v })
  unfolding wait_for_response sleep on_response_wrappers on_response_wrapper
  wait_answer v bytes p ps c h u s l a still d =
      ground (arith, still c.transport, wait_has ps v (record c { response = some v }) refl)

  module _ (refuses : ℕ → Bool) (transform slashes : ℕ → ℕ) where
    -- The client that waits for its response.
    abbrev pub waiting : ℕ → ℕ → ℕ → Value → MqttClient Value Payload → MqttClient Value Payload
    waiting wrapper name reply fields c = record c {
      transport =
          sent_request wrapper (transform reply) (slashes name)
            (codec.encode (record { reply_to = some reply; payload = fields })) c.transport;
    }

    pub send_up :
        (typed : Bool) (wrapper name reply : ℕ) (arg : Argument Value) (fields : Value)
        (c : MqttClient Value Payload)
        → prepare_call_data typed arg ≡ some fields
        → c.transport.has_client ≡ true
        → refuses c.transport.exchanges ≡ false
        → refuses (c.transport.exchanges + 1) ≡ false
        → send_call codec refuses transform slashes typed wrapper name reply arg c
          ≡ (none, waiting wrapper name reply fields c)
    unfolding send_call subscribe end_subscribe publish ask log prepare_request name_or
    send_up typed wrapper name reply arg fields c a h r1 r2 = ground arith

    -- A client that has a response already returns it at once: nothing is waited for.
    pub call_has :
        (typed : Bool) (read_response : Value → Option Value) (wrapper name reply : ℕ)
        (arg : Argument Value) (fields v : Value) (polls : List (Poll Payload))
        (c : MqttClient Value Payload)
        → c.response ≡ some v
        → prepare_call_data typed arg ≡ some fields
        → c.transport.has_client ≡ true
        → refuses c.transport.exchanges ≡ false
        → refuses (c.transport.exchanges + 1) ≡ false
        → call codec refuses transform slashes typed read_response wrapper name reply arg polls c
          ≡ end_call codec typed read_response reply (got v (waiting wrapper name reply fields c))
    unfolding call
    call_has typed read_response wrapper name reply arg fields v polls c o a h r1 r2 = ground (
      arith,
      send_up typed wrapper name reply arg fields c a h r1 r2,
      wait_has polls v (waiting wrapper name reply fields c) o,
    )

    -- The answer comes after some turns in which nothing does.
    pub call_gets :
        (typed : Bool) (read_response : Value → Option Value) (wrapper name reply : ℕ)
        (arg : Argument Value) (fields v : Value) (bytes : Payload)
        (before after : List (Poll Payload)) (p : Poll Payload) (c : MqttClient Value Payload)
        → c.response ≡ none
        → prepare_call_data typed arg ≡ some fields
        → is_connected c.transport ≡ true
        → c.transport.stopped ≡ false
        → refuses c.transport.exchanges ≡ false
        → refuses (c.transport.exchanges + 1) ≡ false
        → All IsQuiet before
        → p.late ≡ false
        → p.arrived ≡ bytes ∷ []
        → ((t : MqttTransport Payload) → p.meanwhile t ≡ t)
        → codec.data_of bytes ≡ some (some v)
        → call codec refuses transform slashes typed read_response wrapper name reply arg
            (before ++ p ∷ after)
            c
          ≡ end_call codec typed read_response reply
              (got v (record (waiting wrapper name reply fields c) { response = some v }))
    unfolding call is_connected up
    call_gets typed read_response wrapper name reply arg fields v bytes before after p c o a u s r1
          r2 q l e still d =
        let w = waiting wrapper name reply fields c in
        ground (
          arith,
          send_up typed wrapper name reply arg fields c a (ground arith) r1 r2,
          wait_quiet before p after w q o (ground arith) s,
          wait_answer v bytes p after w o (ground arith) s l e still d,
        )
