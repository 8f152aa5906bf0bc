-- ===== src/Mqtt/Stale.antt =====
-- commlib/transports/mqtt.py: the calls that end with the answer to another one, and the client that is
-- stopped though its connection is back.
use commlib_py.Prelude.{
  ℕ, ◌+◌, ◌≡◌, refl, ◌∙◌, Bool, true, false, Option, none, some, List, [], ◌∷◌, ◌++◌, arith, All,
}
use commlib_py.Rpc.Messages.{Argument, prepare_call_data}
use commlib_py.Mqtt.Transport.{PahoEvent, MqttTransport, up, is_connected, log}
use commlib_py.Mqtt.Rpc.{
  MqttClient, Poll, MqttCodec, answered, timeout_error, on_response_wrapper, wait_for_response,
  end_call, call,
}
use commlib_py.Mqtt.Calls.{IsQuiet, waiting, wait_quiet, send_up, call_has, call_gets}
use commlib_py.Mqtt.Answers.{Free, read_as, end_call_typed, end_call_untyped}

module _ {Value Payload : Type 0} (codec : MqttCodec Value Payload) (refuses : ℕ → Bool)
    (transform slashes : ℕ → ℕ) where
  -- A connected client without a message type keeps its response: once a call has ended with one, and no
  -- message has come since, the next call, if paho refuses none of its calls, ends with the same one,
  -- whatever it asks and whatever comes meanwhile, and without a wait.
  pub call_untyped_repeats :
      (read_response : Value → Option Value) (wrapper name reply reply2 : ℕ)
      (arg arg2 : Argument Value) (fields fields2 v : Value) (bytes : Payload)
      (before after polls : List (Poll Payload)) (p : Poll Payload) (c : MqttClient Value Payload)
      → Free codec refuses
      → c.response ≡ none
      → prepare_call_data false arg ≡ some fields
      → prepare_call_data false arg2 ≡ some fields2
      → is_connected c.transport ≡ true
      → c.transport.stopped ≡ false
      → All IsQuiet before
      → p.late ≡ false
      → p.arrived ≡ bytes ∷ []
      → ((t : MqttTransport Payload) → p.meanwhile t ≡ t)
      → codec.data_of bytes ≡ some (some v)
      → (c1 : MqttClient Value Payload) × (c2 : MqttClient Value Payload) × (call codec refuses
            transform slashes false read_response wrapper name reply arg
            (before ++ p ∷ after)
            c
          ≡ answered v c1)
        × (call codec refuses transform slashes false read_response wrapper name reply2 arg2 polls
              c1
            ≡ answered v c2)
        × (c2.response ≡ some v)
  call_untyped_repeats read_response wrapper name reply reply2 arg arg2 fields fields2 v bytes
        before after polls p c free o a a2 u s q l e still d =
      let w = record (waiting codec refuses transform slashes wrapper name reply fields c) {
        response = some v;
      } in
      let made : c.transport.has_client ≡ true = unfold is_connected in ground arith in
      let c1 = record w { transport = log (PahoEvent.unsubscribes reply) w.transport } in
      let made1 : c1.transport.has_client ≡ true = unfold log in made in
      let w2 = waiting codec refuses transform slashes wrapper name reply2 fields2 c1 in
      (
        c1,
        record w2 { transport = log (PahoEvent.unsubscribes reply2) w2.transport },
        call_gets codec refuses transform slashes false read_response wrapper name reply arg fields
              v bytes before after p c o a u s (free c.transport.exchanges)
              (free (c.transport.exchanges + 1)) q l e still d
            ∙ end_call_untyped codec read_response reply v w made,
        call_has codec refuses transform slashes false read_response wrapper name reply2 arg2
              fields2 v polls c1 refl a2 made1 (free c1.transport.exchanges)
              (free (c1.transport.exchanges + 1))
            ∙ end_call_untyped codec read_response reply2 v w2 made1,
        refl,
      )

  -- The answer to a call that has timed out is kept: the next call of the client, whatever it asks, ends
  -- with it at once.
  pub call_after_timeout :
      (read_response : Value → Option Value) (wrapper name reply reply2 : ℕ)
      (arg arg2 : Argument Value) (fields fields2 v : Value) (bytes : Payload)
      (before after polls : List (Poll Payload)) (p : Poll Payload) (c : MqttClient Value Payload)
      → Free codec refuses
      → c.response ≡ none
      → prepare_call_data true arg ≡ some fields
      → prepare_call_data true arg2 ≡ some fields2
      → is_connected c.transport ≡ true
      → c.transport.stopped ≡ false
      → All IsQuiet before
      → p.late ≡ true
      → codec.data_of bytes ≡ some (some v)
      → (c1 : MqttClient Value Payload) × (c2 : MqttClient Value Payload) × (call codec refuses
            transform slashes true read_response wrapper name reply arg
            (before ++ p ∷ after)
            c
          ≡ timeout_error c1)
        × (call codec refuses transform slashes true read_response wrapper name reply2 arg2 polls
              (on_response_wrapper codec bytes c1)
            ≡ read_as codec read_response v c2)
  call_after_timeout read_response wrapper name reply reply2 arg arg2 fields fields2 v bytes before
        after polls p c free o a a2 u s q l d =
      let c1 = waiting codec refuses transform slashes wrapper name reply fields c in
      let made : c.transport.has_client ≡ true = unfold is_connected in ground arith in
      let up1 : is_connected c1.transport ≡ true = unfold is_connected up in ground arith in
      let kept : on_response_wrapper codec bytes c1 ≡ record c1 { response = some v } =
        unfold on_response_wrapper in ground arith in
      let c3 = record c1 { response = some v } in
      let w2 = waiting codec refuses transform slashes wrapper name reply2 fields2 c3 in
      (
        c1,
        record w2 { transport = log (PahoEvent.unsubscribes reply2) w2.transport; response = none },
        unfold call wait_for_response end_call in
            ground (
              arith,
              send_up codec refuses transform slashes true wrapper name reply arg fields c a made
                  (free c.transport.exchanges) (free (c.transport.exchanges + 1)),
              wait_quiet codec before p after c1 q o up1 s,
              up1,
            ),
        rw kept (
            call_has codec refuses transform slashes true read_response wrapper name reply2 arg2
              fields2 v polls c3 refl a2 made (free c3.transport.exchanges)
              (free (c3.transport.exchanges + 1))
            ∙ end_call_typed codec read_response reply2 v w2 made),
      )
