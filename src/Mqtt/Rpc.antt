-- ===== src/Mqtt/Rpc.antt =====
-- commlib/transports/mqtt.py: RPCClient and RPCService.
-- A reply topic is a number as any topic is. `data_of` is the field `data` of what the serializer makes of a
-- payload, `none` if that raises, and `some none` if the field is null, which the client takes for no
-- response. `wrapper` is the number of the callback `_on_response_wrapper`.
use commlib_py.Prelude.{ℕ, Bool, not, ◌||◌, Option, none, some, List, [], ◌∷◌, if◌then◌else◌}
use commlib_py.Rpc.Messages.{
  CommMessage, Argument, Handled, answers, fails, fails_uncaught, prepare_call_data,
  prepare_request, unpack_request,
}
use commlib_py.Mqtt.Transport.{
  MqttTransport, Raised, Result, returned, raised, is_connected, publish, subscribe, unsubscribe,
}

pub record MqttClient (Value Payload : Type 0) : Type 0 where
  pub transport : MqttTransport Payload
  -- `_response`
  pub response : Option Value

-- One turn of the loop that waits: whether the timeout has passed, the messages that the callback is
-- given while it sleeps, and what else becomes of the transport by then.
pub record Poll (Payload : Type 0) : Type 0 where
  pub late : Bool
  pub arrived : List Payload
  pub meanwhile : MqttTransport Payload → MqttTransport Payload

-- How the wait ends; `waits` is where the polls that are given end before it.
pub data Waited (Value Payload : Type 0) : Type 0 where
  got : Value → MqttClient Value Payload → Waited Value Payload
  gave_up waits : MqttClient Value Payload → Waited Value Payload

-- How `call` ends: with a response, an RPCRequestError, an exception of the transport, an
-- RPCClientTimeoutError, or an exception of `Response(**data)`.
pub data Ended (Value Payload : Type 0) : Type 0 where
  answered : Value → MqttClient Value Payload → Ended Value Payload
  request_error timeout_error unreadable still_waits :
      MqttClient Value Payload → Ended Value Payload
  unsent : Raised → MqttClient Value Payload → Ended Value Payload

-- A client, or a service, with its serializer.
pub record MqttCodec (Value Payload : Type 0) : Type 0 where
  pub encode : CommMessage Value → Payload
  pub decode : Payload → Option (CommMessage Value)
  pub data_of : Payload → Option (Option Value)

-- A service: `msg_type is not None`, `msg_type.Request(**data)` and its callback.
pub record MqttService (Value : Type 0) : Type 0 where
  pub typed : Bool
  pub read_request : Value → Option Value
  pub on_request : Value → Handled Value

module _ {Value : Type 0} where
  -- What the service answers with; `none` is an exception, which is logged.
  unfoldable pub response_of : Handled Value → Option Value
  response_of (answers r) = some r
  response_of fails = none
  response_of fails_uncaught = none

  unfoldable pub respond : MqttService Value → CommMessage Value → Option Value
  unfolding response_of
  respond v m =
      if v.typed
      then elim (v.read_request m.payload) [ none ↦ none | some r ↦ response_of (v.on_request r) ]
      else response_of (v.on_request m.payload)

module _ {Value Payload : Type 0} (codec : MqttCodec Value Payload) where
  -- _on_response_wrapper
  unfoldable pub on_response_wrapper : Payload → MqttClient Value Payload → MqttClient Value Payload
  on_response_wrapper bytes c = elim (codec.data_of bytes) [
    | none ↦ c
    | some r ↦ record c { response = r }
  ]

  unfoldable pub on_response_wrappers :
      List Payload → MqttClient Value Payload → MqttClient Value Payload
  unfolding on_response_wrapper
  on_response_wrappers [] c = c
  on_response_wrappers (bytes ∷ more) c = on_response_wrappers more (on_response_wrapper bytes c)

  -- `time.sleep(self._LOOP_INTERVAL)`
  unfoldable pub sleep : Poll Payload → MqttClient Value Payload → MqttClient Value Payload
  unfolding on_response_wrappers
  sleep p c =
      let c1 = on_response_wrappers p.arrived c in
      record c1 { transport = p.meanwhile c1.transport }

  -- _wait_for_response
  unfoldable pub wait_for_response :
      List (Poll Payload) → MqttClient Value Payload → Waited Value Payload
  unfolding is_connected sleep
  wait_for_response [] c = elim (c.response) [ none ↦ waits c | some v ↦ got v c ]
  wait_for_response (p ∷ ps) c =
      let rest = wait_for_response ps (sleep p c) in
      elim (c.response) [
        | some v ↦ got v c
        | none ↦
            if not (is_connected c.transport) || c.transport.stopped
            then gave_up c
            else if p.late
            then gave_up c
            else rest
      ]

  -- The end of `call`, for the reply topic of its request.
  unfoldable pub end_call :
      Bool → (Value → Option Value) → ℕ → Waited Value Payload → Ended Value Payload
  unfolding unsubscribe
  end_call typed read_response reply_to (waits c) = still_waits c
  end_call typed read_response reply_to (gave_up c) = timeout_error c
  end_call typed read_response reply_to (got v c) = elim (unsubscribe reply_to c.transport) [
    | raised e t ↦ unsent e (record c { transport = t })
    | returned ok t ↦
        if typed
        then elim (read_response v) [
          | none ↦ unreadable (record c { transport = t; response = none })
          | some r ↦ answered r (record c { transport = t; response = none })
        ]
        else answered v (record c { transport = t })
  ]

  module _ (refuses : ℕ → Bool) (transform slashes : ℕ → ℕ) where
    -- `call` up to the wait, which is `none` if it is reached.
    unfoldable pub send_call :
        Bool
        → ℕ
        → ℕ
        → ℕ
        → Argument Value
        → MqttClient Value Payload
        → Option (Ended Value Payload) × MqttClient Value Payload
    unfolding subscribe publish
    send_call typed wrapper rpc_name reply_to arg c = elim (prepare_call_data typed arg) [
      | none ↦ (some (request_error c), c)
      | some fields ↦ elim (subscribe refuses transform (some reply_to) wrapper 0 c.transport) [
        | raised e t ↦ (some (unsent e (record c { transport = t })), c)
        | returned topic t ↦
            elim (publish refuses slashes rpc_name
              (codec.encode (prepare_request fields none reply_to)) 1 t) [
                | raised e t1 ↦ (some (unsent e (record c { transport = t1 })), c)
                | returned ok t1 ↦ (none, record c { transport = t1 })
              ]
      ]
    ]

    -- call, with the reply topic that `_gen_queue_name` makes
    unfoldable pub call :
        Bool
        → (Value → Option Value)
        → ℕ
        → ℕ
        → ℕ
        → Argument Value
        → List (Poll Payload)
        → MqttClient Value Payload
        → Ended Value Payload
    unfolding send_call wait_for_response end_call
    call typed read_response wrapper rpc_name reply_to arg polls c =
        let begun = send_call typed wrapper rpc_name reply_to arg c in
        elim (begun.0) [
          | some e ↦ e
          | none ↦ end_call typed read_response reply_to (wait_for_response polls begun.1)
        ]

    -- RPCService._send_response
    unfoldable pub send_response : Value → ℕ → MqttTransport Payload → Result Payload Unit
    unfolding publish
    send_response r reply_to t =
        publish refuses slashes reply_to (codec.encode (record { reply_to = none; payload = r })) 1
          t

    -- RPCService._on_request_internal: what is raised is logged or dropped.
    unfoldable pub on_request_internal :
        MqttService Value → Payload → MqttTransport Payload → MqttTransport Payload
    unfolding respond send_response
    on_request_internal v bytes t = elim (unpack_request codec.decode bytes) [
      | none ↦ t
      | some m ↦ elim (respond v m) [
        | none ↦ t
        | some r ↦ elim (m.reply_to) [
          | none ↦ t
          | some reply_to ↦ elim (send_response r reply_to t) [
            | returned ok t1 ↦ t1
            | raised e t1 ↦ t1
          ]
        ]
      ]
    ]
