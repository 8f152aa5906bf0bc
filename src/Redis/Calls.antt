-- ===== src/Redis/Calls.antt =====
-- commlib/rpc.py over commlib/transports/redis.py: a call from its client to its service and back.
use commlib_py.Prelude.{
  ℕ, zero, suc, ◌+◌, ◌≡◌, ◌≢◌, Bool, true, false, ◌==◌, Option, none, some, List, [], ◌∷◌,
  if◌then◌else◌, arith,
}
use commlib_py.Prelude.Dict.{Dict, get-remove}
use commlib_py.Rpc.Messages.{
  CommMessage, Argument, queue_name, validate_rpc_req_msg, prepare_call_data, prepare_request,
  unpack_request, unpack_reply, name_or,
}
use commlib_py.Redis.Transport.{Transport, is_connected}
use commlib_py.Redis.Queues.{
  Unanswered, sent, got, timed_out, queue_of, rpush, popped, next, push_payload, wait_payload,
  delete_queue,
}
use commlib_py.Redis.Pushes.{queue_of-rpush, queue_of-popped}
use commlib_py.Redis.Rpc.{
  Codec, RpcService, alive, returned, respond, after_push, on_request_internal, on_request_handle,
  after_wait, service_round, call_send, read_reply, after_reply, call_receive,
}

-- The transport after two exchanges.
abbrev pub twice : Transport → Transport
twice t = record t { exchanges = t.exchanges + 1 + 1 }

module _ {Payload : Type 0} (link : ℕ → Bool) (taken : ℕ → Unanswered) where
  pub push_up :
      (fuel q : ℕ) (p : Payload) (t : Transport) (s : Dict (List Payload))
      → ((n : ℕ) → link n ≡ true)
      → t.has_redis ≡ true
      → push_payload link taken (suc fuel) q p t s ≡ some (sent (twice t) (rpush q p s))
  unfolding push_payload is_connected next
  push_up fuel q p t s up h = ground (arith, up t.exchanges, up (t.exchanges + 1))

  pub wait_up :
      (is_init : Payload → Bool) (fuel q : ℕ) (p : Payload) (ps : List Payload) (t : Transport)
      (s : Dict (List Payload))
      → ((n : ℕ) → link n ≡ true)
      → t.has_redis ≡ true
      → queue_of q s ≡ p ∷ ps
      → is_init p ≡ false
      → wait_payload link taken is_init (suc fuel) q t s ≡ some (got p (twice t) (popped q s))
  unfolding wait_payload is_connected next
  wait_up is_init fuel q p ps t s up h e i = ground (arith, up t.exchanges, up (t.exchanges + 1))

  wait_nothing :
      (is_init : Payload → Bool) (fuel q : ℕ) (t : Transport) (s : Dict (List Payload))
      → ((n : ℕ) → link n ≡ true)
      → t.has_redis ≡ true
      → queue_of q s ≡ []
      → wait_payload link taken is_init (suc fuel) q t s ≡ some (timed_out (twice t) s)
  unfolding wait_payload is_connected next
  wait_nothing is_init fuel q t s up h e = ground (arith, up t.exchanges, up (t.exchanges + 1))

module _ {Value Payload : Type 0} (codec : Codec Value Payload) (link : ℕ → Bool)
    (taken : ℕ → Unanswered) where
  -- Every exchange is answered; a payload is read as it was written, and none of them is "QueueInit".
  abbrev pub Faithful : Type 0
  Faithful =
      ((n : ℕ) → link n ≡ true)
      × ((m : CommMessage Value) → codec.decode (codec.encode m) ≡ some m)
      × ((m : CommMessage Value) → codec.is_init (codec.encode m) ≡ false)

  round_up :
      (v : RpcService Value) (fuel name fresh : ℕ) (fields r : Value) (u : Transport)
      (s : Dict (List Payload))
      → Faithful
      → u.has_redis ≡ true
      → queue_of (suc name) s
        ≡ codec.encode (record { reply_to = some fresh; payload = fields }) ∷ []
      → respond v (record { reply_to = some fresh; payload = fields }) ≡ some r
      → service_round codec link taken v (suc fuel) name u s
        ≡ some (
            alive (twice (twice u)) (
              rpush
                (suc fresh)
                (codec.encode (record { reply_to = none; payload = r }))
                (popped (suc name) s)))
  unfolding service_round after_wait on_request_handle unpack_request validate_rpc_req_msg
      on_request_internal after_push queue_name
  round_up v fuel name fresh fields r u s (up, read, init) h e o =
      let m : CommMessage Value = record { reply_to = some fresh; payload = fields } in
      ground (
        arith,
        wait_up link taken codec.is_init fuel (suc name) (codec.encode m) [] u s up h e (init m),
        read m,
        push_up link taken fuel (suc fresh) (codec.encode (record { reply_to = none; payload = r }))
            (twice u) (popped (suc name) s) up h,
      )

  receive_up :
      (typed : Bool) (read_response : Value → Option Value) (fuel fresh : ℕ) (r : Value)
      (t : Transport) (s : Dict (List Payload))
      → Faithful
      → t.has_redis ≡ true
      → queue_of (suc fresh) s ≡ codec.encode (record { reply_to = none; payload = r }) ∷ []
      → call_receive codec link taken typed read_response (suc fuel) fresh t s
        ≡ some (
            read_reply codec link taken typed read_response
              (some r)
              (twice t)
              (delete_queue (suc fresh) (popped (suc fresh) s)).1)
  unfolding call_receive after_reply unpack_reply
  receive_up typed read_response fuel fresh r t s (up, read, init) h e =
      let m : CommMessage Value = record { reply_to = none; payload = r } in
      ground (
        arith,
        wait_up link taken codec.is_init fuel (suc fresh) (codec.encode m) [] t s up h e (init m),
        read m,
      )

  queue_of-delete_queue :
      (q j : ℕ) (s : Dict (List Payload))
      → queue_of j (delete_queue q s).1 ≡ (if q == j then [] else queue_of j s)
  unfolding queue_of delete_queue
  queue_of-delete_queue q j s = ground (arith, get-remove q j s)

  -- A client and a service that reach the server, with nothing waiting for either: the call sends, one
  -- round of the service answers, and the call ends with the response that the service made of its
  -- data, read as the client's type. The response is what `on_request` returned, or the empty one if it
  -- raised what the service catches. Every queue is left as it was.
  pub call_answered :
      (typed : Bool) (read_response : Value → Option Value) (v : RpcService Value) (name fresh : ℕ)
      (arg : Argument Value) (fields r : Value) (t u : Transport) (s : Dict (List Payload))
      → Faithful
      → (t.has_redis ≡ true) × (u.has_redis ≡ true)
      → name ≢ fresh
      → (queue_of (suc name) s ≡ []) × (queue_of (suc fresh) s ≡ [])
      → prepare_call_data typed arg ≡ some fields
      → respond v (record { reply_to = some fresh; payload = fields }) ≡ some r
      → (s1 : Dict (List Payload)) × (s2 : Dict (List Payload)) × (s3 : Dict (List Payload))
        × (call_send codec link taken typed 1 name fresh arg t s ≡ some (some (sent (twice t) s1)))
        × (service_round codec link taken v 1 name u s1 ≡ some (alive (twice (twice u)) s2))
        × (call_receive codec link taken typed read_response 1 fresh (twice t) s2
            ≡ some (read_reply codec link taken typed read_response (some r) (twice (twice t)) s3))
        × ((j : ℕ) → queue_of j s3 ≡ queue_of j s)
  unfolding call_send prepare_request name_or
  call_answered typed read_response v name fresh arg fields r t u s faithful (ht, hu) distinct
        (none_waits, no_reply) a o =
      let req : Payload = codec.encode (record { reply_to = some fresh; payload = fields }) in
      let rep : Payload = codec.encode (record { reply_to = none; payload = r }) in
      let s1 = rpush (suc name) req s in
      let s2 = rpush (suc fresh) rep (popped (suc name) s1) in
      let s3 = (delete_queue (suc fresh) (popped (suc fresh) s2)).1 in
      let waits : queue_of (suc name) s1 ≡ req ∷ [] =
        ground (arith, queue_of-rpush (suc name) (suc name) req s) in
      let replied : queue_of (suc fresh) s2 ≡ rep ∷ [] = ground (
        arith,
        queue_of-rpush (suc fresh) (suc fresh) rep (popped (suc name) s1),
        queue_of-popped (suc name) (suc fresh) s1,
        queue_of-rpush (suc name) (suc fresh) req s,
      ) in
      (
        s1,
        s2,
        s3,
        ground (arith, push_up link taken zero (suc name) req t s faithful.0 ht),
        round_up v zero name fresh fields r u s1 faithful hu waits o,
        receive_up typed read_response zero fresh r (twice t) s2 faithful ht replied,
        λ j. ground (
          arith,
          waits,
          queue_of-delete_queue (suc fresh) j (popped (suc fresh) s2),
          queue_of-popped (suc fresh) j s2,
          queue_of-rpush (suc fresh) j rep (popped (suc name) s1),
          queue_of-popped (suc name) j s1,
          queue_of-rpush (suc name) j req s,
        ),
      )

  -- If the callback raises what the service does not catch, no response is sent: the client's wait times
  -- out and `call` returns `None`. The request is gone, and every queue is as it was before the call.
  pub call_unanswered :
      (typed : Bool) (read_response : Value → Option Value) (v : RpcService Value) (name fresh : ℕ)
      (arg : Argument Value) (fields : Value) (t u : Transport) (s : Dict (List Payload))
      → Faithful
      → (t.has_redis ≡ true) × (u.has_redis ≡ true)
      → name ≢ fresh
      → (queue_of (suc name) s ≡ []) × (queue_of (suc fresh) s ≡ [])
      → prepare_call_data typed arg ≡ some fields
      → respond v (record { reply_to = some fresh; payload = fields }) ≡ none
      → (s1 : Dict (List Payload)) × (s2 : Dict (List Payload)) × (s3 : Dict (List Payload))
        × (call_send codec link taken typed 1 name fresh arg t s ≡ some (some (sent (twice t) s1)))
        × (service_round codec link taken v 1 name u s1 ≡ some (alive (twice u) s2))
        × (call_receive codec link taken typed read_response 1 fresh (twice t) s2
            ≡ some (returned none (twice (twice t)) s3))
        × ((j : ℕ) → queue_of j s3 ≡ queue_of j s)
  unfolding call_send prepare_request name_or service_round after_wait on_request_handle
      unpack_request validate_rpc_req_msg on_request_internal call_receive after_reply
  call_unanswered typed read_response v name fresh arg fields t u s (up, read, init) (ht, hu)
        distinct (none_waits, no_reply) a o =
      let m : CommMessage Value = record { reply_to = some fresh; payload = fields } in
      let req : Payload = codec.encode m in
      let s1 = rpush (suc name) req s in
      let s2 = popped (suc name) s1 in
      let waits : queue_of (suc name) s1 ≡ req ∷ [] =
        ground (arith, queue_of-rpush (suc name) (suc name) req s) in
      let silent : queue_of (suc fresh) s2 ≡ [] = ground (
        arith,
        queue_of-popped (suc name) (suc fresh) s1,
        queue_of-rpush (suc name) (suc fresh) req s,
      ) in
      (
        s1,
        s2,
        (delete_queue (suc fresh) s2).1,
        ground (arith, push_up link taken zero (suc name) req t s up ht),
        ground (
          arith,
          wait_up link taken codec.is_init zero (suc name) req [] u s1 up hu waits (init m),
          read m,
        ),
        ground (
          arith,
          wait_nothing link taken codec.is_init zero (suc fresh) (twice t) s2 up ht silent,
        ),
        λ j. ground (
          arith,
          waits,
          queue_of-delete_queue (suc fresh) j s2,
          queue_of-popped (suc name) j s1,
          queue_of-rpush (suc name) j req s,
        ),
      )
