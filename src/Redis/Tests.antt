-- ===== src/Redis/Tests.antt =====
-- Runs of the Redis transport, and the theorems at inputs where their hypotheses hold.
use commlib_py.Prelude.{
  ℕ, ◌+◌, ◌*◌, ◌≡◌, ◌≢◌, ◌≤◌, refl, Bool, true, false, not, ◌||◌, ◌%◌, ◌==◌, Option, none, some,
  List, [], ◌∷◌, if◌then◌else◌, arith,
}
use commlib_py.Prelude.Dict.{Dict, get, put, remove}
use commlib_py.Connections.Redis.{
  get_or_create_redis_pool, release_redis_pool, ensure_pool, create_pool, take_pool, drop_pool,
}
use commlib_py.Rpc.Messages.{
  CommMessage, mapping, answers, fails, fails_uncaught, queue_name, validate_rpc_req_msg,
  prepare_call_data, prepare_request, unpack_request, unpack_reply, name_or,
}
use commlib_py.Redis.Transport.{
  Transport, Shared, bare_transport, new_transport, stop, set_connected, is_connected, connect,
  max_retries_exceeded, after_connect, attempt_reconnect, gave_up, reconnect_loop, start,
}
use commlib_py.Redis.Reconnect.{left, start_gives_up, start_bounded}
use commlib_py.Redis.Queues.{
  Unanswered, Sent, sent, unsent, queue_of, rpush, popped, next, push_payload, wait_payload,
  delete_queue, queue_exists,
}
use commlib_py.Redis.Pushes.{Pushed, push_payload_lem}
use commlib_py.Redis.Rpc.{
  Codec, RpcService, alive, respond, response_of, after_push, on_request_internal,
  on_request_handle, after_wait, service_round, call_send, read_reply, after_reply, call_receive,
}
use commlib_py.Redis.Calls.{twice, call_answered}

program : Unit {0}
unfolding get put remove get_or_create_redis_pool release_redis_pool ensure_pool create_pool
    take_pool drop_pool queue_name validate_rpc_req_msg prepare_call_data prepare_request
    unpack_request unpack_reply name_or bare_transport new_transport stop set_connected is_connected
    connect max_retries_exceeded after_connect attempt_reconnect reconnect_loop start queue_of rpush
    popped next push_payload wait_payload delete_queue queue_exists respond response_of after_push
    on_request_internal on_request_handle after_wait service_round call_send read_reply after_reply
    call_receive
program = tt

abbrev dead_link : ℕ → Bool
dead_link n = false

abbrev live_link : ℕ → Bool
live_link n = true

abbrev fresh_transport : Transport
fresh_transport = bare_transport 7 3 false

starts : start live_link 1 fresh_transport ≢ none
unfolding program
starts = ground arith

start_gives_up_example :
    (t' : Transport) × (start dead_link 4 fresh_transport ≡ some (gave_up t'))
    × (t'.retry_count ≡ 3)
    × (t'.exchanges ≡ 8)
    × (t'.connected ≡ false)
unfolding program
start_gives_up_example =
    start_gives_up dead_link fresh_transport (λ n. refl) refl refl (omega arith)

abbrev given_up : Transport
given_up = record (connect dead_link fresh_transport).1 { retry_count = 3; exchanges = 8 }

start_bounded_example : (left dead_link (gave_up given_up)).retry_count ≤ 3
unfolding program
start_bounded_example =
    start_bounded dead_link 4 fresh_transport (gave_up given_up) (omega arith) (omega arith) refl

-- The server answers the pings 0, 2, 5, 8, ... and no other one.
abbrev flapping : ℕ → Bool
flapping n = (n == 0) || (n % 3 == 2)

flapping_third :
    (i : ℕ)
    → (flapping (0 + 1 + 3 * i) ≡ false)
      × (flapping (0 + 1 + 3 * i + 1) ≡ true)
      × (flapping (0 + 1 + 3 * i + 1 + 1) ≡ false)
flapping_third i = (ground arith, ground arith, ground arith)

abbrev no_pools : Shared
no_pools = record {
  pools = record { registry = []; refcount = []; created = 0; disconnected = [] };
  class_pool = none;
}

abbrev shared_of : Option (Transport × Shared) → Shared
shared_of none = no_pools
shared_of (some (t, w)) = w

abbrev first_made : Shared
first_made = shared_of (new_transport 7 3 no_pools)

abbrev connected_transport : Transport
connected_transport = (connect live_link fresh_transport).1

-- The exchange 2, the first push, is not answered.
abbrev lossy : ℕ → Bool
lossy n = not (n == 2)

abbrev carried_out : ℕ → Unanswered
carried_out n = record { carried = true; times_out = false }

abbrev not_carried : ℕ → Unanswered
not_carried n = record { carried = false; times_out = false }

abbrev pushed_twice : Sent ℕ
pushed_twice = elim (push_payload lossy carried_out 2 4 9 connected_transport []) [
  | none ↦ unsent connected_transport []
  | some r ↦ r
]

push_payload_lem_example : Pushed lossy carried_out 4 9 connected_transport [] pushed_twice
unfolding program
push_payload_lem_example =
    push_payload_lem lossy carried_out 2 4 9 connected_transport [] pushed_twice refl

twice_in_queue :
    pushed_twice ≡ sent (elim pushed_twice [ sent t s ↦ t | unsent t s ↦ t ]) ((4, 9 ∷ 9 ∷ []) ∷ [])
unfolding program
twice_in_queue = refl

-- A TimeoutError ends the push, though the server has carried it out.
abbrev timed : ℕ → Unanswered
timed n = record { carried = true; times_out = true }

push_times_out :
    push_payload {Payload = ℕ} lossy timed 2 4 9 connected_transport []
    ≡ some (unsent (next (next connected_transport)) ((4, 9 ∷ []) ∷ []))
unfolding program
push_times_out = refl

abbrev codec : Codec ℕ (Option (CommMessage ℕ))
codec = record {
  encode = λ m. some m;
  decode = λ p. p;
  is_init = λ p. elim p [ none ↦ true | some m ↦ false ];
}

-- It doubles its data, and raises a ValueError for 0.
abbrev doubling : RpcService ℕ
doubling = record {
  typed = false;
  read_request = λ n. some n;
  on_request = λ n. if n == 0 then fails else answers (n + n);
  empty = 0;
}

-- It raises what the service does not catch.
abbrev crashing : RpcService ℕ
crashing = record doubling { on_request = λ n. fails_uncaught }

abbrev queues : Dict (List (Option (CommMessage ℕ)))
queues = (5, some (record { reply_to = none; payload = 1 }) ∷ []) ∷ []

call_answered_example :
    (s1 : Dict (List (Option (CommMessage ℕ)))) × (s2 : Dict (List (Option (CommMessage ℕ))))
    × (s3 : Dict (List (Option (CommMessage ℕ)))) × (call_send codec live_link not_carried false 1 1
          2
          (mapping 21)
          connected_transport
          queues
        ≡ some (some (sent (twice connected_transport) s1)))
    × (service_round codec live_link not_carried doubling 1 1 connected_transport s1
        ≡ some (alive (twice (twice connected_transport)) s2))
    × (call_receive codec live_link not_carried false
          (λ n. some n)
          1
          2
          (twice connected_transport)
          s2
        ≡ some (
            read_reply codec live_link not_carried false
              (λ n. some n)
              (some 42)
              (twice (twice connected_transport))
              s3))
    × ((j : ℕ) → queue_of j s3 ≡ queue_of j queues)
unfolding program
call_answered_example =
    call_answered codec live_link not_carried false (λ n. some n) doubling 1 2 (mapping 21) 21 42
      connected_transport connected_transport queues ((λ n. refl), (λ m. refl), (λ m. refl))
      (refl, refl) (omega arith) (refl, refl) refl refl
