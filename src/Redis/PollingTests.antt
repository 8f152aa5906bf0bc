-- ===== src/Redis/PollingTests.antt =====
-- A producer and a worker on the queues of Redis, and their theorems at inputs where the hypotheses hold.
use commlib_py.Prelude.{
  ℕ, ◌≡◌, refl, Bool, true, false, ◌==◌, Option, some, List, [], ◌∷◌, arith, if◌then◌else◌,
}
use commlib_py.Prelude.Dict.{Dict, get, put}
use commlib_py.Redis.Transport.{Transport, bare_transport, connect, is_connected, set_connected}
use commlib_py.Redis.Queues.{Unanswered, queue_of, rpush, popped, push_payload, wait_payload}
use commlib_py.Redis.Tasks.{
  Ended, returns, raises, TaskCodec, Poller, after_process, send_task, take_payload, after_wait,
  poll, poll_loop,
}
use commlib_py.Redis.Polling.{send_all, poll_loop-send_task}

program : Unit {0}
unfolding get put bare_transport connect is_connected set_connected queue_of rpush popped
    push_payload wait_payload after_process send_task take_payload after_wait poll poll_loop
program = tt

abbrev at_once : ℕ → Bool
at_once n = true

abbrev never : ℕ → Unanswered
never n = record { carried = false; times_out = false }

abbrev codec : TaskCodec ℕ (Option ℕ)
codec = record { encode = λ a. some a; decode = λ p. p; is_init = λ p. false }

abbrev odd_one : ℕ → Ended
odd_one n = if n == 7 then raises else returns

abbrev worker : Dict (List (Option ℕ)) → Poller ℕ (Option ℕ)
worker s = record {
  transport = (connect at_once (bare_transport 1 3 false)).1;
  store = s;
  processed = [];
  alive = true;
}

poll_loop-send_task_example :
    (t' : Transport) × (s : Dict (List (Option ℕ))) × (w' : Poller ℕ (Option ℕ)) × (send_all codec
        at_once never odd_one 4
        (7 ∷ 5 ∷ [])
        (worker []).transport
        []
      ≡ some (t', s))
    × (poll_loop codec at_once never odd_one 2 1 4 (worker s) ≡ some w')
    × (w'.processed ≡ 7 ∷ 5 ∷ [])
    × (w'.alive ≡ true)
    × ((j : ℕ) → queue_of j w'.store ≡ queue_of j [])
unfolding program
poll_loop-send_task_example =
    poll_loop-send_task codec at_once never odd_one 4 (7 ∷ 5 ∷ []) (worker []).transport (worker [])
      ((λ n. refl), (λ a. refl), (λ a. refl)) (refl, refl) refl (ground arith, (ground arith, tt))
      refl
