-- ===== src/Kafka/Loops.antt =====
-- commlib/transports/kafka.py: what the loops that poll a consumer hand to their callbacks.
use commlib_py.Prelude.{◌≡◌, refl, ap, Bool, true, false, List, [], ◌∷◌}
use commlib_py.Kafka.Transport.{
  Polled, nothing, partition_eof, unknown_topic, other_error, message, poll_loop, run_forever,
}

module _ {Message : Type 0} where
  -- The turns before the loop is told to stop.
  unfoldable pub before_stop : List (Bool × Polled Message) → List (Polled Message)
  before_stop [] = []
  before_stop ((true, polled) ∷ turns) = []
  before_stop ((false, polled) ∷ turns) = polled ∷ before_stop turns

  -- The messages among what `poll` returned.
  unfoldable pub messages : List (Polled Message) → List Message
  messages [] = []
  messages (nothing ∷ ps) = messages ps
  messages (partition_eof ∷ ps) = messages ps
  messages (unknown_topic ∷ ps) = messages ps
  messages (other_error ∷ ps) = messages ps
  messages (message m ∷ ps) = m ∷ messages ps

  -- What comes before the first error that is neither the end of a partition nor an unknown topic.
  unfoldable pub before_error : List (Polled Message) → List (Polled Message)
  before_error [] = []
  before_error (nothing ∷ ps) = nothing ∷ before_error ps
  before_error (partition_eof ∷ ps) = partition_eof ∷ before_error ps
  before_error (unknown_topic ∷ ps) = unknown_topic ∷ before_error ps
  before_error (other_error ∷ ps) = []
  before_error (message m ∷ ps) = message m ∷ before_error ps

  poll_loop_lem :
      (turns : List (Bool × Polled Message)) → poll_loop turns ≡ messages (before_stop turns)
  unfolding poll_loop messages before_stop
  poll_loop_lem [] = refl
  poll_loop_lem ((true, polled) ∷ turns) = refl
  poll_loop_lem ((false, nothing) ∷ turns) = poll_loop_lem turns
  poll_loop_lem ((false, partition_eof) ∷ turns) = poll_loop_lem turns
  poll_loop_lem ((false, unknown_topic) ∷ turns) = poll_loop_lem turns
  poll_loop_lem ((false, other_error) ∷ turns) = poll_loop_lem turns
  poll_loop_lem ((false, message m) ∷ turns) = ap (◌∷◌ m) (poll_loop_lem turns)

  run_forever_lem :
      (turns : List (Bool × Polled Message))
      → (run_forever turns).0 ≡ messages (before_error (before_stop turns))
  unfolding run_forever messages before_stop before_error
  run_forever_lem [] = refl
  run_forever_lem ((true, polled) ∷ turns) = refl
  run_forever_lem ((false, nothing) ∷ turns) = run_forever_lem turns
  run_forever_lem ((false, partition_eof) ∷ turns) = run_forever_lem turns
  run_forever_lem ((false, unknown_topic) ∷ turns) = run_forever_lem turns
  run_forever_lem ((false, other_error) ∷ turns) = refl
  run_forever_lem ((false, message m) ∷ turns) = ap (◌∷◌ m) (run_forever_lem turns)

  -- The two loops that read a consumer: `_poll_loop` hands to its callback, in order, every message that is
  -- polled before it is told to stop, whatever errors come between; the loop of a subscriber hands on
  -- those before the first error that is neither the end of a partition nor an unknown topic.
  pub poll_loop-run_forever :
      (turns : List (Bool × Polled Message))
      → (poll_loop turns ≡ messages (before_stop turns))
        × ((run_forever turns).0 ≡ messages (before_error (before_stop turns)))
  poll_loop-run_forever turns = (poll_loop_lem turns, run_forever_lem turns)
