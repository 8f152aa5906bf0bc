-- ===== src/Redis/PubsubTests.antt =====
-- Runs of the subscriptions, and their theorems at inputs where the hypotheses hold.
use commlib_py.Prelude.{
  ℕ, ◌+◌, ◌*◌, ◌≡◌, ◌<◌, ◌≤◌, refl, Bool, true, false, not, ◌||◌, ◌==◌, leb, some, [], ◌∷◌,
  if◌then◌else◌, arith,
}
use commlib_py.Redis.Transport.{
  Transport, Shared, bare_transport, connect, is_connected, stop, set_connected,
}
use commlib_py.Redis.Pubsub.{
  Pubsub, contains, add_key, add_keys, run_in_thread, subscribe, msubscribe, hears, restore, sleep,
  end_attempt, one_attempt, attempt_loop, attempt_pubsub_reconnect, exception_handler,
}
use commlib_py.Redis.Resubscribe.{exception_handler_restores}

program : Unit {0}
unfolding bare_transport connect is_connected stop set_connected contains add_key add_keys
    run_in_thread subscribe msubscribe hears restore sleep end_attempt one_attempt attempt_loop
    attempt_pubsub_reconnect exception_handler
program = tt

abbrev at_once : ℕ → Bool
at_once n = true

abbrev alone : ℕ → Transport → Transport
alone n t = t

abbrev no_topics : Pubsub
no_topics = record {
  transport = (connect at_once (bare_transport 7 3 false)).1;
  subscriptions = [];
  patterns = [];
  listening = false;
}

abbrev two_topics : Pubsub
two_topics = subscribe (some 2) (subscribe (some 1) no_topics)

hears_both :
    (hears 1 two_topics ≡ true) × (hears 2 two_topics ≡ true) × (hears 3 two_topics ≡ false)
unfolding program
hears_both = (refl, refl, refl)

-- The server answers the first exchange, and then again from the fourth on.
abbrev away : ℕ → Bool
away n = leb n 0 || leb 3 n

away_down : (i : ℕ) → i < 2 * 1 → away (1 + i) ≡ false
away_down i h = ground arith

away_up : (i : ℕ) → 2 * 1 ≤ i → away (1 + i) ≡ true
away_up i h = ground arith

exception_handler_restores_example :
    (p' : Pubsub) × (exception_handler away alone 2 two_topics ≡ some p')
    × (p'.subscriptions ≡ 1 ∷ 2 ∷ [])
    × ((topic : ℕ) → hears topic p' ≡ contains topic (1 ∷ 2 ∷ []))
unfolding program
exception_handler_restores_example =
    exception_handler_restores away alone 1 1 (2 ∷ []) two_topics (λ n t. refl) refl refl refl
      (omega arith) away_down away_up

abbrev no_pools : Shared
no_pools = record {
  pools = record { registry = []; refcount = []; created = 0; disconnected = [] };
  class_pool = some 0;
}

-- The transport is stopped in the second sleep.
abbrev stopping : ℕ → Transport → Transport
stopping n t = if n == 2 then (stop t no_pools).0 else t

abbrev late : ℕ → Bool
late n = not (n == 1)
