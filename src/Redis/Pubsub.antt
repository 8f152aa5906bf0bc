-- ===== src/Redis/Pubsub.antt =====
-- commlib/transports/redis.py: the subscriptions of RedisTransport, and how they are restored.
-- Topics are numbers, and a topic that is empty is `none`. Other threads run while a reconnect sleeps:
-- `meanwhile n t` is what they have made of the transport t by then, if n exchanges came before. They do
-- not run between two statements.
use commlib_py.Prelude.{
  ℕ, zero, suc, ◌+◌, Bool, true, false, ◌==◌, ◌||◌, leb, Option, none, some, List, [], ◌∷◌, ◌++◌,
  if◌then◌else◌,
}
use commlib_py.Redis.Transport.{Transport, is_connected, connect}

pub record Pubsub : Type 0 where
  pub transport : Transport
  -- the keys of `_subscriptions`
  pub subscriptions : List ℕ
  -- the patterns of `_rsub`, and whether a thread reads its messages
  pub patterns : List ℕ
  pub listening : Bool

unfoldable pub contains : ℕ → List ℕ → Bool
contains x [] = false
contains x (y ∷ ys) = y == x || contains x ys

-- a key of a dict that is set, an old one in its place
unfoldable pub add_key : ℕ → List ℕ → List ℕ
unfolding contains
add_key x xs = if contains x xs then xs else xs ++ x ∷ []

unfoldable pub add_keys : List ℕ → List ℕ → List ℕ
unfolding add_key
add_keys [] xs = xs
add_keys (y ∷ ys) xs = add_keys ys (add_key y xs)

-- `self._rsub_thread = self._rsub.run_in_thread(...)`
unfoldable pub run_in_thread : Pubsub → Pubsub
run_in_thread p = record p {
  transport = record p.transport { has_rsub_thread = true };
  listening = true;
}

unfoldable pub subscribe : Option ℕ → Pubsub → Pubsub
unfolding add_key run_in_thread
subscribe none p = p
subscribe (some topic) p =
    let p' = record p { subscriptions = add_key topic p.subscriptions } in
    if p.transport.has_rsub
    then run_in_thread (record p' { patterns = add_key topic p.patterns })
    else p'

-- msubscribe, of the keys of its dict
unfoldable pub msubscribe : List ℕ → Pubsub → Pubsub
unfolding add_keys run_in_thread
msubscribe [] p = p
msubscribe (topic ∷ topics) p =
    if p.transport.has_rsub
    then run_in_thread (record p { patterns = add_keys (topic ∷ topics) p.patterns })
    else p

-- A message of this topic reaches its callback.
unfoldable pub hears : ℕ → Pubsub → Bool
unfolding contains
hears topic p = if p.listening then contains topic p.patterns else false

-- The subscriptions on a new `_rsub`, with its thread
unfoldable pub restore : Pubsub → Pubsub
unfolding run_in_thread
restore p =
    run_in_thread
      (record p { transport = record p.transport { has_rsub = true }; patterns = p.subscriptions })

-- How an attempt ends: with the transport as it is, or connected.
pub data Attempt : Type 0 where
  bails again restored : Pubsub → Attempt

module _ (link : ℕ → Bool) (meanwhile : ℕ → Transport → Transport) where
  -- The sleep of a transport.
  unfoldable pub sleep : Transport → Transport
  sleep t = meanwhile t.exchanges t

  unfoldable pub end_attempt : Pubsub → Attempt
  unfolding restore
  end_attempt p =
      if p.transport.stopped
      then bails p
      else let answer = is_connected link p.transport in
        if answer.0
        then restored (restore (record p { transport = answer.1 }))
        else again (record p { transport = answer.1 })

  -- the body of the loop
  unfoldable pub one_attempt : Pubsub → Attempt
  unfolding sleep end_attempt
  one_attempt p =
      if p.transport.stopped
      then bails p
      else let t =
          sleep
            (record p.transport { retry_count = p.transport.retry_count + 1; has_rsub = false }) in
        if t.stopped
        then bails (record p { transport = t })
        else let answer = is_connected link t in
          if answer.0
          then end_attempt (record p { transport = answer.1 })
          else let made = connect link (sleep answer.1) in
            if made.0
            then end_attempt (record p { transport = made.1; patterns = [] })
            else again (record p { transport = made.1; patterns = [] })

  -- `while self._retry_count < max_retries: ...`
  unfoldable pub attempt_loop : ℕ → Pubsub → Option Pubsub
  unfolding one_attempt
  attempt_loop zero p = none
  attempt_loop (suc fuel) p =
      if leb p.transport.reconnect_attempts p.transport.retry_count
      then some p
      else elim (one_attempt p) [
        | bails p' ↦ some p'
        | again p' ↦ attempt_loop fuel p'
        | restored p' ↦ some p'
      ]

  -- _attempt_pubsub_reconnect
  unfoldable pub attempt_pubsub_reconnect : ℕ → Pubsub → Option Pubsub
  unfolding attempt_loop
  attempt_pubsub_reconnect fuel p = if p.transport.stopped then some p else elim (p.subscriptions) [
    | [] ↦ some p
    | topic ∷ topics ↦
        if leb p.transport.reconnect_attempts p.transport.retry_count
        then some p
        else attempt_loop fuel p
  ]

  -- exception_handler: the thread ends, and the `_rsub` it read is closed.
  unfoldable pub exception_handler : ℕ → Pubsub → Option Pubsub
  unfolding attempt_pubsub_reconnect
  exception_handler fuel p =
      attempt_pubsub_reconnect fuel (record p { patterns = []; listening = false })
