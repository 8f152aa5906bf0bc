-- ===== src/Amqp/TransportTests.antt =====
-- Runs of the AMQP transport and of a task worker's loop, and the theorems at inputs where their hypotheses
-- hold.
use commlib_py.Prelude.{
  ℕ, zero, suc, ◌+◌, ◌≡◌, refl, Bool, true, false, ◌==◌, Option, none, some, List, [], ◌∷◌, map,
  arith, if◌then◌else◌,
}
use commlib_py.Prelude.Dict.{get, put, remove}
use commlib_py.Connections.Amqp.{
  close, create_connection, remove_stale, reuse_or_replace, get_or_create_amqp_connection,
  drop_last, release_amqp_connection,
}
use commlib_py.Connections.Holders.{Counted, set_held, no_holders, empty_pool}
use commlib_py.Amqp.Transport.{
  AmqpTransport, Net, Opened, opens, connection_error, connects, new_amqp_transport, acquire,
  end_connect, after_reconnect, connect_by, create_channel_by, connect, has_no_channel,
  close_channel, give_back, graceful_shutdown, stop,
}
use commlib_py.Amqp.Releases.{stop-connect, stop_releases_others}
use commlib_py.Amqp.Consumer.{
  Delivery, nothing, delivered, acks, nacks, Consumed, Judged, reject, settle_all, first,
  consume_one, consume_loop, tags_before_stop, consume_loop_settles,
}

program : Unit {0}
unfolding get put remove close create_connection remove_stale reuse_or_replace
    get_or_create_amqp_connection drop_last release_amqp_connection set_held new_amqp_transport
    acquire end_connect after_reconnect connect_by create_channel_by connect has_no_channel
    close_channel give_back graceful_shutdown stop reject consume_one consume_loop tags_before_stop
program = tt

abbrev all_open : ℕ → Opened
all_open n = opens

abbrev empty_net : Net
empty_net = record { pool = empty_pool (λ c. false); asked = 0 }

empty_Counted : Counted (empty_pool (λ c. false)) no_holders
unfolding get
empty_Counted = (λ k. refl, λ k c e. absurd (ground arith), λ k j c e f. absurd (ground arith))

stop-connect_example :
    (t1 : AmqpTransport) × (n1 : Net) × (t2 : AmqpTransport) × (n2 : Net) × (connect all_open 1
        (new_amqp_transport 7 none true)
        empty_net
      ≡ (connects true, t1, n1))
    × (t1.connected ≡ true)
    × Counted n1.pool (set_held 7 (no_holders 7 + 1) no_holders)
    × (stop t1 n1 ≡ some (t2, n2))
    × (t2.connected ≡ false)
    × (t2.connection ≡ none)
    × Counted n2.pool no_holders
stop-connect_example = stop-connect all_open 0 7 no_holders empty_net empty_Counted refl

-- One holder of the key 7, whose connection is 0.
abbrev one_holder : Net
one_holder = record {
  pool = record {
    registry = (7, 0) ∷ [];
    refcount = (7, 1) ∷ [];
    is_open = λ c. c == 0;
    created = 1;
  };
  asked = 0;
}

abbrev holder_of_seven : ℕ → ℕ
holder_of_seven k = if 7 == k then 1 else 0

one_holder_Counted : Counted one_holder.pool holder_of_seven
unfolding get
one_holder_Counted = (λ k. ground arith, λ k c e. ground arith, λ k j c e f. ground arith)

stop_releases_others_example :
    (t1 : AmqpTransport) × (n1 : Net) × (t2 : AmqpTransport) × (n2 : Net) × (connect all_open 1
        (new_amqp_transport 7 (some 5) true)
        one_holder
      ≡ (connects true, t1, n1))
    × (n1.pool ≡ one_holder.pool)
    × (stop t1 n1 ≡ some (t2, n2))
    × (n2.pool.is_open 0 ≡ false)
unfolding get
stop_releases_others_example =
    stop_releases_others all_open 0 7 5 0 holder_of_seven one_holder one_holder_Counted refl refl
      refl

abbrev lost : ℕ → Opened
lost n = connection_error

abbrev without_channel : AmqpTransport
without_channel = record (new_amqp_transport 7 (some 5) true) { owns_connection = true }

-- A body that is 0 cannot be read; a task that is 3 raises.
abbrev read : ℕ → Option ℕ
read zero = none
read (suc n) = some (suc n)

abbrev process : ℕ → ℕ → Option (Bool × ℕ)
process task done = some (task == 3, done + 1)

abbrev turns : List (Bool × Delivery ℕ)
turns =
    (false, delivered 1 5)
    ∷ (false, nothing)
    ∷ (false, delivered 2 0)
    ∷ (false, delivered 3 3)
    ∷ (true, delivered 4 5)
    ∷ []

-- The acknowledgement of the message 4 raises, and its rejection does.
abbrev is_four : ℕ → Bool
is_four tag = tag == 4

settles :
    consume_loop is_four is_four read process turns 0
    ≡ some (record { calls = acks 1 ∷ nacks 2 ∷ nacks 3 ∷ []; escaped = false; state = 2 })
unfolding program
settles = refl

rejection_ends :
    consume_loop is_four is_four read process ((false, delivered 4 9) ∷ turns) 0
    ≡ some (record { calls = acks 4 ∷ nacks 4 ∷ []; escaped = true; state = 1 })
unfolding program
rejection_ends = refl

abbrev no_tag : ℕ → Bool
no_tag tag = false

consume_loop_settles_example :
    (vs : List (ℕ × Bool)) × (r : Consumed ℕ) × Judged read process turns 0 vs
    × (consume_loop is_four no_tag read process turns 0 ≡ some r)
    × (r.calls ≡ settle_all read process is_four no_tag vs)
    × (r.escaped ≡ false)
    × (map (first read process is_four no_tag) vs ≡ 1 ∷ 2 ∷ 3 ∷ [])
unfolding program
consume_loop_settles_example =
    consume_loop_settles read process is_four no_tag turns 0 (λ task u. (task == 3, u + 1, refl))
      (λ tag. refl)
