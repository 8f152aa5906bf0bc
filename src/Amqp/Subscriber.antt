-- ===== src/Amqp/Subscriber.antt =====
-- commlib/transports/amqp.py: Subscriber, up to the channel that it consumes from. `decode` is the
-- decompression with the serializer, `none` when it raises.
use commlib_py.Prelude.{
  ℕ, suc, ◌+◌, ◌≡◌, refl, Bool, true, false, Option, none, some, if◌then◌else◌, arith,
}
use commlib_py.Amqp.Transport.{
  AmqpTransport, channel_open, Net, Opened, opens, connects, new_amqp_transport, dedicate, acquire,
  end_connect, connect_by, create_channel_by, connect, has_no_channel,
}

pub record AmqpSubscriber : Type 0 where
  pub transport : AmqpTransport
  pub closing : Bool
  -- how often the deletion of its queue was asked for
  pub deletions : ℕ

-- Subscriber.__init__, without a connection of the caller
unfoldable pub new_subscriber : ℕ → Bool → AmqpSubscriber
unfolding new_amqp_transport
new_subscriber key use_shared_connection = record {
  transport = new_amqp_transport key none use_shared_connection;
  closing = false;
  deletions = 0;
}

-- Subscriber.run_forever: `self._transport.start()`, which does not look at what `connect` returns.
unfoldable pub start_consumer : (ℕ → Opened) → ℕ → AmqpSubscriber → Net → AmqpSubscriber × Net
unfolding connect
start_consumer channels depth s n =
    let ended = connect channels depth s.transport n in (record s { transport = ended.1 }, ended.2)

-- Subscriber.close
unfoldable pub close_subscriber : AmqpSubscriber → AmqpSubscriber
unfolding has_no_channel
close_subscriber s =
    if s.closing
    then s
    else if has_no_channel s.transport.channel
    then s
    else record s { closing = true; deletions = s.deletions + 1 }

-- Subscriber.stop
unfoldable pub stop_subscriber : AmqpSubscriber → AmqpSubscriber
unfolding close_subscriber
stop_subscriber s = close_subscriber s

module _ {Payload Value : Type 0} (decode : Payload → Option Value) (empty : Value) where
  -- _on_msg_callback_wrapper: what `onmessage` is called with, if there is one; a payload that
  -- cannot be read is {}.
  unfoldable pub on_msg_callback : Option (Value → Option Value) → Payload → Option Value
  on_msg_callback none body = elim (decode body) [ none ↦ some empty | some v ↦ some v ]
  on_msg_callback (some read) body = elim (decode body) [ none ↦ read empty | some v ↦ read v ]

-- A subscriber that stops asks for the deletion of its queue once, however often it is stopped, but keeps
-- its transport: the transport stays connected, and its connection open.
pub stop_subscriber-start_consumer :
    (channels : ℕ → Opened) (depth key : ℕ) (n : Net)
    → channels n.asked ≡ opens
    → (s : AmqpSubscriber) × (n1 : Net) × (c : ℕ) × (start_consumer channels
          (suc depth)
          (new_subscriber key false)
          n
        ≡ (s, n1))
      × ((stop_subscriber (stop_subscriber s)).deletions ≡ 1)
      × ((stop_subscriber s).transport.connected ≡ true)
      × ((stop_subscriber s).transport.connection ≡ some c)
      × (n1.pool.is_open c ≡ true)
unfolding start_consumer new_subscriber stop_subscriber close_subscriber has_no_channel
stop_subscriber-start_consumer channels depth key n o =
    let t : AmqpTransport = record {
      key = key;
      connection = some n.pool.created;
      channel = some channel_open;
      use_shared_connection = false;
      owns_connection = true;
      connected = true;
    } in
    let n1 = record n { pool = (dedicate n.pool).1; asked = n.asked + 1 } in
    let ends : connect channels (suc depth) (new_amqp_transport key none false) n
        ≡ (connects true, t, n1) =
      unfold connect connect_by acquire dedicate new_amqp_transport create_channel_by end_connect in
      ground (arith, o) in
    (
      record { transport = t; closing = false; deletions = 0 },
      n1,
      n.pool.created,
      ground (arith, ends),
      refl,
      refl,
      refl,
      unfold dedicate in ground arith,
    )
