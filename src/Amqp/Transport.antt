-- ===== src/Amqp/Transport.antt =====
-- commlib/transports/amqp.py: how AMQPTransport takes a connection and a channel and gives them back, over
-- the shared connections of Connections/Amqp. Each `Connection(...)` succeeds; `channels n` is how the n-th
-- call of `connection.channel()` ends. A dedicated connection is numbered as the shared ones are.
use commlib_py.Prelude.{
  ℕ, zero, suc, ◌+◌, Bool, true, false, ◌==◌, Option, none, some, if◌then◌else◌,
}
use commlib_py.Connections.Amqp.{
  Pool, close, get_or_create_amqp_connection, release_amqp_connection,
}

pub data ChannelState : Type 0 where
  channel_open channel_closing channel_closed : ChannelState

pub record AmqpTransport : Type 0 where
  -- the key of `_conn_params`
  pub key : ℕ
  pub connection : Option ℕ
  pub channel : Option ChannelState
  pub use_shared_connection : Bool
  pub owns_connection : Bool
  pub connected : Bool

-- The shared connections, and how often a channel has been asked for.
pub record Net : Type 0 where
  pub pool : Pool
  pub asked : ℕ

-- A channel, a ConnectionClosed or another AMQPConnectionError, an AuthenticationError, an exception that
-- `connect` catches, or another one.
pub data Opened : Type 0 where
  opens connection_error authentication_error caught uncaught : Opened

-- How `create_channel` ends: it returns, or raises what `connect` catches or does not.
pub data Created : Type 0 where
  creates raises_caught raises_uncaught : Created

-- How `connect` ends: it returns, or it raises a RecursionError or another exception.
pub data Connected : Type 0 where
  connects : Bool → Connected
  recursion_error escapes : Connected

-- AMQPTransport.__init__, with a connection or without
unfoldable pub new_amqp_transport : ℕ → Option ℕ → Bool → AmqpTransport
new_amqp_transport key connection use_shared_connection = record {
  key = key;
  connection = connection;
  channel = none;
  use_shared_connection = elim connection [ none ↦ use_shared_connection | some c ↦ false ];
  owns_connection = false;
  connected = false;
}

-- `Connection(self._conn_params)`
unfoldable pub dedicate : Pool → ℕ × Pool
dedicate p = (
  p.created,
  record p { is_open = λ x. if x == p.created then true else p.is_open x; created = p.created + 1 },
)

-- The first part of `connect`; `none` is the KeyError of a shared connection without a count.
unfoldable pub acquire : AmqpTransport → Net → Option (AmqpTransport × Net)
unfolding get_or_create_amqp_connection dedicate
acquire t n = elim (t.connection) [
  | some c ↦ some (t, n)
  | none ↦
      if t.use_shared_connection
      then elim (get_or_create_amqp_connection t.key n.pool) [
        | none ↦ none
        | some (c, p) ↦
            some (record t { connection = some c; owns_connection = false }, record n { pool = p })
      ]
      else some (
        record t { connection = some (dedicate n.pool).0; owns_connection = true },
        record n { pool = (dedicate n.pool).1 },
      )
]

-- The end of `connect`, from that of `create_channel`.
unfoldable pub end_connect : Created → Connected
end_connect creates = connects true
end_connect raises_caught = connects false
end_connect raises_uncaught = escapes

-- The end of `create_channel`, from that of the `connect` it has called: a RecursionError is a
-- RuntimeError, and what `connect` returns is not looked at.
unfoldable pub after_reconnect : Connected × AmqpTransport × Net → Created × AmqpTransport × Net
after_reconnect (connects b, t, n) = (creates, record t { connected = true }, n)
after_reconnect (recursion_error, t, n) = (raises_caught, t, n)
after_reconnect (escapes, t, n) = (raises_uncaught, t, n)

-- `connect` without the calls of itself, `create_channel` given.
unfoldable pub connect_by :
    (AmqpTransport → Net → Created × AmqpTransport × Net)
    → AmqpTransport
    → Net
    → Connected × AmqpTransport × Net
unfolding acquire end_connect
connect_by create t n = elim (acquire t n) [
  | none ↦ (connects false, t, n)
  | some (t1, n1) ↦ let created = create t1 n1 in (end_connect created.0, created.1, created.2)
]

module _ (channels : ℕ → Opened) where
  -- `create_channel` without the calls of itself, `connect` given
  unfoldable pub create_channel_by :
      (AmqpTransport → Net → Connected × AmqpTransport × Net)
      → AmqpTransport
      → Net
      → Created × AmqpTransport × Net
  unfolding after_reconnect
  create_channel_by reconnect t n =
      let n1 = record n { asked = n.asked + 1 } in
      elim (channels n.asked) [
        | opens ↦ (creates, record t { channel = some channel_open; connected = true }, n1)
        | connection_error ↦ after_reconnect (reconnect t n1)
        | authentication_error ↦ (creates, record t { connected = true }, n1)
        | caught ↦ (raises_caught, t, n1)
        | uncaught ↦ (raises_uncaught, t, n1)
      ]

  -- connect, with how deep the calls of `connect` and `create_channel` may nest
  unfoldable pub connect : ℕ → AmqpTransport → Net → Connected × AmqpTransport × Net
  unfolding connect_by create_channel_by
  connect zero t n = (recursion_error, t, n)
  connect (suc depth) t n =
      connect_by (λ (t1 : AmqpTransport). λ (n1 : Net). create_channel_by (connect depth) t1 n1) t n

  -- create_channel
  unfoldable pub create_channel : ℕ → AmqpTransport → Net → Created × AmqpTransport × Net
  unfolding create_channel_by connect
  create_channel depth t n = create_channel_by (connect depth) t n

-- `not self._channel`, or `self._channel.is_closed`
unfoldable pub has_no_channel : Option ChannelState → Bool
has_no_channel none = true
has_no_channel (some channel_open) = false
has_no_channel (some channel_closing) = false
has_no_channel (some channel_closed) = true

-- A channel after `close`, if it is open
unfoldable pub close_channel : Option ChannelState → Option ChannelState
close_channel none = none
close_channel (some channel_open) = some channel_closed
close_channel (some channel_closing) = some channel_closing
close_channel (some channel_closed) = some channel_closed

-- The connection is closed, if it is the transport's own, or given back; `none` is the KeyError of
-- `release_amqp_connection`, which leaves the transport as it is.
unfoldable pub give_back : AmqpTransport → ℕ → Pool → Option Pool
unfolding close release_amqp_connection
give_back t c p =
    if t.owns_connection
    then some (if p.is_open c then close c p else p)
    else release_amqp_connection t.key p

-- _graceful_shutdown
unfoldable pub graceful_shutdown : AmqpTransport → Net → Option (AmqpTransport × Net)
unfolding has_no_channel close_channel give_back
graceful_shutdown t n = elim (t.connection) [
  | none ↦ some (t, n)
  | some c ↦ if has_no_channel t.channel then some (t, n) else elim (give_back t c n.pool) [
    | none ↦ none
    | some p ↦ some (
      record t { channel = close_channel t.channel; connection = none; connected = false },
      record n { pool = p },
    )
  ]
]

-- `stop`: `stop_consuming` raises nothing and changes nothing here.
unfoldable pub stop : AmqpTransport → Net → Option (AmqpTransport × Net)
unfolding graceful_shutdown
stop t n = graceful_shutdown t n
