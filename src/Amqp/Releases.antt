-- ===== src/Amqp/Releases.antt =====
-- commlib/transports/amqp.py: what a transport leaves of the shared connections when it stops, and a
-- `connect` that returns without a channel.
use mathlib.Core.Path.{subst, fun_ext}
use commlib_py.Prelude.{
  ℕ, zero, suc, ◌+◌, ◌-◌, ◌≡◌, ◌<◌, refl, true, false, ◌==◌, none, some, Bool-cases, Option-cases,
  inl, inr, if◌then◌else◌, arith,
}
use commlib_py.Prelude.Dict.{get, put, get-put}
use commlib_py.Connections.Amqp.{
  Pool, close, create_connection, remove_stale, reuse_or_replace, get_or_create_amqp_connection,
  drop_last, release_amqp_connection,
}
use commlib_py.Connections.Holders.{Counted, set_held, get_or_create_of, release-Counted}
use commlib_py.Amqp.Transport.{
  AmqpTransport, channel_open, channel_closed, Net, Opened, opens, connection_error, Connected,
  connects, recursion_error, new_amqp_transport, acquire, end_connect, after_reconnect, connect_by,
  create_channel_by, connect, has_no_channel, close_channel, give_back, graceful_shutdown, stop,
}

-- A counted pool hands out a connection, and takes one back that is held.
get_or_create_some :
    (key : ℕ) (p : Pool) (held : ℕ → ℕ)
    → Counted p held
    → (c : ℕ) × (p' : Pool) × (get_or_create_amqp_connection key p ≡ some (c, p'))
unfolding get_or_create_amqp_connection reuse_or_replace
get_or_create_some key p held (entries, live, apart) = elim (Option-cases (get key p.registry)) [
  | inl missing ↦ (p.created, (create_connection key p).1, unfold create_connection in ground arith)
  | inr (c, there) ↦ (
    c,
    record p { refcount = put key (held key + 1) p.refcount },
    ground (arith, entries key, live key c there),
  )
]

release_some :
    (key : ℕ) (p : Pool) (held : ℕ → ℕ)
    → Counted p held
    → 0 < held key
    → (p' : Pool) × (release_amqp_connection key p ≡ some p')
release_some key p held (entries, live, apart) h =
    elim (Option-cases (release_amqp_connection key p)) [
      | inl gone ↦
          absurd (unfold release_amqp_connection drop_last in ground (arith, gone, entries key, h))
      | inr (p', there) ↦ (p', there)
    ]

set_held_back :
    (key k : ℕ) (held : ℕ → ℕ)
    → set_held key (set_held key (held key + 1) held key - 1) (set_held key (held key + 1) held) k
      ≡ held k
unfolding set_held
set_held_back key k held = elim (Bool-cases (key == k)) [
  | inl same ↦
      let e : key ≡ k = ground arith in
      subst
        (λ j.
          (if key == j
            then (if key == key then held key + 1 else held key) - 1
            else (if key == j then held key + 1 else held j))
          ≡ held j)
        e (ground arith)
  | inr apart ↦ ground arith
]

-- `connect` when the channel is opened.
connect_opens :
    (channels : ℕ → Opened) (depth key c : ℕ) (p : Pool) (n : Net)
    → channels n.asked ≡ opens
    → get_or_create_amqp_connection key n.pool ≡ some (c, p)
    → connect channels (suc depth) (new_amqp_transport key none true) n ≡ (
      connects true,
      record {
        key = key;
        connection = some c;
        channel = some channel_open;
        use_shared_connection = true;
        owns_connection = false;
        connected = true;
      },
      record n { pool = p; asked = n.asked + 1 },
    )
unfolding connect connect_by acquire new_amqp_transport create_channel_by end_connect
connect_opens channels depth key c p n o e = ground (arith, o, e)

stop_releases :
    (key c : ℕ) (p : Pool) (t : AmqpTransport) (n : Net)
    → t.key ≡ key
    → t.connection ≡ some c
    → t.owns_connection ≡ false
    → t.channel ≡ some channel_open
    → release_amqp_connection key n.pool ≡ some p
    → stop t n
      ≡ some (
        record t { channel = some channel_closed; connection = none; connected = false },
        record n { pool = p },
      )
unfolding stop graceful_shutdown has_no_channel close_channel give_back
stop_releases key c p t n k e o h r = ground (arith, k, e, o, h, r)

-- A transport with a shared connection that gets a channel and is stopped gives back what it has taken: the
-- shared connections are counted as before, and the transport has no connection and is not connected.
pub stop-connect :
    (channels : ℕ → Opened) (depth key : ℕ) (held : ℕ → ℕ) (n : Net)
    → Counted n.pool held
    → channels n.asked ≡ opens
    → (t1 : AmqpTransport) × (n1 : Net) × (t2 : AmqpTransport) × (n2 : Net) × (connect channels
          (suc depth)
          (new_amqp_transport key none true)
          n
        ≡ (connects true, t1, n1))
      × (t1.connected ≡ true)
      × Counted n1.pool (set_held key (held key + 1) held)
      × (stop t1 n1 ≡ some (t2, n2))
      × (t2.connected ≡ false)
      × (t2.connection ≡ none)
      × Counted n2.pool held
stop-connect channels depth key held n counted o =
    let (c, p1, e) = get_or_create_some key n.pool held counted in
    let more = set_held key (held key + 1) held in
    let counted1 : Counted p1 more =
      get_or_create_of key c n.pool p1 held (get key n.pool.registry) counted refl e in
    let pos : 0 < more key = unfold set_held in ground arith in
    let (p2, r) = release_some key p1 more counted1 pos in
    let counted2 = release-Counted key p1 p2 more counted1 pos r in
    let t1 : AmqpTransport = record {
      key = key;
      connection = some c;
      channel = some channel_open;
      use_shared_connection = true;
      owns_connection = false;
      connected = true;
    } in
    let n1 = record n { pool = p1; asked = n.asked + 1 } in
    (
      t1,
      n1,
      record t1 { channel = some channel_closed; connection = none; connected = false },
      record n1 { pool = p2 },
      connect_opens channels depth key c p1 n o e,
      refl,
      counted1,
      stop_releases key c p2 t1 n1 refl refl refl refl r,
      refl,
      refl,
      subst (Counted p2) (fun_ext (λ k. set_held_back key k held)) counted2,
    )

-- What a counted pool hands out is in its registry.
handed_out :
    (key c : ℕ) (p p' : Pool) (held : ℕ → ℕ)
    → Counted p held
    → get_or_create_amqp_connection key p ≡ some (c, p')
    → get key p'.registry ≡ some c
unfolding get_or_create_amqp_connection reuse_or_replace create_connection remove_stale
handed_out key c p p' held (entries, live, apart) e = elim (Option-cases (get key p.registry)) [
  | inl missing ↦ ground (arith, e, missing, get-put key key p.created p.registry)
  | inr (d, there) ↦ ground (arith, e, there, entries key, live key d there)
]

-- The last holder's release closes the connection.
last_closed :
    (key c : ℕ) (p p' : Pool) (held : ℕ → ℕ)
    → Counted p held
    → held key ≡ 1
    → get key p.registry ≡ some c
    → release_amqp_connection key p ≡ some p'
    → p'.is_open c ≡ false
unfolding release_amqp_connection drop_last close remove_stale
last_closed key c p p' held (entries, live, apart) one there e =
    ground (arith, e, one, there, entries key, live key c there)

-- If the broker closes the channel, `stop` returns early and gives nothing back: the shared connection stays
-- counted for a transport that is gone, and open.
pub stop_keeps_reference :
    (channels : ℕ → Opened) (depth key : ℕ) (held : ℕ → ℕ) (n : Net)
    → Counted n.pool held
    → channels n.asked ≡ opens
    → (t1 : AmqpTransport) × (n1 : Net) × (c : ℕ) × (connect channels
          (suc depth)
          (new_amqp_transport key none true)
          n
        ≡ (connects true, t1, n1))
      × (stop (record t1 { channel = some channel_closed }) n1
          ≡ some (record t1 { channel = some channel_closed }, n1))
      × Counted n1.pool (set_held key (held key + 1) held)
      × (get key n1.pool.registry ≡ some c)
      × (n1.pool.is_open c ≡ true)
stop_keeps_reference channels depth key held n counted o =
    let (c, p1, e) = get_or_create_some key n.pool held counted in
    let more = set_held key (held key + 1) held in
    let counted1 : Counted p1 more =
      get_or_create_of key c n.pool p1 held (get key n.pool.registry) counted refl e in
    let t1 : AmqpTransport = record {
      key = key;
      connection = some c;
      channel = some channel_open;
      use_shared_connection = true;
      owns_connection = false;
      connected = true;
    } in
    let there : get key p1.registry ≡ some c = handed_out key c n.pool p1 held counted e in
    (
      t1,
      record n { pool = p1; asked = n.asked + 1 },
      c,
      connect_opens channels depth key c p1 n o e,
      unfold stop graceful_shutdown has_no_channel in refl,
      counted1,
      there,
      (counted1.1 key c there).0,
    )

-- A transport that is given a connection of its own, and gets a channel, gives back, when it stops, a shared one that it never
-- took: the only other holder of the key finds its connection closed.
pub stop_releases_others :
    (channels : ℕ → Opened) (depth key own c : ℕ) (held : ℕ → ℕ) (n : Net)
    → Counted n.pool held
    → held key ≡ 1
    → get key n.pool.registry ≡ some c
    → channels n.asked ≡ opens
    → (t1 : AmqpTransport) × (n1 : Net) × (t2 : AmqpTransport) × (n2 : Net) × (connect channels
          (suc depth)
          (new_amqp_transport key (some own) true)
          n
        ≡ (connects true, t1, n1))
      × (n1.pool ≡ n.pool)
      × (stop t1 n1 ≡ some (t2, n2))
      × (n2.pool.is_open c ≡ false)
stop_releases_others channels depth key own c held n counted one there o =
    let t1 : AmqpTransport = record {
      key = key;
      connection = some own;
      channel = some channel_open;
      use_shared_connection = false;
      owns_connection = false;
      connected = true;
    } in
    let n1 = record n { asked = n.asked + 1 } in
    let (p2, r) = release_some key n.pool held counted (ground (arith, one)) in
    (
      t1,
      n1,
      record t1 { channel = some channel_closed; connection = none; connected = false },
      record n1 { pool = p2 },
      unfold connect connect_by acquire new_amqp_transport create_channel_by end_connect in
          ground (arith, o),
      refl,
      stop_releases key own p2 t1 n1 refl refl refl refl r,
      last_closed key c n.pool p2 held counted one there r,
    )

-- A `connect` that finds the connection lost, by the one that it calls.
reconnects :
    (channels : ℕ → Opened) (depth c : ℕ) (t : AmqpTransport) (n : Net)
    (ends : Connected × AmqpTransport × Net)
    → channels n.asked ≡ connection_error
    → t.connection ≡ some c
    → connect channels depth t (record n { asked = n.asked + 1 }) ≡ ends
    → connect channels (suc depth) t n
      ≡ (end_connect (after_reconnect ends).0, (after_reconnect ends).1, (after_reconnect ends).2)
unfolding connect connect_by acquire create_channel_by
reconnects channels depth c t n ends lost e r = ground (arith, e, lost, r)

-- While the connection is lost for good, `connect` calls itself until the calls nest too deep; the outer ones
-- do not look at how the inner ones end: `connect` returns True and the transport is connected, without a
-- channel.
pub connect_without_channel :
    (channels : ℕ → Opened) (depth c : ℕ) (t : AmqpTransport) (n : Net)
    → ((i : ℕ) → channels i ≡ connection_error)
    → t.connection ≡ some c
    → t.channel ≡ none
    → (t1 : AmqpTransport) × (n1 : Net) × (connect channels (suc (suc depth)) t n
        ≡ (connects true, t1, n1))
      × (t1.connected ≡ true)
      × (t1.channel ≡ none)
unfolding after_reconnect end_connect
connect_without_channel channels zero c t n down e o =
    let n1 = record n { asked = n.asked + 1 } in
    let n2 = record n1 { asked = n1.asked + 1 } in
    let deepest : connect channels 0 t n2 ≡ (recursion_error, t, n2) = unfold connect in refl in
    (
      record t { connected = true },
      n2,
      reconnects channels 1 c t n (connects false, t, n2) (down n.asked) e
          (reconnects channels 0 c t n1 (recursion_error, t, n2) (down n1.asked) e deepest),
      refl,
      o,
    )
connect_without_channel channels (suc depth) c t n down e o =
    let n1 = record n { asked = n.asked + 1 } in
    let (t2, n2, ends, is_up, without) = connect_without_channel channels depth c t n1 down e o in
    (
      record t2 { connected = true },
      n2,
      reconnects channels (suc (suc depth)) c t n (connects true, t2, n2) (down n.asked) e ends,
      refl,
      without,
    )
