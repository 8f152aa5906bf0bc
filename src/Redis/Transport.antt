-- ===== src/Redis/Transport.antt =====
-- commlib/transports/redis.py: RedisTransport, its connection.
-- Every exchange with the server (a ping or a command) has a number, and `link n` says whether the
-- n-th one is answered. `reconnect_attempts` is a natural number: a negative one acts like 0.
use commlib_py.Prelude.{
  ℕ, zero, suc, ◌+◌, Bool, true, false, ◌==◌, not, leb, Option, none, some, if◌then◌else◌,
}
use commlib_py.Connections.Redis.{Pools, get_or_create_redis_pool, release_redis_pool}

pub record Transport : Type 0 where
  -- the pool key of `_conn_params`, and its reconnect_attempts
  pub key : ℕ
  pub reconnect_attempts : ℕ
  -- `_redis`, `_rsub` and `_rsub_thread` that are not `None`
  pub has_redis : Bool
  pub has_rsub : Bool
  pub has_rsub_thread : Bool
  pub retry_count : ℕ
  pub stopped : Bool
  -- BaseTransport._connected, with its two events
  pub connected : Bool
  pub connected_event : Bool
  pub disconnected_event : Bool
  pub owns_pool : Bool
  -- the exchanges so far
  pub exchanges : ℕ

-- The registries of the module, and `RedisTransport._redis_pool`, which all transports share.
pub record Shared : Type 0 where
  pub pools : Pools
  pub class_pool : Option ℕ

-- BaseTransport._set_connected
unfoldable pub set_connected : Bool → Transport → Transport
set_connected connected t = record t {
  connected = connected;
  connected_event = connected;
  disconnected_event = not connected;
}

-- BaseTransport.__init__ and the attributes of RedisTransport.__init__
unfoldable pub bare_transport : ℕ → ℕ → Bool → Transport
bare_transport key reconnect_attempts owns_pool = record {
  key = key;
  reconnect_attempts = reconnect_attempts;
  has_redis = false;
  has_rsub = false;
  has_rsub_thread = false;
  retry_count = 0;
  stopped = false;
  connected = false;
  connected_event = false;
  disconnected_event = true;
  owns_pool = owns_pool;
  exchanges = 0;
}

-- The first transport takes a pool for its parameters, and every later one finds it in the class. A
-- `KeyError` of the registry is `none`.
unfoldable pub new_transport : ℕ → ℕ → Shared → Option (Transport × Shared)
unfolding bare_transport
new_transport key reconnect_attempts w = elim (w.class_pool) [
  | some c ↦ some (bare_transport key reconnect_attempts true, w)
  | none ↦ elim (get_or_create_redis_pool key w.pools) [
    | none ↦ none
    | some (c, p) ↦
        some
          (bare_transport key reconnect_attempts false, record { pools = p; class_pool = some c })
  ]
]

-- `stop`, which pings first. What a step raises is swallowed, so each of them leaves its attribute
-- `None`.
unfoldable pub stop : Transport → Shared → Transport × Shared
unfolding set_connected
stop t w =
    let t' = record t {
      stopped = true;
      has_rsub_thread = false;
      has_rsub = false;
      has_redis = false;
      exchanges = if t.has_redis then t.exchanges + 1 else t.exchanges;
    } in
    (
      set_connected false t',
      if t.owns_pool then w else record w { pools = release_redis_pool t.key w.pools },
    )

module _ (link : ℕ → Bool) where
  -- the property `is_connected`: without a client there is no ping
  unfoldable pub is_connected : Transport → Bool × Transport
  is_connected t =
      if t.has_redis
      then (link t.exchanges, record t { exchanges = t.exchanges + 1 })
      else (false, t)

  -- `connect`: true, or false for the `ConnectionError` that it raises
  unfoldable pub connect : Transport → Bool × Transport
  unfolding set_connected
  connect t =
      let t' = record t {
        stopped = false;
        has_redis = true;
        has_rsub = true;
        exchanges = t.exchanges + 1;
      } in
      if link t.exchanges
      then (true, set_connected true (record t' { retry_count = 0 }))
      else (false, t')

  unfoldable pub max_retries_exceeded : Transport → Bool
  max_retries_exceeded t =
      if t.reconnect_attempts == 0 then false else leb t.reconnect_attempts t.retry_count

  -- the rest of `_attempt_reconnect`, once `connect` has ended
  unfoldable pub after_connect : Bool × Transport → Bool × Transport
  unfolding is_connected set_connected
  after_connect (false, t) = (false, t)
  after_connect (true, t) =
      let answer = is_connected t in
      if answer.0 then (true, set_connected true (record answer.1 { retry_count = 0 })) else answer

  -- `_attempt_reconnect`; `none` is "Maximum connection attempts exceeded".
  unfoldable pub attempt_reconnect : Transport → Option (Bool × Transport)
  unfolding max_retries_exceeded connect after_connect
  attempt_reconnect t =
      if max_retries_exceeded t
      then none
      else some (after_connect (connect (record t { retry_count = t.retry_count + 1 })))

  -- How `start` ends: connected, or with the error of the last attempt.
  pub data Started : Type 0 where
    up : Transport → Started
    gave_up : Transport → Started

  -- `while not self.is_connected: self._attempt_reconnect()`
  unfoldable pub reconnect_loop : ℕ → Transport → Option Started
  unfolding is_connected attempt_reconnect
  reconnect_loop zero t = none
  reconnect_loop (suc fuel) t =
      let answer = is_connected t in
      elim (answer.0) [
        | true ↦ some (up answer.1)
        | false ↦ elim (attempt_reconnect answer.1) [
          | none ↦ some (gave_up answer.1)
          | some (done, t') ↦ reconnect_loop fuel t'
        ]
      ]

  unfoldable pub start : ℕ → Transport → Option Started
  unfolding is_connected connect reconnect_loop
  start fuel t =
      let answer = is_connected t in
      if answer.0 then reconnect_loop fuel answer.1 else reconnect_loop fuel (connect answer.1).1
