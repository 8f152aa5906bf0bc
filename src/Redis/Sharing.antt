-- ===== src/Redis/Sharing.antt =====
-- commlib/transports/redis.py: the pool that all transports of a process share.
-- `connect` makes its client from `get_redis_pool()`, which is `class_pool`.
use commlib_py.Prelude.{ℕ, ◌+◌, ◌≡◌, none, some, [], ◌∷◌, ◌++◌, arith}
use commlib_py.Prelude.Dict.{get, put, get-put}
use commlib_py.Connections.Redis.{
  get_or_create_redis_pool, release_redis_pool, ensure_pool, create_pool, take_pool, drop_pool,
}
use commlib_py.Redis.Transport.{Transport, Shared, new_transport, bare_transport, stop}

-- A process without transports makes one, and then another with any parameters. The second one has no
-- pool of its own, even if its parameters name another server: it uses the first one's. When the
-- first is stopped, that pool is disconnected, and it is still the pool of the second.
pub new_transport_shares :
    (key other n m : ℕ) (w w1 w2 : Shared) (a b : Transport)
    → w.class_pool ≡ none
    → get key w.pools.registry ≡ none
    → get key w.pools.refcount ≡ none
    → new_transport key n w ≡ some (a, w1)
    → new_transport other m w1 ≡ some (b, w2)
    → (w2.class_pool ≡ some w.pools.created)
      × (w2.pools.created ≡ w.pools.created + 1)
      × ((stop a w2).1.pools.disconnected ≡ w.pools.disconnected ++ w.pools.created ∷ [])
      × ((stop a w2).1.class_pool ≡ some w.pools.created)
      × ((stop b w2).1.pools ≡ w2.pools)
unfolding new_transport bare_transport stop get_or_create_redis_pool ensure_pool create_pool
    take_pool release_redis_pool drop_pool
new_transport_shares key other n m w w1 w2 a b c r k e e' = ground (
  arith,
  get-put key key w.pools.created w.pools.registry,
  get-put key key 0 w.pools.refcount,
  get-put key key 1 (put key 0 w.pools.refcount),
)
