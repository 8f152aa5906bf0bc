-- ===== src/Connections/Redis.antt =====
-- commlib/transports/redis.py: get_or_create_redis_pool and release_redis_pool.
-- A pool is the number of the `redis.ConnectionPool(...)` call that made it, and a key of
-- `_get_pool_key` is a number. A count is deleted when it falls to 0, so subtraction on ℕ is the
-- source's.
use commlib_py.Prelude.{ℕ, ◌+◌, ◌-◌, ◌==◌, Option, none, some, List, [], ◌∷◌, ◌++◌, if◌then◌else◌}
use commlib_py.Prelude.Dict.{Dict, get, put, remove}

pub record Pools : Type 0 where
  -- _REDIS_POOL_REGISTRY and _REDIS_POOL_REFCOUNT
  pub registry : Dict ℕ
  pub refcount : Dict ℕ
  -- the calls of `redis.ConnectionPool`
  pub created : ℕ
  -- the pools that were disconnected
  pub disconnected : List ℕ

unfoldable pub create_pool : ℕ → Pools → Pools
create_pool key p = record p {
  registry = put key p.created p.registry;
  refcount = put key 0 p.refcount;
  created = p.created + 1;
}

unfoldable pub ensure_pool : ℕ → Pools → Pools
unfolding create_pool
ensure_pool key p = elim (get key p.registry) [ none ↦ create_pool key p | some c ↦ p ]

-- `refcount[key] += 1; return registry[key]`: `none` is a `KeyError`.
unfoldable pub take_pool : ℕ → Pools → Option (ℕ × Pools)
take_pool key p = elim (get key p.refcount) [
  | none ↦ none
  | some n ↦ elim (get key p.registry) [
    | none ↦ none
    | some c ↦ some (c, record p { refcount = put key (n + 1) p.refcount })
  ]
]

unfoldable pub get_or_create_redis_pool : ℕ → Pools → Option (ℕ × Pools)
unfolding ensure_pool take_pool
get_or_create_redis_pool key p = take_pool key (ensure_pool key p)

unfoldable pub drop_pool : ℕ → Pools → Pools
drop_pool key p = record p {
  registry = remove key p.registry;
  refcount = remove key p.refcount;
  disconnected = elim (get key p.registry) [
    | none ↦ p.disconnected
    | some c ↦ p.disconnected ++ c ∷ []
  ];
}

unfoldable pub release_redis_pool : ℕ → Pools → Pools
unfolding drop_pool
release_redis_pool key p = elim (get key p.refcount) [
  | none ↦ p
  | some n ↦
      if n - 1 == 0
      then drop_pool key (record p { refcount = put key (n - 1) p.refcount })
      else record p { refcount = put key (n - 1) p.refcount }
]
