-- ===== src/Connections/Tests.antt =====
-- Runs of the shared connections on small inputs, and the theorems at inputs where their hypotheses
-- hold.
use commlib_py.Prelude.{◌⊎◌, ℕ, ◌≡◌, ◌<◌, ◌+◌, refl, Bool, true, false, Option, none, some, [], ◌∷◌}
use commlib_py.Prelude.Dict.{get, put, remove}
use commlib_py.Connections.Amqp.{
  Pool, close, get_or_create_amqp_connection, release_amqp_connection, create_connection, drop_last,
  reuse_or_replace, remove_stale,
}
use commlib_py.Connections.Redis.{
  Pools, get_or_create_redis_pool, release_redis_pool, create_pool, ensure_pool, take_pool,
  drop_pool,
}
use commlib_py.Connections.Holders.{
  Shared, set_held, Reach, acquire, here, next, no_holders, empty_pool, connections_counted,
  Leakless,
}

program : Unit {0}
unfolding get_or_create_amqp_connection reuse_or_replace create_connection remove_stale close
    drop_last release_amqp_connection get_or_create_redis_pool ensure_pool create_pool take_pool
    drop_pool release_redis_pool get put remove set_held
program = tt

abbrev never_open : ℕ → Bool
never_open c = false

abbrev pool_of : Option (ℕ × Pool) → Pool
pool_of none = empty_pool never_open
pool_of (some (c, p)) = p

abbrev one_holder : Pool
one_holder = pool_of (get_or_create_amqp_connection 5 (empty_pool never_open))

abbrev two_holders : Pool
two_holders = pool_of (get_or_create_amqp_connection 5 one_holder)

abbrev nobody : Shared
nobody = record { pool = empty_pool never_open; held = no_holders }

abbrev both : Shared
both = record {
  pool = two_holders;
  held = set_held 5 (set_held 5 1 no_holders 5 + 1) (set_held 5 1 no_holders);
}

both_reached : Reach nobody both
unfolding program
both_reached =
    next
      (next {t = nobody} {u = record { pool = one_holder; held = set_held 5 1 no_holders }} here
        (acquire 5 0 refl refl))
      (acquire 5 0 refl refl)

connections_counted_example :
    Leakless both.pool
    × (((both.held 5 ≡ 0) × (get 5 both.pool.registry ≡ none) × (get 5 both.pool.refcount ≡ none))
        ⊎ ((0 < both.held 5)
            × ((c : ℕ) × (get 5 both.pool.registry ≡ some c)
                × (get 5 both.pool.refcount ≡ some (both.held 5))
                × (both.pool.is_open c ≡ true)
                × ((j : ℕ) → get j both.pool.registry ≡ some c → j ≡ 5))))
connections_counted_example = connections_counted never_open both 5 both_reached

abbrev replaced : Pool
replaced = pool_of (get_or_create_amqp_connection 5 (close 0 one_holder))

abbrev pools : Pools
pools = record { registry = (5, 0) ∷ []; refcount = (5, 2) ∷ []; created = 1; disconnected = [] }
