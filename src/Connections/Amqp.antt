-- ===== src/Connections/Amqp.antt =====
-- commlib/transports/amqp.py: get_or_create_amqp_connection and release_amqp_connection.
-- A connection is the number of the `Connection(...)` call that made it, and a key of
-- `_make_connection_key` is a number. A connection closes by `close`, or when the broker or the network
-- drops it. A count starts at 1 and is deleted when it falls to 0, so subtraction on ℕ is the source's.
use commlib_py.Prelude.{ℕ, ◌+◌, ◌-◌, Bool, true, false, ◌==◌, Option, none, some, if◌then◌else◌}
use commlib_py.Prelude.Dict.{Dict, get, put, remove}

pub record Pool : Type 0 where
  -- _AMQP_CONNECTION_REGISTRY and _AMQP_CONNECTION_REFCOUNT
  pub registry : Dict ℕ
  pub refcount : Dict ℕ
  -- `is_open` of each connection
  pub is_open : ℕ → Bool
  -- the calls of `Connection`
  pub created : ℕ

unfoldable pub close : ℕ → Pool → Pool
close c p = record p { is_open = λ x. if x == c then false else p.is_open x }

-- `Connection(conn_params)` and its two entries
unfoldable pub create_connection : ℕ → Pool → ℕ × Pool
create_connection key p = (
  p.created,
  record {
    registry = put key p.created p.registry;
    refcount = put key 1 p.refcount;
    is_open = λ x. if x == p.created then true else p.is_open x;
    created = p.created + 1;
  },
)

-- The entries of a key are deleted.
unfoldable pub remove_stale : ℕ → Pool → Pool
remove_stale key p = record p { registry = remove key p.registry; refcount = remove key p.refcount }

-- A key of the registry without a count is a `KeyError`, here `none`.
unfoldable pub reuse_or_replace : ℕ → ℕ → Pool → Option (ℕ × Pool)
unfolding remove_stale create_connection
reuse_or_replace key c p = elim (get key p.refcount) [
  | none ↦ none
  | some n ↦
      if p.is_open c
      then some (c, record p { refcount = put key (n + 1) p.refcount })
      else some (create_connection key (remove_stale key p))
]

unfoldable pub get_or_create_amqp_connection : ℕ → Pool → Option (ℕ × Pool)
unfolding reuse_or_replace create_connection
get_or_create_amqp_connection key p = elim (get key p.registry) [
  | none ↦ some (create_connection key p)
  | some c ↦ reuse_or_replace key c p
]

-- the branch for a count of 0: `registry.pop(key)`, `del refcount[key]`, and `close` if it is open
unfoldable pub drop_last : ℕ → Pool → Option Pool
unfolding close remove_stale
drop_last key p = elim (get key p.registry) [
  | none ↦ none
  | some c ↦ if p.is_open c then some (close c (remove_stale key p)) else some (remove_stale key p)
]

unfoldable pub release_amqp_connection : ℕ → Pool → Option Pool
unfolding drop_last
release_amqp_connection key p = elim (get key p.refcount) [
  | none ↦ some p
  | some n ↦
      let p' = record p { refcount = put key (n - 1) p.refcount } in
      if n - 1 == 0 then drop_last key p' else some p'
]
