-- ===== src/Connections/Replaced.antt =====
-- commlib/transports/amqp.py: a shared connection that is dropped from outside, and its replacement.
use mathlib.Core.Path.{subst₂, sym}
use commlib_py.Prelude.{ℕ, ◌≡◌, true, false, none, some, arith}
use commlib_py.Prelude.Dict.{get, put, get-put, get-remove}
use commlib_py.Connections.Amqp.{
  Pool, close, get_or_create_amqp_connection, release_amqp_connection, create_connection, drop_last,
  reuse_or_replace, remove_stale,
}

replaced :
    (key c d : ℕ) (p p' : Pool)
    → get key p.registry ≡ some c
    → get_or_create_amqp_connection key (close c p) ≡ some (d, p')
    → (d ≡ p.created) × (p' ≡ (create_connection key (remove_stale key (close c p))).1)
unfolding get_or_create_amqp_connection reuse_or_replace create_connection remove_stale close
replaced key c d p p' e eq = ground arith

-- The connection is open, and one release of the key closes it.
abbrev EndsClosed : ℕ → Pool → ℕ → Type 0
EndsClosed key p d =
    (p.is_open d ≡ true)
    × ((q : Pool) × (release_amqp_connection key p ≡ some q)
        × (q.is_open d ≡ false)
        × (get key q.registry ≡ none))

-- One release of a connection that has one holder closes it.
release_created :
    (key : ℕ) (p : Pool)
    → let p' = (create_connection key p).1 in
      (p'.is_open p.created ≡ true)
      × ((q : Pool) × (release_amqp_connection key p' ≡ some q)
          × (q.is_open p.created ≡ false)
          × (get key q.registry ≡ none))
unfolding release_amqp_connection drop_last create_connection remove_stale close
release_created key p = (
  ground arith,
  (
    close p.created (
        remove_stale key
          (record (create_connection key p).1 { refcount = put key 0 (put key 1 p.refcount) })),
    ground (arith, get-put key key p.created p.registry, get-put key key 1 p.refcount),
    ground arith,
    ground (arith, get-remove key key (put key p.created p.registry)),
  ),
)

-- The network drops the connection of a key between two holders. The second gets a new connection,
-- which is open; the release of the first then closes that one and takes the key out of the
-- registry, while the second still holds it.
pub release_closes_replaced :
    (key c d : ℕ) (p p' : Pool)
    → get key p.registry ≡ some c
    → get_or_create_amqp_connection key (close c p) ≡ some (d, p')
    → (p'.is_open d ≡ true)
      × (d ≡ p.created)
      × ((q : Pool) × (release_amqp_connection key p' ≡ some q)
          × (q.is_open d ≡ false)
          × (get key q.registry ≡ none))
unfolding remove_stale close
release_closes_replaced key c d p p' e eq =
    let (at, e') = replaced key c d p p' e eq in
    let (before, after) = release_created key (remove_stale key (close c p)) in
    let (open_now, closes) : EndsClosed key p' d =
      subst₂ (EndsClosed key) (sym e') (sym at) (before, after) in
    (open_now, at, closes)
