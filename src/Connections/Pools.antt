-- ===== src/Connections/Pools.antt =====
-- commlib/transports/redis.py: what a reference to a shared pool does.
use commlib_py.Prelude.{
  ℕ, ◌+◌, ◌≡◌, ◌≢◌, refl, Bool, true, false, ◌==◌, not, Option, none, some, List, append-nil, [],
  ◌∷◌, ◌++◌, arith,
}
use commlib_py.Prelude.Dict.{get, put, get-put, get-remove}
use commlib_py.Connections.Redis.{
  Pools, get_or_create_redis_pool, release_redis_pool, create_pool, ensure_pool, take_pool,
  drop_pool,
}

-- A key has both of its entries, with a count above 0, or neither.
abbrev pub matched : Option ℕ → Option ℕ → Bool
matched none none = true
matched (some c) (some n) = not (n == 0)
matched _ _ = false

-- What is disconnected by taking and releasing a reference: the new pool, unless there was one.
abbrev pub dropped : Option ℕ → ℕ → List ℕ
dropped none c = c ∷ []
dropped (some d) c = []

-- A reference is taken and released again.
abbrev pub Restored : ℕ → Pools → ℕ → Pools → Type 0
Restored key p c p' =
    (get_or_create_redis_pool key p ≡ some (c, p'))
    × (get key p'.registry ≡ some c)
    × (p'.disconnected ≡ p.disconnected)
    × ((j : ℕ) → get j (release_redis_pool key p').registry ≡ get j p.registry)
    × ((j : ℕ) → get j (release_redis_pool key p').refcount ≡ get j p.refcount)
    × ((release_redis_pool key p').disconnected ≡ p.disconnected ++ dropped (get key p.registry) c)

first_reference :
    (key : ℕ) (p : Pools)
    → get key p.registry ≡ none
    → get key p.refcount ≡ none
    → Restored key p p.created
        (record (create_pool key p) { refcount = put key 1 (put key 0 p.refcount) })
unfolding get_or_create_redis_pool ensure_pool create_pool take_pool release_redis_pool drop_pool
first_reference key p n m =
    let at = get-put key key p.created p.registry in
    let count = get-put key key 1 (put key 0 p.refcount) in
    (
      ground (arith, at, get-put key key 0 p.refcount),
      ground (arith, at),
      refl,
      λ j. ground (
        arith,
        count,
        get-remove key j (put key p.created p.registry),
        get-put key j p.created p.registry,
      ),
      λ j. ground (
        arith,
        count,
        get-remove key j (put key 0 (put key 1 (put key 0 p.refcount))),
        get-put key j 0 (put key 1 (put key 0 p.refcount)),
        get-put key j 1 (put key 0 p.refcount),
        get-put key j 0 p.refcount,
      ),
      ground (arith, count, at),
    )

further_reference :
    (key c n : ℕ) (p : Pools)
    → get key p.registry ≡ some c
    → get key p.refcount ≡ some n
    → n ≢ 0
    → Restored key p c (record p { refcount = put key (n + 1) p.refcount })
unfolding get_or_create_redis_pool ensure_pool take_pool release_redis_pool drop_pool
further_reference key c n p e m z =
    let count = get-put key key (n + 1) p.refcount in
    (
      ground arith,
      e,
      refl,
      λ j. ground (arith, count),
      λ j. ground (
        arith,
        count,
        get-put key j n (put key (n + 1) p.refcount),
        get-put key j (n + 1) p.refcount,
      ),
      ground (arith, count, append-nil p.disconnected),
    )

Restored-of :
    (key : ℕ) (p : Pools) (o m : Option ℕ)
    → get key p.registry ≡ o
    → get key p.refcount ≡ m
    → matched o m ≡ true
    → (c : ℕ) × (p' : Pools) × Restored key p c p'
Restored-of key p none none e f h = (p.created, _, first_reference key p e f)
Restored-of key p none (some n) e f h = absurd (ground arith)
Restored-of key p (some c) none e f h = absurd (ground arith)
Restored-of key p (some c) (some n) e f h = (c, _, further_reference key c n p e f (ground arith))

-- Where a key has both of its entries, with a count above 0, or neither, a reference is never refused,
-- and taking and releasing one restores every entry; the pool is disconnected exactly when nobody else
-- had a reference.
pub get_or_create_redis_pool-release_redis_pool :
    (key : ℕ) (p : Pools)
    → matched (get key p.registry) (get key p.refcount) ≡ true
    → (c : ℕ) × (p' : Pools) × Restored key p c p'
get_or_create_redis_pool-release_redis_pool key p h = Restored-of key p _ _ refl refl h
