-- ===== src/Connections/Holders.antt =====
-- commlib/transports/amqp.py: the holders of the shared connections.
-- `held` counts, for each key, the holders that have not released their connection.
use mathlib.Core.Path.{subst, sym}
use commlib_py.Prelude.{
  ◌⊎◌, inl, inr, ℕ, ◌+◌, ◌-◌, ◌≡◌, refl, Bool, Bool-cases, ◌≢◌, true, false, ◌==◌, ◌&&◌, not,
  Option, none, some, [], if◌then◌else◌, arith, ◌<◌,
}
use commlib_py.Prelude.Dict.{get, put, get-put, get-remove}
use commlib_py.Connections.Amqp.{
  Pool, close, get_or_create_amqp_connection, release_amqp_connection, create_connection, drop_last,
  reuse_or_replace, remove_stale,
}

pub record Shared : Type 0 where
  pub pool : Pool
  pub held : ℕ → ℕ

unfoldable pub set_held : ℕ → ℕ → (ℕ → ℕ) → ℕ → ℕ
set_held key n held k = if key == k then n else held k

pub data Step (s t : Shared) : Type 0 where
  acquire :
      (key c : ℕ)
      → get_or_create_amqp_connection key s.pool ≡ some (c, t.pool)
      → t.held ≡ set_held key (s.held key + 1) s.held
      → Step s t
  release :
      (key : ℕ)
      → 0 < s.held key
      → release_amqp_connection key s.pool ≡ some t.pool
      → t.held ≡ set_held key (s.held key - 1) s.held
      → Step s t

pub data Reach (s : Shared) : Shared → Type 0 where
  here : Reach s s
  next : {t u : Shared} → Reach s t → Step t u → Reach s u

-- The entries of one key, in the registry and among the counts, while it has `n` holders.
abbrev entry : Option ℕ → Option ℕ → ℕ → Bool
entry none none n = n == 0
entry (some c) (some m) n = m == n && not (n == 0)
entry _ _ n = false

-- Each key's entries count its holders; each connection of the registry is open, and of one key.
abbrev pub Counted : Pool → (ℕ → ℕ) → Type 0
Counted p held =
    ((k : ℕ) → entry (get k p.registry) (get k p.refcount) (held k) ≡ true)
    × ((k c : ℕ) → get k p.registry ≡ some c → (p.is_open c ≡ true) × (c < p.created))
    × ((k j c : ℕ) → get k p.registry ≡ some c → get j p.registry ≡ some c → k ≡ j)

reuses :
    (key c d : ℕ) (p p' : Pool) (n : ℕ)
    → entry (get key p.registry) (get key p.refcount) n ≡ true
    → get key p.registry ≡ some d
    → p.is_open d ≡ true
    → get_or_create_amqp_connection key p ≡ some (c, p')
    → (get key p.registry ≡ some c) × (p' ≡ record p { refcount = put key (n + 1) p.refcount })
unfolding get_or_create_amqp_connection reuse_or_replace
reuses key c d p p' n h e o eq = ground arith

created-Counted :
    (key : ℕ) (p : Pool) (held : ℕ → ℕ)
    → Counted p held
    → get key p.registry ≡ none
    → Counted (create_connection key p).1 (set_held key (held key + 1) held)
unfolding create_connection set_held
created-Counted key p held (entries, live, apart) n = (
  λ k. ground (
    arith,
    entries k,
    entries key,
    get-put key k p.created p.registry,
    get-put key k 1 p.refcount,
  ),
  λ k d e. ground (arith, live k d, get-put key k p.created p.registry),
  λ k j d e e'. ground (
    arith,
    live k d,
    live j d,
    apart k j d,
    get-put key k p.created p.registry,
    get-put key j p.created p.registry,
  ),
)

reused-Counted :
    (key c : ℕ) (p : Pool) (held : ℕ → ℕ)
    → Counted p held
    → get key p.registry ≡ some c
    → Counted
        (record p { refcount = put key (held key + 1) p.refcount })
        (set_held key (held key + 1) held)
unfolding set_held
reused-Counted key c p held (entries, live, apart) e = (
  λ k. ground (arith, entries k, entries key, get-put key k (held key + 1) p.refcount),
  live,
  apart,
)

fresh :
    (key c : ℕ) (p p' : Pool)
    → get key p.registry ≡ none
    → get_or_create_amqp_connection key p ≡ some (c, p')
    → p' ≡ (create_connection key p).1
unfolding get_or_create_amqp_connection create_connection
fresh key c p p' n eq = ground arith

-- Where every connection of the registry is open, none is replaced.
pub get_or_create_of :
    (key c : ℕ) (p p' : Pool) (held : ℕ → ℕ) (o : Option ℕ)
    → Counted p held
    → get key p.registry ≡ o
    → get_or_create_amqp_connection key p ≡ some (c, p')
    → Counted p' (set_held key (held key + 1) held)
get_or_create_of key c p p' held none h n eq =
    subst (λ q. Counted q (set_held key (held key + 1) held)) (sym (fresh key c p p' n eq))
      (created-Counted key p held h n)
get_or_create_of key c p p' held (some d) (entries, live, apart) e eq =
    let (e', eq') = reuses key c d p p' (held key) (entries key) e (live key d e).0 eq in
    subst (λ q. Counted q (set_held key (held key + 1) held)) (sym eq')
      (reused-Counted key c p held (entries, live, apart) e')

pub release-Counted :
    (key : ℕ) (p p' : Pool) (held : ℕ → ℕ)
    → Counted p held
    → 0 < held key
    → release_amqp_connection key p ≡ some p'
    → Counted p' (set_held key (held key - 1) held)
unfolding release_amqp_connection drop_last remove_stale close set_held
release-Counted key p p' held (entries, live, apart) h eq = (
  λ k. ground (
    arith,
    entries k,
    entries key,
    get-remove key k p.registry,
    get-put key k (held key - 1) p.refcount,
    get-remove key k (put key (held key - 1) p.refcount),
  ),
  λ k d e. ground (arith, entries key, live k d, get-remove key k p.registry, apart k key d),
  λ k j d e e'.
      ground
        (arith, entries key, apart k j d, get-remove key k p.registry, get-remove key j p.registry),
)

Step-Counted : {s t : Shared} → Counted s.pool s.held → Step s t → Counted t.pool t.held
Step-Counted {s} {t} h (acquire key c eq e) =
    subst (Counted t.pool) (sym e)
      (get_or_create_of key c s.pool t.pool s.held (get key s.pool.registry) h refl eq)
Step-Counted {s} {t} h (release key pos eq e) =
    subst (Counted t.pool) (sym e) (release-Counted key s.pool t.pool s.held h pos eq)

Reach-Counted : {s t : Shared} → Counted s.pool s.held → Reach s t → Counted t.pool t.held
Reach-Counted h here = h
Reach-Counted h (next r st) = Step-Counted (Reach-Counted h r) st

abbrev pub no_holders : ℕ → ℕ
no_holders key = 0

abbrev pub empty_pool : (ℕ → Bool) → Pool
empty_pool is_open = record { registry = []; refcount = []; is_open = is_open; created = 0 }

held-entry :
    (p : Pool) (held : ℕ → ℕ) (key : ℕ) (o m : Option ℕ)
    → Counted p held
    → get key p.registry ≡ o
    → get key p.refcount ≡ m
    → entry o m (held key) ≡ true
    → 0 < held key
    → (c : ℕ) × (get key p.registry ≡ some c)
      × (get key p.refcount ≡ some (held key))
      × (p.is_open c ≡ true)
      × ((j : ℕ) → get j p.registry ≡ some c → j ≡ key)
held-entry p held key none none h e f t pos = absurd (ground arith)
held-entry p held key none (some n) h e f t pos = absurd (ground arith)
held-entry p held key (some c) none h e f t pos = absurd (ground arith)
held-entry p held key (some c) (some n) (entries, live, apart) e f t pos =
    (c, e, ground arith, (live key c e).0, λ j e'. apart j key c e' e)

no-entry : (o m : Option ℕ) (n : ℕ) → entry o m n ≡ true → n ≡ 0 → (n ≡ 0) × (o ≡ none) × (m ≡ none)
no-entry o m n h z = ground arith

zero_or_pos : (n : ℕ) → (n ≡ 0) ⊎ (0 < n)
zero_or_pos n = ground arith

-- A connection that was made and that no key has any more is closed.
abbrev pub Leakless : Pool → Type 0
Leakless p = (c : ℕ) → c < p.created → ((k : ℕ) → get k p.registry ≢ some c) → p.is_open c ≡ false

created-Leakless :
    (key : ℕ) (p : Pool)
    → Leakless p
    → get key p.registry ≡ none
    → Leakless (create_connection key p).1
unfolding create_connection
created-Leakless key p h n c l free =
    let apart : c ≢ p.created =
      λ e. free key (ground (arith, e, get-put key key p.created p.registry)) in
    let unheld : (k : ℕ) → get k p.registry ≢ some c =
      λ k e. free k (ground (arith, e, n, get-put key k p.created p.registry)) in
    let closed : p.is_open c ≡ false = h c (omega (arith, l, apart)) unheld in
    ground (arith, apart, closed)

acquired-Leakless :
    (key c : ℕ) (p p' : Pool) (held : ℕ → ℕ) (o : Option ℕ)
    → Counted p held
    → Leakless p
    → get key p.registry ≡ o
    → get_or_create_amqp_connection key p ≡ some (c, p')
    → Leakless p'
acquired-Leakless key c p p' held none h l n eq =
    subst Leakless (sym (fresh key c p p' n eq)) (created-Leakless key p l n)
acquired-Leakless key c p p' held (some d) (entries, live, apart) l e eq =
    subst Leakless (sym (reuses key c d p p' (held key) (entries key) e (live key d e).0 eq).1) l

-- A release only counts down, or it closes the connection and drops its entries.
release-cases :
    (key c n : ℕ) (p p' : Pool)
    → get key p.registry ≡ some c
    → get key p.refcount ≡ some n
    → p.is_open c ≡ true
    → release_amqp_connection key p ≡ some p'
    → (p' ≡ record p { refcount = put key (n - 1) p.refcount })
      ⊎ (p' ≡ close c (remove_stale key (record p { refcount = put key (n - 1) p.refcount })))
unfolding release_amqp_connection drop_last
release-cases key c n p p' e f o eq = ground arith

closed-Leakless :
    (key c : ℕ) (p : Pool)
    → Leakless p
    → get key p.registry ≡ some c
    → Leakless (close c (remove_stale key p))
unfolding close remove_stale
closed-Leakless key c p h e x l free = elim (Bool-cases (x == c)) [
  | inl same ↦ ground (arith, same)
  | inr other ↦
      let unheld : (k : ℕ) → get k p.registry ≢ some x =
        λ k g. free k (ground (arith, g, e, other, get-remove key k p.registry)) in
      let closed : p.is_open x ≡ false = h x l unheld in ground (arith, other, closed)
]

released-Leakless :
    (key : ℕ) (p p' : Pool) (held : ℕ → ℕ)
    → Counted p held
    → Leakless p
    → 0 < held key
    → release_amqp_connection key p ≡ some p'
    → Leakless p'
released-Leakless key p p' held h l pos eq =
    let (c, e, f, o, alone) = held-entry p held key _ _ h refl refl (h.0 key) pos in
    elim (release-cases key c (held key) p p' e f o eq) [
      | inl same ↦ subst Leakless (sym same) l
      | inr drops ↦
          subst Leakless (sym drops)
            (closed-Leakless key c (record p { refcount = put key (held key - 1) p.refcount }) l e)
    ]

Step-Leakless :
    {s t : Shared} → Counted s.pool s.held → Leakless s.pool → Step s t → Leakless t.pool
Step-Leakless {s} {t} h l (acquire key c eq e) =
    acquired-Leakless key c s.pool t.pool s.held (get key s.pool.registry) h l refl eq
Step-Leakless {s} {t} h l (release key pos eq e) =
    released-Leakless key s.pool t.pool s.held h l pos eq

Reach-Leakless :
    {s t : Shared} → Counted s.pool s.held → Leakless s.pool → Reach s t → Leakless t.pool
Reach-Leakless h l here = l
Reach-Leakless h l (next r st) = Step-Leakless (Reach-Counted h r) (Reach-Leakless h l r) st

-- While no connection is dropped from outside, in every order of acquires and releases: a key with
-- holders has an open connection whose count is the number of its holders, a key without holders has
-- neither a connection nor a count, two keys never share a connection, and each connection that was made and
-- that no key has any more is closed.
pub connections_counted :
    (is_open : ℕ → Bool) (s : Shared) (key : ℕ)
    → Reach (record { pool = empty_pool is_open; held = no_holders }) s
    → Leakless s.pool
      × (((s.held key ≡ 0) × (get key s.pool.registry ≡ none) × (get key s.pool.refcount ≡ none))
          ⊎ ((0 < s.held key)
              × ((c : ℕ) × (get key s.pool.registry ≡ some c)
                  × (get key s.pool.refcount ≡ some (s.held key))
                  × (s.pool.is_open c ≡ true)
                  × ((j : ℕ) → get j s.pool.registry ≡ some c → j ≡ key))))
unfolding get
connections_counted is_open s key r =
    let h0 : Counted (empty_pool is_open) no_holders =
      ((λ k. refl), (λ k c e. ground arith), λ k j c e e'. ground arith) in
    let h = Reach-Counted h0 r in
    (
      Reach-Leakless h0 (λ c l free. absurd (omega (arith, l))) r,
      elim (zero_or_pos (s.held key)) [
        | inl z ↦
            inl (
              no-entry (get key s.pool.registry) (get key s.pool.refcount) (s.held key) (h.0 key) z)
        | inr pos ↦ inr (pos, held-entry s.pool s.held key _ _ h refl refl (h.0 key) pos)
      ],
    )
