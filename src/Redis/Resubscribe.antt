-- ===== src/Redis/Resubscribe.antt =====
-- commlib/transports/redis.py: which subscriptions outlive the loss of a connection.
use commlib_py.Prelude.{
  ℕ, zero, suc, ◌+◌, ◌*◌, ◌≡◌, ◌≤◌, ◌<◌, refl, ◌∙◌, ap, Bool, true, false, ◌==◌, ◌||◌, some, List,
  [], ◌∷◌, ◌++◌, arith,
}
use commlib_py.Redis.Transport.{Transport, Shared, is_connected, connect, stop, set_connected}
use commlib_py.Redis.Pubsub.{
  Pubsub, contains, add_key, add_keys, run_in_thread, msubscribe, hears, restore, sleep,
  end_attempt, one_attempt, attempt_loop, attempt_pubsub_reconnect, exception_handler,
}

contains-append : (x y : ℕ) (xs : List ℕ) → contains x (xs ++ y ∷ []) ≡ (contains x xs || y == x)
unfolding contains
contains-append x y [] = ground arith
contains-append x y (z ∷ xs) = ground (arith, contains-append x y xs)

contains-add_key : (x y : ℕ) (xs : List ℕ) → contains x (add_key y xs) ≡ (contains x xs || y == x)
unfolding add_key
contains-add_key x y xs = ground (arith, contains-append x y xs)

contains-add_keys :
    (x : ℕ) (ys xs : List ℕ) → contains x (add_keys ys xs) ≡ (contains x xs || contains x ys)
unfolding add_keys contains
contains-add_keys x [] xs = ground arith
contains-add_keys x (y ∷ ys) xs =
    ground (arith, contains-add_keys x ys (add_key y xs), contains-add_key x y xs)

module _ (link : ℕ → Bool) (meanwhile : ℕ → Transport → Transport) where
  -- What `msubscribe` subscribes is heard, but it is not kept: if nothing was subscribed by `subscribe`,
  -- then after the connection is lost nothing is restored and nothing is heard any more, whether the
  -- server comes back or not.
  pub exception_handler-msubscribe :
      (fuel topic : ℕ) (topics : List ℕ) (p : Pubsub)
      → p.transport.has_rsub ≡ true
      → p.subscriptions ≡ []
      → contains topic topics ≡ true
      → (hears topic (msubscribe topics p) ≡ true)
        × ((p' : Pubsub) × (exception_handler link meanwhile fuel (msubscribe topics p) ≡ some p')
            × (p'.transport ≡ (msubscribe topics p).transport)
            × ((t : ℕ) → hears t p' ≡ false))
  unfolding hears msubscribe run_in_thread exception_handler attempt_pubsub_reconnect contains
  exception_handler-msubscribe fuel topic [] p r s c = absurd (ground arith)
  exception_handler-msubscribe fuel topic (x ∷ xs) p r s c = (
    ground (arith, contains-add_keys topic (x ∷ xs) p.patterns),
    (
      record (msubscribe (x ∷ xs) p) { patterns = []; listening = false },
      ground arith,
      refl,
      λ t. refl,
    ),
  )

  -- One attempt while the server does not answer.
  attempt_fails :
      (fuel : ℕ) (p : Pubsub)
      → ((n : ℕ) (t : Transport) → meanwhile n t ≡ t)
      → p.transport.has_redis ≡ true
      → p.transport.stopped ≡ false
      → p.transport.retry_count < p.transport.reconnect_attempts
      → link p.transport.exchanges ≡ false
      → link (p.transport.exchanges + 1) ≡ false
      → (p' : Pubsub) × (attempt_loop link meanwhile (suc fuel) p
          ≡ attempt_loop link meanwhile fuel p')
        × (p'.transport.has_redis ≡ true)
        × (p'.transport.stopped ≡ false)
        × (p'.transport.retry_count ≡ p.transport.retry_count + 1)
        × (p'.transport.reconnect_attempts ≡ p.transport.reconnect_attempts)
        × (p'.transport.exchanges ≡ p.transport.exchanges + 2)
        × (p'.subscriptions ≡ p.subscriptions)
  unfolding attempt_loop one_attempt sleep is_connected connect
  attempt_fails fuel p still h s r a b =
      let t = record p.transport { retry_count = p.transport.retry_count + 1; has_rsub = false } in
      (
        record p {
          patterns = [];
          transport = record p.transport {
            retry_count = p.transport.retry_count + 1;
            stopped = false;
            has_redis = true;
            has_rsub = true;
            exchanges = p.transport.exchanges + 1 + 1;
          };
        },
        ground (
          arith,
          still t.exchanges t,
          still (t.exchanges + 1) (record t { exchanges = t.exchanges + 1 }),
        ),
        refl,
        refl,
        refl,
        refl,
        omega arith,
        refl,
      )

  -- The attempt that the server answers.
  attempt_restores :
      (fuel : ℕ) (p : Pubsub)
      → ((n : ℕ) (t : Transport) → meanwhile n t ≡ t)
      → p.transport.has_redis ≡ true
      → p.transport.stopped ≡ false
      → p.transport.retry_count < p.transport.reconnect_attempts
      → link p.transport.exchanges ≡ true
      → link (p.transport.exchanges + 1) ≡ true
      → (p' : Pubsub) × (attempt_loop link meanwhile (suc fuel) p ≡ some p')
        × (p'.subscriptions ≡ p.subscriptions)
        × ((topic : ℕ) → hears topic p' ≡ contains topic p.subscriptions)
  unfolding attempt_loop one_attempt end_attempt restore run_in_thread sleep is_connected hears
  attempt_restores fuel p still h s r a b =
      let t = record p.transport { retry_count = p.transport.retry_count + 1; has_rsub = false } in
      (
        restore (record p { transport = record t { exchanges = t.exchanges + 1 + 1 } }),
        ground (arith, still t.exchanges t),
        refl,
        λ topic. refl,
      )

  loop_restores :
      (k : ℕ) (p : Pubsub)
      → ((n : ℕ) (t : Transport) → meanwhile n t ≡ t)
      → p.transport.has_redis ≡ true
      → p.transport.stopped ≡ false
      → p.transport.retry_count + k < p.transport.reconnect_attempts
      → ((i : ℕ) → i < 2 * k → link (p.transport.exchanges + i) ≡ false)
      → ((i : ℕ) → 2 * k ≤ i → link (p.transport.exchanges + i) ≡ true)
      → (p' : Pubsub) × (attempt_loop link meanwhile (suc k) p ≡ some p')
        × (p'.subscriptions ≡ p.subscriptions)
        × ((topic : ℕ) → hears topic p' ≡ contains topic p.subscriptions)
  loop_restores zero p still h s r down up =
      attempt_restores zero p still h s (omega arith) (ground (arith, up 0)) (up 1 (omega arith))
  loop_restores (suc k) p still h s r down up =
      let (p1, step, h1, s1, r1, m1, e1, same) =
        attempt_fails (suc k) p still h s (omega arith) (ground (arith, down 0))
          (down 1 (omega arith)) in
      let (p', ends, kept, heard) =
        loop_restores k p1 still h1 s1 (omega arith) (λ i b. ground (arith, e1, down (2 + i)))
          (λ i b. ground (arith, e1, up (2 + i))) in
      (p', step ∙ ends, kept ∙ same, λ topic. heard topic ∙ ap (contains topic) same)

  -- The connection of a transport with subscriptions is lost, and the server answers again after k
  -- attempts, fewer than are left: then every topic that was subscribed by `subscribe`, and no other one,
  -- is heard again.
  pub exception_handler_restores :
      (k first : ℕ) (more : List ℕ) (p : Pubsub)
      → ((n : ℕ) (t : Transport) → meanwhile n t ≡ t)
      → p.transport.has_redis ≡ true
      → p.transport.stopped ≡ false
      → p.subscriptions ≡ first ∷ more
      → p.transport.retry_count + k < p.transport.reconnect_attempts
      → ((i : ℕ) → i < 2 * k → link (p.transport.exchanges + i) ≡ false)
      → ((i : ℕ) → 2 * k ≤ i → link (p.transport.exchanges + i) ≡ true)
      → (p' : Pubsub) × (exception_handler link meanwhile (suc k) p ≡ some p')
        × (p'.subscriptions ≡ p.subscriptions)
        × ((topic : ℕ) → hears topic p' ≡ contains topic p.subscriptions)
  unfolding exception_handler attempt_pubsub_reconnect
  exception_handler_restores k first more p still h s l r down up =
      let p0 = record p { patterns = []; listening = false } in
      let (p', ends, kept, heard) = loop_restores k p0 still h s r down up in
      (p', ground (arith, ends), kept, heard)

  -- A `stop` while a reconnect sleeps before its `connect` is undone: if the server answers then, the
  -- transport is not stopped in the end, it has a client, and the topics are heard again.
  pub exception_handler-stop :
      (first : ℕ) (more : List ℕ) (p : Pubsub) (w : Shared)
      → p.transport.has_redis ≡ true
      → p.transport.stopped ≡ false
      → p.subscriptions ≡ first ∷ more
      → p.transport.retry_count < p.transport.reconnect_attempts
      → ((t : Transport) → meanwhile p.transport.exchanges t ≡ t)
      → ((t : Transport) → meanwhile (p.transport.exchanges + 1) t ≡ (stop t w).0)
      → link p.transport.exchanges ≡ false
      → link (p.transport.exchanges + 1 + 1) ≡ true
      → link (p.transport.exchanges + 1 + 1 + 1) ≡ true
      → (p' : Pubsub) × (exception_handler link meanwhile 1 p ≡ some p')
        × (p'.transport.stopped ≡ false)
        × (p'.transport.connected ≡ true)
        × (p'.transport.has_redis ≡ true)
        × ((topic : ℕ) → hears topic p' ≡ contains topic p.subscriptions)
  unfolding exception_handler attempt_pubsub_reconnect attempt_loop one_attempt end_attempt restore
      run_in_thread sleep is_connected connect set_connected stop hears
  exception_handler-stop first more p w h s l r still stops a b c =
      let t = record p.transport { retry_count = p.transport.retry_count + 1; has_rsub = false } in
      let t1 = record t { exchanges = t.exchanges + 1 } in
      let made = (connect link (stop t1 w).0).1 in
      (
        restore (record p {
          transport = record made { exchanges = made.exchanges + 1 };
          patterns = [];
          listening = false;
        }),
        ground (arith, still t, stops t1),
        ground arith,
        ground arith,
        ground arith,
        λ topic. refl,
      )
