-- ===== src/Redis/Polling.antt =====
-- commlib/transports/redis.py: from the producer's queue to the worker.
use commlib_py.Prelude.{
  ℕ, zero, suc, ◌≡◌, ◌≢◌, refl, ◌∙◌, ap, Bool, true, false, Option, none, some, List, [], ◌∷◌, ◌++◌,
  map, All, length, append_assoc, append-nil, sym, arith,
}
use commlib_py.Prelude.Dict.{Dict}
use commlib_py.Redis.Transport.{Transport}
use commlib_py.Redis.Queues.{Unanswered, sent, unsent, queue_of, rpush, popped}
use commlib_py.Redis.Pushes.{queue_of-rpush, queue_of-popped}
use commlib_py.Redis.Calls.{twice, push_up, wait_up}
use commlib_py.Redis.Tasks.{
  Ended, raises_uncaught, TaskCodec, Poller, after_process, send_task, take_payload, after_wait,
  poll, poll_loop,
}

module _ {Task Payload : Type 0} (codec : TaskCodec Task Payload) (link : ℕ → Bool)
    (taken : ℕ → Unanswered) (process : Task → Ended) where
  -- Every exchange is answered; an envelope is read as it was written, and none is "QueueInit".
  abbrev pub Faithful : Type 0
  Faithful =
      ((n : ℕ) → link n ≡ true)
      × ((a : Task) → codec.decode (codec.encode a) ≡ some a)
      × ((a : Task) → codec.is_init (codec.encode a) ≡ false)

  -- The worker after a round that took a task.
  abbrev took : ℕ → Task → Poller Task Payload → Poller Task Payload
  took q a w = record w {
    transport = twice w.transport;
    store = popped q w.store;
    processed = w.processed ++ a ∷ [];
  }

  poll_task :
      (q : ℕ) (a : Task) (ps : List Payload) (w : Poller Task Payload)
      → Faithful
      → w.transport.has_redis ≡ true
      → process a ≢ raises_uncaught
      → queue_of q w.store ≡ codec.encode a ∷ ps
      → poll codec link taken process 1 q w ≡ some (took q a w)
  unfolding poll after_wait take_payload after_process
  poll_task q a ps w (up, read, init) h c e = ground (
    arith,
    wait_up link taken codec.is_init zero q (codec.encode a) ps w.transport w.store up h e (init a),
    read a,
  )

  -- Tasks that wait in a queue of a server that answers are handed to `_process_task` in the order of the
  -- queue, each of them once, however they end, as long as none raises what the loop does not catch; the
  -- queue is empty then, and no other one has changed.
  pub poll_loop_in_order :
      (q : ℕ) (tasks : List Task) (w : Poller Task Payload)
      → Faithful
      → w.transport.has_redis ≡ true
      → w.alive ≡ true
      → All (λ a. process a ≢ raises_uncaught) tasks
      → queue_of q w.store ≡ map codec.encode tasks
      → (w' : Poller Task Payload) × (poll_loop codec link taken process (length tasks) 1 q w
          ≡ some w')
        × (w'.processed ≡ w.processed ++ tasks)
        × (w'.alive ≡ true)
        × (queue_of q w'.store ≡ [])
        × ((j : ℕ) → j ≢ q → queue_of j w'.store ≡ queue_of j w.store)
  unfolding poll_loop
  poll_loop_in_order q [] w f h l c e = (w, refl, sym (append-nil w.processed), l, e, λ j d. refl)
  poll_loop_in_order q (a ∷ tasks) w f h l (c, cs) e =
      let w1 = took q a w in
      let (w', ends, done, lives, empty, others) =
        poll_loop_in_order q tasks w1 f h l cs (ground (arith, queue_of-popped q q w.store)) in
      (
        w',
        ground (arith, poll_task q a (map codec.encode tasks) w f h c e, ends),
        done ∙ append_assoc w.processed (a ∷ []) tasks,
        lives,
        empty,
        λ j d. ground (arith, others j d, queue_of-popped q j w.store),
      )

  stays_dead :
      (rounds q : ℕ) (w : Poller Task Payload)
      → w.alive ≡ false
      → poll_loop codec link taken process rounds 1 q w ≡ some w
  unfolding poll_loop
  stays_dead zero q w d = refl
  stays_dead (suc rounds) q w d = ground arith

  -- A payload that cannot be read as a task ends the thread of the worker: however many rounds follow, no
  -- other task is handed on, and what waited behind it stays in the queue.
  pub poll_loop_malformed :
      (rounds q : ℕ) (p : Payload) (ps : List Payload) (w : Poller Task Payload)
      → ((n : ℕ) → link n ≡ true)
      → w.transport.has_redis ≡ true
      → w.alive ≡ true
      → queue_of q w.store ≡ p ∷ ps
      → codec.is_init p ≡ false
      → codec.decode p ≡ none
      → (w' : Poller Task Payload) × (poll_loop codec link taken process (suc rounds) 1 q w
          ≡ some w')
        × (w'.processed ≡ w.processed)
        × (w'.alive ≡ false)
        × (queue_of q w'.store ≡ ps)
  unfolding poll_loop poll after_wait take_payload
  poll_loop_malformed rounds q p ps w up h l e i d =
      let w' : Poller Task Payload = record w {
        transport = twice w.transport;
        store = popped q w.store;
        alive = false;
      } in
      (
        w',
        ground (
          arith,
          wait_up link taken codec.is_init zero q p ps w.transport w.store up h e i,
          stays_dead rounds q w' refl,
        ),
        refl,
        refl,
        ground (arith, queue_of-popped q q w.store),
      )

  -- A producer that sends tasks one after the other, until a push ends with its error.
  abbrev pub send_all :
      ℕ → List Task → Transport → Dict (List Payload) → Option (Transport × Dict (List Payload))
  send_all q [] t s = some (t, s)
  send_all q (a ∷ tasks) t s = elim (send_task codec link taken 1 q a t s) [
    | none ↦ none
    | some r ↦ elim r [ sent t' s' ↦ send_all q tasks t' s' | unsent t' s' ↦ none ]
  ]

  send_all_up :
      (q : ℕ) (tasks : List Task) (t : Transport) (s : Dict (List Payload))
      → ((n : ℕ) → link n ≡ true)
      → t.has_redis ≡ true
      → (t' : Transport) × (s' : Dict (List Payload)) × (send_all q tasks t s ≡ some (t', s'))
        × (queue_of q s' ≡ queue_of q s ++ map codec.encode tasks)
        × ((j : ℕ) → j ≢ q → queue_of j s' ≡ queue_of j s)
  unfolding send_task
  send_all_up q [] t s up h = (t, s, refl, sym (append-nil (queue_of q s)), λ j d. refl)
  send_all_up q (a ∷ tasks) t s up h =
      let p = codec.encode a in
      let pushed : queue_of q (rpush q p s) ≡ queue_of q s ++ p ∷ [] =
        ground (arith, queue_of-rpush q q p s) in
      let (t', s', ends, queued, others) = send_all_up q tasks (twice t) (rpush q p s) up h in
      (
        t',
        s',
        ground (arith, push_up link taken zero q p t s up h, ends),
        queued
            ∙ (ap (λ ps. ps ++ map codec.encode tasks) pushed
                ∙ append_assoc (queue_of q s) (p ∷ []) (map codec.encode tasks)),
        λ j d. ground (arith, others j d, queue_of-rpush q j p s),
      )

  -- A producer and a worker whose every exchange with the server is answered, with an empty queue between
  -- them, and envelopes that are read as they were written: every task that the producer sends is handed to
  -- `_process_task`, once and in the order of sending whatever its priority, if none raises what the loop
  -- does not catch, and the queues are left as they were.
  pub poll_loop-send_task :
      (q : ℕ) (tasks : List Task) (t : Transport) (w : Poller Task Payload)
      → Faithful
      → (t.has_redis ≡ true) × (w.transport.has_redis ≡ true)
      → w.alive ≡ true
      → All (λ a. process a ≢ raises_uncaught) tasks
      → queue_of q w.store ≡ []
      → (t' : Transport) × (s : Dict (List Payload)) × (w' : Poller Task Payload) × (send_all q
            tasks t w.store
          ≡ some (t', s))
        × (poll_loop codec link taken process (length tasks) 1 q (record w { store = s }) ≡ some w')
        × (w'.processed ≡ w.processed ++ tasks)
        × (w'.alive ≡ true)
        × ((j : ℕ) → queue_of j w'.store ≡ queue_of j w.store)
  poll_loop-send_task q tasks t w f (ht, hw) l c e =
      let (t', s, sends, queued, others) = send_all_up q tasks t w.store f.0 ht in
      let (w', ends, done, lives, empty, others') =
        poll_loop_in_order q tasks (record w { store = s }) f hw l c
          (queued ∙ ap (λ ps. ps ++ map codec.encode tasks) e) in
      (t', s, w', sends, ends, done, lives, λ j. ground (arith, e, empty, others j, others' j))
