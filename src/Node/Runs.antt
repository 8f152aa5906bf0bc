-- ===== src/Node/Runs.antt =====
-- commlib/node.py: what `run` makes of a node.
use mathlib.Core.Path.{subst, sym}
use commlib_py.Prelude.{
  not, ◌||◌, ℕ, suc, ◌+◌, ◌≡◌, refl, ◌∙◌, ap, Bool, true, false, ◌&&◌, List, [], ◌∷◌, ◌++◌, map,
  all, length, length-append, if◌then◌else◌, arith, ◌<◌,
}
use commlib_py.Node.Endpoint.{is_busy, Endpoint, new_endpoint, run_endpoint, set_state}
use commlib_py.Node.State.{
  create, rpc, Node, running, no_executor, working, shut, runs, fails, endpoints, each, health,
  all_connected, create, with_executor, create_ctrl_services, create_heartbeat, run_endpoints,
  await_health, init_heartbeat, prepare, run,
}
use commlib_py.Node.Stops.{endpoints-each}

pub length-map : {A B : Type 0} (f : A → B) (xs : List A) → length (map f xs) ≡ length xs
length-map f [] = refl
length-map f (x ∷ xs) = ap suc (length-map f xs)

all-append :
    {A : Type 0} (p : A → Bool) (xs ys : List A) → all p (xs ++ ys) ≡ (all p xs && all p ys)
all-append p [] ys = refl
all-append p (x ∷ xs) ys = ground (arith, all-append p xs ys)

abbrev is_up : Endpoint → Bool
is_up e = e.is_connected

all_connected_of :
    (es : List Endpoint) → 0 < length es → all is_up es ≡ true → all_connected es ≡ true
unfolding all_connected
all_connected_of [] pos h = absurd (omega arith)
all_connected_of (e ∷ es) pos h = h

one_more :
    (xs ys zs : List Endpoint) (e : Endpoint)
    → e.is_connected ≡ true
    → all is_up (xs ++ (ys ++ zs)) ≡ true
    → all_connected (xs ++ ((ys ++ e ∷ []) ++ zs)) ≡ true
one_more xs ys zs e h k =
    all_connected_of (xs ++ ((ys ++ e ∷ []) ++ zs))
      (omega (
        arith,
        length-append xs ((ys ++ e ∷ []) ++ zs),
        length-append (ys ++ e ∷ []) zs,
        length-append ys (e ∷ []),
      ))
      (ground (
        arith,
        all-append is_up xs ((ys ++ e ∷ []) ++ zs),
        all-append is_up (ys ++ e ∷ []) zs,
        all-append is_up ys (e ∷ []),
        all-append is_up xs (ys ++ zs),
        all-append is_up ys zs,
      ))

-- `run` does not pass the endpoint over although it is not connected.
abbrev pub is_runnable : Endpoint → Bool
is_runnable e = e.is_connected || not (e.threaded && is_busy e.state)

runnable_new : (id : ℕ) → is_runnable (new_endpoint true id) ≡ true
unfolding new_endpoint is_busy
runnable_new id = refl

-- Two services more, and all are runnable still.
runnable_more :
    (xs ys zs rest : List Endpoint) (a b : Endpoint)
    → is_runnable a ≡ true
    → is_runnable b ≡ true
    → all is_runnable (xs ++ (ys ++ (zs ++ rest))) ≡ true
    → all is_runnable (xs ++ (ys ++ (((zs ++ a ∷ []) ++ b ∷ []) ++ rest))) ≡ true
runnable_more xs ys zs rest a b h g r = ground (
  arith,
  all-append is_runnable xs (ys ++ (zs ++ rest)),
  all-append is_runnable ys (zs ++ rest),
  all-append is_runnable zs rest,
  all-append is_runnable xs (ys ++ (((zs ++ a ∷ []) ++ b ∷ []) ++ rest)),
  all-append is_runnable ys (((zs ++ a ∷ []) ++ b ∷ []) ++ rest),
  all-append is_runnable ((zs ++ a ∷ []) ++ b ∷ []) rest,
  all-append is_runnable (zs ++ a ∷ []) (b ∷ []),
  all-append is_runnable zs (a ∷ []),
)

endpoints-with_executor : (n : Node) → endpoints (with_executor n) ≡ endpoints n
unfolding with_executor endpoints
endpoints-with_executor n = ground arith

runnable_services :
    (n : Node)
    → all is_runnable (endpoints n) ≡ true
    → all is_runnable (endpoints (create rpc (create rpc n))) ≡ true
unfolding endpoints create
runnable_services n r =
    runnable_more n.subscribers n.publishers n.rpc_services _ (new_endpoint true n.created)
      (new_endpoint true (n.created + 1)) (runnable_new n.created) (runnable_new (n.created + 1)) r

runnable_ctrl :
    (n : Node)
    → all is_runnable (endpoints n) ≡ true
    → all is_runnable (endpoints (create_ctrl_services (with_executor n))) ≡ true
unfolding create_ctrl_services
runnable_ctrl n r = ground (arith, endpoints-with_executor n, runnable_services (with_executor n))

module _ (comes_up : ℕ → Bool) where
  pub prepare_keeps :
      (n : Node)
      → ((prepare comes_up n).state ≡ n.state)
        × ((prepare comes_up n).heartbeats ≡ n.heartbeats)
        × ((prepare comes_up n).has_on_connected ≡ n.has_on_connected)
        × ((prepare comes_up n).hb_thread ≡ n.hb_thread)
        × ((prepare comes_up n).lost_heartbeats ≡ n.lost_heartbeats)
  unfolding prepare with_executor create_ctrl_services create run_endpoints each
  prepare_keeps n = ground arith

  pub prepare-executor :
      (n : Node)
      → (prepare comes_up n).executor
        ≡ (elim (n.executor) [ no_executor ↦ working | working ↦ working | shut ↦ shut ])
  unfolding prepare with_executor create_ctrl_services create run_endpoints each
  prepare-executor n = ground arith

  pub prepare-publishers :
      (n : Node)
      → (prepare comes_up n).publishers ≡ map (λ e. run_endpoint (comes_up e.id) e) n.publishers
  unfolding prepare with_executor create_ctrl_services create run_endpoints each
  prepare-publishers n = ground arith

  pub prepare-rpc_services :
      (n : Node)
      → length (prepare comes_up n).rpc_services
        ≡ length n.rpc_services + (if n.has_ctrl_services then 2 else 0)
  unfolding prepare with_executor create_ctrl_services create run_endpoints each
  prepare-rpc_services n = ground (
    arith,
    length-map (λ (e : Endpoint). run_endpoint (comes_up e.id) e)
        ((n.rpc_services ++ new_endpoint true n.created ∷ [])
          ++ new_endpoint true (n.created + 1) ∷ []),
    length-map (λ (e : Endpoint). run_endpoint (comes_up e.id) e) n.rpc_services,
    length-append n.rpc_services (new_endpoint true n.created ∷ []),
    length-append (n.rpc_services ++ new_endpoint true n.created ∷ [])
        (new_endpoint true (n.created + 1) ∷ []),
  )

  pub run_shut :
      (n : Node)
      → n.executor ≡ shut
      → n.heartbeats ≡ true
      → (n' : Node) × (run comes_up n ≡ fails n')
        × (n'.state ≡ n.state)
        × (length n'.publishers ≡ length n.publishers + 1)
  unfolding run init_heartbeat create_heartbeat
  run_shut n e b =
      let m = prepare comes_up n in
      (
        create_heartbeat (comes_up m.created) m,
        ground (arith, prepare-executor n, prepare_keeps n),
        (prepare_keeps n).0,
        ground (
          arith,
          prepare-publishers n,
          length-append m.publishers
              (run_endpoint (comes_up m.created) (new_endpoint false m.created) ∷ []),
          length-map (λ (e : Endpoint). run_endpoint (comes_up e.id) e) n.publishers,
        ),
      )

  pub endpoints-prepare :
      (n : Node)
      → endpoints (prepare comes_up n)
        ≡ map
            (λ e. run_endpoint (comes_up e.id) e)
            (endpoints (create_ctrl_services (with_executor n)))
  unfolding prepare run_endpoints
  endpoints-prepare n =
      endpoints-each (λ e. run_endpoint (comes_up e.id) e) (create_ctrl_services (with_executor n))

  without_ctrl_services :
      (n : Node)
      → n.has_ctrl_services ≡ false
      → endpoints (create_ctrl_services (with_executor n)) ≡ endpoints n
  unfolding create_ctrl_services with_executor endpoints
  without_ctrl_services n c = ground arith

  pub prepare-no_endpoints :
      (n : Node)
      → endpoints n ≡ []
      → n.has_ctrl_services ≡ false
      → endpoints (prepare comes_up n) ≡ []
  prepare-no_endpoints n e c =
      let m = create_ctrl_services (with_executor n) in
      let same : endpoints m ≡ [] = without_ctrl_services n c ∙ e in
      endpoints-prepare n ∙ ap (map (λ (x : Endpoint). run_endpoint (comes_up x.id) x)) same

  -- Where every endpoint that is run comes up, all are connected.
  all_up :
      (es : List Endpoint)
      → ((id : ℕ) → comes_up id ≡ true)
      → all is_runnable es ≡ true
      → all is_up (map (λ e. run_endpoint (comes_up e.id) e) es) ≡ true
  unfolding run_endpoint set_state
  all_up [] up r = refl
  all_up (e ∷ es) up r = ground (arith, up e.id, all_up es up)

  all_up-heartbeat :
      (n : Node) → all is_up (endpoints n) ≡ true → health (create_heartbeat true n) ≡ true
  unfolding health endpoints create_heartbeat run_endpoint set_state new_endpoint
  all_up-heartbeat n h = one_more n.subscribers n.publishers _ _ refl h

  -- a node whose `run` has ended
  abbrev pub started : Node → Node
  started n = record n {
    state = running;
    connected_calls = if n.has_on_connected then n.connected_calls + 1 else n.connected_calls;
  }

  await_healthy : (n : Node) → health n ≡ true → await_health comes_up n ≡ runs (started n)
  unfolding await_health
  await_healthy n h = ground arith

  run_heartbeat :
      (n : Node)
      → n.executor ≡ working
      → n.heartbeats ≡ true
      → run comes_up n
        ≡ await_health comes_up
            (create_heartbeat (comes_up (prepare comes_up n).created) (prepare comes_up n))
  unfolding run init_heartbeat
  run_heartbeat n e b = ground (arith, prepare-executor n, prepare_keeps n)

  pub run_up :
      (n : Node)
      → ((id : ℕ) → comes_up id ≡ true)
      → all is_runnable (endpoints n) ≡ true
      → n.executor ≡ working
      → n.heartbeats ≡ true
      → run comes_up n ≡ runs (started (create_heartbeat true (prepare comes_up n)))
  run_up n up r e b =
      let m = prepare comes_up n in
      let all_of_m : all is_up (endpoints m) ≡ true =
        subst (λ es. all is_up es ≡ true) (sym (endpoints-prepare n))
          (all_up (endpoints (create_ctrl_services (with_executor n))) up (runnable_ctrl n r)) in
      run_heartbeat n e b
      ∙ ap (λ b. await_health comes_up (create_heartbeat b m)) (up m.created)
      ∙ await_healthy (create_heartbeat true m) (all_up-heartbeat m all_of_m)
