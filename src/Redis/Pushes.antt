-- ===== src/Redis/Pushes.antt =====
-- commlib/transports/redis.py: what a push and a wait do to the queues.
use mathlib.Core.Path.{subst}
use commlib_py.Prelude.{
  ℕ, zero, suc, ◌+◌, ◌≡◌, ◌≢◌, refl, ◌∙◌, ap, sym, ◌⊎◌, inl, inr, Bool, true, false, ◌≤◌, ◌<◌,
  length, ◌==◌, Option, none, some, List, [], ◌∷◌, ◌++◌, append-nil, append_assoc, if◌then◌else◌,
  arith,
}
use commlib_py.Prelude.Dict.{Dict, get-put}
use commlib_py.Redis.Transport.{
  Transport, set_connected, is_connected, connect, after_connect, attempt_reconnect,
}
use commlib_py.Redis.Queues.{
  Unanswered, Sent, sent, unsent, queue_of, rpush, rest, popped, next, push_payload,
}

abbrev pub copies : {A : Type 0} → ℕ → A → List A
copies zero a = []
copies (suc k) a = a ∷ copies k a

abbrev after : Option (Bool × Transport) → Transport → Transport
after none t = t
after (some (done, t')) t = t'

module _ (link : ℕ → Bool) where
  is_connected_later : (t : Transport) → t.exchanges ≤ (is_connected link t).1.exchanges
  unfolding is_connected
  is_connected_later t = ground arith

  reconnect_later : (t : Transport) → t.exchanges ≤ (after (attempt_reconnect link t) t).exchanges
  unfolding attempt_reconnect connect after_connect is_connected set_connected
  reconnect_later t = ground arith

  next_exchanges : (t : Transport) → (next t).exchanges ≡ t.exchanges + 1
  unfolding next
  next_exchanges t = refl

  next_later :
      (t : Transport)
      → suc t.exchanges ≤ (after (attempt_reconnect link (next t)) (next t)).exchanges
  next_later t =
      let later = reconnect_later (next t) in
      let one : (next t).exchanges ≡ t.exchanges + 1 = unfold next in refl in
      omega (arith, later, one)

module _ (link : ℕ → Bool) (taken : ℕ → Unanswered) where
  -- Exchanges from the a-th on and before the b-th, one after the other, that were not answered but carried out
  abbrev pub Lost : ℕ → ℕ → List ℕ → Type 0
  Lost a b [] = Unit
  Lost a b (n ∷ ns) =
      (a ≤ n) × (n < b) × (link n ≡ false) × ((taken n).carried ≡ true) × Lost (suc n) b ns

  Lost-earlier : (a a' b : ℕ) (ns : List ℕ) → a ≤ a' → Lost a' b ns → Lost a b ns
  Lost-earlier a a' b [] l h = tt
  Lost-earlier a a' b (n ∷ ns) l (later, before, lost, carried, more) =
      (omega (arith, l, later), before, lost, carried, more)

module _ {Payload : Type 0} where
  pub queue_of-rpush :
      (q j : ℕ) (p : Payload) (s : Dict (List Payload))
      → queue_of j (rpush q p s) ≡ (if q == j then queue_of q s ++ p ∷ [] else queue_of j s)
  unfolding queue_of rpush
  queue_of-rpush q j p s = ground (arith, get-put q j (queue_of q s ++ p ∷ []) s)

  pub queue_of-popped :
      (q j : ℕ) (s : Dict (List Payload))
      → queue_of j (popped q s) ≡ (if q == j then rest (queue_of q s) else queue_of j s)
  unfolding queue_of popped
  queue_of-popped q j s = ground (arith, get-put q j (rest (queue_of q s)) s)

  -- The queue q has n more copies of p at its end, and no other queue has changed.
  abbrev Appended : ℕ → Payload → ℕ → Dict (List Payload) → Dict (List Payload) → Type 0
  Appended q p n s s' =
      (queue_of q s' ≡ queue_of q s ++ copies n p)
      × ((j : ℕ) → j ≢ q → queue_of j s' ≡ queue_of j s)

  Appended-rpush : (q : ℕ) (p : Payload) (s : Dict (List Payload)) → Appended q p 1 s (rpush q p s)
  Appended-rpush q p s =
      (ground (arith, queue_of-rpush q q p s), λ j d. ground (arith, queue_of-rpush q j p s))

  Appended-step :
      (q : ℕ) (p : Payload) (n : ℕ) (s s' : Dict (List Payload))
      → Appended q p n (rpush q p s) s'
      → Appended q p (suc n) s s'
  Appended-step q p n s s' (at, other) = (
    at
        ∙ (ap (λ ps. ps ++ copies n p) (Appended-rpush q p s).0
            ∙ append_assoc (queue_of q s) (p ∷ []) (copies n p)),
    λ j d. ground (arith, other j d, queue_of-rpush q j p s),
  )

  Appended-same : (q : ℕ) (p : Payload) (s : Dict (List Payload)) → Appended q p 0 s s
  Appended-same q p s = (sym (append-nil (queue_of q s)), λ j d. refl)

  -- The queues that a push leaves, the exchanges that have been made by then, and the copies that it owes.
  abbrev store : Sent Payload → Dict (List Payload)
  store (sent t s) = s
  store (unsent t s) = s

  abbrev final : Sent Payload → ℕ
  final (sent t s) = t.exchanges
  final (unsent t s) = t.exchanges

  abbrev owed : Sent Payload → ℕ
  owed (sent t s) = 1
  owed (unsent t s) = 0

  module _ (link : ℕ → Bool) (taken : ℕ → Unanswered) where
    -- The ends of one round of a push, and the ways to go on.
    push_round :
        (fuel q : ℕ) (p : Payload) (t : Transport) (s : Dict (List Payload)) (r : Sent Payload)
        → push_payload link taken (suc fuel) q p t s ≡ some r
        → let a = (is_connected link t).1 in
          ((store r ≡ rpush q p s) × (owed r ≡ 1) × ((next a).exchanges ≤ final r))
          ⊎ (((store r ≡ s) × (owed r ≡ 0) × (a.exchanges ≤ final r))
              ⊎ (((store r ≡ rpush q p s)
                    × (owed r ≡ 0)
                    × ((next a).exchanges ≤ final r)
                    × (link a.exchanges ≡ false)
                    × ((taken a.exchanges).carried ≡ true))
                  ⊎ ((push_payload link taken fuel q p (after (attempt_reconnect link a) a) s
                        ≡ some r)
                      ⊎ ((push_payload link taken fuel q p
                              (after (attempt_reconnect link (next a)) (next a))
                              s
                            ≡ some r)
                          ⊎ ((push_payload link taken fuel q p
                                  (after (attempt_reconnect link (next a)) (next a))
                                  (rpush q p s)
                                ≡ some r)
                              × (link a.exchanges ≡ false)
                              × ((taken a.exchanges).carried ≡ true))))))
    unfolding push_payload
    push_round fuel q p t s r e = ground arith

    -- The push has left one copy more than it owes for each of these exchanges.
    abbrev pub Pushed : ℕ → Payload → Transport → Dict (List Payload) → Sent Payload → Type 0
    Pushed q p t s r =
        (ns : List ℕ) × Appended q p (length ns + owed r) s (store r)
        × Lost link taken t.exchanges (final r) ns
        × (t.exchanges ≤ final r)

    Pushed-later :
        (q : ℕ) (p : Payload) (t u : Transport) (s : Dict (List Payload)) (r : Sent Payload)
        → t.exchanges ≤ u.exchanges
        → Pushed q p u s r
        → Pushed q p t s r
    Pushed-later q p t u s r l (ns, added, lost, after_u) = (
      ns,
      added,
      Lost-earlier link taken t.exchanges u.exchanges (final r) ns l lost,
      omega (arith, l, after_u),
    )

    Pushed-step :
        (n q : ℕ) (p : Payload) (t u : Transport) (s : Dict (List Payload)) (r : Sent Payload)
        → t.exchanges ≤ n
        → suc n ≤ u.exchanges
        → link n ≡ false
        → (taken n).carried ≡ true
        → Pushed q p u (rpush q p s) r
        → Pushed q p t s r
    Pushed-step n q p t u s r l m out done (ns, added, lost, after_u) = (
      n ∷ ns,
      subst (λ k. Appended q p k s (store r)) {x = suc (length ns + owed r)} (omega arith)
          (Appended-step q p (length ns + owed r) s (store r) added),
      (
        l,
        omega (arith, m, after_u),
        out,
        done,
        Lost-earlier link taken (suc n) u.exchanges (final r) ns m lost,
      ),
      omega (arith, l, m, after_u),
    )

    -- Whatever the link does: a push that ends has appended its payload once, and a push that ends with
    -- an exception has not; besides, it has left one more copy for each of some of the exchanges made between its
    -- begin and its end, none of them counted twice, which were not answered but carried out all the same. It
    -- touches no other queue.
    pub push_payload_lem :
        (fuel q : ℕ) (p : Payload) (t : Transport) (s : Dict (List Payload)) (r : Sent Payload)
        → push_payload link taken fuel q p t s ≡ some r
        → Pushed q p t s r
    push_payload_lem zero q p t s r e = absurd (unfold push_payload in ground arith)
    push_payload_lem (suc fuel) q p t s r e =
        let a = (is_connected link t).1 in
        let first = is_connected_later link t in
        let second = reconnect_later link a in
        let third = next_later link a in
        let one = next_exchanges link a in
        let b = after (attempt_reconnect link a) a in
        let c = after (attempt_reconnect link (next a)) (next a) in
        elim (push_round fuel q p t s r e) [
          | inl (st, o, l) ↦
              ([], rw (st, o) (Appended-rpush q p s), tt, omega (arith, first, one, l))
          | inr (inl (st, o, l)) ↦
              ([], rw (st, o) (Appended-same q p s), tt, omega (arith, first, l))
          | inr (inr (inl (st, o, l, h, done))) ↦ (
            a.exchanges ∷ [],
            rw (st, o) (Appended-rpush q p s),
            (first, omega (arith, one, l), h, done, tt),
            omega (arith, first, one, l),
          )
          | inr (inr (inr (inl e'))) ↦
              Pushed-later q p t b s r (omega (arith, first, second))
                (push_payload_lem fuel q p b s r e')
          | inr (inr (inr (inr (inl e')))) ↦
              Pushed-later q p t c s r (omega (arith, first, third))
                (push_payload_lem fuel q p c s r e')
          | inr (inr (inr (inr (inr (e', h, done))))) ↦
              Pushed-step a.exchanges q p t c s r first third h done
                (push_payload_lem fuel q p c (rpush q p s) r e')
        ]
