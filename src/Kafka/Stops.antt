-- ===== src/Kafka/Stops.antt =====
-- commlib/transports/kafka.py: `stop` closes every consumer that the transport has made.
use commlib_py.Prelude.{
  ℕ, zero, suc, ◌+◌, ◌≡◌, refl, ap, ◌∙◌, Bool, true, false, ◌==◌, List, [], ◌∷◌, if◌then◌else◌,
  arith,
}
use commlib_py.Kafka.Transport.{
  KafkaCall, KafkaTransport, log, flush_all, join_all, close_all, stop_all, stop,
}

-- How often a number stands in a list, and among the consumers of subscribers.
unfoldable pub occurs : ℕ → List ℕ → ℕ
occurs c [] = zero
occurs c (d ∷ ds) = if d == c then suc (occurs c ds) else occurs c ds

unfoldable pub occurs_first : ℕ → List (ℕ × ℕ) → ℕ
occurs_first c [] = zero
occurs_first c ((d, x) ∷ ds) = if d == c then suc (occurs_first c ds) else occurs_first c ds

module _ {Payload : Type 0} where
  unfoldable pub closing : ℕ → KafkaCall Payload → Bool
  closing c (KafkaCall.closes d) = d == c
  closing c (KafkaCall.flushes d) = false
  closing c (KafkaCall.joins d) = false
  closing c (KafkaCall.reads d) = false
  closing c (KafkaCall.makes_producer d) = false
  closing c (KafkaCall.makes_consumer d g) = false
  closing c (KafkaCall.ensures d) = false
  closing c (KafkaCall.subscribes d x) = false
  closing c (KafkaCall.produces p topic key payload) = false

  unfoldable pub making : ℕ → KafkaCall Payload → Bool
  making c (KafkaCall.makes_consumer d g) = d == c
  making c (KafkaCall.flushes d) = false
  making c (KafkaCall.closes d) = false
  making c (KafkaCall.joins d) = false
  making c (KafkaCall.reads d) = false
  making c (KafkaCall.makes_producer d) = false
  making c (KafkaCall.ensures d) = false
  making c (KafkaCall.subscribes d x) = false
  making c (KafkaCall.produces p topic key payload) = false

  -- How often a consumer has been closed, and made.
  unfoldable pub closings : ℕ → List (KafkaCall Payload) → ℕ
  unfolding closing
  closings c [] = zero
  closings c (e ∷ es) = if closing c e then suc (closings c es) else closings c es

  unfoldable pub makings : ℕ → List (KafkaCall Payload) → ℕ
  unfolding making
  makings c [] = zero
  makings c (e ∷ es) = if making c e then suc (makings c es) else makings c es

  -- A loop of `stop`: what it adds to the closings of c, and what it leaves.
  abbrev pub Adds : ℕ → ℕ → KafkaTransport Payload → KafkaTransport Payload → Type 0
  Adds c n t u =
      (closings c u.calls ≡ closings c t.calls + n)
      × (makings c u.calls ≡ makings c t.calls)
      × (u.consumers ≡ t.consumers)
      × (u.subscribers ≡ t.subscribers)
      × (u.producer ≡ t.producer)

  flush_all-Adds : (c : ℕ) (ps : List ℕ) (t : KafkaTransport Payload) → Adds c 0 t (flush_all ps t)
  unfolding flush_all log closings closing makings making
  flush_all-Adds c [] t = (omega arith, refl, refl, refl, refl)
  flush_all-Adds c (p ∷ ps) t = flush_all-Adds c ps (log (KafkaCall.flushes p) t)

  close_all-Adds :
      (c : ℕ) (cs : List ℕ) (t : KafkaTransport Payload) → Adds c (occurs c cs) t (close_all cs t)
  unfolding close_all log closings closing makings making occurs
  close_all-Adds c [] t = (omega arith, refl, refl, refl, refl)
  close_all-Adds c (d ∷ cs) t =
      let (k, m, x, s, p) = close_all-Adds c cs (log (KafkaCall.closes d) t) in
      (ground (arith, k), m, x, s, p)

  join_all-Adds :
      (c : ℕ) (cs : List (ℕ × ℕ)) (t : KafkaTransport Payload)
      → Adds c (occurs_first c cs) t (join_all cs t)
  unfolding join_all log closings closing makings making occurs_first
  join_all-Adds c [] t = (omega arith, refl, refl, refl, refl)
  join_all-Adds c ((d, callback) ∷ cs) t =
      let (k, m, x, s, p) =
        join_all-Adds c cs (log (KafkaCall.closes d) (log (KafkaCall.joins d) t)) in
      (ground (arith, k), m, x, s, p)

  pub stop_all_adds :
      (c : ℕ) (t : KafkaTransport Payload)
      → (closings c (stop_all t).calls
          ≡ closings c t.calls + occurs_first c t.subscribers + occurs c t.consumers)
        × (makings c (stop_all t).calls ≡ makings c t.calls)
        × ((stop_all t).producer ≡ t.producer)
        × ((stop_all t).subscribers ≡ [])
  unfolding stop_all
  stop_all_adds c t =
      let t1 = record (flush_all t.producers t) { producers = [] } in
      let t2 = record (join_all t1.subscribers t1) { subscribers = [] } in
      let (k1, m1, c1, s1, p1) = flush_all-Adds c t.producers t in
      let (k2, m2, c2, s2, p2) = join_all-Adds c t1.subscribers t1 in
      let (k3, m3, c3, s3, p3) = close_all-Adds c t2.consumers t2 in
      let subs = ap (occurs_first c) s1 in
      let cons = ap (occurs c) (c2 ∙ c1) in
      (omega (arith, k1, k2, k3, subs, cons), m3 ∙ m2 ∙ m1, p3 ∙ p2 ∙ p1, s3)

  -- A connected transport that is stopped closes each consumer once for its place among the consumers,
  -- and once more for each subscription that reads from it; then it keeps no consumer and no subscription,
  -- and is not connected.
  pub stop-closings :
      (c : ℕ) (t : KafkaTransport Payload)
      → t.connected ≡ true
      → (closings c (stop t).calls
          ≡ closings c t.calls + occurs_first c t.subscribers + occurs c t.consumers)
        × ((stop t).consumers ≡ [])
        × ((stop t).subscribers ≡ [])
        × ((stop t).connected ≡ false)
  stop-closings c t h =
      let same : stop t ≡ stop_all t = unfold stop in ground (arith, h) in
      (
        ap (λ (u : KafkaTransport Payload). closings c u.calls) same ∙ (stop_all_adds c t).0,
        ap (λ (u : KafkaTransport Payload). u.consumers) same ∙ unfold stop_all in refl,
        ap (λ (u : KafkaTransport Payload). u.subscribers) same ∙ (stop_all_adds c t).3,
        ap (λ (u : KafkaTransport Payload). u.connected) same ∙ unfold stop_all in refl,
      )
