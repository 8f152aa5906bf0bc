-- ===== src/Kafka/Replies.antt =====
-- commlib/transports/kafka.py: which reply a call of RPCClient returns.
use commlib_py.Prelude.{
  ℕ, ◌≡◌, ◌≢◌, refl, ◌==◌, Option-cases, inl, inr, Option, none, some, List, [], ◌∷◌, arith,
  if◌then◌else◌,
}
use commlib_py.Prelude.Dict.{get, put, get-put, get-remove}
use commlib_py.Kafka.Client.{
  Called, returned, timed_out, KafkaClient, Event, stamps, begins, replies, ends, garbled, stamp,
  begin_call, on_reply, end_call, happen, happen_all,
}

module _ {Value : Type 0} where
  -- Neither a begin under the id n or with the entry m, nor an end under the id n.
  abbrev pub IsBetween : ℕ → ℕ → KafkaClient Value → Event Value → Type 0
  IsBetween n m c (begins k) = (k ≢ m) × (c.comm_id ≢ some n)
  IsBetween n m c (ends k j) = k ≢ n
  IsBetween n m c (stamps k) = Unit
  IsBetween n m c (replies k fields) = Unit
  IsBetween n m c garbled = Unit

  -- All these events are, each where it comes.
  abbrev pub AllBetween : ℕ → ℕ → KafkaClient Value → List (Event Value) → Type 0
  AllBetween n m c [] = Unit
  AllBetween n m c (e ∷ more) = IsBetween n m c e × AllBetween n m (happen e c) more

  -- The last reply to this call among the events, or the one before them.
  abbrev pub last_reply : ℕ → List (Event Value) → Option Value → Option Value
  last_reply n [] before = before
  last_reply n (replies m fields ∷ more) before =
      last_reply n more (if m == n then some fields else before)
  last_reply n (stamps m ∷ more) before = last_reply n more before
  last_reply n (begins m ∷ more) before = last_reply n more before
  last_reply n (ends m k ∷ more) before = last_reply n more before
  last_reply n (garbled ∷ more) before = last_reply n more before

  abbrev pub outcome : Option Value → Called Value
  outcome none = timed_out
  outcome (some fields) = returned fields

  -- The entry m stands under the id n alone, with this answer.
  abbrev Own : ℕ → ℕ → Option Value → KafkaClient Value → Type 0
  Own n m answer c =
      (get n c.pending ≡ some m)
      × (get m c.entries ≡ some answer)
      × ((k : ℕ) → get k c.pending ≡ some m → k ≡ n)

  happen-Own :
      (n m : ℕ) (e : Event Value) (c : KafkaClient Value) (answer : Option Value)
      → IsBetween n m c e
      → Own n m answer c
      → Own n m (last_reply n (e ∷ []) answer) (happen e c)
  unfolding happen stamp begin_call on_reply end_call
  happen-Own n m (stamps k) c answer b own = own
  happen-Own n m (begins k) c answer (other, apart) (p, e, alone) = elim (Option-cases c.comm_id) [
    | inl unset ↦ (
      ground (arith, unset, p),
      ground (arith, unset, e),
      λ j g. alone j (ground (arith, unset, g)),
    )
    | inr (id, is) ↦ (
      ground (arith, is, p, apart, get-put id n k c.pending),
      ground (arith, is, e, other, get-put k m none c.entries),
      λ j g. ground (arith, is, g, other, alone j, get-put id j k c.pending),
    )
  ]
  happen-Own n m (replies k fields) c answer b (p, e, alone) =
      elim (Option-cases (get k c.pending)) [
        | inl unknown ↦ (
          ground (arith, unknown, p),
          ground (arith, unknown, e, p),
          λ j g. alone j (ground (arith, unknown, g)),
        )
        | inr (entry, is) ↦ (
          ground (arith, is, p),
          ground (arith, is, e, p, alone k, get-put entry m (some fields) c.entries),
          λ j g. alone j (ground (arith, is, g)),
        )
      ]
  happen-Own n m (ends k j) c answer b (p, e, alone) = (
    ground (arith, p, b, get-remove k n c.pending),
    ground (arith, e),
    λ i g. alone i (ground (arith, g, get-remove k i c.pending)),
  )
  happen-Own n m garbled c answer b own = own

  last_reply-cons :
      (n : ℕ) (e : Event Value) (more : List (Event Value)) (before : Option Value)
      → last_reply n (e ∷ more) before ≡ last_reply n more (last_reply n (e ∷ []) before)
  last_reply-cons n (stamps m) more before = refl
  last_reply-cons n (begins m) more before = refl
  last_reply-cons n (replies m fields) more before = refl
  last_reply-cons n (ends m k) more before = refl
  last_reply-cons n garbled more before = refl

  happen_all-Own :
      (n m : ℕ) (events : List (Event Value)) (c : KafkaClient Value) (answer : Option Value)
      → AllBetween n m c events
      → Own n m answer c
      → Own n m (last_reply n events answer) (happen_all events c)
  unfolding happen_all
  happen_all-Own n m [] c answer b own = own
  happen_all-Own n m (e ∷ more) c answer (b, bs) own = rw (last_reply-cons n e more answer) (
      happen_all-Own n m more (happen e c) (last_reply n (e ∷ []) answer) bs
        (happen-Own n m e c answer b own))

  end_call_entry :
      (n m : ℕ) (answer : Option Value) (c : KafkaClient Value) (late : Value)
      → Own n m answer c
      → ((end_call n m c).0 ≡ outcome answer)
        × (get n (end_call n m c).1.pending ≡ none)
        × (on_reply n late (end_call n m c).1 ≡ (end_call n m c).1)
  unfolding end_call on_reply
  end_call_entry n m answer c late (p, e, alone) = ground (arith, p, e, get-remove n n c.pending)

  -- A call with a new entry that reads its id back from the message before another call stamps the message, while no
  -- other call begins or ends under the same id: it ends with the last reply under its id that came since it began,
  -- and with a time-out if there was none, whatever other calls and replies come in between and in which order; its
  -- id is no longer pending then, and a reply that comes later changes nothing.
  pub end_call-begin_call :
      (n m : ℕ) (events : List (Event Value)) (c : KafkaClient Value) (late : Value)
      → ((k : ℕ) → get k c.pending ≢ some m)
      → AllBetween n m (begin_call m (stamp n c)) events
      → let after = happen_all events (begin_call m (stamp n c)) in
        ((end_call n m after).0 ≡ outcome (last_reply n events none))
        × (get n (end_call n m after).1.pending ≡ none)
        × (on_reply n late (end_call n m after).1 ≡ (end_call n m after).1)
  unfolding begin_call stamp
  end_call-begin_call n m events c late fresh b =
      let begun = begin_call m (stamp n c) in
      end_call_entry n m (last_reply n events none) (happen_all events begun) late (
        happen_all-Own n m events begun none b (
          ground (arith, get-put n n m c.pending),
          ground (arith, get-put m m none c.entries),
          λ k g. ground (arith, g, fresh k, get-put n k m c.pending),
        ))

  -- Two calls that both stamp the message before either reads its id back begin under the second one's id: a reply
  -- under that id reaches the second entry only, and none is pending under the first id.
  pub begin_call_shared :
      (n1 n2 m1 m2 : ℕ) (c : KafkaClient Value) (fields : Value)
      → n1 ≢ n2
      → m1 ≢ m2
      → get n1 c.pending ≡ none
      → let both = begin_call m2 (begin_call m1 (stamp n2 (stamp n1 c))) in
        (get n1 both.pending ≡ none)
        × (get m1 (on_reply n2 fields both).entries ≡ some none)
        × (get m2 (on_reply n2 fields both).entries ≡ some (some fields))
  unfolding begin_call stamp on_reply
  begin_call_shared n1 n2 m1 m2 c fields d e h =
      let ms = put m2 none (put m1 none c.entries) in
      let pending : get n2 (put n2 m2 (put n2 m1 c.pending)) ≡ some m2 =
        ground (arith, get-put n2 n2 m2 (put n2 m1 c.pending)) in
      (
        ground (arith, d, h, get-put n2 n1 m2 (put n2 m1 c.pending), get-put n2 n1 m1 c.pending),
        ground (
          arith,
          e,
          pending,
          get-put m2 m1 (some fields) ms,
          get-put m2 m1 none (put m1 none c.entries),
          get-put m1 m1 none c.entries,
        ),
        ground (arith, pending, get-put m2 m2 (some fields) ms),
      )
