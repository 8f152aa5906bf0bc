-- ===== src/Bridges/Processors.antt =====
-- commlib/aggregation.py: the chains of processors of TopicMessageProcessor and TopicAggregator.
-- A value is what a processor takes and returns, `is_dict` its test, and `accepted` whether the publisher
-- takes it; if not, `publish` raises what `on_msg_internal` catches, as for an invalid output topic.
use commlib_py.Prelude.{
  ℕ, ◌≡◌, refl, Bool, true, false, ◌&&◌, none, some, List, [], ◌∷◌, ◌++◌, All, arith, if◌then◌else◌,
}
use commlib_py.Prelude.Dict.{Dict, get}

-- How a processor ends: with a value, with a ValueError, TypeError or KeyError, or with another exception.
pub data Processed (Value : Type 0) : Type 0 where
  returns : Value → Processed Value
  raises raises_uncaught : Processed Value

-- What was published, and whether the call returned.
pub record Sent (Value : Type 0) : Type 0 where
  pub published : List Value
  pub returned : Bool

module _ {Value : Type 0} where
  unfoldable pub add : Value → Sent Value → Sent Value
  add v r = record r { published = v ∷ r.published }

  module _ (is_dict accepted : Value → Bool) where
    -- on_msg_internal, of both classes
    unfoldable pub on_msg_internal : List (Value → Processed Value) → Value → Sent Value
    unfolding add
    on_msg_internal [] payload = record { published = []; returned = true }
    on_msg_internal (proc ∷ more) payload = elim (proc payload) [
      | raises_uncaught ↦ record { published = []; returned = false }
      | raises ↦ on_msg_internal more payload
      | returns v ↦
          let after = on_msg_internal more v in
          if is_dict v && accepted v then add v after else after
    ]

    -- TopicAggregator.create_subscriptions: what a message of this topic meets
    unfoldable pub on_topic : Dict (List (Value → Processed Value)) → ℕ → Value → Sent Value
    unfolding on_msg_internal
    on_topic data_processors topic payload = elim (get topic data_processors) [
      | none ↦ on_msg_internal [] payload
      | some ps ↦ on_msg_internal ps payload
    ]

  -- The payload that a chain passes on: what the last processor that returned has returned.
  abbrev pub passed_on : List (Value → Processed Value) → Value → Value
  passed_on [] payload = payload
  passed_on (proc ∷ more) payload = elim (proc payload) [
    | raises_uncaught ↦ payload
    | raises ↦ passed_on more payload
    | returns v ↦ passed_on more v
  ]

  module _ (is_dict accepted : Value → Bool) where
    -- A chain of processors in two parts: if the first part does not raise what is not caught, the second
    -- part goes on from the payload that the first part passed on, and otherwise it is not run.
    pub on_msg_internal-append :
        (ps qs : List (Value → Processed Value)) (payload : Value)
        → let first = on_msg_internal is_dict accepted ps payload in
          let second = on_msg_internal is_dict accepted qs (passed_on ps payload) in
          on_msg_internal is_dict accepted (ps ++ qs) payload ≡ (
            if first.returned
            then record {
              published = first.published ++ second.published;
              returned = second.returned;
            }
            else first)
    unfolding on_msg_internal add
    on_msg_internal-append [] qs payload = refl
    on_msg_internal-append (p ∷ ps) qs payload =
        grind (
          arith,
          on_msg_internal-append ps qs payload,
          λ (v : Value). on_msg_internal-append ps qs v,
        )

    only_raising :
        (more : List (Value → Processed Value)) (v : Value)
        → All (λ q. q v ≡ raises) more
        → on_msg_internal is_dict accepted more v ≡ record { published = []; returned = true }
    unfolding on_msg_internal
    only_raising [] v r = refl
    only_raising (q ∷ more) v (h, r) = rw h (only_raising more v r)

    -- A processor that returns no dict is not left out as one that raises is: what it returned is the
    -- payload of the processors after it. If they raise on it, nothing of the message is published,
    -- whatever they make of its own payload.
    pub on_msg_internal_rejected :
        (p : Value → Processed Value) (more : List (Value → Processed Value)) (payload v : Value)
        → p payload ≡ returns v
        → is_dict v ≡ false
        → All (λ q. q v ≡ raises) more
        → (on_msg_internal is_dict accepted (p ∷ more) payload
            ≡ record { published = []; returned = true })
          × (on_msg_internal is_dict accepted ((λ x. raises) ∷ more) payload
              ≡ on_msg_internal is_dict accepted more payload)
    unfolding on_msg_internal add
    on_msg_internal_rejected p more payload v e d r = (ground (arith, only_raising more v r), refl)
