-- ===== src/Rpc/Comm.antt =====
-- commlib/rpc.py and commlib/transports/redis.py: the one `_comm_obj` of a service.
-- The threads of the executor answer through it: `_send_response` writes the response's data into the
-- shared object, and then dumps it and pushes the dump to the request's `reply_to`. Another thread can
-- come between.
use commlib_py.Prelude.{ℕ, ◌≡◌, refl, ◌∙◌, List, [], ◌∷◌, ◌++◌, map, sym, append-nil, append_assoc}

-- A response on its way.
pub record Response (Value : Type 0) : Type 0 where
  pub reply_to : ℕ
  pub fields : Value

pub record Comm (Value : Type 0) : Type 0 where
  -- `self._comm_obj.data`
  pub comm_data : Value
  -- the data pushed, with their queues
  pub pushed : List (ℕ × Value)

pub data Move (Value : Type 0) : Type 0 where
  write : Response Value → Move Value
  push : Response Value → Move Value

module _ {Value : Type 0} where
  unfoldable pub act : Move Value → Comm Value → Comm Value
  act (write r) c = record c { comm_data = r.fields }
  act (push r) c = record c { pushed = c.pushed ++ (r.reply_to, c.comm_data) ∷ [] }

  unfoldable pub act_all : List (Move Value) → Comm Value → Comm Value
  unfolding act
  act_all [] c = c
  act_all (a ∷ more) c = act_all more (act a c)

  -- `_send_response`, without another thread between
  abbrev pub send_response : Response Value → List (Move Value)
  send_response r = write r ∷ push r ∷ []

  abbrev pub in_turn : List (Response Value) → List (Move Value)
  in_turn [] = []
  in_turn (r ∷ rs) = send_response r ++ in_turn rs

  act_all-in_turn :
      (rs : List (Response Value)) (c : Comm Value)
      → (act_all (in_turn rs) c).pushed ≡ c.pushed ++ map (λ r. (r.reply_to, r.fields)) rs
  unfolding act_all
  act_all-in_turn [] c = sym (append-nil c.pushed)
  act_all-in_turn (r ∷ rs) c =
      act_all-in_turn rs
        (record { comm_data = r.fields; pushed = c.pushed ++ (r.reply_to, r.fields) ∷ [] })
      ∙ append_assoc c.pushed ((r.reply_to, r.fields) ∷ []) (map (λ x. (x.reply_to, x.fields)) rs)

  -- Responses that are sent one after the other reach their own queues with their own data. If a second
  -- thread writes before the first one has pushed, the first caller receives the second's data.
  pub send_response_overlap :
      (rs : List (Response Value)) (a b : Response Value) (c : Comm Value)
      → ((act_all (in_turn rs) c).pushed ≡ c.pushed ++ map (λ r. (r.reply_to, r.fields)) rs)
        × ((act_all (write a ∷ write b ∷ push a ∷ push b ∷ []) c).pushed
            ≡ (c.pushed ++ (a.reply_to, b.fields) ∷ []) ++ (b.reply_to, b.fields) ∷ [])
  unfolding act_all
  send_response_overlap rs a b c = (act_all-in_turn rs c, refl)
