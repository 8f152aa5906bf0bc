-- ===== src/Kafka/Tests.antt =====
-- Two calls at once over Kafka, and the theorem at an input where its hypotheses hold.
use commlib_py.Prelude.{ℕ, ◌≡◌, none, List, [], ◌∷◌, arith}
use commlib_py.Prelude.Dict.{get, put, remove}
use commlib_py.Kafka.Client.{
  returned, KafkaClient, Event, stamps, begins, replies, ends, garbled, stamp, begin_call, on_reply,
  end_call, happen, happen_all,
}
use commlib_py.Kafka.Replies.{end_call-begin_call}

program : Unit {0}
unfolding get put remove stamp begin_call on_reply end_call happen happen_all
program = tt

abbrev new_client : KafkaClient ℕ
new_client = record { comm_id = none; pending = []; entries = [] }

-- The call under the id 1 with the entry 7 has begun.
abbrev begun : KafkaClient ℕ
begun = begin_call 7 (stamp 1 new_client)

-- Another call, under the id 2 with the entry 8, comes in between.
abbrev meanwhile : List (Event ℕ)
meanwhile = stamps 2 ∷ begins 8 ∷ replies 2 20 ∷ garbled ∷ replies 1 10 ∷ ends 2 8 ∷ []

end_call-begin_call_example :
    ((end_call 1 7 (happen_all meanwhile begun)).0 ≡ returned 10)
    × (get 1 (end_call 1 7 (happen_all meanwhile begun)).1.pending ≡ none)
    × (on_reply 1 5 (end_call 1 7 (happen_all meanwhile begun)).1
        ≡ (end_call 1 7 (happen_all meanwhile begun)).1)
unfolding program
end_call-begin_call_example =
    end_call-begin_call 1 7 meanwhile new_client 5 (λ k e. ground arith)
      (tt, ((ground arith, ground arith), (tt, (tt, (tt, (ground arith, tt))))))
