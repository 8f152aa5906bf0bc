-- ===== src/Amqp/Tests.antt =====
-- Calls over AMQP, and the theorems at inputs where their hypotheses hold.
use commlib_py.Prelude.{
  ℕ, ◌+◌, ◌≡◌, refl, true, false, ◌==◌, Option, none, some, List, [], ◌∷◌, if◌then◌else◌,
}
use commlib_py.Amqp.Client.{
  RpcClient, Answer, same_id, new_client, begin_call, wait_for_response, accepts, set_response,
  on_response_handle, Event, takes, stores, Handling, happen, happen_all,
}
use commlib_py.Amqp.Service.{
  Request, RpcService, Serving, responds, raises, invoke_onrequest_callback, send_response,
  on_request_callback, serve,
}

program : Unit {0}
unfolding same_id new_client begin_call wait_for_response accepts set_response on_response_handle
    happen happen_all invoke_onrequest_callback send_response on_request_callback serve
program = tt

abbrev read : ℕ → Option ℕ
read n = if n == 0 then none else some n

abbrev answer : ℕ → ℕ → Answer ℕ
answer id n = record { correlation_id = some id; body = n }

abbrev calling : RpcClient ℕ
calling = begin_call 2 (new_client true)

-- The client begins its call, while its handler has nothing in hand.
abbrev fresh_client : Handling ℕ ℕ
fresh_client = record { client = new_client true; in_hand = none }

abbrev begun : Handling ℕ ℕ
begun = record { client = calling; in_hand = none }

abbrev arrivals : List (Event ℕ)
arrivals = takes (answer 1 10) ∷ stores ∷ takes (answer 2 20) ∷ stores ∷ takes (answer 3 30) ∷ []

returns_own : wait_for_response (happen_all read 0 arrivals begun).client ≡ some 20
unfolding program
returns_own = refl

abbrev plain : RpcClient ℕ
plain = record calling { use_corr_id = false }

abbrev strict : RpcClient ℕ
strict = record calling { use_corr_id = true; corr_id = some 1 }

abbrev doubling : RpcService ℕ ℕ
doubling = record {
  decode = read;
  encode = λ n. some n;
  on_request = λ n. if n == 7 then raises else responds (n + n);
  empty = 1;
}

abbrev ask : ℕ → ℕ → Request ℕ
ask id n = record { correlation_id = some id; body = n }

abbrev two_workers : Serving ℕ
two_workers = record { max_workers = 2; unacked = 0; answered = [] }
