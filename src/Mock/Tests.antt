-- ===== src/Mock/Tests.antt =====
-- Runs of the bus on small inputs, and the theorems at inputs where their hypotheses hold.
use commlib_py.Prelude.{ℕ, ◌≡◌, refl, true, false, some, [], ◌∷◌}
use commlib_py.Prelude.Dict.{get, put}
use commlib_py.Mock.Bus.{
  Bus, Subscriber, entry_of, remove_first, contains, call_all, publish, subscribe, unsubscribe,
  run_subscriber, stop_subscriber,
}

abbrev bus : Bus ℕ
bus = record { messages = []; subscribers = (1, 5 ∷ 6 ∷ []) ∷ []; heard = [] }

abbrev subscriber : Subscriber
subscriber = record {
  id = 8;
  topic = 1;
  has_onmessage = true;
  callback_registered = false;
  transport_connected = false;
  connected_state = false;
  stop_event = false;
}

program : Unit {0}
unfolding publish subscribe unsubscribe call_all entry_of remove_first contains run_subscriber
    stop_subscriber get put
program = tt

unsubscribed : (publish 1 9 (unsubscribe 1 (some 5) bus)).heard ≡ (6, 9) ∷ []
unfolding program
unsubscribed = refl

abbrev first : Subscriber × Bus ℕ
first = run_subscriber subscriber bus

abbrev stopped : Subscriber × Bus ℕ
stopped = stop_subscriber first.0 first.1
