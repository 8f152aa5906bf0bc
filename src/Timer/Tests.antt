-- ===== src/Timer/Tests.antt =====
-- A timer with a period of 10, and the theorem at that input.
use commlib_py.Prelude.{ℕ, ◌+◌, ◌-◌, ◌≡◌, ◌≤◌, refl, true, false, none, some, List, [], ◌∷◌, length}
use commlib_py.Timer.Loop.{Turn, shut_down, fires, event_of, advance, fire_loop, run}
use commlib_py.Timer.Links.{Linked, run-Linked}

program : Unit {0}
unfolding event_of advance fire_loop run
program = tt

abbrev plus : ℕ → ℕ → ℕ
plus a b = a + b

abbrev minus : ℕ → ℕ → ℕ
minus a b = a - b

abbrev turns : List (Turn ℕ)
turns = fires 11 13 ∷ fires 21 21 ∷ shut_down ∷ fires 40 40 ∷ []

fires_twice :
    run plus minus 10 false 0 turns
    ≡ record {
      last_expected = none;
      last_real = none;
      current_expected = 10;
      current_real = 11;
      last_duration = none;
    }
      ∷ record {
        last_expected = some 10;
        last_real = some 11;
        current_expected = 20;
        current_real = 21;
        last_duration = some 2;
      }
      ∷ []
unfolding program
fires_twice = refl

run-Linked_example :
    Linked plus minus 10 none none 10 (run plus minus 10 false 0 turns)
    × (length (run plus minus 10 true 0 turns) ≤ 1)
run-Linked_example = run-Linked plus minus 10 false 0 turns
