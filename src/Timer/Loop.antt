-- ===== src/Timer/Loop.antt =====
-- commlib/timer.py: the events of a Timer. A time is whatever `time.time()` returns, with its own sum and
-- difference; what the clock and the sleep do in each turn of the loop is given.
use commlib_py.Prelude.{Bool, Option, none, some, List, [], ◌∷◌, if◌then◌else◌}

pub record TimerEvent (Time : Type 0) : Type 0 where
  pub last_expected : Option Time
  pub last_real : Option Time
  pub current_expected : Time
  pub current_real : Time
  pub last_duration : Option Time

-- One turn of the loop: the sleep is interrupted from the keyboard, or the timer finds itself shut down, or
-- it calls the callback, which returns at the second time or raises.
pub data Turn (Time : Type 0) : Type 0 where
  interrupted shut_down : Turn Time
  fires : Time → Time → Turn Time
  raises : Time → Turn Time

-- The variables of the loop between two turns.
pub record Expected (Time : Type 0) : Type 0 where
  pub current : Time
  pub expected_before : Option Time
  pub real_before : Option Time
  pub duration_before : Option Time

module _ {Time : Type 0} where
  -- `TimerEvent(...)`
  unfoldable pub event_of : Expected Time → Time → TimerEvent Time
  event_of x start = record {
    last_expected = x.expected_before;
    last_real = x.real_before;
    current_expected = x.current;
    current_real = start;
    last_duration = x.duration_before;
  }

  module _ (plus minus : Time → Time → Time) (period : Time) where
    -- the end of a turn
    unfoldable pub advance : Time → Time → Expected Time → Expected Time
    advance start finish x = record {
      current = plus x.current period;
      expected_before = some x.current;
      real_before = some start;
      duration_before = some (minus finish start);
    }

    -- The loop of `run`: the events that the callback is given.
    unfoldable pub fire_loop : Bool → List (Turn Time) → Expected Time → List (TimerEvent Time)
    unfolding event_of advance
    fire_loop oneshot [] x = []
    fire_loop oneshot (interrupted ∷ turns) x = []
    fire_loop oneshot (shut_down ∷ turns) x = []
    fire_loop oneshot (raises start ∷ turns) x = event_of x start ∷ []
    fire_loop oneshot (fires start finish ∷ turns) x =
        let rest = fire_loop oneshot turns (advance start finish x) in
        event_of x start ∷ (if oneshot then [] else rest)

    -- run, from the time at which it begins
    unfoldable pub run : Bool → Time → List (Turn Time) → List (TimerEvent Time)
    unfolding fire_loop
    run oneshot now turns = fire_loop oneshot turns (record {
      current = plus now period;
      expected_before = none;
      real_before = none;
      duration_before = none;
    })
