-- ===== src/Timer/Links.antt =====
-- commlib/timer.py: how the events of a timer follow each other.
use commlib_py.Prelude.{
  ◌≡◌, ◌≤◌, refl, Bool, true, false, Option, none, some, List, [], ◌∷◌, arith, length,
}
use commlib_py.Timer.Loop.{
  TimerEvent, Turn, interrupted, shut_down, fires, raises, Expected, event_of, advance, fire_loop,
  run,
}

module _ {Time : Type 0} (plus minus : Time → Time → Time) (period : Time) where
  -- The first event has what the loop expects, and each other one tells of the event before it and comes a
  -- period later.
  abbrev pub Linked : Option Time → Option Time → Time → List (TimerEvent Time) → Type 0
  Linked expected_before real_before current [] = Unit
  Linked expected_before real_before current (e ∷ es) =
      (e.last_expected ≡ expected_before)
      × (e.last_real ≡ real_before)
      × (e.current_expected ≡ current)
      × Linked (some e.current_expected) (some e.current_real) (plus e.current_expected period) es

  fire_loop-Linked :
      (oneshot : Bool) (turns : List (Turn Time)) (x : Expected Time)
      → Linked x.expected_before x.real_before x.current
          (fire_loop plus minus period oneshot turns x)
  unfolding fire_loop event_of advance
  fire_loop-Linked oneshot [] x = tt
  fire_loop-Linked oneshot (interrupted ∷ turns) x = tt
  fire_loop-Linked oneshot (shut_down ∷ turns) x = tt
  fire_loop-Linked oneshot (raises start ∷ turns) x = (refl, refl, refl, tt)
  fire_loop-Linked true (fires start finish ∷ turns) x = (refl, refl, refl, tt)
  fire_loop-Linked false (fires start finish ∷ turns) x =
      (refl, refl, refl, fire_loop-Linked false turns (advance plus minus period start finish x))

  fire_loop-length :
      (turns : List (Turn Time)) (x : Expected Time)
      → length (fire_loop plus minus period true turns x) ≤ 1
  unfolding fire_loop
  fire_loop-length [] x = omega arith
  fire_loop-length (interrupted ∷ turns) x = omega arith
  fire_loop-length (shut_down ∷ turns) x = omega arith
  fire_loop-length (raises start ∷ turns) x = omega arith
  fire_loop-length (fires start finish ∷ turns) x = omega arith

  -- The first event of a timer is expected a period after its start; each later one carries the expected and
  -- the real time of the event before it, and is expected exactly a period after that one was, however late
  -- that one was. A timer that fires once calls its callback at most once.
  pub run-Linked :
      (oneshot : Bool) (now : Time) (turns : List (Turn Time))
      → Linked none none (plus now period) (run plus minus period oneshot now turns)
        × (length (run plus minus period true now turns) ≤ 1)
  unfolding run
  run-Linked oneshot now turns =
      let x : Expected Time = record {
        current = plus now period;
        expected_before = none;
        real_before = none;
        duration_before = none;
      } in
      (fire_loop-Linked oneshot turns x, fire_loop-length turns x)
