-- ===== src/Motion/Examples.antt =====
-- The timer with a view that has arrived and one that has not.
use cardboard.Motion.Turn.{visits, wrap_advance}
use cardboard.Motion.Turn.Round.{visits-IsRound}
use cardboard.Base.Count.{count}
use cardboard.Base.{
  ◌≡◌, ◌<◌, ◌==◌, if◌then◌else◌, arith, some, List, true, ℕ, refl, false, [], ◌∷◌, ◌-◌, ◌*◌, ◌/◌,
  ◌+◌, ltb,
}
use cardboard.Base.Int.{pos}
use cardboard.View.{Task, no_callback}
use cardboard.Seat.Grab.{Grabbing}
use cardboard.Seat.Examples.{screen, wlroots, server, idle}
use cardboard.Cursor.Examples.{hovering, panels}
use cardboard.Motion.{Doubles}
use cardboard.Motion.Timer.{
  Floats, Frame, Queues, completeness, timer_callback, timer_callback-Queues,
}

abbrev pub whole : Doubles
whole = record {
  plus = λ a b. a + b;
  minus = λ a b. a - b;
  greater = λ a b. ltb b a;
  of_int = λ n. 0;
  to_int = pos;
}

-- Patterns that only tell whether an animation is at its end.
abbrev steps : Floats
steps = record {
  of_int = λ n. 0;
  of_count = λ n. n;
  to_int = pos;
  minus = λ a b. a - b;
  times = λ a b. a * b;
  over = λ a b. a / b;
  less = ltb;
  less_than_double = λ a b. ltb a 1;
  milliseconds = λ now begin. now - begin;
}

abbrev frame : Frame
frame = record { current_time = 200; animation_duration = 100 }

abbrev begun : ℕ → ℕ → Task
begun v time = record {
  view = v;
  startx = pos 0;
  starty = pos 0;
  targetx = pos 50;
  targety = pos 50;
  begin = time;
  animation_finished_callback = no_callback;
  cancelled = false;
}

abbrev moving : Grabbing
moving = record idle {
  server = record (server []) {
    scene = record ((server []).scene) { tasks = begun 7 50 ∷ begun 8 150 ∷ [] };
  };
}

timer_callback-Queues_example :
    Queues screen wlroots
      (λ x y. hovering)
      panels
      whole
      steps
      frame
      (begun 8 150 ∷ [])
      (timer_callback screen wlroots (λ x y. hovering) panels whole steps frame moving)
unfolding completeness
timer_callback-Queues_example =
    timer_callback-Queues screen wlroots (λ x y. hovering) panels whole steps frame moving
      (refl, (refl, tt))

-- Back from the second of four workspaces.
visits-IsRound_example :
    (is : List ℕ) × (visits 4 true 4 1 (wrap_advance 1 true 4) ≡ some is)
    × ((j : ℕ) → j < 4 → count j is ≡ (if j == 1 then 0 else 1))
visits-IsRound_example = visits-IsRound true 4 1 (omega arith)
