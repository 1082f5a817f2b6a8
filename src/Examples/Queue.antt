-- ===== src/Examples/Queue.antt =====
-- The event queue at concrete inputs.
use strata_exec.Prelude.{◌≡◌, refl, some, [], ◌∷◌}
use mathlib.Core.List.{Perm}
use strata_exec.Prelude.Int.{ℤ}
use strata_exec.Float.{lit}
use strata_exec.Float.Fixed.{fixed_float, fixed_rounding, fixed_lit}
use strata_exec.Events.{time_tick, simulation_end}
use strata_exec.Events.Queue.{EventQueue, TimestampedEvent, new_queue, schedule, pop, len}
use strata_exec.Events.Queue.Laws.{IsValid, new_queue-IsValid, schedule-IsValid}
use strata_exec.Events.Queue.Order.{PopSpec, pop_first}
use strata_exec.Events.Queue.Drain.{IsOrdered, drain, drain_sorts}

-- Two ticks of one time, and the end that comes before them.
abbrev two_ticks : EventQueue ℤ
two_ticks = schedule (schedule new_queue (lit 2 0) (time_tick 7)) (lit 2 0) (time_tick 8)

abbrev three : EventQueue ℤ
three = schedule two_ticks (lit 1 0) simulation_end

three-IsValid : IsValid three
three-IsValid = schedule-IsValid two_ticks (lit 1 0) simulation_end (
    schedule-IsValid (schedule new_queue (lit 2 0) (time_tick 7)) (lit 2 0) (time_tick 8)
      (schedule-IsValid new_queue (lit 2 0) (time_tick 7) new_queue-IsValid))

abbrev first_out : TimestampedEvent ℤ
first_out = record { time = lit 1 0; seq = 2; event = simulation_end }

abbrev ticks_left : EventQueue ℤ
ticks_left = record {
  heap =
      record { time = lit 2 0; seq = 0; event = time_tick 7 }
      ∷ record { time = lit 2 0; seq = 1; event = time_tick 8 }
      ∷ [];
  next_seq = 3;
}

pop-three : pop three ≡ some (first_out, ticks_left)
unfolding pop schedule new_queue fixed_lit
pop-three = refl

pop_first_example : PopSpec three first_out ticks_left
pop_first_example = pop_first three three-IsValid pop-three

drain_sorts_example :
    IsOrdered (drain (len three) three) × Perm three.heap (drain (len three) three)
drain_sorts_example = drain_sorts three three-IsValid
