-- ===== src/Loop/Timer/Heartbeat.antt =====
-- src/timer/heartbeatobj.cpp with src/timer/timer.cpp: a HeartBeatObj has the number of its connection. The
-- wheel holds the only shared pointers to it, so that it is destroyed by the tick after which no slot
-- holds it; its destructor closes the connection, in the loop's thread.
pub mod Idle
use reactor_learn.Prelude.{
  ℕ, zero, suc, Bool, true, false, List, [], ◌∷◌, ◌||◌, ◌&&◌, not, if◌then◌else◌,
}
use reactor_learn.Loop.Timer.{Timer, tick, insert_in_thread}
use reactor_learn.Loop.Timer.Wheel.{has, Event, ticks_once, inserts}
use reactor_learn.Net.Connection
use reactor_learn.Net.Connection.{Connection}

pub record Heartbeats : Type 0 where
  pub timer : Timer
  pub connection : ℕ → Connection

-- Whether the object exists.
unfoldable pub in_wheel : ℕ → List (List ℕ) → Bool
in_wheel object [] = false
in_wheel object (x ∷ xs) = has object x || in_wheel object xs

-- `~HeartBeatObj`, after which the connection's weak pointer to it gives null.
unfoldable pub destroy_object : Connection → Connection
unfolding Connection.close
destroy_object c =
    let c' = record c { heartbeat = false } in if c'.shared then Connection.close c' else c'

-- `Tick`, with the objects that it destroys.
unfoldable pub tick_objects : Heartbeats → Heartbeats
unfolding tick in_wheel destroy_object
tick_objects s =
    let timer = tick s.timer in
    record {
      timer = timer;
      connection = λ object.
          if in_wheel object s.timer.timerwheel && not (in_wheel object timer.timerwheel)
          then destroy_object (s.connection object)
          else s.connection object;
    }

-- `Insert` of an object that is not null, in the loop's thread.
unfoldable pub insert_object : ℕ → Heartbeats → Heartbeats
unfolding insert_in_thread
insert_object object s = record s { timer = insert_in_thread object s.timer }

unfoldable pub object_event : Event → Heartbeats → Heartbeats
unfolding tick_objects insert_object
object_event ticks_once s = tick_objects s
object_event (inserts object) s = insert_object object s

unfoldable pub object_events : List Event → Heartbeats → Heartbeats
unfolding object_event
object_events [] s = s
object_events (e ∷ es) s = object_events es (object_event e s)
