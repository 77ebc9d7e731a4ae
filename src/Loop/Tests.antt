-- ===== src/Loop/Tests.antt =====
-- A pool of three loops, a wheel of two slots, and a loop of missions on numbers.
use reactor_learn.Prelude.{ℕ, ◌+◌, ◌%◌, ◌≡◌, refl, true, some, [], ◌∷◌, arith}
use reactor_learn.Prelude.{◌==◌, if◌then◌else◌, none, List, ◌<◌, false}
use reactor_learn.Loop.Timer.{Timer, slot, insert_in_thread}
use reactor_learn.Loop.Timer.Wheel.{has, Event, ticks_once, inserts, events}
use reactor_learn.Loop.Timer.Expiry.{InTime, insert-stays}
use reactor_learn.Loop.Timer.Heartbeat.{Heartbeats, in_wheel, object_events}
use reactor_learn.Loop.Timer.Reading.{on_timer, on_timer-late}
use reactor_learn.Buffer.{done}
use reactor_learn.Loop.Timer.Heartbeat.Idle.{object_events-closes}
use reactor_learn.Net.Connection
use reactor_learn.Net.Connection.{k_connecting, k_disconnecting, k_disconnected}
use reactor_learn.Net.Connection.Closing.{times_closed}
use reactor_learn.Net.Connection.Life.{make-IsSound}
use reactor_learn.Buffer
use reactor_learn.Loop.Missions.{EventLoop}
use reactor_learn.Loop.Missions.Order.{submitted, do_cross_thread_mission-events}
use reactor_learn.Loop.Missions.Order
use reactor_learn.Loop.Pool.{EventLoopThreadPool, get_elem?, get_one_thread}
use reactor_learn.Loop.Pool.Rounds.{IsValid, after, get_one_thread-after}

abbrev three : EventLoopThreadPool
three = record {
  pos = 2;
  running = true;
  threads = 0 ∷ 1 ∷ 2 ∷ [];
  oper_threads = 10 ∷ 11 ∷ 12 ∷ [];
  num = 3;
  maxnum = 3;
}

three-IsValid : IsValid three
three-IsValid = record { positive = omega arith; started = λ _. (omega arith, refl) }

get_one_thread-after_example :
    (loop : ℕ) × ((get_one_thread (after 4 three)).0 ≡ some loop)
    × (get_elem? three.oper_threads ((three.pos + 4) % three.num) ≡ some loop)
get_one_thread-after_example = get_one_thread-after 4 three three-IsValid refl

-- The object 5 is fresh, and 6 is in the second slot.
abbrev wheel : Timer
wheel = record {
  timerwheel = [] ∷ (6 ∷ []) ∷ [];
  ptr = 0;
  last_insert_pos = λ o. if o == 6 then some 1 else none;
}

abbrev lively : List Event
lively = ticks_once ∷ inserts 5 ∷ inserts 6 ∷ ticks_once ∷ []

lively-InTime : InTime 5 1 0 lively
unfolding InTime
lively-InTime = (omega arith, (omega arith, tt))

insert-stays_example :
    (place : ℕ) × (has 5 (slot (events lively (insert_in_thread 5 wheel)).timerwheel place) ≡ true)
insert-stays_example =
    insert-stays 5 1 wheel lively refl (omega arith) (omega arith) refl lively-InTime

on_timer-late_example :
    (t' : Timer) × (on_timer (done (8, 3)) wheel ≡ some t')
    × ((object place : ℕ) → place < 2 → has object (slot t'.timerwheel place) ≡ false)
on_timer-late_example = on_timer-late 1 3 wheel refl (omega arith) (omega arith) (omega arith)

abbrev silent : List Event
silent = ticks_once ∷ inserts 5 ∷ ticks_once ∷ []

-- One mission waits; two more come, around a pass.
abbrev loop : EventLoop ℕ
loop = record { missions = (λ n. n + 1) ∷ []; wakeups = []; state = 7 }

abbrev submissions : List (Order.Event ℕ)
submissions = Order.submits (λ n. n % 3) ∷ Order.passes ∷ Order.submits (λ n. n + 5) ∷ []

-- The object 6 belongs to a connection with nothing to write.
abbrev beating : Heartbeats
beating = record { timer = wheel; connection = λ object. Connection.make 4 4 }

six_in_wheel : in_wheel 6 beating.timer.timerwheel ≡ true
unfolding in_wheel
six_in_wheel = refl

live :
    ((beating.connection 6).status ≡ k_connecting)
    × ((beating.connection 6).shared ≡ true)
    × ((beating.connection 6).close_requested ≡ false)
unfolding Connection.make
live = (refl, refl, refl)

object_events-closes_example :
    (let d = (object_events silent beating).connection 6 in
      let written = Buffer.empty (beating.connection 6).write_buffer in
      (d.status ≡ (if written then k_disconnected else k_disconnecting))
      × (times_closed d.tells ≡ (if written then 1 else 0))
      × (d.close_requested ≡ true))
object_events-closes_example =
    object_events-closes 6 1 beating silent refl (omega arith) (omega arith) six_in_wheel
      ((λ e. absurd (omega (arith, e))), tt) (omega arith) (make-IsSound 4 4) live.0 live.1 live.2
