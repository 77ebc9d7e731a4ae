-- ===== src/Loop/Timer/Heartbeat/Idle.antt =====
-- A connection that shows no life is closed: src/timer/timer.cpp, src/timer/heartbeatobj.cpp and
-- src/tcpconnection.cpp together.
use reactor_learn.Prelude.{
  ℕ, zero, suc, ◌^◌, ◌≤◌, ◌<◌, ◌≡◌, refl, ◌∙◌, ap, ◌≢◌, true, false, List, [], ◌∷◌, ◌++◌, ◌&&◌, not,
  ◌==◌, ==_iff, if◌then◌else◌, if_cases, Bool-cases, inl, inr, length, arith,
}
use reactor_learn.Buffer
use reactor_learn.Net.Connection.{
  Connection, k_connecting, k_disconnecting, k_disconnected, close, close_in_thread, leaves_loop,
  closes_socket, calls_back, Tell,
}
use reactor_learn.Net.Connection.Closing.{IsSound, times_closed, times_closed-append}
use reactor_learn.Loop.Timer.{Timer, slot, put_at, tick, insert_in_thread, insert_pos, is_at}
use reactor_learn.Loop.Timer.Wheel.{
  has, Event, ticks_once, inserts, event, events, length-put_at, has-append, insert_lem,
}
use reactor_learn.Loop.Timer.Gone.{tick_count, IsSilent, events-gone}
use reactor_learn.Loop.Timer.Heartbeat.{
  Heartbeats, in_wheel, destroy_object, tick_objects, insert_object, object_event, object_events,
}

in_wheel-none :
    (object : ℕ) (wheel : List (List ℕ))
    → ((place : ℕ) → place < length wheel → has object (slot wheel place) ≡ false)
    → in_wheel object wheel ≡ false
unfolding in_wheel slot
in_wheel-none object [] h = refl
in_wheel-none object (x ∷ xs) h =
    rw (h 0 (omega arith)) (in_wheel-none object xs (λ place l. h (suc place) (omega arith)))

has-other :
    (object other : ℕ) (xs : List ℕ)
    → other ≢ object
    → has object (xs ++ (other ∷ [])) ≡ has object xs
has-other object other xs differs =
    has-append object xs (other ∷ []) ∙ elim (Bool-cases (other == object)) [
      | inl e ↦ absurd (differs ((==_iff other object).0 e))
      | inr e ↦ rw e (ground arith)
    ]

in_wheel-put_at :
    (object other pos : ℕ) (wheel : List (List ℕ))
    → other ≢ object
    → in_wheel object (put_at pos (slot wheel pos ++ (other ∷ [])) wheel) ≡ in_wheel object wheel
unfolding in_wheel slot put_at
in_wheel-put_at object other pos [] d = refl
in_wheel-put_at object other zero (x ∷ xs) d = rw (has-other object other x d) refl
in_wheel-put_at object other (suc pos) (x ∷ xs) d = rw (in_wheel-put_at object other pos xs d) refl

in_wheel-insert :
    (object other : ℕ) (t : Timer)
    → other ≢ object
    → in_wheel object (insert_in_thread other t).timerwheel ≡ in_wheel object t.timerwheel
in_wheel-insert object other t d = rw insert_lem (
    if_cases (λ (u : Timer). in_wheel object u.timerwheel ≡ in_wheel object t.timerwheel)
      (is_at (t.last_insert_pos other) (insert_pos t.ptr (length t.timerwheel))) (λ _. refl)
      (λ _. in_wheel-put_at object other (insert_pos t.ptr (length t.timerwheel)) t.timerwheel d))

in_wheel-cleared :
    (object pos : ℕ) (wheel : List (List ℕ))
    → in_wheel object wheel ≡ false
    → in_wheel object (put_at pos [] wheel) ≡ false
unfolding in_wheel put_at
in_wheel-cleared object pos [] e = refl
in_wheel-cleared object zero (x ∷ xs) e = ground (arith, e)
in_wheel-cleared object (suc pos) (x ∷ xs) e =
    let here : has object x ≡ false = ground (arith, e) in
    let there : in_wheel object xs ≡ false = ground (arith, e) in
    rw here (in_wheel-cleared object pos xs there)

in_wheel-tick :
    (object : ℕ) (t : Timer)
    → in_wheel object t.timerwheel ≡ false
    → in_wheel object (tick t).timerwheel ≡ false
unfolding tick
in_wheel-tick object t e = in_wheel-cleared object t.ptr t.timerwheel e

tick_lem :
    (object : ℕ) (s : Heartbeats)
    → (tick_objects s).connection object ≡ (
        if in_wheel object s.timer.timerwheel && not (in_wheel object (tick s.timer).timerwheel)
        then destroy_object (s.connection object)
        else s.connection object)
unfolding tick_objects
tick_lem object s = refl

tick_timer : (s : Heartbeats) → (tick_objects s).timer ≡ tick s.timer
unfolding tick_objects
tick_timer s = refl

-- A destroyed object does nothing to its connection any more.
stays_out :
    (object : ℕ) (es : List Event) (s : Heartbeats)
    → IsSilent object es
    → in_wheel object s.timer.timerwheel ≡ false
    → (object_events es s).connection object ≡ s.connection object
unfolding object_events object_event insert_object
stays_out object [] s silent out = refl
stays_out object (ticks_once ∷ es) s silent out =
    stays_out object es (tick_objects s) silent (
      ap (λ (t : Timer). in_wheel object t.timerwheel) (tick_timer s)
      ∙ in_wheel-tick object s.timer out)
    ∙ tick_lem object s
    ∙ rw out refl
stays_out object (inserts other ∷ es) s (differs, silent) out =
    stays_out object es (insert_object other s) silent
      (in_wheel-insert object other s.timer differs ∙ out)

-- An object that leaves the wheel closes its connection.
leaves :
    (object : ℕ) (es : List Event) (s : Heartbeats)
    → IsSilent object es
    → in_wheel object s.timer.timerwheel ≡ true
    → in_wheel object (events es s.timer).timerwheel ≡ false
    → (object_events es s).connection object ≡ destroy_object (s.connection object)
unfolding object_events object_event insert_object events event
leaves object [] s silent in_it out = absurd (ground (arith, in_it, out))
leaves object (ticks_once ∷ es) s silent in_it out =
    elim (Bool-cases (in_wheel object (tick s.timer).timerwheel)) [
      | inl e ↦
          let kept : (tick_objects s).connection object ≡ s.connection object =
            tick_lem object s ∙ rw (in_it, e) refl in
          leaves object es (tick_objects s) silent
            (ap (λ (t : Timer). in_wheel object t.timerwheel) (tick_timer s) ∙ e)
            (ap (λ (t : Timer). in_wheel object (events es t).timerwheel) (tick_timer s) ∙ out)
          ∙ ap destroy_object kept
      | inr e ↦
          stays_out object es (tick_objects s) silent
            (ap (λ (t : Timer). in_wheel object t.timerwheel) (tick_timer s) ∙ e)
          ∙ tick_lem object s
          ∙ rw (in_it, e) refl
    ]
leaves object (inserts other ∷ es) s (differs, silent) in_it out =
    leaves object es (insert_object other s) silent
      (in_wheel-insert object other s.timer differs ∙ in_it) out

length-insert :
    (other : ℕ) (t : Timer) → length (insert_in_thread other t).timerwheel ≡ length t.timerwheel
length-insert other t = rw insert_lem (
    if_cases (λ (u : Timer). length u.timerwheel ≡ length t.timerwheel)
      (is_at (t.last_insert_pos other) (insert_pos t.ptr (length t.timerwheel))) (λ _. refl)
      (λ _. length-put_at (insert_pos t.ptr (length t.timerwheel)) _ t.timerwheel))

length-events :
    (es : List Event) (t : Timer) → length (events es t).timerwheel ≡ length t.timerwheel
unfolding events event tick
length-events [] t = refl
length-events (ticks_once ∷ es) t = length-events es (tick t) ∙ length-put_at t.ptr [] t.timerwheel
length-events (inserts other ∷ es) t =
    length-events es (insert_in_thread other t) ∙ length-insert other t

closed_once :
    (l k : List Tell)
    → times_closed l ≡ 0
    → times_closed k ≡ 0
    → times_closed (l ++ (leaves_loop ∷ closes_socket ∷ k)) ≡ 1
closed_once l k h h' =
    times_closed-append l (leaves_loop ∷ closes_socket ∷ k) ∙ omega (arith, h, h')

destroy_object-closes :
    (c : Connection)
    → IsSound c
    → c.status ≡ k_connecting
    → c.shared ≡ true
    → c.close_requested ≡ false
    → (let d = destroy_object c in
        let written = Buffer.empty c.write_buffer in
        (d.status ≡ (if written then k_disconnected else k_disconnecting))
        × (times_closed d.tells ≡ (if written then 1 else 0))
        × (d.close_requested ≡ true))
unfolding destroy_object close close_in_thread
destroy_object-closes c s connecting shared fresh =
    let owned : c.owned ≡ true = s.owner ∙ rw connecting refl in
    let none_yet : times_closed c.tells ≡ 0 = s.once ∙ rw connecting refl in
    rw (shared, fresh, owned, connecting)
      (elim (Bool-cases (Buffer.empty c.write_buffer)) [
        | inl e ↦ rw e (
          refl,
          closed_once c.tells (if c.callback then calls_back ∷ [] else []) none_yet (ground arith),
          refl,
        )
        | inr e ↦ rw e (refl, none_yet, refl)
      ])

-- A sound, connecting and shared connection that nobody asked to close, whose heartbeat object is in the wheel and that shows no life for a turn of the wheel
-- is asked to close, whatever becomes of the other connections: its socket is closed, once, where nothing
-- waits to be written, and else the connection is disconnecting.
pub object_events-closes :
    (object m : ℕ) (s : Heartbeats) (es : List Event)
    → length s.timer.timerwheel ≡ suc m
    → s.timer.ptr < suc m
    → m < 2 ^ 31
    → in_wheel object s.timer.timerwheel ≡ true
    → IsSilent object es
    → suc m ≤ tick_count es
    → IsSound (s.connection object)
    → (s.connection object).status ≡ k_connecting
    → (s.connection object).shared ≡ true
    → (s.connection object).close_requested ≡ false
    → (let d = (object_events es s).connection object in
        let written = Buffer.empty (s.connection object).write_buffer in
        (d.status ≡ (if written then k_disconnected else k_disconnecting))
        × (times_closed d.tells ≡ (if written then 1 else 0))
        × (d.close_requested ≡ true))
object_events-closes object m s es size inside small in_it silent turn sound connecting shared
      fresh =
    rw gone (destroy_object-closes (s.connection object) sound connecting shared fresh)
  where
    gone : (object_events es s).connection object ≡ destroy_object (s.connection object)
    gone = leaves object es s silent in_it (
        in_wheel-none object (events es s.timer).timerwheel (λ place l.
          events-gone object m s.timer es place size inside small silent turn
            (omega (arith, l, length-events es s.timer, size))))
