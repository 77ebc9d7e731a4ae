-- ===== src/Loop/Thread.antt =====
-- src/eventloop.cpp and src/eventloopthread.cpp: the thread that runs a loop, and what other threads do to
-- it. A thread stands at a place of its code; what `epoll_wait` gives is an argument: a failure, an
-- interruption, or the handlers of the channels that are ready, by what they do to the program's state.
-- `published` is whether `loop_` points to the loop, which is what `Start` waits for.
pub mod Stopping
pub mod Waiting
mod Tests
use reactor_learn.Prelude.{ℕ, suc, ◌+◌, Bool, true, false, List, [], ◌∷◌, ◌++◌, if◌then◌else◌}
use reactor_learn.Loop.Missions.{EventLoop, submit, wake_up, run_all, do_cross_thread_mission}

pub data Place : Type 0 where
  starting entering testing polling handling leaving finished : Place

pub data Polled {ℓ} (S : Type ℓ) : Type ℓ where
  broken interrupted : Polled S
  ready : List (S → S) → Polled S

pub record LoopThread {ℓ} (S : Type ℓ) : Type ℓ where
  pub place : Place
  pub quit : Bool
  pub looping : Bool
  pub published : Bool
  pub loop : EventLoop S

pub data Event {ℓ} (S : Type ℓ) : Type ℓ where
  steps : Polled S → Event S
  stops : Event S
  submits : (S → S) → Event S

abbrev pub is_finished : Place → Bool
is_finished starting = false
is_finished entering = false
is_finished testing = false
is_finished polling = false
is_finished handling = false
is_finished leaving = false
is_finished finished = true

module _ {ℓ} {S : Type ℓ} where
  -- The constructor's thread, before it made its loop.
  abbrev pub new_thread : S → LoopThread S
  new_thread s = record {
    place = starting;
    quit = false;
    looping = false;
    published = false;
    loop = record { missions = []; wakeups = []; state = s };
  }

  -- `StopLoop`
  unfoldable pub stop_loop : LoopThread S → LoopThread S
  stop_loop t = record t { quit = true; loop = wake_up t.loop }

  -- The end of `Loop`.
  abbrev leave : LoopThread S → LoopThread S
  leave t = record t { looping = false; place = leaving }

  abbrev pub polled : Polled S → LoopThread S → LoopThread S
  polled broken t = leave t
  polled interrupted t = record t { place = testing }
  polled (ready handlers) t = record t {
    place = handling;
    loop = record t.loop { state = run_all handlers t.loop.state };
  }

  -- One step of the thread: it makes its loop and publishes it; in `Loop` it resets the flags, tests
  -- `quit_`, polls and lets the ready channels handle their events, and runs the missions; it withdraws
  -- the loop at the end.
  abbrev pub step_at : Place → Polled S → LoopThread S → LoopThread S
  step_at starting p t = record t { published = true; place = entering }
  step_at entering p t = record t { quit = false; looping = true; place = testing }
  step_at testing p t = if t.quit then leave t else record t { place = polling }
  step_at polling p t = polled p t
  step_at handling p t = record t { loop = do_cross_thread_mission t.loop; place = testing }
  step_at leaving p t = record t { published = false; place = finished }
  step_at finished p t = t

  unfoldable pub thread_step : Polled S → LoopThread S → LoopThread S
  unfolding run_all do_cross_thread_mission
  thread_step p t = step_at t.place p t

  unfoldable pub event : Event S → LoopThread S → LoopThread S
  unfolding thread_step stop_loop submit
  event (steps p) t = thread_step p t
  event stops t = stop_loop t
  event (submits cb) t = record t { loop = submit false cb t.loop }

  unfoldable pub events : List (Event S) → LoopThread S → LoopThread S
  unfolding event
  events [] t = t
  events (e ∷ es) t = events es (event e t)

  -- `Start` returns, and `Join` returns.
  abbrev pub may_start : LoopThread S → Bool
  may_start t = t.published

  abbrev pub may_join : LoopThread S → Bool
  may_join t = is_finished t.place
