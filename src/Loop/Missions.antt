-- ===== src/Loop/Missions.antt =====
-- src/eventloop.cpp: the missions that other threads hand over to a loop. A mission is what it does to
-- the state of the program; a mission that submits another one in the loop's thread runs it at once,
-- which is a part of what it does. The mutex makes each step atomic.
pub mod Order
use reactor_learn.Prelude.{Bool, true, false, List, [], ◌∷◌, ◌++◌, if◌then◌else◌}

pub record EventLoop {ℓ} (S : Type ℓ) : Type ℓ where
  pub missions : List (S → S)
  pub wakeups : List Bool
  pub state : S

module _ {ℓ} {S : Type ℓ} where
  -- `WakeUp`: the eventfd is written, so that `epoll_wait` returns.
  abbrev pub wake_up : EventLoop S → EventLoop S
  wake_up l = record l { wakeups = true ∷ l.wakeups }

  -- `Submit`, in the loop's thread or from another one.
  unfoldable pub submit : Bool → (S → S) → EventLoop S → EventLoop S
  submit in_thread cb l =
      if in_thread
      then record l { state = cb l.state }
      else wake_up (record l { missions = l.missions ++ (cb ∷ []) })

  -- `for (func : missions) func();`
  unfoldable pub run_all : List (S → S) → S → S
  run_all [] s = s
  run_all (func ∷ l) s = run_all l (func s)

  -- `DoCrossThreadMission`
  unfoldable pub do_cross_thread_mission : EventLoop S → EventLoop S
  unfolding run_all
  do_cross_thread_mission l = record l { missions = []; state = run_all l.missions l.state }
