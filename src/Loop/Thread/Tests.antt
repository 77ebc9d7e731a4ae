-- ===== src/Loop/Thread/Tests.antt =====
-- A loop on a number, at three places of its thread.
use reactor_learn.Prelude.{ℕ, ◌+◌, ◌*◌, ◌≡◌, refl, true, false, List, [], ◌∷◌, ◌++◌, arith}
use reactor_learn.Loop.Missions.{run_all, do_cross_thread_mission}
use reactor_learn.Loop.Thread.{
  entering, testing, polling, interrupted, ready, LoopThread, Event, steps, submits, new_thread,
  stop_loop, events, may_join,
}
use reactor_learn.Loop.Thread.Stopping.{
  submitted, stop_loop-ends, stop_loop-forgotten, stop_loop-drops,
}
use reactor_learn.Loop.Thread.Waiting.{
  may_return, submit_and_wait, meanwhile, busy, submit_and_wait-returns,
}

abbrev thread : LoopThread ℕ
thread = record (new_thread 7) { published = true }

abbrev polls : List (Event ℕ)
polls =
    steps (ready ((λ n. n + 1) ∷ []))
    ∷ submits (λ n. n * 2)
    ∷ steps interrupted
    ∷ steps (ready [])
    ∷ steps interrupted
    ∷ []

stop_loop-ends_example :
    may_join (events polls (stop_loop (record thread { place = polling }))) ≡ true
stop_loop-ends_example = stop_loop-ends (record thread { place = polling }) polls refl (omega arith)

stop_loop-forgotten_example :
    may_join (events polls (stop_loop (record thread { place = entering }))) ≡ false
stop_loop-forgotten_example =
    stop_loop-forgotten (record thread { place = entering }) polls refl (tt, (tt, (tt, (tt, tt))))

-- One mission was submitted since the last pass.
abbrev between : LoopThread ℕ
between = record thread {
  place = testing;
  loop = record thread.loop { missions = (λ n. n + 5) ∷ [] };
}

stop_loop-drops_example :
    ((events polls (stop_loop between)).loop.state ≡ between.loop.state)
    × ((events polls (stop_loop between)).loop.missions ≡ between.loop.missions ++ submitted polls)
stop_loop-drops_example = stop_loop-drops between polls refl

submit_and_wait-returns_example :
    (let waiting =
        meanwhile
          ((λ n. n * 3) ∷ [])
          (submit_and_wait false (λ n. n + 2) (busy ((λ n. n + 1) ∷ []) 4 [])) in
      (may_return waiting ≡ false)
      × ((do_cross_thread_mission waiting).state
          ≡ (run_all (((λ n. n + 1) ∷ []) ++ ((λ n. n + 2) ∷ (λ n. n * 3) ∷ [])) 4, true)))
submit_and_wait-returns_example =
    submit_and_wait-returns (λ n. n + 2) ((λ n. n + 1) ∷ []) ((λ n. n * 3) ∷ []) 4 []
