-- ===== src/Loop/Pool.antt =====
-- src/eventloopthreadpool.cpp: the pool of loop threads. A pointer to an EventLoop is the loop's number,
-- and a null pointer is `none`. Which loop a new thread runs is a parameter. The counts are unsigned
-- ints and the position is an int; fewer than 2 ^ 31 threads are meant, so that no sum wraps.
pub mod Rounds
use reactor_learn.Prelude.{
  ℕ, zero, suc, ◌+◌, ◌%◌, min, max, Bool, true, false, Option, none, some, List, [], ◌∷◌, ◌++◌, not,
  if◌then◌else◌, length, map,
}

pub record EventLoopThreadPool : Type 0 where
  pub pos : ℕ
  pub running : Bool
  pub threads : List ℕ
  pub oper_threads : List ℕ
  pub num : ℕ
  pub maxnum : ℕ

-- What `Close` does to the threads: `StopLoop` and `Join`, by the loop and the thread.
pub data Ending : Type 0 where
  stops_loop joins : ℕ → Ending

-- An element of a vector; `none` is an access out of range.
unfoldable pub get_elem? : List ℕ → ℕ → Option ℕ
get_elem? [] n = none
get_elem? (x ∷ xs) zero = some x
get_elem? (x ∷ xs) (suc n) = get_elem? xs n

-- The constructor's state.
abbrev pub new_pool : EventLoopThreadPool
new_pool = record { pos = 0; running = false; threads = []; oper_threads = []; num = 1; maxnum = 1 }

-- `Size`
unfoldable pub pool_size : EventLoopThreadPool → ℕ
pool_size p = p.num

-- `MaxSize`
unfoldable pub max_pool_size : EventLoopThreadPool → ℕ
max_pool_size p = p.maxnum

-- `GetOneThread`; `none` is the null pointer.
unfoldable pub get_one_thread : EventLoopThreadPool → Option ℕ × EventLoopThreadPool
unfolding get_elem?
get_one_thread p =
    if not p.running
    then (none, p)
    else (let pos = p.pos % p.num in
        (get_elem? p.oper_threads pos, record p { pos = (pos + 1) % p.num }))

-- `GetAllThread`
unfoldable pub get_all_thread : EventLoopThreadPool → List ℕ
get_all_thread p = p.oper_threads

-- The indices from `idx` on, `n` of them.
abbrev pub from : ℕ → ℕ → List ℕ
from idx zero = []
from idx (suc n) = idx ∷ from (suc idx) n

-- `Start`, where `threads_[idx]->Start()` gives `loop idx`.
unfoldable pub start_pool : (ℕ → ℕ) → EventLoopThreadPool → EventLoopThreadPool
start_pool loop p = record {
  pos = p.pos;
  running = true;
  threads = from 0 p.num;
  oper_threads = map loop (from 0 p.num);
  num = p.num;
  maxnum = p.num;
}

-- `Close`
unfoldable pub close_pool : EventLoopThreadPool → List Ending × EventLoopThreadPool
close_pool p = (map stops_loop p.oper_threads ++ map joins p.threads, record p { running = false })

-- `SetSize`
unfoldable pub set_size : ℕ → EventLoopThreadPool → EventLoopThreadPool
set_size num p =
    if p.running then record p { num = max (min num p.maxnum) 1 } else record p { num = max 1 num }
