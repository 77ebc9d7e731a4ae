-- ===== src/Kv/Server/Launch.antt =====
-- The constructor of src/kv/kvserver.cpp: a TcpServer with as many loops as it is told, which is started.
mod Tests
use reactor_learn.Prelude.{
  ℕ, zero, suc, ◌+◌, ◌%◌, ◌<◌, ◌≡◌, refl, ap, ◌∙◌, Bool, true, Option, none, some, List, [], ◌∷◌,
  ◌++◌, map, max, arith,
}
use native.Mathlib.Nat.{mod-lt}
use reactor_learn.Kv.ByteOrder.{Host}
use reactor_learn.Net.Address.{InetAddress, InetText, copy_construct}
use reactor_learn.Net.Acceptor
use reactor_learn.Net.Acceptor.{Answer, fails, eagain, accept_loop}
use reactor_learn.Net.Acceptor.Burst.{Goes, arrivals}
use reactor_learn.Net.Channel.{Epoll}
use reactor_learn.Net.Server
use reactor_learn.Net.Server.{Handed, TcpServer, new_connection, set_sub_thread_num, start_server}
use reactor_learn.Net.Server.Dealing.{deal, accept_loop-deal}
use reactor_learn.Loop.Pool.{get_elem?, from, new_pool, set_size, start_pool}
use reactor_learn.Loop.Pool.Rounds.{IsValid, starts, step, step-IsValid}

-- `KVServer`; the callback that it sets is `kv_callback`. The kernel makes the listening descriptor `fd`, `added` and `changed` are whether
-- `epoll_ctl` succeeds for it, and the threads of the pool give the loops `loop idx`.
unfoldable pub construct_server :
    (added : Bool) (fd : ℕ) (changed : Bool) (answer : ℕ) (loop : ℕ → ℕ) (isheartbeat : Bool)
    (subthreadnum : ℕ)
    → Epoll
    → TcpServer × Epoll
unfolding Acceptor.make Server.make set_sub_thread_num start_server
construct_server added fd changed answer loop isheartbeat subthreadnum e =
    let (acceptor, e1) = Acceptor.make added fd e in
    start_server loop answer changed e1
      (set_sub_thread_num subthreadnum (Server.make isheartbeat acceptor))

get_elem?-from :
    (loop : ℕ → ℕ) (idx n k : ℕ)
    → k < n
    → get_elem? (map loop (from idx n)) k ≡ some (loop (idx + k))
unfolding get_elem?
get_elem?-from loop idx zero k h = absurd (omega arith)
get_elem?-from loop idx (suc n) zero h = ap (λ i. some (loop i)) (omega arith)
get_elem?-from loop idx (suc n) (suc k) h =
    get_elem?-from loop (suc idx) n k (omega arith) ∙ ap (λ i. some (loop i)) (omega arith)

get_elem?-first :
    (loop : ℕ → ℕ) (n k : ℕ) → k < n → get_elem? (map loop (from 0 n)) k ≡ some (loop k)
get_elem?-first loop n k h = get_elem?-from loop 0 n k h ∙ ap (λ i. some (loop i)) (omega arith)

-- The pool as the constructor leaves it.
started-IsValid :
    (loop : ℕ → ℕ) (num : ℕ) → IsValid (start_pool loop (set_size num (set_size 1 new_pool)))
unfolding set_size step
started-IsValid loop num =
    step-IsValid (starts loop) (set_size num (set_size 1 new_pool))
      (record { positive = omega arith; started = λ e. absurd (ground arith) })

module _ (text : InetText) (host : Host) where
  -- The `id`-th connection goes to the loop `id % n`.
  abbrev pub in_turn : (ℕ → ℕ) → ℕ → ℕ → List (ℕ × InetAddress) → List (ℕ × Handed)
  in_turn loop n id [] = []
  in_turn loop n id ((fd, addr) ∷ l) =
      (
        loop (id % n),
        record {
          id = id;
          fd = fd;
          peer = copy_construct text host (copy_construct text host addr);
        },
      )
      ∷ in_turn loop n (suc id) l

  deal-in_turn :
      (loop : ℕ → ℕ) (n id : ℕ) (l : List (ℕ × InetAddress))
      → 0 < n
      → deal text host (map loop (from 0 n)) n id id l ≡ in_turn loop n id l
  unfolding deal
  deal-in_turn loop n id [] h = refl
  deal-in_turn loop n id ((fd, addr) ∷ l) h =
      rw (get_elem?-first loop n (id % n) (mod-lt id h), deal-in_turn loop n (suc id) l h) refl

  -- After the constructor of KVServer, a burst of connections, with interruptions in between, is handed
  -- over whole: the i-th of them goes,
  -- in the order of arrival, to the loop number i modulo the number of loops, which is what the caller
  -- asked for and at least one. No descriptor is closed, and the accept loop ends.
  pub construct_server-deals :
      (added : Bool) (fd : ℕ) (changed : Bool) (answer : ℕ) (loop : ℕ → ℕ) (isheartbeat : Bool)
      (num : ℕ) (e : Epoll) (l rest : List Answer)
      → Goes l
      → (let (s, e') = construct_server added fd changed answer loop isheartbeat num e in
          let (ended, t) = accept_loop (new_connection text host) (l ++ (fails eagain ∷ rest)) s in
          (ended ≡ true)
          × (t.submitted ≡ in_turn loop (max 1 num) 0 (arrivals l))
          × (t.closed_fds ≡ []))
  unfolding construct_server start_server set_sub_thread_num Server.make set_size start_pool
  construct_server-deals added fd changed answer loop isheartbeat num e l rest g =
      let (s, e') = construct_server added fd changed answer loop isheartbeat num e in
      let (ended, all, closed) =
        accept_loop-deal text host l rest s g (started-IsValid loop num) refl in
      (ended, all ∙ deal-in_turn loop (max 1 num) 0 (arrivals l) (omega arith), closed)
