-- ===== src/Net/Server/Dealing.antt =====
-- The connections of one burst are dealt out to the loops in turn: src/acceptor.cpp, src/tcpserver.cpp
-- and src/eventloopthreadpool.cpp together.
use reactor_learn.Prelude.{
  ℕ, suc, ◌+◌, ◌%◌, ◌≡◌, refl, sym, ◌∙◌, ap, true, Option, none, some, List, [], ◌∷◌, ◌++◌,
  append-nil, append_assoc, arith,
}
use native.Mathlib.Nat.{mod-add-mod, mod-mod, mod-lt}
use reactor_learn.Kv.ByteOrder.{Host}
use reactor_learn.Net.Address.{InetAddress, InetText, copy_construct}
use reactor_learn.Loop.Pool.{EventLoopThreadPool, get_elem?, get_one_thread}
use reactor_learn.Loop.Pool.Rounds.{IsValid, get_elem?_inside, get_one_thread_running}
use reactor_learn.Net.Acceptor.{Answer, fails, eagain, accept_loop}
use reactor_learn.Net.Acceptor.Burst.{
  Goes, arrivals, for_each, for_each_nil, for_each_cons, accept_loop-burst,
}
use reactor_learn.Net.Server.{Handed, TcpServer, new_connection, assign_loop}

abbrev or_zero : Option ℕ → ℕ
or_zero none = 0
or_zero (some x) = x

-- The pool after `GetOneThread`.
abbrev turned : EventLoopThreadPool → EventLoopThreadPool
turned p = record p { pos = (p.pos % p.num + 1) % p.num }

module _ (text : InetText) (host : Host) where
  -- What the loops get: connection after connection the next loop, around the pool's size.
  unfoldable pub deal : List ℕ → ℕ → ℕ → ℕ → List (ℕ × InetAddress) → List (ℕ × Handed)
  deal loops num pos id [] = []
  deal loops num pos id ((fd, addr) ∷ l) =
      (
        or_zero (get_elem? loops (pos % num)),
        record {
          id = id;
          fd = fd;
          peer = copy_construct text host (copy_construct text host addr);
        },
      )
      ∷ deal loops num (suc pos) (suc id) l

  deal-mod :
      (loops : List ℕ) (num p q id : ℕ) (l : List (ℕ × InetAddress))
      → p % num ≡ q % num
      → deal loops num p id l ≡ deal loops num q id l
  unfolding deal
  deal-mod loops num p q id [] e = refl
  deal-mod loops num p q id ((fd, addr) ∷ l) e =
      rw (e, deal-mod loops num (suc p) (suc q) (suc id) l next)
    where
      next : suc p % num ≡ suc q % num
      next =
          let left : suc p % num ≡ (p % num + 1) % num =
            rw mod-add-mod (ap (λ k. k % num) (omega arith)) in
          let right : (q % num + 1) % num ≡ suc q % num =
            rw mod-add-mod (ap (λ k. k % num) (omega arith)) in
          left ∙ ap (λ k. (k + 1) % num) e ∙ right

  new_connection-running :
      (fd : ℕ) (addr : InetAddress) (s : TcpServer)
      → IsValid s.pool
      → s.pool.running ≡ true
      → (let loop = or_zero (get_elem? s.pool.oper_threads (s.pool.pos % s.pool.num)) in
          new_connection text host (some fd) addr 0 s
          ≡ assign_loop text host fd addr (some loop) (record s { pool = turned s.pool }))
  new_connection-running fd addr s v r =
      let (at_most, all) = v.started r in
      let (loop, found) =
        get_elem?_inside s.pool.oper_threads (s.pool.pos % s.pool.num)
          (omega (arith, at_most, all, mod-lt s.pool.pos v.positive)) in
      new_connection_lem ∙ rw (get_one_thread_running s.pool r, found) refl
    where
      new_connection_lem :
          new_connection text host (some fd) addr 0 s
          ≡ assign_loop text host fd addr
              (get_one_thread s.pool).0
              (record s { pool = (get_one_thread s.pool).1 })
      new_connection_lem = unfold new_connection in refl

  for_each-deal :
      (l : List (ℕ × InetAddress)) (s : TcpServer)
      → IsValid s.pool
      → s.pool.running ≡ true
      → (let t = for_each (new_connection text host) l s in
          (t.submitted ≡ s.submitted ++ deal s.pool.oper_threads s.pool.num s.pool.pos s.arrived l)
          × (t.closed_fds ≡ s.closed_fds))
  unfolding deal
  for_each-deal [] s v r = rw for_each_nil (sym (append-nil s.submitted), refl)
  for_each-deal ((fd, addr) ∷ l) s v r =
      rw (for_each_cons, new_connection-running fd addr s v r)
        (let (sub, closed) =
            for_each-deal l
              (assign_loop text host fd addr (some loop) (record s { pool = turned s.pool }))
              (record { positive = v.positive; started = v.started }) r in
          (sub ∙ append_assoc s.submitted _ _ ∙ ap (λ k. s.submitted ++ (dealt ∷ k)) next, closed))
    where
      loop : ℕ
      loop = or_zero (get_elem? s.pool.oper_threads (s.pool.pos % s.pool.num))

      dealt : ℕ × Handed
      dealt = (
        loop,
        record {
          id = s.arrived;
          fd = fd;
          peer = copy_construct text host (copy_construct text host addr);
        },
      )

      next :
          deal s.pool.oper_threads s.pool.num (turned s.pool).pos (suc s.arrived) l
          ≡ deal s.pool.oper_threads s.pool.num (suc s.pool.pos) (suc s.arrived) l
      next =
          deal-mod s.pool.oper_threads s.pool.num (turned s.pool).pos (suc s.pool.pos)
            (suc s.arrived) l (rw (mod-mod, mod-add-mod) (ap (λ k. k % s.pool.num) (omega arith)))

  -- While the pool is running, a burst of connections that the kernel reports, with interruptions in
  -- between, is handed over whole: the i-th connection goes to the loop that is i places on in the pool,
  -- in the order of arrival, none is dropped, and the accept loop ends.
  pub accept_loop-deal :
      (l rest : List Answer) (s : TcpServer)
      → Goes l
      → IsValid s.pool
      → s.pool.running ≡ true
      → (let (ended, t) = accept_loop (new_connection text host) (l ++ (fails eagain ∷ rest)) s in
          (ended ≡ true)
          × (t.submitted
              ≡ s.submitted
                ++ deal s.pool.oper_threads s.pool.num s.pool.pos s.arrived (arrivals l))
          × (t.closed_fds ≡ s.closed_fds))
  accept_loop-deal l rest s g v r =
      rw (accept_loop-burst (new_connection text host) l rest s g)
        (let (all, closed) = for_each-deal (arrivals l) s v r in (refl, all, closed))
