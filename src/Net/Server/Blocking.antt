-- ===== src/Net/Server/Blocking.antt =====
-- A loop that waits for the base loop: src/tcpserver.cpp with `SubmitAndWait` of src/eventloop.cpp.
use reactor_learn.Prelude.{
  ℕ, ◌≤◌, ◌≡◌, ◌≢◌, refl, sym, ◌∙◌, ap, Bool, true, false, not, ◌&&◌, Option, none, some, List, [],
  ◌∷◌, ◌==◌, if_cases, Bool-cases, inl, inr, arith,
}
use reactor_learn.Kv.ByteOrder.{Host}
use reactor_learn.Net.Address.{InetText}
use reactor_learn.Loop.Pool.{set_size, close_pool}
use reactor_learn.Net.Server.{
  Handed, TcpServer, Shutdown, has, steps_done, not_closing, returned, CloseEvent, stops_base,
  base_leaves, joins_base, stops_pool, joins_pool, loop_leaves, shutdown_after, pool_after,
  close_step, all_ended, is_free, set_sub_thread_num, establish, work, begun, next_for,
}
use reactor_learn.Net.Server.Tracking.{same}
use reactor_learn.Net.Server.Runs.{
  Step, arrives, refuses, establishes, runs_base, works, sets_size, starts, closes, Reach, here,
  after,
}

abbrev is_some : Option ℕ → ℕ
is_some none = 0
is_some (some n) = 1

pub none-some : {n : ℕ} → none ≡ some n → ⊥
none-some {n} e = absurd (omega (arith, ap is_some e))

-- `Join` of a pool does not come to its end while one of its threads goes on.
all_ended-not :
    (ended : ℕ → Bool) (l : ℕ) (ls : List ℕ)
    → has l ls ≡ true
    → ended l ≡ false
    → all_ended ended ls ≡ false
unfolding has
all_ended-not ended l [] h e = absurd (ground (arith, h))
all_ended-not ended l (k ∷ ls) h e = elim (Bool-cases (k == l)) [
  | inl t ↦ rw (same t, e) refl
  | inr f ↦
      let rest : has l ls ≡ true = rw f at h in ground (arith, all_ended-not ended l ls rest e)
]

module _ (text : InetText) (host : Host) (l id : ℕ) where
  -- `Close` waits, the base loop has ended, and the pool's loop `l` waits for it to insert a connection.
  record Hangs (s : TcpServer) : Type 0 where
    stopped : s.shutdown.base_running ≡ false
    asked : 1 ≤ steps_done s.shutdown.progress
    open_yet : steps_done s.shutdown.progress ≤ 3
    goes_on : s.shutdown.ended l ≡ false
    pooled : has l s.pool.oper_threads ≡ true
    waiting : s.blocked l ≡ some id

  begun-Hangs :
      (m : ℕ) (next : Option (Handed × List (ℕ × Handed))) (s : TcpServer)
      → s.blocked m ≡ none
      → Hangs s
      → Hangs (begun text host m next s)
  begun-Hangs m none s b k = k
  begun-Hangs m (some (h, rest)) s b k = elim (Bool-cases (m == l)) [
    | inl e ↦
        let clash : none ≡ some id = sym b ∙ ap s.blocked (same e) ∙ k.waiting in
        absurd (none-some clash)
    | inr e ↦ record {
      stopped = k.stopped;
      asked = k.asked;
      open_yet = k.open_yet;
      goes_on = k.goes_on;
      pooled = k.pooled;
      waiting = rw e k.waiting;
    }
  ]

  -- What a step of `Close` or the end of a thread leaves.
  record Stuck (d : Shutdown) : Type 0 where
    stopped : d.base_running ≡ false
    asked : 1 ≤ steps_done d.progress
    open_yet : steps_done d.progress ≤ 3
    goes_on : d.ended l ≡ false

  as_it_is : (s : TcpServer) → Hangs s → Stuck s.shutdown
  as_it_is s k = record {
    stopped = k.stopped;
    asked = k.asked;
    open_yet = k.open_yet;
    goes_on = k.goes_on;
  }

  shutdown_after-Stuck : (e : CloseEvent) (s : TcpServer) → Hangs s → Stuck (shutdown_after e s)
  shutdown_after-Stuck stops_base s k =
      if_cases Stuck (steps_done s.shutdown.progress == 0)
        (λ t. absurd (ground (arith, t, k.asked))) (λ _. as_it_is s k)
  shutdown_after-Stuck base_leaves s k =
      if_cases Stuck s.shutdown.base_quit
        (λ _. record {
          stopped = refl;
          asked = k.asked;
          open_yet = k.open_yet;
          goes_on = k.goes_on;
        })
        (λ _. as_it_is s k)
  shutdown_after-Stuck joins_base s k =
      if_cases Stuck ((steps_done s.shutdown.progress == 1) && not s.shutdown.base_running)
        (λ _. record {
          stopped = k.stopped;
          asked = omega arith;
          open_yet = omega arith;
          goes_on = k.goes_on;
        })
        (λ _. as_it_is s k)
  shutdown_after-Stuck stops_pool s k =
      if_cases Stuck (steps_done s.shutdown.progress == 2)
        (λ _. record {
          stopped = k.stopped;
          asked = omega arith;
          open_yet = omega arith;
          goes_on = k.goes_on;
        })
        (λ _. as_it_is s k)
  shutdown_after-Stuck joins_pool s k =
      let e = all_ended-not s.shutdown.ended l s.pool.oper_threads k.pooled k.goes_on in
      if_cases Stuck
        ((steps_done s.shutdown.progress == 3) && all_ended s.shutdown.ended s.pool.oper_threads)
        (λ t. absurd (ground (arith, t, e))) (λ _. as_it_is s k)
  shutdown_after-Stuck (loop_leaves m) s k =
      if_cases Stuck ((steps_done s.shutdown.progress == 3) && is_free (s.blocked m))
        (λ t. record {
          stopped = k.stopped;
          asked = k.asked;
          open_yet = k.open_yet;
          goes_on = elim (Bool-cases (m == l)) [
            | inl e ↦
                let taken : is_free (s.blocked m) ≡ false =
                  ap (λ j. is_free (s.blocked j)) (same e) ∙ ap is_free k.waiting in
                absurd (ground (arith, t, taken))
            | inr e ↦ rw e k.goes_on
          ];
        })
        (λ _. as_it_is s k)

  close_step-Hangs : (e : CloseEvent) (s : TcpServer) → Hangs s → Hangs (close_step e s)
  unfolding close_step
  close_step-Hangs e s k =
      let d = shutdown_after-Stuck e s k in
      record {
        stopped = d.stopped;
        asked = d.asked;
        open_yet = d.open_yet;
        goes_on = d.goes_on;
        pooled = ap (has l) (pool_after-loops e s) ∙ k.pooled;
        waiting = k.waiting;
      }
    where
      pool_after-loops :
          (e : CloseEvent) (s : TcpServer) → (pool_after e s).oper_threads ≡ s.pool.oper_threads
      pool_after-loops stops_base s = refl
      pool_after-loops base_leaves s = refl
      pool_after-loops joins_base s = refl
      pool_after-loops joins_pool s = refl
      pool_after-loops (loop_leaves m) s = refl
      pool_after-loops stops_pool s = unfold close_pool in ground arith

  -- Nothing that `Hangs` reads changed but these.
  restated :
      (s t : TcpServer)
      → t.shutdown ≡ s.shutdown
      → t.pool.oper_threads ≡ s.pool.oper_threads
      → t.blocked ≡ s.blocked
      → Hangs s
      → Hangs t
  restated s t d p b k = record {
    stopped = ap (λ (x : Shutdown). x.base_running) d ∙ k.stopped;
    asked = rw d k.asked;
    open_yet = rw d k.open_yet;
    goes_on = ap (λ (x : Shutdown). x.ended l) d ∙ k.goes_on;
    pooled = ap (has l) p ∙ k.pooled;
    waiting = ap (λ (f : ℕ → Option ℕ). f l) b ∙ k.waiting;
  }

  advance-Hangs : {s t : TcpServer} → Step text host s t → Hangs s → Hangs t
  advance-Hangs (arrives fd addr s r) k = absurd (ground (arith, r, k.stopped))
  advance-Hangs (refuses addr errno s r) k = absurd (ground (arith, r, k.stopped))
  advance-Hangs (establishes m s b o) k =
      unfold establish in begun-Hangs m (next_for m s.submitted) s b k
  advance-Hangs (runs_base s r) k = absurd (ground (arith, r, k.stopped))
  advance-Hangs (works i op s p) k = unfold work in restated s _ refl refl refl k
  advance-Hangs (sets_size num s) k =
      unfold set_sub_thread_num set_size in restated s _ refl (ground arith) refl k
  advance-Hangs (starts loop answer ok e s o) k = absurd (omega (arith, k.asked, ap steps_done o))
  advance-Hangs (closes event s) k = close_step-Hangs event s k

  reach-Hangs : {s t : TcpServer} → Reach text host s t → Hangs s → Hangs t
  reach-Hangs (here s) k = k
  reach-Hangs (after s t u r step) k = advance-Hangs step (reach-Hangs r k)

  -- `Close` stops the base loop before the pool. Where a loop of the pool waits then for the base loop to
  -- insert a connection, the base loop may leave before it runs that mission, as it does where the flag is
  -- set between two passes; and from then on, whatever happens, the pool's loop waits and `Close` does not
  -- return.
  pub close-Hangs :
      (s : TcpServer)
      → s.shutdown.progress ≡ not_closing
      → s.shutdown.ended l ≡ false
      → has l s.pool.oper_threads ≡ true
      → s.blocked l ≡ some id
      → (t : TcpServer) × Reach text host s t
        × (t.missions ≡ s.missions)
        × ((u : TcpServer)
            → Reach text host t u
            → (u.blocked l ≡ some id) × (u.shutdown.progress ≢ returned))
  close-Hangs s fresh goes_on pooled waiting = (
    close_step base_leaves (close_step stops_base s),
    after _ _ _ (after _ _ _ (here s) (closes stops_base s))
        (closes base_leaves (close_step stops_base s)),
    unfold close_step in refl,
    λ u r.
        let k = reach-Hangs r hangs in
        (k.waiting, λ e. absurd (omega (arith, k.open_yet, ap steps_done e))),
  )
    where
      hangs : Hangs (close_step base_leaves (close_step stops_base s))
      hangs =
          unfold close_step in
          rw (ap steps_done fresh) (record {
            stopped = refl;
            asked = omega arith;
            open_yet = omega arith;
            goes_on = goes_on;
            pooled = pooled;
            waiting = waiting;
          })
