-- ===== src/Loop/Pool/Rounds.antt =====
-- The pool hands out its loops in turn, and never one that is not there.
use reactor_learn.Prelude.{
  ℕ, zero, suc, ◌+◌, ◌%◌, ◌≤◌, ◌<◌, ◌≡◌, refl, ◌∙◌, ap, sym, true, Option, none, some, List, [],
  ◌∷◌, not, if◌then◌else◌, length, map, arith, if_cases,
}
use native.Mathlib.Nat.{mod-lt, mod-add-mod, mod-mod}
use reactor_learn.Loop.Pool.{
  EventLoopThreadPool, get_elem?, get_one_thread, from, start_pool, close_pool, set_size,
}

-- There is a thread to hand out, and while the pool is running each that may be handed out exists.
pub record IsValid (p : EventLoopThreadPool) : Type 0 where
  pub positive : 0 < p.num
  pub started : p.running ≡ true → (p.num ≤ p.maxnum) × (p.maxnum ≡ length p.oper_threads)

pub get_elem?_inside : (xs : List ℕ) (n : ℕ) → n < length xs → (x : ℕ) × (get_elem? xs n ≡ some x)
unfolding get_elem?
get_elem?_inside [] n h = absurd (omega arith)
get_elem?_inside (x ∷ xs) zero h = (x, refl)
get_elem?_inside (x ∷ xs) (suc n) h = get_elem?_inside xs n (omega arith)

length-from : (idx n : ℕ) → length (from idx n) ≡ n
length-from idx zero = refl
length-from idx (suc n) = ap suc (length-from (suc idx) n)

length-map : (f : ℕ → ℕ) (xs : List ℕ) → length (map f xs) ≡ length xs
length-map f [] = refl
length-map f (x ∷ xs) = ap suc (length-map f xs)

pub data Op : Type 0 where
  gets : Op
  starts : (ℕ → ℕ) → Op
  closes : Op
  sets_size : ℕ → Op

unfoldable pub step : Op → EventLoopThreadPool → EventLoopThreadPool
step gets p = (get_one_thread p).1
step (starts loop) p = start_pool loop p
step closes p = (close_pool p).1
step (sets_size num) p = set_size num p

-- Every operation of the pool keeps it valid: it has at least one thread, and while it is running no
-- more may be handed out than were started.
pub step-IsValid : (op : Op) (p : EventLoopThreadPool) → IsValid p → IsValid (step op p)
unfolding step get_one_thread start_pool close_pool set_size
step-IsValid gets p v =
    if_cases (λ (t : Option ℕ × EventLoopThreadPool). IsValid t.1) (not p.running) (λ _. v)
      (λ _. record { positive = v.positive; started = v.started })
step-IsValid (starts loop) p v = record {
  positive = v.positive;
  started = λ _. (omega arith, sym (length-map loop (from 0 p.num) ∙ length-from 0 p.num));
}
step-IsValid closes p v = record { positive = v.positive; started = λ e. absurd (ground arith) }
step-IsValid (sets_size num) p v =
    if_cases IsValid p.running
      (λ r.
        let s = v.started r in
        record {
          positive = omega arith;
          started = λ _. (omega (arith, s.0, s.1, v.positive), s.1);
        })
      (λ r. record { positive = omega arith; started = λ e. absurd (ground arith) })

-- The pool after `n` calls of `GetOneThread`.
unfoldable pub after : ℕ → EventLoopThreadPool → EventLoopThreadPool
after zero p = p
after (suc n) p = (get_one_thread (after n p)).1

pub get_one_thread_running :
    (p : EventLoopThreadPool)
    → p.running ≡ true
    → get_one_thread p
      ≡ (get_elem? p.oper_threads (p.pos % p.num), record p { pos = (p.pos % p.num + 1) % p.num })
get_one_thread_running p r =
    steps
    ∙ ap
        (λ t. if not t then (none, p) else (
          get_elem? p.oper_threads (p.pos % p.num),
          record p { pos = (p.pos % p.num + 1) % p.num },
        ))
        r
  where
    steps : get_one_thread p ≡ (
        if not p.running then (none, p) else (
          get_elem? p.oper_threads (p.pos % p.num),
          record p { pos = (p.pos % p.num + 1) % p.num },
        ))
    steps = unfold get_one_thread in refl

-- Only the position changes.
record Turned (p : EventLoopThreadPool) (n : ℕ) (q : EventLoopThreadPool) : Type 0 where
  running : q.running ≡ p.running
  num : q.num ≡ p.num
  loops : q.oper_threads ≡ p.oper_threads
  at : q.pos % p.num ≡ (p.pos + n) % p.num

after-Turned : (n : ℕ) (p : EventLoopThreadPool) → p.running ≡ true → Turned p n (after n p)
unfolding after
after-Turned zero p r = record {
  running = refl;
  num = refl;
  loops = refl;
  at = ap (λ k. k % p.num) (let z : p.pos ≡ p.pos + 0 = omega arith in z);
}
after-Turned (suc n) p r =
    let t = after-Turned n p r in
    by_step (after n p) t (get_one_thread_running (after n p) (t.running ∙ r))
  where
    turned :
        (pos num : ℕ)
        → num ≡ p.num
        → pos % p.num ≡ (p.pos + n) % p.num
        → (pos % num + 1) % num % p.num ≡ (p.pos + suc n) % p.num
    turned pos num e h =
        rw (e, mod-mod (pos % p.num + 1) p.num, h, mod-add-mod (p.pos + n) p.num 1)
          (ap (λ k. k % p.num) (omega arith))

    by_step :
        (q : EventLoopThreadPool)
        → Turned p n q
        → get_one_thread q ≡ (
          get_elem? q.oper_threads (q.pos % q.num),
          record q { pos = (q.pos % q.num + 1) % q.num },
        )
        → Turned p (suc n) (get_one_thread q).1
    by_step q t e = rw e (record {
      running = t.running;
      num = t.num;
      loops = t.loops;
      at = turned q.pos q.num t.num t.at;
    })

-- While the pool is running and its size is not changed, calls of `GetOneThread` hand out the loops in
-- turn: the call after `n` others gives the loop that is `n` places on, around the size of the pool, and
-- never a null pointer.
pub get_one_thread-after :
    (n : ℕ) (p : EventLoopThreadPool)
    → IsValid p
    → p.running ≡ true
    → (loop : ℕ) × ((get_one_thread (after n p)).0 ≡ some loop)
      × (get_elem? p.oper_threads ((p.pos + n) % p.num) ≡ some loop)
get_one_thread-after n p v r =
    let t = after-Turned n p r in
    let s = v.started r in
    let (loop, e) =
      get_elem?_inside p.oper_threads ((p.pos + n) % p.num)
        (omega (arith, s.0, s.1, mod-lt (p.pos + n) v.positive)) in
    (loop, rw (get_one_thread_running (after n p) (t.running ∙ r), t.loops, t.num, t.at) e, e)
