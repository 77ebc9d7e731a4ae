-- ===== src/Loop/Thread/Stopping.antt =====
-- What `StopLoop` does to a loop, by where its thread stands: src/eventloop.cpp.
use reactor_learn.Prelude.{
  ℕ, suc, ◌≤◌, ◌≡◌, refl, ◌∙◌, ap, sym, Bool, true, false, List, [], ◌∷◌, ◌++◌, append_assoc,
  append-nil, arith,
}
use reactor_learn.Loop.Missions.{submit}
use reactor_learn.Loop.Thread.{
  Place, starting, entering, testing, polling, handling, leaving, finished, Polled, broken,
  interrupted, ready, LoopThread, Event, steps, stops, submits, stop_loop, step_at, thread_step,
  event, events, may_join, is_finished,
}

-- The steps that a thread has to take from a place in `Loop` until it is finished, once it is told to
-- quit.
abbrev pub to_go : Place → ℕ
to_go starting = 0
to_go entering = 0
to_go testing = 2
to_go polling = 4
to_go handling = 3
to_go leaving = 1
to_go finished = 0

abbrev pub is_inside : Place → Bool
is_inside starting = false
is_inside entering = false
is_inside testing = true
is_inside polling = true
is_inside handling = true
is_inside leaving = true
is_inside finished = true

four : (place : Place) → to_go place ≤ 4
four starting = omega arith
four entering = omega arith
four testing = omega arith
four polling = omega arith
four handling = omega arith
four leaving = omega arith
four finished = omega arith

finished_lem : (place : Place) → is_inside place ≡ true → to_go place ≤ 0 → place ≡ finished
finished_lem starting i h = absurd (ground (arith, i))
finished_lem entering i h = absurd (ground (arith, i))
finished_lem testing i h = absurd (omega (arith, h))
finished_lem polling i h = absurd (omega (arith, h))
finished_lem handling i h = absurd (omega (arith, h))
finished_lem leaving i h = absurd (omega (arith, h))
finished_lem finished i h = refl

-- It goes round, and nothing tells it to quit.
abbrev Rounds : Place → Bool → Type 0
Rounds starting quit = ⊥
Rounds entering quit = Unit
Rounds testing quit = quit ≡ false
Rounds polling quit = quit ≡ false
Rounds handling quit = quit ≡ false
Rounds leaving quit = ⊥
Rounds finished quit = ⊥

rounding : (place : Place) (quit : Bool) → Rounds place quit → is_finished place ≡ false
rounding starting quit k = absurd k
rounding entering quit k = refl
rounding testing quit k = refl
rounding polling quit k = refl
rounding handling quit k = refl
rounding leaving quit k = refl
rounding finished quit k = absurd k

-- It has left the loop, or will at its next test.
abbrev Over : Place → Bool → Type 0
Over starting quit = ⊥
Over entering quit = ⊥
Over testing quit = quit ≡ true
Over polling quit = ⊥
Over handling quit = ⊥
Over leaving quit = Unit
Over finished quit = Unit

stopped : (place : Place) (quit : Bool) → Over place quit → Over place true
stopped starting quit k = k
stopped entering quit k = k
stopped testing quit k = refl
stopped polling quit k = k
stopped handling quit k = k
stopped leaving quit k = k
stopped finished quit k = k

module _ {ℓ} {S : Type ℓ} where
  abbrev pub steps_in : List (Event S) → ℕ
  steps_in [] = 0
  steps_in (steps p ∷ es) = suc (steps_in es)
  steps_in (stops ∷ es) = steps_in es
  steps_in (submits cb ∷ es) = steps_in es

  -- It was told to quit, and has at most so many steps to go.
  abbrev Quits : ℕ → LoopThread S → Type 0
  Quits n t = (t.quit ≡ true) × (is_inside t.place ≡ true) × (to_go t.place ≤ n)

  step-Quits :
      (place : Place) (p : Polled S) (n : ℕ) (t : LoopThread S)
      → t.quit ≡ true
      → t.place ≡ place
      → is_inside place ≡ true
      → to_go place ≤ suc n
      → Quits n (step_at place p t)
  step-Quits starting p n t q e i h = absurd (ground (arith, i))
  step-Quits entering p n t q e i h = absurd (ground (arith, i))
  step-Quits testing p n t q e i h = rw q (refl, refl, omega (arith, h))
  step-Quits polling broken n t q e i h = (q, refl, omega (arith, h))
  step-Quits polling interrupted n t q e i h = (q, refl, omega (arith, h))
  step-Quits polling (ready fs) n t q e i h = (q, refl, omega (arith, h))
  step-Quits handling p n t q e i h = (q, refl, omega (arith, h))
  step-Quits leaving p n t q e i h = (q, refl, omega (arith, h))
  step-Quits finished p n t q e i h = (q, rw e refl, rw e (omega arith))

  events-Quits :
      (es : List (Event S)) (t : LoopThread S) → Quits (steps_in es) t → Quits 0 (events es t)
  unfolding events event thread_step stop_loop
  events-Quits [] t k = k
  events-Quits (steps p ∷ es) t (q, i, h) =
      events-Quits es (step_at t.place p t) (step-Quits t.place p (steps_in es) t q refl i h)
  events-Quits (stops ∷ es) t (q, i, h) = events-Quits es (stop_loop t) (refl, i, h)
  events-Quits (submits cb ∷ es) t (q, i, h) =
      events-Quits es (record t { loop = submit false cb t.loop }) (q, i, h)

  -- A loop that is stopped after its thread has entered `Loop` ends, whatever its polls give and whatever
  -- other threads do: four steps of the thread are enough for `Join` to return.
  pub stop_loop-ends :
      (t : LoopThread S) (es : List (Event S))
      → is_inside t.place ≡ true
      → 4 ≤ steps_in es
      → may_join (events es (stop_loop t)) ≡ true
  stop_loop-ends t es i h =
      let (_, inside, go) =
        events-Quits es (stop_loop t)
          (unfold stop_loop in (refl, i, omega (arith, h, four t.place))) in
      rw (finished_lem (events es (stop_loop t)).place inside go) refl

  -- A poll that the loop goes on after.
  abbrev Fine : Polled S → Type 0
  Fine broken = ⊥
  Fine interrupted = Unit
  Fine (ready fs) = Unit

  -- Steps of a loop that works, and submissions to it.
  abbrev pub Works : List (Event S) → Type 0
  Works [] = Unit
  Works (steps p ∷ es) = Fine p × Works es
  Works (stops ∷ es) = ⊥
  Works (submits cb ∷ es) = Works es

  step-Rounds :
      (place : Place) (p : Polled S) (t : LoopThread S)
      → Fine p
      → Rounds place t.quit
      → Rounds (step_at place p t).place (step_at place p t).quit
  step-Rounds starting p t f k = absurd k
  step-Rounds entering p t f k = refl
  step-Rounds testing p t f k = rw k refl
  step-Rounds polling broken t f k = absurd f
  step-Rounds polling interrupted t f k = k
  step-Rounds polling (ready fs) t f k = k
  step-Rounds handling p t f k = k
  step-Rounds leaving p t f k = absurd k
  step-Rounds finished p t f k = absurd k

  events-Rounds :
      (es : List (Event S)) (t : LoopThread S)
      → Works es
      → Rounds t.place t.quit
      → Rounds (events es t).place (events es t).quit
  unfolding events event thread_step
  events-Rounds [] t w k = k
  events-Rounds (steps p ∷ es) t (f, w) k =
      events-Rounds es (step_at t.place p t) w (step-Rounds t.place p t f k)
  events-Rounds (stops ∷ es) t w k = absurd w
  events-Rounds (submits cb ∷ es) t w k =
      events-Rounds es (record t { loop = submit false cb t.loop }) w k

  -- `Loop` forgets a stop that came before it: when `StopLoop` is called between the publication of the
  -- loop and the start of `Loop`, the thread goes round as long as its polls work, and `Join` does not
  -- return.
  pub stop_loop-forgotten :
      (t : LoopThread S) (es : List (Event S))
      → t.place ≡ entering
      → Works es
      → may_join (events es (stop_loop t)) ≡ false
  stop_loop-forgotten t es e w =
      rounding (events es (stop_loop t)).place _
        (events-Rounds es (stop_loop t) w (unfold stop_loop in rw e tt))

  abbrev pub submitted : List (Event S) → List (S → S)
  submitted [] = []
  submitted (steps p ∷ es) = submitted es
  submitted (stops ∷ es) = submitted es
  submitted (submits cb ∷ es) = cb ∷ submitted es

  abbrev Idle : LoopThread S → List (S → S) → S → Type ℓ
  Idle t missions s = (t.loop.missions ≡ missions) × (t.loop.state ≡ s)

  step-Over :
      (place : Place) (p : Polled S) (t : LoopThread S)
      → t.place ≡ place
      → Over place t.quit
      → Over (step_at place p t).place (step_at place p t).quit
        × ((step_at place p t).loop ≡ t.loop)
  step-Over starting p t e k = absurd k
  step-Over entering p t e k = absurd k
  step-Over testing p t e k = rw k (tt, refl)
  step-Over polling p t e k = absurd k
  step-Over handling p t e k = absurd k
  step-Over leaving p t e k = (tt, refl)
  step-Over finished p t e k = (rw e tt, refl)

  events-Over :
      (es : List (Event S)) (t : LoopThread S)
      → Over t.place t.quit
      → ((events es t).loop.state ≡ t.loop.state)
        × ((events es t).loop.missions ≡ t.loop.missions ++ submitted es)
  unfolding events event thread_step stop_loop submit
  events-Over [] t k = (refl, sym (append-nil t.loop.missions))
  events-Over (steps p ∷ es) t k =
      let (over, same) = step-Over t.place p t refl k in
      let (state, missions) = events-Over es (step_at t.place p t) over in
      (state ∙ ap (λ l. l.state) same, missions ∙ ap (λ l. l.missions ++ submitted es) same)
  events-Over (stops ∷ es) t k = events-Over es (stop_loop t) (stopped t.place t.quit k)
  events-Over (submits cb ∷ es) t k =
      let (state, missions) = events-Over es (record t { loop = submit false cb t.loop }) k in
      (state, missions ∙ append_assoc t.loop.missions (cb ∷ []) (submitted es))

  -- A loop that is stopped between two passes leaves at once: missions that were submitted before the
  -- stop, and those that come later, never run.
  pub stop_loop-drops :
      (t : LoopThread S) (es : List (Event S))
      → t.place ≡ testing
      → ((events es (stop_loop t)).loop.state ≡ t.loop.state)
        × ((events es (stop_loop t)).loop.missions ≡ t.loop.missions ++ submitted es)
  unfolding stop_loop
  stop_loop-drops t es e = events-Over es (stop_loop t) (rw e refl)
