-- ===== src/Loop/Thread/Waiting.antt =====
-- `SubmitAndWait` of src/eventloop.cpp. The program's state is paired with `state->done`, the flag of the
-- one call that is looked at; missions of others leave it.
use reactor_learn.Prelude.{
  ◌≡◌, refl, sym, append-nil, ◌∙◌, ap, ap₂, Bool, true, false, List, [], ◌∷◌, ◌++◌, map,
  if◌then◌else◌, append_assoc,
}
use reactor_learn.Loop.Missions.{EventLoop, submit, run_all, do_cross_thread_mission}
use reactor_learn.Loop.Missions.Order.{run_all-append}

module _ {ℓ} {S : Type ℓ} where
  -- The mission that is submitted: `task()`, then `done = true`.
  abbrev signalling : (S → S) → S × Bool → S × Bool
  signalling cb s = (cb s.0, true)

  -- The call up to `cv.wait`; in the loop's thread it runs the callback itself.
  unfoldable pub submit_and_wait : Bool → (S → S) → EventLoop (S × Bool) → EventLoop (S × Bool)
  unfolding submit
  submit_and_wait in_thread cb l =
      if in_thread
      then record l { state = (cb l.state.0, true) }
      else submit in_thread (signalling cb) l

  -- The condition that `cv.wait` waits for.
  abbrev pub may_return : EventLoop (S × Bool) → Bool
  may_return l = l.state.1

  abbrev pub elsewhere : (S → S) → S × Bool → S × Bool
  elsewhere f s = (f s.0, s.1)

  -- The loop while others submit.
  unfoldable pub meanwhile : List (S → S) → EventLoop (S × Bool) → EventLoop (S × Bool)
  unfolding submit
  meanwhile [] l = l
  meanwhile (f ∷ fs) l = meanwhile fs (submit false (elsewhere f) l)

  meanwhile-missions :
      (fs : List (S → S)) (l : EventLoop (S × Bool))
      → ((meanwhile fs l).state ≡ l.state)
        × ((meanwhile fs l).missions ≡ l.missions ++ map elsewhere fs)
  unfolding meanwhile submit
  meanwhile-missions [] l = (refl, sym (append-nil l.missions))
  meanwhile-missions (f ∷ fs) l =
      let (state, missions) = meanwhile-missions fs (submit false (elsewhere f) l) in
      (state, missions ∙ append_assoc l.missions (elsewhere f ∷ []) (map elsewhere fs))

  run_all-elsewhere :
      (fs : List (S → S)) (s : S) (d : Bool) → run_all (map elsewhere fs) (s, d) ≡ (run_all fs s, d)
  unfolding run_all
  run_all-elsewhere [] s d = refl
  run_all-elsewhere (f ∷ fs) s d = run_all-elsewhere fs (f s) d

  -- The loop at the time of the call, with the missions that are there.
  abbrev pub busy : List (S → S) → S → List Bool → EventLoop (S × Bool)
  busy earlier s wakeups = record {
    missions = map elsewhere earlier;
    wakeups = wakeups;
    state = (s, false);
  }

  signalled :
      (cb : S → S) (earlier later : List (S → S)) (s : S)
      → run_all ((map elsewhere earlier ++ (signalling cb ∷ [])) ++ map elsewhere later) (s, false)
        ≡ (run_all (earlier ++ (cb ∷ later)) s, true)
  unfolding run_all
  signalled cb earlier later s =
      run_all-append (map elsewhere earlier ++ (signalling cb ∷ [])) (map elsewhere later)
        (s, false)
      ∙ ap (run_all (map elsewhere later)) own
      ∙ run_all-elsewhere later (cb (run_all earlier s)) true
      ∙ ap (λ r. (r, true)) (sym (run_all-append earlier (cb ∷ later) s))
    where
      own :
          run_all (map elsewhere earlier ++ (signalling cb ∷ [])) (s, false)
          ≡ (cb (run_all earlier s), true)
      own =
          run_all-append (map elsewhere earlier) (signalling cb ∷ []) (s, false)
          ∙ ap (run_all (signalling cb ∷ [])) (run_all-elsewhere earlier s false)

  -- A call from another thread waits, whoever submits in the meantime, until the loop runs its missions;
  -- then it may return, and its callback has run once, after the missions that were there before it and
  -- before the later ones.
  pub submit_and_wait-returns :
      (cb : S → S) (earlier later : List (S → S)) (s : S) (wakeups : List Bool)
      → (let waiting = meanwhile later (submit_and_wait false cb (busy earlier s wakeups)) in
          (may_return waiting ≡ false)
          × ((do_cross_thread_mission waiting).state ≡ (run_all (earlier ++ (cb ∷ later)) s, true)))
  unfolding submit_and_wait submit do_cross_thread_mission
  submit_and_wait-returns cb earlier later s wakeups =
      let (state, missions) =
        meanwhile-missions later (submit_and_wait false cb (busy earlier s wakeups)) in
      (ap (λ (k : S × Bool). k.1) state, ap₂ run_all missions state ∙ signalled cb earlier later s)
