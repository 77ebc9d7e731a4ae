-- ===== src/Loop/Missions/Order.antt =====
-- Missions from other threads run once each, in the order in which they were submitted.
use reactor_learn.Prelude.{
  false, List, [], ◌∷◌, ◌++◌, ◌≡◌, refl, ◌∙◌, ap, sym, append_assoc, append-nil,
}
use reactor_learn.Loop.Missions.{EventLoop, submit, run_all, do_cross_thread_mission}

-- Another thread submits, or the loop takes what is there.
pub data Event {ℓ} (S : Type ℓ) : Type ℓ where
  submits : (S → S) → Event S
  passes : Event S

module _ {ℓ} {S : Type ℓ} where
  unfoldable pub event : Event S → EventLoop S → EventLoop S
  event (submits cb) l = submit false cb l
  event passes l = do_cross_thread_mission l

  unfoldable pub events : List (Event S) → EventLoop S → EventLoop S
  unfolding event
  events [] l = l
  events (e ∷ es) l = events es (event e l)

  abbrev pub submitted : List (Event S) → List (S → S)
  submitted [] = []
  submitted (submits cb ∷ es) = cb ∷ submitted es
  submitted (passes ∷ es) = submitted es

  pub run_all-append : (l m : List (S → S)) (s : S) → run_all (l ++ m) s ≡ run_all m (run_all l s)
  unfolding run_all
  run_all-append [] m s = refl
  run_all-append (f ∷ l) m s = run_all-append l m (f s)

  -- Whenever the loop gets to its missions: once it took the last ones, the missions of all threads have
  -- run, each once and in the order in which they were submitted.
  pub do_cross_thread_mission-events :
      (es : List (Event S)) (l : EventLoop S)
      → (do_cross_thread_mission (events es l)).state ≡ run_all (l.missions ++ submitted es) l.state
  unfolding events event submit do_cross_thread_mission
  do_cross_thread_mission-events [] l = ap (λ m. run_all m l.state) (sym (append-nil l.missions))
  do_cross_thread_mission-events (submits cb ∷ es) l =
      do_cross_thread_mission-events es (event (submits cb) l)
      ∙ ap (λ m. run_all m l.state) (append_assoc l.missions (cb ∷ []) (submitted es))
  do_cross_thread_mission-events (passes ∷ es) l =
      do_cross_thread_mission-events es (event passes l)
      ∙ sym (run_all-append l.missions (submitted es) l.state)
