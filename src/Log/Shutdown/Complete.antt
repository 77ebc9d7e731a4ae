-- ===== src/Log/Shutdown/Complete.antt =====
-- Nothing that was logged is lost at the end: src/logger.cpp.
use reactor_learn.Prelude.{
  ℕ, zero, suc, ◌≡◌, refl, ◌∙◌, ap, sym, Bool, true, false, Option, none, some, List, [], ◌∷◌, ◌++◌,
  ◌&&◌, not, ltb, if◌then◌else◌, Bool-cases, lt→ltb, inl, inr, arith, if_cases, length,
}
use reactor_learn.Log.{
  Bytes, PendingBuffer, AsyncLogging, is_null, supplied, refill, hand_over, handed_over,
  supply_next, recycle_buffer_locked, recycled, last_two, reuse, collect, written,
  take_buffer_locked,
}
use reactor_learn.Log.Buffers.{logged, current_text}
use reactor_learn.Log.Stream.{
  Backend, Stage, waits, collects, ended, writes_out, recycles, advance, is_empty, unwritten, Event,
  events, kept, AllFit, Stands, events-Stands, back_step-Stands, flagged-IsValid,
}
use reactor_learn.Log.Shutdown.{thread_func, write_remaining, remaining, is_ended, shut_down}

-- Nothing is left to write, and the back end is not running.
record IsDrained (a : AsyncLogging) : Type 0 where
  stopped : a.running ≡ false
  no_work : a.work_list ≡ []
  no_text : a.current_buffer_len ≡ 0

supplied-keeps :
    (a : AsyncLogging) (o : Option Bytes)
    → ((supplied a o).running ≡ a.running)
      × ((supplied a o).current_buffer_len ≡ a.current_buffer_len)
unfolding take_buffer_locked
supplied-keeps a (some b) = (refl, refl)
supplied-keeps a none = (refl, refl)

hand_over-keeps :
    (a : AsyncLogging)
    → ((hand_over a).running ≡ a.running) × ((hand_over a).current_buffer_len ≡ 0)
unfolding hand_over refill
hand_over-keeps a =
    supplied-keeps
      (record a {
        work_list = a.work_list ++ handed_over a.current_buffer a.current_buffer_len;
        current_buffer = none;
        current_buffer_len = 0;
      })
      a.next_buffer

abbrev has_text : AsyncLogging → Bool
has_text a = not (is_null a.current_buffer) && ltb 0 a.current_buffer_len

collect_lem :
    (a : AsyncLogging)
    → collect a ≡ (
        let a1 = if has_text a then hand_over a else a in
        (a1.work_list, record a1 { work_list = [] }))
unfolding collect
collect_lem a = refl

collect-IsDrained :
    (a : AsyncLogging)
    → a.running ≡ false
    → is_null a.current_buffer ≡ false
    → IsDrained (collect a).1
collect-IsDrained a r c = rw collect_lem (
    if_cases (λ (b : AsyncLogging). IsDrained (record b { work_list = [] })) (has_text a)
      (λ _.
        let (running, len) = hand_over-keeps a in
        record { stopped = running ∙ r; no_work = refl; no_text = len })
      (λ e. record { stopped = r; no_work = refl; no_text = ground arith }))

collect-drained : (a : AsyncLogging) → IsDrained a → collect a ≡ ([], a)
collect-drained a d =
    collect_lem a
    ∙ ap
        (λ t. let a1 = if t then hand_over a else a in (a1.work_list, record a1 { work_list = [] }))
        idle
    ∙ ap (λ (w : List PendingBuffer). (w, record a { work_list = [] })) d.no_work
    ∙ ap (λ (w : List PendingBuffer). ([], record a { work_list = w })) (sym d.no_work)
  where
    idle : has_text a ≡ false
    idle = ground (arith, d.no_text)

supply_next-IsDrained : (a : AsyncLogging) → IsDrained a → IsDrained (supply_next a)
unfolding supply_next take_buffer_locked
supply_next-IsDrained a d =
    if_cases IsDrained (is_null a.next_buffer)
      (λ _. record { stopped = d.stopped; no_work = d.no_work; no_text = d.no_text }) (λ _. d)

recycle-IsDrained :
    (b : Bytes) (a : AsyncLogging) → IsDrained a → IsDrained (recycle_buffer_locked b a)
unfolding recycle_buffer_locked
recycle-IsDrained b a d =
    if_cases IsDrained (ltb (length a.empty_buffers) 2)
      (λ _. record { stopped = d.stopped; no_work = d.no_work; no_text = d.no_text }) (λ _. d)

recycled-IsDrained :
    (l : List PendingBuffer) (a : AsyncLogging) → IsDrained a → IsDrained (recycled l a)
recycled-IsDrained [] a d = d
recycled-IsDrained (p ∷ []) a d = recycle-IsDrained p.data_bytes a d
recycled-IsDrained (p ∷ q ∷ l) a d =
    recycle-IsDrained q.data_bytes (recycle_buffer_locked p.data_bytes a)
      (recycle-IsDrained p.data_bytes a d)

reuse-IsDrained : (l : List PendingBuffer) (a : AsyncLogging) → IsDrained a → IsDrained (reuse l a)
unfolding reuse
reuse-IsDrained l a d =
    supply_next-IsDrained (recycled (last_two l) a) (recycled-IsDrained (last_two l) a d)

supply_next-running : (a : AsyncLogging) → (supply_next a).running ≡ a.running
unfolding supply_next take_buffer_locked
supply_next-running a =
    if_cases (λ (b : AsyncLogging). b.running ≡ a.running) (is_null a.next_buffer) (λ _. refl)
      (λ _. refl)

recycle-running : (b : Bytes) (a : AsyncLogging) → (recycle_buffer_locked b a).running ≡ a.running
unfolding recycle_buffer_locked
recycle-running b a =
    if_cases (λ (d : AsyncLogging). d.running ≡ a.running) (ltb (length a.empty_buffers) 2)
      (λ _. refl) (λ _. refl)

recycled-running : (l : List PendingBuffer) (a : AsyncLogging) → (recycled l a).running ≡ a.running
recycled-running [] a = refl
recycled-running (p ∷ []) a = recycle-running p.data_bytes a
recycled-running (p ∷ q ∷ l) a =
    recycle-running q.data_bytes (recycle_buffer_locked p.data_bytes a)
    ∙ recycle-running p.data_bytes a

reuse-running : (l : List PendingBuffer) (a : AsyncLogging) → (reuse l a).running ≡ a.running
unfolding reuse
reuse-running l a = supply_next-running (recycled (last_two l) a) ∙ recycled-running (last_two l) a

collect-running : (a : AsyncLogging) → (collect a).1.running ≡ a.running
collect-running a = rw collect_lem (
    if_cases (λ (b : AsyncLogging). b.running ≡ a.running) (has_text a) (λ _. (hand_over-keeps a).0)
      (λ _. refl))

-- The thread ends with this fuel, and its end still has the text.
Ends : ℕ → Backend → Bytes → Type 0
Ends fuel s text = (t : Backend) × (thread_func fuel s ≡ some t) × (t.stage ≡ ended) × Stands t text

-- The back end's state with its thread at a place.
abbrev placed : Stage → Backend → Backend
placed g s = record s { stage = g }

has_ended :
    (fuel : ℕ) (s : Backend) (text : Bytes)
    → Stands (placed ended s) text
    → Ends (suc fuel) (placed ended s) text
unfolding Ends thread_func
has_ended fuel s text h = (placed ended s, refl, refl, h)

goes_on :
    (fuel : ℕ) (g : Stage) (s : Backend) (text : Bytes)
    → is_ended g ≡ false
    → Ends fuel (advance g (placed g s)) text
    → Ends (suc fuel) (placed g s) text
unfolding Ends thread_func
goes_on fuel g s text e (t, runs, last, h) = (t, rw e runs, last, h)

last_step :
    (s : Backend)
    → s.log.running ≡ false
    → is_empty (collect s.log).0 ≡ true
    → advance collects (placed collects s) ≡ placed ended (record s { log = (collect s.log).1 })
unfolding advance
last_step s r e = rw (collect-running s.log ∙ r, e) refl

taking_step :
    (s : Backend)
    → is_empty (collect s.log).0 ≡ false
    → advance collects (placed collects s)
      ≡ placed (writes_out (collect s.log).0) (record s { log = (collect s.log).1 })
unfolding advance
taking_step s e = rw e (ground arith)

module _ (fuel : ℕ) (text : Bytes) where
  ends_here :
      (s : Backend)
      → s.log.running ≡ false
      → is_empty (collect s.log).0 ≡ true
      → Stands (placed collects s) text
      → Ends (suc (suc fuel)) (placed collects s) text
  ends_here s r e h = goes_on (suc fuel) collects s text refl (
      rw (last_step s r e) (
        has_ended fuel (record s { log = (collect s.log).1 }) text
          (let h' : Stands (advance collects (placed collects s)) text =
              back_step-Stands (placed collects s) text h in
            rw (last_step s r e) at h')))

  -- More rounds, from each place where nothing is left to take.
  drained_waits :
      (s : Backend)
      → IsDrained s.log
      → Stands (placed waits s) text
      → Ends (suc (suc (suc fuel))) (placed waits s) text
  drained_waits s d h = goes_on (suc (suc fuel)) waits s text refl (
      unfold advance in
      ends_here woken d.stopped
        (ap (λ (t : List PendingBuffer × AsyncLogging). is_empty t.0)
          (collect-drained woken.log drained))
        (unfold advance in back_step-Stands (placed waits s) text h))
    where
      woken : Backend
      woken = record s { log = record s.log { wake_requested = false } }

      drained : IsDrained woken.log
      drained = record { stopped = d.stopped; no_work = d.no_work; no_text = d.no_text }

  drained_writes :
      (l : List PendingBuffer) (s : Backend)
      → IsDrained s.log
      → Stands (placed (writes_out l) s) text
      → Ends (suc (suc (suc (suc (suc fuel))))) (placed (writes_out l) s) text
  unfolding advance
  drained_writes l s d h = goes_on (suc (suc (suc (suc fuel)))) (writes_out l) s text refl (
      goes_on (suc (suc (suc fuel))) (recycles l) written_out text refl (
        unfold advance in
        drained_waits (record written_out { log = reuse l s.log }) (reuse-IsDrained l s.log d)
          (unfold advance in back_step-Stands (placed (recycles l) written_out) text wrote)))
    where
      written_out : Backend
      written_out = advance (writes_out l) (placed (writes_out l) s)

      wrote : Stands (placed (recycles l) written_out) text
      wrote = unfold advance in back_step-Stands (placed (writes_out l) s) text h

-- Rounds that are enough from anywhere.
abbrev pub enough : ℕ → ℕ
enough n = suc (suc (suc (suc (suc (suc (suc (suc (suc n))))))))

module _ (fuel : ℕ) (text : Bytes) where
  six : ℕ
  six = suc (suc (suc (suc (suc (suc fuel)))))

  from_collects :
      (s : Backend)
      → s.log.running ≡ false
      → Stands (placed collects s) text
      → Ends six (placed collects s) text
  unfolding six
  from_collects s r h = elim (Bool-cases (is_empty (collect s.log).0)) [
    | inl e ↦ ends_here (suc (suc (suc (suc fuel)))) text s r e h
    | inr e ↦
        let h' : Stands (advance collects (placed collects s)) text =
          back_step-Stands (placed collects s) text h in
        goes_on (suc (suc (suc (suc (suc fuel))))) collects s text refl (
          rw (taking_step s e) (
            drained_writes fuel text (collect s.log).0 (record s { log = (collect s.log).1 })
              (collect-IsDrained s.log r h.ready) (rw (taking_step s e) at h')))
  ]

  from_waits :
      (s : Backend)
      → s.log.running ≡ false
      → Stands (placed waits s) text
      → Ends (suc six) (placed waits s) text
  unfolding advance
  from_waits s r h = goes_on six waits s text refl (
      from_collects (record s { log = record s.log { wake_requested = false } }) r
        (back_step-Stands (placed waits s) text h))

  from_recycles :
      (l : List PendingBuffer) (s : Backend)
      → s.log.running ≡ false
      → Stands (placed (recycles l) s) text
      → Ends (suc (suc six)) (placed (recycles l) s) text
  unfolding advance
  from_recycles l s r h = goes_on (suc six) (recycles l) s text refl (
      from_waits (record s { log = reuse l s.log }) (reuse-running l s.log ∙ r)
        (back_step-Stands (placed (recycles l) s) text h))

  from_writes :
      (l : List PendingBuffer) (s : Backend)
      → s.log.running ≡ false
      → Stands (placed (writes_out l) s) text
      → Ends (suc (suc (suc six))) (placed (writes_out l) s) text
  unfolding advance
  from_writes l s r h = goes_on (suc (suc six)) (writes_out l) s text refl (
      from_recycles l (advance (writes_out l) (placed (writes_out l) s)) r
        (back_step-Stands (placed (writes_out l) s) text h))

-- The thread ends from wherever it is.
thread_func-Ends :
    (fuel : ℕ) (text : Bytes) (g : Stage) (s : Backend)
    → s.log.running ≡ false
    → Stands (placed g s) text
    → Ends (enough fuel) (placed g s) text
unfolding six
thread_func-Ends fuel text waits s r h = from_waits (suc (suc fuel)) text s r h
thread_func-Ends fuel text collects s r h = from_collects (suc (suc (suc fuel))) text s r h
thread_func-Ends fuel text ended s r h = has_ended _ s text h
thread_func-Ends fuel text (writes_out l) s r h = from_writes fuel text l s r h
thread_func-Ends fuel text (recycles l) s r h = from_recycles (suc fuel) text l s r h

remaining-current_text : (o : Option Bytes) (len : ℕ) → remaining o len ≡ current_text o len
remaining-current_text none len = refl
remaining-current_text (some b) zero = refl
remaining-current_text (some b) (suc len) = rw (lt→ltb 0 (suc len) (omega arith)) refl

write_remaining-file :
    (s : Backend)
    → s.stage ≡ ended
    → (write_remaining true s).file ≡ s.file ++ (unwritten s.stage ++ logged s.log)
unfolding write_remaining
write_remaining-file s e =
    ap (λ l. s.file ++ (written s.log.work_list ++ l))
      (remaining-current_text s.log.current_buffer s.log.current_buffer_len)
    ∙ ap (λ (g : Stage). s.file ++ (unwritten g ++ logged s.log)) (sym e)

destroy_lem :
    (reopened : Bool) (fuel : ℕ) (s t : Backend)
    → thread_func fuel (record s { log = record s.log { running = false; wake_requested = true } })
      ≡ some t
    → shut_down reopened fuel s ≡ some (write_remaining reopened t)
unfolding shut_down
destroy_lem reopened fuel s t e = rw e refl

-- Whatever threads logged before and the back end's thread did, step by step and wherever it is in its loop
-- when the destructor begins, while the file is open and can be opened again: the destructor ends, its
-- thread after at most eight more steps, and the file then holds all that was not dropped, in order, and
-- no more.
pub shut_down-events :
    (es : List Event) (s : Backend) (text : Bytes) (fuel : ℕ)
    → AllFit es
    → Stands s text
    → (t : Backend) × (shut_down true (enough fuel) (events es s) ≡ some t)
      × (t.file ≡ text ++ kept es s)
unfolding Ends
shut_down-events es s text fuel fits h =
    let (t, ends, last, k) =
      thread_func-Ends fuel (text ++ kept es s) told.stage told refl stands in
    (
      write_remaining true t,
      destroy_lem true (enough fuel) (events es s) t ends,
      write_remaining-file t last ∙ k.all,
    )
  where
    told : Backend
    told = record (events es s) {
      log = record (events es s).log { running = false; wake_requested = true };
    }

    stands : Stands told (text ++ kept es s)
    stands =
        let k = events-Stands es s text fits h in
        record {
          valid = flagged-IsValid false true k.valid;
          ready = k.ready;
          pending = k.pending;
          opened = k.opened;
          all = k.all;
        }
