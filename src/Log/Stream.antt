-- ===== src/Log/Stream.antt =====
-- Any interleaving of the threads that log and of the back end: what reaches the file.
use reactor_learn.Prelude.{
  ◌≤◌, ◌≡◌, refl, ◌∙◌, ap, ap₂, sym, Bool, true, false, not, ◌&&◌, List, [], ◌∷◌, ◌++◌, ltb,
  if◌then◌else◌, arith, if_cases, length, All, append_assoc, append-nil,
}
use reactor_learn.Log.{
  Bytes, k_backendbuffersize, PendingBuffer, AsyncLogging, is_null, construct, supply_next,
  append_locked, collect, written, recycle_buffer_locked, recycled, reuse, last_two,
}
use reactor_learn.Log.Append.{is_dropped, append_locked-Adds, Collected, collect-Collected}
use reactor_learn.Log.Buffers.{
  IsWhole, IsPending, IsValid, logged, Adds, fresh_buffer-IsWhole, supply_next-Adds,
}

-- Where the back end's thread is in its loop: it waits to be woken up, it will take the work list, it
-- writes what it took, it gives buffers back, or it has left the loop.
pub data Stage : Type 0 where
  waits collects ended : Stage
  writes_out recycles : List PendingBuffer → Stage

-- The back end with its file; `opened` is whether `fopen` gave one.
pub record Backend : Type 0 where
  pub log : AsyncLogging
  pub file : Bytes
  pub opened : Bool
  pub stage : Stage

abbrev pub is_empty : List PendingBuffer → Bool
is_empty [] = true
is_empty (p ∷ l) = false

-- The critical section that takes the work list, and the test for the end of the loop in it.
abbrev pub collected : List PendingBuffer → AsyncLogging → Backend → Backend
collected work_list log s = record s {
  log = log;
  stage = if not log.running && is_empty work_list then ended else writes_out work_list;
}

-- One step of `BackendThreadFunc`: it wakes up; a critical section; the writing, for which it holds no
-- lock; and the other critical section.
unfoldable pub advance : Stage → Backend → Backend
unfolding collect written reuse
advance waits s = record s { log = record s.log { wake_requested = false }; stage = collects }
advance collects s = let (work_list, log) = collect s.log in collected work_list log s
advance (writes_out work_list) s = record s {
  file = if s.opened then s.file ++ written work_list else s.file;
  stage = recycles work_list;
}
advance (recycles work_list) s = record s { log = reuse work_list s.log; stage = waits }
advance ended s = s

abbrev pub back_step : Backend → Backend
back_step s = advance s.stage s

pub data Event : Type 0 where
  appends : Bytes → Event
  steps : Event

-- A thread's `Append`, or a step of the back end.
unfoldable pub event : Event → Backend → Backend
unfolding advance
event (appends buf) s = record s { log = append_locked buf s.log }
event steps s = back_step s

unfoldable pub events : List Event → Backend → Backend
unfolding event
events [] s = s
events (e ∷ es) s = events es (event e s)

-- The texts that `Append` does not drop, in their order.
unfoldable pub kept : List Event → Backend → Bytes
unfolding event
kept [] s = []
kept (appends buf ∷ es) s =
    (if is_dropped buf s.log then [] else buf) ++ kept es (event (appends buf) s)
kept (steps ∷ es) s = kept es (event steps s)

abbrev pub AllFit : List Event → Type 0
AllFit [] = Unit {0}
AllFit (appends buf ∷ es) = (length buf ≤ k_backendbuffersize) × AllFit es
AllFit (steps ∷ es) = AllFit es

-- The buffers that the thread has taken, and what of them is not yet in the file.
abbrev pub in_hand : Stage → List PendingBuffer
in_hand waits = []
in_hand collects = []
in_hand ended = []
in_hand (writes_out work_list) = work_list
in_hand (recycles work_list) = work_list

abbrev pub unwritten : Stage → Bytes
unwritten waits = []
unwritten collects = []
unwritten ended = []
unwritten (writes_out work_list) = written work_list
unwritten (recycles work_list) = []

-- In the file, in the thread's hand and behind it stands this, and the back end is ready for more.
pub record Stands (s : Backend) (text : Bytes) : Type 0 where
  pub valid : IsValid s.log
  pub ready : is_null s.log.current_buffer ≡ false
  pub pending : All IsPending (in_hand s.stage)
  pub opened : s.opened ≡ true
  pub all : s.file ++ (unwritten s.stage ++ logged s.log) ≡ text

recycle-Adds :
    {a d : AsyncLogging} (b : Bytes)
    → IsWhole b
    → Adds a [] d
    → Adds a [] (recycle_buffer_locked b d)
unfolding recycle_buffer_locked
recycle-Adds {a} {d} b w h =
    if_cases (Adds a []) (ltb (length d.empty_buffers) 2)
      (λ _. record {
        valid = record {
          current = h.valid.current;
          fits = h.valid.fits;
          next = h.valid.next;
          pending = h.valid.pending;
          empties = (w, h.valid.empties);
        };
        held = h.held;
        ready = h.ready;
      })
      (λ _. h)

last_two-IsPending : (l : List PendingBuffer) → All IsPending l → All IsPending (last_two l)
unfolding last_two
last_two-IsPending [] h = tt
last_two-IsPending (p ∷ []) h = h
last_two-IsPending (p ∷ q ∷ []) h = h
last_two-IsPending (p ∷ q ∷ r ∷ l) h = last_two-IsPending (q ∷ r ∷ l) h.1

recycled-Adds :
    (l : List PendingBuffer) (a : AsyncLogging)
    → All IsPending l
    → Adds a [] a
    → Adds a [] (recycled l a)
recycled-Adds [] a p h = h
recycled-Adds (x ∷ []) a p h = recycle-Adds x.data_bytes p.0.0 h
recycled-Adds (x ∷ y ∷ l) a p h =
    recycle-Adds y.data_bytes p.1.0.0 (recycle-Adds x.data_bytes p.0.0 h)

reuse-Adds :
    (l : List PendingBuffer) (a : AsyncLogging)
    → All IsPending l
    → IsValid a
    → is_null a.current_buffer ≡ false
    → Adds a [] (reuse l a)
reuse-Adds l a p v r =
    rw steps (supply_next-Adds (recycled-Adds (last_two l) a (last_two-IsPending l p) itself))
  where
    steps : reuse l a ≡ supply_next (recycled (last_two l) a)
    steps = unfold reuse in refl

    itself : Adds a [] a
    itself = record { valid = v; held = sym (append-nil (logged a)); ready = r }

pub written-empty : (l : List PendingBuffer) → is_empty l ≡ true → written l ≡ []
unfolding written
written-empty [] e = refl
written-empty (p ∷ l) e = absurd (ground (arith, e))

-- What is logged does not depend on the flags.
pub flagged-IsValid :
    {a : AsyncLogging} (running wake_requested : Bool)
    → IsValid a
    → IsValid (record a { running = running; wake_requested = wake_requested })
flagged-IsValid running wake_requested v = record {
  current = v.current;
  fits = v.fits;
  next = v.next;
  pending = v.pending;
  empties = v.empties;
}

append-Stands :
    (buf : Bytes) (s : Backend) (text : Bytes)
    → length buf ≤ k_backendbuffersize
    → Stands s text
    → Stands (event (appends buf) s) (text ++ (if is_dropped buf s.log then [] else buf))
unfolding event
append-Stands buf s text small h =
    let a = append_locked-Adds buf s.log h.valid h.ready small in
    let new = if is_dropped buf s.log then [] else buf in
    record {
      valid = a.valid;
      ready = a.ready;
      pending = h.pending;
      opened = h.opened;
      all =
          ap (λ l. s.file ++ (unwritten s.stage ++ l)) a.held
          ∙ ap (λ l. s.file ++ l) (sym (append_assoc (unwritten s.stage) (logged s.log) new))
          ∙ sym (append_assoc s.file (unwritten s.stage ++ logged s.log) new)
          ∙ ap (λ l. l ++ new) h.all;
    }

collected-Stands :
    (file : Bytes) (opened : Bool) (a d : AsyncLogging) (l : List PendingBuffer) (text : Bytes)
    → Collected a l d
    → opened ≡ true
    → file ++ logged a ≡ text
    → Stands
        (collected l d (record { log = a; file = file; opened = opened; stage = collects }))
        text
collected-Stands file opened a d l text c o e =
    if_cases
      (λ (g : Stage). Stands (record { log = d; file = file; opened = opened; stage = g }) text)
      (not d.running && is_empty l)
      (λ t. record {
        valid = c.valid;
        ready = c.ready;
        pending = tt;
        opened = o;
        all =
            ap (λ x. file ++ x)
              (c.none_left
                ∙ sym (written-empty l (let n : is_empty l ≡ true = ground (arith, t) in n))
                ∙ c.all)
            ∙ e;
      })
      (λ _. record {
        valid = c.valid;
        ready = c.ready;
        pending = c.pending;
        opened = o;
        all =
            ap₂ (λ x y. file ++ (x ++ y)) c.all c.none_left
            ∙ ap (λ x. file ++ x) (append-nil (logged a))
            ∙ e;
      })

advance-Stands :
    (g : Stage) (s : Backend) (text : Bytes)
    → Stands (record s { stage = g }) text
    → Stands (advance g (record s { stage = g })) text
unfolding advance
advance-Stands waits s text h = record {
  valid = flagged-IsValid s.log.running false h.valid;
  ready = h.ready;
  pending = tt;
  opened = h.opened;
  all = h.all;
}
advance-Stands collects s text h =
    collected-Stands s.file s.opened s.log (collect s.log).1 (collect s.log).0 text
      (collect-Collected s.log h.valid h.ready) h.opened h.all
advance-Stands (writes_out l) s text h = record {
  valid = h.valid;
  ready = h.ready;
  pending = h.pending;
  opened = h.opened;
  all = rw h.opened (append_assoc s.file (written l) (logged s.log)) ∙ h.all;
}
advance-Stands (recycles l) s text h =
    let r = reuse-Adds l s.log h.pending h.valid h.ready in
    record {
      valid = r.valid;
      ready = r.ready;
      pending = tt;
      opened = h.opened;
      all = ap (λ x. s.file ++ x) (r.held ∙ append-nil (logged s.log)) ∙ h.all;
    }
advance-Stands ended s text h = h

pub back_step-Stands : (s : Backend) (text : Bytes) → Stands s text → Stands (back_step s) text
back_step-Stands s text h = advance-Stands s.stage s text h

-- Whatever the order in which threads append texts that are no longer than a buffer and the thread of the
-- back end takes its steps, its two critical sections and the writing between them apart, while the file
-- is open: the file, what the thread has taken and not yet written, and what is logged behind that, are
-- together exactly the texts that were not dropped, in the order of their appending; no part of one is
-- lost, repeated or torn, and all writing stays inside the buffers.
pub events-Stands :
    (es : List Event) (s : Backend) (text : Bytes)
    → AllFit es
    → Stands s text
    → Stands (events es s) (text ++ kept es s)
unfolding events kept
events-Stands [] s text fits h = rw (append-nil text) h
events-Stands (appends buf ∷ es) s text fits h =
    rw
      (← append_assoc text (if is_dropped buf s.log then [] else buf)
        (kept es (event (appends buf) s)))
      (events-Stands es (event (appends buf) s) (text ++ (if is_dropped buf s.log then [] else buf))
        fits.1 (append-Stands buf s text fits.0 h))
events-Stands (steps ∷ es) s text fits h =
    events-Stands es (event steps s) text fits (unfold event in back_step-Stands s text h)

advance-unopened :
    (g : Stage) (s : Backend)
    → s.opened ≡ false
    → ((advance g s).file ≡ s.file) × ((advance g s).opened ≡ false)
unfolding advance
advance-unopened waits s o = (refl, o)
advance-unopened collects s o = (refl, o)
advance-unopened ended s o = (refl, o)
advance-unopened (recycles l) s o = (refl, o)
advance-unopened (writes_out l) s o = (rw o refl, o)

-- Where `fopen` failed, nothing is ever written.
pub events-unopened :
    (es : List Event) (s : Backend) → s.opened ≡ false → (events es s).file ≡ s.file
unfolding events event
events-unopened [] s o = refl
events-unopened (appends buf ∷ es) s o = events-unopened es (event (appends buf) s) o
events-unopened (steps ∷ es) s o =
    let (file, opened) = advance-unopened s.stage s o in
    events-unopened es (event steps s) opened ∙ file

pub construct-IsValid :
    IsValid construct × (is_null construct.current_buffer ≡ false) × (logged construct ≡ [])
unfolding construct written
construct-IsValid = (
  record {
    current = fresh_buffer-IsWhole;
    fits = omega arith;
    next = fresh_buffer-IsWhole;
    pending = tt;
    empties = tt;
  },
  refl,
  refl,
)
