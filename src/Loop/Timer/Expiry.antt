-- ===== src/Loop/Timer/Expiry.antt =====
-- When an object leaves the wheel: a full turn after it was last inserted, and not before.
use reactor_learn.Prelude.{
  ℕ, suc, ◌+◌, ◌-◌, ◌%◌, ◌^◌, ◌<◌, ◌≡◌, ◌∙◌, ap, sym, ◌≢◌, true, false, Option, none, some, List,
  [], ◌∷◌, ◌++◌, ◌==◌, ==_iff, if◌then◌else◌, if_cases, Bool-cases, inl, inr, length, arith,
}
use native.Mathlib.Nat.{mod-lt, mod-add-mod, mod-eq_of_lt, mod-eq-sub-mod}
use native.Mathlib.Decide.{ℕ_discrete, dec_lt}
use mathlib.Core.Option.{some-injective}
use reactor_learn.Loop.Timer.Wheel.{
  has, Event, ticks_once, inserts, event, events, length-put_at, slot-put_at, slot-put_at_other,
  has-append, insert_pos_lem, insert_lem,
}
use reactor_learn.Loop.Timer.{Timer, slot, put_at, tick, is_at, insert_in_thread}

-- Within a turn the pointer does not come to the same place.
turn_differs : (r d n : ℕ) → r < n → 0 < d → d < n → (r + d) % n ≢ r
turn_differs r d n h p l e = elim (dec_lt (r + d) n) [
  | yes inside ↦
      let z : (r + d) % n ≡ r + d = mod-eq_of_lt inside in absurd (omega (arith, sym e ∙ z))
  | no around ↦
      let z : (r + d) % n ≡ r + d - n =
        mod-eq-sub-mod {n = r + d} {m = n} (omega arith)
        ∙ mod-eq_of_lt {n = r + d - n} {m = n} (omega arith) in
      absurd (omega (arith, sym e ∙ z))
]

places_differ : (b j k m : ℕ) → j < k → k < suc m + j → (b + j) % suc m ≢ (b + k) % suc m
places_differ b j k m h l e =
    turn_differs ((b + j) % suc m) (k - j) (suc m) (mod-lt (b + j) (omega arith)) (omega arith)
      (omega arith)
      (mod-add-mod (b + j) (suc m) (k - j)
        ∙ ap (λ n. n % suc m) (let z : b + j + (k - j) ≡ b + k = omega arith in z)
        ∙ sym e)

-- `k` ticks after the object was inserted with the pointer at `base`: it is still where it was put.
record Held (object base k m : ℕ) (t : Timer) : Type 0 where
  size : length t.timerwheel ≡ suc m
  ptr : t.ptr ≡ (base + k) % suc m
  held : has object (slot t.timerwheel ((base + m) % suc m)) ≡ true
  last : t.last_insert_pos object ≡ some ((base + m) % suc m)

tick-Held :
    (object base k m : ℕ) (t : Timer)
    → k < m
    → Held object base k m t
    → Held object base (suc k) m (tick t)
unfolding tick
tick-Held object base k m t h s = record {
  size = length-put_at t.ptr [] t.timerwheel ∙ s.size;
  ptr = rw (s.size, s.ptr, mod-add-mod (base + k) (suc m) 1) (ap (λ n. n % suc m) (omega arith));
  held =
      rw
        (slot-put_at_other t.ptr ((base + m) % suc m) [] t.timerwheel
          (λ e. places_differ base k m m h (omega arith) (sym s.ptr ∙ e)))
        s.held;
  last = s.last;
}

-- What is in a slot stays there when something is put behind it.
still_has :
    (x object pos place : ℕ) (wheel : List (List ℕ))
    → pos < length wheel
    → has x (slot wheel place) ≡ true
    → has x (slot (put_at pos (slot wheel pos ++ (object ∷ [])) wheel) place) ≡ true
still_has x object pos place wheel h e = elim (ℕ_discrete pos place) [
  | yes same ↦
      rw
        (
          ← same,
          slot-put_at pos (slot wheel pos ++ (object ∷ [])) wheel h,
          has-append x (slot wheel pos) (object ∷ []),
        )
        (rw (same, e))
  | no other ↦ rw (slot-put_at_other pos place (slot wheel pos ++ (object ∷ [])) wheel other) e
]

-- Inserting another object.
insert_other-Held :
    (object base k m other : ℕ) (t : Timer)
    → other ≢ object
    → t.ptr < suc m
    → m < 2 ^ 31
    → Held object base k m t
    → Held object base k m (insert_in_thread other t)
insert_other-Held object base k m other t differs inside small s =
    rw (insert_lem, s.size, insert_pos_lem t.ptr m inside small)
      (if_cases (Held object base k m) (is_at (t.last_insert_pos other) ((t.ptr + m) % suc m))
        (λ _. s)
        (λ _. record {
          size =
              length-put_at ((t.ptr + m) % suc m)
                (slot t.timerwheel ((t.ptr + m) % suc m) ++ (other ∷ [])) t.timerwheel
              ∙ s.size;
          ptr = s.ptr;
          held =
              still_has object other ((t.ptr + m) % suc m) ((base + m) % suc m) t.timerwheel
                (rw s.size (mod-lt (t.ptr + m) (omega arith))) s.held;
          last = rw (not_same object other (λ e. differs (sym e))) s.last;
        }))
  where
    not_same : (a b : ℕ) → a ≢ b → (a == b) ≡ false
    not_same a b h = elim (Bool-cases (a == b)) [
      | inl e ↦ absurd (h ((==_iff a b).0 e))
      | inr e ↦ e
    ]

has_itself : (x : ℕ) (xs : List ℕ) → has x (xs ++ (x ∷ [])) ≡ true
has_itself x xs = rw (has-append x xs (x ∷ [])) (ground arith)

-- Inserting the object itself starts anew, if what the object remembers is true.
insert-Held :
    (object m : ℕ) (t : Timer)
    → length t.timerwheel ≡ suc m
    → t.ptr < suc m
    → m < 2 ^ 31
    → ((pos : ℕ) → t.last_insert_pos object ≡ some pos → has object (slot t.timerwheel pos) ≡ true)
    → Held object t.ptr 0 m (insert_in_thread object t)
insert-Held object m t size inside small true_memory =
    rw (insert_lem, size, insert_pos_lem t.ptr m inside small)
      (if_cases (Held object t.ptr 0 m) (is_at (t.last_insert_pos object) pos)
        (λ e.
          let remembered = at_place (t.last_insert_pos object) e in
          record { size = size; ptr = now; held = true_memory pos remembered; last = remembered })
        (λ _. record {
          size = length-put_at pos (slot t.timerwheel pos ++ (object ∷ [])) t.timerwheel ∙ size;
          ptr = now;
          held =
              rw
                (slot-put_at pos (slot t.timerwheel pos ++ (object ∷ [])) t.timerwheel
                  (rw size (mod-lt (t.ptr + m) (omega arith))))
                (has_itself object (slot t.timerwheel pos));
          last = rw (same object);
        }))
  where
    pos : ℕ
    pos = (t.ptr + m) % suc m

    now : t.ptr ≡ (t.ptr + 0) % suc m
    now =
        sym
          (ap (λ n. n % suc m) (let z : t.ptr + 0 ≡ t.ptr = omega arith in z) ∙ mod-eq_of_lt inside)

    same : (a : ℕ) → (a == a) ≡ true
    same a = ground arith

    at_place : (o : Option ℕ) → is_at o pos ≡ true → o ≡ some pos
    at_place none e = absurd (ground arith)
    at_place (some p) e = ap some ((==_iff p pos).0 e)

-- The object is inserted again before a full turn has passed, each time.
unfoldable pub InTime : ℕ → ℕ → ℕ → List Event → Type 0
InTime object m k [] = Unit {0}
InTime object m k (ticks_once ∷ es) = (k < m) × InTime object m (suc k) es
InTime object m k (inserts other ∷ es) =
    if other == object then InTime object m 0 es else InTime object m k es

kept_alive :
    (object base k m : ℕ) (t : Timer) (es : List Event)
    → m < 2 ^ 31
    → Held object base k m t
    → InTime object m k es
    → (place : ℕ) × (has object (slot (events es t).timerwheel place) ≡ true)
unfolding events event InTime
kept_alive object base k m t [] small s h = ((base + m) % suc m, s.held)
kept_alive object base k m t (ticks_once ∷ es) small s h =
    kept_alive object base (suc k) m (tick t) es small (tick-Held object base k m t h.0 s) h.1
kept_alive object base k m t (inserts other ∷ es) small s h = elim (Bool-cases (other == object)) [
  | inl e ↦
      let same : other ≡ object = (==_iff other object).0 e in
      rw same (
        kept_alive object t.ptr 0 m (insert_in_thread object t) es small
          (insert-Held object m t s.size inside small (λ pos l. remembers pos (sym s.last ∙ l)))
          (rw e at h))
  | inr e ↦
      kept_alive object base k m (insert_in_thread other t) es small
        (insert_other-Held object base k m other t (λ same. absurd (ground (arith, same))) inside
          small s)
        (rw e at h)
]
  where
    inside : t.ptr < suc m
    inside = rw s.ptr (mod-lt (base + k) (omega arith))

    remembers :
        (pos : ℕ) → some ((base + m) % suc m) ≡ some pos → has object (slot t.timerwheel pos) ≡ true
    remembers pos e = rw (← some-injective ((base + m) % suc m) pos e) s.held

-- A connection that shows life at least once in a turn of the wheel of at most 2 ^ 31 slots is
-- not closed: a fresh object that is inserted again before as many ticks as the wheel has slots
-- stays in the wheel.
pub insert-stays :
    (object m : ℕ) (t : Timer) (es : List Event)
    → length t.timerwheel ≡ suc m
    → t.ptr < suc m
    → m < 2 ^ 31
    → t.last_insert_pos object ≡ none
    → InTime object m 0 es
    → (place : ℕ) × (has object (slot (events es (insert_in_thread object t)).timerwheel place)
        ≡ true)
insert-stays object m t es size inside small fresh h =
    kept_alive object t.ptr 0 m (insert_in_thread object t) es small
      (insert-Held object m t size inside small (λ pos e. absurd (none_some pos (sym fresh ∙ e)))) h
  where
    none_some : (pos : ℕ) → none ≢ some pos
    none_some pos e = cc
