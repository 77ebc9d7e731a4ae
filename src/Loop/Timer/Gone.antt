-- ===== src/Loop/Timer/Gone.antt =====
-- After a full turn without being inserted an object is in no slot.
use reactor_learn.Prelude.{
  ℕ, suc, ◌+◌, ◌-◌, ◌%◌, ◌^◌, ◌≤◌, ◌<◌, ◌≡◌, ◌∙◌, ap, sym, ◌≢◌, false, List, [], ◌∷◌, ◌++◌, ◌||◌,
  ◌==◌, ==_iff, if_cases, Bool-cases, inl, inr, length, arith,
}
use native.Mathlib.Nat.{mod-lt, mod-add-mod, mod-eq_of_lt, add-mod_right}
use native.Mathlib.Decide.{ℕ_discrete, dec_lt}
use reactor_learn.Loop.Timer.{Timer, slot, put_at, tick, is_at, insert_in_thread}
use reactor_learn.Loop.Timer.Wheel.{
  has, Event, ticks_once, inserts, event, events, length-put_at, slot-put_at, slot-put_at_other,
  has-append, insert_pos_lem, insert_lem,
}

-- The slots that the pointer passed since `base` do not hold the object.
record Passed (object base k m : ℕ) (t : Timer) : Type 0 where
  size : length t.timerwheel ≡ suc m
  ptr : t.ptr ≡ (base + k) % suc m
  passed : (j : ℕ) → j < k → has object (slot t.timerwheel ((base + j) % suc m)) ≡ false

tick-Passed :
    (object base k m : ℕ) (t : Timer)
    → Passed object base k m t
    → Passed object base (suc k) m (tick t)
unfolding tick
tick-Passed object base k m t s = record {
  size = length-put_at t.ptr [] t.timerwheel ∙ s.size;
  ptr = rw (s.size, s.ptr, mod-add-mod (base + k) (suc m) 1) (ap (λ n. n % suc m) (omega arith));
  passed = λ j h. at_place ((base + j) % suc m) (λ other. s.passed j (earlier j h other));
}
  where
    inside : t.ptr < length t.timerwheel
    inside = rw (s.size, s.ptr) (mod-lt (base + k) (omega arith))

    at_place :
        (place : ℕ)
        → (t.ptr ≢ place → has object (slot t.timerwheel place) ≡ false)
        → has object (slot (put_at t.ptr [] t.timerwheel) place) ≡ false
    at_place place h = elim (ℕ_discrete t.ptr place) [
      | yes e ↦ rw (← e, slot-put_at t.ptr [] t.timerwheel inside)
      | no e ↦ rw (slot-put_at_other t.ptr place [] t.timerwheel e) (h e)
    ]

    earlier : (j : ℕ) → j < suc k → t.ptr ≢ (base + j) % suc m → j < k
    earlier j h other = elim (ℕ_discrete j k) [
      | yes e ↦ absurd (other (s.ptr ∙ ap (λ n. (base + n) % suc m) (sym e)))
      | no e ↦ omega arith
    ]

not_added :
    (x other pos place : ℕ) (wheel : List (List ℕ))
    → other ≢ x
    → pos < length wheel
    → has x (slot wheel place) ≡ false
    → has x (slot (put_at pos (slot wheel pos ++ (other ∷ [])) wheel) place) ≡ false
not_added x other pos place wheel differs h e = elim (ℕ_discrete pos place) [
  | yes same ↦
      rw
        (
          ← same,
          slot-put_at pos (slot wheel pos ++ (other ∷ [])) wheel h,
          has-append x (slot wheel pos) (other ∷ []),
        )
        (rw (same, e) unequal)
  | no apart ↦ rw (slot-put_at_other pos place (slot wheel pos ++ (other ∷ [])) wheel apart) e
]
  where
    unequal : ((other == x) || false) ≡ false
    unequal = elim (Bool-cases (other == x)) [
      | inl t ↦ absurd (differs ((==_iff other x).0 t))
      | inr f ↦ rw f
    ]

insert_other-Passed :
    (object base k m other : ℕ) (t : Timer)
    → other ≢ object
    → m < 2 ^ 31
    → Passed object base k m t
    → Passed object base k m (insert_in_thread other t)
insert_other-Passed object base k m other t differs small s =
    rw (insert_lem, s.size, insert_pos_lem t.ptr m inside small)
      (if_cases (Passed object base k m) (is_at (t.last_insert_pos other) ((t.ptr + m) % suc m))
        (λ _. s)
        (λ _. record {
          size =
              length-put_at ((t.ptr + m) % suc m)
                (slot t.timerwheel ((t.ptr + m) % suc m) ++ (other ∷ [])) t.timerwheel
              ∙ s.size;
          ptr = s.ptr;
          passed = λ j h.
              not_added object other ((t.ptr + m) % suc m) ((base + j) % suc m) t.timerwheel differs
                (rw s.size (mod-lt (t.ptr + m) (omega arith))) (s.passed j h);
        }))
  where
    inside : t.ptr < suc m
    inside = rw s.ptr (mod-lt (base + k) (omega arith))

-- How many ticks there are, and that the object is not inserted.
abbrev pub tick_count : List Event → ℕ
tick_count [] = 0
tick_count (ticks_once ∷ es) = suc (tick_count es)
tick_count (inserts other ∷ es) = tick_count es

abbrev pub IsSilent : ℕ → List Event → Type 0
IsSilent object [] = Unit {0}
IsSilent object (ticks_once ∷ es) = IsSilent object es
IsSilent object (inserts other ∷ es) = (other ≢ object) × IsSilent object es

events-Passed :
    (object base k m : ℕ) (t : Timer) (es : List Event)
    → m < 2 ^ 31
    → Passed object base k m t
    → IsSilent object es
    → Passed object base (k + tick_count es) m (events es t)
unfolding events event
events-Passed object base k m t [] small s h = let z : k + 0 ≡ k = omega arith in rw z s
events-Passed object base k m t (ticks_once ∷ es) small s h =
    let z : k + suc (tick_count es) ≡ suc k + tick_count es = omega arith in
    rw z (events-Passed object base (suc k) m (tick t) es small (tick-Passed object base k m t s) h)
events-Passed object base k m t (inserts other ∷ es) small s h =
    events-Passed object base k m (insert_in_thread other t) es small
      (insert_other-Passed object base k m other t h.0 small s) h.1

-- Each place of the wheel is passed within a turn.
place_passed :
    (base m i : ℕ) → base < suc m → i < suc m → (j : ℕ) × (j < suc m) × ((base + j) % suc m ≡ i)
place_passed base m i b h = elim (dec_lt i base) [
  | yes before ↦ (
    i + suc m - base,
    omega arith,
    ap (λ n. n % suc m) (let z : base + (i + suc m - base) ≡ i + suc m = omega arith in z)
        ∙ add-mod_right i (suc m)
        ∙ mod-eq_of_lt h,
  )
  | no from ↦ (
    i - base,
    omega arith,
    ap (λ n. n % suc m) (let z : base + (i - base) ≡ i = omega arith in z) ∙ mod-eq_of_lt h,
  )
]

-- A connection that shows no life for as many ticks as the wheel has slots, fewer than 2 ^ 31, is
-- closed: whatever other objects are inserted meanwhile, no slot holds the object any more, which
-- destroys it.
pub events-gone :
    (object m : ℕ) (t : Timer) (es : List Event) (place : ℕ)
    → length t.timerwheel ≡ suc m
    → t.ptr < suc m
    → m < 2 ^ 31
    → IsSilent object es
    → suc m ≤ tick_count es
    → place < suc m
    → has object (slot (events es t).timerwheel place) ≡ false
events-gone object m t es place size inside small silent turn inside_too =
    let s = events-Passed object t.ptr 0 m t es small start silent in
    let (j, h, e) = place_passed t.ptr m place inside inside_too in
    rw (← e) (s.passed j (omega arith))
  where
    start : Passed object t.ptr 0 m t
    start = record {
      size = size;
      ptr = sym (
          ap (λ n. n % suc m) (let z : t.ptr + 0 ≡ t.ptr = omega arith in z) ∙ mod-eq_of_lt inside);
      passed = λ j h. absurd (omega arith);
    }
