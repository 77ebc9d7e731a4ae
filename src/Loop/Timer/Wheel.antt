-- ===== src/Loop/Timer/Wheel.antt =====
-- The wheel of src/timer/timer.cpp: what its slots hold after each operation.
use reactor_learn.Prelude.{
  ℕ, zero, suc, ◌+◌, ◌%◌, ◌^◌, ◌<◌, ◌≡◌, refl, ap, ◌≢◌, Bool, false, some, List, [], ◌∷◌, ◌++◌,
  ◌||◌, ◌==◌, if◌then◌else◌, Bool-cases, inl, inr, length, arith,
}
use reactor_learn.Loop.Timer.{Timer, slot, put_at, tick, insert_pos, is_at, insert_in_thread}

abbrev pub has : ℕ → List ℕ → Bool
has x [] = false
has x (y ∷ ys) = (y == x) || has x ys

pub data Event : Type 0 where
  ticks_once : Event
  inserts : ℕ → Event

unfoldable pub event : Event → Timer → Timer
event ticks_once t = tick t
event (inserts object) t = insert_in_thread object t

unfoldable pub events : List Event → Timer → Timer
unfolding event
events [] t = t
events (e ∷ es) t = events es (event e t)

pub length-put_at : (n : ℕ) (y : List ℕ) (xs : List (List ℕ)) → length (put_at n y xs) ≡ length xs
unfolding put_at
length-put_at n y [] = refl
length-put_at zero y (x ∷ xs) = refl
length-put_at (suc n) y (x ∷ xs) = ap suc (length-put_at n y xs)

pub slot-put_at :
    (n : ℕ) (y : List ℕ) (xs : List (List ℕ)) → n < length xs → slot (put_at n y xs) n ≡ y
unfolding slot put_at
slot-put_at n y [] h = absurd (omega arith)
slot-put_at zero y (x ∷ xs) h = refl
slot-put_at (suc n) y (x ∷ xs) h = slot-put_at n y xs (omega arith)

pub slot-put_at_other :
    (n m : ℕ) (y : List ℕ) (xs : List (List ℕ)) → n ≢ m → slot (put_at n y xs) m ≡ slot xs m
unfolding slot put_at
slot-put_at_other n m y [] h = refl
slot-put_at_other zero zero y (x ∷ xs) h = absurd (h refl)
slot-put_at_other zero (suc m) y (x ∷ xs) h = refl
slot-put_at_other (suc n) zero y (x ∷ xs) h = refl
slot-put_at_other (suc n) (suc m) y (x ∷ xs) h = slot-put_at_other n m y xs (λ e. h (ap suc e))

pub has-append : (x : ℕ) (xs ys : List ℕ) → has x (xs ++ ys) ≡ (has x xs || has x ys)
has-append x [] ys = refl
has-append x (y ∷ xs) ys = elim (Bool-cases (y == x)) [
  | inl e ↦ rw e
  | inr e ↦ rw e (has-append x xs ys)
]

-- The wheel's place one before the pointer.
pub insert_pos_lem :
    (ptr m : ℕ) → ptr < suc m → m < 2 ^ 31 → insert_pos ptr (suc m) ≡ (ptr + m) % suc m
insert_pos_lem ptr m h small = ap (λ k. k % suc m) (omega arith)

pub insert_lem :
    (object : ℕ) (t : Timer)
    → insert_in_thread object t ≡ (
        let pos = insert_pos t.ptr (length t.timerwheel) in
        if is_at (t.last_insert_pos object) pos then t else record t {
          timerwheel = put_at pos (slot t.timerwheel pos ++ (object ∷ [])) t.timerwheel;
          last_insert_pos = λ o. if o == object then some pos else t.last_insert_pos o;
        })
unfolding insert_in_thread
insert_lem object t = refl
