-- ===== src/Loop/Timer.antt =====
-- src/timer/timer.cpp: the timing wheel of heartbeats. A HeartBeatObj is a number; the wheel's slots hold
-- the shared pointers to it, which are the only ones once its connection holds a weak one, so that an
-- object that is in no slot is destroyed, which closes its connection. `last_insert_pos_` is a field of
-- the object, `none` for its first value -1.
pub mod Wheel
pub mod Expiry
pub mod Gone
pub mod Heartbeat
pub mod Reading
use reactor_learn.Prelude.{
  ℕ, zero, suc, ◌+◌, ◌-◌, ◌%◌, ◌^◌, Bool, true, false, Option, none, some, List, [], ◌∷◌, ◌++◌,
  ◌||◌, ◌==◌, if◌then◌else◌, length,
}

pub record Timer : Type 0 where
  pub timerwheel : List (List ℕ)
  pub ptr : ℕ
  pub last_insert_pos : ℕ → Option ℕ

-- An element of the vector, and its replacement; the code's indices are in range.
unfoldable pub slot : List (List ℕ) → ℕ → List ℕ
slot [] n = []
slot (x ∷ xs) zero = x
slot (x ∷ xs) (suc n) = slot xs n

unfoldable pub put_at : ℕ → List ℕ → List (List ℕ) → List (List ℕ)
put_at n y [] = []
put_at zero y (x ∷ xs) = y ∷ xs
put_at (suc n) y (x ∷ xs) = x ∷ put_at n y xs

-- `Tick`
unfoldable pub tick : Timer → Timer
unfolding put_at
tick t = record t {
  timerwheel = put_at t.ptr [] t.timerwheel;
  ptr = (t.ptr + 1) % length t.timerwheel;
}

-- `(ptr_ - 1 + size) % size`: -1 is 2 ^ 64 - 1 as a size_t, and the sum wraps.
abbrev pub insert_pos : ℕ → ℕ → ℕ
insert_pos ptr size = ((ptr + 2 ^ 64 - 1) % 2 ^ 64 + size) % 2 ^ 64 % size

abbrev pub is_at : Option ℕ → ℕ → Bool
is_at none pos = false
is_at (some p) pos = p == pos

-- `InsertInThread`
unfoldable pub insert_in_thread : ℕ → Timer → Timer
unfolding slot put_at
insert_in_thread object t =
    let pos = insert_pos t.ptr (length t.timerwheel) in
    if is_at (t.last_insert_pos object) pos then t else record t {
      timerwheel = put_at pos (slot t.timerwheel pos ++ (object ∷ [])) t.timerwheel;
      last_insert_pos = λ o. if o == object then some pos else t.last_insert_pos o;
    }

-- The callback of the timer's channel, when the kernel counted `times` expirations.
unfoldable pub ticks : ℕ → Timer → Timer
unfolding tick
ticks zero t = t
ticks (suc n) t = ticks n (tick t)
