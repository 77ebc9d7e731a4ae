-- ===== src/Buffer/Invariant.antt =====
-- The buffer's invariant, what it holds, and how each operation changes that.
use reactor_learn.Prelude.{
  ℕ, ◌+◌, ◌-◌, ◌%◌, ◌^◌, ◌≤◌, ◌<◌, ◌≡◌, refl, sym, Bool, true, false, List, ◌++◌, arith, ◌==◌,
  ==_iff, if◌then◌else◌, take, drop, length, overwrite, resize, length-overwrite, length-resize,
  take-drop, drop-append_le, take-append_self, append_assoc, take-take, resize-grow, replicate,
  take-append_le,
}
use reactor_learn.Kv.ByteOrder.Laws.{lengths, length-append_bytes}
use reactor_learn.Buffer.{Buffer, empty, size, c_read_data, move_ptr, put_at_end}

-- Capacities stay below 2 ^ 31, so that no int overflows.
abbrev pub max_size : ℕ
max_size = 2 ^ 31

pub record IsValid (b : Buffer) : Type 0 where
  pub order : b.readptr ≤ b.writeptr
  pub inside : b.writeptr ≤ length b.buffer
  pub small : length b.buffer < max_size

-- The bytes that are held: between the two pointers.
unfoldable pub contents : Buffer → List ℕ
contents b = take (b.writeptr - b.readptr) (drop b.readptr b.buffer)

pub length-contents : {b : Buffer} → IsValid b → length (contents b) ≡ b.writeptr - b.readptr
unfolding contents
length-contents v = omega lengths

pub size_lem : {b : Buffer} → IsValid b → size b ≡ length (contents b)
unfolding size
size_lem v = omega (arith, length-contents v)

pub empty_lem : {b : Buffer} → IsValid b → empty b ≡ (length (contents b) == 0)
unfolding empty
empty_lem v = ground (arith, length-contents v)

-- What `CReadData` points to begins with what is held.
pub take-c_read_data :
    (n : ℕ) (b : Buffer) → n ≤ b.writeptr - b.readptr → take n (c_read_data b) ≡ take n (contents b)
unfolding c_read_data contents
take-c_read_data n b h = sym (take-take n (b.writeptr - b.readptr) (drop b.readptr b.buffer) h)

-- After `MovePtr` the same bytes are held, from the front on.
pub record Moved (b b' : Buffer) : Type 0 where
  pub held : contents b' ≡ contents b
  pub front : b'.readptr ≡ 0
  pub count : b'.writeptr ≡ b.writeptr - b.readptr
  pub room : length b'.buffer ≡ length b.buffer

abbrev shifted : Buffer → Buffer
shifted b = record {
  buffer = overwrite b.buffer 0 (contents b);
  readptr = 0;
  writeptr = b.writeptr - b.readptr;
}

shifted-Moved : (b : Buffer) → IsValid b → Moved b (shifted b)
shifted-Moved b v = record {
  held =
      unfold contents in
      unfold overwrite in
      take-append_self (b.writeptr - b.readptr - 0) (contents b)
        (drop (0 + length (contents b)) b.buffer) (omega (arith, length-contents v));
  front = refl;
  count = refl;
  room = length-overwrite b.buffer (contents b) 0 (omega (arith, length-contents v));
}

Moved-refl : (b : Buffer) → b.readptr ≡ 0 → Moved b b
Moved-refl b e = record { held = refl; front = e; count = omega arith; room = refl }

move_ptr_lem : (b : Buffer) → move_ptr b ≡ (if b.readptr == 0 then b else shifted b)
unfolding move_ptr contents
move_ptr_lem b = refl

pub move_ptr-Moved : (b : Buffer) → IsValid b → Moved b (move_ptr b)
move_ptr-Moved b v = rw (move_ptr_lem b) (by_test (b.readptr == 0) refl)
  where
    by_test : (t : Bool) → (b.readptr == 0) ≡ t → Moved b (if t then b else shifted b)
    by_test true e = Moved-refl b ((==_iff b.readptr 0).0 e)
    by_test false e = shifted-Moved b v

pub Moved-IsValid : {b b' : Buffer} → IsValid b → Moved b b' → IsValid b'
Moved-IsValid v m = omega (arith, m.front, m.count, m.room)

-- A buffer that only grew at its end holds what it held.
unfoldable pub grown : Buffer → ℕ → Buffer
grown b n = record b { buffer = resize b.buffer n 0 }

pub contents-grown :
    (b : Buffer) (n : ℕ) → IsValid b → length b.buffer ≤ n → contents (grown b n) ≡ contents b
unfolding contents grown
contents-grown b n v h =
    rw
      (
        resize-grow b.buffer n 0 h,
        drop-append_le b.readptr b.buffer (replicate (n - length b.buffer) 0) (omega arith),
      )
      (take-append_le (b.writeptr - b.readptr) (drop b.readptr b.buffer)
        (replicate (n - length b.buffer) 0) (omega lengths))

pub length-grown : (b : Buffer) (n : ℕ) → length (grown b n).buffer ≡ n
unfolding grown
length-grown b n = length-resize b.buffer n 0

pub grown-IsValid :
    (b : Buffer) (n : ℕ) → IsValid b → length b.buffer ≤ n → n < max_size → IsValid (grown b n)
unfolding grown
grown-IsValid b n v h k = omega (arith, length-resize {0} b.buffer n (let z : ℕ = 0 in z))

-- What is written at the end stands behind what is held.
pub contents-put_at_end :
    (b : Buffer) (m : List ℕ)
    → IsValid b
    → b.writeptr + length m ≤ length b.buffer
    → contents (put_at_end b m) ≡ contents b ++ m
unfolding contents put_at_end overwrite
contents-put_at_end b m v h =
    rw
      (
        end,
        drop-append_le b.readptr (take b.writeptr b.buffer) (m ++ after) (omega lengths),
        ← append_assoc (drop b.readptr (take b.writeptr b.buffer)) m after,
        ← take-drop (b.writeptr - b.readptr) b.readptr b.writeptr b.buffer (omega arith),
      )
      (take-append_self (b.writeptr + length m - b.readptr) (contents b ++ m) after
        (omega (arith, length-append_bytes (contents b) m, length-contents v)))
  where
    after : List ℕ
    after = drop (b.writeptr + length m) b.buffer

    end : (b.writeptr + length m) % 2 ^ 32 ≡ b.writeptr + length m
    end = omega arith

pub put_at_end-IsValid :
    (b : Buffer) (m : List ℕ)
    → IsValid b
    → b.writeptr + length m ≤ length b.buffer
    → IsValid (put_at_end b m)
unfolding put_at_end
put_at_end-IsValid b m v h = omega (arith, length-overwrite {0} b.buffer m b.writeptr h)
