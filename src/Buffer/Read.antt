-- ===== src/Buffer/Read.antt =====
-- `ReadBuffer`, `WriteFd` and `PeekUnsignedInt`: what goes out is taken from the front of what is held.
use reactor_learn.Prelude.{
  ℕ, ◌+◌, ◌-◌, ◌%◌, ◌^◌, ◌≤◌, ◌<◌, ◌≡◌, refl, sym, none, some, [], arith, ltb, ◌==◌, if_cases,
  if◌then◌else◌, take, drop, length, take-drop, drop-drop, drop_all, take-take, lt→ltb, le→ltb,
  length-replicate,
}
use reactor_learn.Buffer.{Buffer, done, size, read_all, read_buffer, write_fd, make}
use reactor_learn.Buffer.Invariant.{IsValid, max_size, contents, length-contents, size_lem}

abbrev reset : Buffer → Buffer
reset b = record b { readptr = 0; writeptr = 0 }

abbrev advanced : Buffer → ℕ → Buffer
advanced b n = record b { readptr = (b.readptr + n) % 2 ^ 32 }

-- `n` bytes are taken from the front.
pub record Taken (b : Buffer) (n : ℕ) (b' : Buffer) : Type 0 where
  pub valid : IsValid b'
  pub held : contents b' ≡ drop n (contents b)
  pub memory : b'.buffer ≡ b.buffer

reset-Taken : (b : Buffer) (n : ℕ) → IsValid b → length (contents b) ≤ n → Taken b n (reset b)
reset-Taken b n v h = record {
  valid = omega (arith, v.small);
  held =
      unfold contents in
      sym (
        drop_all n (take (b.writeptr - b.readptr) (drop b.readptr b.buffer))
          (unfold contents in h));
  memory = refl;
}

advanced-Taken :
    (b : Buffer) (n : ℕ) → IsValid b → n ≤ length (contents b) → Taken b n (advanced b n)
advanced-Taken b n v h = record {
  valid = omega (arith, length-contents v);
  held =
      unfold contents in
      rw (same, ← drop-drop n b.readptr (b.readptr + n) b.buffer (omega arith))
        (take-drop (b.writeptr - (b.readptr + n)) n (b.writeptr - b.readptr)
          (drop b.readptr b.buffer) (omega (arith, length-contents v)));
  memory = refl;
}
  where
    same : (b.readptr + n) % 2 ^ 32 ≡ b.readptr + n
    same = omega (arith, length-contents v)

read_buffer_steps :
    (b : Buffer) (len : ℕ)
    → read_buffer b len ≡ (
        if ltb (size b) len
        then none
        else some (
          take len (drop b.readptr b.buffer),
          (if size b == len then reset b else advanced b len),
        ))
unfolding read_buffer
read_buffer_steps b len = refl

pub taken_out :
    (b : Buffer) (len : ℕ)
    → len ≤ b.writeptr - b.readptr
    → take len (drop b.readptr b.buffer) ≡ take len (contents b)
unfolding contents
taken_out b len h = sym (take-take len (b.writeptr - b.readptr) (drop b.readptr b.buffer) h)

-- `ReadBuffer` throws when it is asked for more than is held.
pub read_buffer-none :
    (b : Buffer) (len : ℕ) → IsValid b → length (contents b) < len → read_buffer b len ≡ none
read_buffer-none b len v h = rw (read_buffer_steps, size_lem v, lt→ltb (length (contents b)) len h)

-- Otherwise it gives the first `len` bytes, and the rest stays held.
pub read_buffer-some :
    (b : Buffer) (len : ℕ)
    → IsValid b
    → len ≤ length (contents b)
    → (b' : Buffer) × (read_buffer b len ≡ some (take len (contents b), b')) × Taken b len b'
read_buffer-some b len v h = (
  b',
  rw (
    read_buffer_steps,
    size_lem v,
    le→ltb (length (contents b)) len h,
    taken_out b len (omega (arith, length-contents v)),
  ),
  if_cases (Taken b len) (length (contents b) == len) (λ t. reset-Taken b len v (ground arith))
      (λ t. advanced-Taken b len v h),
)
  where
    b' : Buffer
    b' = if length (contents b) == len then reset b else advanced b len

-- `ReadBuffer` of everything.
pub read_all_lem :
    (b : Buffer)
    → IsValid b
    → ((read_all b).0 ≡ contents b) × IsValid (read_all b).1 × (contents (read_all b).1 ≡ [])
unfolding read_all contents
read_all_lem b v = (refl, omega (arith, v.small), refl)

-- `WriteFd` drops the bytes that the kernel took.
pub write_fd-Taken :
    (b : Buffer) (n : ℕ) → IsValid b → n ≤ length (contents b) → Taken b n (write_fd b (done n))
write_fd-Taken b n v h = rw steps (
    if_cases (Taken b n) ((b.readptr + n) % 2 ^ 32 == b.writeptr)
      (λ t. reset-Taken b n v (ground (arith, length-contents v))) (λ t. advanced-Taken b n v h))
  where
    steps :
        write_fd b (done n)
        ≡ (if (b.readptr + n) % 2 ^ 32 == b.writeptr then reset b else advanced b n)
    steps = unfold write_fd in refl

pub make-IsValid : (n : ℕ) → n < max_size → IsValid (make n) × (contents (make n) ≡ [])
unfolding make contents
make-IsValid n h = (omega (arith, length-replicate n (let z : ℕ = 0 in z)), refl)
