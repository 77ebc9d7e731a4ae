-- ===== src/Buffer/Write.antt =====
-- `WriteBuffer` and `ReadFd`: what comes in stands behind what is held.
use reactor_learn.Prelude.{
  ℕ, ◌+◌, ◌%◌, ◌^◌, ◌≤◌, ◌<◌, ◌≡◌, refl, ◌∙◌, ap, List, ◌++◌, arith, ltb, if_cases, if◌then◌else◌,
  length, take_all, resize,
}
use reactor_learn.Buffer.{
  Buffer, put_at_end, move_ptr, make_room, make_room_unsigned, write_buffer, write_chars,
}
use reactor_learn.Buffer.Invariant.{
  IsValid, max_size, contents, length-contents, Moved, move_ptr-Moved, Moved-IsValid, grown,
  contents-grown, grown-IsValid, length-grown, contents-put_at_end, put_at_end-IsValid,
}

-- Room for `len` bytes behind what is held, and nothing else changed.
pub record Roomy (b : Buffer) (len : ℕ) (b' : Buffer) : Type 0 where
  pub valid : IsValid b'
  pub held : contents b' ≡ contents b
  pub room : b'.writeptr + len ≤ length b'.buffer

-- Either room, by how the end of the message is computed.
room_with : (ℕ → ℕ) → Buffer → Buffer
room_with end b =
    if ltb (length b.buffer) (end b.writeptr)
    then (let b' = move_ptr b in
        if ltb (length b'.buffer) (end b'.writeptr)
        then record b' { buffer = resize b'.buffer (end b'.writeptr) 0 }
        else b')
    else b

write_buffer_steps :
    (b : Buffer) (m : List ℕ)
    → write_buffer b m ≡ put_at_end (room_with (λ w. (w + length m) % 2 ^ 64) b) m
unfolding write_buffer make_room room_with
write_buffer_steps b m = refl

write_chars_steps :
    (b : Buffer) (m : List ℕ)
    → write_chars b m (length m) ≡ put_at_end (room_with (λ w. (w + length m) % 2 ^ 32) b) m
unfolding write_chars make_room_unsigned room_with put_at_end
write_chars_steps b m = rw (take_all (length m) m (omega arith)) refl

module _ (b : Buffer) (v : IsValid b) (len : ℕ) (fits : length (contents b) + len < max_size) where
  pub grown-Roomy :
      (b' : Buffer) (n : ℕ)
      → Moved b b'
      → n ≡ b'.writeptr + len
      → length b'.buffer ≤ n
      → Roomy b len (grown b' n)
  unfolding grown
  grown-Roomy b' n m e h = record {
    valid = grown-IsValid b' n v' h (omega (arith, e, m.count, length-contents v));
    held = contents-grown b' n v' h ∙ m.held;
    room = omega (arith, e, length-grown b' n);
  }
    where
      v' : IsValid b'
      v' = Moved-IsValid v m

  module _ (end : ℕ → ℕ) (sum : (w : ℕ) → w < max_size → end w ≡ w + len) where
    room_with_lem : room_with end b ≡ (
        if ltb (length b.buffer) (end b.writeptr)
        then (if ltb (length (move_ptr b).buffer) (end (move_ptr b).writeptr)
            then grown (move_ptr b) (end (move_ptr b).writeptr)
            else move_ptr b)
        else b)
    unfolding room_with grown
    room_with_lem = refl

    room_with-Roomy : Roomy b len (room_with end b)
    room_with-Roomy =
        let m : Moved b (move_ptr b) = move_ptr-Moved b v in
        let after : end (move_ptr b).writeptr ≡ (move_ptr b).writeptr + len =
          sum (move_ptr b).writeptr (omega (arith, m.count)) in
        rw room_with_lem (
          if_cases (Roomy b len) (ltb (length b.buffer) (end b.writeptr))
            (λ _.
              if_cases (Roomy b len) (ltb (length (move_ptr b).buffer) (end (move_ptr b).writeptr))
                (λ t. grown-Roomy (move_ptr b) (end (move_ptr b).writeptr) m after (ground arith))
                (λ t. record {
                  valid = Moved-IsValid v m;
                  held = m.held;
                  room = ground (arith, after);
                }))
            (λ t. record { valid = v; held = refl; room = ground (arith, sum b.writeptr) }))

-- `WriteBuffer` puts the message behind what is held and keeps the buffer valid, moving or growing it
-- where it must, as long as all that is held stays below 2 ^ 31 bytes.
pub write_buffer_lem :
    (b : Buffer) (m : List ℕ)
    → IsValid b
    → length (contents b) + length m < max_size
    → IsValid (write_buffer b m) × (contents (write_buffer b m) ≡ contents b ++ m)
write_buffer_lem b m v fits =
    let r =
      room_with-Roomy b v (length m) fits (λ w. (w + length m) % 2 ^ 64) (λ w h. omega arith) in
    rw write_buffer_steps
      (put_at_end-IsValid _ m r.valid r.room, contents-put_at_end _ m r.valid r.room ∙ rw r.held)

-- So does the overload for a pointer and a length.
pub write_chars_lem :
    (b : Buffer) (m : List ℕ)
    → IsValid b
    → length (contents b) + length m < max_size
    → IsValid (write_chars b m (length m))
      × (contents (write_chars b m (length m)) ≡ contents b ++ m)
write_chars_lem b m v fits =
    let r =
      room_with-Roomy b v (length m) fits (λ w. (w + length m) % 2 ^ 32) (λ w h. omega arith) in
    rw write_chars_steps
      (put_at_end-IsValid _ m r.valid r.room, contents-put_at_end _ m r.valid r.room ∙ rw r.held)

room_with-same :
    (b : Buffer) (f g : ℕ → ℕ)
    → f b.writeptr ≡ g b.writeptr
    → f (move_ptr b).writeptr ≡ g (move_ptr b).writeptr
    → room_with f b ≡ room_with g b
unfolding room_with
room_with-same b f g e e' = rw (e, e') refl

-- On a valid buffer and for a message of fewer than 2 ^ 31 bytes, the two overloads of `WriteBuffer`,
-- each with its own code and one with its sums in size_t, the other in unsigned int, leave the same buffer,
-- pointers and memory included.
pub write_buffer-write_chars :
    (b : Buffer) (m : List ℕ)
    → IsValid b
    → length m < max_size
    → write_buffer b m ≡ write_chars b m (length m)
write_buffer-write_chars b m v small =
    rw (write_buffer_steps, write_chars_steps)
      (ap (λ r. put_at_end r m)
        (room_with-same b (λ w. (w + length m) % 2 ^ 64) (λ w. (w + length m) % 2 ^ 32)
          (sums b.writeptr (omega (arith, v.inside, v.small)))
          (sums (move_ptr b).writeptr (omega (arith, moved.count, v.inside, v.small)))))
  where
    sums : (w : ℕ) → w < max_size → (w + length m) % 2 ^ 64 ≡ (w + length m) % 2 ^ 32
    sums w h = omega arith

    moved : Moved b (move_ptr b)
    moved = move_ptr-Moved b v
