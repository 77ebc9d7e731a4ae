-- ===== src/Buffer/Bytes.antt =====
-- What the bytes of a buffer and those that arrive all are, and zero is, the buffer's bytes stay.
use reactor_learn.Prelude.{
  ℕ, zero, suc, ◌-◌, ◌+◌, List, ltb, ◌==◌, if_cases, if◌then◌else◌, take, drop, length, overwrite,
  resize, replicate, All, All-append, All-take, All-drop,
}
use reactor_learn.Buffer.{
  Buffer, done, move_ptr, expand, put_at_end, take_in, read_fd, to_int, add_size,
}

module _ {κ} (P : ℕ → Type κ) where
  All-overwrite :
      (xs : List ℕ) (i : ℕ) (ys : List ℕ) → All P xs → All P ys → All P (overwrite xs i ys)
  unfolding overwrite
  All-overwrite xs i ys hx hy =
      All-append P (take i xs) _ (All-take P i xs hx)
        (All-append P ys _ hy (All-drop P (i + length ys) xs hx))

  move_ptr-All : (b : Buffer) → All P b.buffer → All P (move_ptr b).buffer
  unfolding move_ptr
  move_ptr-All b h =
      if_cases (λ (c : Buffer). All P c.buffer) (b.readptr == 0) (λ _. h)
        (λ _.
          All-overwrite b.buffer 0 _ h
            (All-take P (b.writeptr - b.readptr) _ (All-drop P b.readptr b.buffer h)))

  put_at_end-All :
      (b : Buffer) (bytes : List ℕ)
      → All P b.buffer
      → All P bytes
      → All P (put_at_end b bytes).buffer
  unfolding put_at_end
  put_at_end-All b bytes h hs = All-overwrite b.buffer b.writeptr bytes h hs

  module _ (z : P 0) where
    All-replicate : (n : ℕ) → All P (replicate n 0)
    All-replicate zero = tt
    All-replicate (suc n) = (z, All-replicate n)

    expand-All : (b : Buffer) (n : ℕ) → All P b.buffer → All P (expand b n).buffer
    unfolding expand resize
    expand-All b n h =
        let moved = move_ptr-All b h in
        if_cases (λ (c : Buffer). All P c.buffer) (ltb (length (move_ptr b).buffer) n)
          (λ _.
            All-append P (take n (move_ptr b).buffer) _ (All-take P n _ moved)
              (All-replicate (n - length (move_ptr b).buffer)))
          (λ _. moved)

    take_in-All :
        (b : Buffer) (bytes : List ℕ)
        → All P b.buffer
        → All P bytes
        → All P (take_in b bytes).buffer
    unfolding take_in
    take_in-All b bytes h hs =
        let room = length b.buffer - b.writeptr in
        let full = record b {
          buffer = overwrite b.buffer b.writeptr (take room bytes);
          writeptr = to_int (length b.buffer);
        } in
        let filled =
          move_ptr-All full
            (All-overwrite b.buffer b.writeptr (take room bytes) h (All-take P room bytes hs)) in
        let need = add_size (length bytes - room) (move_ptr full).writeptr in
        let more = ltb (length (move_ptr full).buffer) need in
        let ready = if more then expand (move_ptr full) (to_int need) else move_ptr full in
        if_cases (λ (c : Buffer). All P c.buffer) (ltb (length bytes) room)
          (λ _. put_at_end-All b bytes h hs)
          (λ _.
            put_at_end-All ready (drop room bytes)
              (if_cases (λ (c : Buffer). All P c.buffer) more
                (λ _. expand-All (move_ptr full) (to_int need) filled) (λ _. filled))
              (All-drop P room bytes hs))

    pub read_fd-All :
        (b : Buffer) (bytes : List ℕ)
        → All P b.buffer
        → All P bytes
        → All P (read_fd b (done bytes)).buffer
    unfolding read_fd
    read_fd-All b bytes h hs =
        if_cases (λ (c : Buffer). All P c.buffer) (length bytes == 0) (λ _. h)
          (λ _. take_in-All b bytes h hs)
