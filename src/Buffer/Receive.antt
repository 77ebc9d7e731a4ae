-- ===== src/Buffer/Receive.antt =====
-- `ReadFd`: the bytes that the kernel gave stand behind what was held, in order.
use reactor_learn.Prelude.{
  ℕ, ◌+◌, ◌-◌, ◌%◌, ◌^◌, ◌≤◌, ◌<◌, ◌≡◌, refl, ap, sym, ◌∙◌, true, List, ◌++◌, arith, ltb, ◌==◌,
  le→ltb, empty_of_length, if_cases, if◌then◌else◌, take, drop, length, overwrite, append_assoc,
  append-nil, take-append-drop,
}
use native.Mathlib.Decide.{dec_lt}
use reactor_learn.Kv.ByteOrder.Laws.{lengths, length-append_bytes}
use reactor_learn.Buffer.{Buffer, done, move_ptr, expand, put_at_end, take_in, read_fd}
use reactor_learn.Buffer.Invariant.{
  IsValid, max_size, contents, Moved, move_ptr-Moved, Moved-IsValid, grown, contents-put_at_end,
  put_at_end-IsValid,
}
use reactor_learn.Buffer.Write.{Roomy, grown-Roomy}

expand_lem :
    (b : Buffer) (n : ℕ)
    → expand b n ≡ (if ltb (length (move_ptr b).buffer) n then grown (move_ptr b) n else move_ptr b)
unfolding expand grown
expand_lem b n = refl

-- `Expand` to the sum of what is held and `len`.
expand-Roomy :
    (b : Buffer) (len n : ℕ) (v : IsValid b)
    → length (contents b) + len < max_size
    → n ≡ (move_ptr b).writeptr + len
    → Roomy b len (expand b n)
expand-Roomy b len n v fits e =
    let m : Moved b (move_ptr b) = move_ptr-Moved b v in
    rw expand_lem (
      if_cases (Roomy b len) (ltb (length (move_ptr b).buffer) n)
        (λ t. grown-Roomy b v len fits (move_ptr b) n m e (ground arith))
        (λ t. record { valid = Moved-IsValid v m; held = m.held; room = ground arith }))

-- What `ReadFd` has done.
record Received (b : Buffer) (bytes : List ℕ) (b' : Buffer) : Type 0 where
  valid : IsValid b'
  held : contents b' ≡ contents b ++ bytes

put_at_end-Received :
    {b b' : Buffer} (m : List ℕ) → Roomy b (length m) b' → Received b m (put_at_end b' m)
put_at_end-Received {b' = b'} m r = record {
  valid = put_at_end-IsValid b' m r.valid r.room;
  held = contents-put_at_end b' m r.valid r.room ∙ rw r.held;
}

module _ (b : Buffer) (bytes : List ℕ) (v : IsValid b)
    (fits : length (contents b) + length bytes < max_size) where
  abbrev space : ℕ
  space = length b.buffer - b.writeptr

  -- The buffer that the kernel has filled to its end.
  abbrev full : Buffer
  full = put_at_end b (take space bytes)

  -- The rest of `ReadFd`, once the buffer is full.
  abbrev spill : Buffer → Buffer
  spill f =
      let g = move_ptr f in
      let need = length bytes - space in
      put_at_end
        (if ltb (length g.buffer) ((need + g.writeptr) % 2 ^ 64)
          then expand g ((need + g.writeptr) % 2 ^ 64 % 2 ^ 32)
          else g)
        (drop space bytes)

  take_in_lem :
      length b.buffer ≡ b.writeptr + length (take space bytes)
      → take_in b bytes ≡ (if ltb (length bytes) space then put_at_end b bytes else spill full)
  unfolding take_in put_at_end
  take_in_lem e =
      ap
        (λ (n : ℕ).
          if ltb (length bytes) space
          then put_at_end b bytes
          else spill (record b {
            buffer = overwrite b.buffer b.writeptr (take space bytes);
            writeptr = n % 2 ^ 32;
          }))
        e

  short : length bytes < space → Received b bytes (put_at_end b bytes)
  short h = put_at_end-Received bytes (record { valid = v; held = refl; room = omega arith })

  long : space ≤ length bytes → Received b bytes (spill full)
  long h = record {
    valid = last.valid;
    held =
        last.held
        ∙ rw (m.held, first.held)
            (append_assoc (contents b) (take space bytes) (drop space bytes)
              ∙ ap (λ l. contents b ++ l) (take-append-drop space bytes));
  }
    where
      first : Received b (take space bytes) full
      first =
          put_at_end-Received (take space bytes)
            (record { valid = v; held = refl; room = omega lengths })

      g : Buffer
      g = move_ptr full

      m : Moved full g
      m = move_ptr-Moved full first.valid

      g_valid : IsValid g
      g_valid = Moved-IsValid first.valid m

      n : ℕ
      n = length bytes - space

      total : length (contents g) ≡ length (contents b) + length (take space bytes)
      total = ap length (m.held ∙ first.held) ∙ length-append_bytes (contents b) (take space bytes)

      enough : length (contents g) + length (drop space bytes) < max_size
      enough = omega (lengths, total)

      grow : (move_ptr g).writeptr ≡ g.writeptr
      grow = omega (arith, (move_ptr-Moved g g_valid).count, m.front)

      count : length (drop space bytes) ≡ n
      count = omega lengths

      ready : Roomy g (length (drop space bytes)) (
          if ltb (length g.buffer) ((n + g.writeptr) % 2 ^ 64)
          then expand g ((n + g.writeptr) % 2 ^ 64 % 2 ^ 32)
          else g)
      ready =
          if_cases (Roomy g (length (drop space bytes)))
            (ltb (length g.buffer) ((n + g.writeptr) % 2 ^ 64))
            (λ t.
              expand-Roomy g (length (drop space bytes)) ((n + g.writeptr) % 2 ^ 64 % 2 ^ 32)
                g_valid enough
                (omega (arith, grow, count, g_valid.order, g_valid.inside, g_valid.small)))
            (λ t. record {
              valid = g_valid;
              held = refl;
              room = ground (arith, count, g_valid.inside, g_valid.small);
            })

      last : Received g (drop space bytes) (spill full)
      last = put_at_end-Received (drop space bytes) ready

take_in_short :
    (b : Buffer) (bytes : List ℕ)
    → length bytes < length b.buffer - b.writeptr
    → take_in b bytes ≡ put_at_end b bytes
unfolding take_in put_at_end
take_in_short b bytes h = ground arith

-- `ReadFd` puts the bytes that the kernel gave behind what is held, in order, whether they fit the
-- buffer or spill into the extra one, and keeps the buffer valid, as long as all that is held stays
-- below 2 ^ 31 bytes.
pub read_fd_lem :
    (b : Buffer) (bytes : List ℕ)
    → IsValid b
    → length (contents b) + length bytes < max_size
    → IsValid (read_fd b (done bytes)) × (contents (read_fd b (done bytes)) ≡ contents b ++ bytes)
read_fd_lem b bytes v fits =
    let r = if_cases (Received b bytes) (length bytes == 0) (λ t. nothing t) (λ _. taken) in
    rw read_fd_done (r.valid, r.held)
  where
    read_fd_done : read_fd b (done bytes) ≡ (if length bytes == 0 then b else take_in b bytes)
    read_fd_done = unfold read_fd in refl

    nothing : (length bytes == 0) ≡ true → Received b bytes b
    nothing t = record {
      valid = v;
      held =
          sym (append-nil (contents b)) ∙ ap (λ l. contents b ++ l) (sym (empty_of_length bytes t));
    }

    taken : Received b bytes (take_in b bytes)
    taken = elim (dec_lt (length bytes) (length b.buffer - b.writeptr)) [
      | yes h ↦ rw (take_in_short b bytes h) (short b bytes v fits h)
      | no h ↦
          rw
            (
              take_in_lem b bytes v fits (omega lengths),
              le→ltb (length bytes) (length b.buffer - b.writeptr) (omega arith),
            )
            (long b bytes v fits (omega arith))
    ]
