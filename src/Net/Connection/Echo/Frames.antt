-- ===== src/Net/Connection/Echo/Frames.antt =====
-- The default message callback on a stream of messages: src/tcpconnection.cpp.
use reactor_learn.Prelude.{
  ℕ, zero, suc, ◌+◌, ◌*◌, ◌/◌, ◌≤◌, ◌<◌, ◌≡◌, refl, sym, ◌∙◌, ap, true, false, none, some, List, [],
  ◌∷◌, ◌++◌, ltb, leb, lt→ltb, le→ltb, if◌then◌else◌, Bool-cases, length, take, drop, All, All-take,
  All-drop, arith, append_assoc, take-append_self, drop-append_self, ◌⊎◌, inl, inr,
}
use reactor_learn.Kv.ByteOrder.{Host, IsByte, w32, value_in, be_bytes, be_value}
use reactor_learn.Kv.ByteOrder.Laws.{
  lengths, length-be_bytes, be_value-be_bytes, n_to_h-value_in, memory_of-h_to_n,
}
use reactor_learn.Buffer
use reactor_learn.Buffer.{Buffer, Io, size}
use reactor_learn.Buffer.Invariant.{IsValid, contents, size_lem, length-contents}
use reactor_learn.Buffer.Read.{read_buffer-some, taken_out}
use reactor_learn.Net.Connection.{Request, writes, closes}
use reactor_learn.Net.Connection.Echo.{
  limit, ok_text, echo_answer, Echoed, also, take_message, length_of, sized, echo_answered,
  echo_loop, echo_message,
}

-- A message on the wire, and the messages of a stream.
abbrev pub frame : List ℕ → List ℕ
frame m = be_bytes w32 (length m) ++ m

abbrev pub frames : List (List ℕ) → List ℕ
frames [] = []
frames (m ∷ ms) = frame m ++ frames ms

-- The answers, with what the kernel takes of each.
abbrev pub replies : (ℕ → Io ℕ) → ℕ → List (List ℕ) → List Request
replies kernel n [] = []
replies kernel n (m ∷ ms) = writes (frame (m ++ ok_text)) (kernel n) ∷ replies kernel (suc n) ms

abbrev pub IsSmall : List ℕ → Type 0
IsSmall m = length m ≤ limit

-- A part of the next message.
abbrev pub IsPart : List ℕ → Type 0
IsPart rest =
    (length rest < 4)
    ⊎ ((be_value (take 4 rest) ≤ limit) × (length rest < be_value (take 4 rest) + 4))

le→leb : (a b : ℕ) → a ≤ b → leb a b ≡ true
le→leb a b h = ground arith

lt→leb : (a b : ℕ) → b < a → leb a b ≡ false
lt→leb a b h = ground arith

module _ (host : Host) (kernel : ℕ → Io ℕ) where
  echo_loop_lem :
      (fuel n : ℕ) (b : Buffer)
      → echo_loop host kernel (suc fuel) n b ≡ (
          if leb 4 (size b)
          then sized host kernel
              (echo_loop host kernel fuel (suc n))
              n
              b
              (length_of host (Buffer.peek_unsigned_int host b))
          else some (b, []))
  unfolding echo_loop
  echo_loop_lem fuel n b = refl

  -- The length that the loop sees.
  peeked :
      (b : Buffer)
      → IsValid b
      → All IsByte (contents b)
      → 4 ≤ length (contents b)
      → length_of host (Buffer.peek_unsigned_int host b) ≡ some (be_value (take 4 (contents b)))
  peeked b v bytes h =
      ap (length_of host) steps
      ∙ ap some (
          n_to_h-value_in host w32 (take 4 (contents b)) (omega lengths)
            (All-take IsByte 4 (contents b) bytes))
    where
      peek_lem : Buffer.peek_unsigned_int host b ≡ (
          if ltb (size b) 4 then none else some (value_in host (take 4 (drop b.readptr b.buffer))))
      peek_lem = unfold Buffer.peek_unsigned_int in refl

      steps : Buffer.peek_unsigned_int host b ≡ some (value_in host (take 4 (contents b)))
      steps =
          peek_lem
          ∙ rw
              (
                size_lem v,
                le→ltb (length (contents b)) 4 h,
                taken_out b 4 (omega (arith, length-contents v, h)),
              )
              refl

  at_least_four :
      (fuel n : ℕ) (b : Buffer)
      → IsValid b
      → All IsByte (contents b)
      → 4 ≤ length (contents b)
      → echo_loop host kernel (suc fuel) n b
        ≡ sized host kernel
            (echo_loop host kernel fuel (suc n))
            n
            b
            (some (be_value (take 4 (contents b))))
  at_least_four fuel n b v bytes h =
      echo_loop_lem fuel n b
      ∙ ap
          (λ t.
            if t
            then sized host kernel (echo_loop host kernel fuel (suc n)) n b
                (length_of host (Buffer.peek_unsigned_int host b))
            else some (b, []))
          enough
      ∙ ap (sized host kernel (echo_loop host kernel fuel (suc n)) n b) (peeked b v bytes h)
    where
      enough : leb 4 (size b) ≡ true
      enough = rw (size_lem v) (le→leb 4 (length (contents b)) h)

  -- A part of a message waits for the rest.
  few :
      (fuel n : ℕ) (b : Buffer)
      → IsValid b
      → All IsByte (contents b)
      → IsPart (contents b)
      → echo_loop host kernel (suc fuel) n b ≡ some (b, [])
  few fuel n b v bytes (inl h) =
      echo_loop_lem fuel n b ∙ rw (size_lem v, lt→leb 4 (length (contents b)) h) refl
  few fuel n b v bytes (inr (small, h)) = elim (Bool-cases (leb 4 (length (contents b)))) [
    | inl e ↦
        at_least_four fuel n b v bytes (ground (arith, e))
        ∙ rw
            (
              le→ltb limit (be_value (take 4 (contents b))) small,
              size_lem v,
              lt→leb (be_value (take 4 (contents b)) + 4) (length (contents b)) h,
            )
            refl
    | inr e ↦ echo_loop_lem fuel n b ∙ rw (size_lem v, e) refl
  ]

  answer_lem : (m : List ℕ) → echo_answer host m ≡ frame (m ++ ok_text)
  unfolding echo_answer
  answer_lem m = ap (λ h. h ++ (m ++ ok_text)) (memory_of-h_to_n host w32 (length (m ++ ok_text)))

  -- One round takes one message out and answers it.
  round :
      (fuel n : ℕ) (b : Buffer) (m more : List ℕ)
      → IsValid b
      → All IsByte (contents b)
      → IsSmall m
      → contents b ≡ frame m ++ more
      → (b' : Buffer) × (echo_loop host kernel (suc fuel) n b
          ≡ also
              (writes (frame (m ++ ok_text)) (kernel n) ∷ [])
              (echo_loop host kernel fuel (suc n) b'))
        × IsValid b'
        × (contents b' ≡ more)
  round fuel n b m more v bytes small e =
      let (b1, header, t1) = read_buffer-some b 4 v (omega (arith, long)) in
      let held1 : contents b1 ≡ m ++ more =
        t1.held
        ∙ ap (drop 4) joined
        ∙ drop-append_self 4 (be_bytes w32 (length m)) (m ++ more)
            (sym (length-be_bytes w32 (length m))) in
      let (b2, body, t2) = read_buffer-some b1 (length m) t1.valid (rw held1 (omega lengths)) in
      (
        b2,
        at_least_four fuel n b v bytes (omega (arith, long))
            ∙ ap (λ k. sized host kernel rest n b (some k)) measured
            ∙ whole
            ∙ ap (λ o. echo_answered host kernel rest n (take_message (length m) o)) header
            ∙ ap (echo_answered host kernel rest n) body
            ∙ ap (λ l. also (writes l (kernel n) ∷ []) (rest b2))
                (ap (echo_answer host)
                    (ap (take (length m)) held1 ∙ take-append_self (length m) m more refl)
                  ∙ answer_lem m),
        t2.valid,
        t2.held ∙ ap (drop (length m)) held1 ∙ drop-append_self (length m) m more refl,
      )
    where
      joined : contents b ≡ be_bytes w32 (length m) ++ (m ++ more)
      joined = e ∙ append_assoc (be_bytes w32 (length m)) m more

      long : length m + 4 ≤ length (contents b)
      long = rw joined (omega lengths)

      measured : be_value (take 4 (contents b)) ≡ length m
      measured =
          ap (λ l. be_value (take 4 l)) joined
          ∙ ap be_value (
              take-append_self 4 (be_bytes w32 (length m)) (m ++ more)
                (sym (length-be_bytes w32 (length m))))
          ∙ be_value-be_bytes w32 (length m) (omega (arith, small))

      rest : Buffer → Echoed
      rest = echo_loop host kernel fuel (suc n)

      whole :
          sized host kernel rest n b (some (length m))
          ≡ echo_answered host kernel rest n (take_message (length m) (Buffer.read_buffer b 4))
      whole =
          rw
            (
              le→ltb limit (length m) small,
              size_lem v,
              le→leb (length m + 4) (length (contents b)) long,
            )
            refl

  also-some :
      (rs : List Request) {b : Buffer} {l : List Request} {o : Echoed}
      → o ≡ some (b, l)
      → also rs o ≡ some (b, rs ++ l)
  also-some rs e = rw e refl

  each :
      (fuel n : ℕ) (b : Buffer) (ms : List (List ℕ)) (rest : List ℕ)
      → IsValid b
      → All IsByte (contents b)
      → All IsSmall ms
      → contents b ≡ frames ms ++ rest
      → IsPart rest
      → length ms < fuel
      → (b' : Buffer) × (echo_loop host kernel fuel n b ≡ some (b', replies kernel n ms))
        × (contents b' ≡ rest)
  each zero n b ms rest v bytes small e part f = absurd (omega arith)
  each (suc fuel) n b [] rest v bytes small e part f = (b, few fuel n b v bytes (rw e part), e)
  each (suc fuel) n b (m ∷ ms) rest v bytes small e part f =
      let joined : contents b ≡ frame m ++ (frames ms ++ rest) =
        e ∙ append_assoc (frame m) (frames ms) rest in
      let (b1, step, v1, held) = round fuel n b m (frames ms ++ rest) v bytes small.0 joined in
      let bytes1 : All IsByte (contents b1) =
        rw
          (held, ← drop-append_self (length (frame m)) (frame m) (frames ms ++ rest) refl, ← joined)
          (All-drop IsByte (length (frame m)) (contents b) bytes) in
      let (b', done, left) =
        each fuel (suc n) b1 ms rest v1 bytes1 small.1 held part (omega arith) in
      (b', step ∙ also-some (writes (frame (m ++ ok_text)) (kernel n) ∷ []) done, left)

  length-frames : (ms : List (List ℕ)) → 4 * length ms ≤ length (frames ms)
  length-frames [] = omega arith
  length-frames (m ∷ ms) = omega (lengths, length-frames ms)

  -- A client may send many messages at once, each behind its length: the default callback answers each
  -- once, in order, with the message and ` OK!` behind their length, takes exactly their bytes, and leaves
  -- a part of the next message in the buffer.
  pub echo_message-frames :
      (b : Buffer) (ms : List (List ℕ)) (rest : List ℕ)
      → IsValid b
      → All IsByte (contents b)
      → All IsSmall ms
      → contents b ≡ frames ms ++ rest
      → IsPart rest
      → (b' : Buffer) × (echo_message host kernel b ≡ some (b', replies kernel 0 ms))
        × (contents b' ≡ rest)
  unfolding echo_message
  echo_message-frames b ms rest v bytes small e part =
      each (size b / 4 + 1) 0 b ms rest v bytes small e part
        (rw (size_lem v, e) (omega (lengths, length-frames ms)))

  -- A length above the limit closes the connection, and the buffer keeps what it holds.
  pub echo_message-oversized :
      (b : Buffer)
      → IsValid b
      → All IsByte (contents b)
      → 4 ≤ length (contents b)
      → limit < be_value (take 4 (contents b))
      → echo_message host kernel b ≡ some (b, closes ∷ [])
  unfolding echo_message
  echo_message-oversized b v bytes h large =
      ap (λ fuel. echo_loop host kernel fuel 0 b)
        (let z : size b / 4 + 1 ≡ suc (size b / 4) = omega arith in z)
      ∙ at_least_four (size b / 4) 0 b v bytes h
      ∙ rw (lt→ltb limit (be_value (take 4 (contents b))) large) refl
