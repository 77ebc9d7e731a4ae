-- ===== src/Log/Line.antt =====
-- One line of the log, as the destructor of Logger hands it over.
use reactor_learn.Prelude.{
  ℕ, ◌+◌, ◌-◌, ◌%◌, ◌^◌, ◌≤◌, ◌<◌, ◌≡◌, refl, ◌∙◌, ap, ap₂, sym, min, true, false, List, [], ◌∷◌,
  ◌++◌, ltb, lt→ltb, le→ltb, ◌==◌, if◌then◌else◌, arith, if_cases, Bool-cases, inl, inr, length,
  take, drop, append_assoc, append-nil, overwrite, length-overwrite, take-append_self,
  take-append_add, take-append_le, take_all, length-take, length-append,
}
use native.Mathlib.Decide.{dec_lt}
use reactor_learn.Kv.ByteOrder.Laws.{lengths}
use reactor_learn.Log.{
  Bytes, k_loggerbuffersize, Logger, start_line, less_size, put_text, finish_line,
}

abbrev pub put_all : Logger → List Bytes → Logger
put_all l [] = l
put_all l (m ∷ ms) = put_all (put_text l m) ms

abbrev pub joined : List Bytes → Bytes
joined [] = []
joined (m ∷ ms) = m ++ joined ms

-- The line's buffer holds the text, cut off at its size.
pub record Lines (l : Logger) (text : Bytes) : Type 0 where
  pub size : length l.buf ≡ k_loggerbuffersize
  pub used : l.used ≡ length (take k_loggerbuffersize text)
  pub held : take l.used l.buf ≡ take k_loggerbuffersize text

pub less_size_lem :
    (l : Logger) → l.used ≤ k_loggerbuffersize → less_size l ≡ k_loggerbuffersize - l.used
unfolding less_size
less_size_lem l h = omega arith

put_text_lem :
    (l : Logger) (msg : Bytes)
    → put_text l msg ≡ (
        if less_size l == 0 then l else record {
          buf = overwrite l.buf l.used (take (min (length msg) (less_size l)) msg);
          used = (l.used + min (length msg) (less_size l)) % 2 ^ 32;
        })
unfolding put_text
put_text_lem l msg = refl

pub take-overwrite :
    (dst src : Bytes) (i : ℕ)
    → i + length src ≤ length dst
    → take (i + length src) (overwrite dst i src) ≡ take i dst ++ src
unfolding overwrite
take-overwrite dst src i h =
    ap (take (i + length src)) (sym (append_assoc (take i dst) src (drop (i + length src) dst)))
    ∙ take-append_self (i + length src) (take i dst ++ src) (drop (i + length src) dst)
        (omega lengths)

take-min : (n : ℕ) (xs : Bytes) → take (min (length xs) n) xs ≡ take n xs
take-min n xs = elim (dec_lt n (length xs)) [
  | yes few ↦ let e : min (length xs) n ≡ n = omega arith in rw e
  | no all ↦
      let e : min (length xs) n ≡ length xs = omega arith in
      rw e (take_all (length xs) xs (omega arith) ∙ sym (take_all n xs (omega arith)))
]

-- Cutting a longer text, for any size of the buffer.
cut_full :
    (size : ℕ) (text msg : Bytes)
    → size ≤ length (take size text)
    → take size (text ++ msg) ≡ take size text
cut_full size text msg h = take-append_le size text msg (omega lengths)

cut_more :
    (size : ℕ) (text msg : Bytes)
    → length (take size text) < size
    → take size (text ++ msg)
      ≡ take size text ++ take (min (length msg) (size - length (take size text))) msg
cut_more size text msg h =
    take-append_add size (size - length (take size text)) text msg (omega lengths)
    ∙ ap₂ (λ x y. x ++ y) (sym (take_all size text (omega lengths)))
        (sym (take-min (size - length (take size text)) msg))

pub put_text-Lines :
    (l : Logger) (text msg : Bytes) → Lines l text → Lines (put_text l msg) (text ++ msg)
put_text-Lines l text msg h =
    rw (put_text_lem, less_size_lem l (omega (lengths, h.used)))
      (if_cases (λ d. Lines d (text ++ msg)) (k_loggerbuffersize - l.used == 0)
        (λ t.
          let same = cut_full k_loggerbuffersize text msg (ground (arith, h.used)) in
          record { size = h.size; used = h.used ∙ ap length (sym same); held = h.held ∙ sym same })
        (λ f.
          let more =
            cut_more k_loggerbuffersize text msg (ground (arith, h.used))
            ∙ ap
                (λ n.
                  take k_loggerbuffersize text
                  ++ take (min (length msg) (k_loggerbuffersize - n)) msg)
                (sym h.used) in
          let small : (l.used + count) % 2 ^ 32 ≡ l.used + count = omega (lengths, h.used) in
          let counted : length (take count msg) ≡ count = omega lengths in
          record {
            size =
                length-overwrite l.buf (take count msg) l.used
                  (omega (arith, counted, h.size, h.used, within))
                ∙ h.size;
            used =
                small
                ∙ sym (
                    ap length more
                    ∙ length-append (take k_loggerbuffersize text) (take count msg)
                    ∙ ap₂ (λ x y. x + y) (sym h.used) counted);
            held = rw small (
                ap (λ n. take (l.used + n) (overwrite l.buf l.used (take count msg))) (sym counted)
                ∙ take-overwrite l.buf (take count msg) l.used
                    (omega (arith, counted, h.size, within))
                ∙ ap (λ x. x ++ take count msg) h.held
                ∙ sym more);
          }))
  where
    count : ℕ
    count = min (length msg) (k_loggerbuffersize - l.used)

    within : l.used + count ≤ k_loggerbuffersize
    within = omega (lengths, h.used)

put_all-Lines :
    (l : Logger) (text : Bytes) (ms : List Bytes)
    → Lines l text
    → Lines (put_all l ms) (text ++ joined ms)
put_all-Lines l text [] h = rw (append-nil text) h
put_all-Lines l text (m ∷ ms) h =
    rw (← append_assoc text m (joined ms))
      (put_all-Lines (put_text l m) (text ++ m) ms (put_text-Lines l text m h))

ltb→lt : (a b : ℕ) → ltb a b ≡ true → a < b
ltb→lt a b h = ground arith

ltb→le : (a b : ℕ) → ltb a b ≡ false → b ≤ a
ltb→le a b h = ground arith

pub finish_line_lem :
    (l : Logger) (text : Bytes)
    → Lines l text
    → finish_line l ≡ (
        if ltb (length text) k_loggerbuffersize
        then text ++ (10 ∷ [])
        else take k_loggerbuffersize text)
finish_line_lem l text h =
    rw (steps, less_size_lem l (omega (lengths, h.used)))
      (elim (Bool-cases (ltb (length text) k_loggerbuffersize)) [
        | inl short ↦
            let fits : length text < k_loggerbuffersize =
              ltb→lt (length text) k_loggerbuffersize short in
            let room : ltb 0 (k_loggerbuffersize - l.used) ≡ true =
              lt→ltb 0 (k_loggerbuffersize - l.used)
                (omega (arith, h.used, length-take k_loggerbuffersize text, fits)) in
            rw (short, room)
              (take-overwrite l.buf (10 ∷ []) l.used (omega (lengths, h.used, h.size))
                ∙ ap (λ x. x ++ (10 ∷ []))
                    (h.held ∙ take_all k_loggerbuffersize text (omega arith)))
        | inr long ↦
            let full : k_loggerbuffersize ≤ length text =
              ltb→le (length text) k_loggerbuffersize long in
            let room : ltb 0 (k_loggerbuffersize - l.used) ≡ false =
              le→ltb 0 (k_loggerbuffersize - l.used)
                (omega (arith, h.used, length-take k_loggerbuffersize text, full)) in
            rw (long, room) h.held
      ])
  where
    steps : finish_line l ≡ (
        if ltb 0 (less_size l)
        then take (l.used + 1) (overwrite l.buf l.used (10 ∷ []))
        else take l.used l.buf)
    steps = unfold finish_line in refl

-- A line is all the texts that were put into it, in order, with a line feed behind them; or, where they
-- are no shorter than the buffer, as many of their bytes as it holds, with no line feed.
pub finish_line-put_all :
    (garbage : Bytes) (ms : List Bytes)
    → length garbage ≡ k_loggerbuffersize
    → finish_line (put_all (start_line garbage) ms) ≡ (
        if ltb (length (joined ms)) k_loggerbuffersize
        then joined ms ++ (10 ∷ [])
        else take k_loggerbuffersize (joined ms))
finish_line-put_all garbage ms e =
    finish_line_lem (put_all (start_line garbage) ms) (joined ms)
      (put_all-Lines (start_line garbage) [] ms (record { size = e; used = refl; held = refl }))
