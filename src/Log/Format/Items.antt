-- ===== src/Log/Format/Items.antt =====
-- A line of items: src/logger.cpp and include/logger.h.
use reactor_learn.Prelude.{
  ℕ, zero, suc, ◌+◌, ◌-◌, ◌*◌, ◌/◌, ◌%◌, ◌^◌, ◌≤◌, ◌<◌, ◌≡◌, refl, ◌∙◌, ap, sym, true, false, none,
  some, List, [], ◌∷◌, ◌++◌, ltb, Bool-cases, inl, inr, if◌then◌else◌, if_cases, arith, length,
  take, overwrite, length-overwrite, length-append, append-nil, take_all,
}
use native.Mathlib.Nat.{pow-suc}
use reactor_learn.Kv.ByteOrder.Laws.{lengths}
use reactor_learn.Log.{Bytes, k_loggerbuffersize, Logger, start_line, less_size, finish_line}
use reactor_learn.Log.Line.{Lines, less_size_lem, put_text-Lines, take-overwrite, finish_line_lem}
use reactor_learn.Log.Format.{
  digits, decimal, Item, view, c_string, unsigned_number, negative_number, real_number, truth,
  format, null_text, true_text, false_text, put_item, put_items,
}

-- The text behind `t`, if it fits as a whole into what the line has left.
abbrev whole : Bytes → Bytes → Bytes
whole t text =
    if ltb (k_loggerbuffersize - length (take k_loggerbuffersize t)) (length text)
    then t
    else t ++ text

-- What stands in a line after an item: texts as they are, to be cut off at the end, and numbers only
-- whole.
unfoldable pub after_item : Bytes → Item → Bytes
after_item t (view msg) = t ++ msg
after_item t (c_string none) = t ++ null_text
after_item t (c_string (some msg)) = t ++ msg
after_item t (unsigned_number n) = whole t (decimal n)
after_item t (negative_number n) = whole t (45 ∷ decimal n)
after_item t (real_number text) = whole t text
after_item t (truth true) = t ++ true_text
after_item t (truth false) = t ++ false_text

unfoldable pub after_items : Bytes → List Item → Bytes
unfolding after_item
after_items t [] = t
after_items t (i ∷ is) = after_items (after_item t i) is

not_less : (a b : ℕ) → ltb a b ≡ false → b ≤ a
not_less a b h = ground arith

cut_whole :
    (n : ℕ) (t text : Bytes)
    → length text ≤ n - length (take n t)
    → take n (t ++ text) ≡ take n t ++ text
cut_whole n t [] h = rw (append-nil t, append-nil (take n t)) refl
cut_whole n t (x ∷ xs) h =
    take_all n (t ++ (x ∷ xs)) (omega (lengths, h))
    ∙ ap (λ k. k ++ (x ∷ xs)) (sym (take_all n t (omega (lengths, h))))

format_lem :
    (l : Logger) (text : Bytes)
    → format l text ≡ (
        if ltb (less_size l) (length text)
        then l
        else record { buf = overwrite l.buf l.used text; used = l.used + length text })
unfolding format
format_lem l text = refl

format-Lines : (l : Logger) (t text : Bytes) → Lines l t → Lines (format l text) (whole t text)
format-Lines l t text h =
    rw (format_lem, left)
      (elim (Bool-cases
        (ltb (k_loggerbuffersize - length (take k_loggerbuffersize t)) (length text))) [
          | inl e ↦ rw e h
          | inr e ↦
              let fits : length text ≤ k_loggerbuffersize - length (take k_loggerbuffersize t) =
                not_less (k_loggerbuffersize - length (take k_loggerbuffersize t)) (length text)
                  e in
              let cut = cut_whole k_loggerbuffersize t text fits in
              rw e (record {
                size =
                    length-overwrite l.buf text l.used (omega (lengths, h.size, h.used, fits))
                    ∙ h.size;
                used = sym (
                    ap length cut
                    ∙ length-append (take k_loggerbuffersize t) text
                    ∙ ap (λ u. u + length text) (sym h.used));
                held =
                    take-overwrite l.buf text l.used (omega (lengths, h.size, h.used, fits))
                    ∙ ap (λ x. x ++ text) h.held
                    ∙ sym cut;
              })
        ])
  where
    left : less_size l ≡ k_loggerbuffersize - length (take k_loggerbuffersize t)
    left = less_size_lem l (omega (lengths, h.used)) ∙ ap (λ u. k_loggerbuffersize - u) h.used

put_item-Lines :
    (l : Logger) (t : Bytes) (i : Item) → Lines l t → Lines (put_item l i) (after_item t i)
unfolding put_item after_item
put_item-Lines l t (view msg) h = put_text-Lines l t msg h
put_item-Lines l t (c_string none) h = put_text-Lines l t null_text h
put_item-Lines l t (c_string (some msg)) h = put_text-Lines l t msg h
put_item-Lines l t (unsigned_number n) h = format-Lines l t (decimal n) h
put_item-Lines l t (negative_number n) h = format-Lines l t (45 ∷ decimal n) h
put_item-Lines l t (real_number text) h = format-Lines l t text h
put_item-Lines l t (truth true) h = put_text-Lines l t true_text h
put_item-Lines l t (truth false) h = put_text-Lines l t false_text h

put_items-Lines :
    (l : Logger) (t : Bytes) (is : List Item)
    → Lines l t
    → Lines (put_items l is) (after_items t is)
unfolding put_items after_items
put_items-Lines l t [] h = h
put_items-Lines l t (i ∷ is) h =
    put_items-Lines (put_item l i) (after_item t i) is (put_item-Lines l t i h)

-- A line of any items is their texts in order, with a line feed behind them, or cut off at the size of the
-- line's buffer with none. A number that no longer fits is left out as a whole.
pub finish_line-put_items :
    (garbage : Bytes) (is : List Item)
    → length garbage ≡ k_loggerbuffersize
    → finish_line (put_items (start_line garbage) is) ≡ (
        if ltb (length (after_items [] is)) k_loggerbuffersize
        then after_items [] is ++ (10 ∷ [])
        else take k_loggerbuffersize (after_items [] is))
finish_line-put_items garbage is e =
    finish_line_lem (put_items (start_line garbage) is) (after_items [] is)
      (put_items-Lines (start_line garbage) [] is (record { size = e; used = refl; held = refl }))

-- The number that digits are, read from the left behind the number `n`.
abbrev pub read_number : ℕ → Bytes → ℕ
read_number n [] = n
read_number n (d ∷ ds) = read_number (n * 10 + (d - 48)) ds

digits-read :
    (fuel n : ℕ) (behind : Bytes)
    → n < 10 ^ fuel
    → read_number 0 (digits fuel n behind) ≡ read_number n behind
unfolding digits
digits-read zero n behind h = let z : 0 ≡ n = omega arith in ap (λ k. read_number k behind) z
digits-read (suc fuel) n behind h =
    if_cases (λ ds. read_number 0 ds ≡ read_number n behind) (ltb n 10)
      (λ _. ap (λ k. read_number k behind) (let z : 0 * 10 + (48 + n - 48) ≡ n = omega arith in z))
      (λ _.
        digits-read fuel (n / 10) ((48 + n % 10) ∷ behind) (omega (arith, pow-suc 10 fuel))
        ∙ ap (λ k. read_number k behind)
            (let z : n / 10 * 10 + (48 + n % 10 - 48) ≡ n = omega arith in z))

-- An integer of 64 bits is read back from what is logged for it.
pub read_number-decimal : (n : ℕ) → n < 2 ^ 64 → read_number 0 (decimal n) ≡ n
unfolding decimal
read_number-decimal n h = digits-read 20 n [] (omega arith)
