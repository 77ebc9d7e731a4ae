-- ===== src/Log/Format.antt =====
-- src/logger.cpp and include/logger.h: what `operator<<` puts into a line for each type, and the line's
-- beginning. A text is a list of characters' codes. `std::to_chars` writes an integer's shortest decimal
-- form, or nothing where it does not fit; the form of a floating-point number is a parameter.
pub mod Items
use reactor_learn.Prelude.{
  ℕ, zero, suc, ◌+◌, ◌/◌, ◌%◌, Bool, true, false, Option, none, some, List, [], ◌∷◌, ◌++◌, ltb,
  if◌then◌else◌, length, overwrite,
}
use reactor_learn.Log.{Bytes, Logger, less_size, put_text, start_line}

-- The decimal digits of a number, before `behind`; a 64-bit number has at most 20.
unfoldable pub digits : ℕ → ℕ → Bytes → Bytes
digits zero n behind = behind
digits (suc fuel) n behind =
    let rest = digits fuel (n / 10) ((48 + n % 10) ∷ behind) in
    if ltb n 10 then (48 + n) ∷ behind else rest

unfoldable pub decimal : ℕ → Bytes
unfolding digits
decimal n = digits 20 n []

-- What is given to `operator<<`: a string_view, a `const char*` that may be null, an unsigned integer, a
-- negative one by its magnitude, a floating-point number by its form, and a bool.
pub data Item : Type 0 where
  view : Bytes → Item
  c_string : Option Bytes → Item
  unsigned_number negative_number : ℕ → Item
  real_number : Bytes → Item
  truth : Bool → Item

-- `Format`, where `to_chars` writes `text`.
unfoldable pub format : Logger → Bytes → Logger
unfolding less_size overwrite
format l text =
    if ltb (less_size l) (length text)
    then l
    else record { buf = overwrite l.buf l.used text; used = l.used + length text }

-- `"(null)"`, `"true"` and `"false"`
abbrev pub null_text : Bytes
null_text = 40 ∷ 110 ∷ 117 ∷ 108 ∷ 108 ∷ 41 ∷ []

abbrev pub true_text : Bytes
true_text = 116 ∷ 114 ∷ 117 ∷ 101 ∷ []

abbrev pub false_text : Bytes
false_text = 102 ∷ 97 ∷ 108 ∷ 115 ∷ 101 ∷ []

-- `operator<<`
unfoldable pub put_item : Logger → Item → Logger
unfolding format decimal put_text
put_item l (view msg) = put_text l msg
put_item l (c_string none) = put_text l null_text
put_item l (c_string (some msg)) = put_text l msg
put_item l (unsigned_number n) = format l (decimal n)
put_item l (negative_number n) = format l (45 ∷ decimal n)
put_item l (real_number text) = format l text
put_item l (truth true) = put_text l true_text
put_item l (truth false) = put_text l false_text

unfoldable pub put_items : Logger → List Item → Logger
unfolding put_item
put_items l [] = l
put_items l (i ∷ is) = put_items (put_item l i) is

-- `"[" << item << "]"`
abbrev bracketed : Item → List Item
bracketed item = c_string (some (91 ∷ [])) ∷ item ∷ c_string (some (93 ∷ [])) ∷ []

-- The constructor, with the texts of `__DATE__` and `__TIME__`.
unfoldable pub construct_line : Bytes → Bytes → Bytes → Bytes → Bytes → ℕ → Bytes → Logger
unfolding put_items
construct_line garbage level date time file line func = put_items (start_line garbage) (
    bracketed (view level)
    ++ (bracketed (c_string (some date))
        ++ (bracketed (c_string (some time))
            ++ (bracketed (c_string (some file))
                ++ (bracketed (unsigned_number line) ++ bracketed (c_string (some func)))))))
