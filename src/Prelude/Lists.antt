-- ===== src/Prelude/Lists.antt =====
-- Lists measured and cut by native numbers, under the library's names.
use Prim.Native.Nat.{ℕ, zero, suc, ◌+◌, ◌-◌, ◌≤◌, min}
use mathlib.Core.Path.{◌≡◌, refl, ap, ◌∙◌}
use mathlib.Core.List.{List, [], ◌∷◌, ◌++◌, append-nil, append_assoc, reverse, reverse-append}
use native.Mathlib.Omega.{arith}
use mathlib.Core.Bool.{true}
use reactor_learn.Prelude.Tests.{◌==◌}

module _ {ℓ} {A : Type ℓ} where
  abbrev pub length : List A → ℕ
  length [] = 0
  length (x ∷ xs) = suc (length xs)

  abbrev pub take : ℕ → List A → List A
  take zero xs = []
  take (suc n) [] = []
  take (suc n) (x ∷ xs) = x ∷ take n xs

  abbrev pub drop : ℕ → List A → List A
  drop zero xs = xs
  drop (suc n) [] = []
  drop (suc n) (x ∷ xs) = drop n xs

  abbrev pub replicate : ℕ → A → List A
  replicate zero a = []
  replicate (suc n) a = a ∷ replicate n a

  abbrev pub All {κ} : (A → Type κ) → List A → Type κ
  All P [] = Unit {κ}
  All P (x ∷ xs) = P x × All P xs

  pub length-append : (xs ys : List A) → length (xs ++ ys) ≡ length xs + length ys
  length-append [] ys = omega arith
  length-append (x ∷ xs) ys = omega (arith, length-append xs ys)

module _ {ℓ} {A : Type ℓ} where
  pub length-take : (n : ℕ) (xs : List A) → length (take n xs) ≡ min n (length xs)
  length-take zero xs = omega arith
  length-take (suc n) [] = omega arith
  length-take (suc n) (x ∷ xs) = omega (arith, length-take n xs)

  pub length-drop : (n : ℕ) (xs : List A) → length (drop n xs) ≡ length xs - n
  length-drop zero xs = omega arith
  length-drop (suc n) [] = omega arith
  length-drop (suc n) (x ∷ xs) = omega (arith, length-drop n xs)

  pub length-replicate : (n : ℕ) (a : A) → length (replicate n a) ≡ n
  length-replicate zero a = refl
  length-replicate (suc n) a = ap suc (length-replicate n a)

  pub take-append-drop : (n : ℕ) (xs : List A) → take n xs ++ drop n xs ≡ xs
  take-append-drop zero xs = refl
  take-append-drop (suc n) [] = refl
  take-append-drop (suc n) (x ∷ xs) = rw (take-append-drop n xs)

  pub take-nil : (n : ℕ) → take n (let e : List A = [] in e) ≡ []
  take-nil zero = refl
  take-nil (suc n) = refl

  pub drop-nil : (n : ℕ) → drop n (let e : List A = [] in e) ≡ []
  drop-nil zero = refl
  drop-nil (suc n) = refl

  pub drop-drop : (n m k : ℕ) (xs : List A) → n + m ≡ k → drop n (drop m xs) ≡ drop k xs
  drop-drop n zero k xs e = let e' : n ≡ k = omega arith in rw e'
  drop-drop n (suc m) k [] e = rw (drop-nil n, drop-nil k)
  drop-drop n (suc m) zero (x ∷ xs) e = absurd (omega arith)
  drop-drop n (suc m) (suc k) (x ∷ xs) e = drop-drop n m k xs (omega arith)

  pub take-drop : (n m k : ℕ) (xs : List A) → n + m ≡ k → take n (drop m xs) ≡ drop m (take k xs)
  take-drop n zero k xs e = let e' : n ≡ k = omega arith in rw e'
  take-drop n (suc m) zero xs e = absurd (omega arith)
  take-drop n (suc m) (suc k) [] e = take-nil n
  take-drop n (suc m) (suc k) (x ∷ xs) e = take-drop n m k xs (omega arith)

  pub take-take : (n m : ℕ) (xs : List A) → n ≤ m → take n (take m xs) ≡ take n xs
  take-take zero m xs h = refl
  take-take (suc n) zero xs h = absurd (omega arith)
  take-take (suc n) (suc m) [] h = refl
  take-take (suc n) (suc m) (x ∷ xs) h = ap (λ l. x ∷ l) (take-take n m xs (omega arith))

  -- A cut that does not pass the end of the first list.
  pub take-append_le : (n : ℕ) (xs ys : List A) → n ≤ length xs → take n (xs ++ ys) ≡ take n xs
  take-append_le zero xs ys h = refl
  take-append_le (suc n) [] ys h = absurd (omega arith)
  take-append_le (suc n) (x ∷ xs) ys h = ap (λ l. x ∷ l) (take-append_le n xs ys (omega arith))

  pub drop-append_le :
      (n : ℕ) (xs ys : List A) → n ≤ length xs → drop n (xs ++ ys) ≡ drop n xs ++ ys
  drop-append_le zero xs ys h = refl
  drop-append_le (suc n) [] ys h = absurd (omega arith)
  drop-append_le (suc n) (x ∷ xs) ys h = drop-append_le n xs ys (omega arith)

  -- A cut beyond the first list.
  pub take-append_add :
      (n k : ℕ) (xs ys : List A) → n ≡ length xs + k → take n (xs ++ ys) ≡ xs ++ take k ys
  take-append_add n k [] ys h = let e : n ≡ k = omega arith in rw e
  take-append_add zero k (x ∷ xs) ys h = absurd (omega arith)
  take-append_add (suc n) k (x ∷ xs) ys h =
      ap (λ l. x ∷ l) (take-append_add n k xs ys (omega arith))

  pub drop-append_add :
      (n k : ℕ) (xs ys : List A) → n ≡ length xs + k → drop n (xs ++ ys) ≡ drop k ys
  drop-append_add n k [] ys h = let e : n ≡ k = omega arith in rw e
  drop-append_add zero k (x ∷ xs) ys h = absurd (omega arith)
  drop-append_add (suc n) k (x ∷ xs) ys h = drop-append_add n k xs ys (omega arith)

  pub take_all : (n : ℕ) (xs : List A) → length xs ≤ n → take n xs ≡ xs
  take_all n [] h = take-nil n
  take_all zero (x ∷ xs) h = absurd (omega arith)
  take_all (suc n) (x ∷ xs) h = ap (λ l. x ∷ l) (take_all n xs (omega arith))

  pub drop_all : (n : ℕ) (xs : List A) → length xs ≤ n → drop n xs ≡ []
  drop_all n [] h = drop-nil n
  drop_all zero (x ∷ xs) h = absurd (omega arith)
  drop_all (suc n) (x ∷ xs) h = drop_all n xs (omega arith)

  pub take-append_self : (n : ℕ) (xs ys : List A) → n ≡ length xs → take n (xs ++ ys) ≡ xs
  take-append_self n xs ys h = take-append_add n 0 xs ys (omega arith) ∙ append-nil xs

  pub drop-append_self : (n : ℕ) (xs ys : List A) → n ≡ length xs → drop n (xs ++ ys) ≡ ys
  drop-append_self n xs ys h = drop-append_add n 0 xs ys (omega arith)

  pub length-reverse : (xs : List A) → length (reverse xs) ≡ length xs
  length-reverse [] = refl
  length-reverse (x ∷ xs) =
      rw (reverse-append (x ∷ []) xs)
        (omega (arith, length-append (reverse xs) (x ∷ []), length-reverse xs))

module _ {ℓ κ} {A : Type ℓ} (P : A → Type κ) where
  pub All-append : (xs ys : List A) → All P xs → All P ys → All P (xs ++ ys)
  All-append [] ys hx hy = hy
  All-append (x ∷ xs) ys hx hy = (hx.0, All-append xs ys hx.1 hy)

  pub All-take : (n : ℕ) (xs : List A) → All P xs → All P (take n xs)
  All-take zero xs h = tt
  All-take (suc n) [] h = tt
  All-take (suc n) (x ∷ xs) h = (h.0, All-take n xs h.1)

  pub All-drop : (n : ℕ) (xs : List A) → All P xs → All P (drop n xs)
  All-drop zero xs h = h
  All-drop (suc n) [] h = tt
  All-drop (suc n) (x ∷ xs) h = All-drop n xs h.1

  pub All-reverse : (xs : List A) → All P xs → All P (reverse xs)
  All-reverse [] h = tt
  All-reverse (x ∷ xs) h =
      rw (reverse-append (x ∷ []) xs)
        (All-append (reverse xs) (x ∷ []) (All-reverse xs h.1) (h.0, tt))

module _ {ℓ} {A : Type ℓ} where
  -- `memmove(dst + i, src, n)`, inside `dst`: the bytes from `i` on are replaced.
  unfoldable pub overwrite : List A → ℕ → List A → List A
  overwrite dst i src = take i dst ++ (src ++ drop (i + length src) dst)

  -- `resize`: cut, or filled up with `fill`.
  unfoldable pub resize : List A → ℕ → A → List A
  resize xs n fill = take n xs ++ replicate (n - length xs) fill

  pub length-overwrite :
      (dst src : List A) (i : ℕ)
      → i + length src ≤ length dst
      → length (overwrite dst i src) ≡ length dst
  unfolding overwrite
  length-overwrite dst src i h = omega (
    arith,
    length-append {ℓ} (take i dst) (src ++ drop (i + length src) dst),
    length-append {ℓ} src (drop (i + length src) dst),
    length-take {ℓ} i dst,
    length-drop {ℓ} (i + length src) dst,
  )

  pub length-resize : (xs : List A) (n : ℕ) (fill : A) → length (resize xs n fill) ≡ n
  unfolding resize
  length-resize xs n fill = omega (
    arith,
    length-append {ℓ} (take n xs) (replicate (n - length xs) fill),
    length-take {ℓ} n xs,
    length-replicate {ℓ} (n - length xs) fill,
  )

  -- What was written stands between what was before and behind it.
  pub overwrite-append :
      (xs ys src : List A) (i : ℕ)
      → i ≡ length xs
      → length src ≤ length ys
      → overwrite (xs ++ ys) i src ≡ (xs ++ src) ++ drop (length src) ys
  unfolding overwrite
  overwrite-append xs ys src i e h = rw (
    take-append_self i xs ys e,
    drop-append_add (i + length src) (length src) xs ys (omega arith),
    append_assoc xs src (drop (length src) ys),
  )

  pub resize-grow :
      (xs : List A) (n : ℕ) (fill : A)
      → length xs ≤ n
      → resize xs n fill ≡ xs ++ replicate (n - length xs) fill
  unfolding resize
  resize-grow xs n fill h = rw (take_all n xs h)

module _ {ℓ} {A : Type ℓ} where
  pub take-append_take :
      (n m t : ℕ) (xs : List A) → n + m ≡ t → take n xs ++ take m (drop n xs) ≡ take t xs
  take-append_take zero m t xs e = let e' : m ≡ t = omega arith in rw e'
  take-append_take (suc n) m zero xs e = absurd (omega arith)
  take-append_take (suc n) m (suc t) [] e = take-nil m
  take-append_take (suc n) m (suc t) (x ∷ xs) e =
      ap (λ l. x ∷ l) (take-append_take n m t xs (omega arith))

  -- Two slices, one behind the other.
  pub slice_join :
      (xs : List A) (k n k' m t : ℕ)
      → n + k ≡ k'
      → n + m ≡ t
      → take n (drop k xs) ++ take m (drop k' xs) ≡ take t (drop k xs)
  slice_join xs k n k' m t e f = rw (← drop-drop n k k' xs e) (take-append_take n m t (drop k xs) f)

  -- Growing a buffer by what is then written at its old end.
  pub grow-append :
      (dst src : List A) (n : ℕ) (fill : A)
      → n ≡ length dst + length src
      → overwrite (resize dst n fill) (length dst) src ≡ dst ++ src
  grow-append dst src n fill e = rw (resize-grow dst n fill (omega arith)) (
      overwrite-append dst more src (length dst) refl (omega (arith, size))
      ∙ rw (drop_all (length src) more (omega (arith, size)), append-nil (dst ++ src)))
    where
      more : List A
      more = replicate (n - length dst) fill

      size : length more ≡ n - length dst
      size = length-replicate (n - length dst) fill

pub empty_of_length {ℓ} : {A : Type ℓ} (xs : List A) → (length xs == 0) ≡ true → xs ≡ []
empty_of_length [] h = refl
empty_of_length (x ∷ xs) h = absurd (ground arith)
