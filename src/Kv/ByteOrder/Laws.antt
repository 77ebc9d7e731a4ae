-- ===== src/Kv/ByteOrder/Laws.antt =====
-- Integers in memory and on the wire: on every host the conversions give the network's order.
use reactor_learn.Prelude.{
  ℕ, zero, suc, ◌+◌, ◌*◌, ◌/◌, ◌^◌, ◌<◌, ◌≡◌, refl, ap, ap₂, sym, ◌∙◌, List, [], ◌∷◌, reverse,
  arith, length, length-reverse, length-append, length-take, length-drop, take, drop, ◌++◌, ◌-◌,
  min, All, All-reverse,
}
use reactor_learn.Kv.ByteOrder.{
  IsByte, Host, little, big, Width, w8, w16, w32, w64, size_of, le_bytes, le_value, memory_of,
  value_in, bswap, n_to_h, h_to_n, be_bytes, be_value, Fits,
}
use native.Mathlib.Nat.{pow-suc}
use mathlib.Core.List.{reverse-reverse}

length-le_bytes : (n v : ℕ) → length (le_bytes n v) ≡ n
unfolding le_bytes
length-le_bytes zero v = refl
length-le_bytes (suc n) v = ap suc (length-le_bytes n (v / 256))

le_bytes-IsByte : (n v : ℕ) → All IsByte (le_bytes n v)
unfolding le_bytes
le_bytes-IsByte zero v = tt
le_bytes-IsByte (suc n) v = (omega arith, le_bytes-IsByte n (v / 256))

le_value-le_bytes : (n v : ℕ) → v < 256 ^ n → le_value (le_bytes n v) ≡ v
unfolding le_bytes le_value
le_value-le_bytes zero v h = omega arith
le_value-le_bytes (suc n) v h =
    omega (arith, le_value-le_bytes n (v / 256) (omega (arith, pow-suc 256 n)))

le_bytes-le_value : (bs : List ℕ) → All IsByte bs → le_bytes (length bs) (le_value bs) ≡ bs
unfolding le_bytes le_value
le_bytes-le_value [] h = refl
le_bytes-le_value (b ∷ bs) h = ap₂ ◌∷◌ (omega arith) (rest ∙ le_bytes-le_value bs h.1)
  where
    rest : le_bytes (length bs) ((b + 256 * le_value bs) / 256) ≡ le_bytes (length bs) (le_value bs)
    rest = ap (le_bytes (length bs)) (omega arith)

le_value-lt : (bs : List ℕ) → All IsByte bs → le_value bs < 256 ^ length bs
unfolding le_value
le_value-lt [] h = omega arith
le_value-lt (b ∷ bs) h = omega (arith, le_value-lt bs h.1, pow-suc 256 (length bs))

pub length-be_bytes : (w : Width) (v : ℕ) → length (be_bytes w v) ≡ size_of w
unfolding be_bytes
length-be_bytes w v = length-reverse (le_bytes (size_of w) v) ∙ length-le_bytes (size_of w) v

pub be_bytes-IsByte : (w : Width) (v : ℕ) → All IsByte (be_bytes w v)
unfolding be_bytes
be_bytes-IsByte w v = All-reverse IsByte (le_bytes (size_of w) v) (le_bytes-IsByte (size_of w) v)

Fits-pow : (w : Width) {v : ℕ} → Fits w v → v < 256 ^ size_of w
Fits-pow w8 h = h
Fits-pow w16 h = h
Fits-pow w32 h = h
Fits-pow w64 h = h

-- A number that fits its type is read back from its bytes.
pub be_value-be_bytes : (w : Width) (v : ℕ) → Fits w v → be_value (be_bytes w v) ≡ v
unfolding be_value be_bytes
be_value-be_bytes w v h = rw reverse-reverse (le_value-le_bytes (size_of w) v (Fits-pow w h))

pow-Fits : (w : Width) {v : ℕ} → v < 256 ^ size_of w → Fits w v
pow-Fits w8 h = h
pow-Fits w16 h = h
pow-Fits w32 h = h
pow-Fits w64 h = h

-- Bytes of a type's size make a number that fits it.
pub be_value-Fits :
    (w : Width) (bs : List ℕ) → length bs ≡ size_of w → All IsByte bs → Fits w (be_value bs)
unfolding be_value
be_value-Fits w bs e h = pow-Fits w (rw (← e, ← length-reverse bs) bound)
  where
    bound : le_value (reverse bs) < 256 ^ length (reverse bs)
    bound = le_value-lt (reverse bs) (All-reverse IsByte bs h)

-- Bytes of a type's size are the number that they make.
pub be_bytes-be_value :
    (w : Width) (bs : List ℕ)
    → length bs ≡ size_of w
    → All IsByte bs
    → be_bytes w (be_value bs) ≡ bs
unfolding be_value be_bytes
be_bytes-be_value w bs e h =
    rw (← e, ← length-reverse bs)
      (ap reverse (le_bytes-le_value (reverse bs) (All-reverse IsByte bs h)) ∙ reverse-reverse bs)

bswap_memory : (w : Width) (v : ℕ) → le_bytes (size_of w) (bswap w v) ≡ be_bytes w v
unfolding bswap be_bytes
bswap_memory w v = ap (λ n. le_bytes n (le_value r)) (sym e) ∙ le_bytes-le_value r bytes
  where
    r : List ℕ
    r = reverse (le_bytes (size_of w) v)

    e : length r ≡ size_of w
    e = length-be_bytes w v

    bytes : All IsByte r
    bytes = be_bytes-IsByte w v

-- On every host an integer that `HToN` converted lies in memory in the network's order.
pub memory_of-h_to_n :
    (host : Host) (w : Width) (v : ℕ) → memory_of host w (h_to_n host w v) ≡ be_bytes w v
unfolding memory_of h_to_n be_bytes
memory_of-h_to_n little w8 v = refl
memory_of-h_to_n little w16 v = bswap_memory w16 v
memory_of-h_to_n little w32 v = bswap_memory w32 v
memory_of-h_to_n little w64 v = bswap_memory w64 v
memory_of-h_to_n big w8 v = refl
memory_of-h_to_n big w16 v = refl
memory_of-h_to_n big w32 v = refl
memory_of-h_to_n big w64 v = refl

bswap_value :
    (w : Width) (bs : List ℕ)
    → length bs ≡ size_of w
    → All IsByte bs
    → bswap w (le_value bs) ≡ be_value bs
unfolding bswap be_value
bswap_value w bs e h = rw (← e) (ap (λ l. le_value (reverse l)) (le_bytes-le_value bs h))

one_byte : (bs : List ℕ) → length bs ≡ 1 → reverse bs ≡ bs
one_byte [] e = refl
one_byte (b ∷ []) e = refl
one_byte (b ∷ c ∷ bs) e = absurd (omega arith)

-- On every host `NToH` makes of an integer read from the wire the number that the network means.
pub n_to_h-value_in :
    (host : Host) (w : Width) (bs : List ℕ)
    → length bs ≡ size_of w
    → All IsByte bs
    → n_to_h host w (value_in host bs) ≡ be_value bs
unfolding n_to_h value_in be_value
n_to_h-value_in little w8 bs e h = rw (one_byte bs e)
n_to_h-value_in little w16 bs e h = bswap_value w16 bs e h
n_to_h-value_in little w32 bs e h = bswap_value w32 bs e h
n_to_h-value_in little w64 bs e h = bswap_value w64 bs e h
n_to_h-value_in big w8 bs e h = refl
n_to_h-value_in big w16 bs e h = refl
n_to_h-value_in big w32 bs e h = refl
n_to_h-value_in big w64 bs e h = refl

-- A number that fits its type is read back from the host's memory.
pub value_in-memory_of :
    (host : Host) (w : Width) (v : ℕ) → Fits w v → value_in host (memory_of host w v) ≡ v
unfolding value_in memory_of
value_in-memory_of little w v h = le_value-le_bytes (size_of w) v (Fits-pow w h)
value_in-memory_of big w v h = rw reverse-reverse (le_value-le_bytes (size_of w) v (Fits-pow w h))

Fits-bswap : (w : Width) (v : ℕ) → Fits w (bswap w v)
unfolding bswap be_bytes
Fits-bswap w v = pow-Fits w (bound (be_bytes w v) (length-be_bytes w v) (be_bytes-IsByte w v))
  where
    bound : (bs : List ℕ) → length bs ≡ size_of w → All IsByte bs → le_value bs < 256 ^ size_of w
    bound bs e h = rw (← e) (le_value-lt bs h)

Fits-h_to_n : (host : Host) (w : Width) (v : ℕ) → Fits w v → Fits w (h_to_n host w v)
unfolding h_to_n
Fits-h_to_n little w8 v h = h
Fits-h_to_n little w16 v h = Fits-bswap w16 v
Fits-h_to_n little w32 v h = Fits-bswap w32 v
Fits-h_to_n little w64 v h = Fits-bswap w64 v
Fits-h_to_n big w8 v h = h
Fits-h_to_n big w16 v h = h
Fits-h_to_n big w32 v h = h
Fits-h_to_n big w64 v h = h

-- On every host `NToH` undoes `HToN`.
pub n_to_h-h_to_n :
    (host : Host) (w : Width) (v : ℕ) → Fits w v → n_to_h host w (h_to_n host w v) ≡ v
n_to_h-h_to_n host w v h =
    ap (n_to_h host w) (sym (value_in-memory_of host w (h_to_n host w v) (Fits-h_to_n host w v h)))
    ∙ ap (λ bs. n_to_h host w (value_in host bs)) (memory_of-h_to_n host w v)
    ∙ n_to_h-value_in host w (be_bytes w v) (length-be_bytes w v) (be_bytes-IsByte w v)
    ∙ be_value-be_bytes w v h

h_to_n-same : (host : Host) (w : Width) (v : ℕ) → h_to_n host w v ≡ n_to_h host w v
unfolding h_to_n n_to_h
h_to_n-same host w8 v = refl
h_to_n-same host w16 v = refl
h_to_n-same host w32 v = refl
h_to_n-same host w64 v = refl

-- On every host `HToN` undoes `NToH`.
pub h_to_n-n_to_h :
    (host : Host) (w : Width) (v : ℕ) → Fits w v → h_to_n host w (n_to_h host w v) ≡ v
h_to_n-n_to_h host w v h =
    h_to_n-same host w (n_to_h host w v)
    ∙ ap (n_to_h host w) (sym (h_to_n-same host w v))
    ∙ n_to_h-h_to_n host w v h

pub length-append_bytes : (xs ys : List ℕ) → length (xs ++ ys) ≡ length xs + length ys
length-append_bytes = length-append

pub length-take_bytes : (n : ℕ) (xs : List ℕ) → length (take n xs) ≡ min n (length xs)
length-take_bytes = length-take

pub length-drop_bytes : (n : ℕ) (xs : List ℕ) → length (drop n xs) ≡ length xs - n
length-drop_bytes = length-drop

-- For `omega`: the lengths of byte strings.
pub ruleset lengths =
    (arith, length-append_bytes, length-take_bytes, length-drop_bytes, length-be_bytes)
