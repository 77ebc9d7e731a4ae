-- ===== src/Kv/Reader.antt =====
-- `WriteFlowToHost`, and the readers of src/kv/protocolcodec.cpp: `ReadBodyInteger` and
-- `ReadBodyString`. A reader moves an offset and writes to an output; a failure (the code's `false`)
-- leaves both as they were at that point.
use reactor_learn.Prelude.{
  ℕ, Bool, true, false, Option, none, some, ltb, if◌then◌else◌, take, drop, length, arith, ◌≡◌, ◌<◌,
  ◌≤◌, ◌+◌, ◌^◌,
}
use reactor_learn.Kv.ByteOrder.{Host, Width, size_of, value_in, n_to_h}
use reactor_learn.Kv.Protocol.{Bytes, add_u64}

-- `template<T> WriteFlowToHost(src, len, offset, store)`: the value for `*store` and the new offset,
-- or `none` for `false`. A null pointer is `none` too.
unfoldable pub write_flow_to_host : Host → Width → Option Bytes → ℕ → ℕ → Option ℕ → Option (ℕ × ℕ)
write_flow_to_host host w none len offset store = none
write_flow_to_host host w (some src) len offset none = none
write_flow_to_host host w (some src) len offset (some old) =
    if ltb len (add_u64 offset (size_of w))
    then none
    else some (
      n_to_h host w (value_in host (take (size_of w) (drop offset src))),
      add_u64 offset (size_of w),
    )

-- The string_view of a std::string is never null.
unfoldable pub read_body_integer : Host → Width → Bytes → ℕ → ℕ → Option (ℕ × ℕ)
unfolding write_flow_to_host
read_body_integer host w body offset old =
    write_flow_to_host host w (some body) (length body) offset (some old)

-- The string for `*value` and the new offset.
unfoldable pub read_body_string : Bytes → ℕ → ℕ → Option Bytes → Option (Bytes × ℕ)
read_body_string body offset len none = none
read_body_string body offset len (some old) =
    if ltb (length body) (add_u64 offset len)
    then none
    else some (take len (drop offset body), add_u64 offset len)

pub record Reading {ℓ} (S : Type ℓ) : Type ℓ where
  pub offset : ℕ
  pub out : S

abbrev pub M {ℓ} : Type ℓ → Type 0 → Type ℓ
M S A = Reading S → Option A × Reading S

module _ {ℓ} {S : Type ℓ} where
  abbrev pub continue : {A B : Type 0} → Option A → (A → M S B) → M S B
  continue none f r = (none, r)
  continue (some a) f r = f a r

  infixl 5 ◌>>=◌ ◌>>◌
  abbrev pub ◌>>=◌ : {A B : Type 0} → M S A → (A → M S B) → M S B
  ◌>>=◌ m f r = let (a, r') = m r in continue a f r'

  abbrev pub ◌>>◌ : {A B : Type 0} → M S A → M S B → M S B
  m >> n = m >>= λ _. n

  -- `if (test) return false;`
  abbrev pub refuse_if : Bool → M S (Unit {0})
  refuse_if true r = (none, r)
  refuse_if false r = (some tt, r)

  -- `return test;`
  abbrev pub accept_if : Bool → M S (Unit {0})
  accept_if true r = (some tt, r)
  accept_if false r = (none, r)

  abbrev pub moved : {A : Type 0} → Option (A × ℕ) → (A → S → S) → M S A
  moved none put r = (none, r)
  moved (some (a, offset)) put r = (some a, record { offset = offset; out = put a r.out })

-- What the code returns, and what it has written.
abbrev pub finish {ℓ} : {S : Type ℓ} → Option (Unit {0}) × Reading S → Bool × S
finish (none, r) = (false, r.out)
finish (some a, r) = (true, r.out)

-- A read inside the data succeeds.
pub read_inside :
    (host : Host) (w : Width) (src : Bytes) (len offset old : ℕ)
    → offset + size_of w ≤ len
    → len < 2 ^ 64
    → write_flow_to_host host w (some src) len offset (some old)
      ≡ some
          (n_to_h host w (value_in host (take (size_of w) (drop offset src))), offset + size_of w)
unfolding write_flow_to_host
read_inside host w src len offset old h k = ground arith

pub read_outside :
    (host : Host) (w : Width) (src : Bytes) (len offset old : ℕ)
    → len < offset + size_of w
    → offset + size_of w < 2 ^ 64
    → write_flow_to_host host w (some src) len offset (some old) ≡ none
unfolding write_flow_to_host
read_outside host w src len offset old h k = ground arith
