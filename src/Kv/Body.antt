-- ===== src/Kv/Body.antt =====
-- `AppendBytes` and `AppendHostInteger` of src/kv/protocolcodec.cpp, and the readers of a body as
-- steps that a decoder makes one after another.
use reactor_learn.Prelude.{
  ℕ, ◌+◌, ◌<◌, ◌^◌, ◌≡◌, refl, ap, ◌∙◌, sym, some, [], ◌∷◌, ◌++◌, arith, ◌==◌, if◌then◌else◌,
  length, overwrite, resize, take, drop, grow-append, append-nil, drop-append_self,
  take-append_self,
}
use reactor_learn.Kv.ByteOrder.{Host, w32, memory_of, h_to_n, be_bytes, Fits}
use reactor_learn.Kv.ByteOrder.Laws.{
  length-append_bytes, length-be_bytes, be_bytes-IsByte, memory_of-h_to_n, n_to_h-value_in,
  be_value-be_bytes,
}
use reactor_learn.Kv.Protocol.{Bytes}
use reactor_learn.Kv.Reader.{M, moved, read_body_integer, read_body_string, read_inside}

unfoldable pub append_bytes : Bytes → Bytes → Bytes
unfolding overwrite resize
append_bytes dst src =
    if length src == 0
    then dst
    else overwrite (resize dst (length dst + length src) 0) (length dst) src

-- `AppendHostInteger<uint32_t>`
unfoldable pub append_host_integer : Host → Bytes → ℕ → Bytes
unfolding append_bytes
append_host_integer host dst value = append_bytes dst (memory_of host w32 (h_to_n host w32 value))

pub append_bytes_lem : (dst src : Bytes) → append_bytes dst src ≡ dst ++ src
unfolding append_bytes
append_bytes_lem dst [] = sym (append-nil dst)
append_bytes_lem dst (b ∷ bs) = ground (arith, grow-append dst (b ∷ bs) _ 0 refl)

pub append_host_integer_lem :
    (host : Host) (dst : Bytes) (v : ℕ) → append_host_integer host dst v ≡ dst ++ be_bytes w32 v
unfolding append_host_integer
append_host_integer_lem host dst v =
    append_bytes_lem dst (memory_of host w32 (h_to_n host w32 v)) ∙ rw memory_of-h_to_n

module _ {S : Type 0} where
  -- `if (!ReadBodyInteger(body, offset, &value)) return false;`, for a local `value`.
  unfoldable pub body_integer : Host → Bytes → M S ℕ
  unfolding read_body_integer
  body_integer host body r = moved (read_body_integer host w32 body r.offset 0) (λ _ s. s) r

  -- `if (!ReadBodyString(body, offset, len, &store->field)) return false;`
  unfoldable pub body_string : Bytes → ℕ → (S → Bytes) → (Bytes → S → S) → M S Bytes
  unfolding read_body_string
  body_string body len field put r =
      moved (read_body_string body r.offset len (some (field r.out))) put r

  -- A number that stands at the offset is read, and the offset passes it.
  pub body_integer-be_bytes :
      (host : Host) (body front back : Bytes) (v n : ℕ) (out : S)
      → body ≡ front ++ (be_bytes w32 v ++ back)
      → n ≡ length front
      → Fits w32 v
      → length body < 2 ^ 64
      → body_integer host body (record { offset = n; out = out })
        ≡ (some v, record { offset = n + 4; out = out })
  unfolding body_integer
  body_integer-be_bytes host body front back v n out e place fits small = rw (
    read_inside host w32 body (length body) n 0
        (omega (
          arith,
          ap length e,
          length-append_bytes front (be_bytes w32 v ++ back),
          length-append_bytes (be_bytes w32 v) back,
          length-be_bytes w32 v,
        ))
        small,
    e,
    drop-append_self n front (be_bytes w32 v ++ back) place,
    take-append_self 4 (be_bytes w32 v) back (sym (length-be_bytes w32 v)),
    n_to_h-value_in host w32 (be_bytes w32 v) (length-be_bytes w32 v) (be_bytes-IsByte w32 v),
    be_value-be_bytes w32 v fits,
  )

  -- So is a string of the announced length.
  pub body_string-append :
      (body front s back : Bytes) (len n : ℕ) (field : S → Bytes) (put : Bytes → S → S) (out : S)
      → body ≡ front ++ (s ++ back)
      → n ≡ length front
      → len ≡ length s
      → length body < 2 ^ 64
      → body_string body len field put (record { offset = n; out = out })
        ≡ (some s, record { offset = n + len; out = put s out })
  unfolding body_string
  body_string-append body front s back len n field put out e place size small =
      rw (inside, e, drop-append_self n front (s ++ back) place, take-append_self len s back size)
    where
      inside :
          read_body_string body n len (some (field out)) ≡ some (take len (drop n body), n + len)
      inside =
          unfold read_body_string in
          ground
            (arith, ap length e, length-append_bytes front (s ++ back), length-append_bytes s back)
