-- ===== src/Kv/Request/Parts.antt =====
-- What the decoders of a request's body in src/kv/protocolcodec.cpp read, on any body.
use reactor_learn.Prelude.{
  ℕ, ◌+◌, ◌≤◌, ◌<◌, ◌^◌, ◌≡◌, refl, none, some, ◌++◌, arith, ltb, if◌then◌else◌, length, All,
  All-take, All-drop, take, drop, slice_join, take_all, take-append_take,
}
use native.Mathlib.Decide.{dec_lt}
use reactor_learn.Kv.ByteOrder.{Host, w32, be_bytes, IsByte}
use reactor_learn.Kv.ByteOrder.Laws.{lengths, n_to_h-value_in}
use reactor_learn.Kv.Protocol.{Bytes, KvRequest, k_max_key_length, k_max_value_length}
use reactor_learn.Kv.Reader.{read_inside, read_outside, Reading, read_body_string}
use reactor_learn.Kv.Flow.Decode.{number_at}
use reactor_learn.Kv.Flow.RoundTrip.{be_bytes-number_at}
use reactor_learn.Kv.Body.{body_integer, body_string}
use reactor_learn.Kv.Request.{decode_put_body, decode_key_body, put_key, put_value}

module _ {S : Type 0} (host : Host) (body : Bytes) (small : length body < 2 ^ 63)
    (bytes : All IsByte body) where
  -- The readers on any body, well formed or not.
  pub body_integer_lem :
      (n : ℕ) (out : S)
      → n ≤ length body
      → body_integer host body (record { offset = n; out = out }) ≡ (
          if ltb (length body) (n + 4)
          then (none, record { offset = n; out = out })
          else (some (number_at w32 n body), record { offset = n + 4; out = out }))
  unfolding body_integer number_at
  body_integer_lem n out inside = elim (dec_lt (length body) (n + 4)) [
    | yes p ↦ rw (read_outside host w32 body (length body) n 0 p (omega arith)) (ground arith)
    | no p ↦
        rw
          (
            read_inside host w32 body (length body) n 0 (omega arith) (omega arith),
            n_to_h-value_in host w32 (take 4 (drop n body)) (omega lengths)
                (All-take IsByte 4 (drop n body) (All-drop IsByte n body bytes)),
          )
          (ground arith)
  ]

  pub body_string_lem :
      (n len : ℕ) (field : S → Bytes) (put : Bytes → S → S) (out : S)
      → n ≤ length body
      → len < 2 ^ 32
      → body_string body len field put (record { offset = n; out = out }) ≡ (
          if ltb (length body) (n + len) then (none, record { offset = n; out = out }) else (
            some (take len (drop n body)),
            record { offset = n + len; out = put (take len (drop n body)) out },
          ))
  unfolding body_string read_body_string
  body_string_lem n len field put out inside fits = ground arith

module _ (host : Host) (body : Bytes) (small : length body < 2 ^ 63) (bytes : All IsByte body) where
  -- The two lengths that a body begins with.
  abbrev pub first : ℕ
  first = number_at w32 0 body

  abbrev pub second : ℕ
  second = number_at w32 4 body

  pub record PutParts (out : KvRequest) (r : Reading KvRequest) : Type 0 where
    pub key_pos : 0 < first
    pub key_max : first ≤ k_max_key_length
    pub value_max : second ≤ k_max_value_length
    pub exact : 8 + first + second ≡ length body
    pub result :
        r.out
        ≡ put_value (take second (drop (8 + first) body)) (put_key (take first (drop 8 body)) out)

  pub decode_put_body-PutParts :
      (out : KvRequest) (r : Reading KvRequest)
      → decode_put_body host body (record { offset = 0; out = out }) ≡ (some tt, r)
      → PutParts out r
  unfolding decode_put_body
  decode_put_body-PutParts out r e = ground (
    arith,
    body_integer_lem {S = KvRequest} host body small bytes 0 out,
    body_integer_lem {S = KvRequest} host body small bytes 4 out,
    body_string_lem host body small bytes 8 first (λ (r : KvRequest). r.key) put_key out,
    body_string_lem host body small bytes (8 + first) second (λ (r : KvRequest). r.value) put_value
        (put_key (take first (drop 8 body)) out),
  )

  pub record KeyParts (out : KvRequest) (r : Reading KvRequest) : Type 0 where
    pub key_pos : 0 < first
    pub key_max : first ≤ k_max_key_length
    pub exact : 4 + first ≡ length body
    pub result : r.out ≡ put_key (take first (drop 4 body)) out

  pub decode_key_body-KeyParts :
      (out : KvRequest) (r : Reading KvRequest)
      → decode_key_body host body (record { offset = 0; out = out }) ≡ (some tt, r)
      → KeyParts out r
  unfolding decode_key_body
  decode_key_body-KeyParts out r e = ground (
    arith,
    body_integer_lem {S = KvRequest} host body small bytes 0 out,
    body_string_lem host body small bytes 4 first (λ (r : KvRequest). r.key) put_key out,
  )

  -- The parts, put together again, are the body.
  pub put_parts_join :
      8 + first + second ≡ length body
      → be_bytes w32 first
          ++ (be_bytes w32 second
              ++ (take first (drop 8 body) ++ take second (drop (8 + first) body)))
        ≡ body
  put_parts_join exact =
      rw
        (
          be_bytes-number_at w32 0 body (omega arith) bytes,
          be_bytes-number_at w32 4 body (omega arith) bytes,
          slice_join body 8 first (8 + first) second (first + second) (omega arith) refl,
          slice_join body 4 4 8 (first + second) (4 + (first + second)) refl refl,
          take-append_take 4 (4 + (first + second)) (8 + first + second) body (omega arith),
        )
        (take_all (8 + first + second) body (omega arith))

  pub key_parts_join :
      4 + first ≡ length body → be_bytes w32 first ++ take first (drop 4 body) ≡ body
  key_parts_join exact =
      rw
        (
          be_bytes-number_at w32 0 body (omega arith) bytes,
          take-append_take 4 first (4 + first) body refl,
        )
        (take_all (4 + first) body (omega arith))
