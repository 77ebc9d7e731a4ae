-- ===== src/Kv/Flow/Decode.antt =====
-- `DecodeFlowToPacket`: what it reads from any bytes, and from the flow of a packet.
use reactor_learn.Prelude.{
  ℕ, ◌+◌, ◌≤◌, ◌<◌, ◌^◌, ◌≡◌, true, false, some, arith, take, drop, length, length-take,
  length-drop, All, All-take, All-drop,
}
use reactor_learn.Kv.ByteOrder.{IsByte, Host, Width, w16, w32, w64, size_of, be_value, Fits}
use reactor_learn.Kv.ByteOrder.Laws.{n_to_h-value_in, be_value-Fits}
use reactor_learn.Kv.Protocol.{Bytes, PacketHead, Packet, head_size, HeadFits}
use reactor_learn.Kv.Reader.{read_inside}
use reactor_learn.Kv.Flow.{read_field, decode_fields, decode_flow}

-- The number that the `size_of w` bytes from `k` on are on the wire.
unfoldable pub number_at : Width → ℕ → Bytes → ℕ
number_at w k src = be_value (take (size_of w) (drop k src))

-- The header that the first 24 bytes are.
unfoldable pub head_of : Bytes → PacketHead
unfolding number_at
head_of src = record {
  magic = number_at w32 0 src;
  version = number_at w16 4 src;
  msg_type = number_at w16 6 src;
  opcode = number_at w16 8 src;
  status = number_at w16 10 src;
  body_length = number_at w32 12 src;
  request_id = number_at w64 16 src;
}

pub number_at-Fits :
    (w : Width) (k : ℕ) (src : Bytes)
    → k + size_of w ≤ length src
    → All IsByte src
    → Fits w (number_at w k src)
unfolding number_at
number_at-Fits w k src h b =
    be_value-Fits w (take (size_of w) (drop k src))
      (omega (arith, length-take {0} (size_of w) (drop k src), length-drop {0} k src))
      (All-take IsByte (size_of w) (drop k src) (All-drop IsByte k src b))

pub head_of-HeadFits :
    (src : Bytes) → head_size ≤ length src → All IsByte src → HeadFits (head_of src)
unfolding head_of
head_of-HeadFits src h b = record {
  magic = number_at-Fits w32 0 src (omega arith) b;
  version = number_at-Fits w16 4 src (omega arith) b;
  msg_type = number_at-Fits w16 6 src (omega arith) b;
  opcode = number_at-Fits w16 8 src (omega arith) b;
  status = number_at-Fits w16 10 src (omega arith) b;
  body_length = number_at-Fits w32 12 src (omega arith) b;
  request_id = number_at-Fits w64 16 src (omega arith) b;
}

module _ (host : Host) (src : Bytes) (len : ℕ) (inside : len ≤ length src) (small : len < 2 ^ 64)
    (bytes : All IsByte src) where
  read_field-at :
      (w : Width) (field : PacketHead → ℕ) (put : ℕ → PacketHead → PacketHead) (k : ℕ)
      (out : Packet)
      → k + size_of w ≤ len
      → read_field host w src len field put (record { offset = k; out = out }) ≡ (
        some (number_at w k src),
        record {
          offset = k + size_of w;
          out = record out { head = put (number_at w k src) out.head };
        },
      )
  unfolding read_field number_at
  read_field-at w field put k out h = rw (
    read_inside host w src len k (field out.head) h small,
    n_to_h-value_in host w (take (size_of w) (drop k src))
        (omega (arith, length-take {0} (size_of w) (drop k src), length-drop {0} k src))
        (All-take IsByte (size_of w) (drop k src) (All-drop IsByte k src bytes)),
  )

  -- Seven reads fill every field of the header, and leave the body alone.
  pub decode_fields-head_of :
      (store : Packet)
      → head_size ≤ len
      → decode_fields host src len (record { offset = 0; out = store }) ≡ (
        some (head_of src).request_id,
        record { offset = head_size; out = record { head = head_of src; body = store.body } },
      )
  unfolding decode_fields head_of number_at
  decode_fields-head_of store h = rw (
    read_field-at w32 (λ h. h.magic) (λ v h. record h { magic = v }) 0 _ (omega arith),
    read_field-at w16 (λ h. h.version) (λ v h. record h { version = v }) 4 _ (omega arith),
    read_field-at w16 (λ h. h.msg_type) (λ v h. record h { msg_type = v }) 6 _ (omega arith),
    read_field-at w16 (λ h. h.opcode) (λ v h. record h { opcode = v }) 8 _ (omega arith),
    read_field-at w16 (λ h. h.status) (λ v h. record h { status = v }) 10 _ (omega arith),
    read_field-at w32 (λ h. h.body_length) (λ v h. record h { body_length = v }) 12 _ (omega arith),
    read_field-at w64 (λ h. h.request_id) (λ v h. record h { request_id = v }) 16 _ (omega arith),
  )

  -- Too few bytes for the body that the header announces: the header is written, the body is not.
  pub decode_flow-short :
      (store : Packet)
      → head_size ≤ len
      → len < (head_of src).body_length + head_size
      → decode_flow host src len store ≡ (false, record { head = head_of src; body = store.body })
  unfolding decode_flow
  decode_flow-short store h s =
      ground (
        arith,
        decode_fields-head_of store h,
        (head_of-HeadFits src (omega arith) bytes).body_length,
      )

  pub decode_flow-whole :
      (store : Packet)
      → head_size ≤ len
      → (head_of src).body_length + head_size ≤ len
      → decode_flow host src len store ≡ (
        true,
        record { head = head_of src; body = take (head_of src).body_length (drop head_size src) },
      )
  unfolding decode_flow
  decode_flow-whole store h s = ground (arith, decode_fields-head_of store h)
