-- ===== src/Kv/Flow.antt =====
-- Packets and byte flows: `WriteHostToFlow`, `DecodeFlowToPacket` and `EncodePacketToFlow` of
-- src/kv/protocolcodec.cpp. Each function returns the code's Boolean and what it wrote; a null
-- pointer is `none`.
pub mod Encode
pub mod Decode
pub mod RoundTrip
use reactor_learn.Prelude.{
  ℕ, ◌+◌, Bool, true, false, Option, none, some, ltb, if◌then◌else◌, take, drop, length, overwrite,
  resize,
}
use reactor_learn.Kv.ByteOrder.{Host, Width, w16, w32, w64, size_of, memory_of, h_to_n}
use reactor_learn.Kv.Protocol.{Bytes, add_u64, PacketHead, Packet, head_size}
use reactor_learn.Kv.Reader.{write_flow_to_host, Reading, M, ◌>>=◌, ◌>>◌, refuse_if, moved}

-- `if (!WriteFlowToHost(src, len, offset, &store->head_.field)) return false;`
unfoldable pub read_field :
    Host → Width → Bytes → ℕ → (PacketHead → ℕ) → (ℕ → PacketHead → PacketHead) → M Packet ℕ
unfolding write_flow_to_host
read_field host w src len field put r =
    moved (write_flow_to_host host w (some src) len r.offset (some (field r.out.head)))
      (λ v p. record p { head = put v p.head }) r

-- The whole of `DecodeFlowToPacket(const char*, uint64_t, Packet*)` behind its first two tests.
unfoldable pub decode_fields : Host → Bytes → ℕ → M Packet ℕ
unfolding read_field
decode_fields host src len = do
  read_field host w32 src len (λ h. h.magic) (λ v h. record h { magic = v })
  read_field host w16 src len (λ h. h.version) (λ v h. record h { version = v })
  read_field host w16 src len (λ h. h.msg_type) (λ v h. record h { msg_type = v })
  read_field host w16 src len (λ h. h.opcode) (λ v h. record h { opcode = v })
  read_field host w16 src len (λ h. h.status) (λ v h. record h { status = v })
  read_field host w32 src len (λ h. h.body_length) (λ v h. record h { body_length = v })
  read_field host w64 src len (λ h. h.request_id) (λ v h. record h { request_id = v })

-- `store->body_.assign(src + offset, store->head_.body_length_)`, behind the test of the length.
abbrev pub assign_body : Bytes → ℕ → Option ℕ × Reading Packet → Bool × Packet
assign_body src len (none, r) = (false, r.out)
assign_body src len (some v, r) =
    if ltb len (add_u64 r.out.head.body_length head_size)
    then (false, r.out)
    else (true, record r.out { body = take r.out.head.body_length (drop r.offset src) })

unfoldable pub decode_flow : Host → Bytes → ℕ → Packet → Bool × Packet
unfolding decode_fields
decode_flow host src len store =
    if ltb len head_size
    then (false, store)
    else assign_body src len (decode_fields host src len (record { offset = 0; out = store }))

unfoldable pub decode_flow_to_packet :
    Host → Option Bytes → ℕ → Option Packet → Bool × Option Packet
unfolding decode_flow
decode_flow_to_packet host src len none = (false, none)
decode_flow_to_packet host none len (some store) = (false, some store)
decode_flow_to_packet host (some src) len (some store) =
    let (done, p) = decode_flow host src len store in (done, some p)

-- The overload for a string_view.
unfoldable pub decode_view_to_packet : Host → Bytes → Option Packet → Bool × Option Packet
unfolding decode_flow_to_packet
decode_view_to_packet host src store = decode_flow_to_packet host (some src) (length src) store

-- `template<T> WriteHostToFlow(src, offset, store, len)`: the bytes of `store` and the new offset.
unfoldable pub write_host_to_flow : Host → Width → ℕ → ℕ → Option Bytes → ℕ → Option (Bytes × ℕ)
unfolding overwrite
write_host_to_flow host w src offset none len = none
write_host_to_flow host w src offset (some store) len =
    if ltb len (add_u64 (size_of w) offset)
    then none
    else some
        (overwrite store offset (memory_of host w (h_to_n host w src)), add_u64 offset (size_of w))

-- `if (!WriteHostToFlow(value, offset, store, len)) return false;`
unfoldable pub write_field : Host → Width → ℕ → ℕ → M Bytes Bytes
unfolding write_host_to_flow
write_field host w value len r =
    moved (write_host_to_flow host w value r.offset (some r.out) len) (λ s _. s) r

unfoldable pub encode_fields : Host → PacketHead → ℕ → M Bytes Bytes
unfolding write_field
encode_fields host h len = do
  write_field host w32 h.magic len
  write_field host w16 h.version len
  write_field host w16 h.msg_type len
  write_field host w16 h.opcode len
  write_field host w16 h.status len
  write_field host w32 h.body_length len
  write_field host w64 h.request_id len

-- `memmove(store + offset, src->body_.data(), src->body_.size()); return true;`
abbrev pub copy_body : Bytes → Option Bytes × Reading Bytes → Bool × Bytes
copy_body body (none, r) = (false, r.out)
copy_body body (some s, r) = (true, overwrite r.out r.offset body)

unfoldable pub encode_to_buffer : Host → Packet → Bytes → ℕ → Bool × Bytes
unfolding encode_fields overwrite
encode_to_buffer host src store len =
    if ltb len (add_u64 head_size (length src.body))
    then (false, store)
    else copy_body src.body (encode_fields host src.head len (record { offset = 0; out = store }))

unfoldable pub encode_packet_to_buffer :
    Host → Option Packet → Option Bytes → ℕ → Bool × Option Bytes
unfolding encode_to_buffer
encode_packet_to_buffer host none store len = (false, store)
encode_packet_to_buffer host (some src) none len = (false, none)
encode_packet_to_buffer host (some src) (some store) len =
    let (done, s) = encode_to_buffer host src store len in (done, some s)

-- The overload that sizes a std::string itself.
unfoldable pub encode_packet_to_flow : Host → Option Packet → Bytes → Bool × Bytes
unfolding encode_to_buffer resize
encode_packet_to_flow host none store = (false, store)
encode_packet_to_flow host (some src) store =
    let room = resize store (add_u64 head_size (length src.body)) 0 in
    encode_to_buffer host src room (length room)
