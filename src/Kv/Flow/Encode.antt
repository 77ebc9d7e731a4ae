-- ===== src/Kv/Flow/Encode.antt =====
-- `EncodePacketToFlow`: which bytes a packet becomes.
use reactor_learn.Prelude.{
  ℕ, ◌+◌, ◌≤◌, ◌<◌, ◌%◌, ◌^◌, ◌≡◌, refl, ◌∙◌, sym, true, some, [], ◌++◌, arith, drop, length,
  length-append, length-drop, length-resize, overwrite, overwrite-append, drop-drop, resize,
  append_assoc, append-nil, drop_all, All, All-append,
}
use reactor_learn.Kv.ByteOrder.{
  Host, Width, w16, w32, w64, size_of, memory_of, h_to_n, be_bytes, IsByte,
}
use reactor_learn.Kv.ByteOrder.Laws.{length-be_bytes, memory_of-h_to_n, be_bytes-IsByte}
use reactor_learn.Kv.Protocol.{Bytes, PacketHead, Packet, head_size}
use reactor_learn.Kv.Reader.{Reading}
use reactor_learn.Kv.Flow.{
  write_host_to_flow, write_field, encode_fields, encode_to_buffer, encode_packet_to_flow,
}

-- The protocol's header: every field in the network's order, in the order of the document.
unfoldable pub flow_head : PacketHead → Bytes
flow_head h =
    be_bytes w32 h.magic
    ++ (be_bytes w16 h.version
        ++ (be_bytes w16 h.msg_type
            ++ (be_bytes w16 h.opcode
                ++ (be_bytes w16 h.status
                    ++ (be_bytes w32 h.body_length ++ be_bytes w64 h.request_id)))))

unfoldable pub flow_of : Packet → Bytes
unfolding flow_head
flow_of p = flow_head p.head ++ p.body

pub length-flow_head : (h : PacketHead) → length (flow_head h) ≡ head_size
unfolding flow_head
length-flow_head h =
    omega (arith, length-append {0}, length-be_bytes w32, length-be_bytes w16, length-be_bytes w64)

pub flow_head-IsByte : (h : PacketHead) → All IsByte (flow_head h)
unfolding flow_head
flow_head-IsByte h = join _ _ (be w32 h.magic) (
    join _ _ (be w16 h.version) (
      join _ _ (be w16 h.msg_type) (
        join _ _ (be w16 h.opcode)
          (join _ _ (be w16 h.status) (join _ _ (be w32 h.body_length) (be w64 h.request_id))))))
  where
    be : (w : Width) (v : ℕ) → All IsByte (be_bytes w v)
    be = be_bytes-IsByte

    join : (xs ys : Bytes) → All IsByte xs → All IsByte ys → All IsByte (xs ++ ys)
    join = All-append IsByte

-- The writer has filled the first `n` bytes of `room` with `done`.
record Wrote (room done : Bytes) (n : ℕ) (r : Reading Bytes) : Type 0 where
  count : length done ≡ n
  offset : r.offset ≡ n
  out : r.out ≡ done ++ drop n room

regroup :
    (a b c d e f g : Bytes)
    → (((((([] ++ a) ++ b) ++ c) ++ d) ++ e) ++ f) ++ g ≡ a ++ (b ++ (c ++ (d ++ (e ++ (f ++ g)))))
regroup a b c d e f g = simp append_assoc

module _ (host : Host) (room : Bytes) (small : length room < 2 ^ 64) where
  write_field-Wrote :
      (w : Width) (v n : ℕ) (done : Bytes) (r : Reading Bytes)
      → Wrote room done n r
      → n + size_of w ≤ length room
      → (b : Bytes) × (r' : Reading Bytes) × (write_field host w v (length room) r ≡ (some b, r'))
        × Wrote room (done ++ be_bytes w v) (n + size_of w) r'
  unfolding write_field write_host_to_flow
  write_field-Wrote w v n done r h fits = (
    b,
    record { offset = n + size_of w; out = b },
    ground (arith, h.offset),
    record {
      count = omega (arith, h.count, length-append {0} done (be_bytes w v), length-be_bytes w v);
      offset = refl;
      out = filled;
    },
  )
    where
      b : Bytes
      b = overwrite r.out r.offset (memory_of host w (h_to_n host w v))

      cut : drop (length (be_bytes w v)) (drop n room) ≡ drop (n + size_of w) room
      cut = drop-drop _ n (n + size_of w) room (omega (arith, length-be_bytes w v))

      filled : b ≡ (done ++ be_bytes w v) ++ drop (n + size_of w) room
      filled =
          rw (h.out, h.offset, memory_of-h_to_n, ← cut)
            (overwrite-append done (drop n room) (be_bytes w v) n (sym h.count)
              (omega (arith, length-drop {0} n room, length-be_bytes w v)))

  encode_fields-Wrote :
      (h : PacketHead)
      → head_size ≤ length room
      → (b : Bytes) × (r : Reading Bytes) × (encode_fields host h
            (length room)
            (record { offset = 0; out = room })
          ≡ (some b, r))
        × Wrote room (flow_head h) head_size r
  unfolding encode_fields flow_head
  encode_fields-Wrote h fits =
      let (_, r1, e1, w1) = write_field-Wrote w32 h.magic 0 [] _ start (omega arith) in
      let (_, r2, e2, w2) = write_field-Wrote w16 h.version 4 _ r1 w1 (omega arith) in
      let (_, r3, e3, w3) = write_field-Wrote w16 h.msg_type 6 _ r2 w2 (omega arith) in
      let (_, r4, e4, w4) = write_field-Wrote w16 h.opcode 8 _ r3 w3 (omega arith) in
      let (_, r5, e5, w5) = write_field-Wrote w16 h.status 10 _ r4 w4 (omega arith) in
      let (_, r6, e6, w6) = write_field-Wrote w32 h.body_length 12 _ r5 w5 (omega arith) in
      let (b, r7, e7, w7) = write_field-Wrote w64 h.request_id 16 _ r6 w6 (omega arith) in
      (b, r7, rw (e1, e2, e3, e4, e5, e6, e7), rw (regroup _ _ _ _ _ _ _) at w7)
    where
      start : Wrote room [] 0 (record { offset = 0; out = room })
      start = record { count = refl; offset = refl; out = refl }

  -- Into a buffer of exactly the packet's size, the packet's flow.
  encode_to_buffer-flow :
      (p : Packet)
      → length room ≡ head_size + length p.body
      → encode_to_buffer host p room (length room) ≡ (true, flow_of p)
  unfolding encode_to_buffer flow_of
  encode_to_buffer-flow p e =
      let (b, r, step, w) = encode_fields-Wrote p.head (omega arith) in
      let full : overwrite r.out r.offset p.body ≡ flow_head p.head ++ p.body =
        rw (w.out, w.offset)
          (overwrite-append (flow_head p.head) (drop head_size room) p.body head_size (sym w.count)
              (omega (arith, length-drop {0} head_size room))
            ∙ rw (
              drop_all (length p.body) (drop head_size room)
                  (omega (arith, length-drop {0} head_size room)),
              append-nil,
            )) in
      rw step (ground (arith, full))

-- `EncodePacketToFlow` into a string, of a packet of fewer than 2 ^ 64 bytes, returns true and
-- leaves exactly the packet's flow there: the header's fields in the network's order and then the
-- body, on every host, whatever the string held.
pub encode_packet_to_flow_lem :
    (host : Host) (p : Packet) (store : Bytes)
    → head_size + length p.body < 2 ^ 64
    → encode_packet_to_flow host (some p) store ≡ (true, flow_of p)
unfolding encode_packet_to_flow
encode_packet_to_flow_lem host p store h =
    encode_to_buffer-flow host room (omega (arith, size)) p size
  where
    room : Bytes
    room = resize store ((head_size + length p.body) % 2 ^ 64) 0

    size : length room ≡ head_size + length p.body
    size = omega (arith, length-resize {0} store ((head_size + length p.body) % 2 ^ 64) 0)
