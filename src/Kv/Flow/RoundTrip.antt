-- ===== src/Kv/Flow/RoundTrip.antt =====
-- `EncodePacketToFlow` and `DecodeFlowToPacket` against each other.
use reactor_learn.Prelude.{
  ℕ, ◌+◌, ◌≤◌, ◌<◌, ◌^◌, ◌≡◌, refl, ap, ◌∙◌, sym, ◌⊎◌, inl, inr, Bool, true, false, some, [], ◌++◌,
  arith, take, drop, length, take-append_self, drop-append_self, append_assoc, take-append_take,
  slice_join, append-nil, All, All-take, All-drop, All-append,
}
use native.Mathlib.Decide.{dec_lt}
use reactor_learn.Kv.ByteOrder.{IsByte, Host, Width, w16, w32, w64, size_of, be_bytes, Fits}
use reactor_learn.Kv.ByteOrder.Laws.{lengths, length-be_bytes, be_bytes-be_value, be_value-be_bytes}
use reactor_learn.Kv.Protocol.{Bytes, PacketHead, Packet, head_size, HeadFits, IsFramed}
use reactor_learn.Kv.Flow.{decode_flow, decode_view_to_packet, encode_packet_to_flow}
use reactor_learn.Kv.Flow.Encode.{
  flow_head, flow_of, length-flow_head, flow_head-IsByte, encode_packet_to_flow_lem,
}
use reactor_learn.Kv.Flow.Decode.{
  number_at, head_of, head_of-HeadFits, decode_flow-whole, decode_flow-short,
}

-- A number is read back from where its bytes stand.
number_at-be_bytes :
    (w : Width) (v k : ℕ) (front back : Bytes)
    → Fits w v
    → k ≡ length front
    → number_at w k (front ++ (be_bytes w v ++ back)) ≡ v
unfolding number_at
number_at-be_bytes w v k front back h e =
    rw
      (
        drop-append_self k front (be_bytes w v ++ back) e,
        take-append_self (size_of w) (be_bytes w v) back (sym (length-be_bytes w v)),
      )
      (be_value-be_bytes w v h)

module _ (a b c d e f g rest : Bytes) where
  abbrev layout : Bytes
  layout = (a ++ (b ++ (c ++ (d ++ (e ++ (f ++ g)))))) ++ rest

  at_b : layout ≡ a ++ (b ++ ((c ++ (d ++ (e ++ (f ++ g)))) ++ rest))
  at_b = simp append_assoc

  at_c : layout ≡ (a ++ b) ++ (c ++ ((d ++ (e ++ (f ++ g))) ++ rest))
  at_c = simp append_assoc

  at_d : layout ≡ (a ++ (b ++ c)) ++ (d ++ ((e ++ (f ++ g)) ++ rest))
  at_d = simp append_assoc

  at_e : layout ≡ (a ++ (b ++ (c ++ d))) ++ (e ++ ((f ++ g) ++ rest))
  at_e = simp append_assoc

  at_f : layout ≡ (a ++ (b ++ (c ++ (d ++ e)))) ++ (f ++ (g ++ rest))
  at_f = simp append_assoc

  at_g : layout ≡ (a ++ (b ++ (c ++ (d ++ (e ++ f))))) ++ (g ++ rest)
  at_g = simp append_assoc

-- The header is read back from the head of its flow, whatever follows.
pub head_of-flow_head :
    (h : PacketHead) (rest : Bytes) → HeadFits h → head_of (flow_head h ++ rest) ≡ h
unfolding head_of flow_head
head_of-flow_head h rest fits = λ i. record {
  magic =
      (ap (number_at w32 0) (append_assoc m (v ++ (t ++ (o ++ (s ++ (b ++ r))))) rest)
          ∙ number_at-be_bytes w32 h.magic 0 [] ((v ++ (t ++ (o ++ (s ++ (b ++ r))))) ++ rest)
              fits.magic refl)
        i;
  version =
      (ap (number_at w16 4) (at_b m v t o s b r rest)
          ∙ number_at-be_bytes w16 h.version 4 m _ fits.version (omega lengths))
        i;
  msg_type =
      (ap (number_at w16 6) (at_c m v t o s b r rest)
          ∙ number_at-be_bytes w16 h.msg_type 6 (m ++ v) _ fits.msg_type (omega lengths))
        i;
  opcode =
      (ap (number_at w16 8) (at_d m v t o s b r rest)
          ∙ number_at-be_bytes w16 h.opcode 8 (m ++ (v ++ t)) _ fits.opcode (omega lengths))
        i;
  status =
      (ap (number_at w16 10) (at_e m v t o s b r rest)
          ∙ number_at-be_bytes w16 h.status 10 (m ++ (v ++ (t ++ o))) _ fits.status (omega lengths))
        i;
  body_length =
      (ap (number_at w32 12) (at_f m v t o s b r rest)
          ∙ number_at-be_bytes w32 h.body_length 12 (m ++ (v ++ (t ++ (o ++ s)))) _ fits.body_length
              (omega lengths))
        i;
  request_id =
      (ap (number_at w64 16) (at_g m v t o s b r rest)
          ∙ number_at-be_bytes w64 h.request_id 16 (m ++ (v ++ (t ++ (o ++ (s ++ b))))) _
              fits.request_id (omega lengths))
        i;
}
  where
    m : Bytes
    m = be_bytes w32 h.magic

    v : Bytes
    v = be_bytes w16 h.version

    t : Bytes
    t = be_bytes w16 h.msg_type

    o : Bytes
    o = be_bytes w16 h.opcode

    s : Bytes
    s = be_bytes w16 h.status

    b : Bytes
    b = be_bytes w32 h.body_length

    r : Bytes
    r = be_bytes w64 h.request_id

-- What stands at a place is the bytes of the number that is read there.
pub be_bytes-number_at :
    (w : Width) (k : ℕ) (src : Bytes)
    → k + size_of w ≤ length src
    → All IsByte src
    → be_bytes w (number_at w k src) ≡ take (size_of w) (drop k src)
unfolding number_at
be_bytes-number_at w k src h b =
    be_bytes-be_value w (take (size_of w) (drop k src)) (omega lengths)
      (All-take IsByte (size_of w) (drop k src) (All-drop IsByte k src b))

-- Any 24 bytes are the flow of the header that is read from them.
pub flow_head-head_of :
    (src : Bytes)
    → head_size ≤ length src
    → All IsByte src
    → flow_head (head_of src) ≡ take head_size src
unfolding head_of flow_head
flow_head-head_of src h b = rw (
  be_bytes-number_at w32 0 src (omega arith) b,
  be_bytes-number_at w16 4 src (omega arith) b,
  be_bytes-number_at w16 6 src (omega arith) b,
  be_bytes-number_at w16 8 src (omega arith) b,
  be_bytes-number_at w16 10 src (omega arith) b,
  be_bytes-number_at w32 12 src (omega arith) b,
  be_bytes-number_at w64 16 src (omega arith) b,
  slice_join src 12 4 16 8 12 (omega arith) (omega arith),
  slice_join src 10 2 12 12 14 (omega arith) (omega arith),
  slice_join src 8 2 10 14 16 (omega arith) (omega arith),
  slice_join src 6 2 8 16 18 (omega arith) (omega arith),
  slice_join src 4 2 6 18 20 (omega arith) (omega arith),
  take-append_take 4 20 24 src (omega arith),
)

pub flow_of-IsByte : (p : Packet) → IsFramed p → All IsByte (flow_of p)
unfolding flow_of
flow_of-IsByte p framed =
    All-append IsByte (flow_head p.head) p.body (flow_head-IsByte p.head) framed.bytes

pub length-flow_of : (p : Packet) → length (flow_of p) ≡ head_size + length p.body
unfolding flow_of
length-flow_of p = omega (lengths, length-flow_head p.head)

pub head_of-flow_of :
    (p : Packet) (rest : Bytes) → IsFramed p → head_of (flow_of p ++ rest) ≡ p.head
unfolding flow_of
head_of-flow_of p rest framed =
    rw (append_assoc (flow_head p.head) p.body rest)
      (head_of-flow_head p.head (p.body ++ rest) framed.fits)

pub body-flow_of :
    (p : Packet) (rest : Bytes)
    → IsFramed p
    → take p.head.body_length (drop head_size (flow_of p ++ rest)) ≡ p.body
unfolding flow_of
body-flow_of p rest framed = rw (
  append_assoc (flow_head p.head) p.body rest,
  drop-append_self head_size (flow_head p.head) (p.body ++ rest) (sym (length-flow_head p.head)),
  take-append_self p.head.body_length p.body rest framed.counted,
)

-- Decoding the flow of such a packet, with any bytes behind it and fewer than 2 ^ 64 in all,
-- returns true and gives the packet back, whichever host decodes and whatever the output held
-- before.
pub decode_flow-flow_of :
    (host : Host) (p store : Packet) (rest : Bytes)
    → IsFramed p
    → All IsByte rest
    → length (flow_of p ++ rest) < 2 ^ 64
    → decode_flow host (flow_of p ++ rest) (length (flow_of p ++ rest)) store ≡ (true, p)
decode_flow-flow_of host p store rest framed bytes small =
    decode_flow-whole host src (length src) (omega arith) small all_bytes store
      (omega (lengths, length-flow_of p))
      (rw (head_of-flow_of p rest framed) (omega (lengths, length-flow_of p, framed.counted)))
    ∙ rw (head_of-flow_of p rest framed, body-flow_of p rest framed)
  where
    src : Bytes
    src = flow_of p ++ rest

    all_bytes : All IsByte src
    all_bytes = All-append IsByte (flow_of p) rest (flow_of-IsByte p framed) bytes

decode_view_lem :
    (host : Host) (src : Bytes) (store : Packet)
    → decode_view_to_packet host src (some store)
      ≡ (let (done, p) = decode_flow host src (length src) store in (done, some p))
unfolding decode_view_to_packet
decode_view_lem host src store = refl

-- A packet whose fields fit their types and whose length field says how long its body is comes
-- back unchanged, on whichever hosts it is encoded and decoded.
pub decode-encode :
    (sender receiver : Host) (p store : Packet) (flow : Bytes)
    → IsFramed p
    → decode_view_to_packet receiver (encode_packet_to_flow sender (some p) flow).1 (some store)
      ≡ (true, some p)
decode-encode sender receiver p store flow framed =
    rw (encode_packet_to_flow_lem sender p flow (omega arith), decode_view_lem, back)
  where
    back : decode_flow receiver (flow_of p) (length (flow_of p)) store ≡ (true, p)
    back =
        rw (append-nil (flow_of p)) at
          (decode_flow-flow_of receiver p store [] framed tt (omega (lengths, length-flow_of p)))

-- Fewer bytes than a header: nothing is written.
pub decode_flow-refused :
    (host : Host) (src : Bytes) (len : ℕ) (store : Packet)
    → len < head_size
    → decode_flow host src len store ≡ (false, store)
unfolding decode_flow
decode_flow-refused host src len store h = ground arith

module _ (host : Host) (src : Bytes) (len : ℕ) (inside : len ≤ length src) (small : len < 2 ^ 64)
    (bytes : All IsByte src) where
  -- The packet that is read when all its bytes are there.
  abbrev whole : Packet
  whole = record { head = head_of src; body = take (head_of src).body_length (drop head_size src) }

  module _ (h : head_size ≤ len) (fits : (head_of src).body_length + head_size ≤ len) where
    length-whole : length whole.body ≡ (head_of src).body_length
    length-whole = omega lengths

    whole-IsFramed : IsFramed whole
    whole-IsFramed = record {
      fits = head_of-HeadFits src (omega arith) bytes;
      counted = sym length-whole;
      bytes =
          All-take IsByte (head_of src).body_length (drop head_size src)
            (All-drop IsByte head_size src bytes);
    }

    flow_of-whole : flow_of whole ≡ take (length (flow_of whole)) src
    flow_of-whole =
        rw (length-flow_of whole, length-whole)
          (unfold flow_of in
            rw (flow_head-head_of src (omega arith) bytes)
              (take-append_take head_size _ _ src refl))

    whole_sound :
        IsFramed whole
        × (flow_of whole ≡ take (length (flow_of whole)) src)
        × (length (flow_of whole) ≤ len)
    whole_sound = (whole-IsFramed, flow_of-whole, omega (arith, length-flow_of whole, length-whole))

  -- The three outcomes: too few bytes for a header, too few for the body, and a packet.
  pub decode_flow_cases :
      (store : Packet)
      → (len < head_size)
        ⊎ ((head_size ≤ len)
            × (len < (head_of src).body_length + head_size)
            × (decode_flow host src len store
                ≡ (false, record { head = head_of src; body = store.body })))
        ⊎ ((head_size ≤ len)
            × ((head_of src).body_length + head_size ≤ len)
            × (decode_flow host src len store ≡ (true, whole)))
  decode_flow_cases store = elim (dec_lt len head_size) [
    | yes p ↦ inl p
    | no p ↦ elim (dec_lt len ((head_of src).body_length + head_size)) [
      | yes q ↦ inr (
          inl (
            omega arith,
            q,
            decode_flow-short host src len inside small bytes store (omega arith) q,
          ))
      | no q ↦ inr (
          inr (
            omega arith,
            omega arith,
            decode_flow-whole host src len inside small bytes store (omega arith) (omega arith),
          ))
    ]
  ]

  -- What `DecodeFlowToPacket` accepts of `len` bytes that are there, fewer than 2 ^ 64, begins with
  -- the flow of the packet that it gives, and that packet's length field says how long its body is.
  pub decode_flow_sound :
      (store p : Packet)
      → decode_flow host src len store ≡ (true, p)
      → IsFramed p × (flow_of p ≡ take (length (flow_of p)) src) × (length (flow_of p) ≤ len)
  decode_flow_sound store p e = elim (decode_flow_cases store) [
    | inl few ↦ cc (decode_flow-refused host src len store few)
    | inr (inl (_, _, short)) ↦ cc short
    | inr (inr (h, fits, all)) ↦
        let same : p ≡ whole = ap (λ (t : Bool × Packet). t.1) (sym e ∙ all) in
        rw same (whole_sound h fits)
  ]
