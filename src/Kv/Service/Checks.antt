-- ===== src/Kv/Service/Checks.antt =====
-- The default checks of `KVService` on any buffer: what each decides, by the header that the buffer
-- begins with.
use reactor_learn.Prelude.{
  ℕ, ◌+◌, ◌-◌, ◌%◌, ◌≤◌, ◌<◌, ◌^◌, ◌≡◌, refl, ◌∙◌, ap, sym, Bool, true, false, some, [], arith, ltb,
  leb, ◌==◌, ◌||◌, not, if◌then◌else◌, length, All, All-drop, All-take, take, drop, take-take,
  take-drop,
}
use reactor_learn.Kv.ByteOrder.{Host, Width, w16, w32, w64, size_of, IsByte, be_value}
use reactor_learn.Kv.ByteOrder.Laws.{lengths}
use reactor_learn.Kv.Protocol.{
  Bytes, Packet, PacketHead, head_size, blank_packet, k_default_magic, k_default_version, k_request,
  k_max_body_length,
}
use reactor_learn.Kv.Flow.{decode_flow}
use reactor_learn.Kv.Flow.Decode.{number_at, head_of, decode_flow-short, decode_flow-whole}
use reactor_learn.Kv.Service.{
  peek_head, default_head_check, default_should_get, default_body_check, judge, take_packet,
}
use reactor_learn.Buffer.{Buffer, c_read_data, read_buffer, size}
use reactor_learn.Buffer.Invariant.{IsValid, contents, length-contents, size_lem, take-c_read_data}
use reactor_learn.Buffer.Read.{Taken, read_buffer-some}

number_at-take :
    (w : Width) (k n : ℕ) (src : Bytes)
    → size_of w + k ≤ n
    → number_at w k (take n src) ≡ number_at w k src
unfolding number_at
number_at-take w k n src h = ap be_value (
    take-drop (size_of w) k (size_of w + k) (take n src) refl
    ∙ ap (drop k) (take-take (size_of w + k) n src h)
    ∙ sym (take-drop (size_of w) k (size_of w + k) src refl))

-- The header is in the first 24 bytes.
pub head_of-take : (n : ℕ) (src : Bytes) → head_size ≤ n → head_of (take n src) ≡ head_of src
unfolding head_of
head_of-take n src h = λ i. record {
  magic = number_at-take w32 0 n src (omega arith) i;
  version = number_at-take w16 4 n src (omega arith) i;
  msg_type = number_at-take w16 6 n src (omega arith) i;
  opcode = number_at-take w16 8 n src (omega arith) i;
  status = number_at-take w16 10 n src (omega arith) i;
  body_length = number_at-take w32 12 n src (omega arith) i;
  request_id = number_at-take w64 16 n src (omega arith) i;
}

-- What the head check wants of a header.
abbrev pub is_bad_head : PacketHead → Bool
is_bad_head h =
    not (h.magic == k_default_magic)
    || not (h.version == k_default_version)
    || not (h.msg_type == k_request)
    || ltb k_max_body_length h.body_length

module _ (host : Host) (b : Buffer) (v : IsValid b) (bytes : All IsByte b.buffer)
    (whole_head : head_size ≤ length (contents b)) where
  abbrev pub next_head : PacketHead
  next_head = head_of (contents b)

  head_of-c_read_data : head_of (c_read_data b) ≡ next_head
  head_of-c_read_data =
      sym (head_of-take head_size (c_read_data b) (omega arith))
      ∙ ap head_of (take-c_read_data head_size b (omega (arith, length-contents v)))
      ∙ head_of-take head_size (contents b) (omega arith)

  enough_data : head_size ≤ length (c_read_data b)
  unfolding c_read_data
  enough_data = omega (lengths, length-contents v)

  data_bytes : All IsByte (c_read_data b)
  unfolding c_read_data
  data_bytes = All-drop IsByte b.readptr b.buffer bytes

  -- A header that announces a body cannot be decoded from its 24 bytes alone.
  peek_head-with_body :
      0 < next_head.body_length → peek_head host b ≡ (false, record { head = next_head; body = [] })
  unfolding peek_head
  peek_head-with_body h =
      decode_flow-short host (c_read_data b) head_size enough_data (omega arith) data_bytes
        blank_packet (omega arith) (rw head_of-c_read_data (omega arith))
      ∙ rw head_of-c_read_data

  peek_head-no_body :
      next_head.body_length ≡ 0 → peek_head host b ≡ (true, record { head = next_head; body = [] })
  unfolding peek_head
  peek_head-no_body e =
      decode_flow-whole host (c_read_data b) head_size enough_data (omega arith) data_bytes
        blank_packet (omega arith) (rw head_of-c_read_data (omega arith))
      ∙ rw (head_of-c_read_data, e)

  head_check_steps : default_head_check host b ≡ (
      if ltb (size b) head_size
      then (false, b)
      else (let (decoded, packet) = peek_head host b in
          if not decoded then (true, b) else (is_bad_head packet.head, b)))
  unfolding default_head_check
  head_check_steps = refl

  big : ltb (size b) head_size ≡ false
  big = rw (size_lem v) (ground arith)

  -- The default head check asks to close the connection at every packet that has a body, however well
  -- formed it is.
  pub default_head_check-with_body :
      0 < next_head.body_length → default_head_check host b ≡ (true, b)
  default_head_check-with_body h = rw (head_check_steps, big, peek_head-with_body h)

  pub default_head_check-no_body :
      next_head.body_length ≡ 0 → default_head_check host b ≡ (is_bad_head next_head, b)
  default_head_check-no_body e = rw (head_check_steps, big, peek_head-no_body e)

  pub default_should_get-no_body : next_head.body_length ≡ 0 → default_should_get host b ≡ (true, b)
  default_should_get-no_body e =
      rw (steps, big, peek_head-no_body e) (ground (arith, size_lem v, e))
    where
      steps : default_should_get host b ≡ (
          if ltb (size b) head_size
          then (false, b)
          else (let (decoded, packet) = peek_head host b in
              if not decoded
              then (false, b)
              else (leb ((head_size + packet.head.body_length) % 2 ^ 64) (size b), b)))
      steps = unfold default_should_get in refl

  -- The packet with no body that the buffer begins with.
  abbrev pub bare_packet : Packet
  bare_packet = record { head = next_head; body = [] }

  raw_decoded :
      next_head.body_length ≡ 0
      → decode_flow host
          (take head_size (contents b))
          (length (take head_size (contents b)))
          blank_packet
        ≡ (true, bare_packet)
  raw_decoded e = rw count (
      decode_flow-whole host raw head_size (omega (arith, count)) (omega arith) raw_bytes
        blank_packet (omega arith) (rw same (omega arith))
      ∙ rw (same, e))
    where
      raw : Bytes
      raw = take head_size (contents b)

      count : length raw ≡ head_size
      count = omega lengths

      same : head_of raw ≡ next_head
      same = head_of-take head_size (contents b) (omega arith)

      raw_bytes : All IsByte raw
      raw_bytes = All-take IsByte head_size (contents b) (
          unfold contents in
          All-take IsByte (b.writeptr - b.readptr) (drop b.readptr b.buffer)
            (All-drop IsByte b.readptr b.buffer bytes))

  body_check_steps : default_body_check host b (some blank_packet) ≡ (
      if ltb (size b) head_size
      then some (false, b, some blank_packet)
      else (let (decoded, packet) = peek_head host b in
          let total_length = (head_size + packet.head.body_length) % 2 ^ 64 in
          if not decoded
          then some (false, b, some blank_packet)
          else if ltb (size b) total_length
          then some (false, b, some blank_packet)
          else take_packet host blank_packet (read_buffer b total_length)))
  unfolding default_body_check
  body_check_steps = refl

  -- On a packet with no body the default body check takes 24 bytes and passes the packet on, with its
  -- verdict.
  pub default_body_check-no_body :
      next_head.body_length ≡ 0
      → (b' : Buffer) × (default_body_check host b (some blank_packet)
          ≡ some (true, b', some (judge host bare_packet)))
        × Taken b head_size b'
  default_body_check-no_body e =
      let (b', taken, t) = read_buffer-some b head_size v whole_head in
      (b', rw (body_check_steps, big, peek_head-no_body e, total, big, taken, raw_decoded e), t)
    where
      total : (head_size + next_head.body_length) % 2 ^ 64 ≡ head_size
      total = omega (arith, e)
