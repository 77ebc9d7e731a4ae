-- ===== src/Kv/Response/Laws.antt =====
-- `EncodeKVResponseToPacket` and `DecodePacketToKVResponse` against each other.
use reactor_learn.Prelude.{
  ℕ, ◌+◌, ◌≤◌, ◌<◌, ◌^◌, ◌≡◌, refl, ◌↔◌, ◌∙◌, ap, Bool, true, false, none, some, [], ◌++◌, arith,
  ltb, ◌==◌, ◌||◌, ◌&&◌, not, if◌then◌else◌, length, append-nil, All, All-append,
}
use reactor_learn.Kv.ByteOrder.{Host, w16, w32, w64, be_bytes, IsByte, Fits}
use reactor_learn.Kv.ByteOrder.Laws.{lengths, be_bytes-IsByte}
use reactor_learn.Kv.Protocol.{
  Bytes, to_u32, Packet, KvResponse, k_default_magic, k_default_version, k_response, k_ok, k_ping,
  k_put, k_get, k_del, k_max_value_length, IsFramed,
}
use reactor_learn.Kv.Reader.{Reading, finish, accept_if}
use reactor_learn.Kv.Body.{
  append_bytes, append_bytes_lem, append_host_integer, append_host_integer_lem,
  body_integer-be_bytes, body_string-append,
}
use reactor_learn.Kv.Request.{fill_packet}
use reactor_learn.Kv.Response.{response_head, encode_response, decode_value_body, decode_response}

-- A GET that found its key answers with the value; every other response has no body.
abbrev pub carries : KvResponse → ℕ → Bool
carries r opcode = opcode == k_get && r.status == k_ok

unfoldable pub reply_body : KvResponse → ℕ → Bytes
reply_body r opcode = if carries r opcode then be_bytes w32 (length r.value) ++ r.value else []

unfoldable pub reply_packet : KvResponse → ℕ → ℕ → Packet
unfolding reply_body
reply_packet r opcode request_id = record {
  head = record {
    magic = k_default_magic;
    version = k_default_version;
    msg_type = k_response;
    opcode = opcode;
    status = r.status;
    body_length = length (reply_body r opcode);
    request_id = request_id;
  };
  body = reply_body r opcode;
}

value_appended : Host → KvResponse → Bytes
value_appended host r = append_bytes (append_host_integer host [] (to_u32 (length r.value))) r.value

value_appended_lem :
    (host : Host) (r : KvResponse)
    → value_appended host r ≡ be_bytes w32 (to_u32 (length r.value)) ++ r.value
unfolding value_appended
value_appended_lem host r = simp (append_host_integer_lem, append_bytes_lem)

length-value_appended :
    (host : Host) (r : KvResponse) → length (value_appended host r) ≡ 4 + length r.value
length-value_appended host r = rw (value_appended_lem host r) (omega lengths)

value_appended-reply :
    (host : Host) (r : KvResponse)
    → length r.value ≤ k_max_value_length
    → value_appended host r ≡ be_bytes w32 (length r.value) ++ r.value
value_appended-reply host r h =
    value_appended_lem host r ∙ ap (λ n. be_bytes w32 n ++ r.value) (omega arith)

encode_response_lem :
    (host : Host) (r : KvResponse) (opcode id : ℕ) (store : Packet)
    → encode_response host r opcode id store
      ≡ fill_packet (response_head r opcode id store.head) (
          if opcode == k_get && r.status == k_ok
          then (if ltb k_max_value_length (to_u32 (length r.value))
              then none
              else some (value_appended host r))
          else some [])
unfolding encode_response value_appended
encode_response_lem host r opcode id store = refl

-- `EncodeKVResponseToPacket` returns false exactly for the value of a successful GET that is longer
-- than the limit. The cast of the size to uint32_t lets no longer value through.
pub encode_response_iff :
    (host : Host) (r : KvResponse) (opcode id : ℕ) (store : Packet)
    → ((encode_response host r opcode id store).0 ≡ false)
      ↔ ((opcode ≡ k_get) × (r.status ≡ k_ok) × (k_max_value_length < length r.value))
encode_response_iff host r opcode id store =
    rw (encode_response_lem host r opcode id store) (ground (arith, length-value_appended host r))

pub length-reply_body :
    (r : KvResponse) (opcode : ℕ)
    → length (reply_body r opcode) ≡ (if carries r opcode then 4 + length r.value else 0)
unfolding reply_body
length-reply_body r opcode = ground (arith, size)
  where
    size : length (be_bytes w32 (length r.value) ++ r.value) ≡ 4 + length r.value
    size = omega lengths

-- Otherwise it makes the packet of the document, with the opcode and the request's id.
pub encode_response-reply_packet :
    (host : Host) (r : KvResponse) (opcode id : ℕ) (store : Packet)
    → length r.value ≤ k_max_value_length
    → encode_response host r opcode id store ≡ (true, reply_packet r opcode id)
unfolding reply_packet reply_body
encode_response-reply_packet host r opcode id store h =
    rw (encode_response_lem host r opcode id store)
      (ground (arith, value_appended-reply host r h, length-value_appended host r))

pub reply_packet-IsFramed :
    (r : KvResponse) (opcode id : ℕ)
    → length r.value ≤ k_max_value_length
    → All IsByte r.value
    → Fits w16 r.status
    → Fits w16 opcode
    → Fits w64 id
    → IsFramed (reply_packet r opcode id)
unfolding reply_packet
reply_packet-IsFramed r opcode id h bytes s o i = record {
  fits = ground (arith, length-reply_body r opcode);
  counted = refl;
  bytes = body_bytes;
}
  where
    with_value : All IsByte (be_bytes w32 (length r.value) ++ r.value)
    with_value =
        All-append IsByte (be_bytes w32 (length r.value)) r.value
          (be_bytes-IsByte w32 (length r.value)) bytes

    body_bytes : All IsByte (reply_body r opcode)
    body_bytes = unfold reply_body in ground (arith, with_value)

-- What of a response goes over the wire.
unfoldable pub received : KvResponse → ℕ → KvResponse
received r opcode = record {
  status = r.status;
  key = [];
  value = if carries r opcode then r.value else [];
  extrainfo = [];
}

decode_value_body-layout :
    (host : Host) (v : Bytes) (out : KvResponse)
    → length v ≤ k_max_value_length
    → decode_value_body host (be_bytes w32 (length v) ++ v) (record { offset = 0; out = out })
      ≡ (some tt, record { offset = 0 + 4 + length v; out = record out { value = v } })
unfolding decode_value_body
decode_value_body-layout host v out h =
    rw
      (
        body_integer-be_bytes host layout [] v (length v) 0 out refl refl (omega arith) small,
        pass,
        body_string-append layout (be_bytes w32 (length v)) v [] (length v) 4 (λ r. r.value)
            (λ v r. record r { value = v }) out (simp append-nil) (omega lengths) refl small,
      )
      (ground (arith, total))
  where
    layout : Bytes
    layout = be_bytes w32 (length v) ++ v

    pass : ltb k_max_value_length (length v) ≡ false
    pass = ground arith

    total : length layout ≡ 4 + length v
    total = omega lengths

    small : length layout < 2 ^ 64
    small = omega (arith, total)

pub decode_response_lem :
    (host : Host) (p : Packet) (store : KvResponse)
    → decode_response host p store ≡ (
        let r : Reading KvResponse = record {
          offset = 0;
          out = record { status = p.head.status; key = []; value = []; extrainfo = [] };
        } in
        finish (
          if p.head.opcode == k_ping || p.head.opcode == k_put || p.head.opcode == k_del
          then accept_if (length p.body == 0) r
          else if p.head.opcode == k_get
          then (if not (p.head.status == k_ok)
              then accept_if (length p.body == 0) r
              else decode_value_body host p.body r)
          else accept_if (length p.body == 0) r))
unfolding decode_response
decode_response_lem host p store = refl

-- A response that one host encodes and another decodes comes back, without what does not go over the
-- wire, whatever its opcode and its status: both functions return true.
pub decode_response-encode_response :
    (sender receiver : Host) (r store : KvResponse) (opcode id : ℕ) (p : Packet)
    → length r.value ≤ k_max_value_length
    → (let (encoded, q) = encode_response sender r opcode id p in
        (encoded ≡ true) × (decode_response receiver q store ≡ (true, received r opcode)))
decode_response-encode_response sender receiver r store opcode id p h =
    rw (encode_response-reply_packet sender r opcode id p h) (refl, decoded)
  where
    decoded : decode_response receiver (reply_packet r opcode id) store ≡ (true, received r opcode)
    decoded =
        unfold reply_packet reply_body received in
        rw decode_response_lem (
          ground (
            arith,
            decode_value_body-layout receiver r.value
                (record { status = r.status; key = []; value = []; extrainfo = [] }) h,
          ))
