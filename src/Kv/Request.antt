-- ===== src/Kv/Request.antt =====
-- Requests and packets: `EncodeKVRequestToPacket` and `DecodePacketToKVRequest` of
-- src/kv/protocolcodec.cpp.
pub mod Encode
pub mod RoundTrip
pub mod Parts
pub mod Sound
use reactor_learn.Prelude.{
  ℕ, Bool, true, false, Option, none, some, [], ltb, ◌==◌, ◌||◌, not, if◌then◌else◌, length,
}
use reactor_learn.Kv.ByteOrder.{Host}
use reactor_learn.Kv.Protocol.{
  Bytes, to_u32, Packet, PacketHead, KvRequest, k_default_magic, k_default_version, k_request, k_ok,
  k_ping, k_put, k_get, k_del, k_max_key_length, k_max_value_length, k_max_body_length,
}
use reactor_learn.Kv.Reader.{M, Reading, ◌>>=◌, ◌>>◌, refuse_if, accept_if, finish}
use reactor_learn.Kv.Body.{append_bytes, append_host_integer, body_integer, body_string}

-- The body that the switch builds, or `none` where it returns false; nothing is appended then.
unfoldable pub request_body : Host → KvRequest → Option Bytes
unfolding append_bytes append_host_integer
request_body host src =
    let key_length = to_u32 (length src.key) in
    let value_length = to_u32 (length src.value) in
    if src.opcode == k_ping
    then some []
    else if src.opcode == k_put
    then (if key_length == 0
          || ltb k_max_key_length key_length
          || ltb k_max_value_length value_length
        then none
        else some (
            append_bytes
              (append_bytes
                (append_host_integer host (append_host_integer host [] key_length) value_length)
                src.key)
              src.value))
    else if src.opcode == k_get || src.opcode == k_del
    then (if key_length == 0 || ltb k_max_key_length key_length
        then none
        else some (append_bytes (append_host_integer host [] key_length) src.key))
    else none

-- The fields that are set before the switch. `body_length` keeps what it was.
abbrev pub request_head : KvRequest → PacketHead → PacketHead
request_head src h = record h {
  magic = k_default_magic;
  version = k_default_version;
  msg_type = k_request;
  opcode = src.opcode;
  status = k_ok;
  request_id = 0;
}

abbrev pub fill_packet : PacketHead → Option Bytes → Bool × Packet
fill_packet h none = (false, record { head = h; body = [] })
fill_packet h (some body) =
    if ltb k_max_body_length (length body)
    then (false, record { head = h; body = body })
    else (true, record { head = record h { body_length = to_u32 (length body) }; body = body })

unfoldable pub encode_request : Host → KvRequest → Packet → Bool × Packet
unfolding request_body
encode_request host src store = fill_packet (request_head src store.head) (request_body host src)

unfoldable pub encode_kv_request_to_packet :
    Host → Option KvRequest → Option Packet → Bool × Option Packet
unfolding encode_request
encode_kv_request_to_packet host none store = (false, store)
encode_kv_request_to_packet host (some src) none = (false, none)
encode_kv_request_to_packet host (some src) (some store) =
    let (done, p) = encode_request host src store in (done, some p)

abbrev pub put_key : Bytes → KvRequest → KvRequest
put_key k r = record r { key = k }

abbrev pub put_value : Bytes → KvRequest → KvRequest
put_value v r = record r { value = v }

-- `return offset == body.size();`
abbrev pub at_end {ℓ} : {S : Type ℓ} → Bytes → M S (Unit {0})
at_end body r = accept_if (r.offset == length body) r

unfoldable pub decode_put_body : Host → Bytes → M KvRequest (Unit {0})
unfolding body_integer body_string
decode_put_body host body = do
  key_length ← body_integer host body
  value_length ← body_integer host body
  refuse_if
      (key_length == 0 || ltb k_max_key_length key_length || ltb k_max_value_length value_length)
  body_string body key_length (λ r. r.key) put_key
  body_string body value_length (λ r. r.value) put_value
  at_end body

unfoldable pub decode_key_body : Host → Bytes → M KvRequest (Unit {0})
unfolding body_integer body_string
decode_key_body host body = do
  key_length ← body_integer host body
  refuse_if (key_length == 0 || ltb k_max_key_length key_length)
  body_string body key_length (λ r. r.key) put_key
  at_end body

unfoldable pub decode_request_body : Host → ℕ → Bytes → M KvRequest (Unit {0})
unfolding decode_put_body decode_key_body
decode_request_body host opcode body r =
    if opcode == k_ping
    then accept_if (length body == 0) r
    else if opcode == k_put
    then decode_put_body host body r
    else if opcode == k_get || opcode == k_del
    then decode_key_body host body r
    else (none, r)

unfoldable pub decode_request : Host → Packet → KvRequest → Bool × KvRequest
unfolding decode_request_body
decode_request host src store =
    let h = src.head in
    if not (h.msg_type == k_request)
      || not (h.body_length == length src.body)
      || ltb k_max_body_length h.body_length
    then (false, store)
    else finish (
        decode_request_body host h.opcode src.body (record {
          offset = 0;
          out = record { opcode = h.opcode; key = []; value = []; extrainfo = [] };
        }))

unfoldable pub decode_packet_to_kv_request :
    Host → Option Packet → Option KvRequest → Bool × Option KvRequest
unfolding decode_request
decode_packet_to_kv_request host none store = (false, store)
decode_packet_to_kv_request host (some src) none = (false, none)
decode_packet_to_kv_request host (some src) (some store) =
    let (done, r) = decode_request host src store in (done, some r)
