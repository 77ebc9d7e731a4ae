-- ===== src/Kv/Response.antt =====
-- Responses and packets: `EncodeKVResponseToPacket` and `DecodePacketToKVResponse` of
-- src/kv/protocolcodec.cpp.
pub mod Laws
pub mod Sound
mod Tests
use reactor_learn.Prelude.{
  ℕ, Bool, true, false, Option, none, some, [], ltb, ◌==◌, ◌||◌, ◌&&◌, not, if◌then◌else◌, length,
}
use reactor_learn.Kv.ByteOrder.{Host}
use reactor_learn.Kv.Protocol.{
  Bytes, to_u32, Packet, PacketHead, KvResponse, k_default_magic, k_default_version, k_response,
  k_ok, k_ping, k_put, k_get, k_del, k_max_value_length,
}
use reactor_learn.Kv.Reader.{M, Reading, ◌>>=◌, ◌>>◌, refuse_if, accept_if, finish}
use reactor_learn.Kv.Body.{append_bytes, append_host_integer, body_integer, body_string}
use reactor_learn.Kv.Request.{fill_packet, at_end}

unfoldable pub response_body : Host → KvResponse → ℕ → Option Bytes
unfolding append_bytes append_host_integer
response_body host src opcode =
    let value_length = to_u32 (length src.value) in
    if opcode == k_get && src.status == k_ok
    then (if ltb k_max_value_length value_length
        then none
        else some (append_bytes (append_host_integer host [] value_length) src.value))
    else some []

abbrev pub response_head : KvResponse → ℕ → ℕ → PacketHead → PacketHead
response_head src opcode request_id h = record h {
  magic = k_default_magic;
  version = k_default_version;
  msg_type = k_response;
  opcode = opcode;
  status = src.status;
  request_id = request_id;
}

unfoldable pub encode_response : Host → KvResponse → ℕ → ℕ → Packet → Bool × Packet
unfolding response_body
encode_response host src opcode request_id store =
    fill_packet (response_head src opcode request_id store.head) (response_body host src opcode)

unfoldable pub encode_kv_response_to_packet :
    Host → Option KvResponse → ℕ → ℕ → Option Packet → Bool × Option Packet
unfolding encode_response
encode_kv_response_to_packet host none opcode request_id store = (false, store)
encode_kv_response_to_packet host (some src) opcode request_id none = (false, none)
encode_kv_response_to_packet host (some src) opcode request_id (some store) =
    let (done, p) = encode_response host src opcode request_id store in (done, some p)

unfoldable pub decode_value_body : Host → Bytes → M KvResponse (Unit {0})
unfolding body_integer body_string
decode_value_body host body = do
  value_length ← body_integer host body
  refuse_if (ltb k_max_value_length value_length)
  body_string body value_length (λ r. r.value) (λ v r. record r { value = v })
  at_end body

unfoldable pub decode_response_body : Host → PacketHead → Bytes → M KvResponse (Unit {0})
unfolding decode_value_body
decode_response_body host h body r =
    if h.opcode == k_ping || h.opcode == k_put || h.opcode == k_del
    then accept_if (length body == 0) r
    else if h.opcode == k_get
    then (if not (h.status == k_ok)
        then accept_if (length body == 0) r
        else decode_value_body host body r)
    else accept_if (length body == 0) r

unfoldable pub decode_response : Host → Packet → KvResponse → Bool × KvResponse
unfolding decode_response_body
decode_response host src store = finish (
    decode_response_body host src.head src.body (record {
      offset = 0;
      out = record { status = src.head.status; key = []; value = []; extrainfo = [] };
    }))

unfoldable pub decode_packet_to_kv_response :
    Host → Option Packet → Option KvResponse → Bool × Option KvResponse
unfolding decode_response
decode_packet_to_kv_response host none store = (false, store)
decode_packet_to_kv_response host (some src) none = (false, none)
decode_packet_to_kv_response host (some src) (some store) =
    let (done, r) = decode_response host src store in (done, some r)
