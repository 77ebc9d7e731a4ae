-- ===== src/Kv/Service.antt =====
-- src/kv/kvservice.cpp. A std::function that takes a Buffer& returns the buffer beside its Boolean;
-- one that also writes through `result` or `echo` returns those too. `result` and `echo` point to
-- packets, and a null pointer is `none`.
pub mod Limits
pub mod Replies
pub mod Checks
use reactor_learn.Prelude.{
  ℕ, Bool, true, false, Option, none, some, [], ltb, leb, ◌==◌, ◌||◌, not, if◌then◌else◌, length,
}
use reactor_learn.Kv.ByteOrder.{Host}
use reactor_learn.Kv.Protocol.{
  Bytes, add_u64, Packet, PacketHead, KvRequest, KvResponse, head_size, blank_packet, blank_request,
  k_default_magic, k_default_version, k_request, k_ok, k_bad_request, k_internal_error,
  k_unsupported_opcode, k_ping, k_put, k_get, k_del, k_max_body_length,
}
use reactor_learn.Kv.Flow.{decode_flow}
use reactor_learn.Kv.Request.{decode_request}
use reactor_learn.Kv.Response.{encode_response}
use reactor_learn.Kv.Store.{Map, get_entry, put_entry, del_entry}
use reactor_learn.Buffer
use reactor_learn.Buffer.{Buffer}

unfoldable pub is_supported_opcode : ℕ → Bool
is_supported_opcode opcode =
    opcode == k_ping || opcode == k_put || opcode == k_get || opcode == k_del

-- `DecodeFlowToPacket(buffer.CReadData(), sizeof(PacketHead), &packet)` into a local packet.
unfoldable pub peek_head : Host → Buffer → Bool × Packet
peek_head host b = decode_flow host (Buffer.c_read_data b) head_size blank_packet

-- `kDefaultHeadCheck`: whether the connection must be closed.
unfoldable pub default_head_check : Host → Buffer → Bool × Buffer
unfolding peek_head
default_head_check host b =
    if ltb (Buffer.size b) head_size
    then (false, b)
    else (let (decoded, packet) = peek_head host b in
        if not decoded then (true, b) else (
          not (packet.head.magic == k_default_magic)
              || not (packet.head.version == k_default_version)
              || not (packet.head.msg_type == k_request)
              || ltb k_max_body_length packet.head.body_length,
          b,
        ))

-- `kDefaultShouldGet`: whether a whole packet has come.
unfoldable pub default_should_get : Host → Buffer → Bool × Buffer
unfolding peek_head
default_should_get host b =
    if ltb (Buffer.size b) head_size
    then (false, b)
    else (let (decoded, packet) = peek_head host b in
        if not decoded
        then (false, b)
        else (leb (add_u64 head_size packet.head.body_length) (Buffer.size b), b))

-- The verdict on a packet that was taken out of the buffer, in its status.
unfoldable pub judge : Host → Packet → Packet
unfolding is_supported_opcode
judge host packet =
    if not (is_supported_opcode packet.head.opcode)
    then record packet { head = record packet.head { status = k_unsupported_opcode } }
    else if not (decode_request host packet blank_request).0
    then record packet { head = record packet.head { status = k_bad_request } }
    else packet

-- The end of `kDefaultBodyCheck`: `raw` is what was read, or `none` where `ReadBuffer` threw.
abbrev pub take_packet :
    Host → Packet → Option (Bytes × Buffer) → Option (Bool × Buffer × Option Packet)
take_packet host store none = none
take_packet host store (some (raw, b)) =
    let (decoded, packet) = decode_flow host raw (length raw) store in
    some (if decoded then (true, b, some (judge host packet)) else (false, b, some packet))

-- `kDefaultBodyCheck`; `none` is an exception.
unfoldable pub default_body_check :
    Host → Buffer → Option Packet → Option (Bool × Buffer × Option Packet)
unfolding peek_head judge
default_body_check host b none = some (false, b, none)
default_body_check host b (some store) =
    if ltb (Buffer.size b) head_size
    then some (false, b, some store)
    else (let (decoded, packet) = peek_head host b in
        let total_length = add_u64 head_size packet.head.body_length in
        if not decoded
        then some (false, b, some store)
        else if ltb (Buffer.size b) total_length
        then some (false, b, some store)
        else take_packet host store (Buffer.read_buffer b total_length))

-- `kDefaultShouldEcho`
unfoldable pub default_should_echo :
    Buffer → Option Packet → Option Packet → Bool × Buffer × Option Packet × Option Packet
default_should_echo b none echo = (false, b, none, echo)
default_should_echo b (some result) none = (false, b, some result, none)
default_should_echo b (some result) (some echo) = (true, b, some result, some echo)

-- The four functions that a `KVService` is built with. Its `kvstore` is passed beside it.
-- They return normally, but for the exception that the body check lets out of `ReadBuffer`.
pub record KvService : Type 0 where
  pub headcheck : Buffer → Bool × Buffer
  pub shouldget : Buffer → Bool × Buffer
  pub bodycheck : Buffer → Option Packet → Option (Bool × Buffer × Option Packet)
  pub shouldecho :
      Buffer → Option Packet → Option Packet → Bool × Buffer × Option Packet × Option Packet

unfoldable pub default_service : Host → KvService
default_service host = record {
  headcheck = default_head_check host;
  shouldget = default_should_get host;
  bodycheck = default_body_check host;
  shouldecho = default_should_echo;
}

abbrev pub cleared : ℕ → KvResponse
cleared status = record { status = status; key = []; value = []; extrainfo = [] }

-- The switch over the request's opcode.
unfoldable pub execute : Map → KvRequest → KvResponse → KvResponse × Map
execute mp request response =
    if request.opcode == k_ping
    then (record response { status = k_ok }, mp)
    else if request.opcode == k_put
    then put_entry mp request response
    else if request.opcode == k_get
    then (get_entry mp request response, mp)
    else if request.opcode == k_del
    then del_entry mp request response
    else (record response { status = k_unsupported_opcode }, mp)

unfoldable pub process : Host → Map → Packet → KvResponse × Map
unfolding execute
process host mp request_packet =
    if request_packet.head.status == k_ok
    then (let (decoded, request) = decode_request host request_packet blank_request in
        if decoded
        then execute mp request (cleared request_packet.head.status)
        else (cleared k_bad_request, mp))
    else (cleared request_packet.head.status, mp)

-- The response's packet, or that of an internal error where it cannot be encoded.
unfoldable pub respond : Host → KvResponse → PacketHead → Packet → Bool × Packet
respond host response request_head echo =
    let (encoded, packet) =
      encode_response host response request_head.opcode request_head.request_id echo in
    if encoded
    then (true, packet)
    else encode_response host (cleared k_internal_error) request_head.opcode request_head.request_id
        packet

-- `KVService::ShouldEcho` behind its tests.
unfoldable pub echo_packet : Host → Map → Packet → Packet → Bool × Packet × Map
unfolding process respond
echo_packet host mp request_packet response_packet =
    let (response, mp') = process host mp request_packet in
    let (encoded, packet) = respond host response request_packet.head response_packet in
    (encoded, packet, mp')

abbrev pub guarded_echo :
    Host → Map → Bool × Buffer × Option Packet × Option Packet → Bool × Buffer × Option Packet × Map
guarded_echo host mp (false, b, result, echo) = (false, b, echo, mp)
guarded_echo host mp (true, b, none, echo) = (false, b, echo, mp)
guarded_echo host mp (true, b, some result, none) = (false, b, none, mp)
guarded_echo host mp (true, b, some result, some echo) =
    let (encoded, packet, mp') = echo_packet host mp result echo in (encoded, b, some packet, mp')

-- `KVService::ShouldEcho`
unfoldable pub should_echo :
    Host
    → KvService
    → Map
    → Buffer
    → Option Packet
    → Option Packet
    → Bool × Buffer × Option Packet × Map
unfolding echo_packet
should_echo host service mp b result echo = guarded_echo host mp (service.shouldecho b result echo)
