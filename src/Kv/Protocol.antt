-- ===== src/Kv/Protocol.antt =====
-- The constants of include/kv/protocolcodec.h, and the structures of include/kv/packet.h,
-- kvrequest.h and kvresponse.h. A string is the list of its bytes.
use reactor_learn.Prelude.{ℕ, ◌*◌, ◌≡◌, List, [], ◌^◌, ◌%◌, ◌+◌, All, length}
use reactor_learn.Kv.ByteOrder.{IsByte, w16, w32, w64, Fits}

abbrev pub Bytes : Type 0
Bytes = List ℕ

-- Arithmetic of size_t and uint64_t, and `static_cast<uint32_t>`.
abbrev pub add_u64 : ℕ → ℕ → ℕ
add_u64 a b = (a + b) % 2 ^ 64

abbrev pub to_u32 : ℕ → ℕ
to_u32 n = n % 2 ^ 32

abbrev pub k_default_magic : ℕ
k_default_magic = 0x06161027

abbrev pub k_default_version : ℕ
k_default_version = 1

abbrev pub k_request : ℕ
k_request = 1

abbrev pub k_response : ℕ
k_response = 2

abbrev pub k_ping : ℕ
k_ping = 1

abbrev pub k_put : ℕ
k_put = 2

abbrev pub k_get : ℕ
k_get = 3

abbrev pub k_del : ℕ
k_del = 4

abbrev pub k_ok : ℕ
k_ok = 0

abbrev pub k_not_found : ℕ
k_not_found = 1

abbrev pub k_bad_request : ℕ
k_bad_request = 2

abbrev pub k_internal_error : ℕ
k_internal_error = 3

abbrev pub k_unsupported_opcode : ℕ
k_unsupported_opcode = 4

abbrev pub k_max_key_length : ℕ
k_max_key_length = 256

abbrev pub k_max_value_length : ℕ
k_max_value_length = 1024 * 1024

abbrev pub k_max_body_length : ℕ
k_max_body_length = 2 * 1024 * 1024

pub record PacketHead : Type 0 where
  pub magic : ℕ
  pub version : ℕ
  pub msg_type : ℕ
  pub opcode : ℕ
  pub status : ℕ
  pub body_length : ℕ
  pub request_id : ℕ

-- `sizeof(PacketHead)`
abbrev pub head_size : ℕ
head_size = 24

pub record Packet : Type 0 where
  pub head : PacketHead
  pub body : Bytes

pub record KvRequest : Type 0 where
  pub opcode : ℕ
  pub key : Bytes
  pub value : Bytes
  pub extrainfo : Bytes

pub record KvResponse : Type 0 where
  pub status : ℕ
  pub key : Bytes
  pub value : Bytes
  pub extrainfo : Bytes

-- What a local `Packet`, `KVRequest` or `KVResponse` holds before it is written. The integers of
-- the C++ structures are indeterminate there; the code writes each before it reads it.
abbrev pub blank_packet : Packet
blank_packet = record {
  head = record {
    magic = 0;
    version = 0;
    msg_type = 0;
    opcode = 0;
    status = 0;
    body_length = 0;
    request_id = 0;
  };
  body = [];
}

abbrev pub blank_request : KvRequest
blank_request = record { opcode = 0; key = []; value = []; extrainfo = [] }

abbrev pub blank_response : KvResponse
blank_response = record { status = 0; key = []; value = []; extrainfo = [] }

-- Each field holds a value of its type.
pub record HeadFits (h : PacketHead) : Type 0 where
  pub magic : Fits w32 h.magic
  pub version : Fits w16 h.version
  pub msg_type : Fits w16 h.msg_type
  pub opcode : Fits w16 h.opcode
  pub status : Fits w16 h.status
  pub body_length : Fits w32 h.body_length
  pub request_id : Fits w64 h.request_id

-- A packet as the program makes them: its length field says how long its body is.
pub record IsFramed (p : Packet) : Type 0 where
  pub fits : HeadFits p.head
  pub counted : p.head.body_length ≡ length p.body
  pub bytes : All IsByte p.body
