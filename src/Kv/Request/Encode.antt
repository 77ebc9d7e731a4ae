-- ===== src/Kv/Request/Encode.antt =====
-- Which requests `EncodeKVRequestToPacket` accepts, and the packet that it makes of them.
use reactor_learn.Prelude.{
  ◌+◌, ◌≤◌, ◌<◌, ◌≡◌, refl, ◌⊎◌, ◌↔◌, ◌∙◌, ap, ap₂, true, none, some, [], ◌++◌, arith, ltb, ◌==◌,
  ◌||◌, if◌then◌else◌, length, append_assoc, All, All-append,
}
use reactor_learn.Kv.ByteOrder.{Host, w32, be_bytes, IsByte}
use reactor_learn.Kv.ByteOrder.Laws.{lengths, be_bytes-IsByte}
use reactor_learn.Kv.Protocol.{
  Bytes, to_u32, Packet, KvRequest, k_default_magic, k_default_version, k_request, k_ok, k_ping,
  k_put, k_get, k_del, k_max_key_length, k_max_value_length, k_max_body_length, IsFramed,
}
use reactor_learn.Kv.Body.{
  append_bytes, append_bytes_lem, append_host_integer, append_host_integer_lem,
}
use reactor_learn.Kv.Request.{request_body, request_head, fill_packet, encode_request}

abbrev pub KeyFits : Bytes → Type 0
KeyFits k = (0 < length k) × (length k ≤ k_max_key_length)

-- The requests of the protocol's document, within its constraints.
abbrev pub IsSendable : KvRequest → Type 0
IsSendable r =
    (r.opcode ≡ k_ping)
    ⊎ ((r.opcode ≡ k_put) × KeyFits r.key × (length r.value ≤ k_max_value_length))
    ⊎ (((r.opcode ≡ k_get) ⊎ (r.opcode ≡ k_del)) × KeyFits r.key)

-- The body formats of the document's section 4.
unfoldable pub body_of : KvRequest → Bytes
body_of r =
    if r.opcode == k_ping
    then []
    else if r.opcode == k_put
    then be_bytes w32 (length r.key) ++ (be_bytes w32 (length r.value) ++ (r.key ++ r.value))
    else be_bytes w32 (length r.key) ++ r.key

unfoldable pub packet_of : KvRequest → Packet
unfolding body_of
packet_of r = record {
  head = record {
    magic = k_default_magic;
    version = k_default_version;
    msg_type = k_request;
    opcode = r.opcode;
    status = k_ok;
    body_length = length (body_of r);
    request_id = 0;
  };
  body = body_of r;
}

-- The body of a PUT and of a GET or DEL, as the code appends it: the lengths are cut to 32 bits.
put_appended : Host → KvRequest → Bytes
put_appended host r =
    append_bytes
      (append_bytes
        (append_host_integer host (append_host_integer host [] (to_u32 (length r.key)))
          (to_u32 (length r.value)))
        r.key)
      r.value

key_appended : Host → KvRequest → Bytes
key_appended host r = append_bytes (append_host_integer host [] (to_u32 (length r.key))) r.key

put_appended_lem :
    (host : Host) (r : KvRequest)
    → put_appended host r
      ≡ be_bytes w32 (to_u32 (length r.key))
        ++ (be_bytes w32 (to_u32 (length r.value)) ++ (r.key ++ r.value))
unfolding put_appended
put_appended_lem host r = simp (append_host_integer_lem, append_bytes_lem, append_assoc)

key_appended_lem :
    (host : Host) (r : KvRequest)
    → key_appended host r ≡ be_bytes w32 (to_u32 (length r.key)) ++ r.key
unfolding key_appended
key_appended_lem host r = simp (append_host_integer_lem, append_bytes_lem)

length-put_appended :
    (host : Host) (r : KvRequest) → length (put_appended host r) ≡ 8 + length r.key + length r.value
length-put_appended host r = rw (put_appended_lem host r) (omega lengths)

length-key_appended :
    (host : Host) (r : KvRequest) → length (key_appended host r) ≡ 4 + length r.key
length-key_appended host r = rw (key_appended_lem host r) (omega lengths)

-- The switch, with the appended bodies shut.
request_body_lem :
    (host : Host) (r : KvRequest)
    → request_body host r ≡ (
        if r.opcode == k_ping
        then some []
        else if r.opcode == k_put
        then (if to_u32 (length r.key) == 0
              || ltb k_max_key_length (to_u32 (length r.key))
              || ltb k_max_value_length (to_u32 (length r.value))
            then none
            else some (put_appended host r))
        else if r.opcode == k_get || r.opcode == k_del
        then (if to_u32 (length r.key) == 0 || ltb k_max_key_length (to_u32 (length r.key))
            then none
            else some (key_appended host r))
        else none)
unfolding request_body put_appended key_appended
request_body_lem host r = refl

encode_request_lem :
    (host : Host) (r : KvRequest) (store : Packet)
    → encode_request host r store ≡ fill_packet (request_head r store.head) (request_body host r)
unfolding encode_request
encode_request_lem host r store = refl

-- `EncodeKVRequestToPacket` returns true exactly on the requests within the document's limits. The
-- casts of the sizes to uint32_t let no longer key or value through.
pub encode_request-IsSendable :
    (host : Host) (r : KvRequest) (store : Packet)
    → ((encode_request host r store).0 ≡ true) ↔ IsSendable r
encode_request-IsSendable host r store =
    rw (encode_request_lem host r store, request_body_lem host r)
      (ground (arith, length-put_appended host r, length-key_appended host r))

put_appended-body_of :
    (host : Host) (r : KvRequest)
    → KeyFits r.key
    → length r.value ≤ k_max_value_length
    → put_appended host r
      ≡ be_bytes w32 (length r.key) ++ (be_bytes w32 (length r.value) ++ (r.key ++ r.value))
put_appended-body_of host r k v =
    put_appended_lem host r
    ∙ ap₂ (λ a b. be_bytes w32 a ++ (be_bytes w32 b ++ (r.key ++ r.value))) (omega arith)
        (omega arith)

key_appended-body_of :
    (host : Host) (r : KvRequest)
    → KeyFits r.key
    → key_appended host r ≡ be_bytes w32 (length r.key) ++ r.key
key_appended-body_of host r k =
    key_appended_lem host r ∙ ap (λ a. be_bytes w32 a ++ r.key) (omega arith)

request_body-body_of :
    (host : Host) (r : KvRequest) → IsSendable r → request_body host r ≡ some (body_of r)
unfolding body_of
request_body-body_of host r h =
    rw (request_body_lem host r)
      (ground (arith, put_appended-body_of host r, key_appended-body_of host r))

pub length-body_of :
    (r : KvRequest)
    → length (body_of r) ≡ (
        if r.opcode == k_ping
        then 0
        else if r.opcode == k_put
        then 8 + length r.key + length r.value
        else 4 + length r.key)
unfolding body_of
length-body_of r = ground (arith, put_size, key_size)
  where
    put_size :
        length
          (be_bytes w32 (length r.key) ++ (be_bytes w32 (length r.value) ++ (r.key ++ r.value)))
        ≡ 8 + length r.key + length r.value
    put_size = omega lengths

    key_size : length (be_bytes w32 (length r.key) ++ r.key) ≡ 4 + length r.key
    key_size = omega lengths

pub body_of-bounded : (r : KvRequest) → IsSendable r → length (body_of r) ≤ k_max_body_length
body_of-bounded r h = ground (arith, length-body_of r)

-- Of such a request it makes the packet of the document, whatever the output held before.
pub encode_request-packet_of :
    (host : Host) (r : KvRequest) (store : Packet)
    → IsSendable r
    → encode_request host r store ≡ (true, packet_of r)
unfolding packet_of
encode_request-packet_of host r store h =
    rw (encode_request_lem host r store, request_body-body_of host r h)
      (ground (arith, body_of-bounded r h))

module _ (r : KvRequest) (key_bytes : All IsByte r.key) (value_bytes : All IsByte r.value) where
  body_of-IsByte : All IsByte (body_of r)
  unfolding body_of
  body_of-IsByte = ground (arith, put_bytes, get_bytes)
    where
      join : (xs ys : Bytes) → All IsByte xs → All IsByte ys → All IsByte (xs ++ ys)
      join = All-append IsByte

      put_bytes :
          All IsByte
            (be_bytes w32 (length r.key) ++ (be_bytes w32 (length r.value) ++ (r.key ++ r.value)))
      put_bytes =
          join _ _ (be_bytes-IsByte w32 _)
            (join _ _ (be_bytes-IsByte w32 _) (join _ _ key_bytes value_bytes))

      get_bytes : All IsByte (be_bytes w32 (length r.key) ++ r.key)
      get_bytes = join _ _ (be_bytes-IsByte w32 _) key_bytes

  pub packet_of-IsFramed : IsSendable r → IsFramed (packet_of r)
  unfolding packet_of
  packet_of-IsFramed h = record {
    fits = ground (arith, body_of-bounded r h);
    counted = refl;
    bytes = body_of-IsByte;
  }
