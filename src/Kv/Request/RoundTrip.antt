-- ===== src/Kv/Request/RoundTrip.antt =====
-- `DecodePacketToKVRequest` on the packets of `EncodeKVRequestToPacket`.
use reactor_learn.Prelude.{
  ℕ, ◌+◌, ◌≤◌, ◌<◌, ◌^◌, ◌≡◌, refl, inl, inr, true, false, some, [], ◌++◌, arith, ltb, ◌==◌, ◌||◌,
  not, if◌then◌else◌, length, append_assoc, append-nil,
}
use reactor_learn.Kv.ByteOrder.{Host, w32, be_bytes}
use reactor_learn.Kv.ByteOrder.Laws.{lengths}
use reactor_learn.Kv.Protocol.{
  Bytes, Packet, KvRequest, k_request, k_ping, k_put, k_max_value_length, k_max_key_length,
  k_max_body_length,
}
use reactor_learn.Kv.Reader.{finish}
use reactor_learn.Kv.Body.{body_integer-be_bytes, body_string-append}
use reactor_learn.Kv.Request.{
  decode_put_body, decode_key_body, decode_request_body, decode_request, encode_request, put_key,
  put_value,
}
use reactor_learn.Kv.Request.Encode.{
  KeyFits, IsSendable, body_of, packet_of, body_of-bounded, encode_request-packet_of,
}

module _ (host : Host) (k v : Bytes) (key_fits : KeyFits k) where
  abbrev put_layout : Bytes
  put_layout = be_bytes w32 (length k) ++ (be_bytes w32 (length v) ++ (k ++ v))

  abbrev key_layout : Bytes
  key_layout = be_bytes w32 (length k) ++ k

  pub decode_put_body-layout :
      (out : KvRequest)
      → length v ≤ k_max_value_length
      → decode_put_body host put_layout (record { offset = 0; out = out }) ≡ (
        some tt,
        record { offset = 0 + 4 + 4 + length k + length v; out = put_value v (put_key k out) },
      )
  unfolding decode_put_body
  decode_put_body-layout out value_fits =
      rw
        (
          body_integer-be_bytes host put_layout [] (b ++ (k ++ v)) (length k) 0 out refl refl
              (omega arith) small,
          body_integer-be_bytes host put_layout a (k ++ v) (length v) 4 out refl (omega lengths)
              (omega arith) small,
          pass,
          body_string-append put_layout (a ++ b) k v (length k) 8 (λ r. r.key) put_key out
              (simp append_assoc) (omega lengths) refl small,
          body_string-append put_layout ((a ++ b) ++ k) v [] (length v) (8 + length k)
              (λ r. r.value) put_value (put_key k out) (simp (append_assoc, append-nil))
              (omega lengths) refl small,
        )
        (ground (arith, total))
    where
      a : Bytes
      a = be_bytes w32 (length k)

      b : Bytes
      b = be_bytes w32 (length v)

      pass :
          (length k == 0 || ltb k_max_key_length (length k) || ltb k_max_value_length (length v))
          ≡ false
      pass = ground arith

      total : length put_layout ≡ 8 + length k + length v
      total = omega lengths

      small : length put_layout < 2 ^ 64
      small = omega (arith, total)

  pub decode_key_body-layout :
      (out : KvRequest)
      → decode_key_body host key_layout (record { offset = 0; out = out })
        ≡ (some tt, record { offset = 0 + 4 + length k; out = put_key k out })
  unfolding decode_key_body
  decode_key_body-layout out =
      rw
        (
          body_integer-be_bytes host key_layout [] k (length k) 0 out refl refl (omega arith) small,
          pass,
          body_string-append key_layout a k [] (length k) 4 (λ r. r.key) put_key out
              (simp append-nil) (omega lengths) refl small,
        )
        (ground (arith, total))
    where
      a : Bytes
      a = be_bytes w32 (length k)

      pass : (length k == 0 || ltb k_max_key_length (length k)) ≡ false
      pass = ground arith

      total : length key_layout ≡ 4 + length k
      total = omega lengths

      small : length key_layout < 2 ^ 64
      small = omega (arith, total)

-- What of a request goes over the wire: a PING has no key, and only a PUT has a value.
unfoldable pub sent : KvRequest → KvRequest
sent r = record r {
  key = if r.opcode == k_ping then [] else r.key;
  value = if r.opcode == k_put then r.value else [];
  extrainfo = [];
}

-- The body of a request is read back.
decode_request_body-body_of :
    (host : Host) (r out : KvRequest)
    → IsSendable r
    → (end : ℕ) × (decode_request_body host r.opcode
          (body_of r)
          (record { offset = 0; out = record out { key = []; value = [] } })
        ≡ (
          some tt,
          record { offset = end; out = record out { key = (sent r).key; value = (sent r).value } },
        ))
unfolding decode_request_body body_of sent
decode_request_body-body_of host r out (inl ping) = (0, rw ping)
decode_request_body-body_of host r out (inr (inl (put, k, v))) = (
  0 + 4 + 4 + length r.key + length r.value,
  rw put (decode_put_body-layout host r.key r.value k _ v),
)
decode_request_body-body_of host r out (inr (inr (inl get, k))) =
    (0 + 4 + length r.key, rw get (decode_key_body-layout host r.key r.value k _))
decode_request_body-body_of host r out (inr (inr (inr del, k))) =
    (0 + 4 + length r.key, rw del (decode_key_body-layout host r.key r.value k _))

-- `DecodePacketToKVRequest` with its switch shut.
pub decode_request_lem :
    (host : Host) (src : Packet) (store : KvRequest)
    → decode_request host src store ≡ (
        if not (src.head.msg_type == k_request)
          || not (src.head.body_length == length src.body)
          || ltb k_max_body_length src.head.body_length
        then (false, store)
        else finish (
            decode_request_body host src.head.opcode src.body (record {
              offset = 0;
              out = record { opcode = src.head.opcode; key = []; value = []; extrainfo = [] };
            })))
unfolding decode_request
decode_request_lem host src store = refl

-- A packet with a request's head and body decodes to the request, without what does not go over the
-- wire.
pub decode_request-body_of :
    (host : Host) (r store : KvRequest) (p : Packet)
    → IsSendable r
    → p.head.msg_type ≡ k_request
    → p.head.opcode ≡ r.opcode
    → p.head.body_length ≡ length (body_of r)
    → p.body ≡ body_of r
    → decode_request host p store ≡ (true, sent r)
decode_request-body_of host r store p h type op len body =
    let (end, e) =
      decode_request_body-body_of host r
        (record { opcode = r.opcode; key = []; value = []; extrainfo = [] }) h in
    rw (decode_request_lem host p store, op, body, e)
      (unfold sent in ground (arith, body_of-bounded r h))

-- A request that one host encodes and another decodes comes back, without what does not go over the
-- wire: both functions return true.
pub decode_request-encode_request :
    (sender receiver : Host) (r store : KvRequest) (p : Packet)
    → IsSendable r
    → (let (encoded, q) = encode_request sender r p in
        (encoded ≡ true) × (decode_request receiver q store ≡ (true, sent r)))
decode_request-encode_request sender receiver r store p h =
    rw (encode_request-packet_of sender r p h) (
      refl,
      decode_request-body_of receiver r store (packet_of r) h (unfold packet_of in refl)
          (unfold packet_of in refl) (unfold packet_of in refl) (unfold packet_of in refl),
    )
