-- ===== src/Kv/Request/Sound.antt =====
-- What `DecodePacketToKVRequest` accepts: only the bodies of the protocol's document.
use reactor_learn.Prelude.{
  ℕ, ◌+◌, ◌<◌, ◌^◌, ◌≡◌, refl, ◌⊎◌, inl, inr, ◌∙◌, ap, sym, true, Option, none, some, [], ◌++◌,
  arith, ◌==◌, ◌||◌, if◌then◌else◌, length, All, take, drop, empty_of_length,
}
use reactor_learn.Kv.ByteOrder.{Host, w32, be_bytes, IsByte}
use reactor_learn.Kv.ByteOrder.Laws.{lengths}
use reactor_learn.Kv.Protocol.{Bytes, Packet, KvRequest, k_ping, k_put, k_get, k_del, k_request}
use reactor_learn.Kv.Reader.{Reading, finish, accept_if}
use reactor_learn.Kv.Flow.Decode.{number_at}
use reactor_learn.Kv.Request.{decode_put_body, decode_key_body, decode_request_body, decode_request}
use reactor_learn.Kv.Request.Encode.{IsSendable, body_of}
use reactor_learn.Kv.Request.RoundTrip.{sent, decode_request_lem}
use reactor_learn.Kv.Request.Parts.{
  decode_put_body-PutParts, decode_key_body-KeyParts, put_parts_join, key_parts_join,
}

body_of_put :
    (r : KvRequest)
    → r.opcode ≡ k_put
    → body_of r
      ≡ be_bytes w32 (length r.key) ++ (be_bytes w32 (length r.value) ++ (r.key ++ r.value))
unfolding body_of
body_of_put r op = ground arith

body_of_key :
    (r : KvRequest)
    → (r.opcode ≡ k_get) ⊎ (r.opcode ≡ k_del)
    → body_of r ≡ be_bytes w32 (length r.key) ++ r.key
unfolding body_of
body_of_key r op = ground arith

body_of_ping : (r : KvRequest) → r.opcode ≡ k_ping → body_of r ≡ []
unfolding body_of
body_of_ping r op = ground arith

decode_request_body_lem :
    (host : Host) (op : ℕ) (body : Bytes) (r : Reading KvRequest)
    → decode_request_body host op body r ≡ (
        if op == k_ping
        then accept_if (length body == 0) r
        else if op == k_put
        then decode_put_body host body r
        else if op == k_get || op == k_del
        then decode_key_body host body r
        else (none, r))
unfolding decode_request_body
decode_request_body_lem host op body r = refl

-- Which case of the switch accepted.
switch_cases :
    (host : Host) (op : ℕ) (body : Bytes) (r r' : Reading KvRequest)
    → decode_request_body host op body r ≡ (some tt, r')
    → ((op ≡ k_ping) × ((length body == 0) ≡ true) × (r' ≡ r))
      ⊎ ((op ≡ k_put) × (decode_put_body host body r ≡ (some tt, r')))
      ⊎ (((op ≡ k_get) ⊎ (op ≡ k_del)) × (decode_key_body host body r ≡ (some tt, r')))
switch_cases host op body r r' e =
    let e' = rw (decode_request_body_lem host op body r) at e in ground arith

pub finish-eq_true {ℓ} :
    {S : Type ℓ} (t : Option (Unit {0}) × Reading S) {s : S}
    → finish t ≡ (true, s)
    → (t ≡ (some tt, t.1)) × (t.1.out ≡ s)
finish-eq_true (none, r) e = cc
finish-eq_true (some u, r) e = (refl, ap (λ t. t.1) e)

-- The request is within the document's limits, its body is the packet's, and it holds nothing else.
pub record Accepted (p : Packet) (r : KvRequest) : Type 0 where
  pub request : p.head.msg_type ≡ k_request
  pub counted : p.head.body_length ≡ length p.body
  pub opcode : r.opcode ≡ p.head.opcode
  pub sendable : IsSendable r
  pub body : p.body ≡ body_of r
  pub whole : sent r ≡ r

module _ (host : Host) (p : Packet) (small : length p.body < 2 ^ 63)
    (bytes : All IsByte p.body) where
  abbrev start : KvRequest
  start = record { opcode = p.head.opcode; key = []; value = []; extrainfo = [] }

  abbrev k1 : ℕ
  k1 = number_at w32 0 p.body

  abbrev v1 : ℕ
  v1 = number_at w32 4 p.body

  module _ (msg : p.head.msg_type ≡ k_request) (count : p.head.body_length ≡ length p.body) where
    put_Accepted :
        (r : Reading KvRequest)
        → p.head.opcode ≡ k_put
        → decode_put_body host p.body (record { offset = 0; out = start }) ≡ (some tt, r)
        → Accepted p r.out
    put_Accepted r op e =
        let parts = decode_put_body-PutParts host p.body small bytes start r e in
        let k : Bytes = take k1 (drop 8 p.body) in
        let v : Bytes = take v1 (drop (8 + k1) p.body) in
        let q : KvRequest = record { opcode = p.head.opcode; key = k; value = v; extrainfo = [] } in
        let k_size : length k ≡ k1 = omega (lengths, parts.exact) in
        let v_size : length v ≡ v1 = omega (lengths, parts.exact) in
        let same : body_of q ≡ p.body =
          body_of_put q op
          ∙ rw (k_size, v_size) (put_parts_join host p.body small bytes parts.exact) in
        rw parts.result (record {
          request = msg;
          counted = count;
          opcode = refl;
          sendable = inr (
              inl (
                op,
                (omega (arith, parts.key_pos), omega (arith, parts.key_max)),
                omega (arith, parts.value_max),
              ));
          body = sym same;
          whole = unfold sent in ground arith;
        })

    key_Accepted :
        (r : Reading KvRequest)
        → (p.head.opcode ≡ k_get) ⊎ (p.head.opcode ≡ k_del)
        → decode_key_body host p.body (record { offset = 0; out = start }) ≡ (some tt, r)
        → Accepted p r.out
    key_Accepted r op e =
        let parts = decode_key_body-KeyParts host p.body small bytes start r e in
        let k : Bytes = take k1 (drop 4 p.body) in
        let q : KvRequest = record {
          opcode = p.head.opcode;
          key = k;
          value = [];
          extrainfo = [];
        } in
        let k_size : length k ≡ k1 = omega (lengths, parts.exact) in
        let same : body_of q ≡ p.body =
          body_of_key q op ∙ rw k_size (key_parts_join host p.body small bytes parts.exact) in
        rw parts.result (record {
          request = msg;
          counted = count;
          opcode = refl;
          sendable = inr (inr (op, (omega (arith, parts.key_pos), omega (arith, parts.key_max))));
          body = sym same;
          whole = unfold sent in ground arith;
        })

    ping_Accepted : p.head.opcode ≡ k_ping → (length p.body == 0) ≡ true → Accepted p start
    ping_Accepted op empty = record {
      request = msg;
      counted = count;
      opcode = refl;
      sendable = inl op;
      body = empty_of_length p.body empty ∙ sym (body_of_ping start op);
      whole = unfold sent in ground arith;
    }

    body_Accepted :
        (r : Reading KvRequest)
        → decode_request_body host p.head.opcode p.body (record { offset = 0; out = start })
          ≡ (some tt, r)
        → Accepted p r.out
    body_Accepted r e = elim (switch_cases host p.head.opcode p.body _ r e) [
      | inl (op, empty, same) ↦ rw same (ping_Accepted op empty)
      | inr (inl (op, put)) ↦ put_Accepted r op put
      | inr (inr (op, key)) ↦ key_Accepted r op key
    ]

  abbrev decoded : Option (Unit {0}) × Reading KvRequest
  decoded = decode_request_body host p.head.opcode p.body (record { offset = 0; out = start })

  guards_pass :
      (store r : KvRequest)
      → decode_request host p store ≡ (true, r)
      → (p.head.msg_type ≡ k_request)
        × (p.head.body_length ≡ length p.body)
        × (finish decoded ≡ (true, r))
  guards_pass store r e = let e' = rw (decode_request_lem host p store) at e in ground arith

  -- On a packet whose body is shorter than 2 ^ 63 bytes, `DecodePacketToKVRequest` returns true
  -- only for a request whose length field is right and whose body is, byte for byte, that of a
  -- request within the document's limits, which it gives.
  pub decode_request_sound :
      (store r : KvRequest) → decode_request host p store ≡ (true, r) → Accepted p r
  decode_request_sound store r e =
      let (msg, count, done) = guards_pass store r e in
      let (ok, same) = finish-eq_true decoded done in
      rw (← same) (body_Accepted msg count decoded.1 ok)
