-- ===== src/Kv/Response/Sound.antt =====
-- What `DecodePacketToKVResponse` accepts: only the bodies of the protocol's document.
use reactor_learn.Prelude.{
  ℕ, ◌+◌, ◌≤◌, ◌<◌, ◌^◌, ◌≡◌, refl, ◌∙◌, ap, sym, Bool, true, false, some, [], Option, ◌==◌, arith,
  if◌then◌else◌, length, All, take, drop, empty_of_length, Bool-cases, inl, inr,
}
use reactor_learn.Kv.ByteOrder.{Host, IsByte}
use reactor_learn.Kv.ByteOrder.Laws.{lengths}
use reactor_learn.Kv.Protocol.{Bytes, Packet, KvResponse, k_max_value_length}
use reactor_learn.Kv.Reader.{Reading, finish, accept_if}
use reactor_learn.Kv.Request.Parts.{body_integer_lem, body_string_lem, first, key_parts_join}
use reactor_learn.Kv.Request.Sound.{finish-eq_true}
use reactor_learn.Kv.Response.{decode_value_body, decode_response}
use reactor_learn.Kv.Response.Laws.{carries, reply_body, received, decode_response_lem}

-- The response has the packet's status and a value within the limit, and its body is the packet's.
pub record Accepted (p : Packet) (r : KvResponse) : Type 0 where
  pub status : r.status ≡ p.head.status
  pub value_max : length r.value ≤ k_max_value_length
  pub body : p.body ≡ reply_body r p.head.opcode
  pub whole : received r p.head.opcode ≡ r

put_in : Bytes → KvResponse → KvResponse
put_in v r = record r { value = v }

module _ (host : Host) (p : Packet) (small : length p.body < 2 ^ 63)
    (bytes : All IsByte p.body) where
  abbrev start : KvResponse
  start = record { status = p.head.status; key = []; value = []; extrainfo = [] }

  abbrev size : ℕ
  size = first host p.body small bytes

  record ValueParts (r : Reading KvResponse) : Type 0 where
    value_max : size ≤ k_max_value_length
    exact : 4 + size ≡ length p.body
    result : r.out ≡ record start { value = take size (drop 4 p.body) }

  decode_value_body-ValueParts :
      (r : Reading KvResponse)
      → decode_value_body host p.body (record { offset = 0; out = start }) ≡ (some tt, r)
      → ValueParts r
  unfolding decode_value_body
  decode_value_body-ValueParts r e = ground (
    arith,
    body_integer_lem {S = KvResponse} host p.body small bytes 0 start,
    body_string_lem host p.body small bytes 4 size (λ (r : KvResponse). r.value)
        (λ v (r : KvResponse). record r { value = v }) start,
  )

  value_Accepted :
      (r : Reading KvResponse)
      → carries start p.head.opcode ≡ true
      → decode_value_body host p.body (record { offset = 0; out = start }) ≡ (some tt, r)
      → Accepted p r.out
  value_Accepted r c e =
      let parts = decode_value_body-ValueParts r e in
      let v_size : length (take size (drop 4 p.body)) ≡ size = omega (lengths, parts.exact) in
      rw parts.result (record {
        status = refl;
        value_max = omega (arith, v_size, parts.value_max);
        body =
            unfold reply_body in
            rw (c, v_size) (sym (key_parts_join host p.body small bytes parts.exact));
        whole = unfold received in rw c refl;
      })

  empty_Accepted :
      carries start p.head.opcode ≡ false → (length p.body == 0) ≡ true → Accepted p start
  empty_Accepted c empty = record {
    status = refl;
    value_max = omega arith;
    body = unfold reply_body in rw c (empty_of_length p.body empty);
    whole = unfold received in rw c refl;
  }

  abbrev read_as : Bool → Reading KvResponse → Option (Unit {0}) × Reading KvResponse
  read_as c r = if c then decode_value_body host p.body r else accept_if (length p.body == 0) r

  -- The cases of the switch are two.
  two_cases :
      (store : KvResponse)
      → decode_response host p store
        ≡ finish (read_as (carries start p.head.opcode) (record { offset = 0; out = start }))
  two_cases store = decode_response_lem host p store ∙ ground arith

  -- On a packet whose body is shorter than 2 ^ 63 bytes, `DecodePacketToKVResponse` returns true only for
  -- a response with the packet's status and a value within the limit, whose body is, byte for byte, the
  -- packet's: the value behind its length for a GET that succeeded, and nothing for any other.
  pub decode_response_sound :
      (store r : KvResponse) → decode_response host p store ≡ (true, r) → Accepted p r
  decode_response_sound store r e = elim (Bool-cases (carries start p.head.opcode)) [
    | inl c ↦
        let t = decode_value_body host p.body (record { offset = 0; out = start }) in
        let e' : finish t ≡ (true, r) = sym (two_cases store ∙ rw c refl) ∙ e in
        let (ok, same) = finish-eq_true t e' in rw (← same) (value_Accepted t.1 c ok)
    | inr c ↦
        let t : Option (Unit {0}) × Reading KvResponse =
          accept_if (length p.body == 0) (record { offset = 0; out = start }) in
        let e' : finish t ≡ (true, r) = sym (two_cases store ∙ rw c refl) ∙ e in
        let (empty, same) = accepted e' in rw (← same) (empty_Accepted c empty)
  ]
    where
      accepted :
          finish (accept_if (length p.body == 0) (record { offset = 0; out = start })) ≡ (true, r)
          → ((length p.body == 0) ≡ true) × (start ≡ r)
      accepted e = elim (Bool-cases (length p.body == 0)) [
        | inl t ↦ (t, ap (λ (x : Bool × KvResponse). x.1) (rw t at e))
        | inr f ↦ absurd (ground (arith, f, e))
      ]
