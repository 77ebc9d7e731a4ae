-- ===== src/Kv/Service/Replies.antt =====
-- `KVService::ShouldEcho`: which packet answers a request, and what becomes of the store.
use reactor_learn.Prelude.{
  ◌≤◌, ◌<◌, ◌^◌, ◌≡◌, refl, ◌∙◌, ap, Bool, true, arith, ◌==◌, if_cases, if◌then◌else◌, length, All,
}
use reactor_learn.Kv.ByteOrder.{Host, IsByte}
use reactor_learn.Kv.Protocol.{
  Packet, PacketHead, KvRequest, KvResponse, blank_request, k_ok, k_bad_request, k_request,
  k_max_value_length,
}
use reactor_learn.Kv.Request.{decode_request}
use reactor_learn.Kv.Request.Encode.{IsSendable, body_of}
use reactor_learn.Kv.Request.RoundTrip.{sent, decode_request-body_of}
use reactor_learn.Kv.Request.Sound.{decode_request_sound}
use reactor_learn.Kv.Response.Laws.{reply_packet, encode_response-reply_packet}
use reactor_learn.Kv.Store.{Map}
use reactor_learn.Kv.Store.Refine.{View, view}
use reactor_learn.Kv.Service.{execute, process, respond, echo_packet, cleared}
use reactor_learn.Kv.Service.Limits.{
  IsBounded, view_execute, seen, execute-view_execute, Sized, execute-Sized,
}

pub process_lem :
    (host : Host) (mp : Map) (p : Packet)
    → process host mp p ≡ (
        if p.head.status == k_ok
        then (let (decoded, request) = decode_request host p blank_request in
            if decoded
            then execute mp request (cleared p.head.status)
            else (cleared k_bad_request, mp))
        else (cleared p.head.status, mp))
unfolding process
process_lem host mp p = refl

module _ (host : Host) (p : Packet) (small : length p.body < 2 ^ 63)
    (bytes : All IsByte p.body) where
  decoded-IsSendable :
      (decode_request host p blank_request).0 ≡ true
      → IsSendable (decode_request host p blank_request).1
  decoded-IsSendable e =
      (decode_request_sound host p small bytes blank_request (decode_request host p blank_request).1
        (ap (λ (d : Bool). (d, (decode_request host p blank_request).1)) e)).sendable

  process-Sized : (mp : Map) → IsBounded mp → Sized (process host mp p)
  process-Sized mp b = rw (process_lem host mp p) (
      if_cases Sized (p.head.status == k_ok)
        (λ t.
          if_cases Sized (decode_request host p blank_request).0
            (λ e.
              execute-Sized mp (decode_request host p blank_request).1 p.head.status
                (decoded-IsSendable e) b)
            (λ _. record { value = omega arith; store = b }))
        (λ _. record { value = omega arith; store = b }))

pub respond-reply_packet :
    (host : Host) (r : KvResponse) (h : PacketHead) (echo : Packet)
    → length r.value ≤ k_max_value_length
    → respond host r h echo ≡ (true, reply_packet r h.opcode h.request_id)
unfolding respond
respond-reply_packet host r h echo v =
    rw (encode_response-reply_packet host r h.opcode h.request_id echo v)

pub echo_packet_lem :
    (host : Host) (mp : Map) (p echo : Packet)
    → echo_packet host mp p echo ≡ (
        let (response, mp') = process host mp p in
        let (encoded, packet) = respond host response p.head echo in (encoded, packet, mp'))
unfolding echo_packet
echo_packet_lem host mp p echo = refl

-- While the store is within the limits, every packet with a body of fewer than 2 ^ 63 bytes is
-- answered: the encoding never fails, so the internal error is never sent; the answer carries the
-- packet's opcode and request id; and the store stays within the limits.
pub echo_packet-reply_packet :
    (host : Host) (mp : Map) (p echo : Packet)
    → length p.body < 2 ^ 63
    → All IsByte p.body
    → IsBounded mp
    → (response : KvResponse) × (mp' : Map) × (echo_packet host mp p echo
        ≡ (true, reply_packet response p.head.opcode p.head.request_id, mp'))
      × IsBounded mp'
echo_packet-reply_packet host mp p echo small bytes b =
    let s = process-Sized host p small bytes mp b in
    (
      (process host mp p).0,
      (process host mp p).1,
      rw (
        echo_packet_lem host mp p echo,
        respond-reply_packet host (process host mp p).0 p.head echo s.value,
      ),
      s.store,
    )

-- A packet with a request's head and body.
pub record Carries (p : Packet) (r : KvRequest) : Type 0 where
  pub sendable : IsSendable r
  pub request : p.head.msg_type ≡ k_request
  pub status : p.head.status ≡ k_ok
  pub opcode : p.head.opcode ≡ r.opcode
  pub counted : p.head.body_length ≡ length (body_of r)
  pub body : p.body ≡ body_of r

sent-IsSendable : (r : KvRequest) → IsSendable r → IsSendable (sent r)
unfolding sent
sent-IsSendable r h = ground arith

-- What does not go over the wire means nothing.
view_execute-sent :
    (s : View) (r : KvRequest) → IsSendable r → view_execute s (sent r) ≡ view_execute s r
unfolding view_execute sent
view_execute-sent s r h = ground arith

pub process-Carries :
    (host : Host) (mp : Map) (p : Packet) (r : KvRequest)
    → Carries p r
    → process host mp p ≡ execute mp (sent r) (cleared p.head.status)
process-Carries host mp p r c =
    process_lem host mp p
    ∙ ground (
      arith,
      c.status,
      decode_request-body_of host r blank_request p c.sendable c.request c.opcode c.counted c.body,
    )

-- While the store is within the limits, the packet of a request within them is answered as the
-- abstract store tells: with the found value or the status of the operation, under the request's
-- opcode and id; and the store changes as the abstract one does and stays within the limits.
pub echo_packet-view_execute :
    (host : Host) (mp : Map) (p echo : Packet) (r : KvRequest)
    → Carries p r
    → IsBounded mp
    → (mp' : Map) × (echo_packet host mp p echo
        ≡ (true, reply_packet (view_execute (view mp) r).0 p.head.opcode p.head.request_id, mp'))
      × (view mp' ≡ (view_execute (view mp) r).1)
      × IsBounded mp'
echo_packet-view_execute host mp p echo r c b =
    let done = execute mp (sent r) (cleared p.head.status) in
    let sized = execute-Sized mp (sent r) p.head.status (sent-IsSendable r c.sendable) b in
    let same : seen done ≡ view_execute (view mp) r =
      execute-view_execute mp (sent r) p.head.status (sent-IsSendable r c.sendable)
      ∙ view_execute-sent (view mp) r c.sendable in
    (
      done.1,
      rw
          (
            echo_packet_lem host mp p echo,
            process-Carries host mp p r c,
            respond-reply_packet host done.0 p.head echo sized.value,
          )
          (ap
            (λ (t : KvResponse × View).
              (true, reply_packet t.0 p.head.opcode p.head.request_id, done.1))
            same),
      ap (λ (t : KvResponse × View). t.1) same,
      sized.store,
    )
