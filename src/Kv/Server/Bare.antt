-- ===== src/Kv/Server/Bare.antt =====
-- Requests with no body: how the default service of src/kv/kvservice.cpp judges and answers one.
use reactor_learn.Prelude.{
  ℕ, ◌+◌, ◌<◌, ◌^◌, ◌≡◌, refl, ◌∙◌, ap, ◌⊎◌, inl, inr, Bool, true, false, some, [], arith, ◌==◌,
  ◌||◌, not, if◌then◌else◌, Bool-cases, length,
}
use native.Mathlib.Decide.{ℕ_discrete}
use reactor_learn.Kv.ByteOrder.{Host, w16, w64, Fits}
use reactor_learn.Kv.Protocol.{
  Packet, KvRequest, head_size, IsFramed, blank_packet, blank_request, k_default_magic,
  k_default_version, k_request, k_ok, k_bad_request, k_unsupported_opcode, k_ping, k_put, k_get,
  k_del,
}
use reactor_learn.Kv.Flow.Encode.{flow_of, encode_packet_to_flow_lem}
use reactor_learn.Kv.Request.{decode_request}
use reactor_learn.Kv.Request.Encode.{body_of, length-body_of}
use reactor_learn.Kv.Request.RoundTrip.{sent, decode_request-body_of}
use reactor_learn.Kv.Request.Sound.{Accepted, decode_request_sound}
use reactor_learn.Kv.Response.Laws.{reply_packet, length-reply_body}
use reactor_learn.Kv.Store.{Map}
use reactor_learn.Kv.Service.{default_service, judge, process, execute, cleared, echo_packet}
use reactor_learn.Kv.Service.Replies.{process_lem, respond-reply_packet, echo_packet_lem}
use reactor_learn.Kv.Server.{write, Session, goes_on, answer_turn, send_echo, emit}
use reactor_learn.Kv.Server.Turns.{answer_turn_lem}

-- A request with no body, by its opcode and its id.
pub record Bare : Type 0 where
  pub opcode : ℕ
  pub request_id : ℕ

abbrev pub BareFits : Bare → Type 0
BareFits q = Fits w16 q.opcode × Fits w64 q.request_id

unfoldable pub bare_request : Bare → Packet
bare_request q = record {
  head = record {
    magic = k_default_magic;
    version = k_default_version;
    msg_type = k_request;
    opcode = q.opcode;
    status = k_ok;
    body_length = 0;
    request_id = q.request_id;
  };
  body = [];
}

-- A PING succeeds, a PUT, GET or DEL lacks its key, and nothing else is supported.
unfoldable pub verdict : ℕ → ℕ
verdict opcode =
    if opcode == k_ping
    then k_ok
    else if opcode == k_put || opcode == k_get || opcode == k_del
    then k_bad_request
    else k_unsupported_opcode

unfoldable pub bare_reply : Bare → Packet
unfolding verdict
bare_reply q = reply_packet (cleared (verdict q.opcode)) q.opcode q.request_id

pub bare_request-IsFramed : (q : Bare) → BareFits q → IsFramed (bare_request q)
unfolding bare_request
bare_request-IsFramed q f = record { fits = omega arith; counted = refl; bytes = tt }

-- A PUT, GET or DEL with no body is not decoded.
bodyless_refused :
    (host : Host) (q : Bare)
    → (q.opcode ≡ k_put) ⊎ (q.opcode ≡ k_get) ⊎ (q.opcode ≡ k_del)
    → (decode_request host (bare_request q) blank_request).0 ≡ false
unfolding bare_request
bodyless_refused host q op = elim (Bool-cases (decode_request host p blank_request).0) [
  | inr e ↦ e
  | inl e ↦
      let a : Accepted p r =
        decode_request_sound host p (omega arith) tt blank_request r
          (ap (λ (d : Bool). (d, r)) e) in
      absurd (ground (arith, ap length a.body, length-body_of r, a.opcode))
]
  where
    p : Packet
    p = bare_request q

    r : KvRequest
    r = (decode_request host p blank_request).1

ping_decoded :
    (host : Host) (q : Bare)
    → q.opcode ≡ k_ping
    → decode_request host (bare_request q) blank_request
      ≡ (true, sent (record { opcode = k_ping; key = []; value = []; extrainfo = [] }))
unfolding bare_request
ping_decoded host q e =
    decode_request-body_of host ping blank_request (bare_request q) (inl refl) refl e
      (unfold body_of in refl) (unfold body_of in refl)
  where
    ping : KvRequest
    ping = record { opcode = k_ping; key = []; value = []; extrainfo = [] }

judge_lem :
    (host : Host) (p : Packet)
    → judge host p ≡ (
        if not (
          p.head.opcode == k_ping
          || p.head.opcode == k_put
          || p.head.opcode == k_get
          || p.head.opcode == k_del)
        then record p { head = record p.head { status = k_unsupported_opcode } }
        else if not (decode_request host p blank_request).0
        then record p { head = record p.head { status = k_bad_request } }
        else p)
unfolding judge
judge_lem host p = refl

judged :
    (host : Host) (q : Bare)
    → judge host (bare_request q) ≡ record (bare_request q) {
      head = record (bare_request q).head { status = verdict q.opcode };
    }
unfolding verdict bare_request
judged host q =
    judge_lem host (bare_request q) ∙ ground (arith, bodyless_refused host q, ping_decoded host q)

processed :
    (host : Host) (mp : Map) (q : Bare)
    → process host mp (judge host (bare_request q)) ≡ (cleared (verdict q.opcode), mp)
processed host mp q = elim (ℕ_discrete q.opcode k_ping) [
  | yes e ↦
      rw (judged host q, process_lem)
        (unfold verdict bare_request in ground (arith, ping_decoded host q e, executed))
  | no ne ↦ rw (judged host q, process_lem) (unfold verdict bare_request in ground arith)
]
  where
    executed :
        execute mp
          (sent (record { opcode = k_ping; key = []; value = []; extrainfo = [] }))
          (cleared k_ok)
        ≡ (cleared k_ok, mp)
    executed = unfold execute sent in refl

bare_reply_small : (q : Bare) → head_size + length (bare_reply q).body < 2 ^ 64
unfolding bare_reply reply_packet
bare_reply_small q = ground (arith, length-reply_body (cleared (verdict q.opcode)) q.opcode)

echoed :
    (host : Host) (mp : Map) (q : Bare)
    → echo_packet host mp (judge host (bare_request q)) blank_packet ≡ (true, bare_reply q, mp)
unfolding bare_reply
echoed host mp q =
    rw
      (
        echo_packet_lem,
        processed host mp q,
        respond-reply_packet host (cleared (verdict q.opcode)) (judge host (bare_request q)).head
            blank_packet (omega arith),
        judged host q,
      )
      (unfold bare_request in refl)

-- One round answers one such request.
pub answered :
    (host : Host) (s : Session) (q : Bare)
    → answer_turn host (default_service host) s (some (judge host (bare_request q)))
      ≡ goes_on (emit (write (flow_of (bare_reply q))) s)
answered host s q =
    rw (answer_turn_lem, echoed host s.store q)
      (unfold send_echo in
        rw (encode_packet_to_flow_lem host (bare_reply q) [] (bare_reply_small q)))
