-- ===== src/Kv/Tests.antt =====
-- The protocol and the service at concrete packets.
use reactor_learn.Prelude.{
  ◌≤◌, ◌≡◌, refl, sym, ◌∙◌, ◌≢◌, ap, Bool, true, some, List, [], ◌∷◌, ◌++◌, arith, length, take,
  take_all, All, All-append, map,
}
use reactor_learn.Kv.ByteOrder.{little, big, be_bytes, IsByte}
use reactor_learn.Kv.ByteOrder.Laws.{lengths}
use reactor_learn.Kv.Protocol.{
  Bytes, Packet, KvRequest, KvResponse, blank_packet, blank_request, blank_response, IsFramed, k_ok,
  k_ping, k_put, k_get,
}
use reactor_learn.Kv.Flow.{encode_packet_to_flow, decode_view_to_packet, decode_flow}
use reactor_learn.Kv.Flow.Encode.{flow_of}
use reactor_learn.Kv.Flow.RoundTrip.{
  decode-encode, decode_flow-flow_of, decode_flow_sound, flow_of-IsByte, length-flow_of,
}
use reactor_learn.Kv.Request.{encode_request, decode_request}
use reactor_learn.Kv.Request.Encode.{
  IsSendable, packet_of, packet_of-IsFramed, encode_request-packet_of,
}
use reactor_learn.Kv.Request.RoundTrip.{sent, decode_request-encode_request}
use reactor_learn.Kv.Request.Sound.{Accepted, decode_request_sound}
use reactor_learn.Kv.Response.{encode_response, decode_response}
use reactor_learn.Kv.Response.Laws.{received, reply_packet, decode_response-encode_response}
use reactor_learn.Kv.Store.{Map}
use reactor_learn.Kv.Store.Refine.{
  Call, get, put, del, view, store_run, view_run, store_run-view_run,
}
use reactor_learn.Kv.Service.{default_service, echo_packet}
use reactor_learn.Kv.Service.Replies.{Carries, echo_packet-view_execute}
use reactor_learn.Kv.Service.Limits.{IsBounded, view_execute}
use reactor_learn.Kv.Server.{Session, finished, on_message, close}
use reactor_learn.Kv.Server.Serving.{on_message-finishes, on_message-with_body}
use reactor_learn.Kv.Server.Bare.{Bare, BareFits, bare_request}
use reactor_learn.Kv.Server.Pipeline.{
  flows, length-flows, flows-IsByte, answer, on_message-pipeline,
}
use reactor_learn.Buffer.{Buffer}
use reactor_learn.Buffer.Invariant.{IsValid, contents}

-- PUT k v
abbrev put_kv : KvRequest
put_kv = record { opcode = k_put; key = 107 ∷ []; value = 118 ∷ []; extrainfo = [] }

abbrev get_k : KvRequest
get_k = record { opcode = k_get; key = 107 ∷ []; value = []; extrainfo = [] }

put_kv-IsSendable : IsSendable put_kv
put_kv-IsSendable = omega arith

get_k-IsSendable : IsSendable get_k
get_k-IsSendable = omega arith

abbrev put_packet : Packet
put_packet = packet_of put_kv

put_packet-IsFramed : IsFramed put_packet
put_packet-IsFramed =
    packet_of-IsFramed put_kv (omega arith, tt) (omega arith, tt) put_kv-IsSendable

length-put_packet : length put_packet.body ≡ 10
unfolding packet_of be_bytes
length-put_packet = refl

put_flow-IsByte : All IsByte (flow_of put_packet)
put_flow-IsByte = flow_of-IsByte put_packet put_packet-IsFramed

decode-encode_example :
    decode_view_to_packet big
      (encode_packet_to_flow little (some put_packet) []).1
      (some blank_packet)
    ≡ (true, some put_packet)
decode-encode_example = decode-encode little big put_packet blank_packet [] put_packet-IsFramed

abbrev stream : Bytes
stream = flow_of put_packet ++ (7 ∷ [])

length-stream : length stream ≡ 35
length-stream = omega (lengths, length-flow_of put_packet, length-put_packet)

stream-IsByte : All IsByte stream
stream-IsByte = All-append IsByte (flow_of put_packet) (7 ∷ []) put_flow-IsByte (omega arith, tt)

stream_decoded : decode_flow little stream 35 blank_packet ≡ (true, put_packet)
stream_decoded = rw length-stream at (
    decode_flow-flow_of little put_packet blank_packet (7 ∷ []) put_packet-IsFramed
      (omega arith, tt) (omega (arith, length-stream)))

decode_flow_sound_example :
    IsFramed put_packet
    × (flow_of put_packet ≡ take (length (flow_of put_packet)) stream)
    × (length (flow_of put_packet) ≤ 35)
decode_flow_sound_example =
    decode_flow_sound little stream 35 (omega (arith, length-stream)) (omega arith) stream-IsByte
      blank_packet put_packet stream_decoded

decode_request-encode_request_example :
    (let (encoded, q) = encode_request little put_kv blank_packet in
      (encoded ≡ true) × (decode_request big q blank_request ≡ (true, sent put_kv)))
decode_request-encode_request_example =
    decode_request-encode_request little big put_kv blank_request blank_packet put_kv-IsSendable

put_packet_decoded : decode_request little put_packet blank_request ≡ (true, sent put_kv)
put_packet_decoded =
    ap (λ (t : Bool × Packet). decode_request little t.1 blank_request)
      (sym encode_request-packet_of_again)
    ∙ (decode_request-encode_request little little put_kv blank_request blank_packet
        put_kv-IsSendable).1
  where
    encode_request-packet_of_again : encode_request little put_kv blank_packet ≡ (true, put_packet)
    encode_request-packet_of_again =
        encode_request-packet_of little put_kv blank_packet put_kv-IsSendable

decode_request_sound_example : Accepted put_packet (sent put_kv)
decode_request_sound_example =
    decode_request_sound little put_packet (omega (arith, length-put_packet))
      put_packet-IsFramed.bytes blank_request (sent put_kv) put_packet_decoded

abbrev found_v : KvResponse
found_v = record { status = k_ok; key = []; value = 118 ∷ []; extrainfo = [] }

decode_response-encode_response_example :
    (let (encoded, q) = encode_response little found_v k_get 5 blank_packet in
      (encoded ≡ true) × (decode_response big q blank_response ≡ (true, received found_v k_get)))
decode_response-encode_response_example =
    decode_response-encode_response little big found_v blank_response k_get 5 blank_packet
      (omega arith)

abbrev one_entry : Map
one_entry = (107 ∷ [], 118 ∷ []) ∷ []

abbrev calls : List (Call × KvResponse)
calls =
    (put put_kv, blank_response) ∷ (get get_k, blank_response) ∷ (del get_k, blank_response) ∷ []

store_run-view_run_example : store_run [] calls ≡ view_run (view []) calls
store_run-view_run_example = store_run-view_run calls []

one_entry-IsBounded : IsBounded one_entry
one_entry-IsBounded = (((omega arith, omega arith), omega arith), tt)

put_packet-Carries : Carries put_packet put_kv
unfolding packet_of
put_packet-Carries = record {
  sendable = put_kv-IsSendable;
  request = refl;
  status = refl;
  opcode = refl;
  counted = refl;
  body = refl;
}

echo_packet-view_execute_example :
    (mp' : Map) × (echo_packet little one_entry put_packet blank_packet ≡ (
      true,
      reply_packet
          (view_execute (view one_entry) put_kv).0
          put_packet.head.opcode
          put_packet.head.request_id,
      mp',
    ))
    × (view mp' ≡ (view_execute (view one_entry) put_kv).1)
    × IsBounded mp'
echo_packet-view_execute_example =
    echo_packet-view_execute little one_entry put_packet blank_packet put_kv put_packet-Carries
      one_entry-IsBounded

-- A buffer that a PUT came into.
abbrev received_put : Buffer
received_put = record { buffer = stream; readptr = 0; writeptr = 35 }

received_put-IsValid : IsValid received_put
received_put-IsValid = omega (arith, length-stream)

contents-received_put : contents received_put ≡ stream
unfolding contents
contents-received_put = take_all 35 stream (omega (arith, length-stream))

on_message-finishes_example :
    (s : Session) × (on_message little (default_service little) [] received_put ≡ finished s)
on_message-finishes_example =
    on_message-finishes little [] received_put received_put-IsValid stream-IsByte

put_packet_full : put_packet.body ≢ []
put_packet_full e = absurd (omega (arith, ap length e, length-put_packet))

on_message-with_body_example :
    on_message little (default_service little) [] received_put
    ≡ finished (record { buffer = received_put; store = []; effects = close ∷ [] })
on_message-with_body_example =
    on_message-with_body little [] received_put put_packet (7 ∷ []) received_put-IsValid
      stream-IsByte contents-received_put put_packet-IsFramed put_packet_full

-- Three requests with no body, and the first byte of a fourth.
abbrev bare : List Bare
bare =
    (record { opcode = k_ping; request_id = 1 })
    ∷ (record { opcode = k_put; request_id = 2 })
    ∷ (record { opcode = 99; request_id = 3 })
    ∷ []

abbrev pings : Buffer
pings = record { buffer = flows (map bare_request bare) ++ (74 ∷ []); readptr = 0; writeptr = 73 }

length-pings : length pings.buffer ≡ 73
length-pings = omega (lengths, length-flows bare)

pings-IsValid : IsValid pings
pings-IsValid = omega (arith, length-pings)

contents-pings : contents pings ≡ flows (map bare_request bare) ++ (74 ∷ [])
unfolding contents
contents-pings = take_all 73 pings.buffer (omega (arith, length-pings))

bare-BareFits : All BareFits bare
bare-BareFits = (omega arith, (omega arith, (omega arith, tt)))

pings-IsByte : All IsByte pings.buffer
pings-IsByte =
    All-append IsByte (flows (map bare_request bare)) (74 ∷ []) (flows-IsByte bare bare-BareFits)
      (omega arith, tt)

on_message-pipeline_example :
    (b' : Buffer) × (on_message little (default_service little) [] pings
      ≡ finished (record { buffer = b'; store = []; effects = map answer bare }))
    × (contents b' ≡ 74 ∷ [])
on_message-pipeline_example =
    on_message-pipeline little [] pings bare (74 ∷ []) bare-BareFits pings-IsValid pings-IsByte
      contents-pings (omega arith)
