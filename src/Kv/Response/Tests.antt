-- ===== src/Kv/Response/Tests.antt =====
-- The answer to a GET that found a value of one byte.
use reactor_learn.Prelude.{◌≡◌, true, Bool, [], ◌∷◌, ◌∙◌, ap, sym, length, arith}
use reactor_learn.Kv.ByteOrder.{little}
use reactor_learn.Kv.Protocol.{Packet, KvResponse, k_ok, k_get, blank_packet, blank_response}
use reactor_learn.Kv.Response.{decode_response}
use reactor_learn.Kv.Response.Laws.{
  reply_packet, received, length-reply_body, encode_response-reply_packet, reply_packet-IsFramed,
  decode_response-encode_response,
}
use reactor_learn.Kv.Response.Sound.{Accepted, decode_response_sound}

abbrev found_one : KvResponse
found_one = record { status = k_ok; key = []; value = 118 ∷ []; extrainfo = [] }

abbrev found_packet : Packet
found_packet = reply_packet found_one k_get 5

length-found : length found_packet.body ≡ 5
unfolding reply_packet
length-found = length-reply_body found_one k_get

found_decoded :
    decode_response little found_packet blank_response ≡ (true, received found_one k_get)
found_decoded =
    ap (λ (t : Bool × Packet). decode_response little t.1 blank_response)
      (sym (encode_response-reply_packet little found_one k_get 5 blank_packet (omega arith)))
    ∙ (decode_response-encode_response little little found_one blank_response k_get 5 blank_packet
        (omega arith)).1

decode_response_sound_example : Accepted found_packet (received found_one k_get)
decode_response_sound_example =
    decode_response_sound little found_packet (omega (arith, length-found))
      (reply_packet-IsFramed found_one k_get 5 (omega arith) (omega arith, tt) (omega arith)
        (omega arith) (omega arith)).bytes
      blank_response (received found_one k_get) found_decoded
