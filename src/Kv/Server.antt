-- ===== src/Kv/Server.antt =====
-- src/kv/kvserver.cpp: the callback that a connection gets, which serves all whole requests in the
-- buffer. What it asks of the connection is a list of effects, in order.
pub mod Turns
pub mod Serving
pub mod Bare
pub mod Pipeline
pub mod Hosted
pub mod Launch
use reactor_learn.Prelude.{
  ℕ, zero, suc, ◌+◌, ◌/◌, Bool, true, false, Option, none, some, List, [], ◌∷◌, ◌++◌, ltb,
  if◌then◌else◌,
}
use reactor_learn.Kv.ByteOrder.{Host}
use reactor_learn.Kv.Protocol.{Bytes, Packet, head_size, blank_packet}
use reactor_learn.Kv.Flow.{encode_packet_to_flow}
use reactor_learn.Kv.Store.{Map}
use reactor_learn.Kv.Service.{KvService, should_echo}
use reactor_learn.Buffer
use reactor_learn.Buffer.{Buffer}

-- `conn_ptr->Write(msg)` and `conn_ptr->Close()`
pub data Effect : Type 0 where
  write : Bytes → Effect
  close : Effect

pub record Session : Type 0 where
  pub buffer : Buffer
  pub store : Map
  pub effects : List Effect

-- One round of the loop goes on, returns from the callback, or lets an exception out.
pub data Turn : Type 0 where
  goes_on returns throws : Session → Turn

abbrev emit : Effect → Session → Session
emit e s = record s { effects = s.effects ++ (e ∷ []) }

-- From `EncodePacketToFlow(&echo, msg)` on.
unfoldable pub send_echo : Host → Option Packet → Session → Turn
send_echo host echo s =
    let (encoded, msg) = encode_packet_to_flow host echo [] in
    if encoded then goes_on (emit (write msg) s) else returns (emit close s)

-- From `ShouldEcho` on, with the packet that `BodyCheck` left in `result`.
unfoldable pub answer_turn : Host → KvService → Session → Option Packet → Turn
unfolding send_echo
answer_turn host service s result =
    let (wanted, b, echo, mp) =
      should_echo host service s.store s.buffer result (some blank_packet) in
    let s' = record s { buffer = b; store = mp } in
    if wanted then send_echo host echo s' else goes_on s'

abbrev pub checked_turn : Host → KvService → Session → Option (Bool × Buffer × Option Packet) → Turn
checked_turn host service s none = throws s
checked_turn host service s (some (passed, b, result)) =
    let s' = record s { buffer = b } in
    if passed then answer_turn host service s' result else returns (emit close s')

unfoldable pub turn : Host → KvService → Session → Turn
unfolding answer_turn
turn host service s =
    let (bad, b1) = service.headcheck s.buffer in
    if bad
    then returns (emit close (record s { buffer = b1 }))
    else (let (ready, b2) = service.shouldget b1 in
        if ready
        then checked_turn host service (record s { buffer = b2 })
            (service.bodycheck b2 (some blank_packet))
        else returns (record s { buffer = b2 }))

-- How the callback ended; `stuck` is no outcome of the code, but the end of the fuel.
pub data Outcome : Type 0 where
  finished thrown : Session → Outcome
  stuck : Outcome

unfoldable pub serve_loop : ℕ → Host → KvService → Session → Outcome
serve_loop zero host service s = stuck
serve_loop (suc fuel) host service s =
    if ltb (Buffer.size s.buffer) head_size then finished s else elim (turn host service s) [
      | goes_on s' ↦ serve_loop fuel host service s'
      | returns s' ↦ finished s'
      | throws s' ↦ thrown s'
    ]

-- The callback. With the default service each round that goes on takes at least a header.
unfoldable pub on_message : Host → KvService → Map → Buffer → Outcome
on_message host service mp b =
    serve_loop (Buffer.size b / head_size + 1) host service
      (record { buffer = b; store = mp; effects = [] })
