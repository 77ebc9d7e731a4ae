-- ===== src/Kv/Server/Hosted/Tests.antt =====
-- The last byte of a PING arrives, with the first of the next request.
use reactor_learn.Prelude.{
  ℕ, ◌≡◌, refl, List, [], ◌∷◌, ◌++◌, ◌-◌, ◌==◌, true, false, All-append, All, arith, map, length,
}
use reactor_learn.Kv.ByteOrder.{little, IsByte, be_bytes, le_bytes}
use reactor_learn.Kv.ByteOrder.Laws.{lengths}
use reactor_learn.Kv.Protocol.{k_ping}
use reactor_learn.Kv.Flow.Encode.{flow_of}
use reactor_learn.Kv.Service.{default_service}
use reactor_learn.Kv.Response.Laws.{reply_packet, reply_body}
use reactor_learn.Kv.Server.Bare.{Bare, BareFits, bare_request, bare_reply}
use reactor_learn.Kv.Server.Pipeline.{flows, length-flows, flows-IsByte}
use reactor_learn.Kv.Server.Hosted.{Kernel, kv_callback, answers, IsCalm, read-answers}
use reactor_learn.Buffer
use reactor_learn.Buffer.{done}
use reactor_learn.Buffer.Invariant.{IsValid, contents}
use reactor_learn.Net.Connection.{Connection, is_connecting, make, read}
use reactor_learn.Net.Connection.Output.{Holds}

abbrev one_ping : List Bare
one_ping = record { opcode = k_ping; request_id = 1 } ∷ []

abbrev ping_bytes : List ℕ
ping_bytes = flows (map bare_request one_ping)

one_ping-BareFits : All BareFits one_ping
one_ping-BareFits = (omega arith, tt)

-- It has read nothing, and has two bytes to send.
abbrev asking : Connection
asking = record (make 4 4) {
  write_buffer = record { buffer = 5 ∷ 6 ∷ 0 ∷ []; readptr = 0; writeptr = 2 };
}

asking-Holds : Holds asking (5 ∷ 6 ∷ [])
unfolding contents make
asking-Holds = record { valid = omega arith; all = refl }

asking_connects : (is_connecting asking.status ≡ true) × (asking.shared ≡ true)
unfolding make
asking_connects = (refl, refl)

asking_reads :
    IsValid asking.read_buffer
    × All IsByte asking.read_buffer.buffer
    × (contents asking.read_buffer ≡ [])
unfolding contents make Buffer.make
asking_reads = (omega arith, (omega arith, (omega arith, (omega arith, (omega arith, tt)))), refl)

abbrev leaves_three : Kernel
leaves_three n m = done (length m - 3)

leaves_three-IsCalm : IsCalm leaves_three
leaves_three-IsCalm n m = (refl, omega arith)

length-arrived : length (ping_bytes ++ (74 ∷ [])) ≡ 25
length-arrived = omega (lengths, length-flows one_ping)

ping_some : (length (ping_bytes ++ (74 ∷ [])) == 0) ≡ false
ping_some = ground (arith, length-arrived)

length-answers : length (answers one_ping) ≡ 24
unfolding bare_reply reply_packet reply_body flow_of be_bytes le_bytes
length-answers = refl

read-answers_example :
    (let d =
        read
          (kv_callback little (default_service little) [] leaves_three)
          (done (ping_bytes ++ (74 ∷ [])))
          asking in
      Holds d (5 ∷ 6 ∷ answers one_ping) × (contents d.read_buffer ≡ 74 ∷ []))
read-answers_example =
    read-answers little [] leaves_three asking (ping_bytes ++ (74 ∷ [])) (5 ∷ 6 ∷ []) (74 ∷ [])
      one_ping leaves_three-IsCalm asking_connects.0 asking_connects.1 ping_some asking_reads.0
      asking_reads.1
      (All-append IsByte ping_bytes (74 ∷ []) (flows-IsByte one_ping one_ping-BareFits)
        (omega arith, tt))
      (rw (asking_reads.2) refl) (omega arith) one_ping-BareFits asking-Holds
      (rw (asking_reads.2, length-arrived) (omega arith)) (omega (arith, length-answers))
