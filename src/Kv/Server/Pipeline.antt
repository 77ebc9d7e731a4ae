-- ===== src/Kv/Server/Pipeline.antt =====
-- The callback on a buffer that holds many requests with no body, and perhaps a part of the next.
use reactor_learn.Prelude.{
  ℕ, zero, suc, ◌+◌, ◌*◌, ◌/◌, ◌<◌, ◌≡◌, refl, ◌∙◌, ap, sym, false, some, List, [], ◌∷◌, ◌++◌,
  arith, lt→ltb, length, All, All-append, drop, map, append_assoc, append-nil, drop-append_self,
}
use reactor_learn.Kv.ByteOrder.{Host, IsByte}
use reactor_learn.Kv.ByteOrder.Laws.{lengths}
use reactor_learn.Kv.Protocol.{Bytes, Packet, PacketHead, head_size}
use reactor_learn.Kv.Flow.Encode.{flow_of}
use reactor_learn.Kv.Flow.Decode.{head_of}
use reactor_learn.Kv.Flow.RoundTrip.{head_of-flow_of, length-flow_of, flow_of-IsByte}
use reactor_learn.Kv.Store.{Map}
use reactor_learn.Kv.Service.{default_service, judge}
use reactor_learn.Kv.Service.Checks.{is_bad_head}
use reactor_learn.Kv.Server.{
  Effect, write, Session, goes_on, turn, finished, emit, serve_loop, on_message, answer_turn,
}
use reactor_learn.Kv.Server.Turns.{turn-no_body}
use reactor_learn.Kv.Server.Serving.{loop-few, loop-goes_on, big_enough, on_message_lem}
use reactor_learn.Kv.Server.Bare.{
  Bare, BareFits, bare_request, bare_reply, bare_request-IsFramed, answered,
}
use reactor_learn.Buffer.{Buffer, size}
use reactor_learn.Buffer.Invariant.{IsValid, contents, size_lem}
use reactor_learn.Buffer.Read.{Taken}

-- The bytes of many packets, one behind the other.
abbrev pub flows : List Packet → Bytes
flows [] = []
flows (p ∷ ps) = flow_of p ++ flows ps

-- What the connection is asked to send for one request.
abbrev pub answer : Bare → Effect
answer q = write (flow_of (bare_reply q))

bare_head :
    (q : Bare)
    → ((bare_request q).head.body_length ≡ 0) × (is_bad_head (bare_request q).head ≡ false)
unfolding bare_request
bare_head q = (refl, refl)

bare_body : (q : Bare) → record { head = (bare_request q).head; body = [] } ≡ bare_request q
unfolding bare_request
bare_body q = refl

length-bare : (q : Bare) → length (flow_of (bare_request q)) ≡ head_size
unfolding bare_request
length-bare q = length-flow_of (bare_request q)

module _ (host : Host) where
  -- One round takes one request out and answers it.
  turn-bare :
      (s : Session) (q : Bare) (more : Bytes)
      → BareFits q
      → IsValid s.buffer
      → All IsByte s.buffer.buffer
      → contents s.buffer ≡ flow_of (bare_request q) ++ more
      → (b' : Buffer) × (turn host (default_service host) s
          ≡ goes_on (emit (answer q) (record s { buffer = b' })))
        × Taken s.buffer head_size b'
  turn-bare s q more fits v bytes e =
      let h : head_of (contents s.buffer) ≡ (bare_request q).head =
        rw e (head_of-flow_of (bare_request q) more (bare_request-IsFramed q fits)) in
      let (b', t, taken) =
        turn-no_body host s v bytes (rw e (omega (lengths, length-bare q)))
          (rw (h, (bare_head q).0)) (rw (h, (bare_head q).1)) in
      (
        b',
        t
            ∙ ap
                (λ (p : PacketHead).
                  answer_turn host (default_service host) (record s { buffer = b' })
                    (some (judge host (record { head = p; body = [] }))))
                h
            ∙ ap
                (λ (p : Packet).
                  answer_turn host (default_service host) (record s { buffer = b' })
                    (some (judge host p)))
                (bare_body q)
            ∙ answered host (record s { buffer = b' }) q,
        taken,
      )

  serve_each :
      (fuel : ℕ) (s : Session) (qs : List Bare) (rest : Bytes)
      → All BareFits qs
      → IsValid s.buffer
      → All IsByte s.buffer.buffer
      → contents s.buffer ≡ flows (map bare_request qs) ++ rest
      → length rest < head_size
      → length qs < fuel
      → (b' : Buffer) × (serve_loop fuel host (default_service host) s
          ≡ finished (record s { buffer = b'; effects = s.effects ++ map answer qs }))
        × (contents b' ≡ rest)
  serve_each zero s qs rest fits v bytes e few f = absurd (omega arith)
  serve_each (suc fuel) s [] rest fits v bytes e few f = (
    s.buffer,
    loop-few host (default_service host) fuel s
          (rw (size_lem v) (lt→ltb (length (contents s.buffer)) head_size (rw e few)))
        ∙ rw (append-nil s.effects),
    e,
  )
  serve_each (suc fuel) s (q ∷ qs) rest fits v bytes e few f =
      let joined : contents s.buffer
          ≡ flow_of (bare_request q) ++ (flows (map bare_request qs) ++ rest) =
        e ∙ append_assoc (flow_of (bare_request q)) (flows (map bare_request qs)) rest in
      let (b', t, taken) =
        turn-bare s q (flows (map bare_request qs) ++ rest) fits.0 v bytes joined in
      let s' : Session = emit (answer q) (record s { buffer = b' }) in
      let left : contents b' ≡ flows (map bare_request qs) ++ rest =
        taken.held
        ∙ ap (drop head_size) joined
        ∙ drop-append_self head_size (flow_of (bare_request q))
            (flows (map bare_request qs) ++ rest) (sym (length-bare q)) in
      let (last, done, held) =
        serve_each fuel s' qs rest fits.1 taken.valid (rw taken.memory bytes) left few
          (omega arith) in
      (
        last,
        loop-goes_on host (default_service host) fuel s s'
              (big_enough v (rw joined (omega (lengths, length-bare q)))) t
            ∙ done
            ∙ rw (append_assoc s.effects (answer q ∷ []) (map answer qs)),
        held,
      )

pub length-flows : (qs : List Bare) → length (flows (map bare_request qs)) ≡ head_size * length qs
length-flows [] = refl
length-flows (q ∷ qs) = omega (lengths, length-bare q, length-flows qs)

pub flows-IsByte : (qs : List Bare) → All BareFits qs → All IsByte (flows (map bare_request qs))
flows-IsByte [] fits = tt
flows-IsByte (q ∷ qs) fits =
    All-append IsByte (flow_of (bare_request q)) (flows (map bare_request qs))
      (flow_of-IsByte (bare_request q) (bare_request-IsFramed q fits.0)) (flows-IsByte qs fits.1)

-- A client may send many requests with no body at once: the callback answers each of them once, in
-- order, takes exactly their bytes, and leaves a part of the next header in the buffer. A PING is
-- answered with success, a PUT, GET or DEL with a bad request, any other opcode as unsupported, each
-- under the request's opcode and id, and the store is unchanged.
pub on_message-pipeline :
    (host : Host) (mp : Map) (b : Buffer) (qs : List Bare) (rest : Bytes)
    → All BareFits qs
    → IsValid b
    → All IsByte b.buffer
    → contents b ≡ flows (map bare_request qs) ++ rest
    → length rest < head_size
    → (b' : Buffer) × (on_message host (default_service host) mp b
        ≡ finished (record { buffer = b'; store = mp; effects = map answer qs }))
      × (contents b' ≡ rest)
on_message-pipeline host mp b qs rest fits v bytes e few = rw on_message_lem (
    serve_each host (size b / head_size + 1) (record { buffer = b; store = mp; effects = [] }) qs
      rest fits v bytes e few (rw (size_lem v, e) (omega (lengths, length-flows qs))))
