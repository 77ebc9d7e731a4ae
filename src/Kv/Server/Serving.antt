-- ===== src/Kv/Server/Serving.antt =====
-- The whole callback: it ends on every input, and what it answers.
use reactor_learn.Prelude.{
  ℕ, zero, suc, ◌+◌, ◌/◌, ◌≤◌, ◌<◌, ◌≡◌, refl, ◌∙◌, ◌≢◌, inl, inr, true, false, [], ◌∷◌, ◌++◌,
  arith, ltb, lt→ltb, le→ltb, length, All,
}
use native.Mathlib.Decide.{dec_lt}
use reactor_learn.Kv.ByteOrder.{Host, IsByte}
use reactor_learn.Kv.ByteOrder.Laws.{lengths}
use reactor_learn.Kv.Protocol.{Bytes, Packet, head_size, IsFramed}
use native.Mathlib.Numerals.{add-one}
use reactor_learn.Kv.Flow.Encode.{flow_of}
use reactor_learn.Kv.Flow.RoundTrip.{head_of-flow_of, length-flow_of}
use reactor_learn.Kv.Store.{Map}
use reactor_learn.Kv.Service.{KvService, default_service}
use reactor_learn.Kv.Server.{
  close, Session, goes_on, returns, turn, finished, serve_loop, on_message,
}
use reactor_learn.Kv.Server.Turns.{turn_cases, turn-with_body}
use reactor_learn.Buffer.{Buffer, size}
use reactor_learn.Buffer.Invariant.{IsValid, contents, size_lem}

module _ (host : Host) (service : KvService) (fuel : ℕ) (s : Session) where
  pub loop-few :
      ltb (size s.buffer) head_size ≡ true → serve_loop (suc fuel) host service s ≡ finished s
  unfolding serve_loop
  loop-few e = rw e

  pub loop-goes_on :
      (s' : Session)
      → ltb (size s.buffer) head_size ≡ false
      → turn host service s ≡ goes_on s'
      → serve_loop (suc fuel) host service s ≡ serve_loop fuel host service s'
  unfolding serve_loop
  loop-goes_on s' e t = rw (e, t)

  loop-returns :
      (s' : Session)
      → ltb (size s.buffer) head_size ≡ false
      → turn host service s ≡ returns s'
      → serve_loop (suc fuel) host service s ≡ finished s'
  unfolding serve_loop
  loop-returns s' e t = rw (e, t)

pub big_enough :
    {b : Buffer} → IsValid b → head_size ≤ length (contents b) → ltb (size b) head_size ≡ false
big_enough {b} v h = rw (size_lem v) (le→ltb (length (contents b)) head_size h)

nonempty_length : (xs : Bytes) → xs ≢ [] → 0 < length xs
nonempty_length [] h = absurd (h refl)
nonempty_length (x ∷ xs) h = omega arith

-- Enough fuel: a round for each 24 bytes, and one to see that no header is left.
loop_finishes :
    (host : Host) (fuel : ℕ) (s : Session)
    → IsValid s.buffer
    → All IsByte s.buffer.buffer
    → length (contents s.buffer) / head_size < fuel
    → (s' : Session) × (serve_loop fuel host (default_service host) s ≡ finished s')
loop_finishes host zero s v bytes f = absurd (omega arith)
loop_finishes host (suc fuel) s v bytes f = elim (dec_lt (length (contents s.buffer)) head_size) [
  | yes few ↦ (
    s,
    loop-few host (default_service host) fuel s
        (rw (size_lem v) (lt→ltb (length (contents s.buffer)) head_size few)),
  )
  | no many ↦ elim (turn_cases host s v bytes (omega arith)) [
    | inl (s', t) ↦
        (s', loop-returns host (default_service host) fuel s s' (big_enough v (omega arith)) t)
    | inr (s', t, taken) ↦
        let (last, e) =
          loop_finishes host fuel s' taken.valid (rw taken.memory bytes)
            (rw taken.held (omega lengths)) in
        (
          last,
          loop-goes_on host (default_service host) fuel s s' (big_enough v (omega arith)) t ∙ e,
        )
  ]
]

pub on_message_lem :
    (host : Host) (service : KvService) (mp : Map) (b : Buffer)
    → on_message host service mp b
      ≡ serve_loop
          (size b / head_size + 1)
          host
          service
          (record { buffer = b; store = mp; effects = [] })
unfolding on_message
on_message_lem host service mp b = refl

-- With the default service the callback returns on every valid buffer of bytes: it neither loops
-- for ever nor lets an exception out, whatever bytes a client sends.
pub on_message-finishes :
    (host : Host) (mp : Map) (b : Buffer)
    → IsValid b
    → All IsByte b.buffer
    → (s : Session) × (on_message host (default_service host) mp b ≡ finished s)
on_message-finishes host mp b v bytes = rw on_message_lem (
    loop_finishes host (size b / head_size + 1) (record { buffer = b; store = mp; effects = [] }) v
      bytes (rw (size_lem v) (omega arith)))

-- A packet with a body, even a well-formed PUT, GET or DEL, makes the default service close the
-- connection: nothing is answered, the store is unchanged and the bytes stay in the buffer.
pub on_message-with_body :
    (host : Host) (mp : Map) (b : Buffer) (p : Packet) (rest : Bytes)
    → IsValid b
    → All IsByte b.buffer
    → contents b ≡ flow_of p ++ rest
    → IsFramed p
    → p.body ≢ []
    → on_message host (default_service host) mp b
      ≡ finished (record { buffer = b; store = mp; effects = close ∷ [] })
on_message-with_body host mp b p rest v bytes e framed nonempty =
    rw (on_message_lem, add-one)
      (loop-returns host (default_service host) (size b / head_size) start _ (big_enough v enough) (
        turn-with_body host start v bytes enough
          (rw (e, head_of-flow_of p rest framed) (omega (arith, framed.counted, positive)))))
  where
    start : Session
    start = record { buffer = b; store = mp; effects = [] }

    enough : head_size ≤ length (contents b)
    enough = rw e (omega (lengths, length-flow_of p))

    positive : 0 < length p.body
    positive = nonempty_length p.body nonempty
