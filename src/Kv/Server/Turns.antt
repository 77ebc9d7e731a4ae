-- ===== src/Kv/Server/Turns.antt =====
-- One round of the callback's loop with the default service, on any valid buffer.
use reactor_learn.Prelude.{
  ◌≤◌, ◌<◌, ◌≡◌, refl, ◌⊎◌, inl, inr, Bool, true, false, some, [], arith, if_cases, if◌then◌else◌,
  Bool-cases, length, All,
}
use native.Mathlib.Decide.{ℕ_discrete}
use reactor_learn.Kv.ByteOrder.{Host, IsByte}
use reactor_learn.Kv.Protocol.{Bytes, Packet, PacketHead, head_size, blank_packet}
use reactor_learn.Kv.Flow.{encode_packet_to_flow}
use reactor_learn.Kv.Flow.Decode.{head_of}
use reactor_learn.Kv.Store.{Map}
use reactor_learn.Kv.Service.{
  default_service, should_echo, judge, echo_packet, default_head_check, default_should_get,
  default_body_check, default_should_echo,
}
use reactor_learn.Kv.Service.Checks.{
  bare_packet, is_bad_head, default_head_check-with_body, default_head_check-no_body,
  default_should_get-no_body, default_body_check-no_body,
}
use reactor_learn.Kv.Server.{
  write, close, Session, Turn, goes_on, returns, emit, turn, answer_turn, checked_turn, send_echo,
}
use reactor_learn.Buffer.{Buffer}
use reactor_learn.Buffer.Invariant.{IsValid, contents}
use reactor_learn.Buffer.Read.{Taken}

-- A round with the default checks.
turn_steps :
    (host : Host) (s : Session)
    → turn host (default_service host) s ≡ (
        let (bad, b1) = default_head_check host s.buffer in
        if bad
        then returns (emit close (record s { buffer = b1 }))
        else (let (ready, b2) = default_should_get host b1 in
            if ready
            then checked_turn host
                (default_service host)
                (record s { buffer = b2 })
                (default_body_check host b2 (some blank_packet))
            else returns (record s { buffer = b2 })))
unfolding turn default_service
turn_steps host s = refl

should_echo_lem :
    (host : Host) (mp : Map) (b : Buffer) (p echo : Packet)
    → should_echo host (default_service host) mp b (some p) (some echo)
      ≡ (let (encoded, packet, mp') = echo_packet host mp p echo in (encoded, b, some packet, mp'))
unfolding should_echo default_service default_should_echo
should_echo_lem host mp b p echo = refl

pub answer_turn_lem :
    (host : Host) (s : Session) (p : Packet)
    → answer_turn host (default_service host) s (some p) ≡ (
        let (encoded, packet, mp') = echo_packet host s.store p blank_packet in
        let s' = record s { store = mp' } in
        if encoded then send_echo host (some packet) s' else goes_on s')
answer_turn_lem host s p = unfold answer_turn in rw should_echo_lem

module _ (host : Host) (s : Session) (v : IsValid s.buffer) (bytes : All IsByte s.buffer.buffer)
    (whole_head : head_size ≤ length (contents s.buffer)) where
  abbrev h : PacketHead
  h = head_of (contents s.buffer)

  -- A packet with a body closes the connection, whatever its header says.
  pub turn-with_body :
      0 < h.body_length → turn host (default_service host) s ≡ returns (emit close s)
  turn-with_body w =
      rw (turn_steps, default_head_check-with_body host s.buffer v bytes whole_head w)

  pub turn-bad_head :
      h.body_length ≡ 0
      → is_bad_head h ≡ true
      → turn host (default_service host) s ≡ returns (emit close s)
  turn-bad_head e bad =
      rw (turn_steps, default_head_check-no_body host s.buffer v bytes whole_head e, bad)

  -- A packet with no body and a good header is taken out of the buffer and answered.
  pub turn-no_body :
      h.body_length ≡ 0
      → is_bad_head h ≡ false
      → (b' : Buffer) × (turn host (default_service host) s
          ≡ answer_turn host
              (default_service host)
              (record s { buffer = b' })
              (some (judge host (bare_packet host s.buffer v bytes whole_head))))
        × Taken s.buffer head_size b'
  turn-no_body e good =
      let (b', checked, t) = default_body_check-no_body host s.buffer v bytes whole_head e in
      (
        b',
        rw (
          turn_steps,
          default_head_check-no_body host s.buffer v bytes whole_head e,
          good,
          default_should_get-no_body host s.buffer v bytes whole_head e,
          checked,
        ),
        t,
      )

-- A round that goes on leaves this buffer; a round may return instead.
pub data Ended (b : Buffer) : Turn → Type 0 where
  on : (s : Session) → s.buffer ≡ b → Ended b (goes_on s)
  off : (s : Session) → Ended b (returns s)

send_echo-Ended :
    (host : Host) (p : Packet) (s : Session) → Ended s.buffer (send_echo host (some p) s)
send_echo-Ended host p s = rw steps (
    if_cases (Ended s.buffer) sent.0 (λ _. on (emit (write sent.1) s) refl)
      (λ _. off (emit close s)))
  where
    sent : Bool × Bytes
    sent = encode_packet_to_flow host (some p) []

    steps :
        send_echo host (some p) s
        ≡ (if sent.0 then goes_on (emit (write sent.1) s) else returns (emit close s))
    steps = unfold send_echo in refl

answer_turn-Ended :
    (host : Host) (s : Session) (p : Packet)
    → Ended s.buffer (answer_turn host (default_service host) s (some p))
answer_turn-Ended host s p = rw answer_turn_lem (
    if_cases (Ended s.buffer) (echo_packet host s.store p blank_packet).0
      (λ _.
        send_echo-Ended host _ (record s { store = (echo_packet host s.store p blank_packet).2 }))
      (λ _. on (record s { store = (echo_packet host s.store p blank_packet).2 }) refl))

-- Whatever the buffer begins with, a round returns, or takes a header's bytes and goes on; none throws.
pub turn_cases :
    (host : Host) (s : Session) (v : IsValid s.buffer) (bytes : All IsByte s.buffer.buffer)
    (whole_head : head_size ≤ length (contents s.buffer))
    → ((s' : Session) × (turn host (default_service host) s ≡ returns s'))
      ⊎ ((s' : Session) × (turn host (default_service host) s ≡ goes_on s')
          × Taken s.buffer head_size s'.buffer)
turn_cases host s v bytes whole_head = elim (ℕ_discrete head.body_length 0) [
  | no e ↦ inl (emit close s, turn-with_body host s v bytes whole_head (omega arith))
  | yes e ↦ elim (Bool-cases (is_bad_head head)) [
    | inl bad ↦ inl (emit close s, turn-bad_head host s v bytes whole_head e bad)
    | inr good ↦
        let (b', same, t) = turn-no_body host s v bytes whole_head e good in
        by_end b' t same (answer_turn-Ended host (record s { buffer = b' }) _)
  ]
]
  where
    head : PacketHead
    head = head_of (contents s.buffer)

    by_end :
        (b' : Buffer)
        → Taken s.buffer head_size b'
        → {t : Turn} → turn host (default_service host) s ≡ t
        → Ended b' t
        → ((s' : Session) × (turn host (default_service host) s ≡ returns s'))
          ⊎ ((s' : Session) × (turn host (default_service host) s ≡ goes_on s')
              × Taken s.buffer head_size s'.buffer)
    by_end b' taken same (on s' e) = inr (s', same, rw e taken)
    by_end b' taken same (off s') = inl (s', same)
