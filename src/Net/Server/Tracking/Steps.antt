-- ===== src/Net/Server/Tracking/Steps.antt =====
-- Each step of the server of src/tcpserver.cpp keeps track of every connection.
use reactor_learn.Prelude.{
  ℕ, ◌+◌, ◌≤◌, ◌≡◌, refl, ◌∙◌, ap, Bool, true, false, Option, none, some, List, [], ◌∷◌, ◌++◌, ◌==◌,
  inl, inr, if◌then◌else◌, Bool-cases, arith, append-nil,
}
use reactor_learn.Kv.ByteOrder.{Host}
use reactor_learn.Net.Address.{InetAddress, InetText}
use reactor_learn.Loop.Pool.{get_one_thread}
use reactor_learn.Net.Connection
use reactor_learn.Net.Connection.{
  Connection, is_disconnected, save_life_mechanism, set_close_callback,
}
use reactor_learn.Net.Connection.Closing.{IsSound}
use reactor_learn.Net.Connection.Life
use reactor_learn.Net.Server.{
  Handed, Mission, inserts, Phase, absent, handed, waits, served, TcpServer, next_for,
  new_connection, establish, assign_loop, begun, made_connection,
}
use reactor_learn.Net.Server.Tracking.{
  at_phase, subject, about, queued, IsTracked, Tracks, place, same, about-append, queued-append,
  counted, queued-next_for,
}

queued-one :
    (id l : ℕ) (q : List (ℕ × Handed)) (h : Handed)
    → queued id (q ++ ((l, h) ∷ [])) ≡ queued id q + (if h.id == id then 1 else 0)
unfolding queued
queued-one id l q h = queued-append id q ((l, h) ∷ []) ∙ omega arith

about-one :
    (id : ℕ) (ms : List Mission) (m : Mission)
    → about id (ms ++ (m ∷ [])) ≡ about id ms ++ (if subject m == id then m ∷ [] else [])
unfolding about
about-one id ms m = about-append id ms (m ∷ [])

only_handed :
    (id : ℕ) (p : Phase) (q : ℕ) (ms : List Mission) (held closed : Bool)
    → IsTracked id p q ms held closed
    → 1 ≤ q
    → (p ≡ handed) × (q ≡ 1) × (ms ≡ []) × (held ≡ false)
only_handed id absent q ms held closed (e, _, _) h = absurd (omega (arith, e))
only_handed id handed q ms held closed (e, m, k) h = (refl, e, m, k)
only_handed id waits q ms held closed (e, _, _, _) h = absurd (omega (arith, e))
only_handed id served q ms held closed (e, _) h = absurd (omega (arith, e))

made-status : (heartbeat : Bool) → is_disconnected (made_connection heartbeat).status ≡ false
unfolding made_connection save_life_mechanism Connection.make
made-status true = refl
made-status false = refl

made-shared : (heartbeat : Bool) → (made_connection heartbeat).shared ≡ true
unfolding made_connection save_life_mechanism Connection.make
made-shared true = refl
made-shared false = refl

made-IsSound : (heartbeat : Bool) → IsSound (made_connection heartbeat)
unfolding made_connection save_life_mechanism Connection.make
made-IsSound true = record { once = refl; drains = λ e. absurd (ground arith); owner = refl }
made-IsSound false = Life.make-IsSound 1024 1024

module _ (text : InetText) (host : Host) where
  assign_loop-Tracks :
      (fd : ℕ) (addr : InetAddress) (loop : Option ℕ) (s : TcpServer)
      → Tracks s
      → Tracks (assign_loop text host fd addr loop s)
  assign_loop-Tracks fd addr none s t = record {
    tracked = t.tracked;
    fresh = t.fresh;
    sound = t.sound;
    shared = t.shared;
    linked = t.linked;
  }
  assign_loop-Tracks fd addr (some l) s t = record {
    tracked = λ id. elim (Bool-cases (s.arrived == id)) [
      | inl e ↦
          let (q, ms, held) =
            at_phase s id absent (t.fresh id (omega (arith, same e))) (t.tracked id) in
          rw (queued-one id l s.submitted, e) (omega (arith, q), ms, held)
      | inr e ↦
          let kept : queued id s.submitted + 0 ≡ queued id s.submitted = omega arith in
          rw (queued-one id l s.submitted, e, kept) (t.tracked id)
    ];
    fresh = λ id h. elim (Bool-cases (s.arrived == id)) [
      | inl e ↦ absurd (omega (arith, h, same e))
      | inr e ↦ rw e (t.fresh id (omega (arith, h)))
    ];
    sound = t.sound;
    shared = t.shared;
    linked = λ id. elim (Bool-cases (s.arrived == id)) [
      | inl e ↦ rw e (λ h. absurd (omega (arith, ap place h)))
      | inr e ↦ rw e (t.linked id)
    ];
  }

  pub new_connection-Tracks :
      (fd : Option ℕ) (addr : InetAddress) (errno : ℕ) (s : TcpServer)
      → Tracks s
      → Tracks (new_connection text host fd addr errno s)
  unfolding new_connection
  new_connection-Tracks none addr errno s t = t
  new_connection-Tracks (some fd) addr errno s t =
      assign_loop-Tracks fd addr (get_one_thread s.pool).0
        (record s { pool = (get_one_thread s.pool).1 })
        (record {
          tracked = t.tracked;
          fresh = t.fresh;
          sound = t.sound;
          shared = t.shared;
          linked = t.linked;
        })

  begun-Tracks :
      (l : ℕ) (next : Option (Handed × List (ℕ × Handed))) (s : TcpServer)
      → ((id : ℕ) → queued id s.submitted ≡ counted id s.submitted next)
      → Tracks s
      → Tracks (begun text host l next s)
  begun-Tracks l none s q t = t
  begun-Tracks l (some (h, rest)) s q t = record {
    tracked = λ id. elim (Bool-cases (h.id == id)) [
      | inl e ↦
          let counts : queued id s.submitted ≡ 1 + queued id rest = q id ∙ rw e in
          let (_, one, ms, held) =
            only_handed id (s.phase id) _ _ _ _ (t.tracked id) (omega (arith, counts)) in
          rw (about-one id s.missions (inserts h.id), e, ms)
            (
              (omega (arith, one, counts)),
              ap (λ k. inserts k ∷ []) (same e),
              held,
              made-status s.isheartbeat,
            )
      | inr e ↦
          let counts : queued id s.submitted ≡ queued id rest = q id ∙ rw e (omega arith) in
          rw (about-one id s.missions (inserts h.id), e, append-nil (about id s.missions), ← counts)
            (t.tracked id)
    ];
    fresh = λ id below. elim (Bool-cases (h.id == id)) [
      | inl e ↦
          let counts : queued id s.submitted ≡ 1 + queued id rest = q id ∙ rw e in
          let (none_queued, _, _) = at_phase s id absent (t.fresh id below) (t.tracked id) in
          absurd (omega (arith, counts, none_queued))
      | inr e ↦ rw e (t.fresh id below)
    ];
    sound = λ id. elim (Bool-cases (h.id == id)) [
      | inl e ↦ rw e (made-IsSound s.isheartbeat)
      | inr e ↦ rw e (t.sound id)
    ];
    shared = λ id. elim (Bool-cases (h.id == id)) [
      | inl e ↦ rw e (made-shared s.isheartbeat)
      | inr e ↦ rw e (t.shared id)
    ];
    linked = λ id. elim (Bool-cases (h.id == id)) [
      | inl e ↦ rw e (λ k. absurd (omega (arith, ap place k)))
      | inr e ↦ rw e (t.linked id)
    ];
  }

  pub establish-Tracks : (l : ℕ) (s : TcpServer) → Tracks s → Tracks (establish text host l s)
  unfolding establish
  establish-Tracks l s t =
      begun-Tracks l (next_for l s.submitted) s (λ id. queued-next_for id l s.submitted) t
