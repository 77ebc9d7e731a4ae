-- ===== src/Kv/Server/Hosted.antt =====
-- The callback of src/kv/kvserver.cpp in a connection of src/tcpconnection.cpp: from the bytes that the
-- socket gives to those that it takes.
mod Tests
use reactor_learn.Prelude.{
  ℕ, zero, suc, ◌+◌, ◌%◌, ◌^◌, ◌≤◌, ◌<◌, ◌≡◌, refl, sym, ◌∙◌, ap, ap₂, Bool, true, false, List, [],
  ◌∷◌, ◌++◌, ◌==◌, not, if◌then◌else◌, if_cases, Bool-cases, inl, inr, arith, length, map, All,
  append_assoc, append-nil,
}
use reactor_learn.Kv.ByteOrder.{Host, IsByte}
use reactor_learn.Kv.ByteOrder.Laws.{lengths}
use reactor_learn.Kv.Protocol.{head_size}
use reactor_learn.Kv.Flow.Encode.{flow_of}
use reactor_learn.Kv.Store.{Map}
use reactor_learn.Kv.Service.{KvService, default_service}
use reactor_learn.Kv.Server.{
  Effect, write, close, Session, Outcome, finished, thrown, stuck, on_message,
}
use reactor_learn.Kv.Server.Bare.{Bare, BareFits, bare_request, bare_reply}
use reactor_learn.Kv.Server.Pipeline.{flows, answer, on_message-pipeline}
use reactor_learn.Buffer
use reactor_learn.Buffer.{Buffer, Io, failed, done}
use reactor_learn.Buffer.Invariant.{IsValid, contents, max_size}
use reactor_learn.Buffer.Receive.{read_fd_lem}
use reactor_learn.Buffer.Bytes.{read_fd-All}
use reactor_learn.Net.Connection.{
  Connection, Request, writes, closes, is_connecting, is_transient, is_fatal, write_now,
  write_in_thread, watch_output, serve, read, refreshes,
}
use reactor_learn.Net.Connection.Output.{
  Holds, outgoing, Possible, accepted, write_in_thread_lem, write_in_thread-Holds,
}

-- What the kernel takes of a message that is written, and of which one it is.
abbrev pub Kernel : Type 0
Kernel = ℕ → List ℕ → Io ℕ

-- The effects as the connection carries them out.
unfoldable pub as_requests : Kernel → ℕ → List Effect → List Request
as_requests kernel n [] = []
as_requests kernel n (write msg ∷ es) = writes msg (kernel n msg) ∷ as_requests kernel (suc n) es
as_requests kernel n (close ∷ es) = closes ∷ as_requests kernel n es

abbrev asked : Kernel → Buffer → Outcome → Buffer × List Request
asked kernel b (finished s) = (s.buffer, as_requests kernel 0 s.effects)
asked kernel b (thrown s) = (s.buffer, as_requests kernel 0 s.effects)
asked kernel b stuck = (b, [])

-- The callback as the connection calls it.
unfoldable pub kv_callback : Host → KvService → Map → Kernel → Buffer → Buffer × List Request
unfolding on_message as_requests
kv_callback host service mp kernel b = asked kernel b (on_message host service mp b)

-- The kernel never fails for good, and takes no more than it is offered.
abbrev pub IsCalm : Kernel → Type 0
IsCalm kernel =
    (n : ℕ) (m : List ℕ) → (is_fatal (kernel n m) ≡ false) × Possible (length m) (kernel n m)

-- The connection goes on.
record Stays (c d : Connection) : Type 0 where
  status : d.status ≡ c.status
  held : d.read_buffer ≡ c.read_buffer

watch_output-Stays : {c d : Connection} → Stays c d → Stays c (watch_output d)
unfolding watch_output
watch_output-Stays {c} {d} s =
    if_cases (Stays c) (Buffer.empty d.write_buffer) (λ _. s)
      (λ _. record { status = s.status; held = s.held })

write_now-Stays :
    (message : List ℕ) (io : Io ℕ) (c : Connection)
    → is_fatal io ≡ false
    → Stays c (write_now message io c)
unfolding write_now
write_now-Stays message (done n) c f =
    if_cases (Stays c) (n % 2 ^ 32 == length message) (λ _. record { status = refl; held = refl })
      (λ _. record { status = refl; held = refl })
write_now-Stays message (failed errno) c f =
    if_cases (Stays c) (is_transient errno) (λ _. record { status = refl; held = refl })
      (λ e. absurd (ground (arith, f)))

write_in_thread-Stays :
    (message : List ℕ) (io : Io ℕ) (c : Connection)
    → is_fatal io ≡ false
    → Stays c (write_in_thread message io c)
write_in_thread-Stays message io c f = rw write_in_thread_lem (
    if_cases (Stays c) (is_connecting c.status)
      (λ _. watch_output-Stays (
        if_cases (Stays c) (Buffer.empty c.write_buffer) (λ _. write_now-Stays message io c f)
          (λ _. record { status = refl; held = refl })))
      (λ _. record { status = refl; held = refl }))

accepted-message :
    (c : Connection) (message : List ℕ) (io : Io ℕ)
    → is_connecting c.status ≡ true
    → is_fatal io ≡ false
    → accepted c message io ≡ message
accepted-message c message io t f =
    rw (t, f) (if_cases (λ l. l ≡ message) (Buffer.empty c.write_buffer) (λ _. refl) (λ _. refl))

-- The bytes of many answers.
abbrev pub answers : List Bare → List ℕ
answers [] = []
answers (q ∷ qs) = flow_of (bare_reply q) ++ answers qs

waits_less :
    (c : Connection) (bytes : List ℕ)
    → Holds c bytes
    → length (contents c.write_buffer) ≤ length bytes
waits_less c bytes h = rw (← h.all) (omega lengths)

serve-answers :
    (kernel : Kernel) (n : ℕ) (qs : List Bare) (c : Connection) (bytes : List ℕ)
    → IsCalm kernel
    → is_connecting c.status ≡ true
    → Holds c bytes
    → length bytes + length (answers qs) < max_size
    → Holds (serve (as_requests kernel n (map answer qs)) c) (bytes ++ answers qs)
      × ((serve (as_requests kernel n (map answer qs)) c).read_buffer ≡ c.read_buffer)
unfolding serve as_requests
serve-answers kernel n [] c bytes calm t h fits = (rw (append-nil bytes) h, refl)
serve-answers kernel n (q ∷ qs) c bytes calm t h fits =
    let m = flow_of (bare_reply q) in
    let io = kernel n m in
    let (f, possible) = calm n m in
    let s = write_in_thread-Stays m io c f in
    let held =
      write_in_thread-Holds m io c bytes h (omega (lengths, waits_less c bytes h)) possible in
    let (all, left) =
      serve-answers kernel (suc n) qs (write_in_thread m io c) (bytes ++ m) calm
        (ap is_connecting s.status ∙ t) (rw (accepted-message c m io t f) at held)
        (omega lengths) in
    (rw (← append_assoc bytes m (answers qs)) all, left ∙ s.held)

-- With the bytes in the buffer and the time of its heartbeat anew, before the callback.
abbrev pub filled : List ℕ → Connection → Connection
filled bytes c = record c {
  read_buffer = Buffer.read_fd c.read_buffer (done bytes);
  tells = if c.heartbeat then c.tells ++ (refreshes ∷ []) else c.tells;
}

read_serves :
    (f : Buffer → Buffer × List Request) (bytes : List ℕ) (c : Connection)
    → is_connecting c.status ≡ true
    → c.shared ≡ true
    → (length bytes == 0) ≡ false
    → let r = f (Buffer.read_fd c.read_buffer (done bytes)) in
      read f (done bytes) c ≡ serve r.1 (record (filled bytes c) { read_buffer = r.0 })
unfolding read
read_serves f bytes c t owned some = rw (t, some, owned) refl

-- A connection that is connecting and held, with the callback of KVServer and the default service, reads
-- bytes that complete some requests without a body and leave less than a header. While the kernel does
-- not fail for good and takes no more than it is offered, and what is to read and to send is below the
-- buffers' limit, exactly the answers are sent or wait to be sent, in order, after what was before, and
-- what is left to read is the rest.
pub read-answers :
    (host : Host) (mp : Map) (kernel : Kernel) (c : Connection) (bytes text rest : List ℕ)
    (qs : List Bare)
    → IsCalm kernel
    → is_connecting c.status ≡ true
    → c.shared ≡ true
    → (length bytes == 0) ≡ false
    → IsValid c.read_buffer
    → All IsByte c.read_buffer.buffer
    → All IsByte bytes
    → contents c.read_buffer ++ bytes ≡ flows (map bare_request qs) ++ rest
    → length rest < head_size
    → All BareFits qs
    → Holds c text
    → length (contents c.read_buffer) + length bytes < max_size
    → length text + length (answers qs) < max_size
    → let d = read (kv_callback host (default_service host) mp kernel) (done bytes) c in
      Holds d (text ++ answers qs) × (contents d.read_buffer ≡ rest)
unfolding kv_callback
read-answers host mp kernel c bytes text rest qs calm t owned some v are given e few fits h small
      room =
    let (v', held) = read_fd_lem c.read_buffer bytes v small in
    let (b', eq, left) =
      on_message-pipeline host mp (Buffer.read_fd c.read_buffer (done bytes)) qs rest fits v'
        (read_fd-All IsByte (omega arith) c.read_buffer bytes are given) (held ∙ e) few in
    let cb = kv_callback host (default_service host) mp kernel in
    rw (read_serves cb bytes c t owned some, eq)
      (let c2 = record (filled bytes c) { read_buffer = b' } in
        let (all, same) =
          serve-answers kernel 0 qs c2 text calm t (record { valid = h.valid; all = h.all }) room in
        (all, ap contents same ∙ left))
