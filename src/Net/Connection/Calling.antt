-- ===== src/Net/Connection/Calling.antt =====
-- The close callback of a connection of src/tcpconnection.cpp is called once, when it gets disconnected.
use reactor_learn.Prelude.{
  ℕ, suc, ◌+◌, ◌%◌, ◌^◌, ◌≡◌, refl, ◌∙◌, ap, true, List, [], ◌∷◌, ◌++◌, ◌&&◌, not, ◌==◌,
  if◌then◌else◌, arith, if_cases, length,
}
use reactor_learn.Net.Channel.{meets, k_write}
use reactor_learn.Net.Connection.{
  Connection, is_connecting, is_disconnected, is_disconnecting, Tell, leaves_loop, closes_socket,
  calls_back, refreshes, is_transient, called_back, close_in_thread, close, activate_in_thread,
  watch_output, write_now, write_in_thread, drained, write_fd, taken_by, Request, writes, closes,
  serve, read,
}
use reactor_learn.Net.Connection.Life.{
  Op, activates, writes_out, is_closed, closes_later, is_writable, is_readable, step, write_fd_done,
  write_fd_failed,
}
use reactor_learn.Buffer
use reactor_learn.Buffer.{Buffer, Io, failed, done}

-- How often the close callback was called.
abbrev pub times_called : List Tell → ℕ
times_called [] = 0
times_called (leaves_loop ∷ l) = times_called l
times_called (closes_socket ∷ l) = times_called l
times_called (calls_back ∷ l) = suc (times_called l)
times_called (refreshes ∷ l) = times_called l

times_called-append : (l m : List Tell) → times_called (l ++ m) ≡ times_called l + times_called m
times_called-append [] m = omega arith
times_called-append (leaves_loop ∷ l) m = times_called-append l m
times_called-append (closes_socket ∷ l) m = times_called-append l m
times_called-append (calls_back ∷ l) m = omega (arith, times_called-append l m)
times_called-append (refreshes ∷ l) m = times_called-append l m

-- Whether a disconnected connection has a callback to call.
abbrev pub weight : Connection → ℕ
weight c = if is_disconnected c.status && (c.shared && c.callback) then 1 else 0

-- The callback stays, and it was called as often as the connection got disconnected.
pub record Calls (c d : Connection) : Type 0 where
  pub shared : d.shared ≡ c.shared
  pub callback : d.callback ≡ c.callback
  pub calls : times_called d.tells + weight c ≡ times_called c.tells + weight d

pub nothing_called : {c : Connection} → Calls c c
nothing_called = record { shared = refl; callback = refl; calls = refl }

pub Calls-trans : {c d e : Connection} → Calls c d → Calls d e → Calls c e
Calls-trans f g = record {
  shared = g.shared ∙ f.shared;
  callback = g.callback ∙ f.callback;
  calls = omega (arith, f.calls, g.calls);
}

closing_calls :
    (l : List Tell) (c : Connection)
    → times_called (l ++ (leaves_loop ∷ closes_socket ∷ called_back c))
      ≡ times_called l + (if c.shared && c.callback then 1 else 0)
closing_calls l c =
    times_called-append l (leaves_loop ∷ closes_socket ∷ called_back c) ∙ ground arith

draining_calls :
    (l : List Tell) (c : Connection)
    → times_called (l ++ (called_back c ++ (leaves_loop ∷ closes_socket ∷ [])))
      ≡ times_called l + (if c.shared && c.callback then 1 else 0)
draining_calls l c =
    times_called-append l (called_back c ++ (leaves_loop ∷ closes_socket ∷ []))
    ∙ ap (λ n. times_called l + n)
        (times_called-append (called_back c) (leaves_loop ∷ closes_socket ∷ []) ∙ ground arith)

close_in_thread-Calls : (c : Connection) → Calls c (close_in_thread c)
unfolding close_in_thread
close_in_thread-Calls c =
    if_cases (Calls c) (is_disconnected c.status) (λ _. nothing_called)
      (λ going.
        if_cases (Calls c) (Buffer.empty c.write_buffer)
          (λ _. record {
            shared = refl;
            callback = refl;
            calls = rw (closing_calls c.tells c, going) (omega arith);
          })
          (λ _. record { shared = refl; callback = refl; calls = rw going refl }))

close-Calls : (c : Connection) → Calls c (close c)
unfolding close
close-Calls c =
    if_cases (Calls c) c.close_requested (λ _. nothing_called)
      (λ _.
        if_cases (Calls c) c.owned
          (λ _.
            let k = close_in_thread-Calls (record c { close_requested = true }) in
            record { shared = k.shared; callback = k.callback; calls = k.calls })
          (λ _. record { shared = refl; callback = refl; calls = refl }))

watch_output-Calls : {c d : Connection} → Calls c d → Calls c (watch_output d)
unfolding watch_output
watch_output-Calls {c} {d} k =
    if_cases (Calls c) (Buffer.empty d.write_buffer) (λ _. k)
      (λ _. record { shared = k.shared; callback = k.callback; calls = k.calls })

-- Nothing but the buffers, the events and what was sent changed.
same_tells :
    (c : Connection) (b : Buffer) (sent : List ℕ)
    → Calls c (record c { write_buffer = b; sent = sent })
same_tells c b sent = record { shared = refl; callback = refl; calls = refl }

write_now-Calls : (message : List ℕ) (io : Io ℕ) (c : Connection) → Calls c (write_now message io c)
unfolding write_now
write_now-Calls message (done n) c =
    if_cases (Calls c) (n % 2 ^ 32 == length message) (λ _. same_tells c c.write_buffer _)
      (λ _. same_tells c _ _)
write_now-Calls message (failed errno) c =
    if_cases (Calls c) (is_transient errno) (λ _. same_tells c _ c.sent)
      (λ _. close_in_thread-Calls c)

write_in_thread-Calls :
    (message : List ℕ) (io : Io ℕ) (c : Connection) → Calls c (write_in_thread message io c)
unfolding write_in_thread
write_in_thread-Calls message io c =
    if_cases (Calls c) (is_connecting c.status)
      (λ _. watch_output-Calls (
        if_cases (Calls c) (Buffer.empty c.write_buffer) (λ _. write_now-Calls message io c)
          (λ _. same_tells c (Buffer.write_buffer c.write_buffer message) c.sent)))
      (λ _. nothing_called)

drained-Calls : (c : Connection) → Calls c (drained c)
unfolding drained
drained-Calls c =
    if_cases (Calls c) (is_disconnecting c.status)
      (λ t. record {
        shared = ground arith;
        callback = ground arith;
        calls = rw (draining_calls c.tells c) (ground arith);
      })
      (λ _.
        if_cases (Calls c) (meets c.events k_write)
          (λ _. record { shared = refl; callback = refl; calls = refl }) (λ _. nothing_called))

settled-Calls :
    (c d : Connection) → Calls c d → Calls c (if Buffer.empty d.write_buffer then drained d else d)
settled-Calls c d k =
    if_cases (Calls c) (Buffer.empty d.write_buffer) (λ _. Calls-trans k (drained-Calls d)) (λ _. k)

write_fd-Calls : (io : Io ℕ) (c : Connection) → Calls c (write_fd io c)
write_fd-Calls (failed errno) c = rw write_fd_failed (
    if_cases (Calls c) (is_disconnected c.status) (λ _. nothing_called)
      (λ _.
        settled-Calls c (if not (is_transient errno) then close c else c) (
          if_cases (Calls c) (not (is_transient errno)) (λ _. close-Calls c)
            (λ _. nothing_called))))
write_fd-Calls (done n) c = rw write_fd_done (
    if_cases (Calls c) (is_disconnected c.status) (λ _. nothing_called)
      (λ _.
        settled-Calls c
          (record c {
            write_buffer = Buffer.write_fd c.write_buffer (done n);
            sent = c.sent ++ taken_by (done n) (Buffer.c_read_data c.write_buffer);
          })
          (same_tells c _ _)))

serve-Calls : (rs : List Request) (c : Connection) → Calls c (serve rs c)
unfolding serve
serve-Calls [] c = nothing_called
serve-Calls (writes message io ∷ rs) c =
    Calls-trans (write_in_thread-Calls message io c) (serve-Calls rs (write_in_thread message io c))
serve-Calls (closes ∷ rs) c = Calls-trans (close-Calls c) (serve-Calls rs (close c))

read-Calls :
    (onmessage : Buffer → Buffer × List Request) (io : Io (List ℕ)) (c : Connection)
    → Calls c (read onmessage io c)
unfolding read
read-Calls onmessage (failed errno) c =
    if_cases (Calls c) (is_connecting c.status)
      (λ _. if_cases (Calls c) (is_transient errno) (λ _. nothing_called) (λ _. close-Calls c))
      (λ _. nothing_called)
read-Calls onmessage (done bytes) c =
    if_cases (Calls c) (is_connecting c.status)
      (λ _.
        if_cases (Calls c) (length bytes == 0) (λ _. close-Calls c)
          (λ _.
            if_cases (Calls c) c.shared
              (λ _.
                Calls-trans (received replied.0)
                  (serve-Calls replied.1 (record c { read_buffer = replied.0; tells = noted })))
              (λ _. received (Buffer.read_fd c.read_buffer (done bytes)))))
      (λ _. nothing_called)
  where
    noted : List Tell
    noted = if c.heartbeat then c.tells ++ (refreshes ∷ []) else c.tells

    replied : Buffer × List Request
    replied = onmessage (Buffer.read_fd c.read_buffer (done bytes))

    received : (b : Buffer) → Calls c (record c { read_buffer = b; tells = noted })
    received b = record {
      shared = refl;
      callback = refl;
      calls = ground (arith, times_called-append c.tells (refreshes ∷ []));
    }

-- Whatever happens to a connection, its close callback is called when it gets disconnected.
pub step-Calls : (op : Op) (c : Connection) → Calls c (step op c)
unfolding step
step-Calls activates c =
    unfold activate_in_thread in
    if_cases (Calls c) (is_connecting c.status)
      (λ _. record { shared = refl; callback = refl; calls = refl }) (λ _. nothing_called)
step-Calls (writes_out message io) c = write_in_thread-Calls message io c
step-Calls is_closed c = close-Calls c
step-Calls closes_later c = close_in_thread-Calls c
step-Calls (is_writable io) c = write_fd-Calls io c
step-Calls (is_readable onmessage io) c = read-Calls onmessage io c
