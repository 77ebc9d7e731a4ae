-- ===== src/Net/Connection/Life.antt =====
-- Any sequence of a connection's operations in its loop's thread.
use reactor_learn.Prelude.{
  ℕ, ◌≡◌, refl, ◌∙◌, ap, true, false, List, [], ◌∷◌, ◌++◌, not, ◌==◌, if◌then◌else◌, arith,
  if_cases, length, append-nil,
}
use reactor_learn.Net.Connection.{
  k_connecting, k_disconnecting, is_connecting, is_disconnected, Connection, Tell, refreshes,
  is_transient, taken_by, close, close_in_thread, activate_in_thread, write_in_thread, drained,
  write_fd, Request, writes, closes, serve, read, make,
}
use reactor_learn.Net.Connection.Closing.{
  times_closed, times_closed-append, IsSound, Onward, IsNearly, stay, Onward-trans, close-Onward,
  close_in_thread-Onward, activate_in_thread-Onward, write_in_thread-Onward, drained-Onward,
}
use reactor_learn.Buffer
use reactor_learn.Buffer.{Buffer, Io, failed, done}

settle-Onward :
    (c : Connection) → IsNearly c → Onward c (if Buffer.empty c.write_buffer then drained c else c)
settle-Onward c s =
    if_cases (Onward c) (Buffer.empty c.write_buffer) (λ _. drained-Onward c s)
      (λ w. record {
        sound = record { once = s.once; drains = λ _. w; owner = s.owner };
        forward = omega arith;
      })

nearly : {c : Connection} → IsSound c → IsNearly c
nearly s = record { once = s.once; owner = s.owner }

pub write_fd_done :
    (n : ℕ) (c : Connection)
    → write_fd (done n) c ≡ (
        if is_disconnected c.status
        then c
        else (let c1 = record c {
          write_buffer = Buffer.write_fd c.write_buffer (done n);
          sent = c.sent ++ taken_by (done n) (Buffer.c_read_data c.write_buffer);
        } in
            if Buffer.empty c1.write_buffer then drained c1 else c1))
unfolding write_fd
write_fd_done n c = refl

abbrev settled : Connection → Connection
settled c = if Buffer.empty c.write_buffer then drained c else c

abbrev failing : ℕ → Connection → Connection
failing errno c1 = settled (if not (is_transient errno) then close c1 else c1)

pub write_fd_failed :
    (errno : ℕ) (c : Connection)
    → write_fd (failed errno) c ≡ (if is_disconnected c.status then c else failing errno c)
write_fd_failed errno c =
    steps
    ∙ ap (λ (c1 : Connection). if is_disconnected c.status then c else failing errno c1) untouched
  where
    called : Connection
    called = record c {
      write_buffer = Buffer.write_fd c.write_buffer (failed errno);
      sent = c.sent ++ taken_by (failed errno) (Buffer.c_read_data c.write_buffer);
    }

    steps :
        write_fd (failed errno) c ≡ (if is_disconnected c.status then c else failing errno called)
    steps = unfold write_fd in refl

    untouched : called ≡ c
    untouched =
        unfold Buffer.write_fd in ap (λ (l : List ℕ). record c { sent = l }) (append-nil c.sent)

pub write_fd-Onward : (io : Io ℕ) (c : Connection) → IsSound c → Onward c (write_fd io c)
write_fd-Onward (failed errno) c s = rw write_fd_failed (
    if_cases (Onward c) (is_disconnected c.status) (λ _. stay s)
      (λ _.
        if_cases (λ d. Onward c (settled d)) (not (is_transient errno))
          (λ _.
            let o = close-Onward c s in Onward-trans o (settle-Onward (close c) (nearly o.sound)))
          (λ _. settle-Onward c (nearly s))))
write_fd-Onward (done n) c s = rw write_fd_done (
    if_cases (Onward c) (is_disconnected c.status) (λ _. stay s)
      (λ _.
        let o =
          settle-Onward
            (record c {
              write_buffer = Buffer.write_fd c.write_buffer (done n);
              sent = c.sent ++ taken_by (done n) (Buffer.c_read_data c.write_buffer);
            })
            (record { once = s.once; owner = s.owner }) in
        record { sound = o.sound; forward = o.forward }))

serve-Onward : (rs : List Request) (c : Connection) → IsSound c → Onward c (serve rs c)
unfolding serve
serve-Onward [] c s = stay s
serve-Onward (writes message io ∷ rs) c s =
    let o = write_in_thread-Onward message io c s in
    Onward-trans o (serve-Onward rs (write_in_thread message io c) o.sound)
serve-Onward (closes ∷ rs) c s =
    let o = close-Onward c s in Onward-trans o (serve-Onward rs (close c) o.sound)

pub read-Onward :
    (onmessage : Buffer → Buffer × List Request) (io : Io (List ℕ)) (c : Connection)
    → IsSound c
    → Onward c (read onmessage io c)
unfolding read
read-Onward onmessage (failed errno) c s =
    if_cases (Onward c) (is_connecting c.status)
      (λ _. if_cases (Onward c) (is_transient errno) (λ _. stay s) (λ _. close-Onward c s))
      (λ _. stay s)
read-Onward onmessage (done bytes) c s =
    if_cases (Onward c) (is_connecting c.status)
      (λ _.
        if_cases (Onward c) (length bytes == 0) (λ _. close-Onward c s)
          (λ _.
            if_cases (Onward c) c.shared
              (λ _. restate {b = replied.0} {l = noted} (
                serve-Onward replied.1 (record c { read_buffer = replied.0; tells = noted })
                  (started replied.0 told)))
              (λ _. restate {b = received} {l = noted} (stay (started received told)))))
      (λ _. stay s)
  where
    noted : List Tell
    noted = if c.heartbeat then c.tells ++ (refreshes ∷ []) else c.tells

    received : Buffer
    received = Buffer.read_fd c.read_buffer (done bytes)

    replied : Buffer × List Request
    replied = onmessage received

    told : times_closed noted ≡ times_closed c.tells
    told = ground (arith, times_closed-append c.tells (refreshes ∷ []))

    started :
        (b : Buffer) {l : List Tell}
        → times_closed l ≡ times_closed c.tells
        → IsSound (record c { read_buffer = b; tells = l })
    started b e = record { once = e ∙ s.once; drains = s.drains; owner = s.owner }

    restate :
        {b : Buffer} {l : List Tell} {d : Connection}
        → Onward (record c { read_buffer = b; tells = l }) d
        → Onward c d
    restate o = record { sound = o.sound; forward = o.forward }

-- What happens to a connection in its loop: its own operations, the events that its channel gets, and the
-- mission that `Close` of another thread hands over, which is `CloseInThread`.
pub data Op : Type 0 where
  activates : Op
  writes_out : List ℕ → Io ℕ → Op
  is_closed : Op
  closes_later : Op
  is_writable : Io ℕ → Op
  is_readable : (Buffer → Buffer × List Request) → Io (List ℕ) → Op

unfoldable pub step : Op → Connection → Connection
step activates c = activate_in_thread c
step (writes_out message io) c = write_in_thread message io c
step is_closed c = close c
step closes_later c = close_in_thread c
step (is_writable io) c = write_fd io c
step (is_readable onmessage io) c = read onmessage io c

unfoldable pub run : List Op → Connection → Connection
unfolding step
run [] c = c
run (op ∷ ops) c = run ops (step op c)

pub step-Onward : (op : Op) (c : Connection) → IsSound c → Onward c (step op c)
unfolding step
step-Onward activates c s = activate_in_thread-Onward c s
step-Onward (writes_out message io) c s = write_in_thread-Onward message io c s
step-Onward is_closed c s = close-Onward c s
step-Onward closes_later c s = close_in_thread-Onward c s
step-Onward (is_writable io) c s = write_fd-Onward io c s
step-Onward (is_readable onmessage io) c s = read-Onward onmessage io c s

-- Whatever the user's callback asks for and whatever the system calls return: a connection's status
-- never goes back, its socket is closed once when it becomes disconnected and never before or again,
-- it has an owner until then, and while it is disconnecting something is left to write.
pub run-Onward : (ops : List Op) (c : Connection) → IsSound c → Onward c (run ops c)
unfolding run
run-Onward [] c s = stay s
run-Onward (op ∷ ops) c s =
    let o = step-Onward op c s in Onward-trans o (run-Onward ops (step op c) o.sound)

pub make-IsSound : (r w : ℕ) → IsSound (make r w)
unfolding make
make-IsSound r w = record { once = refl; drains = λ e. absurd (ground arith); owner = refl }

close_again : (c : Connection) → c.close_requested ≡ true → close c ≡ c
unfolding close
close_again c r = rw r

-- No call of `write` for what waits takes anything.
abbrev pub InVain : List Op → Type 0
InVain [] = Unit {0}
InVain (is_writable (done n) ∷ ops) = ⊥
InVain (is_writable (failed errno) ∷ ops) = InVain ops
InVain (activates ∷ ops) = InVain ops
InVain (writes_out message io ∷ ops) = InVain ops
InVain (is_closed ∷ ops) = InVain ops
InVain (closes_later ∷ ops) = InVain ops
InVain (is_readable onmessage io ∷ ops) = InVain ops

-- The connection waits to write what `c` held, and nothing was told since.
pub record IsStuck (c d : Connection) : Type 0 where
  pub status : d.status ≡ k_disconnecting
  pub requested : d.close_requested ≡ true
  pub held : d.write_buffer ≡ c.write_buffer
  pub tells : d.tells ≡ c.tells

module _ (c : Connection) (waits : Buffer.empty c.write_buffer ≡ false) where
  close_later-IsStuck : (d : Connection) → IsStuck c d → IsStuck c (close_in_thread d)
  unfolding close_in_thread
  close_later-IsStuck d k =
      rw (ap is_disconnected k.status, ap Buffer.empty k.held ∙ waits)
        (record { status = refl; requested = k.requested; held = k.held; tells = k.tells })

  quiet : (d : Connection) → IsStuck c d → is_connecting d.status ≡ false
  quiet d k = ap is_connecting k.status

  write_fd-IsStuck :
      (errno : ℕ) (d : Connection) → IsStuck c d → IsStuck c (write_fd (failed errno) d)
  write_fd-IsStuck errno d k = rw still k
    where
      still : write_fd (failed errno) d ≡ d
      still =
          write_fd_failed errno d
          ∙ ground (arith, close_again d k.requested, k.status, k.held, waits)

  run-IsStuck : (ops : List Op) (d : Connection) → InVain ops → IsStuck c d → IsStuck c (run ops d)
  unfolding run step
  run-IsStuck [] d v k = k
  run-IsStuck (is_writable (done n) ∷ ops) d v k = absurd v
  run-IsStuck (is_writable (failed errno) ∷ ops) d v k =
      run-IsStuck ops (write_fd (failed errno) d) v (write_fd-IsStuck errno d k)
  run-IsStuck (activates ∷ ops) d v k =
      run-IsStuck ops (activate_in_thread d) v (unfold activate_in_thread in rw (quiet d k) k)
  run-IsStuck (writes_out message io ∷ ops) d v k =
      run-IsStuck ops (write_in_thread message io d) v (unfold write_in_thread in rw (quiet d k) k)
  run-IsStuck (is_closed ∷ ops) d v k =
      run-IsStuck ops (close d) v (rw (close_again d k.requested) k)
  run-IsStuck (closes_later ∷ ops) d v k =
      run-IsStuck ops (close_in_thread d) v (close_later-IsStuck d k)
  run-IsStuck (is_readable onmessage (failed errno) ∷ ops) d v k =
      run-IsStuck ops (read onmessage (failed errno) d) v (unfold read in rw (quiet d k) k)
  run-IsStuck (is_readable onmessage (done bytes) ∷ ops) d v k =
      run-IsStuck ops (read onmessage (done bytes) d) v (unfold read in rw (quiet d k) k)

  -- A sound, connecting connection that is closed for the first time while bytes wait to be written never closes its socket,
  -- as long as no `write` of them takes anything: whatever happens to it then, errors of `write`, events
  -- for reading, for an error and for a hang-up, and further requests to write or to close, it stays
  -- disconnecting with the same bytes, and its socket is not closed.
  pub run-stuck :
      (ops : List Op)
      → InVain ops
      → IsSound c
      → c.status ≡ k_connecting
      → c.close_requested ≡ false
      → (let d = run ops (close c) in
          (d.status ≡ k_disconnecting)
          × (d.write_buffer ≡ c.write_buffer)
          × (times_closed d.tells ≡ 0))
  run-stuck ops v s connecting fresh =
      let k = run-IsStuck ops (close c) v closed in
      (k.status, k.held, ap times_closed k.tells ∙ s.once ∙ rw connecting refl)
    where
      owned : c.owned ≡ true
      owned = s.owner ∙ rw connecting refl

      closed : IsStuck c (close c)
      closed =
          unfold close close_in_thread in
          rw (fresh, owned, connecting, waits)
            (record { status = refl; requested = refl; held = refl; tells = refl })
