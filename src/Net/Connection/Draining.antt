-- ===== src/Net/Connection/Draining.antt =====
-- What becomes of bytes that wait in the write buffer.
use reactor_learn.Prelude.{
  ℕ, ◌-◌, ◌%◌, ◌^◌, ◌<◌, ◌≡◌, refl, ◌∙◌, ap, true, false, List, [], ◌∷◌, ◌++◌, ◌==◌, arith, All,
  map, if_cases, length, take, drop, drop_all,
}
use reactor_learn.Kv.ByteOrder.Laws.{lengths}
use reactor_learn.Net.Channel.{either, k_write, Events}
use reactor_learn.Net.Connection.{
  k_connecting, k_disconnecting, k_disconnected, Connection, watch_output, write_in_thread,
  activate_in_thread, drained, write_fd, read, serve, Request, is_connecting,
}
use reactor_learn.Net.Connection.Output.{write_in_thread_lem, write_now_done, contents-empty}
use reactor_learn.Net.Connection.Closing.{times_closed, IsSound}
use reactor_learn.Net.Connection.Life.{write_fd_done, write_fd-Onward, is_readable, run, step}
use reactor_learn.Buffer
use reactor_learn.Buffer.{Buffer, Io, failed, done}
use reactor_learn.Buffer.Invariant.{IsValid, contents, max_size, empty_lem}
use reactor_learn.Buffer.Write.{write_chars_lem}
use reactor_learn.Buffer.Read.{Taken, write_fd-Taken}

empty_now : {b : Buffer} → IsValid b → contents b ≡ [] → Buffer.empty b ≡ true
empty_now {b} v e = empty_lem v ∙ rw e

not_empty : {b : Buffer} → IsValid b → 0 < length (contents b) → Buffer.empty b ≡ false
not_empty {b} v h = empty_lem v ∙ ground arith

module _ (c : Connection) (s : IsSound c) (v : IsValid c.write_buffer)
    (closing : c.status ≡ k_disconnecting) where
  all_taken : Connection
  all_taken = write_fd (done (length (contents c.write_buffer))) c

  all_taken-status : all_taken.status ≡ k_disconnected
  unfolding all_taken
  all_taken-status = rw (write_fd_done, closing, emptied) (unfold drained in refl)
    where
      t :
          Taken c.write_buffer
            (length (contents c.write_buffer))
            (Buffer.write_fd c.write_buffer (done (length (contents c.write_buffer))))
      t = write_fd-Taken c.write_buffer (length (contents c.write_buffer)) v (omega arith)

      emptied :
          Buffer.empty (Buffer.write_fd c.write_buffer (done (length (contents c.write_buffer))))
          ≡ true
      emptied = empty_now t.valid (
          t.held
          ∙ drop_all (length (contents c.write_buffer)) (contents c.write_buffer) (omega arith))

  -- A disconnecting connection closes its socket as soon as the kernel takes what is left to write.
  pub write_fd-closes :
      (write_fd (done (length (contents c.write_buffer))) c).status ≡ k_disconnected
      × (times_closed (write_fd (done (length (contents c.write_buffer))) c).tells ≡ 1)
  unfolding all_taken
  write_fd-closes =
      let o = write_fd-Onward (done (length (contents c.write_buffer))) c s in
      (all_taken-status, o.sound.once ∙ rw all_taken-status)

-- What is asked of the kernel, and what waits to be written, stay.
record Keeps (c d : Connection) : Type 0 where
  events : d.events ≡ c.events
  held : d.write_buffer ≡ c.write_buffer

module _ (cb : Buffer → Buffer × List Request) (quiet : (b : Buffer) → (cb b).1 ≡ []) where
  read-Keeps :
      (bytes : List ℕ) (c : Connection)
      → (length bytes == 0) ≡ false
      → Keeps c (read cb (done bytes) c)
  unfolding read serve
  read-Keeps bytes c some =
      rw (some, quiet (Buffer.read_fd c.read_buffer (done bytes)))
        (if_cases (Keeps c) (is_connecting c.status)
          (λ _.
            if_cases (Keeps c) c.shared (λ _. record { events = refl; held = refl })
              (λ _. record { events = refl; held = refl }))
          (λ _. record { events = refl; held = refl }))

  reads-Keeps :
      (arrived : List (List ℕ)) (c : Connection)
      → All (λ bytes. (length bytes == 0) ≡ false) arrived
      → Keeps c (run (map (λ bytes. is_readable cb (done bytes)) arrived) c)
  unfolding run step
  reads-Keeps [] c some = record { events = refl; held = refl }
  reads-Keeps (bytes ∷ arrived) c (some, more) =
      let one = read-Keeps bytes c some in
      let rest = reads-Keeps arrived (read cb (done bytes) c) more in
      record { events = rest.events ∙ one.events; held = rest.held ∙ one.held }

module _ (c : Connection) (message : List ℕ) (n : ℕ) (connecting : c.status ≡ k_connecting)
    (v : IsValid c.write_buffer) (nothing_waits : Buffer.empty c.write_buffer ≡ true)
    (partly : n < length message) (small : length message < max_size) where
  waiting : Buffer
  waiting = Buffer.write_chars c.write_buffer (drop n message) ((length message - n) % 2 ^ 32)

  waiting_lem : IsValid waiting × (contents waiting ≡ drop n message)
  unfolding waiting
  waiting_lem =
      let nothing = contents-empty v nothing_waits in
      let (valid, held) =
        write_chars_lem c.write_buffer (drop n message) v (rw nothing (omega lengths)) in
      rw count (valid, held ∙ ap (λ l. l ++ drop n message) nothing)
    where
      count : (length message - n) % 2 ^ 32 ≡ length (drop n message)
      count = omega lengths

  partial_write : write_in_thread message (done n) c ≡ record c {
    sent = c.sent ++ take n message;
    write_buffer = waiting;
    events = either c.events k_write;
  }
  unfolding waiting
  partial_write =
      rw (write_in_thread_lem, connecting, nothing_waits, write_now_done, differs)
        (unfold watch_output in rw (not_empty waiting_lem.0 (rw (waiting_lem.1) (omega lengths))))
    where
      differs : (n % 2 ^ 32 == length message) ≡ false
      differs = ground arith

  -- On a connecting connection with nothing left to write, a `Write` of a message below the buffer's limit
  -- before `Activate`, of which the kernel takes only a part, leaves the rest in the write buffer and asks
  -- for the event that the socket is writable; `Activate` right after it gives that event up. However often
  -- bytes arrive then for a callback that asks for nothing, the rest still waits and the event is not asked
  -- for.
  pub write-activate :
      (cb : Buffer → Buffer × List Request) (arrived : List (List ℕ))
      → ((b : Buffer) → (cb b).1 ≡ [])
      → All (λ bytes. (length bytes == 0) ≡ false) arrived
      → (let d = write_in_thread message (done n) c in
          let e = run (map (λ bytes. is_readable cb (done bytes)) arrived) (activate_in_thread d) in
          (d.events.output ≡ true)
          × (contents d.write_buffer ≡ drop n message)
          × (e.events.output ≡ false)
          × (contents e.write_buffer ≡ drop n message))
  write-activate cb arrived quiet some =
      let (output, rest, silent, kept) = activated in
      let k =
        reads-Keeps cb quiet arrived (activate_in_thread (write_in_thread message (done n) c))
          some in
      (output, rest, ap (λ (x : Events). x.output) k.events ∙ silent, ap contents k.held ∙ kept)
    where
      activated :
          (let d = write_in_thread message (done n) c in
            let e = activate_in_thread d in
            (d.events.output ≡ true)
            × (contents d.write_buffer ≡ drop n message)
            × (e.events.output ≡ false)
            × (contents e.write_buffer ≡ drop n message))
      activated = rw partial_write (
          unfold activate_in_thread in
          rw connecting (ground arith, waiting_lem.1, refl, waiting_lem.1))
