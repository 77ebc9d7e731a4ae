-- ===== src/Net/Connection/Output.antt =====
-- What a connection writes to its socket: every byte once, in order.
use reactor_learn.Prelude.{
  ℕ, ◌+◌, ◌-◌, ◌%◌, ◌^◌, ◌≤◌, ◌<◌, ◌≡◌, refl, ◌∙◌, ap, sym, true, List, [], ◌++◌, ◌==◌,
  if◌then◌else◌, arith, if_cases, Bool-cases, inl, inr, length, take, drop, append_assoc,
  append-nil, take-append-drop, take_all, empty_of_length,
}
use reactor_learn.Kv.ByteOrder.Laws.{lengths}
use reactor_learn.Net.Connection.{
  is_connecting, is_disconnected, Connection, is_transient, is_fatal, close_in_thread, close,
  watch_output, write_now, write_in_thread, drained, taken_by, write_fd,
}
use reactor_learn.Buffer
use reactor_learn.Buffer.{Buffer, Io, failed, done}
use reactor_learn.Buffer.Invariant.{
  IsValid, contents, max_size, empty_lem, take-c_read_data, length-contents,
}
use reactor_learn.Buffer.Write.{write_buffer_lem, write_chars_lem}
use reactor_learn.Buffer.Read.{write_fd-Taken}

-- All that was ever accepted for the socket: what the kernel took, and what waits.
abbrev pub outgoing : Connection → List ℕ
outgoing c = c.sent ++ contents c.write_buffer

-- The write buffer is valid, and what is accepted for the socket is this.
pub record Holds (c : Connection) (bytes : List ℕ) : Type 0 where
  pub valid : IsValid c.write_buffer
  pub all : outgoing c ≡ bytes

-- The kernel takes no more than it is offered.
abbrev pub Possible : ℕ → Io ℕ → Type 0
Possible offered (failed errno) = Unit {0}
Possible offered (done n) = n ≤ offered

close_in_thread_lem :
    (c : Connection)
    → ((close_in_thread c).write_buffer ≡ c.write_buffer) × ((close_in_thread c).sent ≡ c.sent)
unfolding close_in_thread
close_in_thread_lem c = ground arith

close_lem : (c : Connection) → ((close c).write_buffer ≡ c.write_buffer) × ((close c).sent ≡ c.sent)
unfolding close
close_lem c = ground (arith, close_in_thread_lem (record c { close_requested = true }))

watch_output-Holds :
    {c : Connection} {bytes : List ℕ} → Holds c bytes → Holds (watch_output c) bytes
unfolding watch_output
watch_output-Holds {c} {bytes} h =
    if_cases (λ d. Holds d bytes) (Buffer.empty c.write_buffer) (λ _. h)
      (λ _. record { valid = h.valid; all = h.all })

pub contents-empty : {b : Buffer} → IsValid b → Buffer.empty b ≡ true → contents b ≡ []
contents-empty {b} v e = empty_of_length (contents b) (sym (empty_lem v) ∙ e)

-- A message behind what waits already.
buffered-Holds :
    (c : Connection) (bytes message : List ℕ)
    → Holds c bytes
    → length (contents c.write_buffer) + length message < max_size
    → Holds
        (record c { write_buffer = Buffer.write_buffer c.write_buffer message })
        (bytes ++ message)
buffered-Holds c bytes message h fits =
    let (valid, held) = write_buffer_lem c.write_buffer message h.valid fits in
    record {
      valid = valid;
      all =
          ap (λ l. c.sent ++ l) held
          ∙ sym (append_assoc c.sent (contents c.write_buffer) message)
          ∙ ap (λ l. l ++ message) h.all;
    }

pub write_now_done :
    (message : List ℕ) (n : ℕ) (c : Connection)
    → write_now message (done n) c ≡ (
        if n % 2 ^ 32 == length message
        then record c { sent = c.sent ++ take n message }
        else record c {
          sent = c.sent ++ take n message;
          write_buffer =
              Buffer.write_chars c.write_buffer (drop n message) ((length message - n) % 2 ^ 32);
        })
unfolding write_now
write_now_done message n c = refl

write_now-Holds :
    (message : List ℕ) (n : ℕ) (c : Connection) (bytes : List ℕ)
    → Holds c bytes
    → contents c.write_buffer ≡ []
    → length message < max_size
    → n ≤ length message
    → Holds (write_now message (done n) c) (bytes ++ message)
write_now-Holds message n c bytes h none_waits small possible = rw write_now_done (
    if_cases (λ d. Holds d (bytes ++ message)) (n % 2 ^ 32 == length message)
      (λ t. record {
        valid = h.valid;
        all =
            rw (none_waits, take_all n message (ground arith), append-nil (c.sent ++ message))
              (rw (← sent_all));
      })
      (λ t. rw (count) (
        let (valid, held) =
          write_chars_lem c.write_buffer (drop n message) h.valid (rw none_waits (omega lengths)) in
        record {
          valid = valid;
          all =
              rw
                (
                  held,
                  none_waits,
                  append_assoc c.sent (take n message) (drop n message),
                  take-append-drop n message,
                )
                (rw (← sent_all));
        })))
  where
    sent_all : c.sent ≡ bytes
    sent_all = rw (none_waits, append-nil c.sent) at h.all

    count : (length message - n) % 2 ^ 32 ≡ length (drop n message)
    count = omega lengths

-- What a call of `Write` adds to what is accepted: the message, unless the connection is closing or
-- the system call fails for good.
abbrev pub accepted : Connection → List ℕ → Io ℕ → List ℕ
accepted c message io =
    if is_connecting c.status
    then if Buffer.empty c.write_buffer then if is_fatal io then [] else message else message
    else []

failed_steps :
    (message : List ℕ) (errno : ℕ) (c : Connection)
    → write_now message (failed errno) c ≡ (
        if is_transient errno
        then record c { write_buffer = Buffer.write_buffer c.write_buffer message }
        else close_in_thread c)
unfolding write_now
failed_steps message errno c = refl

write_first-Holds :
    (message : List ℕ) (io : Io ℕ) (c : Connection) (bytes : List ℕ)
    → Holds c bytes
    → Buffer.empty c.write_buffer ≡ true
    → length message < max_size
    → Possible (length message) io
    → Holds (write_now message io c) (bytes ++ (if is_fatal io then [] else message))
write_first-Holds message (done n) c bytes h e small possible =
    write_now-Holds message n c bytes h (contents-empty h.valid e) small possible
write_first-Holds message (failed errno) c bytes h e small possible =
    rw failed_steps (elim (Bool-cases (is_transient errno)) [
      | inl t ↦
          rw t (buffered-Holds c bytes message h (rw (contents-empty h.valid e) (omega arith)))
      | inr f ↦
          rw (f, append-nil bytes)
            (record {
              valid = rw ((close_in_thread_lem c).0) h.valid;
              all = rw ((close_in_thread_lem c).0, (close_in_thread_lem c).1) h.all;
            })
    ])

pub write_in_thread_lem :
    (message : List ℕ) (io : Io ℕ) (c : Connection)
    → write_in_thread message io c ≡ (
        if is_connecting c.status
        then watch_output (
            if Buffer.empty c.write_buffer
            then write_now message io c
            else record c { write_buffer = Buffer.write_buffer c.write_buffer message })
        else c)
unfolding write_in_thread
write_in_thread_lem message io c = refl

-- While less than 2 ^ 31 bytes wait and the kernel takes no more than it is offered,
-- `WriteInThread` adds the message to what is accepted for the socket, behind what waits,
-- whatever the part of it that the kernel takes at once; it adds nothing where the connection is
-- closing or the system call fails for good. The write buffer stays valid.
pub write_in_thread-Holds :
    (message : List ℕ) (io : Io ℕ) (c : Connection) (bytes : List ℕ)
    → Holds c bytes
    → length (contents c.write_buffer) + length message < max_size
    → Possible (length message) io
    → Holds (write_in_thread message io c) (bytes ++ accepted c message io)
write_in_thread-Holds message io c bytes h fits possible =
    rw write_in_thread_lem (elim (Bool-cases (is_connecting c.status)) [
      | inr f ↦ rw (f, append-nil bytes) h
      | inl t ↦ elim (Bool-cases (Buffer.empty c.write_buffer)) [
        | inl e ↦
            rw (t, e)
              (watch_output-Holds (write_first-Holds message io c bytes h e (omega arith) possible))
        | inr w ↦ rw (t, w) (watch_output-Holds (buffered-Holds c bytes message h fits))
      ]
    ])

drained_lem :
    (c : Connection) → ((drained c).write_buffer ≡ c.write_buffer) × ((drained c).sent ≡ c.sent)
unfolding drained
drained_lem c = ground arith

-- What follows the system call in `WriteFd` leaves the buffer and the socket's bytes alone.
settled : Io ℕ → Connection → Connection
settled io c1 =
    let c2 = if is_fatal io then close c1 else c1 in
    if Buffer.empty c2.write_buffer then drained c2 else c2

settled_lem :
    (io : Io ℕ) (c : Connection)
    → ((settled io c).write_buffer ≡ c.write_buffer) × ((settled io c).sent ≡ c.sent)
unfolding settled
settled_lem io c = ground (arith, close_lem c, drained_lem c, drained_lem (close c))

write_fd_lem :
    (io : Io ℕ) (c : Connection)
    → write_fd io c ≡ (
        if is_disconnected c.status
        then c
        else settled io (record c {
          write_buffer = Buffer.write_fd c.write_buffer io;
          sent = c.sent ++ taken_by io (Buffer.c_read_data c.write_buffer);
        }))
unfolding write_fd settled
write_fd_lem io c = refl

pub call_Holds :
    (io : Io ℕ) (c : Connection) (bytes : List ℕ)
    → Holds c bytes
    → Possible (length (contents c.write_buffer)) io
    → Holds
        (record c {
          write_buffer = Buffer.write_fd c.write_buffer io;
          sent = c.sent ++ taken_by io (Buffer.c_read_data c.write_buffer);
        })
        bytes
call_Holds (failed errno) c bytes h possible =
    unfold Buffer.write_fd in record { valid = h.valid; all = rw (append-nil c.sent) h.all }
call_Holds (done n) c bytes h possible =
    let t = write_fd-Taken c.write_buffer n h.valid possible in
    record {
      valid = t.valid;
      all =
          rw
            (
              t.held,
              take-c_read_data n c.write_buffer (omega (arith, length-contents h.valid)),
              append_assoc c.sent (take n (contents c.write_buffer))
                  (drop n (contents c.write_buffer)),
              take-append-drop n (contents c.write_buffer),
            )
            h.all;
    }

-- `WriteFd` only moves bytes from the write buffer to the socket: of what is accepted none is lost,
-- repeated or put in another order, however many the kernel takes and whether the call fails or not.
pub write_fd-Holds :
    (io : Io ℕ) (c : Connection) (bytes : List ℕ)
    → Holds c bytes
    → Possible (length (contents c.write_buffer)) io
    → Holds (write_fd io c) bytes
write_fd-Holds io c bytes h possible = rw write_fd_lem (
    if_cases (λ d. Holds d bytes) (is_disconnected c.status) (λ _. h)
      (λ _.
        let called = call_Holds io c bytes h possible in
        let same = settled_lem io (record c {
          write_buffer = Buffer.write_fd c.write_buffer io;
          sent = c.sent ++ taken_by io (Buffer.c_read_data c.write_buffer);
        }) in
        record { valid = rw (same.0) called.valid; all = rw (same.0, same.1) called.all }))
