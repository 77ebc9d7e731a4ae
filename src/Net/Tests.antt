-- ===== src/Net/Tests.antt =====
-- Channels and connections at concrete states.
use reactor_learn.Prelude.{
  map, ◌≡◌, refl, Bool, true, false, none, some, List, [], ◌∷◌, ◌++◌, arith,
}
use reactor_learn.Net.Channel.{
  k_read, k_write, no_events, Events, Epoll, watched, construct, set_active, remove_from_loop,
}
use reactor_learn.Net.Channel.Registration.{
  Registered, channel_life, set_all_active, construct-failed,
}
use reactor_learn.Net.Connection.{
  Connection, k_connecting, k_disconnecting, make, write_in_thread, write_fd, activate_in_thread,
  close, Request, writes, closes,
}
use reactor_learn.Net.Connection.Output.{Holds, accepted, write_in_thread-Holds, write_fd-Holds}
use reactor_learn.Net.Connection.Closing.{IsSound, Onward, times_closed}
use reactor_learn.Net.Connection.Life.{
  Op, activates, is_closed, closes_later, is_writable, is_readable, run, run-Onward, run-stuck,
  make-IsSound,
}
use reactor_learn.Net.Connection.Draining.{write-activate}
use reactor_learn.Buffer
use reactor_learn.Buffer.{Buffer, failed, done}
use reactor_learn.Buffer.Invariant.{contents}

abbrev epoll : Epoll
epoll = record { owner = 1; interest = (3, k_read) ∷ [] }

channel_life_example :
    (let (c, e1) = construct true epoll 7 in
      let (c2, e2) = set_active true e1 c k_write in
      let (c3, e3) = remove_from_loop true e2 c2 in
      (Registered e1 c × (c.events ≡ no_events) × (c.fd ≡ 7))
      × (Registered e2 c2 × (c2.events ≡ k_write) × (c2.fd ≡ c.fd))
      × ((c3.owner ≡ none) × (watched c2.fd e3.interest ≡ none)))
channel_life_example = channel_life epoll 7 k_write

abbrev tries : List (Bool × Events)
tries = (true, k_read) ∷ (false, k_write) ∷ []

epoll_other : watched 7 epoll.interest ≡ none
unfolding watched
epoll_other = refl

construct-failed_example :
    (let (c, e1) = set_all_active tries (construct false epoll 7) in
      (c.owner ≡ some epoll.owner) × (c.fd ≡ 7) × (watched 7 e1.interest ≡ none))
construct-failed_example = construct-failed epoll 7 tries epoll_other

-- Two bytes wait behind one that was sent.
abbrev waiting : Connection
waiting = record (make 4 4) {
  write_buffer = record { buffer = 5 ∷ 6 ∷ 0 ∷ []; readptr = 0; writeptr = 2 };
  sent = 4 ∷ [];
  events = k_write;
}

waiting-Holds : Holds waiting (4 ∷ 5 ∷ 6 ∷ [])
waiting-Holds = record { valid = omega arith; all = unfold contents in refl }

two : contents waiting.write_buffer ≡ 5 ∷ 6 ∷ []
unfolding contents
two = refl

write_in_thread-Holds_example :
    Holds
      (write_in_thread (7 ∷ []) (done 1) waiting)
      ((4 ∷ 5 ∷ 6 ∷ []) ++ accepted waiting (7 ∷ []) (done 1))
write_in_thread-Holds_example =
    write_in_thread-Holds (7 ∷ []) (done 1) waiting (4 ∷ 5 ∷ 6 ∷ []) waiting-Holds
      (rw two (omega arith)) (omega arith)

write_fd-Holds_example : Holds (write_fd (done 1) waiting) (4 ∷ 5 ∷ 6 ∷ [])
write_fd-Holds_example =
    write_fd-Holds (done 1) waiting (4 ∷ 5 ∷ 6 ∷ []) waiting-Holds (rw two (omega arith))

abbrev operations : List Op
operations =
    activates
    ∷ is_readable (λ b. (b, writes (1 ∷ 2 ∷ []) (done 1) ∷ closes ∷ [])) (done (9 ∷ []))
    ∷ is_writable (done 1)
    ∷ is_closed
    ∷ []

run-Onward_example : Onward (make 4 4) (run operations (make 4 4))
run-Onward_example = run-Onward operations (make 4 4) (make-IsSound 4 4)

-- `Close` was called while the bytes waited.
abbrev closing : Connection
closing = record waiting { status = k_disconnecting; close_requested = true }

closing_lem : close waiting ≡ closing
unfolding close make Buffer.empty
closing_lem = refl

closing_waits : Buffer.empty closing.write_buffer ≡ false
unfolding Buffer.empty
closing_waits = refl

waiting_waits : Buffer.empty waiting.write_buffer ≡ false
unfolding Buffer.empty
waiting_waits = refl

waiting-IsSound : IsSound waiting
unfolding make
waiting-IsSound = record { once = refl; drains = λ _. waiting_waits; owner = refl }

waiting_fresh : (waiting.status ≡ k_connecting) × (waiting.close_requested ≡ false)
unfolding make
waiting_fresh = (refl, refl)

-- A broken pipe, a reset, a hang-up, and a mission to close.
abbrev losses : List Op
losses = is_writable (failed 32) ∷ is_writable (failed 104) ∷ is_closed ∷ closes_later ∷ []

run-stuck_example :
    (let d = run losses (close waiting) in
      (d.status ≡ k_disconnecting)
      × (d.write_buffer ≡ waiting.write_buffer)
      × (times_closed d.tells ≡ 0))
run-stuck_example =
    run-stuck waiting waiting_waits losses tt waiting-IsSound waiting_fresh.0 waiting_fresh.1

closing-IsSound : IsSound closing
unfolding make
closing-IsSound = record { once = refl; drains = λ _. closing_waits; owner = refl }

abbrev fresh : Connection
fresh = record (make 4 4) {
  write_buffer = record { buffer = 0 ∷ 0 ∷ []; readptr = 0; writeptr = 0 };
}

fresh_connecting : fresh.status ≡ k_connecting
unfolding make
fresh_connecting = refl

fresh_empty : Buffer.empty fresh.write_buffer ≡ true
unfolding Buffer.empty
fresh_empty = refl

abbrev stays_quiet : Buffer → Buffer × List Request
stays_quiet b = (b, [])

write-activate_example :
    (let d = write_in_thread (7 ∷ 8 ∷ []) (done 1) fresh in
      let e =
        run
          (map (λ bytes. is_readable stays_quiet (done bytes)) ((3 ∷ []) ∷ []))
          (activate_in_thread d) in
      (d.events.output ≡ true)
      × (contents d.write_buffer ≡ 8 ∷ [])
      × (e.events.output ≡ false)
      × (contents e.write_buffer ≡ 8 ∷ []))
write-activate_example =
    write-activate fresh (7 ∷ 8 ∷ []) 1 fresh_connecting (omega arith) fresh_empty (omega arith)
      (omega arith) stays_quiet ((3 ∷ []) ∷ []) (λ b. refl) (refl, tt)
