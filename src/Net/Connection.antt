-- ===== src/Net/Connection.antt =====
-- src/tcpconnection.cpp: a connection in its loop's thread. `sent` is what the kernel took from it, in
-- order, and `tells` what it did to its surroundings. What a system call returned is an argument; a
-- user's callback is a parameter, given by what it leaves in the read buffer and what it asks of the
-- connection. A call from another thread is handed over to the loop as a Mission.
pub mod Output
pub mod Closing
pub mod Life
pub mod Calling
pub mod Draining
pub mod Echo
pub mod Dispatch
use reactor_learn.Prelude.{
  ℕ, ◌+◌, ◌-◌, ◌%◌, ◌^◌, Bool, true, false, Option, none, some, List, [], ◌∷◌, ◌++◌, ◌||◌, ◌&&◌,
  not, ◌==◌, if◌then◌else◌, length, drop, take,
}
use reactor_learn.Net.Channel.{
  Events, no_events, k_read, k_write, k_close, either, exclusive, meets,
}
use reactor_learn.Buffer
use reactor_learn.Buffer.{Buffer, Io, failed, done}

-- `connectionstate`
pub data Status : Type 0 where
  k_connecting k_disconnecting k_disconnected : Status

abbrev pub is_connecting : Status → Bool
is_connecting k_connecting = true
is_connecting k_disconnecting = false
is_connecting k_disconnected = false

abbrev pub is_disconnecting : Status → Bool
is_disconnecting k_connecting = false
is_disconnecting k_disconnecting = true
is_disconnecting k_disconnected = false

abbrev pub is_disconnected : Status → Bool
is_disconnected k_connecting = false
is_disconnected k_disconnecting = false
is_disconnected k_disconnected = true

-- `channel_->RemoveFromLoop()`, `socket_->Close()`, `close_callback_(self)`, and
-- `timerptr_->Insert(heartbeat)`.
pub data Tell : Type 0 where
  leaves_loop closes_socket calls_back refreshes : Tell

-- `owned`: whether `channel_->owner_` is set. `shared`: whether `weak_from_this().lock()` gives a
-- pointer. `callback`: whether `close_callback_` was set. `heartbeat`: whether `heartbeat_ptr_` is alive.
-- `tied`: whether the channel is tied to the connection.
pub record Connection : Type 0 where
  pub status : Status
  pub close_requested : Bool
  pub owned : Bool
  pub shared : Bool
  pub callback : Bool
  pub heartbeat : Bool
  pub tied : Bool
  pub events : Events
  pub read_buffer : Buffer
  pub write_buffer : Buffer
  pub sent : List ℕ
  pub tells : List Tell

-- `EAGAIN` (also `EWOULDBLOCK`) and `EINTR`
abbrev pub is_transient : ℕ → Bool
is_transient errno = errno == 11 || errno == 4

abbrev pub called_back : Connection → List Tell
called_back c = if c.shared && c.callback then calls_back ∷ [] else []

-- `CloseInThread`
unfoldable pub close_in_thread : Connection → Connection
close_in_thread c =
    if is_disconnected c.status
    then c
    else if Buffer.empty c.write_buffer
    then record c {
      status = k_disconnected;
      owned = false;
      tells = c.tells ++ (leaves_loop ∷ closes_socket ∷ called_back c);
    }
    else record c { status = k_disconnecting; events = either c.events k_write }

-- `Close` in the loop's thread.
unfoldable pub close : Connection → Connection
unfolding close_in_thread
close c =
    if c.close_requested
    then c
    else (let c' = record c { close_requested = true } in
        if c.owned then close_in_thread c' else c')

-- `ActivateInThread`
unfoldable pub activate_in_thread : Connection → Connection
activate_in_thread c =
    if is_connecting c.status then record c { events = either k_read k_close } else c

-- `SetActive(Events() | kWrite)` where something is left to write.
unfoldable pub watch_output : Connection → Connection
watch_output c =
    if Buffer.empty c.write_buffer then c else record c { events = either c.events k_write }

-- The system call `write` of a message, where nothing waits before it.
unfoldable pub write_now : List ℕ → Io ℕ → Connection → Connection
unfolding close_in_thread
write_now message (done n) c =
    let c' = record c { sent = c.sent ++ take n message } in
    if n % 2 ^ 32 == length message then c' else record c' {
      write_buffer =
          Buffer.write_chars c.write_buffer (drop n message) ((length message - n) % 2 ^ 32);
    }
write_now message (failed errno) c =
    if is_transient errno
    then record c { write_buffer = Buffer.write_buffer c.write_buffer message }
    else close_in_thread c

-- `WriteInThread`
unfoldable pub write_in_thread : List ℕ → Io ℕ → Connection → Connection
unfolding write_now watch_output
write_in_thread message io c =
    if is_connecting c.status
    then watch_output (
        if Buffer.empty c.write_buffer
        then write_now message io c
        else record c { write_buffer = Buffer.write_buffer c.write_buffer message })
    else c

-- What `WriteFd` does where all is written.
unfoldable pub drained : Connection → Connection
drained c =
    let c' =
      if meets c.events k_write then record c { events = exclusive c.events k_write } else c in
    if is_disconnecting c.status
    then record c' {
      status = k_disconnected;
      owned = false;
      tells = c.tells ++ (called_back c ++ (leaves_loop ∷ closes_socket ∷ []));
    }
    else c'

-- The kernel's part of `write(fd, ...)`: which of the offered bytes it took.
abbrev pub taken_by : Io ℕ → List ℕ → List ℕ
taken_by (failed errno) offered = []
taken_by (done n) offered = take n offered

abbrev pub is_fatal : Io ℕ → Bool
is_fatal (failed errno) = not (is_transient errno)
is_fatal (done n) = false

-- `WriteFd`
unfoldable pub write_fd : Io ℕ → Connection → Connection
unfolding close drained
write_fd io c =
    if is_disconnected c.status
    then c
    else (let c1 = record c {
      write_buffer = Buffer.write_fd c.write_buffer io;
      sent = c.sent ++ taken_by io (Buffer.c_read_data c.write_buffer);
    } in
        let c2 = if is_fatal io then close c1 else c1 in
        if Buffer.empty c2.write_buffer then drained c2 else c2)

-- What a callback asks of the connection, with the result of the system call that a `Write` may make.
pub data Request : Type 0 where
  writes : List ℕ → Io ℕ → Request
  closes : Request

unfoldable pub serve : List Request → Connection → Connection
unfolding write_in_thread close
serve [] c = c
serve (writes message io ∷ rs) c = serve rs (write_in_thread message io c)
serve (closes ∷ rs) c = serve rs (close c)

-- `Read`, with the user's `onmessage_`.
unfoldable pub read : (Buffer → Buffer × List Request) → Io (List ℕ) → Connection → Connection
unfolding serve
read onmessage (failed errno) c =
    if is_connecting c.status then if is_transient errno then c else close c else c
read onmessage (done bytes) c =
    if is_connecting c.status
    then if length bytes == 0
      then close c
      else (let c1 = record c {
        read_buffer = Buffer.read_fd c.read_buffer (done bytes);
        tells = if c.heartbeat then c.tells ++ (refreshes ∷ []) else c.tells;
      } in
          let (left, requests) = onmessage c1.read_buffer in
          if c.shared then serve requests (record c1 { read_buffer = left }) else c1)
    else c

-- What another thread hands over: `ActivateInThread`, `WriteInThread` and `CloseInThread`.
pub data Mission : Type 0 where
  activation : Mission
  writing : List ℕ → Mission
  closing : Mission

-- `Activate`, `Write` and `Close` from another thread: whether a mission is submitted to the loop.
unfoldable pub submit_activate : Connection → List Mission
submit_activate c = if c.owned then activation ∷ [] else []

unfoldable pub submit_write : List ℕ → Connection → List Mission
submit_write message c = if c.owned then writing message ∷ [] else []

unfoldable pub submit_close : Connection → List Mission × Connection
submit_close c =
    if c.close_requested
    then ([], c)
    else (if c.owned then closing ∷ [] else [], record c { close_requested = true })

-- `SaveLifeMechanism`; `timer` is whether the loop has one.
unfoldable pub save_life_mechanism : Bool → Connection → Connection
save_life_mechanism timer c =
    if not c.shared
    then c
    else if timer
    then record c { tied = true; heartbeat = true; tells = c.tells ++ (refreshes ∷ []) }
    else record c { tied = true }

-- `SetCloseCallback`, with a callback.
unfoldable pub set_close_callback : Connection → Connection
set_close_callback c = record c { callback = true }

-- The constructor, on a loop that takes the channel.
unfoldable pub make : ℕ → ℕ → Connection
make read_buffer_size write_buffer_size = record {
  status = k_connecting;
  close_requested = false;
  owned = true;
  shared = true;
  callback = false;
  heartbeat = false;
  tied = false;
  events = no_events;
  read_buffer = Buffer.make read_buffer_size;
  write_buffer = Buffer.make write_buffer_size;
  sent = [];
  tells = [];
}
