-- ===== src/Net/Connection/Dispatch.antt =====
-- What a connection's channel lets it do: the callbacks that the constructor of src/tcpconnection.cpp sets,
-- as `Channel::Handle` of src/channel.cpp runs them. What each system call gives is an argument.
use reactor_learn.Prelude.{ℕ, ◌≡◌, refl, Bool, true, false, List, [], ◌∷◌}
use reactor_learn.Net.Channel.{
  Channel, Callback, read_callback, write_callback, error_callback, close_callback, handle,
}
use reactor_learn.Net.Connection.{Connection, close, write_fd, read, Request}
use reactor_learn.Net.Connection.Closing.{IsSound, Onward, stay, Onward-trans, close-Onward}
use reactor_learn.Net.Connection.Life.{write_fd-Onward, read-Onward}
use reactor_learn.Buffer.{Buffer, Io}

module _ (onmessage : Buffer → Buffer × List Request) (received : Io (List ℕ))
    (written : Io ℕ) where
  -- One callback: `Read`, `WriteFd`, or `Close` for an error and for a hang-up.
  unfoldable pub on_callback : Callback → Connection → Connection
  unfolding read write_fd close
  on_callback read_callback c = read onmessage received c
  on_callback write_callback c = write_fd written c
  on_callback error_callback c = close c
  on_callback close_callback c = close c

  unfoldable pub on_callbacks : List Callback → Connection → Connection
  unfolding on_callback
  on_callbacks [] c = c
  on_callbacks (cb ∷ cbs) c = on_callbacks cbs (on_callback cb c)

  -- `Handle` of the connection's channel.
  unfoldable pub on_events : Channel → Bool → Connection → Connection
  unfolding handle on_callbacks
  on_events channel alive c = on_callbacks (handle channel alive) c

  on_callback-Onward : (cb : Callback) (c : Connection) → IsSound c → Onward c (on_callback cb c)
  unfolding on_callback
  on_callback-Onward read_callback c s = read-Onward onmessage received c s
  on_callback-Onward write_callback c s = write_fd-Onward written c s
  on_callback-Onward error_callback c s = close-Onward c s
  on_callback-Onward close_callback c s = close-Onward c s

  on_callbacks-Onward :
      (cbs : List Callback) (c : Connection) → IsSound c → Onward c (on_callbacks cbs c)
  unfolding on_callbacks
  on_callbacks-Onward [] c s = stay s
  on_callbacks-Onward (cb ∷ cbs) c s =
      let o = on_callback-Onward cb c s in
      Onward-trans o (on_callbacks-Onward cbs (on_callback cb c) o.sound)

  -- Whatever events the kernel reports at once, and whatever the calls give: the connection's status does
  -- not go back, and its socket is closed at most once.
  pub on_events-Onward :
      (channel : Channel) (alive : Bool) (c : Connection)
      → IsSound c
      → Onward c (on_events channel alive c)
  unfolding on_events
  on_events-Onward channel alive c s = on_callbacks-Onward (handle channel alive) c s

  -- A tied channel whose object is gone does nothing.
  pub on_events-gone :
      (channel : Channel) (c : Connection) → channel.tied ≡ true → on_events channel false c ≡ c
  unfolding on_events handle on_callbacks
  on_events-gone channel c t = rw t refl
