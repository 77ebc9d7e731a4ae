-- ===== src/Net/Acceptor.antt =====
-- src/acceptor.cpp: the listening socket in the base loop's thread. Each call of `accept4` is answered by
-- the kernel: with a connection, or with an error number. The callback is a parameter, what it does to the
-- state of the program; its arguments are the descriptor (`none` for -1), the address and the error.
pub mod Burst
use reactor_learn.Prelude.{
  ℕ, Bool, true, false, Option, none, some, List, [], ◌∷◌, ◌==◌, if◌then◌else◌,
}
use reactor_learn.Net.Address.{InetAddress, new_address, sockaddr_in_size}
use reactor_learn.Net.Channel
use reactor_learn.Net.Channel.{Channel, Epoll, k_read, set_active}
use reactor_learn.Net.Socket
use reactor_learn.Net.Socket.{Socket, create_non_block_socket, bind_address, accept}

pub data Answer : Type 0 where
  connects : ℕ → InetAddress → Answer
  fails : ℕ → Answer

-- `EAGAIN`, which is also `EWOULDBLOCK`, and `EINTR`
abbrev pub eagain : ℕ
eagain = 11

abbrev pub eintr : ℕ
eintr = 4

-- `owner_` is the number of the base loop.
pub record Acceptor : Type 0 where
  pub socket : Socket
  pub accept_channel : Channel
  pub owner : ℕ
  pub listen_check : Bool

-- The constructor, with the descriptor that the kernel made; whether the address was bound is only
-- logged.
unfoldable pub make : Bool → ℕ → Epoll → Acceptor × Epoll
unfolding create_non_block_socket Channel.construct
make ok fd e =
    let (channel, e') = Channel.construct ok e fd in
    (
      record {
        socket = create_non_block_socket (some fd);
        accept_channel = channel;
        owner = e.owner;
        listen_check = false;
      },
      e',
    )

-- `Listen`, with the system's answer; `ok` is whether `epoll_ctl` succeeds.
unfoldable pub listen : ℕ → Bool → Epoll → Acceptor → Bool × Acceptor × Epoll
unfolding Socket.listen set_active
listen answer ok e a =
    if Socket.listen answer
    then (let (channel, e') = set_active ok e a.accept_channel k_read in
        (true, record a { listen_check = true; accept_channel = channel }, e'))
    else (false, a, e)

-- `IsListening`
unfoldable pub is_listening : Acceptor → Bool
is_listening a = a.listen_check

module _ {ℓ} {S : Type ℓ} (callback : Option ℕ → InetAddress → ℕ → S → S) where
  -- The read callback's loop, with the kernel's answers in order: whether it came to its end, and the
  -- state that the callback's calls leave.
  unfoldable pub accept_loop : List Answer → S → Bool × S
  unfolding accept
  accept_loop [] s = (false, s)
  accept_loop (connects fd filled ∷ l) s =
      let (connfd, addr) = accept (some fd) filled sockaddr_in_size in
      accept_loop l (callback connfd addr 0 s)
  accept_loop (fails errno ∷ l) s =
      if errno == eagain
      then (true, s)
      else if errno == eintr
      then accept_loop l s
      else (true, callback none new_address errno s)
