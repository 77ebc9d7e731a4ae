-- ===== src/Net/Socket.antt =====
-- src/socket.cpp: the owner of a descriptor. The descriptor is `none` where the code has -1, and `close`
-- of the system is an effect, the descriptors that it was called for. The other calls are the system's:
-- what they answer is an argument.
pub mod Owned
use reactor_learn.Prelude.{ℕ, Option, none, some, Bool, List, [], ◌∷◌, ◌==◌}
use reactor_learn.Net.Address.{InetAddress}

pub record Socket : Type 0 where
  pub fd : Option ℕ

abbrev pub closing : Option ℕ → List ℕ
closing none = []
closing (some fd) = fd ∷ []

-- `Socket(int)`
unfoldable pub socket : Option ℕ → Socket
socket fd = record { fd = fd }

-- `~Socket`
unfoldable pub destroy : Socket → List ℕ
destroy s = closing s.fd

-- `Close`
unfoldable pub close : Socket → List ℕ × Socket
close s = (closing s.fd, record { fd = none })

-- `Socket(Socket&&)`: the new socket, and what is left of the old one.
unfoldable pub move : Socket → Socket × Socket
move s = (record { fd = s.fd }, record { fd = none })

-- `BindAddress` and `Listen`, by the system's answer.
unfoldable pub bind_address : ℕ → Bool
bind_address answer = answer == 0

unfoldable pub listen : ℕ → Bool
listen answer = answer == 0

-- `Accept`: the kernel fills the address and its length.
unfoldable pub accept : Option ℕ → InetAddress → ℕ → Option ℕ × InetAddress
accept connfd filled len = (connfd, record filled { len = len })

-- `CreateNonBlockSocket`
unfoldable pub create_non_block_socket : Option ℕ → Socket
unfolding socket
create_non_block_socket fd = socket fd
