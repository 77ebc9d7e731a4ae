-- ===== src/Net/Address.antt =====
-- src/inetaddress.cpp: an IPv4 address as the system calls take it. The text forms of the C library,
-- `inet_pton` and `inet_ntop`, are a parameter; `sockaddr_in` starts with zeros. A port is a number
-- below 2 ^ 16, and its field holds it in the network's order.
pub mod Copies
use reactor_learn.Prelude.{ℕ, Bool, true, false, Option, none, some, List, []}
use reactor_learn.Kv.ByteOrder.{Host, w16, h_to_n, n_to_h}

-- `inet_pton(family, text, &address) == 1`, with the address that it writes, and `inet_ntop(AF_INET, ...)`.
pub record InetText : Type 0 where
  pub pton : ℕ → List ℕ → Option ℕ
  pub ntop : ℕ → Option (List ℕ)

abbrev pub af_inet : ℕ
af_inet = 2

-- `AF_UNSPEC`, the family in a zeroed structure.
abbrev pub af_unspec : ℕ
af_unspec = 0

abbrev pub sockaddr_in_size : ℕ
sockaddr_in_size = 16

pub record InetAddress : Type 0 where
  pub sin_family : ℕ
  pub sin_port : ℕ
  pub sin_addr : ℕ
  pub len : ℕ

-- The members before a constructor's body; it writes `len_`, which is indeterminate until then.
abbrev pub zeroed : InetAddress
zeroed = record { sin_family = af_unspec; sin_port = 0; sin_addr = 0; len = 0 }

-- `INetAddress()`
abbrev pub new_address : InetAddress
new_address = record zeroed { len = sockaddr_in_size; sin_family = af_inet }

abbrev filled : InetAddress → Option ℕ → Bool × InetAddress
filled a none = (false, a)
filled a (some n) = (true, record a { sin_addr = n })

abbrev pub text_or_empty : Option (List ℕ) → List ℕ
text_or_empty none = []
text_or_empty (some text) = text

module _ (text : InetText) (host : Host) where
  -- `SetIp`
  unfoldable pub set_ip : List ℕ → InetAddress → Bool × InetAddress
  set_ip ip a = filled a (text.pton a.sin_family ip)

  -- `SetPort`
  unfoldable pub set_port : ℕ → InetAddress → InetAddress
  set_port port a = record a { sin_port = h_to_n host w16 port }

  -- `Port`
  unfoldable pub port_of : InetAddress → ℕ
  port_of a = n_to_h host w16 a.sin_port

  -- `Ip`
  unfoldable pub ip_of : InetAddress → List ℕ
  ip_of a = text_or_empty (text.ntop a.sin_addr)

  -- The body that the copies share, on the object that is filled.
  unfoldable pub take_over : InetAddress → InetAddress → InetAddress
  unfolding set_ip set_port port_of ip_of
  take_over obj a =
      let a1 = (set_ip (ip_of obj) a).1 in
      record (set_port (port_of obj) a1) { len = sockaddr_in_size; sin_family = af_inet }

  -- The copy constructor; the move constructor does the same.
  unfoldable pub copy_construct : InetAddress → InetAddress
  unfolding take_over
  copy_construct obj = take_over obj zeroed

  -- The copy assignment to an address; the move assignment does the same.
  unfoldable pub copy_assign : InetAddress → InetAddress → InetAddress
  unfolding take_over
  copy_assign obj a = take_over obj a
