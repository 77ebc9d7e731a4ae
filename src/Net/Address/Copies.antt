-- ===== src/Net/Address/Copies.antt =====
-- What a copy of an address keeps.
use reactor_learn.Prelude.{ℕ, ◌≡◌, refl, none, some, List}
use reactor_learn.Kv.ByteOrder.{Host, w16, Fits}
use reactor_learn.Kv.ByteOrder.Laws.{n_to_h-h_to_n, h_to_n-n_to_h}
use reactor_learn.Net.Address.{
  InetText, InetAddress, af_inet, af_unspec, set_ip, set_port, port_of, ip_of, take_over,
  copy_construct, copy_assign, sockaddr_in_size, text_or_empty,
}

-- `inet_pton` reads back what `inet_ntop` wrote, and knows no family but the Internet's.
abbrev pub ReadsBack : InetText → ℕ → Type 0
ReadsBack text n = (ip : List ℕ) → text.ntop n ≡ some ip → text.pton af_inet ip ≡ some n

-- The address of the object that a copy reads, as the copy should have it.
unfoldable pub same_as : InetAddress → InetAddress
same_as obj = record obj { sin_family = af_inet; len = sockaddr_in_size }

module _ (text : InetText) (host : Host) where
  -- A port that is set is the port that is read.
  pub port_of-set_port :
      (port : ℕ) (a : InetAddress)
      → Fits w16 port
      → port_of text host (set_port text host port a) ≡ port
  unfolding port_of set_port
  port_of-set_port port a h = n_to_h-h_to_n host w16 port h

  -- Assigning to an address of the Internet's family copies the peer's IP and its port, when the C
  -- library reads back the text that it wrote.
  pub copy_assign-same_as :
      (obj a : InetAddress) (ip : List ℕ)
      → a.sin_family ≡ af_inet
      → Fits w16 obj.sin_port
      → text.ntop obj.sin_addr ≡ some ip
      → ReadsBack text obj.sin_addr
      → copy_assign text host obj a ≡ same_as obj
  unfolding copy_assign take_over set_ip set_port port_of ip_of same_as
  copy_assign-same_as obj a ip fam h e reads =
      rw (e, fam, reads ip e, h_to_n-n_to_h host w16 obj.sin_port h) refl

  -- A copy that is constructed keeps the port and the family and loses the IP: its body calls `SetIp`
  -- while the family is still that of a zeroed structure, which `inet_pton` does not know.
  pub copy_construct-same_as :
      (obj : InetAddress)
      → Fits w16 obj.sin_port
      → ((ip : List ℕ) → text.pton af_unspec ip ≡ none)
      → copy_construct text host obj ≡ record (same_as obj) { sin_addr = 0 }
  unfolding copy_construct take_over set_ip set_port port_of ip_of same_as
  copy_construct-same_as obj h unknown =
      rw (unknown (text_or_empty (text.ntop obj.sin_addr)), h_to_n-n_to_h host w16 obj.sin_port h)
        refl
