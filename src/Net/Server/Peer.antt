-- ===== src/Net/Server/Peer.antt =====
-- The address that the server notes for a connection: src/tcpserver.cpp with src/inetaddress.cpp.
use reactor_learn.Prelude.{ℕ, ◌≡◌, refl, ◌∙◌, none, some, List}
use reactor_learn.Kv.ByteOrder.{Host, w16, Fits}
use reactor_learn.Net.Address.{
  InetText, InetAddress, af_unspec, new_address, copy_construct, copy_assign,
}
use reactor_learn.Net.Address.Copies.{
  ReadsBack, same_as, copy_assign-same_as, copy_construct-same_as,
}
use reactor_learn.Net.Server.{Handed, TcpServer, next_for, establish, begun}
use reactor_learn.Net.Server.Tracking.{self}

module _ (text : InetText) (host : Host) where
  -- Two constructions, by copy and by move, and the assignment to the connection's address.
  noted :
      (addr : InetAddress) (zero_ip : List ℕ)
      → Fits w16 addr.sin_port
      → ((ip : List ℕ) → text.pton af_unspec ip ≡ none)
      → text.ntop 0 ≡ some zero_ip
      → ReadsBack text 0
      → copy_assign text host (copy_construct text host (copy_construct text host addr)) new_address
        ≡ record (same_as addr) { sin_addr = 0 }
  unfolding same_as
  noted addr zero_ip port unknown written reads =
      rw (copy_construct-same_as text host addr port unknown) (
        rw (copy_construct-same_as text host (record (same_as addr) { sin_addr = 0 }) port unknown)
          (copy_assign-same_as text host (record (same_as addr) { sin_addr = 0 }) new_address
            zero_ip refl port written reads))

  -- The connection that a loop makes of a mission has the port of its peer, and whatever the IP of its
  -- peer is, the IP zero: the copies on the way lost it.
  pub establish-peer :
      (l : ℕ) (s : TcpServer) (h : Handed) (rest : List (ℕ × Handed)) (addr : InetAddress)
      (zero_ip : List ℕ)
      → next_for l s.submitted ≡ some (h, rest)
      → h.peer ≡ copy_construct text host (copy_construct text host addr)
      → Fits w16 addr.sin_port
      → ((ip : List ℕ) → text.pton af_unspec ip ≡ none)
      → text.ntop 0 ≡ some zero_ip
      → ReadsBack text 0
      → (establish text host l s).addr h.id ≡ record (same_as addr) { sin_addr = 0 }
  establish-peer l s h rest addr zero_ip next peer port unknown written reads =
      steps ∙ rw (next, self h.id, peer) (noted addr zero_ip port unknown written reads)
    where
      steps :
          (establish text host l s).addr h.id
          ≡ (begun text host l (next_for l s.submitted) s).addr h.id
      steps = unfold establish in refl
