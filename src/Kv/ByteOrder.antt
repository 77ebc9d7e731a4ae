-- ===== src/Kv/ByteOrder.antt =====
-- The byte order of integers: `IsBigEnd`, `NToH` and `HToN` of src/kv/protocolcodec.cpp.
-- A byte is a number below 256 and an unsigned integer a number; how a host lays an integer out in
-- memory is a parameter, since the code asks for it when it runs.
pub mod Laws
use reactor_learn.Prelude.{
  ℕ, zero, suc, ◌+◌, ◌*◌, ◌/◌, ◌%◌, ◌<◌, Bool, List, [], ◌∷◌, reverse, ◌==◌, if◌then◌else◌,
}

abbrev pub IsByte : ℕ → Type 0
IsByte b = b < 256

-- The host that the code runs on, by the order of an integer's bytes in its memory.
pub data Host : Type 0 where
  little big : Host

-- The overloads' types: uint8_t, uint16_t, uint32_t, uint64_t.
pub data Width : Type 0 where
  w8 w16 w32 w64 : Width

-- `sizeof(T)`
abbrev pub size_of : Width → ℕ
size_of w8 = 1
size_of w16 = 2
size_of w32 = 4
size_of w64 = 8

-- The `n` bytes of a number, the lowest first, and the number of such bytes.
unfoldable pub le_bytes : ℕ → ℕ → List ℕ
le_bytes zero v = []
le_bytes (suc n) v = (v % 256) ∷ le_bytes n (v / 256)

unfoldable pub le_value : List ℕ → ℕ
le_value [] = 0
le_value (b ∷ bs) = b + 256 * le_value bs

-- The bytes of an integer in the host's memory, and the integer that bytes in memory are.
unfoldable pub memory_of : Host → Width → ℕ → List ℕ
unfolding le_bytes
memory_of little w v = le_bytes (size_of w) v
memory_of big w v = reverse (le_bytes (size_of w) v)

unfoldable pub value_in : Host → List ℕ → ℕ
unfolding le_value
value_in little bs = le_value bs
value_in big bs = le_value (reverse bs)

-- The byte at the address of an integer.
abbrev first_byte : List ℕ → ℕ
first_byte [] = 0
first_byte (b ∷ bs) = b

unfoldable pub is_big_end : Host → Bool
unfolding memory_of
is_big_end host = first_byte (memory_of host w16 0x1234) == 0x12

-- `__builtin_bswap64`, and what `htonl`, `ntohl`, `htons` and `ntohs` do on a little-endian host.
unfoldable pub bswap : Width → ℕ → ℕ
unfolding le_bytes le_value
bswap w v = le_value (reverse (le_bytes (size_of w) v))

-- The library's conversions between host and network order.
unfoldable pub net_swap : Host → Width → ℕ → ℕ
unfolding bswap
net_swap little w v = bswap w v
net_swap big w v = v

unfoldable pub n_to_h : Host → Width → ℕ → ℕ
unfolding is_big_end bswap net_swap
n_to_h host w8 v = v
n_to_h host w16 v = net_swap host w16 v
n_to_h host w32 v = net_swap host w32 v
n_to_h host w64 v = if is_big_end host then v else bswap w64 v

unfoldable pub h_to_n : Host → Width → ℕ → ℕ
unfolding is_big_end bswap net_swap
h_to_n host w8 v = v
h_to_n host w16 v = net_swap host w16 v
h_to_n host w32 v = net_swap host w32 v
h_to_n host w64 v = if is_big_end host then v else bswap w64 v

-- The network's order, which the protocol's document fixes: the highest byte first.
unfoldable pub be_bytes : Width → ℕ → List ℕ
unfolding le_bytes
be_bytes w v = reverse (le_bytes (size_of w) v)

unfoldable pub be_value : List ℕ → ℕ
unfolding le_value
be_value bs = le_value (reverse bs)

-- A value that the type can hold.
abbrev pub Fits : Width → ℕ → Type 0
Fits w8 v = v < 0x100
Fits w16 v = v < 0x1_0000
Fits w32 v = v < 0x1_0000_0000
Fits w64 v = v < 0x1_0000_0000_0000_0000
