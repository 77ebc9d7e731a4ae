-- ===== src/Net/Connection/Echo.antt =====
-- The message callback that the constructor of src/tcpconnection.cpp sets: it takes messages, each behind
-- its length as four bytes in the network's order, and answers each. What the kernel takes of the n-th
-- echo_answer is a parameter; `none` stands for an exception or for the end of the fuel.
pub mod Frames
mod Tests
use reactor_learn.Prelude.{
  ℕ, zero, suc, ◌+◌, ◌/◌, Option, none, some, List, [], ◌∷◌, ◌++◌, ltb, leb, if◌then◌else◌, length,
}
use reactor_learn.Kv.ByteOrder.{Host, w32, n_to_h, h_to_n, memory_of}
use reactor_learn.Buffer
use reactor_learn.Buffer.{Buffer, Io}
use reactor_learn.Net.Connection.{Request, writes, closes}

abbrev pub limit : ℕ
limit = 100000

-- `" OK!"`
abbrev pub ok_text : List ℕ
ok_text = 32 ∷ 79 ∷ 75 ∷ 33 ∷ []

-- `msgback + message`
unfoldable pub echo_answer : Host → List ℕ → List ℕ
unfolding h_to_n memory_of
echo_answer host received =
    let message = received ++ ok_text in
    memory_of host w32 (h_to_n host w32 (length message)) ++ message

-- The buffer, and what was asked of the connection.
abbrev pub Echoed : Type 0
Echoed = Option (Buffer × List Request)

abbrev also : List Request → Echoed → Echoed
also rs none = none
also rs (some (b, l)) = some (b, rs ++ l)

-- The two calls of `ReadBuffer`.
abbrev pub take_message : ℕ → Option (List ℕ × Buffer) → Option (List ℕ × Buffer)
take_message len none = none
take_message len (some (header, b)) = Buffer.read_buffer b len

abbrev pub length_of : Host → Option ℕ → Option ℕ
length_of host none = none
length_of host (some v) = some (n_to_h host w32 v)

module _ (host : Host) (kernel : ℕ → Io ℕ) where
  -- With the message that was taken out, and what the loop does then.
  abbrev pub echo_answered : (Buffer → Echoed) → ℕ → Option (List ℕ × Buffer) → Echoed
  echo_answered rest n none = none
  echo_answered rest n (some (received, b)) =
      also (writes (echo_answer host received) (kernel n) ∷ []) (rest b)

  -- With the length that the buffer begins with.
  abbrev pub sized : (Buffer → Echoed) → ℕ → Buffer → Option ℕ → Echoed
  sized rest n b none = none
  sized rest n b (some len) =
      if ltb limit len
      then some (b, closes ∷ [])
      else if leb (len + 4) (Buffer.size b)
      then echo_answered rest n (take_message len (Buffer.read_buffer b 4))
      else some (b, [])

  -- The loop, from its test on; `n` messages were echo_answered before.
  unfoldable pub echo_loop : ℕ → ℕ → Buffer → Echoed
  unfolding Buffer.size Buffer.read_buffer Buffer.peek_unsigned_int n_to_h echo_answer
  echo_loop zero n b = none
  echo_loop (suc fuel) n b =
      let rest : Buffer → Echoed = echo_loop fuel (suc n) in
      if leb 4 (Buffer.size b)
      then sized rest n b (length_of host (Buffer.peek_unsigned_int host b))
      else some (b, [])

  -- The callback.
  unfoldable pub echo_message : Buffer → Echoed
  unfolding echo_loop Buffer.size
  echo_message b = echo_loop (Buffer.size b / 4 + 1) 0 b
