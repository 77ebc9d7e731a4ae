-- ===== src/Buffer.antt =====
-- src/buffer.cpp and include/buffer.h: the byte buffer between a socket and its handler.
-- `readptr_` and `writeptr_` are ints; the model holds them as numbers and writes the narrowing of a
-- sum to int as `% 2 ^ 32`. `Invariant.IsValid` keeps them below 2 ^ 31, where a number and an int
-- are one. The bytes that a system call reads, or how many it writes, are its argument.
pub mod Invariant
pub mod Write
pub mod Receive
pub mod Bytes
pub mod Read
pub mod Queue
mod Tests
use reactor_learn.Prelude.{
  ℕ, ◌+◌, ◌-◌, ◌%◌, ◌^◌, Bool, Option, none, some, List, ltb, ◌==◌, if◌then◌else◌, take, drop,
  length, replicate, overwrite, resize,
}
use reactor_learn.Kv.ByteOrder.{Host, value_in}

pub record Buffer : Type 0 where
  pub buffer : List ℕ
  pub readptr : ℕ
  pub writeptr : ℕ

-- What `readv` or `write` did: the errno of a failure (-1), or its result.
pub data Io {ℓ} (A : Type ℓ) : Type ℓ where
  failed : ℕ → Io A
  done : A → Io A

abbrev to_int : ℕ → ℕ
to_int n = n % 2 ^ 32

abbrev add_size : ℕ → ℕ → ℕ
add_size a b = (a + b) % 2 ^ 64

unfoldable pub make : ℕ → Buffer
make size = record { buffer = replicate size 0; readptr = 0; writeptr = 0 }

unfoldable pub empty : Buffer → Bool
empty b = b.readptr == b.writeptr

unfoldable pub capacity : Buffer → ℕ
capacity b = length b.buffer

unfoldable pub size : Buffer → ℕ
size b = (b.writeptr + 2 ^ 64 - b.readptr) % 2 ^ 64

-- The bytes from `readptr_` on, which `CReadData` points to.
unfoldable pub c_read_data : Buffer → List ℕ
c_read_data b = drop b.readptr b.buffer

-- `MovePtr`: what is held moves to the front.
unfoldable pub move_ptr : Buffer → Buffer
unfolding overwrite
move_ptr b = if b.readptr == 0 then b else record {
  buffer = overwrite b.buffer 0 (take (b.writeptr - b.readptr) (drop b.readptr b.buffer));
  readptr = 0;
  writeptr = b.writeptr - b.readptr;
}

-- `Expand(unsigned int size)`
unfoldable pub expand : Buffer → ℕ → Buffer
unfolding move_ptr resize
expand b size =
    let b' = move_ptr b in
    if ltb (length b'.buffer) size then record b' { buffer = resize b'.buffer size 0 } else b'

-- `memmove(buffer_.data() + writeptr_, message, n); writeptr_ += n;`
unfoldable pub put_at_end : Buffer → List ℕ → Buffer
unfolding overwrite
put_at_end b message = record b {
  buffer = overwrite b.buffer b.writeptr message;
  writeptr = to_int (b.writeptr + length message);
}

-- The room that `WriteBuffer(const std::string&)` makes; `message.size()` is a size_t.
unfoldable pub make_room : Buffer → ℕ → Buffer
unfolding move_ptr resize
make_room b len =
    if ltb (length b.buffer) (add_size b.writeptr len)
    then (let b' = move_ptr b in
        if ltb (length b'.buffer) (add_size b'.writeptr len)
        then record b' { buffer = resize b'.buffer (add_size b'.writeptr len) 0 }
        else b')
    else b

-- `WriteBuffer(const std::string&)`
unfoldable pub write_buffer : Buffer → List ℕ → Buffer
unfolding make_room put_at_end
write_buffer b message = put_at_end (make_room b (length message)) message

abbrev pub add_unsigned : ℕ → ℕ → ℕ
add_unsigned a b = (a + b) % 2 ^ 32

-- The room that `WriteBuffer(const char*, unsigned int len)` makes.
unfoldable pub make_room_unsigned : Buffer → ℕ → Buffer
unfolding move_ptr resize
make_room_unsigned b len =
    if ltb (length b.buffer) (add_unsigned b.writeptr len)
    then (let b' = move_ptr b in
        if ltb (length b'.buffer) (add_unsigned b'.writeptr len)
        then record b' { buffer = resize b'.buffer (add_unsigned b'.writeptr len) 0 }
        else b')
    else b

-- `WriteBuffer(const char*, unsigned int len)`, of `len` bytes from the pointer.
unfoldable pub write_chars : Buffer → List ℕ → ℕ → Buffer
unfolding make_room_unsigned overwrite
write_chars b message len =
    let b' = make_room_unsigned b len in
    record b' {
      buffer = overwrite b'.buffer b'.writeptr (take len message);
      writeptr = to_int (b'.writeptr + len);
    }

-- `ReadBuffer(std::string&)`
unfoldable pub read_all : Buffer → List ℕ × Buffer
read_all b = (
  take (b.writeptr - b.readptr) (drop b.readptr b.buffer),
  record b { readptr = 0; writeptr = 0 },
)

-- `ReadBuffer(std::string&, size_t len)`; `none` is the exception, which leaves all as it was.
unfoldable pub read_buffer : Buffer → ℕ → Option (List ℕ × Buffer)
unfolding size
read_buffer b len =
    if ltb (size b) len
    then none
    else some (
      take len (drop b.readptr b.buffer),
      (if size b == len
          then record b { readptr = 0; writeptr = 0 }
          else record b { readptr = to_int (b.readptr + len) }),
    )

-- `PeekUnsignedInt`, in the host's byte order; `none` is the exception.
unfoldable pub peek_unsigned_int : Host → Buffer → Option ℕ
unfolding size value_in
peek_unsigned_int host b =
    if ltb (size b) 4 then none else some (value_in host (take 4 (drop b.readptr b.buffer)))

-- The kernel fills the buffer behind `writeptr_` first, and then `extrabuf`.
unfoldable pub take_in : Buffer → List ℕ → Buffer
unfolding overwrite move_ptr expand put_at_end
take_in b bytes =
    let room = length b.buffer - b.writeptr in
    if ltb (length bytes) room
    then put_at_end b bytes
    else (let filled = move_ptr (record b {
      buffer = overwrite b.buffer b.writeptr (take room bytes);
      writeptr = to_int (length b.buffer);
    }) in
        let need = length bytes - room in
        put_at_end
          (if ltb (length filled.buffer) (add_size need filled.writeptr)
            then expand filled (to_int (add_size need filled.writeptr))
            else filled)
          (drop room bytes))

-- `ReadFd`: at 0 or -1 nothing changes.
unfoldable pub read_fd : Buffer → Io (List ℕ) → Buffer
unfolding take_in
read_fd b (failed errno) = b
read_fd b (done bytes) = if length bytes == 0 then b else take_in b bytes

-- `WriteFd`: the kernel took `n` bytes.
unfoldable pub write_fd : Buffer → Io ℕ → Buffer
write_fd b (failed errno) = b
write_fd b (done n) =
    let r = to_int (b.readptr + n) in
    if r == b.writeptr then record b { readptr = 0; writeptr = 0 } else record b { readptr = r }
