-- ===== src/Log.antt =====
-- src/logger.cpp and include/logger.h: the logger's line buffer and the asynchronous back end. A vector
-- that is used at its end only, `empty_buffers_`, is a list whose head is its back. Each function that
-- takes the mutex is one step; the condition variable only decides when the back end runs.
pub mod Buffers
pub mod Append
pub mod Stream
pub mod Line
pub mod Shutdown
pub mod Format
mod Tests
use reactor_learn.Prelude.{
  ℕ, ◌+◌, ◌-◌, ◌*◌, ◌%◌, ◌^◌, min, Bool, true, false, Option, none, some, List, [], ◌∷◌, ◌++◌, ◌||◌,
  ◌&&◌, not, ltb, leb, ◌==◌, if◌then◌else◌, length, take, drop, replicate, overwrite,
}

abbrev pub Bytes : Type 0
Bytes = List ℕ

abbrev pub k_loggerbuffersize : ℕ
k_loggerbuffersize = 4096

abbrev pub k_backendbuffersize : ℕ
k_backendbuffersize = k_loggerbuffersize * 1024

abbrev pub k_backendbufferlimit : ℕ
k_backendbufferlimit = 25

-- One line: `buf_` and `used_`.
pub record Logger : Type 0 where
  pub buf : Bytes
  pub used : ℕ

-- The constructor's initial state; `buf_` starts with any bytes.
abbrev pub start_line : Bytes → Logger
start_line garbage = record { buf = garbage; used = 0 }

-- `LessSize`
unfoldable pub less_size : Logger → ℕ
less_size l = (k_loggerbuffersize + 2 ^ 32 - l.used) % 2 ^ 32

-- `operator<<(std::string_view)`
unfoldable pub put_text : Logger → Bytes → Logger
unfolding less_size overwrite
put_text l msg =
    if less_size l == 0
    then l
    else (let loglen = min (length msg) (less_size l) in
        record {
          buf = overwrite l.buf l.used (take loglen msg);
          used = (l.used + loglen) % 2 ^ 32;
        })

-- The destructor, before `Append`: what it hands over.
unfoldable pub finish_line : Logger → Bytes
unfolding less_size overwrite
finish_line l =
    if ltb 0 (less_size l)
    then take (l.used + 1) (overwrite l.buf l.used (10 ∷ []))
    else take l.used l.buf

pub record PendingBuffer : Type 0 where
  pub data_bytes : Bytes
  pub len : ℕ

pub record AsyncLogging : Type 0 where
  pub running : Bool
  pub wake_requested : Bool
  pub current_buffer : Option Bytes
  pub current_buffer_len : ℕ
  pub next_buffer : Option Bytes
  pub work_list : List PendingBuffer
  pub empty_buffers : List Bytes

-- `std::make_unique<char[]>(size)`
unfoldable pub make_unique : ℕ → Bytes
make_unique size = replicate size 0

abbrev pub fresh_buffer : Bytes
fresh_buffer = make_unique k_backendbuffersize

-- The constructor.
unfoldable pub construct : AsyncLogging
construct = record {
  running = true;
  wake_requested = false;
  current_buffer = some fresh_buffer;
  current_buffer_len = 0;
  next_buffer = some fresh_buffer;
  work_list = [];
  empty_buffers = [];
}

abbrev pub taken : List Bytes → Bytes × List Bytes
taken [] = (fresh_buffer, [])
taken (b ∷ l) = (b, l)

-- `TakeBufferLocked`
unfoldable pub take_buffer_locked : AsyncLogging → Bytes × AsyncLogging
take_buffer_locked a =
    let (b, rest) = taken a.empty_buffers in (b, record a { empty_buffers = rest })

-- `RecycleBufferLocked` of a buffer that is not null.
unfoldable pub recycle_buffer_locked : Bytes → AsyncLogging → AsyncLogging
recycle_buffer_locked b a =
    if ltb (length a.empty_buffers) 2 then record a { empty_buffers = b ∷ a.empty_buffers } else a

abbrev pub is_null : Option Bytes → Bool
is_null none = true
is_null (some b) = false

abbrev pub supplied : AsyncLogging → Option Bytes → AsyncLogging
supplied a (some b) = record a { current_buffer = some b; next_buffer = none }
supplied a none = let (b, a') = take_buffer_locked a in record a' { current_buffer = some b }

-- The next buffer becomes the current one, or another does.
unfoldable pub refill : AsyncLogging → AsyncLogging
unfolding take_buffer_locked
refill a = supplied a a.next_buffer

abbrev pub handed_over : Option Bytes → ℕ → List PendingBuffer
handed_over none len = []
handed_over (some b) len = record { data_bytes = b; len = len } ∷ []

-- `work_list_.push_back(PendingBuffer{std::move(current_buffer_), current_buffer_len_})` and a refill.
unfoldable pub hand_over : AsyncLogging → AsyncLogging
unfolding refill
hand_over a = refill (record a {
  work_list = a.work_list ++ handed_over a.current_buffer a.current_buffer_len;
  current_buffer = none;
  current_buffer_len = 0;
})

abbrev pub copied : Option Bytes → ℕ → Bytes → Option Bytes
copied none len buf = none
copied (some b) len buf = some (overwrite b len buf)

-- `memcpy` behind what the current buffer holds.
unfoldable pub copy_in : Bytes → AsyncLogging → AsyncLogging
copy_in buf a = record a {
  current_buffer = copied a.current_buffer a.current_buffer_len buf;
  current_buffer_len = (a.current_buffer_len + length buf) % 2 ^ 32;
}

unfoldable pub supply_next : AsyncLogging → AsyncLogging
unfolding take_buffer_locked
supply_next a =
    if is_null a.next_buffer
    then (let (b, a') = take_buffer_locked a in record a' { next_buffer = some b })
    else a

unfoldable pub is_full : Bytes → AsyncLogging → Bool
is_full buf a = ltb ((k_backendbuffersize + 2 ^ 32 - a.current_buffer_len) % 2 ^ 32) (length buf)

-- The part of `Append` under the mutex, while the back end is running.
unfoldable pub append_locked : Bytes → AsyncLogging → AsyncLogging
unfolding refill hand_over copy_in supply_next is_full
append_locked buf a =
    let a1 = if is_null a.current_buffer then refill a else a in
    if is_full buf a1
    then (if leb k_backendbufferlimit (length a1.work_list)
        then supply_next (record a1 { wake_requested = true })
        else supply_next (copy_in buf (record (hand_over a1) { wake_requested = true })))
    else supply_next (copy_in buf a1)

-- `Append`, with the thread's flag `g_async_logging_appending`, and what goes to standard error.
unfoldable pub append : Bool → Bytes → AsyncLogging → AsyncLogging × Bytes
unfolding append_locked
append appending buf a =
    if not a.running then (a, []) else if appending then (a, buf) else (append_locked buf a, [])

-- The first part of a pass of `BackendThreadFunc` under the mutex: the work list that it takes.
unfoldable pub collect : AsyncLogging → List PendingBuffer × AsyncLogging
unfolding hand_over
collect a =
    let a1 =
      if not (is_null a.current_buffer) && ltb 0 a.current_buffer_len then hand_over a else a in
    (a1.work_list, record a1 { work_list = [] })

-- `fwrite` of each buffer.
unfoldable pub written : List PendingBuffer → Bytes
written [] = []
written (p ∷ l) = take p.len p.data_bytes ++ written l

abbrev recycled : List PendingBuffer → AsyncLogging → AsyncLogging
recycled [] a = a
recycled (p ∷ []) a = recycle_buffer_locked p.data_bytes a
recycled (p ∷ q ∷ l) a = recycle_buffer_locked q.data_bytes (recycle_buffer_locked p.data_bytes a)

unfoldable pub last_two : List PendingBuffer → List PendingBuffer
last_two [] = []
last_two (p ∷ []) = p ∷ []
last_two (p ∷ q ∷ []) = p ∷ q ∷ []
last_two (p ∷ q ∷ r ∷ l) = last_two (q ∷ r ∷ l)

-- The last part of a pass: the last two buffers of the work list are used again, the last one last.
unfoldable pub reuse : List PendingBuffer → AsyncLogging → AsyncLogging
unfolding recycle_buffer_locked supply_next last_two
reuse work_list a = supply_next (recycled (last_two work_list) a)
