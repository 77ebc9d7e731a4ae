-- ===== src/Buffer/Queue.antt =====
-- A valid buffer behaves as the queue of the bytes that it holds.
use reactor_learn.Prelude.{
  ℕ, ◌+◌, ◌≤◌, ◌<◌, ◌≡◌, refl, ap, Option, none, some, List, [], ◌∷◌, ◌++◌, arith, ltb, lt→ltb,
  le→ltb, if◌then◌else◌, take, drop, length,
}
use native.Mathlib.Decide.{dec_lt}
use reactor_learn.Buffer.{
  Buffer, Io, failed, done, write_buffer, read_all, read_buffer, read_fd, write_fd,
}
use reactor_learn.Buffer.Invariant.{IsValid, max_size, contents}
use reactor_learn.Buffer.Write.{write_buffer_lem}
use reactor_learn.Buffer.Receive.{read_fd_lem}
use reactor_learn.Buffer.Read.{read_buffer-none, read_buffer-some, read_all_lem, write_fd-Taken}

-- A caller's use of a buffer, with what the kernel does in `receive` and `send`.
pub data Op : Type 0 where
  put : List ℕ → Op
  get : ℕ → Op
  get_all : Op
  receive : Io (List ℕ) → Op
  send : Io ℕ → Op

pub data Reply : Type 0 where
  returned : Reply
  threw : Reply
  gave : List ℕ → Reply

abbrev pub queue_step : List ℕ → Op → Reply × List ℕ
queue_step q (put m) = (returned, q ++ m)
queue_step q (get n) = if ltb (length q) n then (threw, q) else (gave (take n q), drop n q)
queue_step q get_all = (gave q, [])
queue_step q (receive (failed e)) = (returned, q)
queue_step q (receive (done bytes)) = (returned, q ++ bytes)
queue_step q (send (failed e)) = (returned, q)
queue_step q (send (done n)) = (returned, drop n q)

unfoldable pub queue_run : List ℕ → List Op → List Reply
queue_run q [] = []
queue_run q (op ∷ ops) = let (r, q') = queue_step q op in r ∷ queue_run q' ops

abbrev caught : Buffer → Option (List ℕ × Buffer) → Reply × Buffer
caught b none = (threw, b)
caught b (some (bytes, b')) = (gave bytes, b')

unfoldable pub buffer_step : Buffer → Op → Reply × Buffer
buffer_step b (put m) = (returned, write_buffer b m)
buffer_step b (get n) = caught b (read_buffer b n)
buffer_step b get_all = let (bytes, b') = read_all b in (gave bytes, b')
buffer_step b (receive io) = (returned, read_fd b io)
buffer_step b (send io) = (returned, write_fd b io)

unfoldable pub buffer_run : Buffer → List Op → List Reply
buffer_run b [] = []
buffer_run b (op ∷ ops) = let (r, b') = buffer_step b op in r ∷ buffer_run b' ops

-- What comes in fits below 2 ^ 31 bytes, and the kernel takes no more than it is offered.
abbrev pub Fitting : List ℕ → Op → Type 0
Fitting q (put m) = length q + length m < max_size
Fitting q (get n) = Unit {0}
Fitting q get_all = Unit {0}
Fitting q (receive (failed e)) = Unit {0}
Fitting q (receive (done bytes)) = length q + length bytes < max_size
Fitting q (send (failed e)) = Unit {0}
Fitting q (send (done n)) = n ≤ length q

abbrev pub AllFitting : List ℕ → List Op → Type 0
AllFitting q [] = Unit {0}
AllFitting q (op ∷ ops) = Fitting q op × AllFitting (queue_step q op).1 ops

-- One call: the same reply, and the buffer holds what the queue does.
pub record Agrees (b : Buffer) (op : Op) : Type 0 where
  pub reply : (buffer_step b op).0 ≡ (queue_step (contents b) op).0
  pub held : contents (buffer_step b op).1 ≡ (queue_step (contents b) op).1
  pub valid : IsValid (buffer_step b op).1

get-Agrees : (b : Buffer) (n : ℕ) → IsValid b → Agrees b (get n)
unfolding buffer_step
get-Agrees b n v = elim (dec_lt (length (contents b)) n) [
  | yes h ↦ record {
    reply = rw (read_buffer-none b n v h, lt→ltb (length (contents b)) n h);
    held = rw (read_buffer-none b n v h, lt→ltb (length (contents b)) n h);
    valid = rw (read_buffer-none b n v h) v;
  }
  | no h ↦
      let (b', e, t) = read_buffer-some b n v (omega arith) in
      record {
        reply = rw (e, le→ltb (length (contents b)) n (omega arith));
        held = rw (e, le→ltb (length (contents b)) n (omega arith)) t.held;
        valid = rw e t.valid;
      }
]

-- Every call on a valid buffer replies as the queue does, and leaves a valid buffer that holds what
-- the queue holds, if what comes in fits.
pub buffer_step-Agrees : (b : Buffer) (op : Op) → IsValid b → Fitting (contents b) op → Agrees b op
unfolding buffer_step
buffer_step-Agrees b (put m) v f =
    let (valid, held) = write_buffer_lem b m v f in
    record { reply = refl; held = held; valid = valid }
buffer_step-Agrees b (get n) v f = get-Agrees b n v
buffer_step-Agrees b get_all v f =
    let (reply, valid, held) = read_all_lem b v in
    record { reply = ap gave reply; held = held; valid = valid }
buffer_step-Agrees b (receive (failed e)) v f =
    unfold read_fd in record { reply = refl; held = refl; valid = v }
buffer_step-Agrees b (receive (done bytes)) v f =
    let (valid, held) = read_fd_lem b bytes v f in
    record { reply = refl; held = held; valid = valid }
buffer_step-Agrees b (send (failed e)) v f =
    unfold write_fd in record { reply = refl; held = refl; valid = v }
buffer_step-Agrees b (send (done n)) v f =
    let t = write_fd-Taken b n v f in record { reply = refl; held = t.held; valid = t.valid }

-- No sequence of calls tells a valid buffer from the queue of the bytes that it holds, if at each call
-- what comes in fits below 2 ^ 31 bytes and the kernel takes no more than is held.
pub buffer_run-queue_run :
    (ops : List Op) (b : Buffer)
    → IsValid b
    → AllFitting (contents b) ops
    → buffer_run b ops ≡ queue_run (contents b) ops
unfolding buffer_run queue_run
buffer_run-queue_run [] b v f = refl
buffer_run-queue_run (op ∷ ops) b v f =
    let a = buffer_step-Agrees b op v f.0 in
    rw (buffer_run-queue_run ops (buffer_step b op).1 a.valid (rw a.held f.1), a.held, a.reply)
