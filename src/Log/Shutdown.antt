-- ===== src/Log/Shutdown.antt =====
-- The end of the back end in src/logger.cpp: `~AsyncLogging`, which lets the thread go on from where it is
-- until nothing is left, joins it, and writes what it finds itself. No thread logs any more by then. The
-- thread's loop runs on fuel; `none` is its end.
pub mod Complete
use reactor_learn.Prelude.{
  ℕ, zero, suc, Bool, true, false, Option, none, some, List, [], ◌∷◌, ◌++◌, ◌&&◌, not, ltb,
  if◌then◌else◌, take,
}
use reactor_learn.Log.{Bytes, written}
use reactor_learn.Log.Stream.{
  Backend, Stage, waits, collects, ended, writes_out, recycles, advance, back_step,
}

abbrev pub is_ended : Stage → Bool
is_ended waits = false
is_ended collects = false
is_ended ended = true
is_ended (writes_out work_list) = false
is_ended (recycles work_list) = false

-- The rest of `BackendThreadFunc` from where its thread is, once nothing but the thread itself changes the
-- state.
unfoldable pub thread_func : ℕ → Backend → Option Backend
unfolding advance
thread_func zero s = none
thread_func (suc fuel) s =
    let rest = thread_func fuel (back_step s) in if is_ended s.stage then some s else rest

abbrev pub remaining : Option Bytes → ℕ → Bytes
remaining none len = []
remaining (some b) len = if ltb 0 len then take len b else []

-- What the destructor writes after it joined the thread; `reopened` is whether its `fopen` gave a file.
unfoldable pub write_remaining : Bool → Backend → Backend
unfolding written
write_remaining reopened s = record s {
  log = record s.log {
    current_buffer = none;
    current_buffer_len = 0;
    next_buffer = none;
    work_list = [];
    empty_buffers = [];
  };
  file =
      if reopened
      then s.file
        ++ (written s.log.work_list ++ remaining s.log.current_buffer s.log.current_buffer_len)
      else s.file;
}

abbrev joined : Bool → Option Backend → Option Backend
joined reopened none = none
joined reopened (some s) = some (write_remaining reopened s)

-- `~AsyncLogging`, with the thread anywhere in its loop.
unfoldable pub shut_down : Bool → ℕ → Backend → Option Backend
unfolding thread_func write_remaining
shut_down reopened fuel s =
    joined reopened (
      thread_func fuel (record s { log = record s.log { running = false; wake_requested = true } }))
