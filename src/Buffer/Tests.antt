-- ===== src/Buffer/Tests.antt =====
-- The buffer at concrete bytes.
use reactor_learn.Prelude.{◌≡◌, refl, ◌+◌, ◌<◌, List, [], ◌∷◌, arith, length}
use reactor_learn.Buffer.{Buffer, done, write_buffer, write_chars}
use reactor_learn.Buffer.Write.{write_buffer-write_chars}
use reactor_learn.Buffer.Invariant.{IsValid, contents, max_size}
use reactor_learn.Buffer.Queue.{
  Op, put, get, get_all, receive, send, queue_run, buffer_run, buffer_run-queue_run,
}

-- Two bytes are held in the middle of four.
abbrev middle : Buffer
middle = record { buffer = 9 ∷ 1 ∷ 2 ∷ 8 ∷ []; readptr = 1; writeptr = 3 }

middle-IsValid : IsValid middle
middle-IsValid = omega arith

contents-middle : contents middle ≡ 1 ∷ 2 ∷ []
unfolding contents
contents-middle = refl

three : length (contents middle) + 3 < max_size
three = rw contents-middle (omega arith)

abbrev calls : List Op
calls = put (3 ∷ []) ∷ get 2 ∷ get 9 ∷ receive (done (6 ∷ 7 ∷ [])) ∷ send (done 1) ∷ get_all ∷ []

buffer_run-queue_run_example : buffer_run middle calls ≡ queue_run (contents middle) calls
buffer_run-queue_run_example =
    buffer_run-queue_run calls middle middle-IsValid
      (rw contents-middle (omega arith, (tt, (tt, (omega arith, (omega arith, (tt, tt)))))))

write_buffer-write_chars_example :
    write_buffer middle (3 ∷ 4 ∷ []) ≡ write_chars middle (3 ∷ 4 ∷ []) 2
write_buffer-write_chars_example =
    write_buffer-write_chars middle (3 ∷ 4 ∷ []) middle-IsValid (omega arith)
