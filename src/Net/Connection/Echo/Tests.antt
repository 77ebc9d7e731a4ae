-- ===== src/Net/Connection/Echo/Tests.antt =====
-- One message of one byte, and half of the next length.
use reactor_learn.Prelude.{◌≡◌, refl, some, [], ◌∷◌, ◌++◌, All, inl, arith}
use reactor_learn.Kv.ByteOrder.{IsByte, little, be_bytes, le_bytes}
use reactor_learn.Buffer.{Buffer, done}
use reactor_learn.Buffer.Invariant.{contents}
use reactor_learn.Net.Connection.Echo.{echo_message}
use reactor_learn.Net.Connection.Echo.Frames.{frames, replies, echo_message-frames}

abbrev held : Buffer
held = record { buffer = 0 ∷ 0 ∷ 0 ∷ 1 ∷ 65 ∷ 0 ∷ 0 ∷ 9 ∷ []; readptr = 0; writeptr = 7 }

held-IsByte : All IsByte (contents held)
unfolding contents
held-IsByte = (
  omega arith,
  (omega arith, (omega arith, (omega arith, (omega arith, (omega arith, (omega arith, tt)))))),
)

held_frames : contents held ≡ frames ((65 ∷ []) ∷ []) ++ (0 ∷ 0 ∷ [])
unfolding contents be_bytes le_bytes
held_frames = refl

echo_message-frames_example :
    (b' : Buffer) × (echo_message little (λ n. done 9) held
      ≡ some (b', replies (λ n. done 9) 0 ((65 ∷ []) ∷ [])))
    × (contents b' ≡ 0 ∷ 0 ∷ [])
echo_message-frames_example =
    echo_message-frames little (λ n. done 9) held ((65 ∷ []) ∷ []) (0 ∷ 0 ∷ []) (omega arith)
      held-IsByte (omega arith, tt) held_frames (inl (omega arith))
