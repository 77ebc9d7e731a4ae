-- ===== src/Net/Socket/Owned.antt =====
-- Every descriptor that sockets own is closed once, whoever it was moved to: src/socket.cpp.
use reactor_learn.Prelude.{
  ℕ, zero, suc, ◌+◌, ◌≡◌, refl, Bool, true, false, Option, none, some, List, [], ◌∷◌, ◌++◌, ◌==◌,
  arith,
}
use reactor_learn.Net.Socket.{Socket, socket, closing, destroy, close, move}

-- The sockets of a program, the descriptors that it opened for them, and those that it closed.
pub record Program : Type 0 where
  pub sockets : List Socket
  pub opened : List ℕ
  pub closed : List ℕ

-- What is done to the socket at a place.
pub data Use : Type 0 where
  closes moves destroys : Use

-- The descriptors that are closed, and the sockets that stand at the place afterwards.
unfoldable pub use_socket : Use → Socket → List ℕ × List Socket
unfolding close move destroy
use_socket closes s = let (fds, s') = close s in (fds, s' ∷ [])
use_socket moves s = let (new, old) = move s in ([], new ∷ old ∷ [])
use_socket destroys s = (destroy s, [])

-- At the place `n`, if there is a socket.
unfoldable pub use_at : ℕ → Use → List Socket → List ℕ × List Socket
unfolding use_socket
use_at n u [] = ([], [])
use_at zero u (s ∷ l) = let (fds, left) = use_socket u s in (fds, left ++ l)
use_at (suc n) u (s ∷ l) = let (fds, left) = use_at n u l in (fds, s ∷ left)

pub data Op : Type 0 where
  makes : ℕ → Op
  uses : ℕ → Use → Op

unfoldable pub step : Op → Program → Program
unfolding socket use_at
step (makes fd) p = record p { sockets = socket (some fd) ∷ p.sockets; opened = fd ∷ p.opened }
step (uses n u) p =
    let (fds, left) = use_at n u p.sockets in record p { sockets = left; closed = fds ++ p.closed }

unfoldable pub run : List Op → Program → Program
unfolding step
run [] p = p
run (op ∷ ops) p = run ops (step op p)

abbrev one_if : Bool → ℕ
one_if true = 1
one_if false = 0

-- How often a descriptor is in a list, and how many sockets own it.
abbrev pub count : ℕ → List ℕ → ℕ
count fd [] = 0
count fd (x ∷ xs) = one_if (x == fd) + count fd xs

abbrev holds : ℕ → Option ℕ → ℕ
holds fd none = 0
holds fd (some x) = one_if (x == fd)

abbrev pub owned : ℕ → List Socket → ℕ
owned fd [] = 0
owned fd (s ∷ l) = holds fd s.fd + owned fd l

count-append : (fd : ℕ) (xs ys : List ℕ) → count fd (xs ++ ys) ≡ count fd xs + count fd ys
count-append fd [] ys = omega arith
count-append fd (x ∷ xs) ys = omega (arith, count-append fd xs ys)

owned-append : (fd : ℕ) (xs ys : List Socket) → owned fd (xs ++ ys) ≡ owned fd xs + owned fd ys
owned-append fd [] ys = omega arith
owned-append fd (x ∷ xs) ys = omega (arith, owned-append fd xs ys)

closing-conserves : (fd : ℕ) (o : Option ℕ) → count fd (closing o) ≡ holds fd o
closing-conserves fd none = refl
closing-conserves fd (some x) = omega arith

conserves :
    (fd : ℕ) (u : Use) (s : Socket)
    → (let (fds, left) = use_socket u s in count fd fds + owned fd left ≡ holds fd s.fd)
unfolding use_socket close move destroy
conserves fd closes s = omega (arith, closing-conserves fd s.fd)
conserves fd moves s = omega arith
conserves fd destroys s = omega (arith, closing-conserves fd s.fd)

use_at-conserves :
    (fd n : ℕ) (u : Use) (l : List Socket)
    → (let (fds, left) = use_at n u l in count fd fds + owned fd left ≡ owned fd l)
unfolding use_at
use_at-conserves fd n u [] = omega arith
use_at-conserves fd zero u (s ∷ l) =
    omega (arith, conserves fd u s, owned-append fd (use_socket u s).1 l)
use_at-conserves fd (suc n) u (s ∷ l) = omega (arith, use_at-conserves fd n u l)

-- A descriptor is opened as often as it was closed and is still owned.
abbrev pub Balanced : ℕ → Program → Type 0
Balanced fd p = count fd p.closed + owned fd p.sockets ≡ count fd p.opened

step-Balanced : (fd : ℕ) (op : Op) (p : Program) → Balanced fd p → Balanced fd (step op p)
unfolding step socket
step-Balanced fd (makes x) p h = omega (arith, h)
step-Balanced fd (uses n u) p h =
    omega (
      arith,
      h,
      use_at-conserves fd n u p.sockets,
      count-append fd (use_at n u p.sockets).0 p.closed,
    )

-- Whatever is made, moved, closed and destroyed, in any order, every descriptor that was opened is either
-- still owned by one socket or was closed once: when this balance holds before the operations, it holds
-- after them.
pub run-Balanced : (fd : ℕ) (ops : List Op) (p : Program) → Balanced fd p → Balanced fd (run ops p)
unfolding run
run-Balanced fd [] p h = h
run-Balanced fd (op ∷ ops) p h = run-Balanced fd ops (step op p) (step-Balanced fd op p h)
