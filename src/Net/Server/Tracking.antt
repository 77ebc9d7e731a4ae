-- ===== src/Net/Server/Tracking.antt =====
-- The server holds the connections that are open, and no others: `tcpst_` of src/tcpserver.cpp.
pub mod Steps
pub mod Base
pub mod Reached
use reactor_learn.Prelude.{
  ℕ, zero, suc, ◌+◌, ◌≤◌, ◌≡◌, refl, sym, ◌∙◌, ap, Bool, true, false, Option, none, some, List, [],
  ◌∷◌, ◌++◌, ◌==◌, ==_iff, ◌⊎◌, inl, inr, if◌then◌else◌, Bool-cases, Option-cases, arith,
}
use reactor_learn.Net.Server.{
  Handed, Mission, inserts, erases, Phase, absent, handed, waits, served, TcpServer, has, insert,
  erase, next_for, at,
}
use reactor_learn.Net.Connection.{Connection, is_disconnected}
use reactor_learn.Net.Connection.Closing.{IsSound}

abbrev pub subject : Mission → ℕ
subject (inserts id) = id
subject (erases id) = id

-- The base loop's missions about one connection, and how many missions of io loops will establish it.
unfoldable pub about : ℕ → List Mission → List Mission
about id [] = []
about id (m ∷ ms) = let rest = about id ms in if subject m == id then m ∷ rest else rest

unfoldable pub queued : ℕ → List (ℕ × Handed) → ℕ
queued id [] = 0
queued id ((l, h) ∷ rest) = (if h.id == id then 1 else 0) + queued id rest

-- An open connection is held. A closed one is held while its erasure waits, and then no longer.
abbrev pub IsServed : ℕ → List Mission → Bool → Bool → Type 0
IsServed id ms held closed =
    ((ms ≡ []) × (held ≡ true) × (closed ≡ false))
    ⊎ (((ms ≡ erases id ∷ []) × (held ≡ true) × (closed ≡ true))
        ⊎ ((ms ≡ []) × (held ≡ false) × (closed ≡ true)))

-- What is known of a connection by how far it has come: the missions of io loops, the base loop's
-- missions, whether the server holds it, and whether it is disconnected.
abbrev pub IsTracked : ℕ → Phase → ℕ → List Mission → Bool → Bool → Type 0
IsTracked id absent q ms held closed = (q ≡ 0) × (ms ≡ []) × (held ≡ false)
IsTracked id handed q ms held closed = (q ≡ 1) × (ms ≡ []) × (held ≡ false)
IsTracked id waits q ms held closed =
    (q ≡ 0) × (ms ≡ inserts id ∷ []) × (held ≡ false) × (closed ≡ false)
IsTracked id served q ms held closed = (q ≡ 0) × IsServed id ms held closed

abbrev pub TrackedAt : TcpServer → ℕ → Type 0
TrackedAt s id =
    IsTracked id (s.phase id) (queued id s.submitted) (about id s.missions) (has id s.tcpst)
      (is_disconnected (s.connection id).status)

abbrev pub place : Phase → ℕ
place absent = 0
place handed = 1
place waits = 2
place served = 3

-- Besides, a connection that its loop has gone on with has its close callback.
pub record Tracks (s : TcpServer) : Type 0 where
  pub tracked : (id : ℕ) → TrackedAt s id
  pub fresh : (id : ℕ) → s.arrived ≤ id → s.phase id ≡ absent
  pub sound : (id : ℕ) → IsSound (s.connection id)
  pub shared : (id : ℕ) → (s.connection id).shared ≡ true
  pub linked : (id : ℕ) → s.phase id ≡ served → (s.connection id).callback ≡ true

pub same : {a b : ℕ} → (a == b) ≡ true → a ≡ b
same {a} {b} e = (==_iff a b).0 e

pub self : (a : ℕ) → (a == a) ≡ true
self a = (==_iff a a).1 refl

pub at_phase :
    (s : TcpServer) (id : ℕ) (p : Phase)
    → s.phase id ≡ p
    → TrackedAt s id
    → IsTracked id p
        (queued id s.submitted)
        (about id s.missions)
        (has id s.tcpst)
        (is_disconnected (s.connection id).status)
at_phase s id p e t = rw (← e) t

pub about-append :
    (id : ℕ) (ms ns : List Mission) → about id (ms ++ ns) ≡ about id ms ++ about id ns
unfolding about
about-append id [] ns = refl
about-append id (m ∷ ms) ns = elim (Bool-cases (subject m == id)) [
  | inl e ↦ rw e (ap (λ l. m ∷ l) (about-append id ms ns))
  | inr e ↦ rw e (about-append id ms ns)
]

pub queued-append :
    (id : ℕ) (l k : List (ℕ × Handed)) → queued id (l ++ k) ≡ queued id l + queued id k
unfolding queued
queued-append id [] k = omega arith
queued-append id ((n, h) ∷ l) k = omega (arith, queued-append id l k)

pub has-insert :
    (id x : ℕ) (xs : List ℕ) → has id (insert x xs) ≡ (if x == id then true else has id xs)
unfolding has insert
has-insert id x xs = elim (Bool-cases (has x xs)) [
  | inl e ↦ rw e (elim (Bool-cases (x == id)) [
    | inl s ↦ rw s (ap (λ k. has k xs) (sym (same s)) ∙ e)
    | inr s ↦ rw s
  ])
  | inr e ↦ rw e
]

pub has-erase :
    (id x : ℕ) (xs : List ℕ) → has id (erase x xs) ≡ (if x == id then false else has id xs)
unfolding has erase
has-erase id x [] = elim (Bool-cases (x == id)) [ inl s ↦ rw s | inr s ↦ rw s ]
has-erase id x (y ∷ ys) = elim (Bool-cases (y == x)) [
  | inl e ↦ rw (e, same e) (has-erase id x ys ∙ ground arith)
  | inr e ↦ rw e (ground (arith, has-erase id x ys))
]

abbrev pub counted : ℕ → List (ℕ × Handed) → Option (Handed × List (ℕ × Handed)) → ℕ
counted id q none = queued id q
counted id q (some (h, rest)) = (if h.id == id then 1 else 0) + queued id rest

-- The mission that a loop takes is no longer queued.
pub queued-next_for : (id l : ℕ) (q : List (ℕ × Handed)) → queued id q ≡ counted id q (next_for l q)
unfolding queued next_for
queued-next_for id l [] = refl
queued-next_for id l ((k, g) ∷ q) = elim (Bool-cases (k == l)) [
  | inl e ↦ rw e
  | inr e ↦ rw e (elim (Option-cases (next_for l q)) [
    | inl n ↦ rw n
    | inr ((h, rest), n) ↦
        let ih : queued id q ≡ counted id q (some (h, rest)) =
          queued-next_for id l q ∙ ap (counted id q) n in
        rw n (omega (arith, ih))
  ])
]
