-- ===== src/Net/Server/Released.antt =====
-- A loop that waits is released by the base loop: `SubmitAndWait` in src/tcpserver.cpp.
use reactor_learn.Prelude.{
  ℕ, zero, suc, ◌≡◌, refl, sym, ◌∙◌, ap, Bool, true, false, Option, none, some, List, [], ◌∷◌, ◌==◌,
  if◌then◌else◌, Bool-cases, inl, inr, length, arith, if_cases,
}
use reactor_learn.Kv.ByteOrder.{Host}
use reactor_learn.Net.Address.{InetAddress, InetText}
use reactor_learn.Net.Acceptor.{Acceptor}
use reactor_learn.Loop.Pool.{get_one_thread}
use reactor_learn.Net.Server.{
  Handed, Mission, inserts, erases, Phase, absent, waits, served, TcpServer, make,
  set_sub_thread_num, start_server, close_step, new_connection, establish, run_base, work,
  assign_loop, begun, ran, next_for, is_some_at, at,
}
use reactor_learn.Net.Server.Runs.{
  Step, arrives, refuses, establishes, runs_base, works, sets_size, starts, closes, Reach, here,
  after,
}
use reactor_learn.Net.Server.Tracking.{about, Tracks, place, at_phase, same, self}
use reactor_learn.Net.Server.Tracking.Base.{kind, about-mine, about-other}
use reactor_learn.Net.Server.Tracking.Reached.{reach-Tracks, make-Tracks}
use reactor_learn.Net.Server.Blocking.{none-some}

-- A loop waits only for a connection whose insertion is pending.
pub Waits : TcpServer → Type 0
Waits s = (l id : ℕ) → s.blocked l ≡ some id → s.phase id ≡ waits

some_injective : {a b : ℕ} → some a ≡ some b → a ≡ b
some_injective {a} e = ap or_first e
  where
    or_first : Option ℕ → ℕ
    or_first none = a
    or_first (some m) = m

other : (a b : ℕ) → (a == b) ≡ false → (b == a) ≡ false
other a b ne = elim (Bool-cases (b == a)) [
  | inl e ↦ let back : (a == b) ≡ true = rw (same e) (self a) in absurd (ground (arith, back))
  | inr e ↦ e
]

module _ (text : InetText) (host : Host) where
  assign_loop-Waits :
      (fd : ℕ) (addr : InetAddress) (loop : Option ℕ) (s : TcpServer)
      → Tracks s
      → Waits s
      → Waits (assign_loop text host fd addr loop s)
  unfolding Waits
  assign_loop-Waits fd addr none s t w = w
  assign_loop-Waits fd addr (some k) s t w = λ l id b. elim (Bool-cases (s.arrived == id)) [
    | inl e ↦
        let new : s.phase id ≡ absent = t.fresh id (omega (arith, same e)) in
        absurd (omega (arith, ap place (sym new ∙ w l id b)))
    | inr e ↦ rw e (w l id b)
  ]

  begun-Waits :
      (m : ℕ) (next : Option (Handed × List (ℕ × Handed))) (s : TcpServer)
      → Waits s
      → Waits (begun text host m next s)
  unfolding Waits
  begun-Waits m none s w = w
  begun-Waits m (some (h, rest)) s w = λ l id.
      if_cases (λ o. o ≡ some id → at h.id waits s.phase id ≡ waits) (m == l)
        (λ _ b. let i : h.id ≡ id = some_injective b in rw (← i, self h.id) refl)
        (λ _ b. elim (Bool-cases (h.id == id)) [ inl e ↦ rw e refl | inr e ↦ rw e (w l id b) ])

still_waits :
    (x : ℕ) (o : Option ℕ) (phase : ℕ → Phase) (id : ℕ)
    → (o ≡ some id → phase id ≡ waits)
    → (if is_some_at o x then none else o) ≡ some id
    → at x served phase id ≡ waits
still_waits x none phase id w = λ b. absurd (none-some b)
still_waits x (some i) phase id w = elim (Bool-cases (i == x)) [
  | inl e ↦ rw e (λ b. absurd (none-some b))
  | inr e ↦ rw e (λ b.
      rw
        (let ne : (x == id) ≡ false = let j : i ≡ id = some_injective b in rw (← j) (other i x e) in
          ne)
        (w b))
]

ran-Waits : (ms : List Mission) (s : TcpServer) → Waits s → Waits (ran ms s)
unfolding Waits
ran-Waits [] s w = w
ran-Waits (inserts x ∷ ms) s w = λ l id. still_waits x (s.blocked l) s.phase id (w l id)
ran-Waits (erases x ∷ ms) s w = w

module _ (text : InetText) (host : Host) where
  advance-Waits : {s t : TcpServer} → Step text host s t → Tracks s → Waits s → Waits t
  unfolding Waits
  advance-Waits (arrives fd addr s r) k w =
      unfold new_connection in
      assign_loop-Waits text host fd addr (get_one_thread s.pool).0
        (record s { pool = (get_one_thread s.pool).1 })
        (record {
          tracked = k.tracked;
          fresh = k.fresh;
          sound = k.sound;
          shared = k.shared;
          linked = k.linked;
        })
        w
  advance-Waits (refuses addr errno s r) k w = unfold new_connection in w
  advance-Waits (establishes m s b o) k w =
      unfold establish in begun-Waits text host m (next_for m s.submitted) s w
  advance-Waits (runs_base s r) k w = unfold run_base in ran-Waits s.missions s w
  advance-Waits (works i op s p) k w = unfold work in w
  advance-Waits (sets_size num s) k w = unfold set_sub_thread_num in w
  advance-Waits (starts loop answer ok e s o) k w = unfold start_server in w
  advance-Waits (closes event s) k w = unfold close_step in w

-- The base loop runs missions one after another.
pub run_times : ℕ → TcpServer → TcpServer
run_times zero s = s
run_times (suc n) s = run_times n (run_base s)

free_stays :
    (l : ℕ) (s : TcpServer) (ms : List Mission) → s.blocked l ≡ none → (ran ms s).blocked l ≡ none
free_stays l s [] b = b
free_stays l s (inserts x ∷ ms) b = rw b refl
free_stays l s (erases x ∷ ms) b = b

run_times-free : (l n : ℕ) (s : TcpServer) → s.blocked l ≡ none → (run_times n s).blocked l ≡ none
unfolding run_times
run_times-free l zero s b = b
run_times-free l (suc n) s b =
    run_times-free l n (run_base s) (unfold run_base in free_stays l s s.missions b)

first_run :
    (s : TcpServer) (ms : List Mission) (n : ℕ)
    → s.missions ≡ ms
    → run_times (suc n) s ≡ run_times n (ran ms s)
unfolding run_times run_base
first_run s ms n m = ap (λ k. run_times n (ran k s)) m

make-Waits : (heartbeat : Bool) (a : Acceptor) → Waits (make heartbeat a)
unfolding Waits make
make-Waits heartbeat a = λ l id b. absurd (none-some b)

releases :
    (l id : ℕ) (ms : List Mission) (s : TcpServer)
    → s.missions ≡ ms
    → about id ms ≡ inserts id ∷ []
    → s.blocked l ≡ some id
    → (run_times (length ms) s).blocked l ≡ none
unfolding about
releases l id [] s m a b = absurd (omega (arith, ap kind a))
releases l id (inserts x ∷ ms) s m a b = elim (Bool-cases (x == id)) [
  | inl e ↦ rw (first_run s _ (length ms) m) (
      run_times-free l (length ms) (ran (inserts x ∷ ms) s)
        (rw (b, let f : (id == x) ≡ true = rw (same e) (self id) in f) refl))
  | inr e ↦ rw (first_run s _ (length ms) m) (
      releases l id ms (ran (inserts x ∷ ms) s) refl
        (sym (about-other id (inserts x) ms _ refl e) ∙ a) (rw (b, other x id e) refl))
]
releases l id (erases x ∷ ms) s m a b = elim (Bool-cases (x == id)) [
  | inl e ↦ absurd (omega (arith, ap kind (sym (about-mine id (erases x) ms _ refl e) ∙ a)))
  | inr e ↦ rw (first_run s _ (length ms) m) (
      releases l id ms (ran (erases x ∷ ms) s) refl
        (sym (about-other id (erases x) ms _ refl e) ∙ a) b)
]

module _ (text : InetText) (host : Host) where
  reach-Waits : {s t : TcpServer} → Reach text host s t → Tracks s → Waits s → Waits t
  reach-Waits (here s) k w = w
  reach-Waits (after s t u r step) k w =
      advance-Waits text host step (reach-Tracks text host r k) (reach-Waits r k w)

  -- A loop that waits for the base loop to insert a connection goes on once the base loop has run the
  -- missions that it has at that time, whatever the threads did before.
  pub reach-releases :
      (heartbeat : Bool) (a : Acceptor) (s : TcpServer) (l id : ℕ)
      → Reach text host (make heartbeat a) s
      → s.blocked l ≡ some id
      → (run_times (length s.missions) s).blocked l ≡ none
  reach-releases heartbeat a s l id r b =
      let k = reach-Tracks text host r (make-Tracks heartbeat a) in
      let w : s.phase id ≡ waits =
        unfold Waits in reach-Waits r (make-Tracks heartbeat a) (make-Waits heartbeat a) l id b in
      let (_, pending, _, _) = at_phase s id waits w (k.tracked id) in
      releases l id s.missions s refl pending b
