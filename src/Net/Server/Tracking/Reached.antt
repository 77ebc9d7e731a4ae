-- ===== src/Net/Server/Tracking/Reached.antt =====
-- What holds of the server of src/tcpserver.cpp in every state that it can reach.
use reactor_learn.Prelude.{
  ℕ, ◌≡◌, refl, sym, ◌∙◌, ap, Bool, true, false, not, List, [], inl, inr, arith,
}
use reactor_learn.Kv.ByteOrder.{Host}
use reactor_learn.Net.Address.{InetText}
use reactor_learn.Net.Acceptor.{Acceptor}
use reactor_learn.Net.Connection.{is_disconnected}
use reactor_learn.Net.Connection
use reactor_learn.Net.Connection.Life
use reactor_learn.Net.Server.{
  Mission, Phase, absent, handed, waits, served, TcpServer, has, make, set_sub_thread_num,
  start_server, close_step,
}
use reactor_learn.Net.Server.Runs.{
  Step, arrives, refuses, establishes, runs_base, works, sets_size, starts, closes, Reach, here,
  after,
}
use reactor_learn.Net.Server.Tracking.{about, queued, IsServed, IsTracked, Tracks, place, at_phase}
use reactor_learn.Net.Server.Tracking.Steps.{new_connection-Tracks, establish-Tracks}
use reactor_learn.Net.Server.Tracking.Base.{kind, run_base-Tracks, work-Tracks}

pub make-Tracks : (heartbeat : Bool) (a : Acceptor) → Tracks (make heartbeat a)
unfolding make about queued has
make-Tracks heartbeat a = record {
  tracked = λ id. (refl, refl, refl);
  fresh = λ id h. refl;
  sound = λ id. Life.make-IsSound 1024 1024;
  shared = λ id. unfold Connection.make in refl;
  linked = λ id h. absurd (omega (arith, ap place h));
}

-- A connection whose loop has gone on with it and that is not disconnected.
abbrev pub is_open : Phase → Bool → Bool
is_open absent closed = false
is_open handed closed = false
is_open waits closed = false
is_open served closed = not closed

settled_lem :
    (id : ℕ) (p : Phase) (q : ℕ) (ms : List Mission) (held closed : Bool)
    → IsTracked id p q ms held closed
    → ms ≡ []
    → held ≡ is_open p closed
settled_lem id absent q ms held closed (_, _, h) e = h
settled_lem id handed q ms held closed (_, _, h) e = h
settled_lem id waits q ms held closed (_, _, h, _) e = h
settled_lem id served q ms held closed (_, inl (_, h, c)) e = rw (h, c) refl
settled_lem id served q ms held closed (_, inr (inl (n, _, _))) e =
    absurd (omega (arith, ap kind (sym n ∙ e)))
settled_lem id served q ms held closed (_, inr (inr (_, h, c))) e = rw (h, c) refl

held_lem :
    (id : ℕ) {ms : List Mission} {held closed : Bool}
    → IsServed id ms held closed
    → closed ≡ false
    → held ≡ true
held_lem id (inl (_, h, _)) o = h
held_lem id (inr (inl (_, h, _))) o = h
held_lem id (inr (inr (_, _, c))) o = absurd (ground arith)

module _ (text : InetText) (host : Host) where
  pub advance-Tracks : {s t : TcpServer} → Step text host s t → Tracks s → Tracks t
  unfolding set_sub_thread_num start_server close_step
  advance-Tracks (arrives fd addr s r) k = new_connection-Tracks text host _ addr 0 s k
  advance-Tracks (refuses addr errno s r) k = new_connection-Tracks text host _ addr errno s k
  advance-Tracks (establishes l s b o) k = establish-Tracks text host l s k
  advance-Tracks (runs_base s r) k = run_base-Tracks s k
  advance-Tracks (works id op s p) k = work-Tracks id op s p k
  advance-Tracks (sets_size num s) k = record {
    tracked = k.tracked;
    fresh = k.fresh;
    sound = k.sound;
    shared = k.shared;
    linked = k.linked;
  }
  advance-Tracks (starts loop answer ok e s o) k = record {
    tracked = k.tracked;
    fresh = k.fresh;
    sound = k.sound;
    shared = k.shared;
    linked = k.linked;
  }
  advance-Tracks (closes event s) k = record {
    tracked = k.tracked;
    fresh = k.fresh;
    sound = k.sound;
    shared = k.shared;
    linked = k.linked;
  }

  -- In every state that a server reaches from its construction, the set of its connections, the base
  -- loop's missions and the state of each connection fit together: a connection is held from the moment
  -- that its loop goes on with it until its erasure, which is submitted once, when it gets disconnected.
  pub reach-Tracks : {s t : TcpServer} → Reach text host s t → Tracks s → Tracks t
  reach-Tracks (here s) k = k
  reach-Tracks (after s t u r step) k = advance-Tracks step (reach-Tracks r k)

  -- Whatever the order in which the threads run: once the base loop has no mission left, the server
  -- holds exactly the open connections.
  pub reach-settled :
      (heartbeat : Bool) (a : Acceptor) (s : TcpServer) (id : ℕ)
      → Reach text host (make heartbeat a) s
      → s.missions ≡ []
      → has id s.tcpst ≡ is_open (s.phase id) (is_disconnected (s.connection id).status)
  unfolding about
  reach-settled heartbeat a s id r none_left =
      settled_lem id (s.phase id) _ _ _ _ ((reach-Tracks r (make-Tracks heartbeat a)).tracked id)
        (ap (about id) none_left)

  -- At any time, pending missions or not, the server holds a connection that was activated and is not
  -- disconnected, so that it is not destroyed while its loop works on it.
  pub reach-held :
      (heartbeat : Bool) (a : Acceptor) (s : TcpServer) (id : ℕ)
      → Reach text host (make heartbeat a) s
      → s.phase id ≡ served
      → is_disconnected (s.connection id).status ≡ false
      → has id s.tcpst ≡ true
  reach-held heartbeat a s id r p o =
      let k = reach-Tracks r (make-Tracks heartbeat a) in
      held_lem id (at_phase s id served p (k.tracked id)).1 o
