-- ===== src/Net/Server/Tests.antt =====
-- A server with two loops and two connections.
use reactor_learn.Prelude.{
  ℕ, ◌≡◌, ◌≢◌, refl, sym, ap, ◌+◌, true, false, Option, none, some, List, [], ◌∷◌, ◌++◌, arith,
  length, ◌==◌, if◌then◌else◌,
}
use reactor_learn.Kv.ByteOrder.{little}
use reactor_learn.Net.Address.{
  InetText, InetAddress, af_inet, new_address, copy_construct, port_of, set_port,
}
use reactor_learn.Net.Address.Copies.{same_as, port_of-set_port}
use reactor_learn.Net.Socket.Owned
use reactor_learn.Net.Socket.Owned.{Program, Balanced, run-Balanced}
use reactor_learn.Net.Channel.{Epoll}
use reactor_learn.Net.Acceptor
use reactor_learn.Net.Acceptor.{Acceptor, Answer, connects, fails, eagain, eintr, accept_loop}
use reactor_learn.Net.Acceptor.Burst.{Goes}
use reactor_learn.Net.Connection
use reactor_learn.Net.Connection.{set_close_callback, is_disconnected}
use reactor_learn.Loop.Pool.Rounds.{IsValid}
use reactor_learn.Loop.Pool.{get_one_thread, start_pool, set_size, get_elem?, EventLoopThreadPool}
use reactor_learn.Net.Server
use reactor_learn.Net.Server.{
  Handed, TcpServer, served, make, set_sub_thread_num, start_server, not_closing, returned,
  new_connection, establish, run_base, work, has, next_for,
}
use reactor_learn.Net.Server.Runs.{Reach, here, after, arrives, establishes, runs_base, starts}
use reactor_learn.Net.Server.Tracking.Reached.{is_open, reach-settled, reach-held}
use reactor_learn.Net.Server.Blocking.{close-Hangs}
use reactor_learn.Net.Server.Released.{run_times, reach-releases}
use reactor_learn.Net.Server.Peer.{establish-peer}

-- An address is written as one character, which is its number.
abbrev read_one : List ℕ → Option ℕ
read_one [] = none
read_one (n ∷ l) = some n

abbrev text : InetText
text = record {
  pton = λ family ip. if family == af_inet then read_one ip else none;
  ntop = λ n. some (n ∷ []);
}

abbrev peer : InetAddress
peer = record new_address { sin_addr = 77; sin_port = 513 }

abbrev read_of : Option (List ℕ) → Option ℕ
read_of none = none
read_of (some ip) = read_one ip

port_of-set_port_example : port_of text little (set_port text little 513 peer) ≡ 513
port_of-set_port_example = port_of-set_port text little 513 peer (omega arith)

abbrev epoll : Epoll
epoll = record { owner = 1; interest = [] }

abbrev acceptor : Acceptor
acceptor = (Acceptor.make true 5 epoll).0

abbrev fresh : TcpServer
fresh = make false acceptor

-- Its pool runs the loops 10 and 11.
abbrev two_loops : EventLoopThreadPool
two_loops = record {
  pos = 1;
  running = true;
  threads = 0 ∷ 1 ∷ [];
  oper_threads = 10 ∷ 11 ∷ [];
  num = 2;
  maxnum = 2;
}

abbrev running : TcpServer
running = record fresh { pool = two_loops }

two_loops-IsValid : IsValid two_loops
two_loops-IsValid = record { positive = omega arith; started = λ _. (omega arith, refl) }

-- Two connections arrive, with an interrupted call in between.
abbrev answers : List Answer
answers = connects 7 peer ∷ fails eintr ∷ connects 8 peer ∷ []

answers-Goes : Goes answers
unfolding Goes
answers-Goes = (refl, tt)

abbrev refused : List Answer
refused = answers ++ (fails 24 ∷ [])

-- One connection arrives at a server that was started, and its loop, 10, makes it.
abbrev started : TcpServer
started = (start_server (λ n. n + 10) 0 true epoll fresh).0

abbrev reached : TcpServer
reached = new_connection text little (some 7) peer 0 started

abbrev made : TcpServer
made = establish text little 10 reached

abbrev held : TcpServer
held = run_base made

reached_free : reached.blocked 10 ≡ none
unfolding new_connection start_server make get_one_thread start_pool set_size get_elem?
reached_free = refl

made_waits : made.blocked 10 ≡ some 0
unfolding new_connection start_server make get_one_thread start_pool set_size get_elem? establish
    next_for
made_waits = refl

made_next :
    next_for 10 reached.submitted
    ≡ some (
      record {
        id = 0;
        fd = 7;
        peer = copy_construct text little (copy_construct text little peer);
      },
      [],
    )
unfolding new_connection start_server make get_one_thread start_pool set_size get_elem? next_for
made_next = refl

made_running : made.shutdown.base_running ≡ true
unfolding new_connection start_server make get_one_thread start_pool set_size get_elem? establish
    next_for
made_running = refl

held_served : held.phase 0 ≡ served
unfolding new_connection start_server make get_one_thread start_pool set_size get_elem? establish
    next_for run_base
held_served = refl

held_open : is_disconnected (held.connection 0).status ≡ false
unfolding new_connection start_server make get_one_thread start_pool set_size get_elem? establish
    next_for run_base set_close_callback Server.made_connection Connection.make
held_open = refl

held_idle : held.missions ≡ []
unfolding new_connection start_server make get_one_thread start_pool set_size get_elem? establish
    next_for run_base
held_idle = refl

made-Reach : Reach text little fresh made
made-Reach =
    after _ _ _
      (after _ _ _ (after _ _ _ (here fresh) (starts (λ n. n + 10) 0 true epoll fresh fresh_open))
        (arrives 7 peer started started_running))
      (establishes 10 reached reached_free goes_on)
  where
    fresh_open : fresh.shutdown.progress ≡ not_closing
    fresh_open = unfold make in refl

    goes_on : reached.shutdown.ended 10 ≡ false
    goes_on =
        unfold new_connection start_server make get_one_thread start_pool set_size get_elem? in refl

    started_running : started.shutdown.base_running ≡ true
    started_running = unfold start_server make in refl

held-Reach : Reach text little fresh held
held-Reach = after _ _ _ made-Reach (runs_base made made_running)

reach-settled_example :
    has 0 held.tcpst ≡ is_open (held.phase 0) (is_disconnected (held.connection 0).status)
reach-settled_example = reach-settled text little false acceptor held 0 held-Reach held_idle

reach-held_example : has 0 held.tcpst ≡ true
reach-held_example = reach-held text little false acceptor held 0 held-Reach held_served held_open

reach-releases_example : (run_times (length made.missions) made).blocked 10 ≡ none
reach-releases_example = reach-releases text little false acceptor made 10 0 made-Reach made_waits

made_open : (made.shutdown.progress ≡ not_closing) × (made.shutdown.ended 10 ≡ false)
unfolding new_connection start_server make get_one_thread start_pool set_size get_elem? establish
made_open = (refl, refl)

made_pooled : has 10 made.pool.oper_threads ≡ true
unfolding new_connection start_server make get_one_thread start_pool set_size get_elem? establish
    has
made_pooled = refl

close-Hangs_example :
    (t : TcpServer) × Reach text little made t
    × (t.missions ≡ made.missions)
    × ((u : TcpServer)
        → Reach text little t u
        → (u.blocked 10 ≡ some 0) × (u.shutdown.progress ≢ returned))
close-Hangs_example =
    close-Hangs text little 10 0 made made_open.0 made_open.1 made_pooled made_waits

establish-peer_example : made.addr 0 ≡ record (same_as peer) { sin_addr = 0 }
establish-peer_example =
    establish-peer text little 10 reached _ [] peer (0 ∷ []) made_next refl (omega arith)
      (λ ip. refl) refl (λ ip e. sym (ap read_of e))

abbrev program : Program
program = record { sockets = []; opened = []; closed = [] }

-- A socket is made and moved, the moved one is closed, and both are destroyed.
abbrev uses_of_one : List Owned.Op
uses_of_one =
    Owned.makes 3
    ∷ Owned.uses 0 Owned.moves
    ∷ Owned.uses 0 Owned.closes
    ∷ Owned.uses 0 Owned.destroys
    ∷ Owned.uses 0 Owned.destroys
    ∷ []

run-Balanced_example : Balanced 3 (Owned.run uses_of_one program)
run-Balanced_example = run-Balanced 3 uses_of_one program refl
