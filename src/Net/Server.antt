-- ===== src/Net/Server.antt =====
-- src/tcpserver.cpp: the server between the acceptor and the loops. A loop is a number, and a connection
-- the number of its arrival. `submitted` are the missions that the io loops were given and have not run,
-- `missions` those of the base loop. Each definition is one step of one thread; `SubmitAndWait` blocks the
-- loop that calls it until the base loop ran the mission.
pub mod Runs
pub mod Dealing
pub mod Tracking
pub mod Blocking
pub mod Released
pub mod Peer
mod Tests
use reactor_learn.Prelude.{
  ℕ, zero, ◌-◌, suc, Bool, true, false, Option, none, some, List, [], ◌∷◌, ◌++◌, ◌&&◌, not, ◌==◌,
  if◌then◌else◌,
}
use reactor_learn.Kv.ByteOrder.{Host}
use reactor_learn.Net.Address.{InetAddress, InetText, new_address, copy_construct, copy_assign}
use reactor_learn.Net.Channel.{Epoll}
use reactor_learn.Net.Acceptor
use reactor_learn.Net.Acceptor.{Acceptor}
use reactor_learn.Net.Connection
use reactor_learn.Net.Connection.{
  Connection, is_disconnected, save_life_mechanism, set_close_callback,
}
use reactor_learn.Net.Connection.Calling.{times_called}
use reactor_learn.Net.Connection.Life
use reactor_learn.Loop.Pool.{
  EventLoopThreadPool, Ending, stops_loop, joins, new_pool, set_size, get_one_thread, start_pool,
  close_pool,
}

-- What the mission for an io loop holds: the connection's number, its descriptor and its peer.
pub record Handed : Type 0 where
  pub id : ℕ
  pub fd : ℕ
  pub peer : InetAddress

-- The base loop's missions: `tcpst_.insert(linkptr)` and `tcpst_.erase(linkptr)`.
pub data Mission : Type 0 where
  inserts erases : ℕ → Mission

-- How far a connection has come: it has not arrived; its mission waits; its loop waits for the base
-- loop; it is activated.
pub data Phase : Type 0 where
  absent handed waits served : Phase

-- Where a call of `Close` is: it has stopped the base loop, joined its thread, stopped the pool's loops,
-- and joined their threads.
pub data Progress : Type 0 where
  not_closing base_stopped base_joined pool_stopped returned : Progress

-- `base_quit` is the flag of the base loop, and the threads of the base loop and of the pool's loops end.
pub record Shutdown : Type 0 where
  pub progress : Progress
  pub base_quit : Bool
  pub base_running : Bool
  pub ended : ℕ → Bool

pub record TcpServer : Type 0 where
  pub pool : EventLoopThreadPool
  pub acceptor : Acceptor
  pub isheartbeat : Bool
  pub shutdown : Shutdown
  pub tcpst : List ℕ
  pub arrived : ℕ
  pub closed_fds : List ℕ
  pub submitted : List (ℕ × Handed)
  pub missions : List Mission
  pub blocked : ℕ → Option ℕ
  pub phase : ℕ → Phase
  pub connection : ℕ → Connection
  pub addr : ℕ → InetAddress

abbrev pub at {ℓ} : {A : Type ℓ} → ℕ → A → (ℕ → A) → ℕ → A
at n a f k = if n == k then a else f k

-- `tcpst_` is a set.
unfoldable pub has : ℕ → List ℕ → Bool
has id [] = false
has id (x ∷ xs) = if x == id then true else has id xs

unfoldable pub insert : ℕ → List ℕ → List ℕ
unfolding has
insert id xs = if has id xs then xs else id ∷ xs

unfoldable pub erase : ℕ → List ℕ → List ℕ
erase id [] = []
erase id (x ∷ xs) = let rest = erase id xs in if x == id then rest else x ∷ rest

-- The constructor, once the acceptor's thread has given the base loop.
unfoldable pub make : Bool → Acceptor → TcpServer
unfolding set_size Connection.make
make isheartbeat acceptor = record {
  pool = set_size 1 new_pool;
  acceptor = acceptor;
  isheartbeat = isheartbeat;
  shutdown = record {
    progress = not_closing;
    base_quit = false;
    base_running = true;
    ended = λ l. false;
  };
  tcpst = [];
  arrived = 0;
  closed_fds = [];
  submitted = [];
  missions = [];
  blocked = λ l. none;
  phase = λ id. absent;
  connection = λ id. Connection.make 1024 1024;
  addr = λ id. new_address;
}

-- `SetSubThreadNum`
unfoldable pub set_sub_thread_num : ℕ → TcpServer → TcpServer
unfolding set_size
set_sub_thread_num num s = record s { pool = set_size num s.pool }

-- `Start`, where the threads of the pool give the loops `loop idx`.
unfoldable pub start_server : (ℕ → ℕ) → ℕ → Bool → Epoll → TcpServer → TcpServer × Epoll
unfolding start_pool Acceptor.listen
start_server loop answer ok e s =
    let (listening, acceptor, e') = Acceptor.listen answer ok e s.acceptor in
    (record s { pool = start_pool loop s.pool; acceptor = acceptor }, e')

-- How many steps of `Close` are done.
abbrev pub steps_done : Progress → ℕ
steps_done not_closing = 0
steps_done base_stopped = 1
steps_done base_joined = 2
steps_done pool_stopped = 3
steps_done returned = 4

abbrev pub is_free : Option ℕ → Bool
is_free none = true
is_free (some id) = false

abbrev pub all_ended : (ℕ → Bool) → List ℕ → Bool
all_ended ended [] = true
all_ended ended (l ∷ ls) = ended l && all_ended ended ls

-- The steps of `Close`, and the threads that it waits for. A stopped loop leaves its thread between two
-- passes, and so not while it waits in a mission; until it leaves, it may run missions.
pub data CloseEvent : Type 0 where
  stops_base base_leaves joins_base stops_pool joins_pool : CloseEvent
  loop_leaves : ℕ → CloseEvent

abbrev pub shutdown_after : CloseEvent → TcpServer → Shutdown
shutdown_after stops_base s =
    if steps_done s.shutdown.progress == 0
    then record s.shutdown { progress = base_stopped; base_quit = true }
    else s.shutdown
shutdown_after base_leaves s =
    if s.shutdown.base_quit then record s.shutdown { base_running = false } else s.shutdown
shutdown_after joins_base s =
    if (steps_done s.shutdown.progress == 1) && not s.shutdown.base_running
    then record s.shutdown { progress = base_joined }
    else s.shutdown
shutdown_after stops_pool s =
    if steps_done s.shutdown.progress == 2
    then record s.shutdown { progress = pool_stopped }
    else s.shutdown
shutdown_after joins_pool s =
    if (steps_done s.shutdown.progress == 3) && all_ended s.shutdown.ended s.pool.oper_threads
    then record s.shutdown { progress = returned }
    else s.shutdown
shutdown_after (loop_leaves l) s =
    if (steps_done s.shutdown.progress == 3) && is_free (s.blocked l)
    then record s.shutdown { ended = at l true s.shutdown.ended }
    else s.shutdown

abbrev pub pool_after : CloseEvent → TcpServer → EventLoopThreadPool
pool_after stops_base s = s.pool
pool_after base_leaves s = s.pool
pool_after joins_base s = s.pool
pool_after stops_pool s =
    if steps_done s.shutdown.progress == 2 then (close_pool s.pool).1 else s.pool
pool_after joins_pool s = s.pool
pool_after (loop_leaves l) s = s.pool

-- `Close`: `baseloop_->StopLoop()`, `acceptor_thread_->Join()` and `pool_->Close()`, one after another.
unfoldable pub close_step : CloseEvent → TcpServer → TcpServer
unfolding close_pool
close_step e s = record s { shutdown = shutdown_after e s; pool = pool_after e s }

-- The missions of one io loop run in the order in which they were submitted.
unfoldable pub next_for : ℕ → List (ℕ × Handed) → Option (Handed × List (ℕ × Handed))
next_for l [] = none
next_for l ((k, h) ∷ rest) = if k == l then some (h, rest) else passed (next_for l rest)
  where
    passed : Option (Handed × List (ℕ × Handed)) → Option (Handed × List (ℕ × Handed))
    passed none = none
    passed (some (g, others)) = some (g, (k, h) ∷ others)

-- The connection that a mission makes; the loops of a server with heartbeats have a timer.
unfoldable pub made_connection : Bool → Connection
unfolding save_life_mechanism Connection.make
made_connection isheartbeat =
    let c = Connection.make 1024 1024 in if isheartbeat then save_life_mechanism true c else c

module _ (text : InetText) (host : Host) where
  abbrev pub assign_loop : ℕ → InetAddress → Option ℕ → TcpServer → TcpServer
  assign_loop fd addr none s = record s { closed_fds = s.closed_fds ++ (fd ∷ []) }
  assign_loop fd addr (some l) s = record s {
    arrived = suc s.arrived;
    phase = at s.arrived handed s.phase;
    submitted =
        s.submitted
        ++ ((
          l,
          record {
            id = s.arrived;
            fd = fd;
            peer = copy_construct text host (copy_construct text host addr);
          },
        )
            ∷ []);
  }

  -- The acceptor's callback in the base loop. The peer's address is copied, and shutdown_after into the mission.
  unfoldable pub new_connection : Option ℕ → InetAddress → ℕ → TcpServer → TcpServer
  unfolding get_one_thread copy_construct
  new_connection none addr saveerrno s = s
  new_connection (some fd) addr saveerrno s =
      let (io_loop, pool) = get_one_thread s.pool in
      assign_loop fd addr io_loop (record s { pool = pool })

  abbrev pub begun : ℕ → Option (Handed × List (ℕ × Handed)) → TcpServer → TcpServer
  begun l none s = s
  begun l (some (h, rest)) s = record s {
    submitted = rest;
    missions = s.missions ++ (inserts h.id ∷ []);
    blocked = at l (some h.id) s.blocked;
    phase = at h.id waits s.phase;
    addr = at h.id (copy_assign text host h.peer new_address) s.addr;
    connection = at h.id (made_connection s.isheartbeat) s.connection;
  }

  -- The io loop's mission up to `SubmitAndWait`.
  unfoldable pub establish : ℕ → TcpServer → TcpServer
  unfolding next_for made_connection copy_assign
  establish l s = begun l (next_for l s.submitted) s

abbrev pub is_some_at : Option ℕ → ℕ → Bool
is_some_at none id = false
is_some_at (some i) id = i == id

abbrev pub ran : List Mission → TcpServer → TcpServer
ran [] s = s
ran (inserts id ∷ l) s = record s {
  missions = l;
  tcpst = insert id s.tcpst;
  blocked = λ k. if is_some_at (s.blocked k) id then none else s.blocked k;
  phase = at id served s.phase;
  connection = at id (set_close_callback (s.connection id)) s.connection;
}
ran (erases id ∷ l) s = record s { missions = l; tcpst = erase id s.tcpst }

-- The base loop's next mission. An insertion releases the io loop that waits for it, which sets the
-- connection's close callback.
unfoldable pub run_base : TcpServer → TcpServer
unfolding insert erase set_close_callback
run_base s = ran s.missions s

-- As many missions to erase the connection as its close callback was called.
abbrev pub erasures : ℕ → ℕ → List Mission
erasures id zero = []
erasures id (suc n) = erases id ∷ erasures id n

-- The connection's loop lets it work: the user's callback for new connections, `Activate`, or what its
-- channel or its user asks for. Each call of its close callback submits its erasure to the base loop.
unfoldable pub work : ℕ → Life.Op → TcpServer → TcpServer
unfolding Life.step
work id op s =
    let c = s.connection id in
    let d = Life.step op c in
    record s {
      connection = at id d s.connection;
      missions = s.missions ++ erasures id (times_called d.tells - times_called c.tells);
    }
