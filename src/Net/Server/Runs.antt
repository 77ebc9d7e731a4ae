-- ===== src/Net/Server/Runs.antt =====
-- The runs of the server of src/tcpserver.cpp: one step of one thread after another. A loop that waits
-- starts no mission; that it lets no connection work either is left open, which allows more runs.
-- `Start` waits for the mutex while `Close` runs; after it, there is no base loop.
use reactor_learn.Prelude.{ℕ, ◌≡◌, Bool, true, false, none, some}
use reactor_learn.Kv.ByteOrder.{Host}
use reactor_learn.Net.Address.{InetAddress, InetText}
use reactor_learn.Net.Channel.{Epoll}
use reactor_learn.Net.Connection.Life.{Op}
use reactor_learn.Net.Server.{
  TcpServer, served, set_sub_thread_num, start_server, CloseEvent, close_step, not_closing,
  new_connection, establish, run_base, work,
}

module _ (text : InetText) (host : Host) where
  pub data Step : TcpServer → TcpServer → Type 0 where
    arrives :
        (fd : ℕ) (addr : InetAddress) (s : TcpServer)
        → s.shutdown.base_running ≡ true
        → Step s (new_connection text host (some fd) addr 0 s)
    refuses :
        (addr : InetAddress) (errno : ℕ) (s : TcpServer)
        → s.shutdown.base_running ≡ true
        → Step s (new_connection text host none addr errno s)
    establishes :
        (l : ℕ) (s : TcpServer)
        → s.blocked l ≡ none
        → s.shutdown.ended l ≡ false
        → Step s (establish text host l s)
    runs_base : (s : TcpServer) → s.shutdown.base_running ≡ true → Step s (run_base s)
    works : (id : ℕ) (op : Op) (s : TcpServer) → s.phase id ≡ served → Step s (work id op s)
    sets_size : (num : ℕ) (s : TcpServer) → Step s (set_sub_thread_num num s)
    starts :
        (loop : ℕ → ℕ) (answer : ℕ) (ok : Bool) (e : Epoll) (s : TcpServer)
        → s.shutdown.progress ≡ not_closing
        → Step s (start_server loop answer ok e s).0
    closes : (event : CloseEvent) (s : TcpServer) → Step s (close_step event s)

  pub data Reach : TcpServer → TcpServer → Type 0 where
    here : (s : TcpServer) → Reach s s
    after : (s t u : TcpServer) → Reach s t → Step t u → Reach s u
