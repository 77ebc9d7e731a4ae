-- ===== src/Lib.antt =====
-- A reactor network library in C++ and the key-value server on it.
--
-- The program. An event loop per thread polls its channels; a TcpConnection reads from its socket into
-- a Buffer (src/buffer.cpp) and calls its message callback. KVServer (src/kv/kvserver.cpp) gives each
-- connection a callback that takes packets out of the buffer by the four functions of a KVService
-- (src/kv/kvservice.cpp), which decode packets and requests by ProtocolCodec (src/kv/protocolcodec.cpp),
-- run them on a KVStore (src/kv/kvstore.cpp), and encode the answer for TcpConnection::Write.
--
-- The files.
-- - Prelude: lists on native numbers, Boolean tests, and the names that all modules share.
-- - Buffer: the class Buffer; `read_fd`, `write_fd`, `write_buffer`, `write_chars` (the overload for a
--   pointer), `read_all`, `read_buffer`, `move_ptr`, `expand` and `peek_unsigned_int` are its methods.
--   A system call's result is an argument of type Io. Its children: Invariant (the validity of a
--   buffer and the bytes that it holds), Write, Receive, Read, Queue (the abstract queue of bytes).
-- - Kv.ByteOrder: NToH, HToN and IsBigEnd, on a host of either order.
-- - Kv.Protocol: the constants and structures. Kv.Reader: WriteFlowToHost, ReadBodyInteger,
--   ReadBodyString, and the monad of a decoder with its offset and output; an early `return false`
--   leaves the output as far as it was written.
-- - Kv.Flow: DecodeFlowToPacket and EncodePacketToFlow, each in both overloads. Kv.Body: AppendBytes
--   and AppendHostInteger. Kv.Request: EncodeKVRequestToPacket and DecodePacketToKVRequest.
--   Kv.Response: EncodeKVResponseToPacket and DecodePacketToKVResponse.
-- - Kv.Store: KVStore::Get, Put and Del (`get`, `put`, `del`; behind the tests for null pointers
--   `get_entry`, `put_entry`, `del_entry`). Kv.Store.Refine: the store as a function of keys.
-- - Kv.Service: kDefaultHeadCheck, kDefaultShouldGet, kDefaultBodyCheck, kDefaultShouldEcho and
--   KVService::ShouldEcho. Kv.Server: the callback, one `turn` for each round of its loop, with what
--   it asks of the connection as a list of effects; Kv.Server.Hosted runs it in a connection, and
--   Kv.Server.Launch is the constructor of KVServer.
-- - Net.Channel: Channel and Epoll; Net.Channel.Registration: what the kernel watches. Net.Connection:
--   TcpConnection in its loop's thread (`close_in_thread`, `write_in_thread`, `write_fd`, `read`, ...);
--   its children are about its output, its closing and the callback of that (Closing, Calling), and any
--   sequence of its operations (Life); Dispatch is
--   what its channel runs, and Echo the message callback that the constructor sets.
-- - Log: Logger (a line) and AsyncLogging (`append`, and the parts of the back end's loop: `collect`, `written`,
--   `reuse`); its children: Buffers, Append, Line, Stream for any interleaving of threads, Format for the
--   overloads of `operator<<` and Logger's constructor, and Shutdown for the destructor of AsyncLogging.
-- - Loop.Pool: EventLoopThreadPool (`get_one_thread`, `start_pool`, `close_pool`, `set_size`).
--   Loop.Timer: Timer (`tick`, `insert_in_thread`); its children: Wheel, Expiry, Gone, Reading
--   (the constructor, and the callback of its descriptor), and Heartbeat,
--   where a HeartBeatObj that leaves the wheel closes its connection.
--   Loop.Missions: EventLoop::Submit (`submit`) and DoCrossThreadMission. Loop.Thread: the thread of
--   EventLoopThread with EventLoop::Loop (`thread_step`) and StopLoop, its place in the code as a state;
--   Loop.Thread.Stopping: what a stop does by that place; Loop.Thread.Waiting: SubmitAndWait.
-- - Net.Address: INetAddress, on the C library's text forms as a parameter. Net.Socket: Socket, and in
--   Net.Socket.Owned the closing of descriptors. Net.Acceptor: Acceptor, with `accept_loop` on the
--   answers of the kernel.
-- - Net.Server: TcpServer. Its operations are `make`, `set_sub_thread_num`, `start_server`, `close_step` and
--   the callback `new_connection`; the mission that it gives to an io loop is split where it waits for
--   the base loop, into `establish` and what `run_base` lets follow, and `work` is what a connection does
--   then. Net.Server.Runs: any interleaving of these. Its other children: Dealing (which loop gets a
--   connection), Tracking (the set of connections), Released and Blocking (who waits), Peer.
--
-- Bounds. The buffer's pointers are ints; its theorems are for fewer than 2 ^ 31 bytes, beyond which the
-- code overflows. Packets are shorter than 2 ^ 64 bytes. The callback's loop runs on fuel: one round for
-- each 24 bytes that are held, and one to see that no header is left; a round that goes on
-- takes a header. `stuck` stands for the end of the fuel. The default callback of a connection has one
-- round for each four bytes that are held and one more. The back end's thread ends at most eight steps after it
-- was told to.
--
-- Not modelled. Threads: the store's operations run under its mutex, so an interleaving of threads is
-- a sequence of calls. Memory exhaustion, and exceptions of user functions other than the one that
-- Buffer::ReadBuffer throws. Integers of a local structure that the code has not written yet are 0 in
-- the model; the code reads none of them. What the kernel answers is an argument of the operations; the
-- C library's inet_pton and inet_ntop are a parameter. In a run of the server, a loop that waits may still
-- let its connections work, which only adds runs.
pub mod Prelude
pub mod Buffer
pub mod Kv
pub mod Net
pub mod Log
pub mod Loop
