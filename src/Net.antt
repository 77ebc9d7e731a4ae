-- ===== src/Net.antt =====
-- The connections of the reactor: src/channel.cpp, src/epoll.cpp and src/tcpconnection.cpp.
pub mod Channel
pub mod Connection
pub mod Address
pub mod Socket
pub mod Acceptor
pub mod Server
mod Tests
