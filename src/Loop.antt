-- ===== src/Loop.antt =====
-- The event loops: src/eventloop.cpp, src/eventloopthreadpool.cpp and src/timer/timer.cpp.
pub mod Pool
pub mod Timer
pub mod Missions
pub mod Thread
mod Tests
