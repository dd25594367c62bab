-- ===== src/Base.antt =====
-- Fish/base and source/base: files, times, locks, loops, the timer wheel and the queue.
pub mod FileRead
pub mod LocalMessage
pub mod Loop
pub mod Mutex
pub mod SafeQueue
pub mod TimePoint
pub mod Timer
