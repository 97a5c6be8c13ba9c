-- ===== src/Proc.antt =====
-- Threads, locks and messages: kernel/proc/, with the timer that switches threads.
pub mod Message
pub mod Mutex
pub mod Thread
pub mod Timer
