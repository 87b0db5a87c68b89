-- ===== src/Timer.antt =====
-- Timers: sys/syscall/timer.c.
pub mod Links
pub mod Count
pub mod Clock
