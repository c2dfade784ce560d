-- ===== src/Priority.antt =====
-- xv6/spinlock.c: the lock that goes to the waiting process with the largest pid.
pub mod Queue
pub mod Order
pub mod Steps
pub mod Safety
mod Tests
