-- ===== src/Log.antt =====
-- xv6/log.c: the redo log, over the disk and the buffer cache that it writes through.
pub mod Disk
pub mod Commit
pub mod Transaction
mod Tests
