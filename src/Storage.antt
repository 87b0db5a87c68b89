-- ===== src/Storage.antt =====
-- Files of sys/storage.
pub mod Bin
pub mod Xin
