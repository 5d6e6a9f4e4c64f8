-- ===== src/Sysconf.antt =====
-- `sysconf` of fake_libc.c: bionic's numbers of the queries are translated to glibc's.
pub mod Table
pub mod Translation
pub mod Designators
pub mod Forwarding
