-- ===== src/Helpers.antt =====
-- helpers.c: what glibc's directory entries and address lists are turned into for bionic code.
pub mod Dirent
pub mod Addrinfo
