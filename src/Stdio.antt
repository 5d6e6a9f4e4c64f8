-- ===== src/Stdio.antt =====
-- The wrappers of fake_libc.c around glibc's standard functions, over the lazy loading of `Loader`.
pub mod Narrow
pub mod Wide
pub mod Formatted
pub mod Numbers
pub mod Forwarding
pub mod Irregular
