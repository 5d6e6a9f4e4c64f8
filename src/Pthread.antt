-- ===== src/Pthread.antt =====
-- The pthread functions of fake_libc.c. A bionic mutex, condition variable or attribute object is one
-- word of memory, which holds the address of a glibc object, or, up to 0xFFFF, a static initialiser.
-- The functions translate it and call glibc. glibc is a parameter: its state, `malloc`, the clock, and
-- one function for all its calls on objects. The look-ups of glibc's symbols before the calls are those
-- of Loader, and are left out here.
pub mod Glibc
pub mod Mutex
pub mod Cond
pub mod Attr
pub mod Bindings
pub mod Create
