-- ===== src/ThreadTable.antt =====
-- pthread_gettid_helpers.cpp: the table from thread handles to kernel thread ids, which the start
-- routine of `pthread_create` fills and `pthread_gettid_np` reads. Each of the three functions runs
-- wholly under the table's mutex, so the model has them as single steps on the array.
pub mod Lookup
pub mod Capacity
use fake_libc.Common.{
  ℕ, suc, ◌==◌, if◌then◌else◌, Bool, ◌&&◌, List, [], ◌∷◌, map, true, false, replicate,
}

-- `thread_to_tid_t`; a row of zeros is free.
pub record ThreadToTid : Type 0 where
  pub tid : ℕ
  pub t : ℕ

abbrev pub row : ℕ → ℕ → ThreadToTid
row tid t = record { tid = tid; t = t }

abbrev pub Table : Type 0
Table = List ThreadToTid

-- `thread_to_tid[512] = {{0,0}}`.
unfoldable pub thread_to_tid : Table
thread_to_tid = replicate 512 (row 0 0)

unfoldable pub is_free : ThreadToTid → Bool
is_free e = e.tid == 0 && e.t == 0

-- One round of the loop of `my_settid_to_thread`, which goes on after a hit.
unfoldable settid_round : ℕ → ℕ → ThreadToTid → ThreadToTid
unfolding is_free
settid_round t tid e = if is_free e then row tid t else e

unfoldable pub my_settid_to_thread : ℕ → ℕ → Table → Table
unfolding settid_round
my_settid_to_thread t tid table = map (settid_round t tid) table

-- The loop stops at the first row of the thread; the initial value of `tid` is 0.
unfoldable pub my_gettid_from_thread : ℕ → Table → ℕ
my_gettid_from_thread t [] = 0
my_gettid_from_thread t (e ∷ table) = if e.t == t then e.tid else my_gettid_from_thread t table

unfoldable remtid_round : ℕ → ThreadToTid → ThreadToTid
remtid_round t e = if e.t == t then row 0 0 else e

unfoldable pub my_remtid : ℕ → Table → Table
unfolding remtid_round
my_remtid t table = map (remtid_round t) table
