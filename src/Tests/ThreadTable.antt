-- ===== src/Tests/ThreadTable.antt =====
-- The thread table with a few threads.
use fake_libc.Common.{◌≡◌, refl, [], ◌∷◌, arith}
use fake_libc.ThreadTable.{Table, row, thread_to_tid, my_settid_to_thread, my_gettid_from_thread}
use fake_libc.ThreadTable.Lookup.{has_free, has_thread, gettid-settid}
use fake_libc.ThreadTable.Capacity.{gettid-settid_second}

abbrev small : Table
small = row 0 0 ∷ row 41 1001 ∷ row 0 0 ∷ []

fills_all : my_settid_to_thread 1002 42 small ≡ row 42 1002 ∷ row 41 1001 ∷ row 42 1002 ∷ []
unfolding my_settid_to_thread
fills_all = refl

finds : my_gettid_from_thread 1001 (my_settid_to_thread 1002 42 small) ≡ 41
unfolding my_settid_to_thread my_gettid_from_thread
finds = refl

gettid-settid_example : my_gettid_from_thread 1002 (my_settid_to_thread 1002 42 thread_to_tid) ≡ 42
unfolding thread_to_tid has_thread has_free
gettid-settid_example = gettid-settid 1002 42 thread_to_tid (omega arith) refl refl

gettid-settid_second_example :
    my_gettid_from_thread 1003
      (my_settid_to_thread 1003 43 (my_settid_to_thread 1002 42 thread_to_tid))
    ≡ 0
unfolding thread_to_tid has_thread
gettid-settid_second_example =
    gettid-settid_second 1002 1003 42 43 thread_to_tid (omega arith) (omega arith) (omega arith)
      refl
