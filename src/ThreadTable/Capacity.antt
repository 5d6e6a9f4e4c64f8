-- ===== src/ThreadTable/Capacity.antt =====
-- How many threads the table holds: entering one fills every free row.
use fake_libc.Common.{ℕ, ◌≡◌, ◌≢◌, refl, false, [], ◌∷◌, arith}
use fake_libc.ThreadTable.{Table, my_settid_to_thread, my_gettid_from_thread}
use fake_libc.ThreadTable.Lookup.{has_free, has_thread, gettid-settid_other}

-- Entering a thread leaves no row free.
has_free-settid :
    (t tid : ℕ) (table : Table) → t ≢ 0 → has_free (my_settid_to_thread t tid table) ≡ false
unfolding my_settid_to_thread has_free
has_free-settid t tid [] pos = refl
has_free-settid t tid (e ∷ table) pos = ground (arith, has_free-settid t tid table pos)

-- A table with no free row does not take a thread.
settid-full :
    (t tid : ℕ) (table : Table) → has_free table ≡ false → my_settid_to_thread t tid table ≡ table
unfolding my_settid_to_thread has_free
settid-full t tid [] full = refl
settid-full t tid (e ∷ table) full = ground (arith, settid-full t tid table)

gettid-absent :
    (t : ℕ) (table : Table) → has_thread t table ≡ false → my_gettid_from_thread t table ≡ 0
unfolding my_gettid_from_thread has_thread
gettid-absent t [] new = refl
gettid-absent t (e ∷ table) new = ground (arith, gettid-absent t table)

-- Of two distinct threads, with handles that are not 0, the second one, if it has no row yet, is
-- not recorded when it is entered behind the first: its id reads as 0, whatever the size of the
-- table.
pub gettid-settid_second :
    (t u tid uid : ℕ) (table : Table)
    → t ≢ 0
    → u ≢ 0
    → u ≢ t
    → has_thread u table ≡ false
    → my_gettid_from_thread u (my_settid_to_thread u uid (my_settid_to_thread t tid table)) ≡ 0
gettid-settid_second t u tid uid table pt pu ne new =
    rw
      (
        settid-full u uid (my_settid_to_thread t tid table) (has_free-settid t tid table pt),
        gettid-settid_other t tid u table pu ne,
      )
      (gettid-absent u table new)
