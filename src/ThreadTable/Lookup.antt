-- ===== src/ThreadTable/Lookup.antt =====
-- What a look-up finds after a thread has been entered and after it has been removed.
use fake_libc.Common.{
  ℕ, ◌≡◌, ◌≢◌, ◌==◌, refl, Bool, true, false, ◌||◌, [], ◌∷◌, arith, if◌then◌else◌,
}
use fake_libc.ThreadTable.{Table, is_free, my_settid_to_thread, my_gettid_from_thread, my_remtid}

-- Some row is free; some row is the thread's.
unfoldable pub has_free : Table → Bool
unfolding is_free
has_free [] = false
has_free (e ∷ table) = is_free e || has_free table

unfoldable pub has_thread : ℕ → Table → Bool
has_thread t [] = false
has_thread t (e ∷ table) = e.t == t || has_thread t table

-- While a row is free, a thread whose handle is not 0 and which has no row yet is found with the
-- id that it was entered with.
pub gettid-settid :
    (t tid : ℕ) (table : Table)
    → t ≢ 0
    → has_thread t table ≡ false
    → has_free table ≡ true
    → my_gettid_from_thread t (my_settid_to_thread t tid table) ≡ tid
unfolding my_gettid_from_thread my_settid_to_thread has_thread has_free
gettid-settid t tid [] pos new room = ground arith
gettid-settid t tid (e ∷ table) pos new room = ground (arith, gettid-settid t tid table pos)

-- Entering a thread changes nothing for any thread that has a row.
pub gettid-settid_other :
    (t tid u : ℕ) (table : Table)
    → u ≢ 0
    → u ≢ t
    → my_gettid_from_thread u (my_settid_to_thread t tid table) ≡ my_gettid_from_thread u table
unfolding my_gettid_from_thread my_settid_to_thread
gettid-settid_other t tid u [] pos ne = refl
gettid-settid_other t tid u (e ∷ table) pos ne =
    ground (arith, gettid-settid_other t tid u table pos ne)

-- After its removal a thread is not found, and the other threads are found as before, for
-- look-ups of handles that are not 0.
pub gettid-remtid :
    (t u : ℕ) (table : Table)
    → u ≢ 0
    → my_gettid_from_thread u (my_remtid t table)
      ≡ (if t == u then 0 else my_gettid_from_thread u table)
unfolding my_gettid_from_thread my_remtid
gettid-remtid t u [] pos = ground arith
gettid-remtid t u (e ∷ table) pos = ground (arith, gettid-remtid t u table pos)

-- Entering and then removing a thread that had no row, and whose handle is not 0, gives the
-- table back.
pub remtid-settid :
    (t tid : ℕ) (table : Table)
    → t ≢ 0
    → has_thread t table ≡ false
    → my_remtid t (my_settid_to_thread t tid table) ≡ table
unfolding my_remtid my_settid_to_thread has_thread
remtid-settid t tid [] pos new = refl
remtid-settid t tid (e ∷ table) pos new = ground (arith, remtid-settid t tid table pos)
