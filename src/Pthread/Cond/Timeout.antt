-- ===== src/Pthread/Cond/Timeout.antt =====
-- The absolute time that a relative timeout becomes.
use fake_libc.Common.{ℕ, ◌+◌, ◌*◌, ◌<◌, ◌≤◌, ◌≡◌, ◌⊎◌, arith}
use fake_libc.Pthread.Glibc.{Timespec}
use fake_libc.Pthread.Cond.{add_relative}

-- The nanoseconds that a time with nonnegative fields stands for.
abbrev pub nanoseconds : Timespec → ℕ
nanoseconds tv = tv.tv_sec * 1000000000 + tv.tv_nsec

-- Both fields are signed 32-bit words. When both times are normalised and their seconds are not
-- negative, the nanoseconds of the result stay below a second; and either the two times together
-- are less than 2 ^ 31 seconds, and the result stands for exactly their sum, or they are not,
-- and the seconds that glibc is given have the sign bit set: the time has become negative.
pub add_relative-sum :
    (tv reltime : Timespec)
    → tv.tv_nsec < 1000000000
    → reltime.tv_nsec < 1000000000
    → tv.tv_sec < 0x80000000
    → reltime.tv_sec < 0x80000000
    → ((add_relative tv reltime).tv_nsec < 1000000000)
      × (((nanoseconds tv + nanoseconds reltime < 0x80000000 * 1000000000)
            × ((add_relative tv reltime).tv_sec < 0x80000000)
            × (nanoseconds (add_relative tv reltime) ≡ nanoseconds tv + nanoseconds reltime))
          ⊎ ((0x80000000 * 1000000000 ≤ nanoseconds tv + nanoseconds reltime)
              × (0x80000000 ≤ (add_relative tv reltime).tv_sec)
              × ((add_relative tv reltime).tv_sec < 4294967296)))
unfolding add_relative
add_relative-sum tv reltime a b c d = ground arith
