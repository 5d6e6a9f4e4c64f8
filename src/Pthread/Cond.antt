-- ===== src/Pthread/Cond.antt =====
-- The condition-variable functions.
pub mod Wait
pub mod Lifetime
pub mod Timeout
use fake_libc.Common.{ℕ, ◌+◌, ◌-◌, ◌%◌, ◌&&◌, ◌≤◌, leb, ltb, ◌==◌, if◌then◌else◌}
use fake_libc.Pthread.Glibc.{
  Glibc, World, Object, Timespec, Call, load, store, invoke, allocate, now, local, pointer,
  cond_init, cond_signal, cond_broadcast, cond_destroy, cond_wait, cond_timedwait,
}
use fake_libc.Pthread.Mutex.{real_mutex, top_addr_value, einval}

-- `tv`, after the relative time has been added to it. Both fields are the patterns of signed 32-bit
-- words, and the sums wrap around; the comparison is that of signed words.
pub add_relative : Timespec → Timespec → Timespec
add_relative tv reltime =
    let sec = (tv.tv_sec + reltime.tv_sec) % 4294967296 in
    let nsec = (tv.tv_nsec + reltime.tv_nsec) % 4294967296 in
    if leb 1000000000 nsec && ltb nsec 0x80000000
    then record { tv_sec = (sec + 1) % 4294967296; tv_nsec = nsec - 1000000000 }
    else record { tv_sec = sec; tv_nsec = nsec }

module _ {G : Glibc} where
  unfoldable hybris_alloc_init_cond : World G → ℕ × World G
  hybris_alloc_init_cond w =
      let (realcond, w') = allocate Object.cond w in
      let (_, w'') = invoke (cond_init realcond (local 0)) w' in (realcond, w'')

  -- The translation of a condition variable's word.
  unfoldable pub real_cond : ℕ → ℕ → World G → ℕ × World G
  unfolding hybris_alloc_init_cond
  real_cond cond cvalue w =
      if leb cvalue top_addr_value
      then (let (realcond, w') = hybris_alloc_init_cond w in (realcond, store cond realcond w'))
      else (cvalue, w)

  -- Both words are read before either object is translated.
  unfoldable pub pthread_cond_wait : ℕ → ℕ → World G → ℕ × World G
  pthread_cond_wait cond mutex w =
      let (realcond, w') = real_cond cond (load cond w) w in
      let (realmutex, w'') = real_mutex mutex (load mutex w) w' in
      invoke (cond_wait realcond realmutex) w''

  unfoldable pub pthread_cond_timedwait : ℕ → ℕ → Timespec → World G → ℕ × World G
  pthread_cond_timedwait cond mutex abstime w =
      let (realcond, w') = real_cond cond (load cond w) w in
      let (realmutex, w'') = real_mutex mutex (load mutex w) w' in
      invoke (cond_timedwait realcond realmutex abstime) w''

  unfoldable pub pthread_cond_timedwait_relative_np : ℕ → ℕ → Timespec → World G → ℕ × World G
  pthread_cond_timedwait_relative_np cond mutex reltime w =
      let (realcond, w') = real_cond cond (load cond w) w in
      let (realmutex, w'') = real_mutex mutex (load mutex w) w' in
      let (tv, w''') = now w'' in
      invoke (cond_timedwait realcond realmutex (add_relative tv reltime)) w'''

  unfoldable pub pthread_cond_signal : ℕ → World G → ℕ × World G
  pthread_cond_signal cond w =
      let (realcond, w') = real_cond cond (load cond w) w in invoke (cond_signal realcond) w'

  unfoldable pub pthread_cond_broadcast : ℕ → World G → ℕ × World G
  pthread_cond_broadcast cond w =
      let (realcond, w') = real_cond cond (load cond w) w in invoke (cond_broadcast realcond) w'

  -- `ret` is never assigned: the first argument is what stands in it.
  unfoldable pub pthread_cond_destroy : ℕ → ℕ → World G → ℕ × World G
  pthread_cond_destroy ret cond w =
      if load cond w == 0
      then (einval, w)
      else (let (_, w') = invoke (cond_destroy (load cond w)) w in (ret, store cond 0 w'))

  unfoldable pub pthread_cond_init : ℕ → ℕ → World G → ℕ × World G
  pthread_cond_init cond attr w =
      let (realcond, w') = allocate Object.cond w in
      invoke (cond_init realcond (pointer attr)) (store cond realcond w')
