-- ===== src/Pthread/Cond/Wait.antt =====
-- What a wait does to the words of a condition variable and of a mutex.
use fake_libc.Common.{ℕ, ◌<◌, ◌≡◌, ◌≢◌, refl, sym, ◌∙◌, arith}
use fake_libc.Pthread.Glibc.{
  Glibc, AllocatesHigh, World, Object, Timespec, load, store, invoke, allocate, now, cond_signal,
  cond_broadcast, cond_wait, cond_timedwait,
}
use fake_libc.Pthread.Mutex.{real_mutex}
use fake_libc.Pthread.Mutex.Translation.{real_mutex-stores}
use fake_libc.Pthread.Cond.{
  real_cond, pthread_cond_wait, pthread_cond_timedwait, pthread_cond_timedwait_relative_np,
  pthread_cond_signal, pthread_cond_broadcast, add_relative,
}

module _ {G : Glibc} where
  -- The state in which glibc's wait is called.
  unfoldable pub both_translated : ℕ → ℕ → World G → World G
  both_translated c m w = (real_mutex m (load m w) (real_cond c (load c w) w).1).1

module _ {G : Glibc} (high : AllocatesHigh G) where
  open high use {above, word}

  -- The translation of a condition variable, as that of a mutex.
  real_cond-stores :
      (c : ℕ) (w : World G)
      → (0xFFFF < load c (real_cond c (load c w) w).1)
        × ((real_cond c (load c w) w).0 ≡ load c (real_cond c (load c w) w).1)
        × ((b : ℕ) → b ≢ c → load b (real_cond c (load c w) w).1 ≡ load b w)
  unfolding real_cond store invoke allocate
  real_cond-stores c w = (
    ground (arith, above Object.cond w.host, word Object.cond w.host),
    ground (arith, above Object.cond w.host, word Object.cond w.host),
    λ b ne. ground arith,
  )

  both_translated-words :
      (c m : ℕ) (w : World G)
      → c ≢ m
      → let w' = both_translated c m w in
        (0xFFFF < load c w')
        × (0xFFFF < load m w')
        × ((real_cond c (load c w) w).0 ≡ load c w')
        × ((real_mutex m (load m w) (real_cond c (load c w) w).1).0 ≡ load m w')
        × ((b : ℕ) → b ≢ c → b ≢ m → load b w' ≡ load b w)
  unfolding both_translated
  both_translated-words c m w ne =
      let (c_high, c_word, c_same) = real_cond-stores c w in
      let w1 = (real_cond c (load c w) w).1 in
      let e : load m w1 ≡ load m w = c_same m (λ x. ne (sym x)) in
      let (m_high, m_word, m_same) = real_mutex-stores high m (load m w) w1 e in
      (
        ground (arith, m_same c ne),
        m_high,
        c_word ∙ sym (m_same c ne),
        m_word,
        λ b bc bm. m_same b bm ∙ c_same b bc,
      )

  -- If malloc answers words above 0xFFFF: a wait on a condition variable and a mutex, distinct,
  -- translates both: their words then hold handles above the static initialisers, no other word
  -- changes, and glibc waits on these two handles, without a time, for the caller's time, or for
  -- the sum of the clock's time and the relative time.
  pub wait-translates :
      (c m : ℕ) (time : Timespec) (w : World G)
      → c ≢ m
      → let w' = both_translated c m w in
        (0xFFFF < load c w')
        × (0xFFFF < load m w')
        × ((b : ℕ) → b ≢ c → b ≢ m → load b w' ≡ load b w)
        × (pthread_cond_wait c m w ≡ invoke (cond_wait (load c w') (load m w')) w')
        × (pthread_cond_timedwait c m time w
            ≡ invoke (cond_timedwait (load c w') (load m w') time) w')
        × (pthread_cond_timedwait_relative_np c m time w
            ≡ invoke
                (cond_timedwait (load c w') (load m w') (add_relative (now w').0 time))
                (now w').1)
  unfolding pthread_cond_wait pthread_cond_timedwait pthread_cond_timedwait_relative_np invoke
      real_cond real_mutex both_translated
  wait-translates c m time w ne =
      let (c_high, m_high, c_word, m_word, same) = both_translated-words c m w ne in
      (c_high, m_high, same, cc, cc, cc)

  -- If malloc answers words above 0xFFFF: a signal and a broadcast after a wait reach the
  -- condition variable that was waited on, and translate nothing.
  pub signal-wait :
      (c m : ℕ) (w : World G)
      → c ≢ m
      → let w1 = (pthread_cond_wait c m w).1 in
        (load c w1 ≡ load c (both_translated c m w))
        × (pthread_cond_signal c w1 ≡ invoke (cond_signal (load c w1)) w1)
        × (pthread_cond_broadcast c w1 ≡ invoke (cond_broadcast (load c w1)) w1)
  unfolding pthread_cond_wait pthread_cond_signal pthread_cond_broadcast real_cond invoke
      both_translated
  signal-wait c m w ne =
      let (c_high, m_high, c_word, m_word, same) = both_translated-words c m w ne in
      (refl, ground arith, ground arith)
