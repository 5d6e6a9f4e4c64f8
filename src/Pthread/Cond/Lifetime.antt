-- ===== src/Pthread/Cond/Lifetime.antt =====
-- What the destruction of a condition variable leaves.
use fake_libc.Common.{if◌then◌else◌, ◌==◌, ℕ, ◌≡◌, ◌≢◌, arith}
use fake_libc.Pthread.Glibc.{
  Glibc, AllocatesHigh, World, Object, load, store, invoke, allocate, cond_signal,
}
use fake_libc.Pthread.Mutex.{einval}
use fake_libc.Pthread.Cond.{real_cond, pthread_cond_signal, pthread_cond_destroy, pthread_cond_init}

module _ {G : Glibc} where
  -- Destroying a condition variable answers EINVAL if its word is 0, and what stood in the
  -- uninitialised ret if not, whatever glibc answered; its word is 0 afterwards, no other word
  -- changes, and destroying it once more answers EINVAL and changes nothing.
  pub destroy-answers :
      (ret ret' c : ℕ) (w : World G)
      → ((pthread_cond_destroy ret c w).0 ≡ (if load c w == 0 then einval else ret))
        × ((b : ℕ) → b ≢ c → load b (pthread_cond_destroy ret c w).1 ≡ load b w)
        × (load c (pthread_cond_destroy ret c w).1 ≡ 0)
        × (pthread_cond_destroy ret' c (pthread_cond_destroy ret c w).1
            ≡ (einval, (pthread_cond_destroy ret c w).1))
  unfolding pthread_cond_destroy invoke store
  destroy-answers ret ret' c w = (ground arith, λ b ne. ground arith, ground arith, ground arith)

module _ {G : Glibc} (high : AllocatesHigh G) where
  open high use {above, word}

  -- If malloc answers words above 0xFFFF: an initialised condition variable is signalled through
  -- the object that pthread_cond_init made; after its destruction a signal makes a new object,
  -- whose address is then in its word.
  pub init-destroy-signal :
      (c attr ret : ℕ) (w : World G)
      → let w1 = (pthread_cond_init c attr w).1 in
        let w2 = (pthread_cond_destroy ret c w1).1 in
        (load c w1 ≡ (allocate Object.cond w).0)
        × (pthread_cond_signal c w1 ≡ invoke (cond_signal (load c w1)) w1)
        × (load c (pthread_cond_signal c w2).1 ≡ (allocate Object.cond w2).0)
  unfolding pthread_cond_init pthread_cond_destroy pthread_cond_signal real_cond invoke store
      allocate
  init-destroy-signal c attr ret w =
      let w2 = (pthread_cond_destroy ret c (pthread_cond_init c attr w).1).1 in
      (
        ground (arith, above Object.cond w.host, word Object.cond w.host),
        ground (arith, above Object.cond w.host, word Object.cond w.host),
        ground (
          arith,
          above Object.cond w.host,
          word Object.cond w.host,
          above Object.cond w2.host,
          word Object.cond w2.host,
        ),
      )
