-- ===== src/Pthread/Mutex/Translation.antt =====
-- What the mutex functions do to the word of a mutex and to glibc.
use fake_libc.Common.{ℕ, ◌≤◌, ◌<◌, ◌≡◌, ◌≢◌, arith}
use fake_libc.Pthread.Glibc.{
  Glibc, AllocatesHigh, World, Object, load, store, invoke, allocate, local, mutex_init, mutex_lock,
  mutex_unlock, mutex_trylock, mutex_destroy,
}
use fake_libc.Pthread.Mutex.{
  real_mutex, hybris_set_mutex_attr, pthread_mutex_lock, pthread_mutex_unlock,
  pthread_mutex_trylock, pthread_mutex_init, pthread_mutex_destroy,
}

module _ {G : Glibc} where
  -- A mutex whose word holds a handle is locked through it.
  pub lock-bound :
      (a : ℕ) (w : World G)
      → 0xFFFF < load a w
      → pthread_mutex_lock a w ≡ invoke (mutex_lock (load a w)) w
  unfolding pthread_mutex_lock
  lock-bound a w h = ground arith

module _ {G : Glibc} (high : AllocatesHigh G) where
  open high use {above, word}

  -- The translation answers the handle that it leaves in the mutex's word, a handle is above the
  -- static initialisers, and no other word changes.
  pub real_mutex-stores :
      (a v : ℕ) (w : World G)
      → load a w ≡ v
      → (0xFFFF < load a (real_mutex a v w).1)
        × ((real_mutex a v w).0 ≡ load a (real_mutex a v w).1)
        × ((b : ℕ) → b ≢ a → load b (real_mutex a v w).1 ≡ load b w)
  unfolding real_mutex store invoke allocate
  real_mutex-stores a v w e = (
    ground (arith, above Object.mutex w.host, word Object.mutex w.host),
    ground (arith, above Object.mutex w.host, word Object.mutex w.host),
    λ b ne. ground arith,
  )

  -- If malloc answers words above 0xFFFF: after a lock the mutex's word holds a handle above the
  -- static initialisers, no other word has changed, and a second lock and an unlock call glibc
  -- on this handle and translate nothing.
  pub lock-translates :
      (a : ℕ) (w : World G)
      → (0xFFFF < load a (pthread_mutex_lock a w).1)
        × ((b : ℕ) → b ≢ a → load b (pthread_mutex_lock a w).1 ≡ load b w)
        × (pthread_mutex_lock a (pthread_mutex_lock a w).1
            ≡ invoke (mutex_lock (load a (pthread_mutex_lock a w).1)) (pthread_mutex_lock a w).1)
        × (pthread_mutex_unlock a (pthread_mutex_lock a w).1
            ≡ invoke (mutex_unlock (load a (pthread_mutex_lock a w).1)) (pthread_mutex_lock a w).1)
  unfolding pthread_mutex_lock pthread_mutex_unlock invoke store allocate
  lock-translates a w = (
    ground (arith, above Object.mutex w.host, word Object.mutex w.host),
    λ b ne. ground arith,
    ground (arith, above Object.mutex w.host, word Object.mutex w.host),
    ground (arith, above Object.mutex w.host, word Object.mutex w.host),
  )

-- The static initialisers of bionic's header, and the types that they stand for.
pub data Kind : Type 0 where
  plain recursive_kind errorcheck_kind : Kind

unfoldable pub initializer : Kind → ℕ
initializer plain = 0
initializer recursive_kind = 0x4000
initializer errorcheck_kind = 0x8000

unfoldable pub type_of : Kind → ℕ
type_of plain = 0
type_of recursive_kind = 1
type_of errorcheck_kind = 2

module _ {G : Glibc} (high : AllocatesHigh G) where
  open high use {above, word}

  -- If malloc answers words above 0xFFFF: the first lock of a statically initialised mutex
  -- (plain, recursive or error-checking) allocates an object, initialises it with the type that
  -- the initialiser stands for, stores its address in the mutex's word and locks it.
  pub lock-initializer :
      (k : Kind) (a : ℕ) (w : World G)
      → load a w ≡ initializer k
      → let (p, w1) = allocate Object.mutex w in
        pthread_mutex_lock a w
        ≡ invoke (mutex_lock p) (store a p (invoke (mutex_init p (local (type_of k))) w1).1)
  unfolding pthread_mutex_lock invoke store allocate hybris_set_mutex_attr initializer type_of
  lock-initializer plain a w h = ground (arith, above Object.mutex w.host, word Object.mutex w.host)
  lock-initializer recursive_kind a w h =
      ground (arith, above Object.mutex w.host, word Object.mutex w.host)
  lock-initializer errorcheck_kind a w h =
      ground (arith, above Object.mutex w.host, word Object.mutex w.host)

  -- If malloc answers words above 0xFFFF: pthread_mutex_trylock and pthread_mutex_unlock do not
  -- translate: on a statically initialised mutex that was never locked they hand glibc the
  -- initialiser in place of an address, and leave it.
  pub trylock-untranslated :
      (k : Kind) (a : ℕ) (w : World G)
      → load a w ≡ initializer k
      → (pthread_mutex_trylock a w ≡ invoke (mutex_trylock (initializer k)) w)
        × (pthread_mutex_unlock a w ≡ invoke (mutex_unlock (initializer k)) w)
        × (load a (pthread_mutex_trylock a w).1 ≤ 0xFFFF)
        × (load a (pthread_mutex_unlock a w).1 ≤ 0xFFFF)
  unfolding pthread_mutex_trylock pthread_mutex_unlock invoke initializer
  trylock-untranslated plain a w h = (rw h, rw h, ground arith, ground arith)
  trylock-untranslated recursive_kind a w h = (rw h, rw h, ground arith, ground arith)
  trylock-untranslated errorcheck_kind a w h = (rw h, rw h, ground arith, ground arith)

  -- If malloc answers words above 0xFFFF: an initialised mutex is locked, and destroyed, through
  -- the object that pthread_mutex_init made; a destroyed mutex keeps its word, so a later lock
  -- calls glibc on the destroyed object.
  pub init-lock-destroy :
      (a attr : ℕ) (w : World G)
      → let w1 = (pthread_mutex_init a attr w).1 in
        (load a w1 ≡ (allocate Object.mutex w).0)
        × (pthread_mutex_lock a w1 ≡ invoke (mutex_lock (load a w1)) w1)
        × (pthread_mutex_destroy a w1 ≡ invoke (mutex_destroy (load a w1)) w1)
        × (pthread_mutex_lock a (pthread_mutex_destroy a w1).1
            ≡ invoke (mutex_lock (load a w1)) (pthread_mutex_destroy a w1).1)
  unfolding pthread_mutex_init pthread_mutex_lock pthread_mutex_destroy invoke store allocate
  init-lock-destroy a attr w = (
    ground (arith, above Object.mutex w.host, word Object.mutex w.host),
    ground (arith, above Object.mutex w.host, word Object.mutex w.host),
    ground (arith, above Object.mutex w.host, word Object.mutex w.host),
    ground (arith, above Object.mutex w.host, word Object.mutex w.host),
  )
