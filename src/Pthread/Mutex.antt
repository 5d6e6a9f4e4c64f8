-- ===== src/Pthread/Mutex.antt =====
-- The mutex functions.
pub mod Translation
use fake_libc.Common.{ℕ, ◌≤◌, bit_and, leb, not, ◌==◌, if◌then◌else◌}
use fake_libc.Pthread.Glibc.{
  Glibc, World, Object, InitAttr, Call, load, store, invoke, allocate, local, pointer, mutex_init,
  mutex_lock, mutex_unlock, mutex_trylock, mutex_destroy,
}

-- ANDROID_TOP_ADDR_VALUE_MUTEX, and the two bits of the static initialisers.
abbrev pub top_addr_value : ℕ
top_addr_value = 0xFFFF

abbrev android_recursive : ℕ
android_recursive = 0x4000

abbrev android_errorcheck : ℕ
android_errorcheck = 0x8000

-- PTHREAD_MUTEX_NORMAL, PTHREAD_MUTEX_RECURSIVE and PTHREAD_MUTEX_ERRORCHECK.
abbrev pub normal : ℕ
normal = 0

abbrev pub recursive : ℕ
recursive = 1

abbrev pub errorcheck : ℕ
errorcheck = 2

abbrev pub einval : ℕ
einval = 22

-- The type of the initialised attribute object.
pub hybris_set_mutex_attr : ℕ → ℕ
hybris_set_mutex_attr android_value =
    if not (bit_and android_value android_recursive == 0)
    then recursive
    else (if not (bit_and android_value android_errorcheck == 0) then errorcheck else normal)

module _ {G : Glibc} where
  unfoldable hybris_alloc_init_mutex : ℕ → World G → ℕ × World G
  hybris_alloc_init_mutex android_mutex w =
      let (realmutex, w') = allocate Object.mutex w in
      let (_, w'') =
        invoke (mutex_init realmutex (local (hybris_set_mutex_attr android_mutex))) w' in
      (realmutex, w'')

  -- The translation of a mutex's word: a static initialiser is replaced by a new object.
  unfoldable pub real_mutex : ℕ → ℕ → World G → ℕ × World G
  unfolding hybris_alloc_init_mutex
  real_mutex mutex mvalue w =
      if leb mvalue top_addr_value
      then (let (realmutex, w') = hybris_alloc_init_mutex mvalue w in
          (realmutex, store mutex realmutex w'))
      else (mvalue, w)

  -- The handle is read back from the word that was stored.
  unfoldable pub pthread_mutex_lock : ℕ → World G → ℕ × World G
  unfolding real_mutex
  pthread_mutex_lock mutex w =
      let (_, w') = real_mutex mutex (load mutex w) w in invoke (mutex_lock (load mutex w')) w'

  unfoldable pub pthread_mutex_unlock : ℕ → World G → ℕ × World G
  pthread_mutex_unlock mutex w = invoke (mutex_unlock (load mutex w)) w

  unfoldable pub pthread_mutex_trylock : ℕ → World G → ℕ × World G
  pthread_mutex_trylock mutex w = invoke (mutex_trylock (load mutex w)) w

  unfoldable pub pthread_mutex_init : ℕ → ℕ → World G → ℕ × World G
  pthread_mutex_init mutex attr w =
      let (p, w') = allocate Object.mutex w in
      let w'' = store mutex p w' in invoke (mutex_init (load mutex w'') (pointer attr)) w''

  unfoldable pub pthread_mutex_destroy : ℕ → World G → ℕ × World G
  pthread_mutex_destroy mutex w =
      if load mutex w == 0 then (einval, w) else invoke (mutex_destroy (load mutex w)) w
