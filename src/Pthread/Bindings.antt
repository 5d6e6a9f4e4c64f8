-- ===== src/Pthread/Bindings.antt =====
-- An object that has been translated keeps its real object, whatever is done with it and with others.
use fake_libc.Common.{ℕ, ◌<◌, ◌≡◌, refl, arith, List, [], ◌∷◌, ◌∙◌}
use fake_libc.Pthread.Glibc.{
  Glibc, AllocatesHigh, World, Timespec, load, store, invoke, allocate, now, mutex_lock,
}
use fake_libc.Pthread.Mutex.{
  real_mutex, pthread_mutex_lock, pthread_mutex_unlock, pthread_mutex_trylock,
  pthread_mutex_destroy,
}
use fake_libc.Pthread.Mutex.Translation.{lock-bound, lock-translates}
use fake_libc.Pthread.Cond.{
  real_cond, pthread_cond_wait, pthread_cond_timedwait, pthread_cond_timedwait_relative_np,
  pthread_cond_signal, pthread_cond_broadcast,
}

-- The operations that use a mutex or a condition variable, and neither initialise one nor destroy a
-- condition variable.
pub data Use : Type 0 where
  lock unlock trylock destroy_mutex signal broadcast : ℕ → Use
  wait : ℕ → ℕ → Use
  timedwait timedwait_relative : ℕ → ℕ → Timespec → Use

module _ {G : Glibc} where
  unfoldable pub step : Use → World G → World G
  step (lock m) w = (pthread_mutex_lock m w).1
  step (unlock m) w = (pthread_mutex_unlock m w).1
  step (trylock m) w = (pthread_mutex_trylock m w).1
  step (destroy_mutex m) w = (pthread_mutex_destroy m w).1
  step (signal c) w = (pthread_cond_signal c w).1
  step (broadcast c) w = (pthread_cond_broadcast c w).1
  step (wait c m) w = (pthread_cond_wait c m w).1
  step (timedwait c m t) w = (pthread_cond_timedwait c m t w).1
  step (timedwait_relative c m t) w = (pthread_cond_timedwait_relative_np c m t w).1

  unfoldable pub run : List Use → World G → World G
  run [] w = w
  run (u ∷ us) w = run us (step u w)

  real_mutex-keeps :
      (a m : ℕ) (w w' : World G)
      → 0xFFFF < load a w
      → load a w' ≡ load a w
      → load a (real_mutex m (load m w) w').1 ≡ load a w
  unfolding real_mutex store invoke allocate
  real_mutex-keeps a m w w' h e = ground arith

  real_cond-keeps :
      (a c : ℕ) (w : World G) → 0xFFFF < load a w → load a (real_cond c (load c w) w).1 ≡ load a w
  unfolding real_cond store invoke allocate
  real_cond-keeps a c w h = ground arith

  step-keeps : (a : ℕ) (u : Use) (w : World G) → 0xFFFF < load a w → load a (step u w) ≡ load a w
  unfolding step pthread_mutex_lock pthread_mutex_unlock pthread_mutex_trylock pthread_mutex_destroy
      pthread_cond_signal pthread_cond_broadcast pthread_cond_wait pthread_cond_timedwait
      pthread_cond_timedwait_relative_np invoke now
  step-keeps a (lock m) w h = real_mutex-keeps a m w w h refl
  step-keeps a (unlock m) w h = refl
  step-keeps a (trylock m) w h = refl
  step-keeps a (destroy_mutex m) w h = ground arith
  step-keeps a (signal c) w h = real_cond-keeps a c w h
  step-keeps a (broadcast c) w h = real_cond-keeps a c w h
  step-keeps a (wait c m) w h = real_mutex-keeps a m w _ h (real_cond-keeps a c w h)
  step-keeps a (timedwait c m t) w h = real_mutex-keeps a m w _ h (real_cond-keeps a c w h)
  step-keeps a (timedwait_relative c m t) w h = real_mutex-keeps a m w _ h (real_cond-keeps a c w h)

  -- A mutex or condition variable whose word holds a handle keeps this handle through any sequence of
  -- uses of any objects: locks, unlocks, waits, signals and destructions of mutexes.
  pub run-keeps :
      (a : ℕ) (us : List Use) (w : World G) → 0xFFFF < load a w → load a (run us w) ≡ load a w
  unfolding run
  run-keeps a [] w h = refl
  run-keeps a (u ∷ us) w h = let e = step-keeps a u w h in run-keeps a us (step u w) (rw e h) ∙ e

module _ {G : Glibc} (high : AllocatesHigh G) where
  -- If malloc answers words above 0xFFFF: after a mutex has been locked once, every later lock
  -- of it, with any uses of any mutexes and condition variables between the two, locks the same
  -- glibc mutex as the first did.
  pub lock-run-lock :
      (a : ℕ) (us : List Use) (w : World G)
      → let w1 = (pthread_mutex_lock a w).1 in
        (pthread_mutex_lock a (run us w1) ≡ invoke (mutex_lock (load a w1)) (run us w1))
  lock-run-lock a us w =
      let w1 = (pthread_mutex_lock a w).1 in
      let bound = (lock-translates high a w).0 in
      let e : load a (run us w1) ≡ load a w1 = run-keeps a us w1 bound in
      rw (lock-bound a (run us w1) (rw e bound), e)
