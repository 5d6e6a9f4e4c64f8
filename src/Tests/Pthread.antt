-- ===== src/Tests/Pthread.antt =====
-- The pthread translation over a glibc that hands out addresses in order.
use fake_libc.Common.{
  ◌⊎◌, inl, ℕ, ◌+◌, ◌*◌, ◌≤◌, ◌%◌, ◌<◌, ◌≡◌, ◌≢◌, ◌⊎◌, inl, ◌==◌, refl, [], ◌∷◌, arith,
  if◌then◌else◌, true, false,
}
use fake_libc.Pthread.Glibc.{
  Glibc, AllocatesHigh, World, Object, Timespec, load, store, invoke, allocate, now, local,
  mutex_init, mutex_lock, mutex_unlock, cond_wait, cond_timedwait, stacksize, attr_destroy,
}
use fake_libc.Pthread.Mutex.{pthread_mutex_lock, pthread_mutex_unlock}
use fake_libc.Pthread.Mutex.Translation.{
  lock-translates, lock-initializer, initializer, type_of, recursive_kind,
}
use fake_libc.Pthread.Cond.{
  add_relative, pthread_cond_wait, pthread_cond_timedwait, pthread_cond_timedwait_relative_np,
}
use fake_libc.Pthread.Cond.Wait.{both_translated, wait-translates}
use fake_libc.Pthread.Cond.Timeout.{nanoseconds, add_relative-sum}
use fake_libc.Pthread.Attr.{pthread_attr_init, pthread_attr_destroy}
use fake_libc.Pthread.Attr.Delegation.{set_field, run, real_run, init-run-destroy}
use fake_libc.Pthread.Bindings
use fake_libc.Pthread.Bindings.{lock, unlock, wait, run-keeps, lock-run-lock}
use fake_libc.ThreadTable.{row, my_settid_to_thread, my_gettid_from_thread}
use fake_libc.Pthread.Create.{
  Spawn, spawn, Reach, spinning, started, taken, registered, running, other_enters, here, next,
  take,
}
use fake_libc.Pthread.Create.Handshake.{create-safe, create-returns, Step-found, MayReturn}

-- Each object takes 64 bytes, in an arena of 16 MB that starts over when it is used up.
abbrev counting : Glibc
counting = record {
  State = ℕ;
  malloc = λ o s. (0x10000 + s % 0x1000000, s + 64);
  free = λ p s. s;
  call = λ c s. (0, s);
  getscope = λ p s. (0, s);
  realtime = λ s. (record { tv_sec = 5; tv_nsec = 900000000 }, s);
}

counting-AllocatesHigh : AllocatesHigh counting
counting-AllocatesHigh = record { above = λ o s. omega arith; word = λ o s. omega arith }

-- Static initialisers: a recursive mutex at 8, an error-checking one at 12, zeros elsewhere.
abbrev fresh : World counting
fresh = record { mem = λ a. if a == 8 then 0x4000 else (if a == 12 then 0x8000 else 0); host = 0 }

lock_runs : load 8 (pthread_mutex_lock 8 fresh).1 ≡ 0x10000
unfolding pthread_mutex_lock allocate invoke store
lock_runs = refl

lock-translates_example :
    let w1 = (pthread_mutex_lock 8 fresh).1 in
    (0xFFFF < load 8 w1)
    × ((b : ℕ) → b ≢ 8 → load b w1 ≡ load b fresh)
    × (pthread_mutex_lock 8 w1 ≡ invoke (mutex_lock (load 8 w1)) w1)
    × (pthread_mutex_unlock 8 w1 ≡ invoke (mutex_unlock (load 8 w1)) w1)
lock-translates_example = lock-translates counting-AllocatesHigh 8 fresh

lock-initializer_example :
    pthread_mutex_lock 8 fresh
    ≡ invoke (mutex_lock (allocate Object.mutex fresh).0) (
        store 8
          (allocate Object.mutex fresh).0
          (invoke
            (mutex_init (allocate Object.mutex fresh).0 (local (type_of recursive_kind)))
            (allocate Object.mutex fresh).1).1)
unfolding initializer
lock-initializer_example = lock-initializer counting-AllocatesHigh recursive_kind 8 fresh refl

abbrev half_second : Timespec
half_second = record { tv_sec = 0; tv_nsec = 500000000 }

wait-translates_example :
    let w' = both_translated 4 8 fresh in
    (0xFFFF < load 4 w')
    × (0xFFFF < load 8 w')
    × ((b : ℕ) → b ≢ 4 → b ≢ 8 → load b w' ≡ load b fresh)
    × (pthread_cond_wait 4 8 fresh ≡ invoke (cond_wait (load 4 w') (load 8 w')) w')
    × (pthread_cond_timedwait 4 8 half_second fresh
        ≡ invoke (cond_timedwait (load 4 w') (load 8 w') half_second) w')
    × (pthread_cond_timedwait_relative_np 4 8 half_second fresh
        ≡ invoke
            (cond_timedwait (load 4 w') (load 8 w') (add_relative (now w').0 half_second))
            (now w').1)
wait-translates_example = wait-translates counting-AllocatesHigh 4 8 half_second fresh (omega arith)

abbrev clock : Timespec
clock = record { tv_sec = 5; tv_nsec = 900000000 }

-- The largest time that a signed word of seconds holds.
abbrev forever : Timespec
forever = record { tv_sec = 0x7FFFFFFF; tv_nsec = 0 }

add_relative-sum_example :
    ((add_relative clock forever).tv_nsec < 1000000000)
    × (((nanoseconds clock + nanoseconds forever < 0x80000000 * 1000000000)
          × ((add_relative clock forever).tv_sec < 0x80000000)
          × (nanoseconds (add_relative clock forever) ≡ nanoseconds clock + nanoseconds forever))
        ⊎ ((0x80000000 * 1000000000 ≤ nanoseconds clock + nanoseconds forever)
            × (0x80000000 ≤ (add_relative clock forever).tv_sec)
            × ((add_relative clock forever).tv_sec < 4294967296)))
add_relative-sum_example =
    add_relative-sum clock forever (omega arith) (omega arith) (omega arith) (omega arith)

init-run-destroy_example :
    (pthread_attr_destroy 20
      (run 20 (set_field stacksize 65536 ∷ []) (pthread_attr_init 20 fresh).1)).1.host
    ≡ counting.free 0x10000
        (counting.call
          (attr_destroy 0x10000)
          (real_run counting 0x10000 (set_field stacksize 65536 ∷ []) 64)).1
init-run-destroy_example =
    init-run-destroy counting-AllocatesHigh 20 (set_field stacksize 65536 ∷ []) fresh

abbrev bound : World counting
bound = record { mem = λ a. if a == 8 then 0x10040 else 0; host = 128 }

lock-run-lock_example :
    let w1 = (pthread_mutex_lock 8 fresh).1 in
    pthread_mutex_lock 8 (Bindings.run (unlock 8 ∷ wait 4 12 ∷ []) w1)
    ≡ invoke (mutex_lock (load 8 w1)) (Bindings.run (unlock 8 ∷ wait 4 12 ∷ []) w1)
lock-run-lock_example = lock-run-lock counting-AllocatesHigh 8 (unlock 8 ∷ wait 4 12 ∷ []) fresh

-- The state in which the new thread has read its routine and argument.
abbrev after_take : Spawn
after_take = record {
  container0 = 0x8000;
  container1 = 3;
  container2 = 1;
  creator = spinning;
  child = taken;
  routine = 0x8000;
  arg = 3;
  table = [];
}

take_reached : Reach 1002 42 (spawn true 0x8000 3 []) after_take
unfolding spawn
take_reached = next here (take (spawn true 0x8000 3 []) refl)

create-safe_example :
    ((after_take.creator ≡ spinning)
      ⊎ ((after_take.child ≢ started)
          × (after_take.child ≢ taken)
          × (after_take.child ≢ registered)))
    × ((after_take.child ≡ started) ⊎ ((after_take.routine ≡ 0x8000) × (after_take.arg ≡ 3)))
create-safe_example = create-safe 1002 42 0x8000 3 [] take_reached

create-returns_example :
    MayReturn 1002 42 after_take × ((spawn false 0x8000 3 []).creator ≡ spinning)
create-returns_example = create-returns 1002 42 0x8000 3 [] take_reached refl here

abbrev entered : Spawn
entered = record after_take { child = registered; table = row 42 1002 ∷ [] }

Step-found_example :
    (my_gettid_from_thread 1002 (my_settid_to_thread 1003 43 entered.table) ≡ 42)
    × ((entered.child ≡ registered) ⊎ (entered.child ≡ running))
unfolding my_gettid_from_thread
Step-found_example =
    Step-found (other_enters entered 1003 43 (omega arith)) (omega arith) (inl refl) (λ e. cc) refl
