-- ===== src/Pthread/Attr/Delegation.antt =====
-- An attribute object stands for the real object that was allocated for it.
use fake_libc.Common.{ℕ, ◌≡◌, refl, ◌^◌, ◌%◌, arith, ==-refl, List, [], ◌∷◌}
use fake_libc.Pthread.Glibc.{
  Glibc, AllocatesHigh, World, Object, AttrField, load, store, invoke, allocate, release, attr_init,
  attr_destroy, attr_set, attr_get, attr_setstack, attr_getstack, detachstate, schedpolicy,
  schedparam, stacksize, stackaddr, guardsize, scope,
}
use fake_libc.Pthread.Attr.{
  pthread_attr_init, pthread_attr_destroy, pthread_attr_setstack, pthread_attr_getstack,
  pthread_attr_getscope, pthread_attr_setdetachstate, pthread_attr_setschedpolicy,
  pthread_attr_setschedparam, pthread_attr_setstacksize, pthread_attr_setstackaddr,
  pthread_attr_setguardsize, pthread_attr_setscope, pthread_attr_getdetachstate,
  pthread_attr_getschedpolicy, pthread_attr_getschedparam, pthread_attr_getstacksize,
  pthread_attr_getstackaddr, pthread_attr_getguardsize,
}

-- The operations between the initialisation of an attribute object and its destruction.
pub data Op : Type 0 where
  set_field get_field : AttrField → ℕ → Op
  set_stack get_stack : ℕ → ℕ → Op

-- glibc's state after its own operation on the real object at `p`.
unfoldable pub real_step : (G : Glibc) → ℕ → Op → G.State → G.State
real_step G p (set_field f v) s = (G.call (attr_set f p v) s).1
real_step G p (get_field scope v) s = (G.getscope p s).1
real_step G p (get_field f v) s = (G.call (attr_get f p v) s).1
real_step G p (set_stack b n) s = (G.call (attr_setstack p b n) s).1
real_step G p (get_stack b n) s = (G.call (attr_getstack p b n) s).1

unfoldable pub real_run : (G : Glibc) → ℕ → List Op → G.State → G.State
real_run G p [] s = s
real_run G p (o ∷ os) s = real_run G p os (real_step G p o s)

module _ {G : Glibc} where
  unfoldable pub set_field_of : AttrField → ℕ → ℕ → World G → ℕ × World G
  set_field_of detachstate = pthread_attr_setdetachstate
  set_field_of schedpolicy = pthread_attr_setschedpolicy
  set_field_of schedparam = pthread_attr_setschedparam
  set_field_of stacksize = pthread_attr_setstacksize
  set_field_of stackaddr = pthread_attr_setstackaddr
  set_field_of guardsize = pthread_attr_setguardsize
  set_field_of scope = pthread_attr_setscope

  -- The getter of the scope answers the scope, and has no out parameter.
  unfoldable pub get_field_of : AttrField → ℕ → ℕ → World G → ℕ × World G
  get_field_of detachstate = pthread_attr_getdetachstate
  get_field_of schedpolicy = pthread_attr_getschedpolicy
  get_field_of schedparam = pthread_attr_getschedparam
  get_field_of stacksize = pthread_attr_getstacksize
  get_field_of stackaddr = pthread_attr_getstackaddr
  get_field_of guardsize = pthread_attr_getguardsize
  get_field_of scope = λ attr out w. pthread_attr_getscope attr w

  -- The bionic operation on the object at `attr`.
  unfoldable pub step : ℕ → Op → World G → World G
  unfolding set_field_of get_field_of
  step attr (set_field f v) w = (set_field_of f attr v w).1
  step attr (get_field f v) w = (get_field_of f attr v w).1
  step attr (set_stack b n) w = (pthread_attr_setstack attr b n w).1
  step attr (get_stack b n) w = (pthread_attr_getstack attr b n w).1

  unfoldable pub run : ℕ → List Op → World G → World G
  run attr [] w = w
  run attr (o ∷ os) w = run attr os (step attr o w)

  step-real :
      (attr : ℕ) (o : Op) (w : World G)
      → step attr o w ≡ record w { host = real_step G (load attr w) o w.host }
  unfolding step real_step invoke pthread_attr_setstack pthread_attr_getstack pthread_attr_getscope
      pthread_attr_setdetachstate pthread_attr_setschedpolicy pthread_attr_setschedparam
      pthread_attr_setstacksize pthread_attr_setstackaddr pthread_attr_setguardsize
      pthread_attr_setscope pthread_attr_getdetachstate pthread_attr_getschedpolicy
      pthread_attr_getschedparam pthread_attr_getstacksize pthread_attr_getstackaddr
      pthread_attr_getguardsize
  step-real attr (set_field detachstate v) w = refl
  step-real attr (set_field schedpolicy v) w = refl
  step-real attr (set_field schedparam v) w = refl
  step-real attr (set_field stacksize v) w = refl
  step-real attr (set_field stackaddr v) w = refl
  step-real attr (set_field guardsize v) w = refl
  step-real attr (set_field scope v) w = refl
  step-real attr (get_field detachstate v) w = refl
  step-real attr (get_field schedpolicy v) w = refl
  step-real attr (get_field schedparam v) w = refl
  step-real attr (get_field stacksize v) w = refl
  step-real attr (get_field stackaddr v) w = refl
  step-real attr (get_field guardsize v) w = refl
  step-real attr (get_field scope v) w = refl
  step-real attr (set_stack b n) w = refl
  step-real attr (get_stack b n) w = refl

  -- Any sequence of setters and getters on an attribute object changes no word of memory, and leaves
  -- glibc as the same sequence on the real object does whose address is in the object's word.
  run-real :
      (attr : ℕ) (os : List Op) (w : World G)
      → run attr os w ≡ record w { host = real_run G (load attr w) os w.host }
  unfolding run real_run
  run-real attr [] w = refl
  run-real attr (o ∷ os) w =
      rw (step-real attr o w)
        (run-real attr os (record w { host = real_step G (load attr w) o w.host }))

module _ {G : Glibc} (high : AllocatesHigh G) where
  open high use {above, word}

  -- If malloc answers words above 0xFFFF: initialising an attribute object, any setters and
  -- getters, and its destruction work on one real object, which is the allocated one, and free
  -- this object at the end, when glibc has destroyed it.
  pub init-run-destroy :
      (attr : ℕ) (os : List Op) (w : World G)
      → let (p, s1) = G.malloc Object.attr w.host in
        let s2 = real_run G p os (G.call (attr_init p) s1).1 in
        (pthread_attr_destroy attr (run attr os (pthread_attr_init attr w).1)).1.host
        ≡ G.free p (G.call (attr_destroy p) s2).1
  unfolding pthread_attr_init pthread_attr_destroy invoke store allocate release
  init-run-destroy attr os w =
      let p = (G.malloc Object.attr w.host).0 in
      let small : p % 2 ^ 32 ≡ p = omega (arith, word Object.attr w.host) in
      rw (run-real attr os, ==-refl attr, small)
