-- ===== src/Pthread/Attr.antt =====
-- The attribute functions: each reads the address of the real object from the caller's word.
pub mod Delegation
use fake_libc.Common.{ℕ}
use fake_libc.Pthread.Glibc.{
  Glibc, World, Object, Call, AttrField, load, store, invoke, allocate, release, attr_init,
  attr_destroy, attr_set, attr_get, attr_setstack, attr_getstack, detachstate, schedpolicy,
  schedparam, stacksize, stackaddr, guardsize, scope,
}

module _ {G : Glibc} where
  unfoldable pub pthread_attr_init : ℕ → World G → ℕ × World G
  pthread_attr_init attr w =
      let (realattr, w') = allocate Object.attr w in
      invoke (attr_init realattr) (store attr realattr w')

  unfoldable pub pthread_attr_destroy : ℕ → World G → ℕ × World G
  pthread_attr_destroy attr w =
      let realattr = load attr w in
      let (ret, w') = invoke (attr_destroy realattr) w in (ret, release realattr w')

  unfoldable pub pthread_attr_setdetachstate : ℕ → ℕ → World G → ℕ × World G
  pthread_attr_setdetachstate attr v w = invoke (attr_set detachstate (load attr w) v) w

  unfoldable pub pthread_attr_getdetachstate : ℕ → ℕ → World G → ℕ × World G
  pthread_attr_getdetachstate attr out w = invoke (attr_get detachstate (load attr w) out) w

  unfoldable pub pthread_attr_setschedpolicy : ℕ → ℕ → World G → ℕ × World G
  pthread_attr_setschedpolicy attr v w = invoke (attr_set schedpolicy (load attr w) v) w

  unfoldable pub pthread_attr_getschedpolicy : ℕ → ℕ → World G → ℕ × World G
  pthread_attr_getschedpolicy attr out w = invoke (attr_get schedpolicy (load attr w) out) w

  unfoldable pub pthread_attr_setschedparam : ℕ → ℕ → World G → ℕ × World G
  pthread_attr_setschedparam attr v w = invoke (attr_set schedparam (load attr w) v) w

  unfoldable pub pthread_attr_getschedparam : ℕ → ℕ → World G → ℕ × World G
  pthread_attr_getschedparam attr out w = invoke (attr_get schedparam (load attr w) out) w

  unfoldable pub pthread_attr_setstacksize : ℕ → ℕ → World G → ℕ × World G
  pthread_attr_setstacksize attr v w = invoke (attr_set stacksize (load attr w) v) w

  unfoldable pub pthread_attr_getstacksize : ℕ → ℕ → World G → ℕ × World G
  pthread_attr_getstacksize attr out w = invoke (attr_get stacksize (load attr w) out) w

  unfoldable pub pthread_attr_setstackaddr : ℕ → ℕ → World G → ℕ × World G
  pthread_attr_setstackaddr attr v w = invoke (attr_set stackaddr (load attr w) v) w

  unfoldable pub pthread_attr_getstackaddr : ℕ → ℕ → World G → ℕ × World G
  pthread_attr_getstackaddr attr out w = invoke (attr_get stackaddr (load attr w) out) w

  unfoldable pub pthread_attr_setguardsize : ℕ → ℕ → World G → ℕ × World G
  pthread_attr_setguardsize attr v w = invoke (attr_set guardsize (load attr w) v) w

  unfoldable pub pthread_attr_getguardsize : ℕ → ℕ → World G → ℕ × World G
  pthread_attr_getguardsize attr out w = invoke (attr_get guardsize (load attr w) out) w

  unfoldable pub pthread_attr_setscope : ℕ → ℕ → World G → ℕ × World G
  pthread_attr_setscope attr v w = invoke (attr_set scope (load attr w) v) w

  unfoldable pub pthread_attr_setstack : ℕ → ℕ → ℕ → World G → ℕ × World G
  pthread_attr_setstack attr base size w = invoke (attr_setstack (load attr w) base size) w

  unfoldable pub pthread_attr_getstack : ℕ → ℕ → ℕ → World G → ℕ × World G
  pthread_attr_getstack attr base size w = invoke (attr_getstack (load attr w) base size) w

  -- The answer is the scope itself, and glibc's answer is dropped.
  unfoldable pub pthread_attr_getscope : ℕ → World G → ℕ × World G
  pthread_attr_getscope attr w =
      ((G.getscope (load attr w) w.host).0, record w { host = (G.getscope (load attr w) w.host).1 })
