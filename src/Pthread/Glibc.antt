-- ===== src/Pthread/Glibc.antt =====
-- What the translation calls, and the memory of the bionic objects.
use fake_libc.Common.{ℕ, ◌<◌, ◌^◌, ◌%◌, ◌==◌, if◌then◌else◌}

-- The objects that are allocated for a bionic object.
pub data Object : Type 0 where
  mutex cond attr : Object

-- `struct timespec`.
pub record Timespec : Type 0 where
  pub tv_sec : ℕ
  pub tv_nsec : ℕ

-- What an initialiser is given for its attributes: the caller's pointer, or a local attribute object,
-- of which only the type is ever set.
pub data InitAttr : Type 0 where
  pointer : ℕ → InitAttr
  local : ℕ → InitAttr

-- The parts of an attribute object that have a setter and a getter.
pub data AttrField : Type 0 where
  detachstate schedpolicy schedparam stacksize stackaddr guardsize scope : AttrField

-- The calls of glibc on objects, each with the addresses that it is given.
pub data Call : Type 0 where
  mutex_init : ℕ → InitAttr → Call
  mutex_lock mutex_unlock mutex_trylock mutex_destroy : ℕ → Call
  cond_init : ℕ → InitAttr → Call
  cond_signal cond_broadcast cond_destroy : ℕ → Call
  cond_wait : ℕ → ℕ → Call
  cond_timedwait : ℕ → ℕ → Timespec → Call
  attr_init attr_destroy : ℕ → Call
  attr_set attr_get : AttrField → ℕ → ℕ → Call
  attr_setstack attr_getstack : ℕ → ℕ → ℕ → Call

pub record Glibc : Type 1 where
  pub State : Type 0
  pub malloc : Object → State → ℕ × State
  pub free : ℕ → State → State
  pub call : Call → State → ℕ × State
  -- `pthread_attr_getscope`: the value that it leaves behind its second argument
  pub getscope : ℕ → State → ℕ × State
  -- `clock_gettime(CLOCK_REALTIME, &tv)`
  pub realtime : State → Timespec × State

-- What the translation relies on: an allocated object is a 32-bit address above the values that are
-- kept for static initialisers.
pub record AllocatesHigh (G : Glibc) : Type 0 where
  pub above : (o : Object) (s : G.State) → 0xFFFF < (G.malloc o s).0
  pub word : (o : Object) (s : G.State) → (G.malloc o s).0 < 2 ^ 32

-- The word of each bionic object, and the state of glibc.
pub record World (G : Glibc) : Type 0 where
  pub mem : ℕ → ℕ
  pub host : G.State

module _ {G : Glibc} where
  abbrev pub load : ℕ → World G → ℕ
  load a w = w.mem a

  -- `*(unsigned int *) a = (unsigned int) v`
  unfoldable pub store : ℕ → ℕ → World G → World G
  store a v w = record w { mem = λ b. if a == b then v % 2 ^ 32 else w.mem b }

  unfoldable pub invoke : Call → World G → ℕ × World G
  invoke c w = ((G.call c w.host).0, record w { host = (G.call c w.host).1 })

  unfoldable pub allocate : Object → World G → ℕ × World G
  allocate o w = ((G.malloc o w.host).0, record w { host = (G.malloc o w.host).1 })

  unfoldable pub release : ℕ → World G → World G
  release p w = record w { host = G.free p w.host }

  unfoldable pub now : World G → Timespec × World G
  now w = ((G.realtime w.host).0, record w { host = (G.realtime w.host).1 })
