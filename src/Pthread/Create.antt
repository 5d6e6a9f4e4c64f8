-- ===== src/Pthread/Create.antt =====
-- `pthread_create` and `my_start_routine`: the creator hands the start routine and its argument over in
-- an array on its own stack, and spins until the new thread has cleared the array's last word. The
-- new thread enters its kernel id in the thread table before that and leaves it after the routine.
pub mod Handshake
use fake_libc.Common.{ℕ, ◌≡◌, ◌≢◌, ◌==◌, Bool, true, false, Option, none, some, if◌then◌else◌}
use fake_libc.ThreadTable.{Table, my_settid_to_thread, my_remtid}

pub data Creator : Type 0 where
  spinning returned : Creator

-- Where the new thread stands in `my_start_routine`; `absent` if there is none.
pub data Child : Type 0 where
  absent started taken registered running finished : Child

-- `routine` and `arg` are what the new thread has read out of the container.
pub record Spawn : Type 0 where
  pub container0 : ℕ
  pub container1 : ℕ
  pub container2 : ℕ
  pub creator : Creator
  pub child : Child
  pub routine : ℕ
  pub arg : ℕ
  pub table : Table

-- The state behind `rt_pthread_create`, whose result is not looked at before the loop.
unfoldable pub spawn : Bool → ℕ → ℕ → Table → Spawn
spawn created start_routine arg table = record {
  container0 = start_routine;
  container1 = arg;
  container2 = 1;
  creator = spinning;
  child = if created then started else absent;
  routine = 0;
  arg = 0;
  table = table;
}

-- `realattr`: the address in the caller's attribute object, or null.
unfoldable create_attr : Option ℕ → (ℕ → ℕ) → ℕ
create_attr none mem = 0
create_attr (some attr) mem = mem attr

-- One step of the creator, of the new thread `t` with kernel id `tid`, or of another thread on the
-- table. The new thread's accesses of the container are `take` and `clear`.
pub data Step (t tid : ℕ) : Spawn → Spawn → Type 0 where
  spin : (s : Spawn) → s.creator ≡ spinning → s.container2 ≡ 1 → Step t tid s s
  leave :
      (s : Spawn)
      → s.creator ≡ spinning
      → s.container2 ≢ 1
      → Step t tid s (record s { creator = returned })
  take :
      (s : Spawn)
      → s.child ≡ started
      → Step t tid s (record s { child = taken; routine = s.container0; arg = s.container1 })
  register :
      (s : Spawn)
      → s.child ≡ taken
      → Step t tid s (record s { child = registered; table = my_settid_to_thread t tid s.table })
  clear :
      (s : Spawn)
      → s.child ≡ registered
      → Step t tid s (record s { child = running; container2 = 0 })
  finish :
      (s : Spawn)
      → s.child ≡ running
      → Step t tid s (record s { child = finished; table = my_remtid t s.table })
  other_enters :
      (s : Spawn) (u uid : ℕ)
      → u ≢ t
      → Step t tid s (record s { table = my_settid_to_thread u uid s.table })
  other_leaves :
      (s : Spawn) (u : ℕ) → u ≢ t → Step t tid s (record s { table = my_remtid u s.table })

pub data Reach (t tid : ℕ) (s : Spawn) : Spawn → Type 0 where
  here : Reach t tid s s
  next : {r q : Spawn} → Reach t tid s r → Step t tid r q → Reach t tid s q
