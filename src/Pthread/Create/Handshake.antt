-- ===== src/Pthread/Create/Handshake.antt =====
-- What the handshake between the creator and the new thread guarantees.
use fake_libc.Common.{
  inl, inr, ℕ, ◌≡◌, ◌≢◌, ◌↔◌, refl, Bool, true, false, ◌⊎◌, arith, if◌then◌else◌,
}
use fake_libc.ThreadTable.{Table, my_settid_to_thread, my_gettid_from_thread}
use fake_libc.ThreadTable.Lookup.{gettid-settid_other, gettid-remtid}
use fake_libc.Pthread.Create.{
  Creator, spinning, returned, Child, absent, started, taken, registered, running, finished, Spawn,
  spawn, Step, spin, leave, take, register, clear, finish, other_enters, other_leaves, Reach, here,
  next,
}

-- The new thread has made its last access of the container.
unfoldable pub is_done : Child → Bool
is_done absent = false
is_done started = false
is_done taken = false
is_done registered = false
is_done running = true
is_done finished = true

-- The new thread has read the container.
unfoldable pub has_taken : Child → Bool
has_taken absent = false
has_taken started = false
has_taken _ = true

pub record IsSafe (f a : ℕ) (s : Spawn) : Type 0 where
  pub kept0 : s.container0 ≡ f
  pub kept1 : s.container1 ≡ a
  pub flag : s.container2 ≡ (if is_done s.child then 0 else 1)
  pub got : has_taken s.child ≡ true → (s.routine ≡ f) × (s.arg ≡ a)
  pub waited : s.creator ≡ returned → is_done s.child ≡ true

Step-IsSafe : {t tid f a : ℕ} {s r : Spawn} → Step t tid s r → IsSafe f a s → IsSafe f a r
unfolding is_done has_taken
Step-IsSafe (spin s e e2) v = v
Step-IsSafe (leave s e e2) v = ground arith
Step-IsSafe (take s e) v = ground arith
Step-IsSafe (register s e) v = ground arith
Step-IsSafe (clear s e) v = ground arith
Step-IsSafe (finish s e) v = ground arith
Step-IsSafe (other_enters s u uid ne) v = ground arith
Step-IsSafe (other_leaves s u ne) v = ground arith

Reach-IsSafe : {t tid f a : ℕ} {s r : Spawn} → IsSafe f a s → Reach t tid s r → IsSafe f a r
Reach-IsSafe v here = v
Reach-IsSafe v (next p st) = Step-IsSafe st (Reach-IsSafe v p)

-- No step takes the new thread away, or makes one where there is none.
Step-absent : {t tid : ℕ} {s r : Spawn} → Step t tid s r → (s.child ≡ absent) ↔ (r.child ≡ absent)
Step-absent (spin s e e2) = (λ h. h, λ h. h)
Step-absent (leave s e e2) = (λ h. h, λ h. h)
Step-absent (take s e) = (ground arith, ground arith)
Step-absent (register s e) = (ground arith, ground arith)
Step-absent (clear s e) = (ground arith, ground arith)
Step-absent (finish s e) = (ground arith, ground arith)
Step-absent (other_enters s u uid ne) = (λ h. h, λ h. h)
Step-absent (other_leaves s u ne) = (λ h. h, λ h. h)

Reach-absent : {t tid : ℕ} {s r : Spawn} → Reach t tid s r → (s.child ≡ absent) ↔ (r.child ≡ absent)
Reach-absent here = (λ h. h, λ h. h)
Reach-absent (next p st) =
    let (to, from) = Reach-absent p in
    let (to', from') = Step-absent st in (λ h. to' (to h), λ h. from (from' h))

spawn-IsSafe : (b : Bool) (f a : ℕ) (table : Table) → IsSafe f a (spawn b f a table)
unfolding spawn is_done has_taken
spawn-IsSafe true f a table = ground arith
spawn-IsSafe false f a table = ground arith

creator-cases : (c : Creator) → (c ≡ spinning) ⊎ (c ≡ returned)
creator-cases spinning = inl refl
creator-cases returned = inr refl

started-cases : (c : Child) → (c ≡ started) ⊎ (c ≢ started)
started-cases started = inl refl
started-cases absent = inr (λ e. cc)
started-cases taken = inr (λ e. cc)
started-cases registered = inr (λ e. cc)
started-cases running = inr (λ e. cc)
started-cases finished = inr (λ e. cc)

-- In every state that is reached after a successful rt_pthread_create, in any interleaving with
-- other threads: the creator still spins, or the new thread makes no further access of the
-- container on the creator's stack; and the new thread has not read the container yet, or the
-- routine and argument that it runs are those of the call.
pub create-safe :
    (t tid f a : ℕ) (table : Table) {s : Spawn}
    → Reach t tid (spawn true f a table) s
    → ((s.creator ≡ spinning) ⊎ ((s.child ≢ started) × (s.child ≢ taken) × (s.child ≢ registered)))
      × ((s.child ≡ started) ⊎ ((s.routine ≡ f) × (s.arg ≡ a)))
unfolding is_done has_taken spawn
create-safe t tid f a table {s} p =
    let v = Reach-IsSafe (spawn-IsSafe true f a table) p in
    let there = (Reach-absent p).1 in
    (
      elim (creator-cases s.creator) [
        | inl e ↦ inl e
        | inr back ↦ inr (
          ground (arith, v.waited back),
          ground (arith, v.waited back),
          ground (arith, v.waited back),
        )
      ],
      elim (started-cases s.child) [ inl e ↦ inl e | inr ne ↦ inr (ground (arith, v.got, there)) ],
    )

-- For a thread whose handle is not 0: while it stands between its entry in the table and its
-- removal, a look-up that finds its kernel id goes on to find it after every step of any thread
-- but its own removal.
pub Step-found :
    {t tid : ℕ} {s r : Spawn}
    → Step t tid s r
    → t ≢ 0
    → (s.child ≡ registered) ⊎ (s.child ≡ running)
    → r.child ≢ finished
    → my_gettid_from_thread t s.table ≡ tid
    → (my_gettid_from_thread t r.table ≡ tid) × ((r.child ≡ registered) ⊎ (r.child ≡ running))
Step-found (spin s e e2) pos c nf h = (h, c)
Step-found (leave s e e2) pos c nf h = (h, c)
Step-found (take s e) pos c nf h = ground arith
Step-found (register s e) pos c nf h = ground arith
Step-found (clear s e) pos c nf h = ground arith
Step-found (finish s e) pos c nf h = ground arith
Step-found {t} (other_enters s u uid ne) pos c nf h =
    ground (arith, gettid-settid_other u uid t s.table pos)
Step-found {t} (other_leaves s u ne) pos c nf h = ground (arith, gettid-remtid u t s.table pos)

prepend : {t tid : ℕ} {s r q : Spawn} → Step t tid s r → Reach t tid r q → Reach t tid s q
prepend st here = next here st
prepend st (next p st') = next (prepend st p) st'

-- From a state a state is reached in which the creator has returned.
abbrev pub MayReturn : ℕ → ℕ → Spawn → Type 0
MayReturn t tid s = (r : Spawn) × Reach t tid s r × (r.creator ≡ returned)

module _ (t tid : ℕ) where
  cleared-returns : (s : Spawn) → s.creator ≡ spinning → s.container2 ≡ 0 → MayReturn t tid s
  cleared-returns s e z =
      (record s { creator = returned }, next here (leave s e (ground arith)), refl)

  registered-returns : (s : Spawn) → s.creator ≡ spinning → s.child ≡ registered → MayReturn t tid s
  registered-returns s e c =
      let (r, p, back) = cleared-returns (record s { child = running; container2 = 0 }) e refl in
      (r, prepend (clear s c) p, back)

  taken-returns : (s : Spawn) → s.creator ≡ spinning → s.child ≡ taken → MayReturn t tid s
  taken-returns s e c =
      let s' = record s { child = registered; table = my_settid_to_thread t tid s.table } in
      let (r, p, back) = registered-returns s' e refl in (r, prepend (register s c) p, back)

  started-returns : (s : Spawn) → s.creator ≡ spinning → s.child ≡ started → MayReturn t tid s
  started-returns s e c =
      let s' = record s { child = taken; routine = s.container0; arg = s.container1 } in
      let (r, p, back) = taken-returns s' e refl in (r, prepend (take s c) p, back)

  child-returns :
      (s : Spawn) (c : Child)
      → s.child ≡ c
      → c ≢ absent
      → s.container2 ≡ (if is_done s.child then 0 else 1)
      → s.creator ≡ spinning
      → MayReturn t tid s
  unfolding is_done
  child-returns s absent ec there flag e = absurd (there refl)
  child-returns s started ec there flag e = started-returns s e ec
  child-returns s taken ec there flag e = taken-returns s e ec
  child-returns s registered ec there flag e = registered-returns s e ec
  child-returns s running ec there flag e = cleared-returns s e (ground arith)
  child-returns s finished ec there flag e = cleared-returns s e (ground arith)

-- From every reached state in which the creator still spins, behind a successful
-- rt_pthread_create, a state is reached in which it has returned; behind a failed one it spins
-- in every reached state.
pub create-returns :
    (t tid f a : ℕ) (table : Table) {s r : Spawn}
    → Reach t tid (spawn true f a table) s
    → s.creator ≡ spinning
    → Reach t tid (spawn false f a table) r
    → MayReturn t tid s × (r.creator ≡ spinning)
unfolding spawn is_done has_taken
create-returns t tid f a table {s} p e q =
    let v = Reach-IsSafe (spawn-IsSafe true f a table) p in
    let u = Reach-IsSafe (spawn-IsSafe false f a table) q in
    (
      child-returns t tid s s.child refl (λ gone. cc ((Reach-absent p).1 gone)) v.flag e,
      ground (arith, u.waited, (Reach-absent q).0 refl),
    )
