-- ===== src/Loader/Returns.antt =====
-- A run that faults nowhere and ends in a value and a state with a property.
use fake_libc.Common.{Outcome, ok, fault, ◌≡◌}
use fake_libc.Loader.{Runtime, M, and_then}

pub data Returns {A : Type 0} (P : A → Runtime → Type 0) : Outcome (A × Runtime) → Type 0 where
  returns : {a : A} {r : Runtime} → P a r → Returns P (ok (a, r))

module _ {A : Type 0} {P : A → Runtime → Type 0} where
  pub bind :
      {B : Type 0} {Q : B → Runtime → Type 0} {o : Outcome (A × Runtime)} {f : A → M B}
      → Returns P o
      → ((a : A) (r : Runtime) → P a r → Returns Q (f a r))
      → Returns Q (and_then o f)
  bind (returns p) next = next _ _ p

  pub mono :
      {Q : A → Runtime → Type 0} {o : Outcome (A × Runtime)}
      → Returns P o
      → ((a : A) (r : Runtime) → P a r → Q a r)
      → Returns Q o
  mono (returns p) weaken = returns (weaken _ _ p)

  -- A run that faults in its rest.
  pub faults :
      {B : Type 0} {o : Outcome (A × Runtime)} {f : A → M B}
      → Returns P o
      → ((a : A) (r : Runtime) → P a r → f a r ≡ fault)
      → and_then o f ≡ fault
  faults (returns p) next = next _ _ p
