-- ===== src/Tests/Sysconf.antt =====
-- `sysconf` with two macros, and with none.
use Prim.Native.String.{String}
use text.Mathlib.Text.{◌==◌ as str_eq}
use fake_libc.Common.{
  ℕ, zero, suc, ◌≤◌, ◌≡◌, refl, ◌==◌, ltb, if◌then◌else◌, Bool, true, not, ◌&&◌, List, [], ◌∷◌,
  Option, none, some, get_elem?, arith, fault,
}
use fake_libc.Loader.Streams.{Forwards}
use fake_libc.Sysconf.Table.{initialisers}
use fake_libc.Sysconf.Translation.{designate, initialise, sysconf_map, sysconf}
use fake_libc.Sysconf.Forwarding.{sysconf-translates, sysconf-blank, sysconf-above}
use fake_libc.Tests.Stdio.{tiny, tiny-Provides, started, started-IsReady}

abbrev two_names : String → Option ℕ
two_names s =
    if str_eq s "_SC_CHILD_MAX"
    then some 1
    else (if str_eq s "_SC_NPROCESSORS_CONF" then some 83 else none)

sixth_slot : get_elem? (sysconf_map two_names) 5 ≡ some 1
unfolding sysconf_map initialise designate
sixth_slot = refl

abbrev all : ((ℕ × String) → Bool) → List (ℕ × String) → Bool
all p [] = true
all p (e ∷ es) = p e && all p es

all-get_elem? :
    (p : (ℕ × String) → Bool) (es : List (ℕ × String)) (k : ℕ) (e : ℕ × String)
    → all p es ≡ true
    → get_elem? es k ≡ some e
    → p e ≡ true
all-get_elem? p [] k e h g = cc
all-get_elem? p (x ∷ es) zero e h g = let same : x ≡ e = cc in rw (← same) (ground arith)
all-get_elem? p (x ∷ es) (suc k) e h g = all-get_elem? p es k e (ground arith) g

gap : (j : ℕ) (m : String) → get_elem? initialisers j ≡ some (0x56, m) → two_names m ≡ none
gap j m g =
    let other = all-get_elem? (λ e. not (e.0 == 0x56)) initialisers j (0x56, m) refl g in
    absurd (ground (arith, other))

end_of_table :
    (k i : ℕ) (m : String) → get_elem? initialisers k ≡ some (i, m) → 100 ≤ i → two_names m ≡ none
end_of_table k i m g le =
    let below = all-get_elem? (λ e. ltb e.0 100) initialisers k (i, m) refl g in
    absurd (ground (arith, below))

nprocessors : Forwards tiny (sysconf tiny two_names 0x60) "sysconf" (83 ∷ [])
nprocessors =
    sysconf-translates tiny tiny-Provides two_names 86 0x60 83 "_SC_NPROCESSORS_CONF" refl refl

blank_slot : Forwards tiny (sysconf tiny two_names 0x56) "sysconf" (0 ∷ [])
blank_slot =
    sysconf-blank tiny tiny-Provides two_names 0x56 86 0x60 83 "_SC_NPROCESSORS_CONF" gap
      (omega arith) refl refl

end_faults : sysconf tiny two_names 100 started ≡ fault
end_faults = sysconf-above tiny tiny-Provides two_names 100 started started-IsReady end_of_table
