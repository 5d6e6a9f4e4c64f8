-- ===== src/Sysconf/Forwarding.antt =====
-- `sysconf` over the whole table.
use Prim.Native.String.{String}
use fake_libc.Common.{
  ℕ, ◌≤◌, ◌<◌, ◌≡◌, refl, inl, [], ◌∷◌, Option, none, some, fault, get_elem?, true, arith,
}
use fake_libc.Loader.{Linker, Runtime}
use fake_libc.Loader.Returns.{faults, bind, mono}
use fake_libc.Loader.Ready.{Provides, IsReady}
use fake_libc.Loader.Streams.{Forwards, load_glibc, call_glibc-Returns}
use fake_libc.Sysconf.Table.{initialisers}
use fake_libc.Sysconf.Translation.{sysconf_map, map_name, sysconf}
use fake_libc.Sysconf.Designators.{
  increasing, initialise-hit, initialise-IsBlank, length-initialise, below-blank, get_elem?-none,
}

initialisers-increasing : increasing 0 initialisers ≡ true
initialisers-increasing = refl

module _ (L : Linker) (p : Provides L) (macros : String → Option ℕ) where
  sysconf-Forwards :
      (name v : ℕ)
      → get_elem? (sysconf_map macros) name ≡ some v
      → Forwards L (sysconf L macros name) "sysconf" (v ∷ [])
  unfolding sysconf
  sysconf-Forwards name v e r w = bind (load_glibc L p "sysconf" r w refl) λ _ r1 (x1, e1).
      rw (map_name, e)
        (mono (call_glibc-Returns L "sysconf" (v ∷ []) r1 x1.ready e1 (p.symbols "sysconf" refl))
          λ a r2 c. record {
            ready = c.ready;
            answer = rw (← x1.calls) c.answer;
            calls = rw (← x1.calls) c.calls;
          })

  -- If glibc provides its symbols: where the name of the k-th initialiser is a macro for v, sysconf
  -- of bionic's number for this name makes one call of glibc's sysconf on v, and answers what this
  -- call answers.
  pub sysconf-translates :
      (k name v : ℕ) (macro : String)
      → get_elem? initialisers k ≡ some (name, macro)
      → macros macro ≡ some v
      → Forwards L (sysconf L macros name) "sysconf" (v ∷ [])
  unfolding sysconf_map
  sysconf-translates k name v macro g d =
      sysconf-Forwards name v
        (initialise-hit macros initialisers [] 0 k name v macro initialisers-increasing g d)

  -- If glibc provides its symbols: a number that no defined initialiser has, below one that a
  -- defined initialiser has, is handed to glibc's sysconf as 0, in one call, whose answer is the
  -- answer.
  pub sysconf-blank :
      (name k larger v : ℕ) (macro : String)
      → ((j : ℕ) (m : String) → get_elem? initialisers j ≡ some (name, m) → macros m ≡ none)
      → name < larger
      → get_elem? initialisers k ≡ some (larger, macro)
      → macros macro ≡ some v
      → Forwards L (sysconf L macros name) "sysconf" (0 ∷ [])
  unfolding sysconf_map
  sysconf-blank name k larger v macro undefined lt g d = sysconf-Forwards name 0 (
      below-blank (sysconf_map macros) name larger v lt
        (initialise-hit macros initialisers [] 0 k larger v macro initialisers-increasing g d)
        (initialise-IsBlank macros initialisers [] name undefined (inl refl)))

  -- If glibc provides its symbols: from a ready runtime, `sysconf` of a number above those of all
  -- defined initialisers reads the table out of its bounds.
  pub sysconf-above :
      (name : ℕ) (r : Runtime)
      → IsReady L r
      → ((k i : ℕ) (m : String)
          → get_elem? initialisers k ≡ some (i, m)
          → name ≤ i
          → macros m ≡ none)
      → sysconf L macros name r ≡ fault
  unfolding sysconf_map sysconf
  sysconf-above name r w undefined =
      let short = length-initialise macros initialisers [] name undefined (omega arith) in
      let out = get_elem?-none (sysconf_map macros) name short in
      faults (load_glibc L p "sysconf" r w refl) (λ _ r1 _. rw (map_name, out) refl)
