-- ===== src/Stdio/Irregular/Symbols.antt =====
-- The wrappers that call through a pointer which they have not loaded.
use Prim.Native.String.{String}
use text.Mathlib.Text.{◌==◌ as str_eq}
use fake_libc.Common.{ℕ, refl, ◌∙◌, ◌≢◌, ◌≡◌, false, true, List, [], ◌∷◌, Outcome, fault, arith}
use fake_libc.Loader.{Linker, Runtime, glibc, load_symbol, call_glibc, call_pointer, and_then}
use fake_libc.Loader.Returns.{Returns, returns, bind, mono}
use fake_libc.Loader.Ready.{uses, Provides, IsReady, Extends, symbol_at, load_symbol-Returns}
use fake_libc.Loader.Streams.{Called, call_glibc-Returns}
use fake_libc.Stdio.Irregular.{printf, readdir}

module _ (L : Linker) (p : Provides L) where
  -- A load of one symbol leaves the pointer of another as it was.
  load_other :
      (f g : String) (r : Runtime)
      → IsReady L r
      → uses f ≡ true
      → str_eq f g ≡ false
      → Returns
          (λ _ r'. Extends L r r' × (r'.symbol glibc g ≡ r.symbol glibc g))
          (load_symbol L glibc f r)
  load_other f g r v ok_f ne =
      mono (load_symbol-Returns L glibc f r v (p.libraries glibc) (p.symbols f ok_f))
        λ _ r' (x, e, others). (x, others glibc g ne)

  -- `load_symbol f` and then a call of `g`.
  load_then_call :
      (f g : String) (args : List ℕ) (r : Runtime)
      → IsReady L r
      → uses f ≡ true
      → uses g ≡ true
      → str_eq f g ≡ false
      → r.symbol glibc g ≢ 0
      → Returns (Called L g args r) (and_then (load_symbol L glibc f r) (λ _. call_glibc L g args))
  load_then_call f g args r v ok_f ok_g ne held = bind (load_other f g r v ok_f ne) λ _ r1 (x, e).
      let at : r.symbol glibc g ≡ symbol_at L glibc g = ground (arith, v.pointers glibc g) in
      mono (call_glibc-Returns L g args r1 x.ready (e ∙ at) (p.symbols g ok_g)) λ a r2 c. record {
        ready = c.ready;
        answer = rw (← x.calls) c.answer;
        calls = rw (← x.calls) c.calls;
      }

  call_null :
      (g : String) (args : List ℕ) (r : Runtime)
      → r.symbol glibc g ≡ 0
      → call_glibc L g args r ≡ fault
  unfolding call_pointer
  call_null g args r e = rw e

  load_then_null :
      (f g : String) (args : List ℕ) (r : Runtime)
      → IsReady L r
      → uses f ≡ true
      → str_eq f g ≡ false
      → r.symbol glibc g ≡ 0
      → and_then (load_symbol L glibc f r) (λ _. call_glibc L g args) ≡ fault
  load_then_null f g args r v ok_f ne null = go (load_other f g r v ok_f ne)
    where
      go :
          {o : Outcome (Unit {0} × Runtime)}
          → Returns (λ _ r'. Extends L r r' × (r'.symbol glibc g ≡ r.symbol glibc g)) o
          → and_then o (λ _. call_glibc L g args) ≡ fault
      go (returns {r = r1} (x, e)) = call_null g args r1 (e ∙ null)

  -- If glibc provides its symbols: printf and readdir load another symbol than they call, so
  -- from a ready runtime in which the symbols that they call have not been loaded both call
  -- through a null pointer.
  pub unloaded_call :
      (a b : ℕ) (r : Runtime)
      → IsReady L r
      → r.symbol glibc "vprintf" ≡ 0
      → r.symbol glibc "readdir" ≡ 0
      → (printf L a b r ≡ fault) × (readdir L a r ≡ fault)
  unfolding printf readdir
  unloaded_call a b r v no_vprintf no_readdir = (
    load_then_null "vfprintf" "vprintf" (a ∷ b ∷ []) r v refl refl no_vprintf,
    load_then_null "readdir_r" "readdir" (a ∷ []) r v refl refl no_readdir,
  )

  -- If glibc provides its symbols: from a ready runtime in which the symbols that they call have been
  -- loaded, printf and readdir make one call of glibc's vprintf and readdir and answer its answer.
  loaded_call :
      (a b : ℕ) (r : Runtime)
      → IsReady L r
      → r.symbol glibc "vprintf" ≢ 0
      → r.symbol glibc "readdir" ≢ 0
      → Returns (Called L "vprintf" (a ∷ b ∷ []) r) (printf L a b r)
        × Returns (Called L "readdir" (a ∷ []) r) (readdir L a r)
  unfolding printf readdir
  loaded_call a b r v has_vprintf has_readdir = (
    load_then_call "vfprintf" "vprintf" (a ∷ b ∷ []) r v refl refl refl has_vprintf,
    load_then_call "readdir_r" "readdir" (a ∷ []) r v refl refl refl has_readdir,
  )
