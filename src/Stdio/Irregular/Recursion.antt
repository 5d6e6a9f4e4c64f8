-- ===== src/Stdio/Irregular/Recursion.antt =====
-- The wrappers that call themselves.
use Prim.Native.String.{String}
use fake_libc.Common.{true, ℕ, zero, suc, refl, ◌≢◌, ◌≡◌, List, Option, none, Outcome}
use fake_libc.Loader.{Linker, Runtime, glibc, load_symbol, get_actual_fp, and_then}
use fake_libc.Loader.Returns.{Returns, returns, bind, mono}
use fake_libc.Loader.Ready.{uses, Provides, IsReady, symbol_at, load_symbol-Returns}
use fake_libc.Loader.Streams.{load_glibc, get_actual_fp-Returns}
use fake_libc.Stdio.Irregular.{fgetpos, fsetpos, funopen, again}

module _ (L : Linker) (p : Provides L) where
  head_Returns :
      (f : String) (stream : ℕ) (r : Runtime)
      → IsReady L r
      → uses f ≡ true
      → Returns
          (λ _ r'. IsReady L r')
          (and_then (load_symbol L glibc f r) (λ _. get_actual_fp L stream))
  head_Returns f stream r v ne =
      bind (load_glibc L p f r v ne)
        λ _ r1 (x, e). mono (get_actual_fp-Returns L p stream r1 x.ready) λ a r2 (y, e2). y.ready

  again-none :
      {A : Type 0} {o : Outcome (A × Runtime)} (next : A → Runtime → Option (Outcome (ℕ × Runtime)))
      → Returns (λ _ r'. IsReady L r') o
      → ((a : A) (r : Runtime) → IsReady L r → next a r ≡ none)
      → again o next ≡ none
  again-none next (returns v) more = more _ _ v

  fgetpos-none :
      (fuel stream pos : ℕ) (r : Runtime) → IsReady L r → fgetpos L fuel stream pos r ≡ none
  unfolding fgetpos
  fgetpos-none zero stream pos r v = refl
  fgetpos-none (suc fuel) stream pos r v =
      again-none _ (head_Returns "fgetpos" stream r v refl) λ a r' v'. fgetpos-none fuel a pos r' v'

  fsetpos-none :
      (fuel stream pos : ℕ) (r : Runtime) → IsReady L r → fsetpos L fuel stream pos r ≡ none
  unfolding fsetpos
  fsetpos-none zero stream pos r v = refl
  fsetpos-none (suc fuel) stream pos r v =
      again-none _ (head_Returns "fsetpos" stream r v refl) λ a r' v'. fsetpos-none fuel a pos r' v'

  funopen-none :
      (fuel : ℕ) (args : List ℕ) (r : Runtime)
      → symbol_at L glibc "funopen" ≢ 0
      → IsReady L r
      → funopen L fuel args r ≡ none
  unfolding funopen
  funopen-none zero args r there v = refl
  funopen-none (suc fuel) args r there v =
      again-none _
        (mono (load_symbol-Returns L glibc "funopen" r v (p.libraries glibc) there)
          λ _ r' (x, e, o). x.ready)
        λ a r' v'. funopen-none fuel args r' there v'

  -- If glibc provides its symbols: fgetpos and fsetpos call themselves, so that from a ready
  -- runtime no number of calls is enough for them to return.
  pub recursive_wrappers :
      (fuel stream pos : ℕ) (r : Runtime)
      → IsReady L r
      → (fgetpos L fuel stream pos r ≡ none) × (fsetpos L fuel stream pos r ≡ none)
  recursive_wrappers fuel stream pos r v =
      (fgetpos-none fuel stream pos r v, fsetpos-none fuel stream pos r v)
