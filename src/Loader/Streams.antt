-- ===== src/Loader/Streams.antt =====
-- What a wrapper of fake_libc.c does: it calls the one function of glibc that it names, with the
-- arguments that it is given, the stream translated.
use Prim.Native.String.{String}
use fake_libc.Common.{
  ℕ, ◌≡◌, ◌≢◌, refl, sym, ap, ◌∙◌, ◌==◌, if◌then◌else◌, false, true, inl, inr, List, ◌∷◌,
  Bool-cases, ne→==,
}
use fake_libc.Loader.{
  glibc, Linker, Runtime, M, load_symbol, call_pointer, call_glibc, deref_glibc, get_actual_fp,
  choose_stream, sf, forward, forward_stream,
}
use fake_libc.Loader.Returns.{Returns, returns, bind, mono}
use fake_libc.Loader.Ready.{uses, symbol_at, Provides, IsReady, Extends, load_symbol-Returns}

module _ (L : Linker) where
  -- glibc's stream for a bionic one.
  unfoldable pub actual : ℕ → ℕ
  actual fp =
      if fp == sf L 0
      then L.content (symbol_at L glibc "stdin")
      else (if fp == sf L 1
          then L.content (symbol_at L glibc "stdout")
          else (if fp == sf L 2 then L.content (symbol_at L glibc "stderr") else fp))

  -- The outcome of a wrapper: one call of glibc's function `f`, whose answer is the wrapper's.
  pub record Called (f : String) (args : List ℕ) (r : Runtime) (v : ℕ) (r' : Runtime) : Type 0 where
    pub ready : IsReady L r'
    pub answer : v ≡ L.answer r.calls (symbol_at L glibc f) args
    pub calls : r'.calls ≡ (symbol_at L glibc f, args) ∷ r.calls

  -- From every ready runtime the wrapper `w` calls `f` with `args`, once, and nothing else.
  abbrev pub Forwards : M ℕ → String → List ℕ → Type 0
  Forwards w f args = (r : Runtime) → IsReady L r → Returns (Called f args r) (w r)

  pub call_glibc-Returns :
      (f : String) (args : List ℕ) (r : Runtime)
      → IsReady L r
      → r.symbol glibc f ≡ symbol_at L glibc f
      → symbol_at L glibc f ≢ 0
      → Returns (Called f args r) (call_glibc L f args r)
  unfolding call_pointer
  call_glibc-Returns f args r v e there =
      let held : (r.symbol glibc f == 0) ≡ false = rw e (ne→== (symbol_at L glibc f) 0 there) in
      rw held (
        returns (record {
          ready = record {
            dlmopen_there = v.dlmopen_there;
            dlsym_there = v.dlsym_there;
            handles = v.handles;
            pointers = v.pointers;
          };
          answer = ap (λ p. L.answer r.calls p args) e;
          calls = ap (λ p. (p, args) ∷ r.calls) e;
        }))

  deref_glibc-Returns :
      (f : String) (r : Runtime)
      → r.symbol glibc f ≡ symbol_at L glibc f
      → symbol_at L glibc f ≢ 0
      → Returns (λ v r'. (r' ≡ r) × (v ≡ L.content (symbol_at L glibc f))) (deref_glibc L f r)
  unfolding deref_glibc
  deref_glibc-Returns f r e there =
      let held : (r.symbol glibc f == 0) ≡ false = rw e (ne→== (symbol_at L glibc f) 0 there) in
      rw held (returns (refl, ap L.content e))

  module _ (p : Provides L) where
    pub load_glibc :
        (f : String) (r : Runtime)
        → IsReady L r
        → uses f ≡ true
        → Returns
            (λ _ r'. Extends L r r' × (r'.symbol glibc f ≡ symbol_at L glibc f))
            (load_symbol L glibc f r)
    load_glibc f r v ne =
        mono (load_symbol-Returns L glibc f r v (p.libraries glibc) (p.symbols f ne))
          λ _ r' (x, e, o). (x, e)

    choose_stream-Returns :
        (fp : ℕ) (r : Runtime)
        → r.symbol glibc "stdin" ≡ symbol_at L glibc "stdin"
        → r.symbol glibc "stdout" ≡ symbol_at L glibc "stdout"
        → r.symbol glibc "stderr" ≡ symbol_at L glibc "stderr"
        → Returns (λ v r'. (r' ≡ r) × (v ≡ actual fp)) (choose_stream L fp r)
    unfolding actual choose_stream
    choose_stream-Returns fp r e0 e1 e2 = elim (Bool-cases (fp == sf L 0)) [
      | inl is0 ↦ rw is0 (deref_glibc-Returns "stdin" r e0 (p.symbols "stdin" refl))
      | inr no0 ↦ rw no0 (elim (Bool-cases (fp == sf L 1)) [
        | inl is1 ↦ rw is1 (deref_glibc-Returns "stdout" r e1 (p.symbols "stdout" refl))
        | inr no1 ↦ rw no1 (elim (Bool-cases (fp == sf L 2)) [
          | inl is2 ↦ rw is2 (deref_glibc-Returns "stderr" r e2 (p.symbols "stderr" refl))
          | inr no2 ↦ rw no2 (returns (refl, refl))
        ])
      ])
    ]

    -- A pointer that is loaded stays so under a further load.
    pub still :
        (f : String) {r r' : Runtime}
        → Extends L r r'
        → uses f ≡ true
        → r.symbol glibc f ≡ symbol_at L glibc f
        → r'.symbol glibc f ≡ symbol_at L glibc f
    still f x ne e = x.keeps glibc f (λ z. p.symbols f ne (sym e ∙ z)) ∙ e

    pub Extends-trans : {r s t : Runtime} → Extends L r s → Extends L s t → Extends L r t
    Extends-trans x y = record {
      ready = y.ready;
      keeps = λ l g h. y.keeps l g (λ z. h (sym (x.keeps l g h) ∙ z)) ∙ x.keeps l g h;
      calls = y.calls ∙ x.calls;
      statics = y.statics ∙ x.statics;
    }

    pub get_actual_fp-Returns :
        (fp : ℕ) (r : Runtime)
        → IsReady L r
        → Returns (λ v r'. Extends L r r' × (v ≡ actual fp)) (get_actual_fp L fp r)
    unfolding get_actual_fp
    get_actual_fp-Returns fp r v = bind (load_glibc "stdin" r v refl) λ _ r1 (x1, e1).
        bind (load_glibc "stdout" r1 x1.ready refl) λ _ r2 (x2, e2).
          bind (load_glibc "stderr" r2 x2.ready refl) λ _ r3 (x3, e3).
            mono
              (choose_stream-Returns fp r3 (still "stdin" x3 refl (still "stdin" x2 refl e1))
                (still "stdout" x3 refl e2) e3)
              λ a r4 (same, e). (rw same (Extends-trans x1 (Extends-trans x2 x3)), e)

    pub forward-Returns :
        (f : String) (args : List ℕ) → uses f ≡ true → Forwards (forward L f args) f args
    unfolding forward
    forward-Returns f args ne r v = bind (load_glibc f r v ne) λ _ r1 (x1, e1).
        mono (call_glibc-Returns f args r1 x1.ready e1 (p.symbols f ne)) λ a r2 c. record {
          ready = c.ready;
          answer = rw (← x1.calls) c.answer;
          calls = rw (← x1.calls) c.calls;
        }

    pub forward_stream-Returns :
        (f : String) (fp : ℕ) (args : ℕ → List ℕ)
        → uses f ≡ true
        → Forwards (forward_stream L f fp args) f (args (actual fp))
    unfolding forward_stream
    forward_stream-Returns f fp args ne r v = bind (load_glibc f r v ne) λ _ r1 (x1, e1).
        bind (get_actual_fp-Returns fp r1 x1.ready) λ a r2 (x2, ea).
          mono (call_glibc-Returns f (args a) r2 x2.ready (still f x2 ne e1) (p.symbols f ne))
            λ b r3 c. record {
              ready = c.ready;
              answer = rw (← x1.calls, ← x2.calls, ← ea) c.answer;
              calls = rw (← x1.calls, ← x2.calls, ← ea) c.calls;
            }
