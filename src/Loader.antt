-- ===== src/Loader.antt =====
-- The lazy loading of fake_libc.c: the macros LOAD_GLIBC, LOAD_RT, LOAD_GCC, LOAD_PTHREAD,
-- LOAD_GLIBC_SYMBOL and LOAD_RT_SYMBOL, `init_dl`, and `_get_actual_fp`. An address is a number, and a
-- null pointer is 0. A value of a C type that the code only hands on (a pointer, an integer, the bits
-- of a float, a `va_list`) is a number too.
pub mod Returns
pub mod Ready
pub mod Streams
pub mod Init
use text.Mathlib.Text.{◌==◌ as str_eq}
use Prim.Native.String.{String}
use fake_libc.Common.{
  ℕ, ◌+◌, ◌*◌, ◌==◌, if◌then◌else◌, Bool, true, false, ◌&&◌, List, [], ◌∷◌, Outcome, ok, fault,
}

pub data Library : Type 0 where
  glibc rt gcc pthread : Library

abbrev pub same_library : Library → Library → Bool
same_library glibc glibc = true
same_library rt rt = true
same_library gcc gcc = true
same_library pthread pthread = true
same_library _ _ = false

abbrev pub path : Library → String
path glibc = "/lib/libc.so.6"
path rt = "/lib/librt.so.1"
path gcc = "/usr/lib/libgcc_s.so"
path pthread = "/lib/libpthread.so.0"

abbrev pub lm_id_base : ℕ
lm_id_base = 0

-- A call through a function pointer.
abbrev pub Event : Type 0
Event = ℕ × List ℕ

-- The dynamic linker, what a called function answers after earlier calls, what is stored at the
-- address of a variable of glibc, and where the array `__sF` stands and how large its entries are.
pub record Linker : Type 0 where
  pub dlmopen : ℕ → String → ℕ
  pub dlsym : ℕ → String → ℕ
  pub answer : List Event → ℕ → List ℕ → ℕ
  pub content : ℕ → ℕ
  pub sf_base : ℕ
  pub sf_size : ℕ

-- The static variables that only `init_dl` and `init_setjmp` set.
pub record Statics : Type 0 where
  pub glibc_dlmopen : ℕ
  pub glibc_dlsym : ℕ
  pub glibc_tls_get_addr : ℕ
  pub android_dl_namespace_id : ℕ
  pub init_dlfunctions : ℕ
  pub progname : ℕ
  pub setjmp_handle : ℕ

-- The handles `glibc_handle` and so on, the pointers `glibc_f` and `rt_f`, and the other static
-- variables. `calls` is the trace, the latest first.
pub record Runtime : Type 0 where
  pub handle : Library → ℕ
  pub symbol : Library → String → ℕ
  pub statics : Statics
  pub calls : List Event

abbrev pub M : Type 0 → Type 0
M A = Runtime → Outcome (A × Runtime)

-- What follows a run.
abbrev pub and_then : {A B : Type 0} → Outcome (A × Runtime) → (A → M B) → Outcome (B × Runtime)
and_then fault f = fault
and_then (ok (a, r)) f = f a r

infixl 5 ◌>>=◌ ◌>>◌
abbrev pub ◌>>=◌ : {A B : Type 0} → M A → (A → M B) → M B
◌>>=◌ m f r = and_then (m r) f

abbrev pub ◌>>◌ : {A B : Type 0} → M A → M B → M B
m >> k = m >>= λ _. k

abbrev pub pure : {A : Type 0} → A → M A
pure a r = ok (a, r)

-- Assignments to the static variables.
unfoldable pub set_handle : Library → ℕ → Runtime → Runtime
set_handle lib p r = record r { handle = λ l. if same_library lib l then p else r.handle l }

unfoldable pub set_symbol : Library → String → ℕ → Runtime → Runtime
set_symbol lib f p r = record r {
  symbol = λ l g. if same_library lib l && str_eq f g then p else r.symbol l g;
}

abbrev pub set_statics : (Statics → Statics) → M (Unit {0})
set_statics f r = ok (tt, record r { statics = f r.statics })

module _ (L : Linker) where
  -- The calls through the pointers `glibc_dlmopen` and `glibc_dlsym`: what the functions at addresses
  -- other than 0 do is the linker.
  unfoldable pub via_dlmopen : ℕ → String → M ℕ
  via_dlmopen id file r = if r.statics.glibc_dlmopen == 0 then fault else ok (L.dlmopen id file, r)

  unfoldable pub via_dlsym : ℕ → String → M ℕ
  via_dlsym h f r = if r.statics.glibc_dlsym == 0 then fault else ok (L.dlsym h f, r)

  -- LOAD_GLIBC() and its kin.
  unfoldable pub load_library : Library → M (Unit {0})
  unfolding via_dlmopen
  load_library lib r =
      if r.handle lib == 0
      then (via_dlmopen lm_id_base (path lib) >>= λ p r'. ok (tt, set_handle lib p r')) r
      else ok (tt, r)

  -- What stands behind LOAD_GLIBC() in LOAD_GLIBC_SYMBOL(f): the look-up, and the assertion.
  unfoldable pub look_up : Library → String → M (Unit {0})
  unfolding via_dlsym
  look_up lib f r =
      (via_dlsym (r.handle lib) f >>= λ p r'.
      if p == 0 then fault else ok (tt, set_symbol lib f p r'))
        r

  -- LOAD_GLIBC_SYMBOL(f) and LOAD_RT_SYMBOL(f).
  unfoldable pub load_symbol : Library → String → M (Unit {0})
  load_symbol lib f r =
      if r.symbol lib f == 0 then (load_library lib >> look_up lib f) r else ok (tt, r)

  abbrev pub load_glibc_symbol : String → M (Unit {0})
  load_glibc_symbol = load_symbol glibc

  -- A call through a pointer that is held in a variable; through a null pointer it is a fault.
  unfoldable pub call_pointer : ℕ → List ℕ → M ℕ
  call_pointer p args r =
      if p == 0
      then fault
      else ok (L.answer r.calls p args, record r { calls = (p, args) ∷ r.calls })

  abbrev pub call_glibc : String → List ℕ → M ℕ
  call_glibc f args r = call_pointer (r.symbol glibc f) args r

  abbrev pub call_init_dlfunctions : List ℕ → M ℕ
  call_init_dlfunctions args r = call_pointer r.statics.init_dlfunctions args r

  -- `*glibc_f` for a variable `f` of glibc.
  unfoldable pub deref_glibc : String → M ℕ
  deref_glibc f r = if r.symbol glibc f == 0 then fault else ok (L.content (r.symbol glibc f), r)

  -- `&__sF[i]`
  abbrev pub sf : ℕ → ℕ
  sf i = L.sf_base + i * L.sf_size

  -- The comparisons of `_get_actual_fp`.
  unfoldable pub choose_stream : ℕ → M ℕ
  choose_stream fp =
      if fp == sf 0
      then deref_glibc "stdin"
      else (if fp == sf 1
          then deref_glibc "stdout"
          else (if fp == sf 2 then deref_glibc "stderr" else pure fp))

  unfoldable pub get_actual_fp : ℕ → M ℕ
  get_actual_fp fp = do
    load_glibc_symbol "stdin"
    load_glibc_symbol "stdout"
    load_glibc_symbol "stderr"
    choose_stream fp

  -- A wrapper that only hands its arguments on.
  unfoldable pub forward : String → List ℕ → M ℕ
  forward f args = do load_glibc_symbol f; call_glibc f args

  -- A wrapper that hands on glibc's stream for the bionic one; `args` places it.
  unfoldable pub forward_stream : String → ℕ → (ℕ → List ℕ) → M ℕ
  forward_stream f fp args = do
    load_glibc_symbol f
    actual ← get_actual_fp fp
    call_glibc f (args actual)

  -- LOAD_SETJMP(), which is all of `init_setjmp`.
  unfoldable pub init_setjmp : M (Unit {0})
  unfolding via_dlmopen
  init_setjmp r =
      if r.statics.setjmp_handle == 0
      then (via_dlmopen r.statics.android_dl_namespace_id "libsetjmp.so" >>= λ p.
            set_statics (λ s. record s { setjmp_handle = p }))
          r
      else ok (tt, r)

  unfoldable pub init_dl : (a_dl_ns_id op sym addr err clo it programname tls : ℕ) → M (Unit {0})
  unfolding via_dlmopen via_dlsym
  init_dl a_dl_ns_id op sym addr err clo it programname tls = do
    set_statics λ s. record s { glibc_dlmopen = op; glibc_dlsym = sym }
    set_statics λ s. record s { glibc_tls_get_addr = tls }
    load_library glibc
    load_library rt
    load_library gcc
    load_library pthread
    set_statics λ s. record s { android_dl_namespace_id = a_dl_ns_id }
    libdl ← (λ r. via_dlmopen r.statics.android_dl_namespace_id "libdl.so" r)
    found ← via_dlsym libdl "init_dlfunctions"
    set_statics λ s. record s { init_dlfunctions = found }
    call_init_dlfunctions (a_dl_ns_id ∷ op ∷ sym ∷ addr ∷ err ∷ clo ∷ it ∷ [])
    load_glibc_symbol "syscall"
    set_statics λ s. record s { progname = programname }
    load_glibc_symbol "fprintf"
    load_glibc_symbol "stderr"
