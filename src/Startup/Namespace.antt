-- ===== src/Startup/Namespace.antt =====
-- All libraries are opened in one namespace, and the fake libc is started once.
use Prim.Native.String.{String}
use fake_libc.Common.{
  ℕ, ◌≡◌, ◌≢◌, refl, ◌==◌, none, some, List, [], ◌∷◌, Outcome, ok, ◌>>=◌, ne→==, fault, Bool-cases,
  inl, inr,
}
use fake_libc.Startup.{
  Host, Process, lm_id_newlm, rtld_lazy, passed, start, open_in, android_dlopen,
}

-- Any sequence of calls, after a first one.
unfoldable pub open_all : Host → List (String × ℕ) → Process → Outcome Process
open_all H [] s = ok s
open_all H ((name, flags) ∷ more) s = do
  (handle, s') ← android_dlopen H name flags s
  open_all H more s'

abbrev pub names_in : ℕ → List (String × ℕ) → List (ℕ × String) → List (ℕ × String)
names_in id [] opened = opened
names_in id ((name, flags) ∷ more) opened = names_in id more ((id, name) ∷ opened)

-- The process before the first call.
abbrev pub fresh : Process
fresh = record { android_dl_namespace_id = none; opened = []; init_calls = [] }

module _ (H : Host) where
  abbrev pub libc_handle : ℕ
  libc_handle = H.dlmopen lm_id_newlm "libc.so" rtld_lazy

  abbrev pub namespace : ℕ
  namespace = H.lmid libc_handle

  -- The process after the fake libc has been started and `opened` have been opened.
  abbrev pub running : List (ℕ × String) → Process
  running opened = record {
    android_dl_namespace_id = some namespace;
    opened = opened;
    init_calls = (H.dlsym libc_handle "init_dl", passed H namespace) ∷ [];
  }

  first-opens :
      (name : String) (flags : ℕ)
      → libc_handle ≢ 0
      → H.dlsym libc_handle "init_dl" ≢ 0
      → android_dlopen H name flags fresh
        ≡ ok (
          H.dlmopen namespace name flags,
          running ((namespace, name) ∷ (lm_id_newlm, "libc.so") ∷ []),
        )
  unfolding android_dlopen start open_in
  first-opens name flags there init_there =
      rw (ne→== libc_handle 0 there, ne→== (H.dlsym libc_handle "init_dl") 0 init_there) refl

  open_all-running :
      (calls : List (String × ℕ)) (opened : List (ℕ × String))
      → open_all H calls (running opened) ≡ ok (running (names_in namespace calls opened))
  unfolding open_all android_dlopen open_in
  open_all-running [] opened = refl
  open_all-running ((name, flags) ∷ more) opened =
      open_all-running more ((namespace, name) ∷ opened)

  no_init :
      (name : String) (flags : ℕ)
      → H.dlsym libc_handle "init_dl" ≡ 0
      → android_dlopen H name flags fresh ≡ fault
  unfolding android_dlopen start
  no_init name flags lacking = elim (Bool-cases (libc_handle == 0)) [
    | inl null ↦ rw null refl
    | inr there ↦ rw (there, lacking) refl
  ]

  -- Where the fake libc.so can be loaded and has init_dl, any calls of android_dlopen, one at
  -- least, load libc.so once, in a new namespace, call init_dl once, and open each of their
  -- libraries in this namespace, in their order.
  pub open_all-one_namespace :
      (name : String) (flags : ℕ) (calls : List (String × ℕ))
      → libc_handle ≢ 0
      → H.dlsym libc_handle "init_dl" ≢ 0
      → open_all H ((name, flags) ∷ calls) fresh
        ≡ ok (running (names_in namespace ((name, flags) ∷ calls) ((lm_id_newlm, "libc.so") ∷ [])))
  unfolding open_all
  open_all-one_namespace name flags calls there init_there =
      rw (first-opens name flags there init_there)
        (open_all-running calls ((namespace, name) ∷ (lm_id_newlm, "libc.so") ∷ []))
