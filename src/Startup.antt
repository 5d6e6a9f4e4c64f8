-- ===== src/Startup.antt =====
-- android_namespace.c and dl.c: the function that opens Android libraries in a namespace of their own,
-- starting the fake libc there on its first call, and the fake libdl.so.
pub mod Namespace
pub mod Handover
use Prim.Native.String.{String}
use fake_libc.Common.{
  ℕ, ◌==◌, if◌then◌else◌, Option, none, some, List, [], ◌∷◌, Outcome, ok, fault, ◌>>=◌,
}
use fake_libc.Loader.{Linker, Event, M, init_dl}

-- The static variables of dl.c.
pub record Functions : Type 0 where
  pub glibc_dlmopen : ℕ
  pub glibc_dlsym : ℕ
  pub glibc_dladdr : ℕ
  pub glibc_dlerror : ℕ
  pub glibc_dlclose : ℕ
  pub glibc_dl_iterate_phdr : ℕ
  pub android_dl_namespace_id : ℕ

pub init_dlfunctions : (a_dl_ns_id op sym addr err clo it : ℕ) → Functions
init_dlfunctions a_dl_ns_id op sym addr err clo it = record {
  android_dl_namespace_id = a_dl_ns_id;
  glibc_dlmopen = op;
  glibc_dlsym = sym;
  glibc_dladdr = addr;
  glibc_dlerror = err;
  glibc_dlclose = clo;
  glibc_dl_iterate_phdr = it;
}

-- The functions of dl.c, as the calls that they make.
module _ (s : Functions) where
  pub dlopen : ℕ → ℕ → Event
  dlopen filename flags =
      let flags' = (if flags == 0 then 1 else flags) in
      (s.glibc_dlmopen, s.android_dl_namespace_id ∷ filename ∷ flags' ∷ [])

  pub dlsym : ℕ → ℕ → Event
  dlsym handle symbol = (s.glibc_dlsym, handle ∷ symbol ∷ [])

  pub dladdr : ℕ → ℕ → Event
  dladdr addr info = (s.glibc_dladdr, addr ∷ info ∷ [])

  pub dlerror : Event
  dlerror = (s.glibc_dlerror, [])

  pub dlclose : ℕ → Event
  dlclose handle = (s.glibc_dlclose, handle ∷ [])

  pub dl_iterate_phdr : ℕ → ℕ → Event
  dl_iterate_phdr callback dat = (s.glibc_dl_iterate_phdr, callback ∷ dat ∷ [])

-- The program that calls `android_dlopen`: its dynamic linker, and the addresses that it passes on.
pub record Host : Type 0 where
  pub dlmopen : ℕ → String → ℕ → ℕ
  pub lmid : ℕ → ℕ
  pub dlsym : ℕ → String → ℕ
  pub at_dlmopen : ℕ
  pub at_dlsym : ℕ
  pub at_dladdr : ℕ
  pub at_dlclose : ℕ
  pub at_dl_iterate_phdr : ℕ
  pub program_invocation_name : ℕ
  pub at_tls_get_addr : ℕ

-- `android_dl_namespace_id`, where -1, which dlinfo answers for no library, is none, and the calls of
-- dlmopen and of `init_dl`, the latest first.
pub record Process : Type 0 where
  pub android_dl_namespace_id : Option ℕ
  pub opened : List (ℕ × String)
  pub init_calls : List Event

-- LM_ID_NEWLM, as a machine word, and RTLD_LAZY.
abbrev pub lm_id_newlm : ℕ
lm_id_newlm = 0xFFFFFFFF

abbrev pub rtld_lazy : ℕ
rtld_lazy = 1

module _ (H : Host) where
  -- The arguments of `init_dl` in `android_dlopen`.
  pub passed : ℕ → List ℕ
  passed id =
      id ∷ H.at_dlmopen ∷ H.at_dlsym ∷ H.at_dladdr ∷ H.at_dlclose ∷ H.at_dl_iterate_phdr
      ∷ H.program_invocation_name ∷ H.at_tls_get_addr ∷ []

  -- What stands in the `if` of `android_dlopen`; the result is the namespace.
  unfoldable pub start : Process → Outcome (ℕ × Process)
  start s =
      let libchandle = H.dlmopen lm_id_newlm "libc.so" rtld_lazy in
      let id = H.lmid libchandle in
      let init_dl = H.dlsym libchandle "init_dl" in
      if libchandle == 0
      then fault
      else (if init_dl == 0
          then fault
          else ok (
            id,
            record {
              android_dl_namespace_id = some id;
              opened = (lm_id_newlm, "libc.so") ∷ s.opened;
              init_calls = (init_dl, passed id) ∷ s.init_calls;
            },
          ))

  unfoldable pub open_in : String → ℕ → ℕ × Process → Outcome (ℕ × Process)
  open_in name flags (id, s) =
      ok (H.dlmopen id name flags, record s { opened = (id, name) ∷ s.opened })

  unfoldable pub android_dlopen : String → ℕ → Process → Outcome (ℕ × Process)
  unfolding start open_in
  android_dlopen name flags s = elim s.android_dl_namespace_id [
    | none ↦ start s >>= open_in name flags
    | some id ↦ open_in name flags (id, s)
  ]

-- How `init_dl`, with nine parameters, receives a call; `beyond` is what stands where an argument
-- that is not passed would stand.
unfoldable pub receive : Linker → List ℕ → ℕ → M (Unit {0})
receive L (id ∷ op ∷ sym ∷ addr ∷ err ∷ clo ∷ it ∷ programname ∷ []) beyond =
    init_dl L id op sym addr err clo it programname beyond
receive L (id ∷ op ∷ sym ∷ addr ∷ err ∷ clo ∷ it ∷ programname ∷ tls ∷ rest) beyond =
    init_dl L id op sym addr err clo it programname tls
receive L _ beyond = λ r. fault

-- The call of `init_dlfunctions`, as dl.c receives it.
unfoldable pub receive_functions : Event → Option Functions
receive_functions (f, id ∷ op ∷ sym ∷ addr ∷ err ∷ clo ∷ it ∷ []) =
    some (init_dlfunctions id op sym addr err clo it)
receive_functions _ = none
