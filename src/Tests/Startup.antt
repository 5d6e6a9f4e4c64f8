-- ===== src/Tests/Startup.antt =====
-- The start-up of the fake libc from a small program.
use text.Mathlib.Text.{◌==◌ as str_eq}
use fake_libc.Common.{◌≡◌, refl, ◌==◌, if◌then◌else◌, ◌*◌, ◌-◌, [], ◌∷◌, map, ok, arith, some}
use fake_libc.Loader.Returns.{Returns}
use fake_libc.Loader.Init.{cold}
use fake_libc.Startup.{
  Host, Functions, passed, receive, receive_functions, android_dlopen, start, open_in, lm_id_newlm,
}
use fake_libc.Startup.Namespace.{open_all, open_all-one_namespace, fresh, names_in, running}
use fake_libc.Startup.Handover.{Shifted, receive-Shifted}
use fake_libc.Tests.Stdio.{tiny, tiny-Provides}

-- A handle is the namespace and 100; a new namespace is 6.
abbrev program : Host
program = record {
  dlmopen = λ id name flags. if id == lm_id_newlm then 106 else id * 10;
  lmid = λ handle. handle - 100;
  dlsym = λ handle f. if str_eq f "init_dl" then 900 else 0;
  at_dlmopen = 1;
  at_dlsym = 2;
  at_dladdr = 3;
  at_dlclose = 4;
  at_dl_iterate_phdr = 5;
  program_invocation_name = 6;
  at_tls_get_addr = 7;
}

two_libraries :
    open_all program (("libc.so", 1) ∷ ("libEGL.so", 1) ∷ []) fresh
    ≡ ok (running program ((6, "libEGL.so") ∷ (6, "libc.so") ∷ (lm_id_newlm, "libc.so") ∷ []))
unfolding open_all android_dlopen start open_in
two_libraries = refl

open_all-one_namespace_example :
    open_all program (("libEGL.so", 1) ∷ ("libGLESv2.so", 1) ∷ []) fresh
    ≡ ok (
        running program (
          names_in 6 (("libEGL.so", 1) ∷ ("libGLESv2.so", 1) ∷ []) ((lm_id_newlm, "libc.so") ∷ [])))
open_all-one_namespace_example =
    open_all-one_namespace program "libEGL.so" 1 (("libGLESv2.so", 1) ∷ []) (omega arith)
      (omega arith)

receive-Shifted_example :
    Returns
      (λ _ r.
        ((s : Functions) × (map receive_functions r.calls ≡ some s ∷ []) × Shifted program 6 s)
        × (r.statics.progname ≡ 7)
        × (r.statics.glibc_tls_get_addr ≡ 55))
      (receive tiny (passed program 6) 55 cold)
receive-Shifted_example =
    receive-Shifted program tiny tiny-Provides 6 55 (omega arith) (omega arith) (ground arith)
