-- ===== src/Startup/Handover.antt =====
-- What the fake libc and the fake libdl.so hold after `android_dlopen` has started them: the addresses
-- of the caller's functions, one place off from the fifth on.
use fake_libc.Common.{ℕ, ◌≡◌, ◌≢◌, refl, ap, ◌==◌, if◌then◌else◌, some, [], ◌∷◌, map}
use fake_libc.Loader.{Linker}
use fake_libc.Loader.Returns.{Returns, mono}
use fake_libc.Loader.Ready.{Provides}
use fake_libc.Loader.Init.{cold, init_dlfunctions_at, init_dl-Initialised}
use fake_libc.Startup.{
  Host, Functions, init_dlfunctions, dlopen, dlsym, dladdr, dlerror, dlclose, dl_iterate_phdr,
  passed, receive, receive_functions,
}

-- The functions of the fake libdl.so, in the namespace `id`.
pub record Shifted (H : Host) (id : ℕ) (s : Functions) : Type 0 where
  pub dlopen_calls :
      (n flags : ℕ)
      → dlopen s n flags ≡ (H.at_dlmopen, id ∷ n ∷ (if flags == 0 then 1 else flags) ∷ [])
  pub dlsym_calls : (h n : ℕ) → dlsym s h n ≡ (H.at_dlsym, h ∷ n ∷ [])
  pub dladdr_calls : (a i : ℕ) → dladdr s a i ≡ (H.at_dladdr, a ∷ i ∷ [])
  pub dlerror_calls : dlerror s ≡ (H.at_dlclose, [])
  pub dlclose_calls : (h : ℕ) → dlclose s h ≡ (H.at_dl_iterate_phdr, h ∷ [])
  pub dl_iterate_phdr_calls :
      (f d : ℕ) → dl_iterate_phdr s f d ≡ (H.program_invocation_name, f ∷ d ∷ [])

module _ (H : Host) (L : Linker) (p : Provides L) where
  -- If glibc provides its symbols, the addresses of the caller's dlmopen and dlsym are not null,
  -- and the bionic libdl.so has init_dlfunctions: init_dl, received from android_dlopen,
  -- returns; the fake libdl.so then calls dlmopen (in the namespace, with RTLD_LAZY for flags of
  -- 0), dlsym and dladdr for the functions of these names, but dlclose for dlerror,
  -- dl_iterate_phdr for dlclose, and the program's name for dl_iterate_phdr; and the fake libc
  -- holds the address of __tls_get_addr as the program's name, and as __tls_get_addr what stands
  -- beyond the arguments.
  pub receive-Shifted :
      (id beyond : ℕ)
      → H.at_dlmopen ≢ 0
      → H.at_dlsym ≢ 0
      → init_dlfunctions_at L id ≢ 0
      → Returns
          (λ _ r.
            ((s : Functions) × (map receive_functions r.calls ≡ some s ∷ []) × Shifted H id s)
            × (r.statics.progname ≡ H.at_tls_get_addr)
            × (r.statics.glibc_tls_get_addr ≡ beyond))
          (receive L (passed H id) beyond cold)
  unfolding passed receive receive_functions init_dlfunctions dlopen dlsym dladdr dlerror dlclose
      dl_iterate_phdr
  receive-Shifted id beyond dlmopen_there dlsym_there there =
      mono
        (init_dl-Initialised L p id H.at_dlmopen H.at_dlsym H.at_dladdr H.at_dlclose
          H.at_dl_iterate_phdr H.program_invocation_name H.at_tls_get_addr beyond dlmopen_there
          dlsym_there there)
        λ _ r x. (
          (
            init_dlfunctions id H.at_dlmopen H.at_dlsym H.at_dladdr H.at_dlclose
                H.at_dl_iterate_phdr H.program_invocation_name,
            ap (map receive_functions) x.calls,
            record {
              dlopen_calls = λ n flags. refl;
              dlsym_calls = λ h n. refl;
              dladdr_calls = λ a i. refl;
              dlerror_calls = refl;
              dlclose_calls = λ h. refl;
              dl_iterate_phdr_calls = λ f d. refl;
            },
          ),
          ap (λ s. s.progname) x.statics,
          ap (λ s. s.glibc_tls_get_addr) x.statics,
        )
