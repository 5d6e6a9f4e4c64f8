-- ===== src/Loader/Init.antt =====
-- The state that `init_dl` leaves to the functions of the library.
use fake_libc.Common.{ℕ, ◌≡◌, ◌≢◌, refl, ap, ◌∙◌, ◌==◌, inl, [], ◌∷◌, false, ne→==}
use fake_libc.Loader.{
  glibc, rt, gcc, pthread, Linker, Runtime, Statics, call_pointer, via_dlmopen, via_dlsym, init_dl,
}
use fake_libc.Loader.Returns.{Returns, bind, mono}
use fake_libc.Loader.Ready.{symbol_at, Provides, IsReady, load_library-Returns}
use fake_libc.Loader.Streams.{load_glibc, still}

-- The state of the static variables before any function has run.
abbrev pub cold : Runtime
cold = record {
  handle = λ lib. 0;
  symbol = λ lib f. 0;
  statics = record {
    glibc_dlmopen = 0;
    glibc_dlsym = 0;
    glibc_tls_get_addr = 0;
    setjmp_handle = 0;
    android_dl_namespace_id = 0;
    init_dlfunctions = 0;
    progname = 0;
  };
  calls = [];
}

module _ (L : Linker) where
  -- The address of `init_dlfunctions` in the bionic `libdl.so`.
  abbrev pub init_dlfunctions_at : ℕ → ℕ
  init_dlfunctions_at id = L.dlsym (L.dlmopen id "libdl.so") "init_dlfunctions"

  -- What holds behind `init_dl`.
  pub record Initialised (id op sym addr err clo it name tls : ℕ) (r : Runtime) : Type 0 where
    pub ready : IsReady L r
    pub syscall : r.symbol glibc "syscall" ≡ symbol_at L glibc "syscall"
    pub fprintf : r.symbol glibc "fprintf" ≡ symbol_at L glibc "fprintf"
    pub stderr : r.symbol glibc "stderr" ≡ symbol_at L glibc "stderr"
    pub statics : r.statics ≡ record {
      glibc_dlmopen = op;
      glibc_dlsym = sym;
      glibc_tls_get_addr = tls;
      setjmp_handle = 0;
      android_dl_namespace_id = id;
      init_dlfunctions = init_dlfunctions_at id;
      progname = name;
    }
    pub calls : r.calls ≡ (init_dlfunctions_at id, id ∷ op ∷ sym ∷ addr ∷ err ∷ clo ∷ it ∷ []) ∷ []

  module _ (p : Provides L) where
    -- When the four libraries are there, glibc provides its symbols, the addresses of dlmopen
    -- and dlsym are not null, and the bionic libdl.so has the function: from the state before
    -- any function has run, init_dl faults nowhere; it keeps the addresses of dlmopen, dlsym and
    -- __tls_get_addr, the namespace and the program's name, passes the addresses on to
    -- init_dlfunctions in one call, and loads syscall, fprintf and stderr.
    pub init_dl-Initialised :
        (id op sym addr err clo it name tls : ℕ)
        → op ≢ 0
        → sym ≢ 0
        → init_dlfunctions_at id ≢ 0
        → Returns
            (λ _ r. Initialised id op sym addr err clo it name tls r)
            (init_dl L id op sym addr err clo it name tls cold)
    unfolding init_dl via_dlmopen via_dlsym call_pointer
    init_dl-Initialised id op sym addr err clo it name tls op_nz sym_nz there =
        let held : (init_dlfunctions_at id == 0) ≡ false = ne→== (init_dlfunctions_at id) 0 there in
        bind
          (load_library-Returns L glibc _
            (record {
              dlmopen_there = op_nz;
              dlsym_there = sym_nz;
              handles = λ lib. inl refl;
              pointers = λ lib f. inl refl;
            })
            (p.libraries glibc))
          λ _ r1 (v1, h1, s1, c1, t1).
            bind (load_library-Returns L rt r1 v1 (p.libraries rt)) λ _ r2 (v2, h2, s2, c2, t2).
              bind (load_library-Returns L gcc r2 v2 (p.libraries gcc)) λ _ r3 (v3, h3, s3, c3, t3).
                bind (load_library-Returns L pthread r3 v3 (p.libraries pthread))
                  λ _ r4 (v4, h4, s4, c4, t4).
                    rw
                      (
                        ne→== r4.statics.glibc_dlmopen 0 v4.dlmopen_there,
                        ne→== r4.statics.glibc_dlsym 0 v4.dlsym_there,
                        held,
                      )
                      (bind
                        (load_glibc L p "syscall" _
                          (record {
                            dlmopen_there = v4.dlmopen_there;
                            dlsym_there = v4.dlsym_there;
                            handles = v4.handles;
                            pointers = v4.pointers;
                          })
                          refl)
                        λ _ r5 (x5, e5).
                          bind
                            (load_glibc L p "fprintf" _
                              (record {
                                dlmopen_there = x5.ready.dlmopen_there;
                                dlsym_there = x5.ready.dlsym_there;
                                handles = x5.ready.handles;
                                pointers = x5.ready.pointers;
                              })
                              refl)
                            λ _ r6 (x6, e6).
                              mono (load_glibc L p "stderr" r6 x6.ready refl) λ _ r7 (x7, e7).
                                record {
                                  ready = x7.ready;
                                  syscall =
                                      still L p "syscall" x7 refl (still L p "syscall" x6 refl e5);
                                  fprintf = still L p "fprintf" x7 refl e6;
                                  stderr = e7;
                                  statics =
                                      x7.statics
                                      ∙ x6.statics
                                      ∙ ap {A = Statics} (λ s. record s { progname = name })
                                          (x5.statics
                                            ∙ ap {A = Statics}
                                                (λ s. record s {
                                                  android_dl_namespace_id = id;
                                                  init_dlfunctions = init_dlfunctions_at id;
                                                })
                                                (t4 ∙ t3 ∙ t2 ∙ t1));
                                  calls =
                                      x7.calls
                                      ∙ x6.calls
                                      ∙ x5.calls
                                      ∙ ap
                                          (λ c.
                                            (
                                              init_dlfunctions_at id,
                                              id ∷ op ∷ sym ∷ addr ∷ err ∷ clo ∷ it ∷ [],
                                            )
                                            ∷ c)
                                          (c4 ∙ c3 ∙ c2 ∙ c1);
                                })
