-- ===== src/Egl/Plugin/Loading.antt =====
-- The plug-in is loaded and initialised once, before anything else is called.
use fake_libc.Common.{
  ℕ, ◌≡◌, ◌≢◌, refl, ◌∙◌, ap, ◌==◌, if◌then◌else◌, Bool, true, false, List, [], ◌∷◌, Outcome, ok,
  ◌>>=◌, arith, inl, inr, Bool-cases, ne→==,
}
use fake_libc.Egl.Plugin.{
  Slot, init_module, Host, Plugin, platform_name, call_slot, load_module, init_ws, ws_call,
  ws_call_optional,
}

-- A call of any function of the module but `init_module`, and of one that may be missing.
pub data Request : Type 0 where
  required optional : Slot → List ℕ → Request

module _ (H : Host) where
  -- The state behind a request.
  unfoldable pub serve : Request → Plugin → Outcome Plugin
  serve (required f args) s = ws_call H f args s >>= λ r. ok r.1
  serve (optional f args) s = ws_call_optional H f args s

  unfoldable pub serve_all : List Request → Plugin → Outcome Plugin
  serve_all [] s = ok s
  serve_all (q ∷ qs) s = serve q s >>= λ s'. serve_all qs s'

  -- The calls that requests come to, the latest first, where the module stands at `ws`.
  unfoldable pub served : ℕ → List Request → List (Slot × List ℕ) → List (Slot × List ℕ)
  served ws [] calls = calls
  served ws (required f args ∷ qs) calls = served ws qs ((f, args) ∷ calls)
  served ws (optional f args ∷ qs) calls =
      served ws qs (if H.slot ws f == 0 then calls else (f, args) ∷ calls)

  -- The module at an address has the functions that the requests need.
  unfoldable pub has_all : ℕ → List Request → Bool
  has_all ws [] = true
  has_all ws (required f args ∷ qs) = if H.slot ws f == 0 then false else has_all ws qs
  has_all ws (optional f args ∷ qs) = has_all ws qs

  call_slot-ok :
      (f : Slot) (args : List ℕ) (ws : ℕ) (calls : List (Slot × List ℕ))
      → (H.slot ws f == 0) ≡ false
      → call_slot H f args (record { ws = ws; calls = calls })
        ≡ ok (H.answer calls f args, record { ws = ws; calls = (f, args) ∷ calls })
  unfolding call_slot
  call_slot-ok f args ws calls e = rw e refl

  init_ws-loaded :
      (ws : ℕ) (calls : List (Slot × List ℕ))
      → ws ≢ 0
      → init_ws H (record { ws = ws; calls = calls }) ≡ ok (record { ws = ws; calls = calls })
  unfolding init_ws
  init_ws-loaded ws calls nz = rw (ne→== ws 0 nz) refl

  -- Requests to a module that is loaded.
  serve_all-loaded :
      (ws : ℕ) (qs : List Request) (calls : List (Slot × List ℕ))
      → ws ≢ 0
      → has_all ws qs ≡ true
      → serve_all qs (record { ws = ws; calls = calls })
        ≡ ok (record { ws = ws; calls = served ws qs calls })
  unfolding serve_all serve served has_all ws_call ws_call_optional
  serve_all-loaded ws [] calls nz h = refl
  serve_all-loaded ws (required f args ∷ qs) calls nz h =
      let there : (H.slot ws f == 0) ≡ false = ground (arith, h) in
      rw (init_ws-loaded ws calls nz, call_slot-ok f args ws calls there)
        (serve_all-loaded ws qs ((f, args) ∷ calls) nz (ground (arith, h)))
  serve_all-loaded ws (optional f args ∷ qs) calls nz h = elim (Bool-cases (H.slot ws f == 0)) [
    | inl e ↦ rw (init_ws-loaded ws calls nz, e) (serve_all-loaded ws qs calls nz h)
    | inr e ↦
        rw (init_ws-loaded ws calls nz, call_slot-ok f args ws calls e, e)
          (serve_all-loaded ws qs ((f, args) ∷ calls) nz h)
  ]

  -- The first call loads the module.
  load_module-ok :
      (calls : List (Slot × List ℕ))
      → let ws = H.module_info (H.dlopen (platform_name H)) in
        H.dlopen (platform_name H) ≢ 0
        → ws ≢ 0
        → H.slot ws init_module ≢ 0
        → init_ws H (record { ws = 0; calls = calls })
          ≡ ok (record { ws = ws; calls = (init_module, 0 ∷ []) ∷ calls })
  unfolding init_ws load_module
  load_module-ok calls file info slot =
      let ws = H.module_info (H.dlopen (platform_name H)) in
      let there = ne→== (H.slot ws init_module) 0 slot in
      rw
        (
          ne→== (H.dlopen (platform_name H)) 0 file,
          ne→== ws 0 info,
          call_slot-ok init_module (0 ∷ []) ws calls there,
        )
        refl

  -- A request to a module that is not loaded is one to the loaded module.
  serve-first :
      (q : Request) (calls : List (Slot × List ℕ)) (ws : ℕ)
      → ws ≢ 0
      → init_ws H (record { ws = 0; calls = [] }) ≡ ok (record { ws = ws; calls = calls })
      → serve q (record { ws = 0; calls = [] }) ≡ serve q (record { ws = ws; calls = calls })
  unfolding serve ws_call ws_call_optional
  serve-first (required f args) calls ws nz e = rw (e, init_ws-loaded ws calls nz) refl
  serve-first (optional f args) calls ws nz e = rw (e, init_ws-loaded ws calls nz) refl

  -- If the platform's file opens, has the module, and this has init_module and every function
  -- that the requests need: any requests from the start, one at least, call init_module once and
  -- first, then in their order the functions that they ask for, but not those that may be
  -- missing and are, and the module stays loaded.
  pub serve_all-once :
      (q : Request) (qs : List Request)
      → let ws = H.module_info (H.dlopen (platform_name H)) in
        H.dlopen (platform_name H) ≢ 0
        → ws ≢ 0
        → H.slot ws init_module ≢ 0
        → has_all ws (q ∷ qs) ≡ true
        → serve_all (q ∷ qs) (record { ws = 0; calls = [] })
          ≡ ok (record { ws = ws; calls = served ws (q ∷ qs) ((init_module, 0 ∷ []) ∷ []) })
  unfolding serve_all
  serve_all-once q qs file info slot h =
      let ws = H.module_info (H.dlopen (platform_name H)) in
      let calls = (init_module, 0 ∷ []) ∷ [] in
      let loaded = load_module-ok [] file info slot in
      ap (λ s. s >>= λ s'. serve_all qs s') (serve-first q calls ws info loaded)
      ∙ serve_all-loaded ws (q ∷ qs) calls info h
