-- ===== src/Egl/Plugin.antt =====
-- libEGL/ws.c: the window system's plug-in, which is loaded at the first call of any of its functions.
-- A file is the name that stands in the `%s` of its path; an address is a number.
pub mod Loading
use Prim.Native.String.{String}
use fake_libc.Common.{
  ℕ, ◌==◌, if◌then◌else◌, List, [], ◌∷◌, Option, none, some, Outcome, ok, fault, ◌>>=◌,
}

-- The functions of `struct ws_module`.
pub data Slot : Type 0 where
  init_module get_display terminate create_window destroy_window egl_get_proc_address : Slot
  passthrough_image_khr egl_query_string prepare_swap finish_swap set_swap_interval : Slot

-- The environment, the name that is built in, what the dynamic linker answers for the platform's file and
-- for `ws_module_info` in it, whether the module has one of its last three functions, and what a function
-- answers after earlier calls.
pub record Host : Type 0 where
  pub hybris_eglplatform : Option String
  pub egl_platform : Option String
  pub default_egl_platform : String
  pub dlopen : String → ℕ
  pub module_info : ℕ → ℕ
  pub slot : ℕ → Slot → ℕ
  pub answer : List (Slot × List ℕ) → Slot → List ℕ → ℕ

-- `ws`, and the calls so far, the latest first.
pub record Plugin : Type 0 where
  pub ws : ℕ
  pub calls : List (Slot × List ℕ)

unfoldable pub or_else : Option String → String → String
or_else none name = name
or_else (some file) name = file

module _ (H : Host) where
  unfoldable pub platform_name : String
  platform_name = or_else H.hybris_eglplatform (or_else H.egl_platform H.default_egl_platform)

  -- A call through a field of the module; `hybris_egl_interface` is handed over as 0.
  unfoldable pub call_slot : Slot → List ℕ → Plugin → Outcome (ℕ × Plugin)
  call_slot f args s =
      if H.slot s.ws f == 0
      then fault
      else ok (H.answer s.calls f args, record s { calls = (f, args) ∷ s.calls })

  -- `_init_ws`: both assertions, and the call of `init_module`.
  unfoldable pub load_module : Plugin → Outcome Plugin
  load_module s =
      let wsmod = H.dlopen platform_name in
      let ws = H.module_info wsmod in
      if wsmod == 0
      then fault
      else (if ws == 0
          then fault
          else (call_slot init_module (0 ∷ []) (record s { ws = ws }) >>= λ r. ok r.1))

  unfoldable pub init_ws : Plugin → Outcome Plugin
  init_ws s = if s.ws == 0 then load_module s else ok s

  -- The functions that the module has to have.
  unfoldable pub ws_call : Slot → List ℕ → Plugin → Outcome (ℕ × Plugin)
  ws_call f args s = init_ws s >>= λ s'. call_slot f args s'

  -- The functions that it may lack; they answer nothing.
  unfoldable pub ws_call_optional : Slot → List ℕ → Plugin → Outcome Plugin
  ws_call_optional f args s = init_ws s >>= λ s'.
      if H.slot s'.ws f == 0 then ok s' else (call_slot f args s' >>= λ r. ok r.1)

  unfoldable pub ws_get_display : ℕ → Plugin → Outcome (ℕ × Plugin)
  ws_get_display display = ws_call get_display (display ∷ [])

  unfoldable pub ws_terminate : ℕ → Plugin → Outcome (ℕ × Plugin)
  ws_terminate dpy = ws_call terminate (dpy ∷ [])

  unfoldable pub ws_create_window : ℕ → ℕ → Plugin → Outcome (ℕ × Plugin)
  ws_create_window win display = ws_call create_window (win ∷ display ∷ [])

  unfoldable pub ws_destroy_window : ℕ → Plugin → Outcome (ℕ × Plugin)
  ws_destroy_window win = ws_call destroy_window (win ∷ [])

  unfoldable pub ws_egl_get_proc_address : ℕ → Plugin → Outcome (ℕ × Plugin)
  ws_egl_get_proc_address procname = ws_call egl_get_proc_address (procname ∷ [])

  unfoldable pub ws_passthrough_image_khr : ℕ → ℕ → ℕ → ℕ → Plugin → Outcome (ℕ × Plugin)
  ws_passthrough_image_khr ctx target buffer attrib_list =
      ws_call passthrough_image_khr (ctx ∷ target ∷ buffer ∷ attrib_list ∷ [])

  unfoldable pub ws_egl_query_string : ℕ → ℕ → ℕ → Plugin → Outcome (ℕ × Plugin)
  ws_egl_query_string dpy name real = ws_call egl_query_string (dpy ∷ name ∷ real ∷ [])

  unfoldable pub ws_prepare_swap : ℕ → ℕ → ℕ → ℕ → Plugin → Outcome Plugin
  ws_prepare_swap dpy win rects n_rects =
      ws_call_optional prepare_swap (dpy ∷ win ∷ rects ∷ n_rects ∷ [])

  unfoldable pub ws_finish_swap : ℕ → ℕ → Plugin → Outcome Plugin
  ws_finish_swap dpy win = ws_call_optional finish_swap (dpy ∷ win ∷ [])

  unfoldable pub ws_set_swap_interval : ℕ → ℕ → ℕ → Plugin → Outcome Plugin
  ws_set_swap_interval dpy win interval =
      ws_call_optional set_swap_interval (dpy ∷ win ∷ interval ∷ [])
