-- ===== src/Windows/Plugin/Lifetime.antt =====
-- How long a plug-in's window lives.
use fake_libc.Common.{
  sym, ap, ℕ, suc, ◌+◌, ◌<◌, ◌≤◌, ◌≡◌, ◌≢◌, refl, ◌∙◌, ◌==◌, if◌then◌else◌, ◌∷◌, ok, fault, arith,
}
use fake_libc.Windows.Base.{put}
use fake_libc.Windows.Fbdev
use fake_libc.Windows.Plugin.{
  Plugin, inc_ref, keep_window, fbdevws_create_window, fbdevws_destroy_window,
}
use fake_libc.Windows.Plugin.Counts.{
  inc_all, dec_all, inc_all-count, inc_all-keeps, destroyed, destroy_window-ok, destroyed-deleted,
  destroyed-destroyed,
}

-- The state behind a creation.
created : Fbdev.Build → (ℕ → Fbdev.Device) → ℕ → Plugin Fbdev.Window → Plugin Fbdev.Window
created build device p s = inc_ref p (record s {
  nativewindow = p;
  windows = put s.windows p (Fbdev.new_window build s.alloc (device s.framebuffer) (s.windows p));
  refcount = put s.refcount p 0;
})

create_window-ok :
    (build : Fbdev.Build) (device : ℕ → Fbdev.Device) (p : ℕ) (s : Plugin Fbdev.Window)
    → s.gralloc ≢ 0
    → s.nativewindow ≡ 0
    → fbdevws_create_window build device p s ≡ ok (p, created build device p s)
unfolding fbdevws_create_window keep_window created
create_window-ok build device p s ready none_yet = ground arith

created-window :
    (build : Fbdev.Build) (device : ℕ → Fbdev.Device) (p : ℕ) (s : Plugin Fbdev.Window)
    → ((created build device p s).refcount p ≡ 1)
      × ((created build device p s).windows p
          ≡ Fbdev.new_window build s.alloc (device s.framebuffer) (s.windows p))
      × ((created build device p s).nativewindow ≡ p)
      × ((created build device p s).deleted ≡ s.deleted)
unfolding created inc_ref put
created-window build device p s = ground arith

create_window-busy :
    (build : Fbdev.Build) (device : ℕ → Fbdev.Device) (q : ℕ) (s : Plugin Fbdev.Window)
    → s.nativewindow ≢ 0
    → fbdevws_create_window build device q s ≡ fault
unfolding fbdevws_create_window
create_window-busy build device q s busy = ground arith

-- With gralloc loaded and no window yet: fbdevws_CreateWindow of a new object answers it, and
-- fails an assertion when it is called once more; after k references that clients take,
-- fbdevws_DestroyWindow returns and forgets the window; and the object is deleted, its buffers
-- destroyed, when the clients have dropped the k references, not with fewer.
pub create-destroy :
    (build : Fbdev.Build) (device : ℕ → Fbdev.Device) (p k j : ℕ) (s : Plugin Fbdev.Window)
    → s.gralloc ≢ 0
    → s.nativewindow ≡ 0
    → p ≢ 0
    → k + 1 < 4294967296
    → j ≤ k
    → (made : Plugin Fbdev.Window) × (r : Plugin Fbdev.Window) × (fbdevws_create_window build device
          p s
        ≡ ok (p, made))
      × ((q : ℕ) → fbdevws_create_window build device q (inc_all k p made) ≡ fault)
      × (fbdevws_destroy_window p (inc_all k p made) ≡ ok r)
      × (r.nativewindow ≡ 0)
      × ((dec_all Fbdev.destroy_buffers j p r).deleted
          ≡ (if j == k then p ∷ s.deleted else s.deleted))
      × ((dec_all Fbdev.destroy_buffers k p r).windows p
          ≡ Fbdev.destroy_buffers
              (Fbdev.new_window build s.alloc (device s.framebuffer) (s.windows p)))
unfolding fbdevws_destroy_window destroyed
create-destroy build device p k j s ready none_yet nz lt le =
    let made = created build device p s in
    let (one, window, own, kept) = created-window build device p s in
    let held = inc_all k p made in
    let (own', kept', windows', _) = inc_all-keeps k p made in
    let count : held.refcount p ≡ suc k =
      omega (arith, one, inc_all-count k p made (omega (arith, one, lt))) in
    let small : suc k < 4294967296 = omega (arith, lt) in
    (
      made,
      destroyed Fbdev.destroy_buffers p held,
      create_window-ok build device p s ready none_yet,
      λ q. create_window-busy build device q held (λ z. nz (sym own ∙ sym own' ∙ z)),
      destroy_window-ok Fbdev.destroy_buffers p held (own' ∙ own) nz,
      refl,
      destroyed-deleted Fbdev.destroy_buffers j k p held count small le
          ∙ ap (λ d. if j == k then p ∷ d else d) (kept' ∙ kept),
      destroyed-destroyed Fbdev.destroy_buffers k p held count small
          ∙ ap (λ f. Fbdev.destroy_buffers (f p)) windows'
          ∙ ap Fbdev.destroy_buffers window,
    )
