-- ===== src/Windows/Plugin/Counts.antt =====
-- References to a plug-in's window, and its destruction with the last of them.
use fake_libc.Common.{
  ap, ℕ, zero, suc, ◌+◌, ◌<◌, ◌≤◌, ◌≡◌, ◌≢◌, refl, ◌∙◌, ◌==◌, if◌then◌else◌, ◌∷◌, ok, arith,
}
use fake_libc.Windows.Base.{put, is_last}
use fake_libc.Windows.Plugin.{Plugin, inc_ref, delete_window, dec_ref, destroy_window}

module _ {W : Type 0} where
  -- So many references that a client takes, and that it drops.
  unfoldable pub inc_all : ℕ → ℕ → Plugin W → Plugin W
  inc_all zero p s = s
  inc_all (suc k) p s = inc_all k p (inc_ref p s)

  unfoldable pub dec_all : (W → W) → ℕ → ℕ → Plugin W → Plugin W
  dec_all destroy_buffers zero p s = s
  dec_all destroy_buffers (suc k) p s = dec_all destroy_buffers k p (dec_ref destroy_buffers p s)

  inc_ref-count :
      (p : ℕ) (s : Plugin W)
      → s.refcount p + 1 < 4294967296
      → (inc_ref p s).refcount p ≡ s.refcount p + 1
  unfolding inc_ref put
  inc_ref-count p s lt = ground arith

  pub inc_all-count :
      (k p : ℕ) (s : Plugin W)
      → s.refcount p + k < 4294967296
      → (inc_all k p s).refcount p ≡ s.refcount p + k
  unfolding inc_all
  inc_all-count zero p s lt = omega arith
  inc_all-count (suc k) p s lt =
      let one = inc_ref-count p s (omega (arith, lt)) in
      omega (arith, one, inc_all-count k p (inc_ref p s) (omega (arith, one, lt)))

  -- Nothing else changes.
  pub inc_all-keeps :
      (k p : ℕ) (s : Plugin W)
      → ((inc_all k p s).nativewindow ≡ s.nativewindow)
        × ((inc_all k p s).deleted ≡ s.deleted)
        × ((inc_all k p s).windows ≡ s.windows)
        × ((inc_all k p s).gralloc ≡ s.gralloc)
  unfolding inc_all inc_ref
  inc_all-keeps zero p s = (refl, refl, refl, refl)
  inc_all-keeps (suc k) p s = inc_all-keeps k p (inc_ref p s)

  module _ (destroy_buffers : W → W) where
    dec_ref-alive :
        (p c : ℕ) (s : Plugin W)
        → s.refcount p ≡ suc c
        → suc c < 4294967296
        → c ≢ 0
        → ((dec_ref destroy_buffers p s).refcount p ≡ c)
          × ((dec_ref destroy_buffers p s).deleted ≡ s.deleted)
          × ((dec_ref destroy_buffers p s).windows ≡ s.windows)
    unfolding dec_ref put is_last
    dec_ref-alive p c s e lt nz = ground arith

    dec_ref-last :
        (p : ℕ) (s : Plugin W)
        → s.refcount p ≡ 1
        → ((dec_ref destroy_buffers p s).deleted ≡ p ∷ s.deleted)
          × ((dec_ref destroy_buffers p s).windows p ≡ destroy_buffers (s.windows p))
    unfolding dec_ref delete_window put is_last
    dec_ref-last p s e = ground arith

    -- The window is deleted with its last reference, and not before.
    dec_all-deleted :
        (j c p : ℕ) (s : Plugin W)
        → s.refcount p ≡ suc c
        → suc c < 4294967296
        → j ≤ suc c
        → (dec_all destroy_buffers j p s).deleted
          ≡ (if j == suc c then p ∷ s.deleted else s.deleted)
    unfolding dec_all
    dec_all-deleted zero c p s e lt le = ground arith
    dec_all-deleted (suc j) zero p s e lt le =
        let last = (dec_ref-last p s e).0 in
        let none_left : j ≡ 0 = omega (arith, le) in
        ground (arith, dec_all-none j p (dec_ref destroy_buffers p s) none_left)
      where
        dec_all-none : (j p : ℕ) (s : Plugin W) → j ≡ 0 → dec_all destroy_buffers j p s ≡ s
        dec_all-none zero p s z = refl
        dec_all-none (suc j) p s z = absurd (omega (arith, z))
    dec_all-deleted (suc j) (suc c) p s e lt le =
        let (count, kept, _) = dec_ref-alive p (suc c) s e lt (omega arith) in
        let rest =
          dec_all-deleted j c p (dec_ref destroy_buffers p s) count (omega (arith, lt))
            (omega (arith, le)) in
        rest ∙ ground (arith, kept)

    dec_all-destroyed :
        (c p : ℕ) (s : Plugin W)
        → s.refcount p ≡ suc c
        → suc c < 4294967296
        → (dec_all destroy_buffers (suc c) p s).windows p ≡ destroy_buffers (s.windows p)
    unfolding dec_all
    dec_all-destroyed zero p s e lt = (dec_ref-last p s e).1
    dec_all-destroyed (suc c) p s e lt =
        let (count, _, kept) = dec_ref-alive p (suc c) s e lt (omega arith) in
        dec_all-destroyed c p (dec_ref destroy_buffers p s) count (omega (arith, lt))
        ∙ ap (λ f. destroy_buffers (f p)) kept

    -- What `DestroyWindow` leaves.
    unfoldable pub destroyed : ℕ → Plugin W → Plugin W
    destroyed p s = record (dec_ref destroy_buffers p s) { nativewindow = 0 }

    pub destroy_window-ok :
        (p : ℕ) (s : Plugin W)
        → s.nativewindow ≡ p
        → p ≢ 0
        → destroy_window destroy_buffers p s ≡ ok (destroyed p s)
    unfolding destroy_window destroyed
    destroy_window-ok p s e nz = ground arith

    -- With `k` references of clients, the window is deleted when they have dropped all of them.
    pub destroyed-deleted :
        (j k p : ℕ) (s : Plugin W)
        → s.refcount p ≡ suc k
        → suc k < 4294967296
        → j ≤ k
        → (dec_all destroy_buffers j p (destroyed p s)).deleted
          ≡ (if j == k then p ∷ s.deleted else s.deleted)
    unfolding destroyed dec_all
    destroyed-deleted zero zero p s e lt le = (dec_ref-last p s e).0
    destroyed-deleted (suc j) zero p s e lt le = absurd (omega (arith, le))
    destroyed-deleted j (suc k) p s e lt le =
        let (count, kept, _) = dec_ref-alive p (suc k) s e lt (omega arith) in
        let rest = dec_all-deleted j k p (destroyed p s) count (omega (arith, lt)) le in
        rest ∙ ground (arith, kept)

    pub destroyed-destroyed :
        (k p : ℕ) (s : Plugin W)
        → s.refcount p ≡ suc k
        → suc k < 4294967296
        → (dec_all destroy_buffers k p (destroyed p s)).windows p ≡ destroy_buffers (s.windows p)
    unfolding destroyed dec_all
    destroyed-destroyed zero p s e lt = (dec_ref-last p s e).1
    destroyed-destroyed (suc k) p s e lt =
        let (count, _, kept) = dec_ref-alive p (suc k) s e lt (omega arith) in
        dec_all-destroyed k p (destroyed p s) count (omega (arith, lt))
        ∙ ap (λ f. destroy_buffers (f p)) kept
