-- ===== src/Windows/Fbdev/References.antt =====
-- The reference counts of the buffers: the window holds one reference to each buffer of its list, and the
-- clients hold `refs`.
use fake_libc.Common.{
  ap, ℕ, ◌+◌, ◌<◌, ◌≡◌, ◌≢◌, refl, ◌∙◌, ◌==◌, if◌then◌else◌, true, false, ◌&&◌, List, [], ◌∷◌,
  arith, Bool-cases, inl, inr,
}
use fake_libc.Windows.Base.{put, is_last}
use fake_libc.Windows.Fbdev.{Buffer, Window, delete_buffer, dec_ref, dec_all, destroy_buffers}
use fake_libc.Windows.Fbdev.Flags.{is_in, are_distinct}

-- How often an address stands in a list.
unfoldable pub occurrences : ℕ → List ℕ → ℕ
occurrences q [] = 0
occurrences q (x ∷ xs) = (if x == q then 1 else 0) + occurrences q xs

-- The counts of the buffers of a list, which fit into their 32 bits.
abbrev pub Held : (ℕ → ℕ) → (ℕ → Buffer) → List ℕ → Type 0
Held refs buffers bs =
    (b : ℕ) → is_in b bs ≡ true → ((buffers b).refcount ≡ refs b + 1) × (refs b + 1 < 4294967296)

pub dec_ref-other : (b q : ℕ) (w : Window) → q ≢ b → (dec_ref b w).buffers q ≡ w.buffers q
unfolding dec_ref delete_buffer put
dec_ref-other b q w ne = ground arith

dec_ref-held :
    (b r : ℕ) (w : Window)
    → (w.buffers b).refcount ≡ r + 1
    → r + 1 < 4294967296
    → ((dec_ref b w).buffers b).refcount ≡ r
unfolding dec_ref delete_buffer put
dec_ref-held b r w e lt = ground arith

pub dec_ref-deletes :
    (b r q : ℕ) (w : Window)
    → (w.buffers b).refcount ≡ r + 1
    → occurrences q (dec_ref b w).deleted
      ≡ (if b == q && r == 0 then 1 else 0) + occurrences q w.deleted
unfolding dec_ref delete_buffer is_last occurrences
dec_ref-deletes b r q w e = ground arith

dec_all-other :
    (bs : List ℕ) (q : ℕ) (w : Window) → is_in q bs ≡ false → (dec_all bs w).buffers q ≡ w.buffers q
unfolding dec_all is_in
dec_all-other [] q w out = refl
dec_all-other (b ∷ bs) q w out =
    dec_all-other bs q (dec_ref b w) (ground arith) ∙ dec_ref-other b q w (ground arith)

-- The list behind its first buffer.
later-Held :
    (refs : ℕ → ℕ) (b : ℕ) (bs : List ℕ) (w : Window)
    → is_in b bs ≡ false
    → Held refs w.buffers (b ∷ bs)
    → Held refs (dec_ref b w).buffers bs
unfolding is_in
later-Held refs b bs w out held q listed =
    let ne : q ≢ b = ground arith in rw (dec_ref-other b q w ne) (held q (ground arith))

dec_all-deletes :
    (refs : ℕ → ℕ) (bs : List ℕ) (q : ℕ) (w : Window)
    → are_distinct bs ≡ true
    → Held refs w.buffers bs
    → occurrences q (dec_all bs w).deleted
      ≡ (if is_in q bs && refs q == 0 then 1 else 0) + occurrences q w.deleted
unfolding dec_all is_in are_distinct
dec_all-deletes refs [] q w d held = omega arith
dec_all-deletes refs (b ∷ bs) q w d held =
    let out : is_in b bs ≡ false = ground arith in
    let (count, small) = held b (ground arith) in
    let first = dec_ref-deletes b (refs b) q w count in
    let rest =
      dec_all-deletes refs bs q (dec_ref b w) (ground arith) (later-Held refs b bs w out held) in
    ground arith

dec_all-counts :
    (refs : ℕ → ℕ) (bs : List ℕ) (q : ℕ) (w : Window)
    → are_distinct bs ≡ true
    → Held refs w.buffers bs
    → is_in q bs ≡ true
    → ((dec_all bs w).buffers q).refcount ≡ refs q
unfolding dec_all is_in are_distinct
dec_all-counts refs [] q w d held listed = ground arith
dec_all-counts refs (b ∷ bs) q w d held listed =
    let out : is_in b bs ≡ false = ground arith in
    let (count, small) = held b (ground arith) in
    elim (Bool-cases (b == q)) [
      | inl e ↦
          let same : b ≡ q = ground arith in
          rw (← same) (
            ap (λ (x : Buffer). x.refcount) (dec_all-other bs b (dec_ref b w) out)
            ∙ dec_ref-held b (refs b) w count small)
      | inr e ↦
          dec_all-counts refs bs q (dec_ref b w) (ground arith) (later-Held refs b bs w out held)
            (ground arith)
    ]

-- The window drops its reference to each buffer of the list: those that no client refers to are
-- deleted, once each, and no others, and the list is empty.
pub destroy_buffers-deletes :
    (refs : ℕ → ℕ) (w : Window)
    → are_distinct w.buf_list ≡ true
    → Held refs w.buffers w.buf_list
    → let r = destroy_buffers w in
      ((q : ℕ)
        → occurrences q r.deleted
          ≡ (if is_in q w.buf_list && refs q == 0 then 1 else 0) + occurrences q w.deleted)
      × ((q : ℕ)
          → (r.buffers q).refcount
            ≡ (if is_in q w.buf_list then refs q else (w.buffers q).refcount))
      × (r.buf_list ≡ [])
unfolding destroy_buffers
destroy_buffers-deletes refs w d held = (
  λ q. dec_all-deletes refs w.buf_list q w d held,
  λ q. elim (Bool-cases (is_in q w.buf_list)) [
    | inl e ↦ rw e (dec_all-counts refs w.buf_list q w d held e)
    | inr e ↦ rw e (ap (λ (x : Buffer). x.refcount) (dec_all-other w.buf_list q w e))
  ],
  refl,
)
