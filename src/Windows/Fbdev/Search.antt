-- ===== src/Windows/Fbdev/Search.antt =====
-- What `dequeueBuffer` finds among the buffers, and `m_freeBufs`.
use fake_libc.Common.{
  ℕ, pos, ◌-ℤ◌, ◌≤ℤ◌, ◌≡◌, ◌≢◌, refl, true, false, List, [], ◌∷◌, none, some, arith, Option-cases,
  inl, inr,
}
use fake_libc.Windows.Base.{put}
use fake_libc.Windows.Fbdev.{
  Build, Window, awaits_buffer, waits, dequeued, find_free, take_buffer, search_buffer,
}
use fake_libc.Windows.Fbdev.Flags.{is_in, are_distinct, free, count_free, count-here}

-- The objects of the list are distinct, and no more of them are free than `m_freeBufs` says.
pub record IsCounted (w : Window) : Type 0 where
  pub distinct : are_distinct w.buf_list ≡ true
  pub counted : pos (count_free w.buffers w.buf_list) ≤ℤ w.free_bufs

-- What the search finds.
pub find_free-Free :
    (w : Window) (bs : List ℕ) (b : ℕ)
    → find_free w bs ≡ some b
    → (is_in b bs ≡ true) × (b ≢ w.front_buf) × ((w.buffers b).busy ≡ 0)
unfolding find_free is_in
find_free-Free w [] b h = ground arith
find_free-Free w (x ∷ xs) b h = ground (arith, find_free-Free w xs b)

take_buffer-IsCounted :
    (b : ℕ) (w : Window)
    → is_in b w.buf_list ≡ true
    → (w.buffers b).busy ≡ 0
    → IsCounted w
    → IsCounted (take_buffer b w) × (pos 1 ≤ℤ w.free_bufs)
unfolding take_buffer free put
take_buffer-IsCounted b w h e v =
    let c = count-here w.buffers b (record (w.buffers b) { busy = 1 }) w.buf_list h v.distinct in
    let one : free (w.buffers b).busy ≡ 1 = ground arith in
    (record { distinct = v.distinct; counted = ground arith }, ground arith)

pub search_buffer-IsCounted :
    (build : Build) (w : Window)
    → build.front_serves ≡ false
    → IsCounted w
    → IsCounted (search_buffer build w).1
unfolding search_buffer
search_buffer-IsCounted build w old v = elim (Option-cases (find_free w w.buf_list)) [
  | inl e ↦ rw (e, search_buffer, old) v
  | inr (b, e) ↦
      let (listed, ne, idle) = find_free-Free w w.buf_list b e in
      rw (e, search_buffer) (take_buffer-IsCounted b w listed idle v).0
]

pub search_buffer-found :
    (build : Build) (w : Window) (b : ℕ)
    → find_free w w.buf_list ≡ some b
    → search_buffer build w ≡ (dequeued b, take_buffer b w)
unfolding search_buffer
search_buffer-found build w b e = rw (e, search_buffer) refl

pub search_buffer-none :
    (build : Build) (w : Window)
    → build.front_serves ≡ false
    → find_free w w.buf_list ≡ none
    → search_buffer build w ≡ (waits awaits_buffer, w)
unfolding search_buffer
search_buffer-none build w old e = rw (e, search_buffer, old) refl

-- What a search that answers a buffer has found, and what it leaves.
pub search_buffer-dequeued :
    (build : Build) (w r : Window) (b : ℕ)
    → build.front_serves ≡ false
    → search_buffer build w ≡ (dequeued b, r)
    → (is_in b r.buf_list ≡ true)
      × (b ≢ r.front_buf)
      × ((w.buffers b).busy ≡ 0)
      × ((r.buffers b).busy ≡ 1)
unfolding take_buffer put
search_buffer-dequeued build w r b old e = elim (Option-cases (find_free w w.buf_list)) [
  | inl none_free ↦ let waiting = search_buffer-none build w old none_free in absurd (ground arith)
  | inr (c, found) ↦
      let taking = search_buffer-found build w c found in
      let good = find_free-Free w w.buf_list c found in ground arith
]

-- A search that answers a buffer has lowered `m_freeBufs` by one, from above 0.
pub search_buffer-lowers :
    (build : Build) (w r : Window) (b : ℕ)
    → build.front_serves ≡ false
    → IsCounted w
    → search_buffer build w ≡ (dequeued b, r)
    → (pos 1 ≤ℤ w.free_bufs) × (r.free_bufs ≡ w.free_bufs -ℤ pos 1)
unfolding take_buffer
search_buffer-lowers build w r b old v e = elim (Option-cases (find_free w w.buf_list)) [
  | inl none_free ↦ let waiting = search_buffer-none build w old none_free in absurd (ground arith)
  | inr (c, found) ↦
      let taking = search_buffer-found build w c found in
      let (listed, _, idle) = find_free-Free w w.buf_list c found in
      let (_, spare) = take_buffer-IsCounted c w listed idle v in (spare, ground arith)
]
