-- ===== src/Windows/Fbdev/Ownership.antt =====
-- Who holds a buffer between `dequeueBuffer` and `queueBuffer` or `cancelBuffer`.
use mathlib.Core.Path.{subst}
use fake_libc.Common.{
  pos, ◌-ℤ◌, ◌≤ℤ◌, ℕ, zero, suc, ◌+◌, ◌≡◌, ◌≢◌, refl, sym, ◌∙◌, ap, ◌==◌, if◌then◌else◌, true,
  false, List, [], ◌∷◌, arith, Bool-cases, Option-cases, inl, inr,
}
use fake_libc.Windows.Base.{put}
use fake_libc.Windows.Fbdev.{
  Build, Device, Answer, Window, Phase, entering, awaits_count, awaits_buffer, dequeued, inc_ref,
  dec_ref, dec_all, destroy_buffers, make_buffer, make_buffers, reallocate_buffers, find_free,
  take_buffer, search_buffer, await_count, dequeue_buffer, end_queue, cancel_buffer, set_usage,
  set_buffers_format, set_buffer_count, new_window,
}
use fake_libc.Windows.Fbdev.Flags.{is_in, are_distinct, count_free}
use fake_libc.Windows.Fbdev.Search.{
  IsCounted, search_buffer-dequeued, search_buffer-lowers, search_buffer-found, search_buffer-none,
}
use fake_libc.Windows.Fbdev.Counting.{
  reallocate_buffers-IsCounted, dequeue_buffer-IsCounted, Run-IsCounted, new_window-IsCounted,
  dec_ref-busy, start_queue-ok,
}
use fake_libc.Windows.Fbdev.Threads.{
  Place, System, AreFresh, Event, calls, attempts, queues, posts, cancels, Step, Run, here, next,
  call, attempt, queue, post, cancel, lock, configure_usage, configure_format, configure_count,
}

-- The window in which the search of an attempt runs.
unfoldable pub searched : Build → (ℕ → Answer) → Phase → Window → Window
searched build answers entering w =
    if w.allocate_buffers then reallocate_buffers build answers w else w
searched build answers awaits_count w = w
searched build answers awaits_buffer w = w

await_count-dequeued :
    (build : Build) (w r : Window) (b : ℕ)
    → await_count build w ≡ (dequeued b, r)
    → search_buffer build w ≡ (dequeued b, r)
unfolding await_count
await_count-dequeued build w r b e = ground arith

dequeue_buffer-search :
    (build : Build) (answers : ℕ → Answer) (ph : Phase) (w r : Window) (b : ℕ)
    → dequeue_buffer build answers ph w ≡ (dequeued b, r)
    → search_buffer build (searched build answers ph w) ≡ (dequeued b, r)
unfolding dequeue_buffer searched
dequeue_buffer-search build answers entering w r b e = await_count-dequeued build _ r b e
dequeue_buffer-search build answers awaits_count w r b e = await_count-dequeued build w r b e
dequeue_buffer-search build answers awaits_buffer w r b e = e

searched-IsCounted :
    (build : Build) (answers : ℕ → Answer) (ph : Phase) (w : Window)
    → AreFresh answers
    → IsCounted w
    → IsCounted (searched build answers ph w)
unfolding searched
searched-IsCounted build answers entering w fr v =
    ground (arith, reallocate_buffers-IsCounted build answers w fr)
searched-IsCounted build answers awaits_count w fr v = v
searched-IsCounted build answers awaits_buffer w fr v = v

-- On Android from 4.2 on: in every state that threads reach from a new window, for which `new`
-- has not found a negative m_freeBufs in the memory, whatever they dequeue, queue, cancel, lock
-- and set, an attempt to dequeue that answers a buffer, where new objects of one reallocation
-- have distinct addresses, answers one of the list that is not the front buffer; afterwards it
-- is busy, the list has no buffer twice, m_freeBufs is at least the number of its free buffers,
-- and it has been lowered by one, from above 0.
pub Run-dequeued :
    {build : Build} {Allowed : Event → Type 0} {s : System} (alloc : ℕ) (device : Device)
    (memory : Window) (place : ℕ → Place) (answers : ℕ → Answer) (ph : Phase) (r : Window) (b : ℕ)
    → build.front_serves ≡ false
    → pos 0 ≤ℤ memory.free_bufs
    → Run build Allowed (record { window = new_window build alloc device memory; place = place }) s
    → AreFresh answers
    → dequeue_buffer build answers ph s.window ≡ (dequeued b, r)
    → (is_in b r.buf_list ≡ true)
      × (b ≢ r.front_buf)
      × ((r.buffers b).busy ≡ 1)
      × (are_distinct r.buf_list ≡ true)
      × (pos (count_free r.buffers r.buf_list) ≤ℤ r.free_bufs)
      × (pos 1 ≤ℤ (searched build answers ph s.window).free_bufs)
      × (r.free_bufs ≡ (searched build answers ph s.window).free_bufs -ℤ pos 1)
Run-dequeued {build} {Allowed} {s} alloc device memory place answers ph r b old found_count run fr
      e =
    let found = dequeue_buffer-search build answers ph s.window r b e in
    let (listed, front, _, taken) = search_buffer-dequeued build _ r b old found in
    let before =
      Run-IsCounted old run (new_window-IsCounted build alloc device memory found_count) in
    let (spare, lowered) =
      search_buffer-lowers build _ r b old (searched-IsCounted build answers ph s.window fr before)
        found in
    let after : IsCounted r =
      subst (λ x. IsCounted x.1) e
        (dequeue_buffer-IsCounted build answers ph s.window old fr before) in
    (listed, front, taken, after.distinct, after.counted, spare, lowered)

dec_all-busy :
    (bs : List ℕ) (q : ℕ) (w : Window) → ((dec_all bs w).buffers q).busy ≡ (w.buffers q).busy
unfolding dec_all
dec_all-busy [] q w = refl
dec_all-busy (b ∷ bs) q w = dec_all-busy bs q (dec_ref b w) ∙ dec_ref-busy b q w

make_buffer-busy :
    (build : Build) (a : Answer) (q : ℕ) (w : Window)
    → a.address ≢ q
    → ((make_buffer build a w).buffers q).busy ≡ (w.buffers q).busy
unfolding make_buffer inc_ref put
make_buffer-busy build a q w ne = ground arith

make_buffers-busy :
    (build : Build) (n : ℕ) (answers : ℕ → Answer) (q : ℕ) (w : Window)
    → ((i : ℕ) → (answers i).address ≢ q)
    → ((make_buffers build n answers w).buffers q).busy ≡ (w.buffers q).busy
unfolding make_buffers
make_buffers-busy build zero answers q w ne = refl
make_buffers-busy build (suc n) answers q w ne =
    let a : Answer = answers 0 in
    let w' = make_buffer build a w in
    let made = make_buffer-busy build a q w (ne 0) in
    elim (Bool-cases ((w'.buffers a.address).status == 0)) [
      | inl e ↦ rw e (make_buffers-busy build n (λ i. answers (i + 1)) q _ (λ i. ne (i + 1)) ∙ made)
      | inr e ↦ rw e (dec_ref-busy a.address q w' ∙ made)
    ]

-- A reallocation that makes no object at an address leaves the flag there.
searched-busy :
    (build : Build) (answers : ℕ → Answer) (ph : Phase) (q : ℕ) (w : Window)
    → ((i : ℕ) → (answers i).address ≢ q)
    → ((searched build answers ph w).buffers q).busy ≡ (w.buffers q).busy
unfolding searched reallocate_buffers destroy_buffers
searched-busy build answers entering q w ne =
    let again =
      make_buffers-busy build w.buffer_count answers q (destroy_buffers w) ne
      ∙ dec_all-busy w.buf_list q w in
    ground arith
searched-busy build answers awaits_count q w ne = refl
searched-busy build answers awaits_buffer q w ne = refl

-- What may happen while a thread holds `b`: nobody else posts or cancels it, and no new object is made
-- at its address.
unfoldable pub Spares : ℕ → Event → Type 0
Spares b calls = Unit
Spares b (attempts answers a) = (i : ℕ) → (answers i).address ≢ b
Spares b (queues c) = Unit
Spares b (posts c) = c ≢ b
Spares b (cancels c) = c ≢ b

dequeue_buffer-other :
    (build : Build) (answers : ℕ → Answer) (ph : Phase) (w r : Window) (b c : ℕ)
    → build.front_serves ≡ false
    → ((i : ℕ) → (answers i).address ≢ b)
    → (w.buffers b).busy ≢ 0
    → dequeue_buffer build answers ph w ≡ (dequeued c, r)
    → c ≢ b
dequeue_buffer-other build answers ph w r b c old ne busy e same =
    let (_, _, idle, _) =
      search_buffer-dequeued build _ r c old (dequeue_buffer-search build answers ph w r c e) in
    busy (
      sym (searched-busy build answers ph b w ne)
      ∙ ap (λ x. ((searched build answers ph w).buffers x).busy) (sym same)
      ∙ idle)

search_buffer-busy :
    (build : Build) (w : Window) (b : ℕ)
    → build.front_serves ≡ false
    → (w.buffers b).busy ≢ 0
    → ((search_buffer build w).1.buffers b).busy ≢ 0
unfolding take_buffer put
search_buffer-busy build w b old busy = elim (Option-cases (find_free w w.buf_list)) [
  | inl none_free ↦ rw (search_buffer-none build w old none_free) busy
  | inr (c, found) ↦ rw (search_buffer-found build w c found) (ground arith)
]

await_count-busy :
    (build : Build) (w : Window) (b : ℕ)
    → build.front_serves ≡ false
    → (w.buffers b).busy ≢ 0
    → ((await_count build w).1.buffers b).busy ≢ 0
unfolding await_count
await_count-busy build w b old busy = ground (arith, search_buffer-busy build w b old busy)

dequeue_buffer-busy :
    (build : Build) (answers : ℕ → Answer) (ph : Phase) (w : Window) (b : ℕ)
    → build.front_serves ≡ false
    → ((i : ℕ) → (answers i).address ≢ b)
    → (w.buffers b).busy ≢ 0
    → ((dequeue_buffer build answers ph w).1.buffers b).busy ≢ 0
unfolding dequeue_buffer searched
dequeue_buffer-busy build answers entering w b old ne busy =
    await_count-busy build (searched build answers entering w) b old
      (rw (searched-busy build answers entering b w ne) busy)
dequeue_buffer-busy build answers awaits_count w b old ne busy = await_count-busy build w b old busy
dequeue_buffer-busy build answers awaits_buffer w b old ne busy =
    search_buffer-busy build w b old busy

Step-busy :
    {build : Build} {e : Event} {s r : System} {b : ℕ}
    → build.front_serves ≡ false
    → Step build e s r
    → Spares b e
    → (s.window.buffers b).busy ≢ 0
    → (r.window.buffers b).busy ≢ 0
unfolding end_queue cancel_buffer set_usage set_buffers_format set_buffer_count put Spares
Step-busy old (call s t p e how) spare busy = busy
Step-busy {build} {b} old (attempt s t ph answers e fr) spare busy =
    dequeue_buffer-busy build answers ph s.window b old spare busy
Step-busy old (queue s t c w e st) spare busy =
    let (_, made) = start_queue-ok c s.window w st in rw made (ground arith)
Step-busy old (post s t c e) spare busy = ground arith
Step-busy old (cancel s t c e) spare busy = ground arith
Step-busy old (lock s t c e e2) spare busy = busy
Step-busy old (configure_usage s usage) spare busy = busy
Step-busy old (configure_format s format) spare busy = busy
Step-busy old (configure_count s cnt) spare busy = ground arith

Run-busy :
    {build : Build} {b : ℕ} {s r : System}
    → build.front_serves ≡ false
    → Run build (Spares b) s r
    → (s.window.buffers b).busy ≢ 0
    → (r.window.buffers b).busy ≢ 0
Run-busy old here busy = busy
Run-busy old (next p spare st) busy = Step-busy old st spare (Run-busy old p busy)

-- On Android from 4.2 on: from a dequeue that answered a buffer, along any steps of any threads
-- of which none ends a queueing of this buffer, cancels it or makes a new object at its address,
-- a further dequeue that answers a buffer and makes no object at this address either answers
-- another one, and the first stays busy.
pub Run-exclusive :
    {build : Build} {s r : System} (answers later : ℕ → Answer) (first second : Phase)
    (w q : Window) (b c : ℕ)
    → build.front_serves ≡ false
    → dequeue_buffer build answers first w ≡ (dequeued b, s.window)
    → Run build (Spares b) s r
    → ((i : ℕ) → (later i).address ≢ b)
    → dequeue_buffer build later second r.window ≡ (dequeued c, q)
    → (c ≢ b) × ((q.buffers b).busy ≢ 0)
Run-exclusive {build} {s} {r} answers later first second w q b c old taken run ne again =
    let (_, _, _, flag) =
      search_buffer-dequeued build _ s.window b old
        (dequeue_buffer-search build answers first w s.window b taken) in
    let busy = Run-busy old run (λ z. absurd (omega (arith, flag, z))) in
    let stays : (q.buffers b).busy ≢ 0 =
      subst (λ x. (x.1.buffers b).busy ≢ 0) again
        (dequeue_buffer-busy build later second r.window b old ne busy) in
    (dequeue_buffer-other build later second r.window q b c old ne busy again, stays)
