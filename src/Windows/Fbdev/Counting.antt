-- ===== src/Windows/Fbdev/Counting.antt =====
-- `m_freeBufs` and the buffers of the list that are free.
use fake_libc.Common.{
  ◌≤ℤ◌, pos, ◌+ℤ◌, ℕ, zero, suc, ◌+◌, ◌≡◌, refl, ◌==◌, false, List, [], ◌∷◌, ◌++◌, ok, arith,
  Bool-cases, inl, inr, ne→==,
}
use fake_libc.Windows.Base.{put}
use fake_libc.Windows.Fbdev.{
  Build, Device, Answer, Window, Phase, entering, awaits_count, awaits_buffer, new_buffer,
  delete_buffer, inc_ref, dec_ref, destroy_buffers, make_buffer, make_buffers, reallocate_buffers,
  await_count, dequeue_buffer, start_queue, end_queue, cancel_buffer, set_usage, set_buffers_format,
  set_buffer_count, new_window,
}
use fake_libc.Windows.Fbdev.Flags.{
  is_in, are_distinct, free, count_free, count-other, count-release, count-append, is_in-append,
  distinct-append, count-same,
}
use fake_libc.Windows.Fbdev.Threads.{
  System, AreFresh, Event, Step, Run, here, next, call, attempt, queue, post, cancel, lock,
  configure_usage, configure_format, configure_count,
}
use fake_libc.Windows.Fbdev.Search.{IsCounted, search_buffer-IsCounted}

-- The reference counts are no matter to dequeueing.
pub dec_ref-busy : (b q : ℕ) (w : Window) → ((dec_ref b w).buffers q).busy ≡ (w.buffers q).busy
unfolding dec_ref delete_buffer put
dec_ref-busy b q w = ground arith

pub dec_ref-lists :
    (b : ℕ) (w : Window)
    → ((dec_ref b w).buf_list ≡ w.buf_list) × ((dec_ref b w).free_bufs ≡ w.free_bufs)
unfolding dec_ref delete_buffer
dec_ref-lists b w = ground arith

dec_ref-IsCounted : (b : ℕ) (w : Window) → IsCounted w → IsCounted (dec_ref b w)
dec_ref-IsCounted b w v =
    let (lists, spare) = dec_ref-lists b w in
    let same = count-same w.buffers (dec_ref b w).buffers w.buf_list (λ q. dec_ref-busy b q w) in
    record { distinct = rw lists v.distinct; counted = rw (lists, spare, same) v.counted }

make_buffer-IsCounted :
    (build : Build) (a : Answer) (w : Window)
    → is_in a.address w.buf_list ≡ false
    → IsCounted w
    → IsCounted (make_buffer build a w)
unfolding make_buffer inc_ref
make_buffer-IsCounted build a w out v = record {
  distinct = v.distinct;
  counted =
      rw
        (count-other _ a.address _ w.buf_list out, count-other w.buffers a.address _ w.buf_list out)
        v.counted;
}

make_buffer-free :
    (build : Build) (a : Answer) (w : Window) → ((make_buffer build a w).buffers a.address).busy ≡ 0
unfolding make_buffer inc_ref put new_buffer
make_buffer-free build a w = ground arith

extend-IsCounted :
    (b : ℕ) (w : Window)
    → is_in b w.buf_list ≡ false
    → (w.buffers b).busy ≡ 0
    → IsCounted w
    → IsCounted (record w { free_bufs = w.free_bufs +ℤ pos 1; buf_list = w.buf_list ++ b ∷ [] })
unfolding free
extend-IsCounted b w out idle v = record {
  distinct = distinct-append w.buf_list b v.distinct out;
  counted = ground (arith, count-append w.buffers w.buf_list b);
}

pub later-AreFresh : (answers : ℕ → Answer) → AreFresh answers → AreFresh (λ i. answers (i + 1))
later-AreFresh answers fr = record {
  distinct = λ i j e. omega (arith, fr.distinct (i + 1) (j + 1) e);
  not_null = λ i. fr.not_null (i + 1);
}

pub make_buffer-list :
    (build : Build) (a : Answer) (w : Window) → (make_buffer build a w).buf_list ≡ w.buf_list
unfolding make_buffer inc_ref
make_buffer-list build a w = refl

-- The addresses to come are none of the list's, with the one that is added to it.
pub later-Out :
    (answers : ℕ → Answer) (bs : List ℕ)
    → AreFresh answers
    → ((i : ℕ) → is_in (answers i).address bs ≡ false)
    → (i : ℕ) → is_in (answers (i + 1)).address (bs ++ (answers 0).address ∷ []) ≡ false
later-Out answers bs fr out i =
    let ne = fr.distinct 0 (i + 1) in
    rw (is_in-append (answers (i + 1)).address (answers 0).address bs, out (i + 1))
      (ne→== (answers 0).address (answers (i + 1)).address (λ e. absurd (omega (arith, ne e))))

make_buffers-IsCounted :
    (build : Build) (n : ℕ) (answers : ℕ → Answer) (w : Window)
    → AreFresh answers
    → ((i : ℕ) → is_in (answers i).address w.buf_list ≡ false)
    → IsCounted w
    → IsCounted (make_buffers build n answers w)
unfolding make_buffers
make_buffers-IsCounted build zero answers w fr out v = v
make_buffers-IsCounted build (suc n) answers w fr out v =
    let a = (answers 0).address in
    let w' = make_buffer build (answers 0) w in
    let list = make_buffer-list build (answers 0) w in
    let made = make_buffer-IsCounted build (answers 0) w (out 0) v in
    let more =
      extend-IsCounted a w' (rw list (out 0)) (make_buffer-free build (answers 0) w) made in
    let rest =
      make_buffers-IsCounted build n (λ i. answers (i + 1)) _ (later-AreFresh answers fr)
        (rw list (later-Out answers w.buf_list fr out)) more in
    elim (Bool-cases ((w'.buffers a).status == 0)) [
      | inl e ↦ rw e rest
      | inr e ↦ rw e (dec_ref-IsCounted a w' made)
    ]

pub reallocate_buffers-IsCounted :
    (build : Build) (answers : ℕ → Answer) (w : Window)
    → AreFresh answers
    → IsCounted (reallocate_buffers build answers w)
unfolding reallocate_buffers destroy_buffers is_in are_distinct count_free
reallocate_buffers-IsCounted build answers w fr =
    let v =
      make_buffers-IsCounted build w.buffer_count answers (destroy_buffers w) fr (λ i. refl)
        (record { distinct = refl; counted = omega arith }) in
    record { distinct = v.distinct; counted = v.counted }

await_count-IsCounted :
    (build : Build) (w : Window)
    → build.front_serves ≡ false
    → IsCounted w
    → IsCounted (await_count build w).1
unfolding await_count
await_count-IsCounted build w old v = ground (arith, search_buffer-IsCounted build w old v)

pub dequeue_buffer-IsCounted :
    (build : Build) (answers : ℕ → Answer) (ph : Phase) (w : Window)
    → build.front_serves ≡ false
    → AreFresh answers
    → IsCounted w
    → IsCounted (dequeue_buffer build answers ph w).1
unfolding dequeue_buffer
dequeue_buffer-IsCounted build answers entering w old fr v =
    await_count-IsCounted build _ old
      (ground (arith, reallocate_buffers-IsCounted build answers w fr))
dequeue_buffer-IsCounted build answers awaits_count w old fr v = await_count-IsCounted build w old v
dequeue_buffer-IsCounted build answers awaits_buffer w old fr v =
    search_buffer-IsCounted build w old v

pub start_queue-ok :
    (b : ℕ) (w r : Window)
    → start_queue b w ≡ ok r
    → ((w.buffers b).busy ≡ 1)
      × (r ≡ record w { buffers = put w.buffers b (record (w.buffers b) { busy = 2 }) })
unfolding start_queue
start_queue-ok b w r e = ground arith

start_queue-IsCounted : (b : ℕ) (w r : Window) → start_queue b w ≡ ok r → IsCounted w → IsCounted r
unfolding free
start_queue-IsCounted b w r e v =
    let c = count-release w.buffers b (record (w.buffers b) { busy = 2 }) w.buf_list v.distinct in
    let (_, made) = start_queue-ok b w r e in
    rw made (record { distinct = v.distinct; counted = ground arith })

release-IsCounted :
    (b front : ℕ) (w : Window)
    → IsCounted w
    → IsCounted (record w {
      buffers = put w.buffers b (record (w.buffers b) { busy = 0 });
      front_buf = front;
      free_bufs = w.free_bufs +ℤ pos 1;
    })
unfolding free
release-IsCounted b front w v =
    let c = count-release w.buffers b (record (w.buffers b) { busy = 0 }) w.buf_list v.distinct in
    record { distinct = v.distinct; counted = ground arith }

-- Every step of any thread keeps the count.
Step-IsCounted :
    {build : Build} {e : Event} {s r : System}
    → build.front_serves ≡ false
    → Step build e s r
    → IsCounted s.window
    → IsCounted r.window
unfolding end_queue cancel_buffer set_usage set_buffers_format set_buffer_count
Step-IsCounted old (call s t p e how) v = v
Step-IsCounted {build} old (attempt s t ph answers e fr) v =
    dequeue_buffer-IsCounted build answers ph s.window old fr v
Step-IsCounted old (queue s t b w e st) v = start_queue-IsCounted b s.window w st v
Step-IsCounted old (post s t b e) v = release-IsCounted b b s.window v
Step-IsCounted old (cancel s t b e) v = release-IsCounted b s.window.front_buf s.window v
Step-IsCounted old (lock s t b e e2) v = v
Step-IsCounted old (configure_usage s usage) v = record {
  distinct = v.distinct;
  counted = v.counted;
}
Step-IsCounted old (configure_format s format) v = record {
  distinct = v.distinct;
  counted = v.counted;
}
Step-IsCounted old (configure_count s cnt) v = ground arith

pub Run-IsCounted :
    {build : Build} {Allowed : Event → Type 0} {s r : System}
    → build.front_serves ≡ false
    → Run build Allowed s r
    → IsCounted s.window
    → IsCounted r.window
Run-IsCounted old here v = v
Run-IsCounted old (next p allowed st) v = Step-IsCounted old st (Run-IsCounted old p v)

pub new_window-IsCounted :
    (build : Build) (alloc : ℕ) (device : Device) (memory : Window)
    → pos 0 ≤ℤ memory.free_bufs
    → IsCounted (new_window build alloc device memory)
unfolding new_window set_buffer_count are_distinct count_free
new_window-IsCounted build alloc device memory h = ground arith
