-- ===== src/Windows/Hwcomposer/Fences.antt =====
-- The fences that go with the buffers: whoever dequeues a buffer gets a duplicate of the fence that came with
-- it, and the window closes its own.
use fake_libc.Common.{
  ℕ, ◌≡◌, ◌≢◌, refl, sym, ap, ◌∙◌, [], Bool, true, false, List, ◌∷◌, Option, some, Outcome, ok,
  fault, arith, get_elem?,
}
use fake_libc.Windows.Base.{put}
use fake_libc.Windows.Hwcomposer.{
  Buffer, Answer, Window, no_fence, hand_over, is_empty, ready, dequeue_buffer, set_fence,
  get_fence, queue_buffer, cancel_buffer,
}
use fake_libc.Windows.Hwcomposer.Rounds.{dequeue_buffer-some}
use fake_libc.Windows.Hwcomposer.Assertions.{dequeue_buffer-ok}

hand_over-fence :
    (dup : ℕ → ℕ) (wants : Bool) (b : ℕ) (w : Window)
    → ((hand_over dup wants b w).1.buffers b).fence_fd ≡ no_fence
unfolding hand_over put
hand_over-fence dup wants b w = ground arith

-- Behind a dequeue the buffer can be queued with any fence, but not once it has been cancelled with one.
pub dequeue_buffer-fence :
    (answers : ℕ → Answer) (dup : ℕ → ℕ) (wants : Bool) (w r : Window) (b : ℕ) (out : Option ℕ)
    (present : ℕ → (ℕ → Buffer) → ℕ → Buffer) (fence other : ℕ)
    → dequeue_buffer answers dup wants w ≡ ok (b, (out, r))
    → other ≢ no_fence
    → (queue_buffer present b fence r
        ≡ ok (record r { buffers = present b (set_fence b fence r).buffers }))
      × (queue_buffer present b fence (cancel_buffer b other r) ≡ fault)
unfolding queue_buffer cancel_buffer set_fence put
dequeue_buffer-fence answers dup wants w r b out present fence other e ne =
    let (_, given) = dequeue_buffer-ok answers dup wants w r b out e in
    let gone = hand_over-fence dup wants b (ready answers w) in
    let reset : (r.buffers b).fence_fd ≡ no_fence =
      sym (ap (λ x. (x.1.buffers b).fence_fd) given) ∙ gone in
    (ground arith, ground arith)

is_empty-some : (bs : List ℕ) (i b : ℕ) → get_elem? bs i ≡ some b → is_empty bs ≡ false
unfolding is_empty
is_empty-some [] i b e = ground arith
is_empty-some (x ∷ xs) i b e = refl

ready-some :
    (answers : ℕ → Answer) (w : Window) (i b : ℕ)
    → get_elem? w.buf_list i ≡ some b
    → ready answers w ≡ w
unfolding ready
ready-some answers w i b e = rw (is_empty-some w.buf_list i b e) refl

queue_buffer-fence :
    (b fence : ℕ) (w r : Window)
    → queue_buffer (λ c buffers. buffers) b fence w ≡ ok r
    → ((r.buffers b).fence_fd ≡ fence) × (r.closed ≡ w.closed)
unfolding queue_buffer set_fence put
queue_buffer-fence b fence w r e = ground arith

hand_over-closes :
    (dup : ℕ → ℕ) (b fence : ℕ) (w : Window)
    → (w.buffers b).fence_fd ≡ fence
    → fence ≢ no_fence
    → ((hand_over dup true b w).0 ≡ some (dup fence))
      × ((hand_over dup true b w).1.closed ≡ fence ∷ w.closed)
unfolding hand_over
hand_over-closes dup b fence w e ne = ground arith

-- Where the callback sets no fence: if a queueing of a buffer with a fence other than -1
-- succeeds, and the buffer is the next one, a dequeue answers it with a duplicate of this fence,
-- closes the fence itself, and leaves the buffer with none.
pub queue-dequeue-fence :
    (answers : ℕ → Answer) (dup : ℕ → ℕ) (b fence : ℕ) (w r : Window)
    → queue_buffer (λ c buffers. buffers) b fence w ≡ ok r
    → fence ≢ no_fence
    → get_elem? r.buf_list r.next_buffer ≡ some b
    → (q : Window) × (dequeue_buffer answers dup true r ≡ ok (b, (some (dup fence), q)))
      × (q.closed ≡ fence ∷ w.closed)
      × (get_fence b q ≡ no_fence)
unfolding get_fence
queue-dequeue-fence answers dup b fence w r queued ne at =
    let same = ready-some answers r r.next_buffer b at in
    let here : get_elem? (ready answers r).buf_list (ready answers r).next_buffer ≡ some b =
      ap (λ x. get_elem? x.buf_list x.next_buffer) same ∙ at in
    let (stands, closed) = queue_buffer-fence b fence w r queued in
    let (out, closes) = hand_over-closes dup b fence r stands ne in
    let q = (hand_over dup true b r).1 in
    let answer : Option ℕ × Window → Outcome (ℕ × (Option ℕ × Window)) = λ x. ok (b, x) in
    (
      q,
      dequeue_buffer-some answers dup true r b here
          ∙ ap (λ x. answer (hand_over dup true b x)) same
          ∙ ap (λ o. answer (o, q)) out,
      closes ∙ ap (◌∷◌ fence) closed,
      hand_over-fence dup true b r,
    )
