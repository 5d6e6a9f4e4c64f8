-- ===== src/Windows/Hwcomposer/Rounds.antt =====
-- `m_nextBuffer` goes round the list.
use fake_libc.Common.{
  ℕ, zero, suc, ◌+◌, ◌≡◌, ◌≢◌, refl, sym, ◌∙◌, ap, leb, if◌then◌else◌, Bool, true, false, List, [],
  ◌∷◌, ◌++◌, Option, some, Outcome, ok, ◌>>=◌, length, length-append, append_assoc,
  get_elem?-append, get_elem?, arith,
}
use fake_libc.Windows.Hwcomposer.{
  Answer, Window, allocate_buffers, hand_over, is_empty, ready, dequeue_buffer,
}

-- What a hand-over leaves of the list, and where it goes on.
pub hand_over-next :
    (dup : ℕ → ℕ) (wants : Bool) (b : ℕ) (w : Window)
    → let w' = (hand_over dup wants b w).1 in
      (w'.buf_list ≡ w.buf_list)
      × (w'.next_buffer
          ≡ (if leb (length w.buf_list) (w.next_buffer + 1) then 0 else w.next_buffer + 1))
unfolding hand_over
hand_over-next dup wants b w = ground arith

pub dequeue_buffer-some :
    (answers : ℕ → Answer) (dup : ℕ → ℕ) (wants : Bool) (w : Window) (b : ℕ)
    → get_elem? (ready answers w).buf_list (ready answers w).next_buffer ≡ some b
    → dequeue_buffer answers dup wants w ≡ ok (b, hand_over dup wants b (ready answers w))
unfolding dequeue_buffer
dequeue_buffer-some answers dup wants w b e = rw (e, dequeue_buffer) refl

ready-listed :
    (answers : ℕ → Answer) (w : Window) (b : ℕ) (bs : List ℕ)
    → w.buf_list ≡ b ∷ bs
    → ready answers w ≡ w
unfolding ready is_empty
ready-listed answers w b bs e =
    let full : is_empty w.buf_list ≡ false = ap is_empty e in rw full refl

ready-empty :
    (answers : ℕ → Answer) (w : Window)
    → w.buf_list ≡ []
    → ready answers w ≡ allocate_buffers answers w
unfolding ready is_empty
ready-empty answers w e =
    let none_yet : is_empty w.buf_list ≡ true = ap is_empty e in rw none_yet refl

ready-append :
    (answers : ℕ → Answer) (w : Window) (before : List ℕ) (b : ℕ) (after : List ℕ)
    → w.buf_list ≡ before ++ b ∷ after
    → ready answers w ≡ w
ready-append answers w [] b after e = ready-listed answers w b after e
ready-append answers w (x ∷ xs) b after e = ready-listed answers w x (xs ++ b ∷ after) e

-- A dequeue where the next buffer stands behind those of `before`.
dequeue_buffer-at :
    (answers : ℕ → Answer) (dup : ℕ → ℕ) (wants : Bool) (before after : List ℕ) (b : ℕ) (w : Window)
    → w.buf_list ≡ before ++ b ∷ after
    → w.next_buffer ≡ length before
    → dequeue_buffer answers dup wants w ≡ ok (b, hand_over dup wants b w)
dequeue_buffer-at answers dup wants before after b w list at =
    let stays = ready-append answers w before b after list in
    let answer : Window → Outcome (ℕ × (Option ℕ × Window)) =
      λ x. ok (b, hand_over dup wants b x) in
    let here : get_elem? (ready answers w).buf_list (ready answers w).next_buffer ≡ some b =
      ap (λ x. get_elem? x.buf_list x.next_buffer) stays
      ∙ ap (λ bs. get_elem? bs w.next_buffer) list
      ∙ ap (get_elem? (before ++ b ∷ after)) at
      ∙ get_elem?-append before b after in
    dequeue_buffer-some answers dup wants w b here ∙ ap answer stays

-- `n` buffers dequeued one after the other.
unfoldable pub dequeue_all : ℕ → (ℕ → Answer) → (ℕ → ℕ) → Bool → Window → Outcome (List ℕ × Window)
dequeue_all zero answers dup wants w = ok ([], w)
dequeue_all (suc n) answers dup wants w = dequeue_buffer answers dup wants w >>= λ got.
    dequeue_all n answers dup wants got.1.1 >>= λ rest. ok (got.0 ∷ rest.0, rest.1)

dequeue_all-from :
    (answers : ℕ → Answer) (dup : ℕ → ℕ) (wants : Bool) (before after : List ℕ) (b : ℕ) (w : Window)
    → w.buf_list ≡ before ++ b ∷ after
    → w.next_buffer ≡ length before
    → (r : Window) × (dequeue_all (suc (length after)) answers dup wants w ≡ ok (b ∷ after, r))
      × (r.buf_list ≡ w.buf_list)
      × (r.next_buffer ≡ 0)
unfolding dequeue_all
dequeue_all-from answers dup wants before [] b w list at =
    let (kept, next) = hand_over-next dup wants b w in
    let e = dequeue_buffer-at answers dup wants before [] b w list at in
    let last : leb (length w.buf_list) (w.next_buffer + 1) ≡ true =
      ground (arith, ap length list, length-append before (b ∷ [])) in
    (
      (hand_over dup wants b w).1,
      rw e refl,
      kept,
      next ∙ ap (λ t. if t then 0 else w.next_buffer + 1) last,
    )
dequeue_all-from answers dup wants before (c ∷ after) b w list at =
    let (kept, next) = hand_over-next dup wants b w in
    let e = dequeue_buffer-at answers dup wants before (c ∷ after) b w list at in
    let more : leb (length w.buf_list) (w.next_buffer + 1) ≡ false =
      ground (arith, ap length list, length-append before (b ∷ c ∷ after)) in
    let (r, run, same, end) =
      dequeue_all-from answers dup wants (before ++ b ∷ []) after c (hand_over dup wants b w).1
        (kept ∙ list ∙ sym (append_assoc before (b ∷ []) (c ∷ after)))
        (next
          ∙ ap (λ t. if t then 0 else w.next_buffer + 1) more
          ∙ omega (arith, at, length-append before (b ∷ []))) in
    (r, rw (e, run) refl, same ∙ kept, end)

-- From a list that is not empty, with the first buffer as the next one, as many dequeues as the
-- list has buffers answer these in their order, and leave the list, and the first one as the
-- next again.
pub dequeue_all-round :
    (answers : ℕ → Answer) (dup : ℕ → ℕ) (wants : Bool) (w : Window)
    → w.next_buffer ≡ 0
    → w.buf_list ≢ []
    → (r : Window) × (dequeue_all (length w.buf_list) answers dup wants w ≡ ok (w.buf_list, r))
      × (r.buf_list ≡ w.buf_list)
      × (r.next_buffer ≡ 0)
dequeue_all-round answers dup wants w zeroed full = from w.buf_list refl
  where
    from :
        (bs : List ℕ)
        → w.buf_list ≡ bs
        → (r : Window) × (dequeue_all (length bs) answers dup wants w ≡ ok (bs, r))
          × (r.buf_list ≡ w.buf_list)
          × (r.next_buffer ≡ 0)
    from [] e = absurd (full e)
    from (b ∷ bs) e = dequeue_all-from answers dup wants [] bs b w e zeroed
