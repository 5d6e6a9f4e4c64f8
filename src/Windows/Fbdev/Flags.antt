-- ===== src/Windows/Fbdev/Flags.antt =====
-- Lists of buffers and their busy flags.
use fake_libc.Common.{
  ℕ, ◌+◌, ◌≤◌, ◌≡◌, refl, ◌==◌, if◌then◌else◌, Bool, true, false, not, ◌&&◌, ◌||◌, List, [], ◌∷◌,
  ◌++◌, arith,
}
use fake_libc.Windows.Base.{put}
use fake_libc.Windows.Fbdev.{Buffer}

unfoldable pub is_in : ℕ → List ℕ → Bool
is_in b [] = false
is_in b (x ∷ xs) = x == b || is_in b xs

unfoldable pub are_distinct : List ℕ → Bool
unfolding is_in
are_distinct [] = true
are_distinct (x ∷ xs) = not (is_in x xs) && are_distinct xs

-- 1 for a free buffer.
unfoldable pub free : ℕ → ℕ
free busy = if busy == 0 then 1 else 0

unfoldable pub count_free : (ℕ → Buffer) → List ℕ → ℕ
unfolding free
count_free f [] = 0
count_free f (b ∷ bs) = free (f b).busy + count_free f bs

-- A write of a buffer that is not in the list.
pub count-other :
    (f : ℕ → Buffer) (b : ℕ) (v : Buffer) (bs : List ℕ)
    → is_in b bs ≡ false
    → count_free (put f b v) bs ≡ count_free f bs
unfolding count_free put is_in
count-other f b v [] h = refl
count-other f b v (x ∷ xs) h = ground (arith, count-other f b v xs)

-- A write of one that is in it.
pub count-here :
    (f : ℕ → Buffer) (b : ℕ) (v : Buffer) (bs : List ℕ)
    → is_in b bs ≡ true
    → are_distinct bs ≡ true
    → count_free (put f b v) bs + free (f b).busy ≡ count_free f bs + free v.busy
unfolding count_free put is_in are_distinct
count-here f b v [] h d = ground arith
count-here f b v (x ∷ xs) h d = ground (arith, count-here f b v xs, count-other f b v xs)

-- In any case a write that sets a buffer free counts at most one more, and one that keeps the busy
-- flag none.
pub count-release :
    (f : ℕ → Buffer) (b : ℕ) (v : Buffer) (bs : List ℕ)
    → are_distinct bs ≡ true
    → count_free (put f b v) bs ≤ count_free f bs + free v.busy
unfolding free
count-release f b v bs d = ground (arith, count-here f b v bs, count-other f b v bs)

pub count-keep :
    (f : ℕ → Buffer) (b : ℕ) (v : Buffer) (bs : List ℕ)
    → v.busy ≡ (f b).busy
    → count_free (put f b v) bs ≡ count_free f bs
unfolding count_free put free
count-keep f b v [] e = refl
count-keep f b v (x ∷ xs) e = ground (arith, count-keep f b v xs)

pub count-append :
    (f : ℕ → Buffer) (bs : List ℕ) (b : ℕ)
    → count_free f (bs ++ b ∷ []) ≡ count_free f bs + free (f b).busy
unfolding count_free
count-append f [] b = omega arith
count-append f (x ∷ xs) b = ground (arith, count-append f xs b)

pub is_in-append : (b x : ℕ) (bs : List ℕ) → is_in b (bs ++ x ∷ []) ≡ is_in b bs || x == b
unfolding is_in
is_in-append b x [] = ground arith
is_in-append b x (y ∷ ys) = ground (arith, is_in-append b x ys)

pub distinct-append :
    (bs : List ℕ) (b : ℕ)
    → are_distinct bs ≡ true
    → is_in b bs ≡ false
    → are_distinct (bs ++ b ∷ []) ≡ true
unfolding are_distinct is_in
distinct-append [] b d h = refl
distinct-append (x ∷ xs) b d h = ground (arith, distinct-append xs b, is_in-append x b xs)

pub count-same :
    (f g : ℕ → Buffer) (bs : List ℕ)
    → ((b : ℕ) → (g b).busy ≡ (f b).busy)
    → count_free g bs ≡ count_free f bs
unfolding count_free
count-same f g [] e = refl
count-same f g (b ∷ bs) e = rw (e b, count-same f g bs e) refl
