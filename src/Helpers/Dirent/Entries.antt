-- ===== src/Helpers/Dirent/Entries.antt =====
-- What bionic code reads of a directory entry.
use fake_libc.Common.{
  ℕ, zero, suc, refl, ◌≡◌, ◌≢◌, Option, none, some, List, [], ◌∷◌, ◌++◌, set, take, length, ap,
  arith,
}
use fake_libc.Helpers.Dirent.{
  GlibcDirent, BionicDirent, copy_entry, unset, null, to_entry, fill_result, my_readdir_r,
  my_readdir,
}

set_last : (n v : ℕ) (xs : List ℕ) → length xs ≡ suc n → set xs n v ≡ take n xs ++ v ∷ []
set_last n v [] h = absurd (omega arith)
set_last zero v (x ∷ []) h = refl
set_last zero v (x ∷ y ∷ xs) h = absurd (omega arith)
set_last (suc n) v (x ∷ xs) h = ap (◌∷◌ x) (set_last n v xs (omega arith))

-- The entry that bionic code reads has the fields of glibc's, and its name is the first 255 bytes of
-- glibc's 256, and a terminator.
pub record Copies (e : GlibcDirent) (b : BionicDirent) : Type 0 where
  pub ino : b.d_ino ≡ e.d_ino
  pub off : b.d_off ≡ e.d_off
  pub reclen : b.d_reclen ≡ e.d_reclen
  pub kind : b.d_type ≡ e.d_type
  pub name : b.d_name ≡ take 255 e.d_name ++ 0 ∷ []

copy_entry-Copies : (e : GlibcDirent) → length e.d_name ≡ 256 → Copies e (copy_entry e)
unfolding copy_entry
copy_entry-Copies e h = record {
  ino = refl;
  off = refl;
  reclen = refl;
  kind = refl;
  name = set_last 255 0 e.d_name h;
}

fill_branches :
    (res : ℕ) (found : Option GlibcDirent) (entry : BionicDirent)
    → let (code, result, entry') = fill_result res found entry in
      (code ≡ res)
      × (res ≢ 0 → (result ≡ unset) × (entry' ≡ entry))
      × (res ≡ 0 → found ≡ none → (result ≡ null) × (entry' ≡ entry))
      × ((e : GlibcDirent)
          → res ≡ 0
          → found ≡ some e
          → length e.d_name ≡ 256
          → (result ≡ to_entry) × Copies e entry')
unfolding fill_result
fill_branches res none entry = (ground arith, ground arith, ground arith, λ e z f n. cc)
fill_branches res (some g) entry = (
  ground arith,
  ground arith,
  ground arith,
  λ e z f n. (rw z, (let same : g ≡ e = cc in rw (z, same) (copy_entry-Copies e n))),
)

-- my_readdir_r answers glibc's code; on an error it sets neither *result nor the entry; at the
-- end of the directory it sets *result to null and leaves the entry; otherwise *result is the
-- entry, which copies glibc's with its name cut to 255 bytes and terminated, if glibc's name has
-- its 256 bytes.
pub readdir_r-branches :
    {Dir : Type 0} (glibc_readdir_r : Dir → ℕ × Option GlibcDirent) (dir : Dir)
    (entry : BionicDirent)
    → let (res, found) = glibc_readdir_r dir in
      let (code, result, entry') = my_readdir_r glibc_readdir_r dir entry in
      (code ≡ res)
      × (res ≢ 0 → (result ≡ unset) × (entry' ≡ entry))
      × (res ≡ 0 → found ≡ none → (result ≡ null) × (entry' ≡ entry))
      × ((e : GlibcDirent)
          → res ≡ 0
          → found ≡ some e
          → length e.d_name ≡ 256
          → (result ≡ to_entry) × Copies e entry')
unfolding my_readdir_r
readdir_r-branches glibc_readdir_r dir entry =
    fill_branches (glibc_readdir_r dir).0 (glibc_readdir_r dir).1 entry

-- Two reads, of any two directories, share one entry, where the first finds an entry and a name
-- of glibc's has its 256 bytes: after the second the address that the first answered holds what
-- the second found; a second read that finds no entry leaves it.
pub readdir-shares :
    {Dir : Type 0} (glibc_readdir : Dir → Option GlibcDirent) (d d' : Dir) (e e' : GlibcDirent)
    (start : BionicDirent)
    → glibc_readdir d ≡ some e
    → length e'.d_name ≡ 256
    → let (pointer, one) = my_readdir glibc_readdir d start in
      let (pointer', two) = my_readdir glibc_readdir d' one in
      (pointer ≡ to_entry)
      × (glibc_readdir d' ≡ some e' → (pointer' ≡ pointer) × Copies e' two)
      × (glibc_readdir d' ≡ none → (pointer' ≡ null) × (two ≡ copy_entry e))
unfolding my_readdir
readdir-shares glibc_readdir d d' e e' start h n = (
  rw (h, my_readdir),
  (λ h'. (rw (h, h', my_readdir), rw (h', my_readdir) (copy_entry-Copies e' n))),
  (λ h'. (rw (h', my_readdir), rw (h', h, my_readdir))),
)
