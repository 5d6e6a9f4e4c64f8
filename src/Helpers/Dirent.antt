-- ===== src/Helpers/Dirent.antt =====
-- `my_readdir_r` and `my_readdir`. glibc's functions are parameters; a value of glibc's narrower
-- integer types is the same number in bionic's wider ones.
pub mod Entries
use fake_libc.Common.{ℕ, Option, none, some, ◌==◌, if◌then◌else◌, List, set}

abbrev pub name_size : ℕ
name_size = 256

-- `struct glibc_dirent` and `struct bionic_dirent`.
pub record GlibcDirent : Type 0 where
  pub d_ino : ℕ
  pub d_off : ℕ
  pub d_reclen : ℕ
  pub d_type : ℕ
  pub d_name : List ℕ

pub record BionicDirent : Type 0 where
  pub d_ino : ℕ
  pub d_off : ℕ
  pub d_reclen : ℕ
  pub d_type : ℕ
  pub d_name : List ℕ

-- The assignments of both functions, the last one to the name's last byte.
pub copy_entry : GlibcDirent → BionicDirent
copy_entry e = record {
  d_ino = e.d_ino;
  d_off = e.d_off;
  d_reclen = e.d_reclen;
  d_type = e.d_type;
  d_name = set e.d_name 255 0;
}

-- What `*result` holds after `my_readdir_r`.
pub data ResultPointer : Type 0 where
  unset null to_entry : ResultPointer

-- What follows glibc's call in `my_readdir_r`.
pub fill_result : ℕ → Option GlibcDirent → BionicDirent → ℕ × ResultPointer × BionicDirent
fill_result res none entry = if res == 0 then (res, null, entry) else (res, unset, entry)
fill_result res (some e) entry =
    if res == 0 then (res, to_entry, copy_entry e) else (res, unset, entry)

-- glibc answers a code and, if it is 0, an entry or the end of the directory. The outcome is the code,
-- `*result`, and `*entry`.
pub my_readdir_r :
    {Dir : Type 0}
    → (Dir → ℕ × Option GlibcDirent)
    → Dir
    → BionicDirent
    → ℕ × ResultPointer × BionicDirent
my_readdir_r glibc_readdir_r dir entry =
    fill_result (glibc_readdir_r dir).0 (glibc_readdir_r dir).1 entry

-- The answer is null, or the address of the one static entry, whose contents come second.
pub my_readdir :
    {Dir : Type 0} → (Dir → Option GlibcDirent) → Dir → BionicDirent → ResultPointer × BionicDirent
my_readdir glibc_readdir dirp result = elim (glibc_readdir dirp) [
  | none ↦ (null, result)
  | some e ↦ (to_entry, copy_entry e)
]
