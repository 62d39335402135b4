-- ===== src/Dir/Listing.antt =====
-- kern/dir.c: `minix_readdir`. The position of the context is a number of its own; `S` is the rest of
-- its state, which `dir_emit`, a function of the kernel, changes.
pub mod Walk
pub mod Pieces
pub mod Reader
pub mod Complete
use aufs_enabled.Base.{
  ℕ, zero, suc, ◌+◌, ◌-◌, ◌/◌, ◌%◌, Bool, true, false, List, [], ◌∷◌, leb, ◌==◌, if◌then◌else◌,
  take,
}
use aufs_enabled.Kernel.{Paging}
use aufs_enabled.Vfs.{ok, err}
use aufs_enabled.Dir.{aufs_dir_size, aufs_name_len, DirEntry, Directory, minix_last_byte}

-- The bytes before the first zero, at most `n`.
unfoldable pub strnlen : List ℕ → (n : ℕ) → ℕ
strnlen bytes zero = 0
strnlen [] (suc n) = 0
strnlen (b ∷ bytes) (suc n) = let rest = strnlen bytes n in if b == 0 then 0 else suc rest

-- The entries of a page behind the first `n`.
abbrev pub drop : (n : ℕ) → List DirEntry → List DirEntry
drop zero des = des
drop (suc n) [] = []
drop (suc n) (de ∷ des) = drop n des

module _ {ℓ} {S : Type ℓ} (dir_emit : S → (name : List ℕ) (ino : ℕ) → S × Bool) where
  -- One entry: the context after it, and whether the listing goes on.
  unfoldable pub emit_entry : S → DirEntry → S × Bool
  emit_entry s de =
      if de.dde_inode == 0
      then (s, true)
      else dir_emit s (take (strnlen de.dde_name aufs_name_len) de.dde_name) de.dde_inode

  -- The inner loop at offset `p`: the context, its position, and whether the listing goes on.
  unfoldable pub readdir_page :
      (last_byte : ℕ) → (p : ℕ) → List DirEntry → S → (pos : ℕ) → S × ℕ × Bool
  readdir_page last_byte p [] s pos = (s, pos, true)
  readdir_page last_byte p (de ∷ des) s pos =
      let (s', more) = emit_entry s de in
      let rest = readdir_page last_byte (p + aufs_dir_size) des s' (pos + aufs_dir_size) in
      if leb (p + aufs_dir_size) last_byte
      then if more then rest else (s', pos, false)
      else (s, pos, true)

  module _ (paging : Paging) (dir : Directory) where
    open paging use {page_size, dir_pages, align64}

    -- The outer loop at page `n`, with `left` pages to go.
    unfoldable pub readdir_pages : (left n offset : ℕ) → S → (pos : ℕ) → S × ℕ
    unfolding readdir_page minix_last_byte
    readdir_pages zero n offset s pos = (s, pos)
    readdir_pages (suc left) n offset s pos = elim (dir.pages n) [
      | err e ↦ readdir_pages left (suc n) 0 s pos
      | ok page ↦
          let (s', pos', more) =
            readdir_page (minix_last_byte paging dir.inode.i_size n) offset
              (drop (offset / aufs_dir_size) page) s pos in
          let rest = readdir_pages left (suc n) 0 s' pos' in if more then rest else (s', pos')
    ]

    unfoldable pub minix_readdir : S → (pos : ℕ) → S × ℕ
    unfolding readdir_pages
    minix_readdir s pos =
        let at = align64 pos in
        let n = at / page_size in
        if leb dir.inode.i_size at
        then (s, at)
        else readdir_pages (dir_pages dir.inode.i_size - n) n (at % page_size) s at
