-- ===== src/Dir/Empty.antt =====
-- kern/dir.c: `minix_make_empty`, which begins a new directory.
use aufs_enabled.Base.{
  ℕ, ◌-◌, ◌*◌, ◌/◌, ◌%◌, ◌<◌, ◌≤◌, ◌^◌, Bool, false, Option, none, some, List, [], ◌∷◌, ◌==◌,
  if◌then◌else◌, u32, replicate, ◌≡◌, refl, arith,
}
use aufs_enabled.Kernel.{Errno, enomem, Paging}
use aufs_enabled.Vfs.{ok}
use aufs_enabled.Dir.{
  DirEntry, Directory, aufs_dir_size, put_page, dir_commit_chunk, minix_inode_by_name,
  minix_find_entry, find_pages, find_slot, namecompare, same_bytes, minix_last_byte,
}

-- "." and "..".
abbrev pub dot : List ℕ
dot = 46 ∷ []

abbrev pub dotdot : List ℕ
dotdot = 46 ∷ 46 ∷ []

-- A cleared page of `slots` entries with the first two written by `strcpy`.
unfoldable pub empty_page : (slots ino parent : ℕ) → List DirEntry
empty_page slots ino parent =
    record { dde_inode = u32 ino; dde_name = 46 ∷ replicate 59 0 }
    ∷ record { dde_inode = u32 parent; dde_name = 46 ∷ 46 ∷ replicate 58 0 }
    ∷ replicate (slots - 2) (record { dde_inode = 0; dde_name = replicate 60 0 })

-- `grabbed` tells whether `grab_cache_page` finds a page, `prepare` is what `minix_prepare_chunk`
-- returns.
unfoldable pub minix_make_empty :
    Paging
    → (grabbed : Bool) (prepare sync : Option Errno) → Directory
    → (parent : ℕ) → Directory × Option Errno
unfolding empty_page
minix_make_empty paging grabbed prepare sync child parent =
    let page = empty_page paging.slots child.inode.i_ino parent in
    let (inode, error) = dir_commit_chunk child.inode sync 0 (2 * aufs_dir_size) in
    if grabbed
    then elim prepare [
      | some e ↦ (child, some e)
      | none ↦ (record { inode = inode; pages = put_page child.pages 0 page }, error)
    ]
    else (child, some enomem)

module _ (paging : Paging) where
  open paging use {page_size, slots, dir_pages, page_size_lem, dir_pages_lem}

  -- Pages of at least three entries: a name in the first two entries of page 0 is found.
  pub first_page :
      (dir : Directory) (ino parent : ℕ)
      → 3 ≤ slots
      → dir.inode.i_size ≡ 2 * aufs_dir_size
      → dir.pages 0 ≡ ok (empty_page slots ino parent)
      → 0 < ino
      → ino < 2 ^ 32
      → 0 < parent
      → parent < 2 ^ 32
      → (minix_inode_by_name paging 1 dot dir ≡ ino)
        × (minix_inode_by_name paging 2 dotdot dir ≡ parent)
  unfolding minix_inode_by_name minix_find_entry find_pages find_slot namecompare same_bytes
      minix_last_byte empty_page
  first_page dir ino parent room size read low high low' high' =
      let large : 128 < page_size = omega (arith, page_size_lem) in
      let count : dir_pages dir.inode.i_size ≡ 1 = rw (dir_pages_lem, size) (grind arith) in
      let q : 2 * aufs_dir_size / page_size ≡ 0 = grind arith in
      let r : 2 * aufs_dir_size % page_size ≡ 128 = grind arith in
      let here : minix_last_byte paging dir.inode.i_size 0 ≡ 128 =
        rw (minix_last_byte, size) (rw (q, r) refl) in
      let same : u32 ino ≡ ino = omega arith in
      let same' : u32 parent ≡ parent = omega arith in
      let full : (ino == 0) ≡ false = ground arith in
      let full' : (parent == 0) ≡ false = ground arith in
      (
        rw (minix_inode_by_name, minix_find_entry, count)
            (rw (find_pages, read) (rw (here, same, same', full))),
        rw (minix_inode_by_name, minix_find_entry, count)
            (rw (find_pages, read) (rw (here, same, same', full, full'))),
      )
