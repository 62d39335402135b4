-- ===== src/Dir.antt =====
-- kern/dir.c: directories. A page is the list of its 64-byte entries; an offset in a page counts
-- bytes, as in the code.
pub mod Name
pub mod Search
pub mod Link
pub mod Total
pub mod Empty
pub mod Listing
use aufs_enabled.Base.{
  ℕ, zero, suc, ◌+◌, ◌-◌, ◌*◌, ◌/◌, ◌%◌, Bool, true, false, not, ◌&&◌, Option, none, some, List, [],
  ◌∷◌, ◌++◌, leb, ltb, ◌==◌, if◌then◌else◌, u32, get_or, set, take, replicate,
}
use aufs_enabled.Kernel.{Errno, eexist, enomem, Paging}
use aufs_enabled.Vfs.{AufsInode, Timespec, Outcome, ok, err}

-- `AUFS_DIR_SIZE`, and `AUFS_NAME_LEN`, the bytes of a name in an entry.
abbrev pub aufs_dir_size : ℕ
aufs_dir_size = 64

abbrev pub aufs_name_len : ℕ
aufs_name_len = 60

-- `struct aufs_disk_dir_entry`, with the 60 bytes behind it that `AUFS_DIR_SIZE` leaves to the name.
pub record DirEntry : Type 0 where
  pub dde_inode : ℕ
  pub dde_name : List ℕ

-- A directory's inode, and its pages as `dir_get_page` returns them.
pub record Directory : Type 0 where
  pub inode : AufsInode
  pub pages : ℕ → Outcome (List DirEntry)

-- `!memcmp(a, b, n)`. A byte that is not there equals no other.
unfoldable pub same_bytes : (n : ℕ) (a b : List ℕ) → Bool
same_bytes zero a b = true
same_bytes (suc n) [] b = false
same_bytes (suc n) (x ∷ a) [] = false
same_bytes (suc n) (x ∷ a) (y ∷ b) = x == y && same_bytes n a b

unfoldable pub namecompare : (len maxlen : ℕ) (name buffer : List ℕ) → Bool
unfolding same_bytes
namecompare len maxlen name buffer =
    if ltb len maxlen && not (get_or buffer len 0 == 0) then false else same_bytes len name buffer

module _ (namelen : ℕ) (name : List ℕ) where
  -- The inner loop of `minix_find_entry` at offset `p`: the offset and the entry.
  unfoldable pub find_slot : (last_byte p : ℕ) → List DirEntry → Option (ℕ × DirEntry)
  find_slot last_byte p [] = none
  find_slot last_byte p (de ∷ des) =
      let rest = find_slot last_byte (p + aufs_dir_size) des in
      if leb (p + aufs_dir_size) last_byte
      then if de.dde_inode == 0
        then rest
        else if namecompare namelen aufs_name_len name de.dde_name
        then some (p, de)
        else rest
      else none

module _ (paging : Paging) where
  open paging use {page_size, dir_pages, align64}

  -- The offset behind the last valid byte of page `page_nr`.
  unfoldable pub minix_last_byte : (i_size page_nr : ℕ) → ℕ
  minix_last_byte i_size page_nr =
      if page_nr == i_size / page_size then i_size % page_size else page_size

  module _ (namelen : ℕ) (name : List ℕ) where
    -- The outer loop at page `n`, with `left` pages to go: the page, the offset and the entry.
    unfoldable pub find_pages : (dir : Directory) (left n : ℕ) → Option (ℕ × ℕ × DirEntry)
    unfolding minix_last_byte find_slot
    find_pages dir zero n = none
    find_pages dir (suc left) n =
        let rest = find_pages dir left (suc n) in
        elim (dir.pages n) [
          | err e ↦ rest
          | ok page ↦ elim (find_slot namelen name (minix_last_byte dir.inode.i_size n) 0 page) [
            | none ↦ rest
            | some (p, de) ↦ some (n, p, de)
          ]
        ]

    unfoldable pub minix_find_entry : Directory → Option (ℕ × ℕ × DirEntry)
    unfolding find_pages
    minix_find_entry dir = find_pages dir (dir_pages dir.inode.i_size) 0

    -- The inode number of the name, or 0.
    unfoldable pub minix_inode_by_name : Directory → ℕ
    unfolding minix_find_entry
    minix_inode_by_name dir = elim (minix_find_entry dir) [
      | none ↦ 0
      | some (n, p, de) ↦ de.dde_inode
    ]

-- How the search of `minix_add_link` ends: at the slot of page `n` at offset `p`, at an entry of
-- that name, at a page that cannot be read, or at the `BUG()` behind the loop.
pub data Slot : Type 0 where
  got_it : (n p : ℕ) → Slot
  exists : Slot
  unreadable : Errno → Slot
  bug : Slot

-- The same within one page, where `page_end` goes on with the next page.
pub data Scan : Type 0 where
  got_it : (p : ℕ) → Scan
  exists : Scan
  page_end : Scan

-- What `minix_add_link` and `minix_make_empty` come to: an error or success, or a `BUG()`.
pub data Returned : Type 0 where
  returned : Option Errno → Returned
  crashed : Returned

-- The page's entry at offset `p`.
unfoldable pub set_entry : List DirEntry → ℕ → DirEntry → List DirEntry
set_entry page p de = set page (p / aufs_dir_size) de

unfoldable pub put_page :
    (ℕ → Outcome (List DirEntry)) → ℕ → List DirEntry → ℕ → Outcome (List DirEntry)
put_page pages n page m = if m == n then ok page else pages m

-- The name field after the `memcpy` and the `memset` of `minix_add_link`, for a name that fits it:
-- with a longer one `AUFS_DIR_SIZE - namelen - 4` is below 0, and `write_entry` crashes.
unfoldable pub padded : (name : List ℕ) (namelen : ℕ) → List ℕ
padded name namelen = take namelen name ++ replicate (aufs_dir_size - namelen - 4) 0

-- `dir_commit_chunk` but for the pages, which are written in place: the size grows to what was
-- written. `sync` is what `write_one_page` returns for a directory that is synced, else `none`.
unfoldable pub dir_commit_chunk :
    AufsInode → (sync : Option Errno) → (pos len : ℕ) → AufsInode × Option Errno
dir_commit_chunk dir sync pos len =
    if ltb dir.i_size (pos + len)
    then (record dir { i_size = pos + len; dirty = true }, sync)
    else (dir, sync)

module _ (paging : Paging) where
  open paging use {page_size, dir_pages}

  module _ (namelen : ℕ) (name : List ℕ) where
    -- The inner loop of `minix_add_link` at offset `p`; `dir_end` is the offset of the end.
    unfoldable pub scan_page : (dir_end p : ℕ) → List DirEntry → Scan
    scan_page dir_end p [] = Scan.page_end
    scan_page dir_end p (de ∷ des) =
        let rest = scan_page dir_end (p + aufs_dir_size) des in
        if leb (p + aufs_dir_size) page_size
        then if p == dir_end
          then Scan.got_it p
          else if de.dde_inode == 0
          then Scan.got_it p
          else if namecompare namelen aufs_name_len name de.dde_name
          then Scan.exists
          else rest
        else Scan.page_end

    -- Its outer loop at page `n`, with `left` pages to go.
    unfoldable pub scan_pages : (dir : Directory) (left n : ℕ) → Slot
    unfolding scan_page minix_last_byte
    scan_pages dir zero n = Slot.bug
    scan_pages dir (suc left) n =
        let rest = scan_pages dir left (suc n) in
        elim (dir.pages n) [
          | err e ↦ Slot.unreadable e
          | ok page ↦ elim (scan_page (minix_last_byte paging dir.inode.i_size n) 0 page) [
            | Scan.got_it p ↦ Slot.got_it n p
            | Scan.exists ↦ Slot.exists
            | Scan.page_end ↦ rest
          ]
        ]

    unfoldable pub find_room : Directory → Slot
    unfolding scan_pages
    find_room dir = scan_pages dir (suc (dir_pages dir.inode.i_size)) 0

  -- `minix_add_link` behind `got_it`, for the page `page`. `prepare` is what `minix_prepare_chunk`
  -- returns for the position; the entry at the end of the directory has its number cleared before. With
  -- a name of more than 60 bytes the length of the `memset`, an `unsigned long`, wraps to nearly
  -- 2^64, and the call runs out of the memory that there is.
  unfoldable pub write_entry :
      (prepare : ℕ → Option Errno) (sync : Option Errno) (now : Timespec) (namelen : ℕ)
      (name : List ℕ) (ino : ℕ)
      → Directory
      → (n p : ℕ) → List DirEntry
      → Directory × Returned
  unfolding set_entry put_page padded dir_commit_chunk minix_last_byte
  write_entry prepare sync now namelen name ino dir n p page =
      let old = get_or page (p / aufs_dir_size) (record { dde_inode = 0; dde_name = [] }) in
      let cleared =
        if p == minix_last_byte paging dir.inode.i_size n
        then set_entry page p (record old { dde_inode = 0 })
        else page in
      let pos = n * page_size + p in
      let entry : DirEntry = record { dde_inode = u32 ino; dde_name = padded name namelen } in
      let (inode, error) = dir_commit_chunk dir.inode sync pos aufs_dir_size in
      elim (prepare pos) [
        | some e ↦ (record dir { pages = put_page dir.pages n cleared }, returned (some e))
        | none ↦
            if ltb aufs_name_len namelen
            then (record dir { pages = put_page dir.pages n cleared }, crashed)
            else (
              record {
                inode = record inode { i_mtime = now; i_ctime = now; dirty = true };
                pages = put_page dir.pages n (set_entry cleared p entry);
              },
              returned error,
            )
      ]

  unfoldable pub minix_add_link :
      (prepare : ℕ → Option Errno) (sync : Option Errno) (now : Timespec) (namelen : ℕ)
      (name : List ℕ) (ino : ℕ)
      → Directory
      → Directory × Returned
  unfolding find_room write_entry
  minix_add_link prepare sync now namelen name ino dir = elim (find_room namelen name dir) [
    | Slot.exists ↦ (dir, returned (some eexist))
    | Slot.unreadable e ↦ (dir, returned (some e))
    | Slot.bug ↦ (dir, crashed)
    | Slot.got_it n p ↦ elim (dir.pages n) [
      | err e ↦ (dir, returned (some e))
      | ok page ↦ write_entry prepare sync now namelen name ino dir n p page
    ]
  ]
