-- ===== src/Dir/Total.antt =====
-- The `BUG()` behind the loop of `minix_add_link` is not reached.
use native.Mathlib.Nat.{div-add-mod}
use aufs_enabled.Base.{
  ℕ, zero, suc, ◌+◌, ◌-◌, ◌*◌, ◌/◌, ◌%◌, ◌<◌, ◌≤◌, true, false, ltb, Option, List, [], ◌∷◌, ◌==◌,
  length, ◌≡◌, ◌≢◌, ◌∙◌, Option-cases, some, inl, inr, refl, sym, ap, arith, ==-cases,
}
use aufs_enabled.Kernel.{Errno, eexist, Paging}
use aufs_enabled.Vfs.{Timespec, ok}
use aufs_enabled.Dir.{
  DirEntry, Directory, aufs_dir_size, aufs_name_len, scan_page, scan_pages, find_room,
  minix_add_link, minix_last_byte, Slot, Scan, returned, dir_commit_chunk, write_entry,
}
use aufs_enabled.Dir.Search.{Outcome-cases, scan_pages-step, page_scan}

module _ (paging : Paging) (namelen : ℕ) (name : List ℕ) where
  open paging use {page_size, slots, dir_pages, dir_pages_lem, page_size_lem, some_slots}

  -- A scan that begins whole entries before the end of the directory does not pass it.
  scan_page-stops :
      (dir_end p k : ℕ) (des : List DirEntry)
      → dir_end ≡ p + aufs_dir_size * k
      → k < length des
      → dir_end + aufs_dir_size ≤ page_size
      → scan_page paging namelen name dir_end p des ≢ Scan.page_end
  unfolding scan_page
  scan_page-stops dir_end p k [] at h fits = absurd (omega arith)
  scan_page-stops dir_end p zero (de ∷ des) at h fits = ground arith
  scan_page-stops dir_end p (suc k) (de ∷ des) at h fits =
      ground (arith, scan_page-stops dir_end (p + aufs_dir_size) k des)

  module _ (dir : Directory) (count : ℕ) (whole : dir.inode.i_size ≡ aufs_dir_size * count)
      (full : (m : ℕ) (page : List DirEntry) → dir.pages m ≡ ok page → length page ≡ slots)
      (short : namelen ≤ aufs_name_len) where
    end_page : ℕ
    end_page = dir.inode.i_size / page_size

    end_page-le : end_page ≤ dir_pages dir.inode.i_size
    unfolding end_page
    end_page-le =
        let pos : 0 < page_size = omega (arith, some_slots, page_size_lem) in
        rw (dir_pages_lem dir.inode.i_size) (grind arith)

    end_page-scan :
        (page : List DirEntry)
        → length page ≡ slots
        → page_scan paging namelen name dir end_page page ≢ Scan.page_end
    unfolding end_page minix_last_byte
    end_page-scan page len =
        let size = dir.inode.i_size in
        let pos : 0 < page_size = omega (arith, some_slots, page_size_lem) in
        let split = div-add-mod size page_size in
        let low : size % page_size < page_size = grind arith in
        let k = count - slots * (size / page_size) in
        let size_lem = page_size_lem in
        let parts : page_size * (size / page_size) ≡ aufs_dir_size * (slots * (size / page_size)) =
          rw size_lem (omega arith) in
        let at : size % page_size ≡ 0 + aufs_dir_size * k = omega arith in
        let self : (size / page_size == size / page_size) ≡ true = ground arith in
        rw self (scan_page-stops (size % page_size) 0 k page at (omega arith) (omega arith))

    scan_pages-ne-bug :
        (left n : ℕ)
        → n ≤ end_page
        → end_page < n + left
        → scan_pages paging namelen name dir left n ≢ Slot.bug
    scan_pages-ne-bug zero n low high e = absurd (omega arith)
    scan_pages-ne-bug (suc left) n low high e =
        elim (scan_pages-step paging namelen name dir left n) [
          | inl (er, _, r) ↦ cc
          | inr (page, read, inl (p, _, r)) ↦ cc
          | inr (page, read, inr (inl (_, r))) ↦ cc
          | inr (page, read, inr (inr (s, r))) ↦ elim (==-cases n end_page) [
            | inl (_, here) ↦
                end_page-scan page (full n page read)
                  (ap (λ (m : ℕ). page_scan paging namelen name dir m page) (sym here) ∙ s)
            | inr (_, ne) ↦ scan_pages-ne-bug left (suc n) (omega arith) (omega arith) (sym r ∙ e)
          ]
        ]

    find_room-ne-bug : find_room paging namelen name dir ≢ Slot.bug
    unfolding find_room
    find_room-ne-bug =
        scan_pages-ne-bug (suc (dir_pages dir.inode.i_size)) 0 (omega arith)
          (omega (arith, end_page-le))

    write_entry-returns :
        (prepare : ℕ → Option Errno) (sync : Option Errno) (now : Timespec) (ino n p : ℕ)
        (page : List DirEntry)
        → (r : Option Errno) × ((write_entry paging prepare sync now namelen name ino dir n p
              page).1
            ≡ returned r)
    unfolding write_entry
    write_entry-returns prepare sync now ino n p page =
        let fits : ltb aufs_name_len namelen ≡ false = ground arith in
        elim (Option-cases (prepare (n * page_size + p))) [
          | inl e ↦ (
            (dir_commit_chunk dir.inode sync (n * page_size + p) aufs_dir_size).1,
            rw (write_entry, e, fits),
          )
          | inr (er, e) ↦ (some er, rw (write_entry, e))
        ]

    -- In a directory of whole entries, with pages that are full of entries, and for a name of at most 60
    -- bytes, `minix_add_link` never crashes, whatever fails on the way: it does not come to the `BUG()`
    -- behind its loop, and returns success or an error.
    pub minix_add_link-returns :
        (prepare : ℕ → Option Errno) (sync : Option Errno) (now : Timespec) (ino : ℕ)
        → (r : Option Errno) × ((minix_add_link paging prepare sync now namelen name ino dir).1
            ≡ returned r)
    unfolding minix_add_link
    minix_add_link-returns prepare sync now ino = go (find_room paging namelen name dir) refl
      where
        go :
            (s : Slot)
            → find_room paging namelen name dir ≡ s
            → (r : Option Errno) × ((minix_add_link paging prepare sync now namelen name ino dir).1
                ≡ returned r)
        go (Slot.got_it n p) e = elim (Outcome-cases (dir.pages n)) [
          | inl (page, read) ↦
              let (r, w) = write_entry-returns prepare sync now ino n p page in
              (r, rw (minix_add_link, e) (rw read w))
          | inr (er, read) ↦ (some er, rw (minix_add_link, e) (rw read))
        ]
        go Slot.exists e = (some eexist, rw (minix_add_link, e))
        go (Slot.unreadable er) e = (some er, rw (minix_add_link, e))
        go Slot.bug e = absurd (find_room-ne-bug e)
