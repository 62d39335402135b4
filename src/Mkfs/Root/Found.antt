-- ===== src/Mkfs/Root/Found.antt =====
-- What the kernel finds in the root directory that the formatter makes.
use aufs_enabled.Base.{
  ℕ, ◌+◌, ◌-◌, ◌/◌, ◌%◌, ◌<◌, true, false, List, [], ◌∷◌, ◌==◌, Bool-cases, get_or, length, ◌≡◌,
  ◌≢◌, ◌∙◌, refl, ap, inl, inr, arith, ==-cases,
}
use aufs_enabled.Kernel.{Paging}
use aufs_enabled.Vfs.{AufsInode, ok}
use aufs_enabled.Dir.{
  DirEntry, Directory, aufs_name_len, namecompare, same_bytes, minix_last_byte, find_pages,
  minix_find_entry, minix_inode_by_name, find_slot,
}
use aufs_enabled.Mkfs.Root.{strcpy, root_entry, root_content}

dot-dot :
    (to : List ℕ)
    → 2 < length to
    → namecompare 1 aufs_name_len (46 ∷ []) (strcpy to (46 ∷ [])) ≡ true
unfolding namecompare same_bytes strcpy
dot-dot [] h = absurd (omega arith)
dot-dot (x ∷ []) h = absurd (omega arith)
dot-dot (x ∷ y ∷ to) h = refl

dotdot-dot :
    (to : List ℕ)
    → 2 < length to
    → namecompare 2 aufs_name_len (46 ∷ 46 ∷ []) (strcpy to (46 ∷ [])) ≡ false
unfolding namecompare same_bytes strcpy
dotdot-dot [] h = absurd (omega arith)
dotdot-dot (x ∷ []) h = absurd (omega arith)
dotdot-dot (x ∷ y ∷ to) h = elim (Bool-cases (get_or to 0 0 == 0)) [ inl t ↦ rw t | inr t ↦ rw t ]

dotdot-dotdot :
    (to : List ℕ)
    → 2 < length to
    → namecompare 2 aufs_name_len (46 ∷ 46 ∷ []) (strcpy to (46 ∷ 46 ∷ [])) ≡ true
unfolding namecompare same_bytes strcpy
dotdot-dotdot [] h = absurd (omega arith)
dotdot-dotdot (x ∷ []) h = absurd (omega arith)
dotdot-dotdot (x ∷ y ∷ []) h = absurd (omega arith)
dotdot-dotdot (x ∷ y ∷ z ∷ to) h = refl

module _ (paging : Paging) where
  open paging use {page_size, dir_pages}

  one_page :
      2 < paging.slots → (dir_pages 128 ≡ 1) × (128 / page_size ≡ 0) × (128 % page_size ≡ 128)
  one_page three =
      let large : 128 < page_size = omega (arith, paging.page_size_lem) in
      let pages = paging.dir_pages_lem 128 in
      (pages ∙ one_of page_size large, grind arith, grind arith)
    where
      one_of : (n : ℕ) → 128 < n → (128 + n - 1) / n ≡ 1
      one_of n h = grind arith

  -- In the block that the formatter leaves for the root directory, with names of more than two bytes,
  -- the kernel finds "." and ".." with the number `htonl(1)` as it stands on the disk: it is the number
  -- 1 of the root inode only where `htonl` changes nothing. Pages have three entries or more, and the
  -- converted number is not 0.
  pub root_content-found :
      (htonl : ℕ → ℕ) (inode : AufsInode) (d dd bad : DirEntry) (des : List DirEntry)
      → 2 < paging.slots
      → htonl 1 ≢ 0
      → 2 < length d.dde_name
      → 2 < length dd.dde_name
      → inode.i_size ≡ 128
      → let root : Directory = record {
        inode = inode;
        pages = λ n. ok (root_content htonl (d ∷ dd ∷ bad ∷ des));
      } in
        (minix_inode_by_name paging 1 (46 ∷ []) root ≡ htonl 1)
        × (minix_inode_by_name paging 2 (46 ∷ 46 ∷ []) root ≡ htonl 1)
  unfolding minix_inode_by_name minix_find_entry find_pages find_slot root_content root_entry
  root_content-found htonl inode d dd bad des three ne hd hdd size =
      let (pages, quotient, rest) = one_page three in
      let used : (htonl 1 == 0) ≡ false = elim (==-cases (htonl 1) 0) [
        | inl (_, e) ↦ absurd (ne e)
        | inr (t, _) ↦ t
      ] in
      let pages' : dir_pages inode.i_size ≡ 1 = ap dir_pages size ∙ pages in
      let last : minix_last_byte paging inode.i_size 0 ≡ 128 = rw (size, quotient, rest) in
      (
        rw (minix_inode_by_name, minix_find_entry, pages', last, used, dot-dot d.dde_name hd),
        rw (
          minix_inode_by_name,
          minix_find_entry,
          pages',
          last,
          used,
          dotdot-dot d.dde_name hd,
          dotdot-dotdot dd.dde_name hdd,
        ),
      )
