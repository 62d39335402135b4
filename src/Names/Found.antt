-- ===== src/Names/Found.antt =====
-- What `minix_mkdir` makes, `minix_lookup` finds.
use aufs_enabled.Base.{
  ℕ, ◌+◌, ◌*◌, ◌<◌, ◌≤◌, ◌^◌, Bool, true, false, Option, none, some, List, length, ◌≡◌, ◌∙◌, inl,
  inr, refl, sym, ap, subst, arith, Option-cases,
}
use aufs_enabled.Kernel.{BitOps, Errno, Paging}
use aufs_enabled.Vfs.{AufsInode, Outcome}
use aufs_enabled.Super.{AufsSuperBlock}
use aufs_enabled.Bitmap.{init_inode}
use aufs_enabled.Bitmap.Maps.{map_bit}
use aufs_enabled.Inode.Table.{minix_set_inode}
use aufs_enabled.Dir.{
  DirEntry, Directory, Returned, returned, crashed, put_page, dir_commit_chunk, minix_inode_by_name,
}
use aufs_enabled.Dir.Name.{IsName}
use aufs_enabled.Dir.Link.{minix_inode_by_name-add_link}
use aufs_enabled.Dir.Empty.{minix_make_empty, first_page, dot, dotdot}
use aufs_enabled.Names.{
  LinkCounts, Surroundings, Made, add_link, out_fail, fill_dir, minix_mkdir, or_ifdir,
}
use aufs_enabled.Names.Links.{make_empty-child, minix_set_inode-nlink}
use aufs_enabled.Names.Mkdir.{mkdir-cases}

minix_set_inode-size :
    (i : AufsInode) → let r = (minix_set_inode i).0 in (r.i_size ≡ i.i_size) × (r.i_ino ≡ i.i_ino)
unfolding minix_set_inode
minix_set_inode-size i = ground arith

module _ (paging : Paging) (sync : Option Errno) where
  -- A directory that was begun has its two entries.
  make_empty-found :
      (grabbed : Bool) (prepared : Option Errno) (child : Directory) (parent : ℕ)
      → let r = minix_make_empty paging grabbed prepared sync child parent in
        r.1 ≡ none
        → 3 ≤ paging.slots
        → child.inode.i_size ≡ 0
        → 0 < child.inode.i_ino
        → child.inode.i_ino < 2 ^ 32
        → 0 < parent
        → parent < 2 ^ 32
        → (minix_inode_by_name paging 1 dot r.0 ≡ child.inode.i_ino)
          × (minix_inode_by_name paging 2 dotdot r.0 ≡ parent)
  unfolding minix_make_empty dir_commit_chunk put_page
  make_empty-found false prepared child parent e room size low high low' high' = cc
  make_empty-found true (some er) child parent e room size low high low' high' = cc
  make_empty-found true none child parent e room size low high low' high' =
      first_page paging _ child.inode.i_ino parent room (ground arith) refl low high low' high'

module _ (ops : BitOps) (paging : Paging) (links : LinkCounts) (around : Surroundings) where
  open ops use {Bits}

  -- The new name, and the two entries of the new directory, lead to the right numbers.
  abbrev pub Leads : (parent : ℕ) → (name : List ℕ) → Made Bits Directory → Type 0
  Leads parent name m =
      (c : Directory) × (m.child ≡ some c)
      × (minix_inode_by_name paging (length name) name m.dir ≡ c.inode.i_ino)
      × (minix_inode_by_name paging 1 dot c ≡ c.inode.i_ino)
      × (minix_inode_by_name paging 2 dotdot c ≡ parent)

  module _ (sbi : AufsSuperBlock Bits) (dir child : Directory) (name : List ℕ) (grabbed : Bool)
      (prepared : Option Errno) where
    abbrev made : Directory × Option Errno
    made = minix_make_empty paging grabbed prepared around.child_sync child dir.inode.i_ino

    abbrev added : Directory × Returned
    added = add_link ops paging links around dir name made.0.inode.i_ino

    abbrev filled : Made Bits Directory
    filled = fill_dir ops paging links around sbi dir child name grabbed prepared

    abbrev Succeeds : Type 0
    Succeeds =
        (made.1 ≡ none)
        × (added.1 ≡ returned none)
        × (filled
            ≡ record { sbi = sbi; dir = added.0; child = some made.0; result = returned none })

    -- Success means that both steps succeeded.
    fill_dir-Succeeds : filled.result ≡ returned none → Succeeds
    unfolding fill_dir out_fail
    fill_dir-Succeeds success = elim (Option-cases made.1) [
      | inr (e, failed) ↦ cc (rw (fill_dir, failed) at success)
      | inl e ↦ go e added.1 refl
    ]
      where
        go : made.1 ≡ none → (r : Returned) → added.1 ≡ r → Succeeds
        go e (returned none) end = (e, end, rw (fill_dir, e) (rw end refl))
        go e (returned (some er)) end = cc (rw end at (rw (fill_dir, e) at success))
        go e crashed end = cc (rw end at (rw (fill_dir, e) at success))

    fill_dir-Leads :
        filled.result ≡ returned none
        → IsName name
        → 3 ≤ paging.slots
        → child.inode.i_size ≡ 0
        → 0 < child.inode.i_ino
        → child.inode.i_ino < 2 ^ 32
        → 0 < dir.inode.i_ino
        → dir.inode.i_ino < 2 ^ 32
        → Leads dir.inode.i_ino name filled
    fill_dir-Leads success valid room size low high low' high' =
        let (e, end, eq) = fill_dir-Succeeds success in
        let number =
          (make_empty-child ops paging links around grabbed prepared child dir.inode.i_ino).1 in
        let entries =
          make_empty-found paging around.child_sync grabbed prepared child dir.inode.i_ino e room
            size low high low' high' in
        let linked =
          minix_inode_by_name-add_link paging around.prepare around.sync around.now name
            made.0.inode.i_ino dir valid (omega (arith, number)) (omega (arith, number)) end in
        subst (Leads dir.inode.i_ino name) (sym eq)
          (made.0, refl, linked, entries.0 ∙ sym number, entries.1)

  module _ (s_blocksize : ℕ) (sbi : AufsSuperBlock Bits)
      (whole_map : length sbi.s_imap ≡ sbi.asb_inode_map_blocks)
      (fits : sbi.asb_inode_map_blocks * (8 * s_blocksize) < 2 ^ 31)
      (reserved : map_bit ops (8 * s_blocksize) sbi.s_imap 0 ≡ true) (dir : Directory)
      (name : List ℕ) (mode : ℕ) (pages : ℕ → Outcome (List DirEntry)) (grabbed : Bool)
      (prepared : Option Errno) (few_links : dir.inode.i_nlink + 1 < 2 ^ 32) where
    abbrev made_dir : Made Bits Directory
    made_dir =
        minix_mkdir ops paging links around s_blocksize sbi dir name mode pages grabbed prepared

    -- Where `aufs_new_inode` works as it should (the inode map is as long as the super block says,
    -- is counted by an `int` and has bit 0 set), the directory
    -- can get a link more and has a number from 1 to 2^32 - 1, a page has three entries or more, and
    -- the name has no NUL byte and fits its field: when `minix_mkdir` succeeds, the name is found in
    -- the directory with the number of the new one, "." is found in the new one with that number, and
    -- ".." with the number of the directory.
    pub minix_mkdir-Leads :
        made_dir.result ≡ returned none
        → IsName name
        → 3 ≤ paging.slots
        → 0 < dir.inode.i_ino
        → dir.inode.i_ino < 2 ^ 32
        → Leads dir.inode.i_ino name made_dir
    unfolding init_inode
    minix_mkdir-Leads success valid room low high =
        elim (mkdir-cases ops paging links around s_blocksize sbi whole_map fits reserved dir name
          mode pages grabbed prepared few_links) [
            | inl (e, refuse) ↦
                absurd (cc (sym (ap (λ (m : Made Bits Directory). m.result) refuse) ∙ success))
            | inr (sbi', inode, pos, small, one, (fresh, got, init), fill) ↦
                let parent = links.inode_inc_link_count_lem dir.inode few_links in
                let number : (links.inode_inc_link_count dir.inode).i_ino ≡ dir.inode.i_ino =
                  ap (λ (i : AufsInode). i.i_ino) parent in
                let set = minix_set_inode-size inode in
                let counted =
                  links.inode_inc_link_count_lem (minix_set_inode inode).0
                    (omega (arith, minix_set_inode-nlink inode, one)) in
                let size : (links.inode_inc_link_count (minix_set_inode inode).0).i_size ≡ 0 =
                  ap (λ (i : AufsInode). i.i_size) counted
                  ∙ set.0
                  ∙ ap (λ (i : AufsInode). i.i_size) init
                  ∙ (around.init_owner_lem (or_ifdir mode) fresh).1
                  ∙ (around.fresh_lem fresh got).1 in
                let ino : (links.inode_inc_link_count (minix_set_inode inode).0).i_ino
                    ≡ inode.i_ino =
                  ap (λ (i : AufsInode). i.i_ino) counted ∙ set.1 in
                let end = sym (ap (λ (m : Made Bits Directory). m.result) fill) ∙ success in
                let leads =
                  fill_dir-Leads sbi' (record dir { inode = links.inode_inc_link_count dir.inode })
                    (record {
                      inode = links.inode_inc_link_count (minix_set_inode inode).0;
                      pages = pages;
                    })
                    name grabbed prepared end valid room size (omega (arith, ino))
                    (omega (arith, ino)) (omega (arith, number)) (omega (arith, number)) in
                subst (Leads dir.inode.i_ino name) (sym fill) (
                  subst
                    (λ (p : ℕ). Leads p name (
                      fill_dir ops paging links around sbi'
                        (record dir { inode = links.inode_inc_link_count dir.inode })
                        (record {
                          inode = links.inode_inc_link_count (minix_set_inode inode).0;
                          pages = pages;
                        })
                        name grabbed prepared))
                    number leads)
          ]
