-- ===== src/Names/Mkdir.antt =====
-- `minix_mkdir`: the counts of links on every branch, and the number of the new inode.
use aufs_enabled.Base.{
  ℕ, ◌+◌, ◌*◌, ◌<◌, ◌≤◌, ◌^◌, Bool, true, Option, none, some, List, length, ◌≡◌, ◌∙◌, ◌⊎◌, inl, inr,
  refl, sym, ap, subst, arith, Option-cases,
}
use aufs_enabled.Kernel.{BitOps, Errno, enomem, enospc, Paging}
use aufs_enabled.Vfs.{AufsInode, Outcome, ok, err}
use aufs_enabled.Super.{AufsSuperBlock}
use aufs_enabled.Bitmap.{aufs_new_inode, init_inode}
use aufs_enabled.Bitmap.Maps.{map_bit}
use aufs_enabled.Bitmap.Inodes.{aufs_new_inode-outcome}
use aufs_enabled.Inode.Block.Ownership.{map_bit-range}
use aufs_enabled.Inode.Table.{minix_set_inode}
use aufs_enabled.Dir.{DirEntry, Directory, returned, aufs_dir_size, aufs_name_len}
use aufs_enabled.Names.Links.{minix_set_inode-nlink, LinksAre, fill_dir-LinksAre}
use aufs_enabled.Names.{LinkCounts, Surroundings, Made, fill_dir, minix_mkdir, or_ifdir}

module _ (ops : BitOps) (paging : Paging) (links : LinkCounts) (around : Surroundings) where
  open ops use {Bits}

  module _ (s_blocksize : ℕ) (sbi : AufsSuperBlock Bits)
      (whole_map : length sbi.s_imap ≡ sbi.asb_inode_map_blocks)
      (fits : sbi.asb_inode_map_blocks * (8 * s_blocksize) < 2 ^ 31)
      (reserved : map_bit ops (8 * s_blocksize) sbi.s_imap 0 ≡ true) (dir : Directory)
      (name : List ℕ) (mode : ℕ) (pages : ℕ → Outcome (List DirEntry)) (grabbed : Bool)
      (prepared : Option Errno) (few_links : dir.inode.i_nlink + 1 < 2 ^ 32) where
    abbrev pub result : Made Bits Directory
    result =
        minix_mkdir ops paging links around s_blocksize sbi dir name mode pages grabbed prepared

    abbrev pub linked : Directory
    linked = record dir { inode = links.inode_inc_link_count dir.inode }

    abbrev pub child_of : AufsInode → Directory
    child_of inode = record {
      inode = links.inode_inc_link_count (minix_set_inode inode).0;
      pages = pages;
    }

    abbrev allotted : Option AufsInode → AufsSuperBlock Bits × Outcome AufsInode
    allotted fresh =
        aufs_new_inode ops s_blocksize sbi fresh (around.init_owner (or_ifdir mode)) around.now

    -- No inode: the link is given back.
    abbrev pub refused : Errno → Made Bits Directory
    refused e = record {
      sbi = sbi;
      dir = record linked { inode = links.inode_dec_link_count linked.inode };
      child = none;
      result = returned (some e);
    }

    allotted-refused : (e : Errno) → allotted around.fresh ≡ (sbi, err e) → result ≡ refused e
    unfolding minix_mkdir
    allotted-refused e eq =
        rw (minix_mkdir, eq)
          (ap (λ (r : AufsSuperBlock Bits × Outcome AufsInode). record (refused e) { sbi = r.0 })
            eq)

    allotted-filled :
        (sbi' : AufsSuperBlock Bits) (inode : AufsInode)
        → allotted around.fresh ≡ (sbi', ok inode)
        → result
          ≡ fill_dir ops paging links around sbi' linked (child_of inode) name grabbed prepared
    unfolding minix_mkdir
    allotted-filled sbi' inode eq =
        rw (minix_mkdir, eq)
          (ap
            (λ (r : AufsSuperBlock Bits × Outcome AufsInode).
              fill_dir ops paging links around r.0 linked (child_of inode) name grabbed prepared)
            eq)

    -- A new inode with its number.
    abbrev pub Filled : Type 0
    Filled =
        (sbi' : AufsSuperBlock Bits) × (inode : AufsInode) × (0 < inode.i_ino)
        × (inode.i_ino < 2 ^ 31)
        × (inode.i_nlink ≡ 1)
        × ((made : AufsInode) × (around.fresh ≡ some made)
            × (inode ≡ init_inode made (around.init_owner (or_ifdir mode)) around.now inode.i_ino))
        × (result
            ≡ fill_dir ops paging links around sbi' linked (child_of inode) name grabbed prepared)

    pub mkdir-cases : ((e : Errno) × (result ≡ refused e)) ⊎ Filled
    unfolding init_inode
    mkdir-cases = elim (Option-cases around.fresh) [
      | inl e ↦
          let new : allotted around.fresh ≡ (sbi, err enomem) =
            ap allotted e
            ∙ (aufs_new_inode-outcome ops s_blocksize sbi whole_map fits reserved dir.inode
                (around.init_owner (or_ifdir mode)) around.now).0 in
          inl (enomem, allotted-refused enomem new)
      | inr (inode, e) ↦
          elim (aufs_new_inode-outcome ops s_blocksize sbi whole_map fits reserved inode
            (around.init_owner (or_ifdir mode)) around.now).1 [
              | inl (_, new) ↦ inl (enospc, allotted-refused enospc (ap allotted e ∙ new))
              | inr (n, pos, takes, new) ↦
                  let range = map_bit-range ops (8 * s_blocksize) sbi.s_imap n takes.clear in
                  let small : n < sbi.asb_inode_map_blocks * (8 * s_blocksize) =
                    rw whole_map at range in
                  inr (
                    _,
                    init_inode inode (around.init_owner (or_ifdir mode)) around.now n,
                    pos,
                    omega (arith, small, fits),
                    (around.init_owner_lem (or_ifdir mode) inode).0 ∙ (around.fresh_lem inode e).0,
                    (inode, e, refl),
                    allotted-filled _ _ (ap allotted e ∙ new),
                  )
            ]
    ]

    pub linked-nlink : linked.inode.i_nlink ≡ dir.inode.i_nlink + 1
    linked-nlink =
        ap (λ (i : AufsInode). i.i_nlink) (links.inode_inc_link_count_lem dir.inode few_links)

    pub child_of-inode :
        (inode : AufsInode)
        → inode.i_nlink ≡ 1
        → (child_of inode).inode ≡ record (minix_set_inode inode).0 { i_nlink = 2; dirty = true }
    child_of-inode inode one =
        let set = minix_set_inode-nlink inode in
        links.inode_inc_link_count_lem (minix_set_inode inode).0 (omega arith)
        ∙ ap (λ (k : ℕ). record (minix_set_inode inode).0 { i_nlink = k; dirty = true })
            {x = (minix_set_inode inode).0.i_nlink + 1} {y = 2} (omega arith)

    module _ (size : ℕ) (whole : dir.inode.i_size ≡ aufs_dir_size * size)
        (full : (m : ℕ) (page : List DirEntry) → dir.pages m ≡ ok page → length page ≡ paging.slots)
        (short : length name ≤ aufs_name_len) where
      -- Where `aufs_new_inode` works as it should (the inode map is as long as the super block says,
      -- is counted by an `int` and has bit 0 set), the directory is of whole entries and can get a
      -- link more, and the name has at most 60 bytes: `minix_mkdir` returns, whatever fails on the way. On success the directory has
      -- one link more than before and the new one has two; with an error the directory has as many
      -- as before, and the new inode, if there is one, has none.
      pub minix_mkdir-LinksAre : LinksAre ops paging links around dir.inode.i_nlink result
      minix_mkdir-LinksAre = elim mkdir-cases [
        | inl (e, refuse) ↦
            let low = links.inode_dec_link_count_lem linked.inode (omega (arith, linked-nlink)) in
            let count : (links.inode_dec_link_count linked.inode).i_nlink ≡ dir.inode.i_nlink =
              omega (arith, linked-nlink, ap (λ (i : AufsInode). i.i_nlink) low) in
            subst (LinksAre ops paging links around dir.inode.i_nlink) (sym refuse)
              (inr (e, refl, count, inl refl))
        | inr (sbi', inode, _, _, one, _, fill) ↦
            let same_size : linked.inode.i_size ≡ aufs_dir_size * size =
              ap (λ (i : AufsInode). i.i_size) (links.inode_inc_link_count_lem dir.inode few_links)
              ∙ whole in
            subst (LinksAre ops paging links around dir.inode.i_nlink) (sym fill) (
              fill_dir-LinksAre ops paging links around sbi' linked (child_of inode) name grabbed
                prepared dir.inode.i_nlink size short same_size full linked-nlink
                (ap (λ (i : AufsInode). i.i_nlink) (child_of-inode inode one)))
      ]
