-- ===== src/Names/Links.antt =====
-- `minix_mkdir` behind `aufs_new_inode`: the counts of links on every branch.
use aufs_enabled.Base.{
  ℕ, ◌+◌, ◌-◌, ◌*◌, Bool, true, false, Option, none, some, List, length, ◌≡◌, ◌∙◌, ◌⊎◌, inl, inr,
  refl, ap, arith, Option-cases, Bool-cases, ltb, ◌≤◌,
}
use aufs_enabled.Kernel.{BitOps, Errno, Paging}
use aufs_enabled.Vfs.{AufsInode, ok}
use aufs_enabled.Super.{AufsSuperBlock}
use aufs_enabled.Inode.Table.{minix_set_inode}
use aufs_enabled.Dir.{
  DirEntry, Directory, returned, Slot, find_room, minix_add_link, write_entry, dir_commit_chunk,
  aufs_dir_size, aufs_name_len,
}
use aufs_enabled.Dir.Search.{Outcome-cases}
use aufs_enabled.Dir.Total.{minix_add_link-returns}
use aufs_enabled.Dir.Empty.{minix_make_empty}
use aufs_enabled.Names.{LinkCounts, Surroundings, Made, add_link, out_fail, fill_dir}

dir_commit_chunk-nlink :
    (i : AufsInode) (sync : Option Errno) (pos len : ℕ)
    → let r = dir_commit_chunk i sync pos len in (r.0.i_nlink ≡ i.i_nlink) × (r.0.i_ino ≡ i.i_ino)
unfolding dir_commit_chunk
dir_commit_chunk-nlink i sync pos len = ground arith

pub minix_set_inode-nlink : (i : AufsInode) → (minix_set_inode i).0.i_nlink ≡ i.i_nlink
unfolding minix_set_inode
minix_set_inode-nlink i = ground arith

module _ (ops : BitOps) (paging : Paging) (links : LinkCounts) (around : Surroundings) where
  open ops use {Bits}

  write_entry-nlink :
      (name : List ℕ) (ino : ℕ) (dir : Directory) (n p : ℕ) (page : List DirEntry)
      → (write_entry paging around.prepare around.sync around.now
          (length name)
          name
          ino
          dir
          n
          p
          page).0.inode.i_nlink
        ≡ dir.inode.i_nlink
  unfolding write_entry
  write_entry-nlink name ino dir n p page =
      elim (Option-cases (around.prepare (n * paging.page_size + p))) [
        | inl e ↦ elim (Bool-cases (ltb aufs_name_len (length name))) [
          | inl long ↦ rw (write_entry, e, long)
          | inr short ↦
              rw (write_entry, e, short)
                (dir_commit_chunk-nlink dir.inode around.sync (n * paging.page_size + p)
                  aufs_dir_size).0
        ]
        | inr (er, e) ↦ rw (write_entry, e)
      ]

  -- Adding a name does not count a link of the directory.
  add_link-nlink :
      (dir : Directory) (name : List ℕ) (ino : ℕ)
      → (add_link ops paging links around dir name ino).0.inode.i_nlink ≡ dir.inode.i_nlink
  unfolding minix_add_link
  add_link-nlink dir name ino = go (find_room paging (length name) name dir) refl
    where
      go :
          (s : Slot)
          → find_room paging (length name) name dir ≡ s
          → (add_link ops paging links around dir name ino).0.inode.i_nlink ≡ dir.inode.i_nlink
      go Slot.exists e = rw (minix_add_link, e)
      go (Slot.unreadable er) e = rw (minix_add_link, e)
      go Slot.bug e = rw (minix_add_link, e)
      go (Slot.got_it n p) e = elim (Outcome-cases (dir.pages n)) [
        | inl (page, read) ↦
            rw (minix_add_link, e) (rw read (write_entry-nlink name ino dir n p page))
        | inr (er, read) ↦ rw (minix_add_link, e) (rw read)
      ]

  pub make_empty-child :
      (grabbed : Bool) (prepared : Option Errno) (child : Directory) (parent : ℕ)
      → let r = minix_make_empty paging grabbed prepared around.child_sync child parent in
        (r.0.inode.i_nlink ≡ child.inode.i_nlink) × (r.0.inode.i_ino ≡ child.inode.i_ino)
  unfolding minix_make_empty
  make_empty-child false prepared child parent = (refl, refl)
  make_empty-child true (some e) child parent = (refl, refl)
  make_empty-child true none child parent =
      dir_commit_chunk-nlink child.inode around.child_sync 0 (2 * aufs_dir_size)

  -- The links after `minix_mkdir`, where `count` was that of the directory: one more for it and two
  -- for the new one; or, after an error, as many as before and none.
  abbrev pub LinksAre : (count : ℕ) → Made Bits Directory → Type 0
  LinksAre count m =
      ((m.result ≡ returned none)
        × (m.dir.inode.i_nlink ≡ count + 1)
        × ((c : Directory) × (m.child ≡ some c) × (c.inode.i_nlink ≡ 2)))
      ⊎ ((e : Errno) × (m.result ≡ returned (some e))
          × (m.dir.inode.i_nlink ≡ count)
          × ((m.child ≡ none) ⊎ ((c : Directory) × (m.child ≡ some c) × (c.inode.i_nlink ≡ 0))))

  out_fail-LinksAre :
      (sbi : AufsSuperBlock Bits) (dir child : Directory) (e : Errno) (count : ℕ)
      → dir.inode.i_nlink ≡ count + 1
      → child.inode.i_nlink ≡ 2
      → LinksAre count (out_fail ops paging links around sbi dir child (returned (some e)))
  unfolding out_fail
  out_fail-LinksAre sbi dir child e count one two =
      let low = links.inode_dec_link_count_lem dir.inode (omega arith) in
      let once = links.inode_dec_link_count_lem child.inode (omega arith) in
      let twice =
        links.inode_dec_link_count_lem
          (record child.inode { i_nlink = child.inode.i_nlink - 1; dirty = true }) (omega arith) in
      inr (
        e,
        refl,
        omega (arith, ap (λ (i : AufsInode). i.i_nlink) low),
        inr (
          record child {
            inode = links.inode_dec_link_count (links.inode_dec_link_count child.inode);
          },
          refl,
          omega (
            arith,
            ap (λ (i : AufsInode). (links.inode_dec_link_count i).i_nlink) once,
            ap (λ (i : AufsInode). i.i_nlink) twice,
          ),
        ),
      )

  pub fill_dir-LinksAre :
      (sbi : AufsSuperBlock Bits) (dir child : Directory) (name : List ℕ) (grabbed : Bool)
      (prepared : Option Errno) (count size : ℕ)
      → length name ≤ aufs_name_len
      → dir.inode.i_size ≡ aufs_dir_size * size
      → ((m : ℕ) (page : List DirEntry) → dir.pages m ≡ ok page → length page ≡ paging.slots)
      → dir.inode.i_nlink ≡ count + 1
      → child.inode.i_nlink ≡ 2
      → LinksAre count (fill_dir ops paging links around sbi dir child name grabbed prepared)
  unfolding fill_dir
  fill_dir-LinksAre sbi dir child name grabbed prepared count size short whole full one two =
      let made = minix_make_empty paging grabbed prepared around.child_sync child dir.inode.i_ino in
      let kept = make_empty-child grabbed prepared child dir.inode.i_ino in
      let nlink : made.0.inode.i_nlink ≡ 2 = omega (arith, kept.0) in
      let added = add_link ops paging links around dir name made.0.inode.i_ino in
      let more : added.0.inode.i_nlink ≡ count + 1 =
        add_link-nlink dir name made.0.inode.i_ino ∙ one in
      let (r, back) =
        minix_add_link-returns paging (length name) name dir size whole full short around.prepare
          around.sync around.now made.0.inode.i_ino in
      elim (Option-cases made.1) [
        | inr (e, failed) ↦
            rw (fill_dir, failed) (out_fail-LinksAre sbi dir made.0 e count one nlink)
        | inl e ↦ elim (Option-cases r) [
          | inl success ↦
              let end : added.1 ≡ returned none = back ∙ ap returned success in
              rw (fill_dir, e) (rw end (inl (refl, more, (made.0, refl, nlink))))
          | inr (er, failed) ↦
              let end : added.1 ≡ returned (some er) = back ∙ ap returned failed in
              rw (fill_dir, e) (rw end (out_fail-LinksAre sbi added.0 made.0 er count more nlink))
        ]
      ]
