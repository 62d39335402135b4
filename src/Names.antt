-- ===== src/Names.antt =====
-- kern/namei.c: looking names up, and making files and directories. The counting of links and
-- `old_valid_dev` belong to the kernel.
pub mod Links
pub mod Mkdir
pub mod Found
pub mod Full
use aufs_enabled.Base.{
  ℕ, ◌+◌, ◌-◌, ◌/◌, ◌%◌, ◌^◌, ◌<◌, ◌≡◌, Bool, Option, none, some, List, true, ltb, ◌==◌,
  if◌then◌else◌, length,
}
use aufs_enabled.Kernel.{BitOps, ByteOrder, Errno, einval, enametoolong, Paging}
use aufs_enabled.Vfs.{AufsInode, Timespec, Outcome, ok, err}
use aufs_enabled.Super.{AufsSuperBlock}
use aufs_enabled.Bitmap.{aufs_new_inode}
use aufs_enabled.Inode.Table.{BufferCache, Iget, minix_set_inode, aufs_inode_get}
use aufs_enabled.Dir.{
  DirEntry, Directory, Returned, returned, crashed, aufs_name_len, minix_inode_by_name,
  minix_add_link,
}
use aufs_enabled.Dir.Empty.{minix_make_empty}

-- `inode_inc_link_count` and `inode_dec_link_count`.
pub record LinkCounts : Type 0 where
  pub inode_inc_link_count : AufsInode → AufsInode
  pub inode_dec_link_count : AufsInode → AufsInode
  pub inode_inc_link_count_lem :
      (i : AufsInode)
      → i.i_nlink + 1 < 2 ^ 32
      → inode_inc_link_count i ≡ record i { i_nlink = i.i_nlink + 1; dirty = true }
  pub inode_dec_link_count_lem :
      (i : AufsInode)
      → 0 < i.i_nlink
      → inode_dec_link_count i ≡ record i { i_nlink = i.i_nlink - 1; dirty = true }

-- `S_IFDIR | mode`.
abbrev pub or_ifdir : ℕ → ℕ
or_ifdir mode = if mode / 2 ^ 14 % 2 == 1 then mode else mode + 2 ^ 14

-- What the kernel hands to an operation that makes an inode: `fresh` is what `new_inode` returns, an
-- empty inode with one link, and `init_owner` is `inode_init_owner` for the directory, of a mode, which
-- sets the owners and the mode. `prepare` is `minix_prepare_chunk` of the directory at a position,
-- `sync` the result of writing its page, and `child_sync` that of writing the first page of a new
-- directory.
pub record Surroundings : Type 0 where
  pub fresh : Option AufsInode
  pub init_owner : ℕ → AufsInode → AufsInode
  pub now : Timespec
  pub prepare : ℕ → Option Errno
  pub sync : Option Errno
  pub child_sync : Option Errno
  pub fresh_lem : (i : AufsInode) → fresh ≡ some i → (i.i_nlink ≡ 1) × (i.i_size ≡ 0)
  pub init_owner_lem :
      (mode : ℕ) (i : AufsInode)
      → ((init_owner mode i).i_nlink ≡ i.i_nlink) × ((init_owner mode i).i_size ≡ i.i_size)

-- After an operation that makes an inode: the super block, the directory, the new inode `C`, if one
-- was allotted, and what the function returns. An inode that is put back is listed as it is then.
pub record Made (B C : Type 0) : Type 0 where
  pub sbi : AufsSuperBlock B
  pub dir : Directory
  pub child : Option C
  pub result : Returned

-- `minix_lookup`: what `d_splice_alias` gets. `none` is NULL.
unfoldable pub minix_lookup :
    ByteOrder
    → Paging
    → {B : Type 0} → AufsSuperBlock B
    → BufferCache
    → (iget : ℕ → Iget) → Directory
    → (name : List ℕ) → Outcome (Option AufsInode)
minix_lookup order paging sbi cache iget dir name =
    let ino = minix_inode_by_name paging (length name) name dir in
    if ltb aufs_name_len (length name)
    then err enametoolong
    else if ino == 0
    then ok none
    else elim (aufs_inode_get order sbi cache (iget ino) ino) [
      | ok inode ↦ ok (some inode)
      | err e ↦ err e
    ]

module _ (ops : BitOps) (paging : Paging) (links : LinkCounts) (around : Surroundings) where
  open ops use {Bits}
  open links use {inode_inc_link_count, inode_dec_link_count}

  -- `minix_add_link` of the new inode's number.
  abbrev pub add_link : Directory → (name : List ℕ) → (ino : ℕ) → Directory × Returned
  add_link dir name ino =
      minix_add_link paging around.prepare around.sync around.now (length name) name ino dir

  -- `minix_mknod`; `valid` is `old_valid_dev(rdev)`. Where there is no inode, the `printk` reads
  -- through NULL.
  unfoldable pub minix_mknod :
      (s_blocksize : ℕ)
      → AufsSuperBlock Bits
      → Directory
      → (name : List ℕ) (mode : ℕ) (valid : Bool) → Made Bits AufsInode
  minix_mknod s_blocksize sbi dir name mode valid =
      let (sbi', new) =
        aufs_new_inode ops s_blocksize sbi around.fresh (around.init_owner mode) around.now in
      if valid
      then elim new [
        | err e ↦ record { sbi = sbi'; dir = dir; child = none; result = crashed }
        | ok inode ↦ elim (minix_set_inode inode).1 [
          | some e ↦ record {
            sbi = sbi';
            dir = dir;
            child = some (minix_set_inode inode).0;
            result = returned (some e);
          }
          | none ↦
              let ready = record (minix_set_inode inode).0 { dirty = true } in
              let (dir', result) = add_link dir name ready.i_ino in
              let put : AufsInode = elim result [
                | returned (some e) ↦ inode_dec_link_count ready
                | _ ↦ ready
              ] in
              record { sbi = sbi'; dir = dir'; child = some put; result = result }
        ]
      ]
      else record { sbi = sbi; dir = dir; child = none; result = returned (some einval) }

  -- `minix_create`: device number 0 is valid.
  unfoldable pub minix_create :
      (s_blocksize : ℕ)
      → AufsSuperBlock Bits
      → Directory
      → (name : List ℕ) (mode : ℕ) → Made Bits AufsInode
  minix_create s_blocksize sbi dir name mode = minix_mknod s_blocksize sbi dir name mode true

  -- `minix_tmpfile`; `d_tmpfile` is what the kernel's function of that name does to the inode. The
  -- result of `minix_set_inode` is not looked at.
  unfoldable pub minix_tmpfile :
      (s_blocksize : ℕ)
      → AufsSuperBlock Bits
      → Directory
      → (d_tmpfile : AufsInode → AufsInode) (mode : ℕ) → Made Bits AufsInode
  minix_tmpfile s_blocksize sbi dir d_tmpfile mode =
      let (sbi', new) =
        aufs_new_inode ops s_blocksize sbi around.fresh (around.init_owner mode) around.now in
      elim new [
        | err e ↦ record { sbi = sbi'; dir = dir; child = none; result = returned (some e) }
        | ok inode ↦ record {
          sbi = sbi';
          dir = dir;
          child = some (d_tmpfile (record (minix_set_inode inode).0 { dirty = true }));
          result = returned none;
        }
      ]

  -- `out_fail` of `minix_mkdir`: the links are given back.
  unfoldable pub out_fail :
      AufsSuperBlock Bits → (dir child : Directory) → Returned → Made Bits Directory
  out_fail sbi dir child result = record {
    sbi = sbi;
    dir = record dir { inode = inode_dec_link_count dir.inode };
    child = some (record child { inode = inode_dec_link_count (inode_dec_link_count child.inode) });
    result = result;
  }

  -- `minix_mkdir` with the inode that it got; `dir` has its new link.
  unfoldable pub fill_dir :
      AufsSuperBlock Bits
      → (dir child : Directory) → (name : List ℕ) (grabbed : Bool) (prepared : Option Errno)
      → Made Bits Directory
  fill_dir sbi dir child name grabbed prepared =
      let (child', error) =
        minix_make_empty paging grabbed prepared around.child_sync child dir.inode.i_ino in
      elim error [
        | some e ↦ out_fail sbi dir child' (returned (some e))
        | none ↦
            let (dir', result) = add_link dir name child'.inode.i_ino in
            elim result [
              | returned none ↦ record {
                sbi = sbi;
                dir = dir';
                child = some child';
                result = returned none;
              }
              | returned (some e) ↦ out_fail sbi dir' child' (returned (some e))
              | crashed ↦ record { sbi = sbi; dir = dir'; child = some child'; result = crashed }
            ]
      ]

  -- `minix_mkdir`: `pages` are those of the new inode, `grabbed` and `prepared` are for its first
  -- page. The result of `minix_set_inode` is not looked at.
  unfoldable pub minix_mkdir :
      (s_blocksize : ℕ)
      → AufsSuperBlock Bits
      → Directory
      → (name : List ℕ) (mode : ℕ)
      → (pages : ℕ → Outcome (List DirEntry)) (grabbed : Bool) (prepared : Option Errno)
      → Made Bits Directory
  minix_mkdir s_blocksize sbi dir name mode pages grabbed prepared =
      let linked = record dir { inode = inode_inc_link_count dir.inode } in
      let (sbi', new) =
        aufs_new_inode ops s_blocksize sbi around.fresh (around.init_owner (or_ifdir mode))
          around.now in
      elim new [
        | err e ↦ record {
          sbi = sbi';
          dir = record linked { inode = inode_dec_link_count linked.inode };
          child = none;
          result = returned (some e);
        }
        | ok inode ↦
            let child : Directory = record {
              inode = inode_inc_link_count (minix_set_inode inode).0;
              pages = pages;
            } in
            fill_dir sbi' linked child name grabbed prepared
      ]
