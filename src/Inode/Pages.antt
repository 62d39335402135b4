-- ===== src/Inode/Pages.antt =====
-- The operations of `aufs_aops` of kern/inode.c, and `minix_prepare_chunk`. The kernel's functions
-- that map the buffers of a page are a parameter.
pub mod Kept
pub mod Calls
use aufs_enabled.Base.{ℕ, ◌+◌, Option, none, some, ltb, if◌then◌else◌}
use aufs_enabled.Kernel.{BitOps, Errno}
use aufs_enabled.Inode.Block.{Mapped, FsState, get_block_step}

-- A function that maps a block, and what a function of the kernel does with the file system, given
-- such a function.
abbrev pub Mapper : Type 0 → Type 0
Mapper St = St → (iblock : ℕ) → St × Mapped

abbrev pub Mapping : Type 0 → Type 0
Mapping St = Mapper St → St → St × Option Errno

-- It changes the file system by calls of the mapper only, of any number and for any blocks: what each
-- of these keeps, it keeps.
abbrev pub ByMapper : {St : Type 0} → Mapping St → Type 1
ByMapper {St} f =
    (P : St → Type 0) (map : Mapper St)
    → ((s : St) (iblock : ℕ) → P s → P (map s iblock).0)
    → (s : St) → P s
    → P (f map s).0

-- The functions of the kernel, on the pages of inode `ino`; `prepare_write` is
-- `__block_write_begin`. What the page cache holds is no part of the file system's state.
pub record PageIo (St : Type 0) : Type 1 where
  pub block_read_full_page : (ino page : ℕ) → Mapping St
  pub block_write_full_page : (ino page : ℕ) → Mapping St
  pub block_write_begin : (ino pos len : ℕ) → Mapping St
  pub prepare_write : (ino page pos len : ℕ) → Mapping St
  pub truncate_pagecache : (ino size : ℕ) → St → St
  pub read_lem : (ino page : ℕ) → ByMapper (block_read_full_page ino page)
  pub write_lem : (ino page : ℕ) → ByMapper (block_write_full_page ino page)
  pub begin_lem : (ino pos len : ℕ) → ByMapper (block_write_begin ino pos len)
  pub prepare_lem : (ino page pos len : ℕ) → ByMapper (prepare_write ino page pos len)
  pub truncate_lem :
      (P : St → Type 0) (ino size : ℕ) (s : St) → P s → P (truncate_pagecache ino size s)

module _ (ops : BitOps) (beyond : ℕ → ℕ) (s_blocksize : ℕ) (io : PageIo (FsState ops.Bits)) where
  open ops use {Bits}

  -- `aufs_get_block` for a buffer of one block.
  abbrev pub mapper : (ino : ℕ) → Mapper (FsState Bits)
  mapper ino st iblock = get_block_step ops beyond s_blocksize st ino iblock s_blocksize

  unfoldable pub aufs_readpage : (ino page : ℕ) → FsState Bits → FsState Bits × Option Errno
  aufs_readpage ino page st = io.block_read_full_page ino page (mapper ino) st

  unfoldable pub aufs_writepage : (ino page : ℕ) → FsState Bits → FsState Bits × Option Errno
  aufs_writepage ino page st = io.block_write_full_page ino page (mapper ino) st

  -- Only the pages behind the end of the file are dropped.
  unfoldable pub minix_write_failed : (ino to : ℕ) → FsState Bits → FsState Bits
  minix_write_failed ino to st =
      let size = (st.inodes ino).i_size in
      if ltb size to then io.truncate_pagecache ino size st else st

  unfoldable pub minix_write_begin : (ino pos len : ℕ) → FsState Bits → FsState Bits × Option Errno
  unfolding minix_write_failed
  minix_write_begin ino pos len st =
      let (st', ret) = io.block_write_begin ino pos len (mapper ino) st in
      elim ret [ none ↦ (st', none) | some e ↦ (minix_write_failed ino (pos + len) st', some e) ]

  unfoldable pub minix_prepare_chunk :
      (ino page pos len : ℕ) → FsState Bits → FsState Bits × Option Errno
  minix_prepare_chunk ino page pos len st = io.prepare_write ino page pos len (mapper ino) st
