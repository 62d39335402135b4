-- ===== src/Inode/Table/Place.antt =====
-- Where an inode lies: different numbers have different places, for the reader and the writer alike.
use native.Mathlib.Nat.{div-add-mod}
use aufs_enabled.Base.{ℕ, ◌+◌, ◌*◌, ◌/◌, ◌%◌, ◌^◌, ◌<◌, ◌≤◌, ◌≡◌, ◌≢◌, ◌⊎◌, ap, arith}
use aufs_enabled.Super.{AufsSuperBlock, sizeof_disk_inode, aufs_inode_block, aufs_inode_offset}

module _ {B : Type 0} (sbi : AufsSuperBlock B) where
  -- The blocks up to the end of the inode table are numbered by an `int`, a raw inode's offset too.
  pub record HasTable : Type 0 where
    pub some_inodes : 0 < sbi.asb_inodes_in_block
    pub offsets_fit : sizeof_disk_inode * sbi.asb_inodes_in_block < 2 ^ 31
    pub table_fits :
        1 + sbi.asb_inode_map_blocks + sbi.asb_zone_map_blocks + sbi.asb_inode_blocks < 2 ^ 31

  -- The number of an inode of the table.
  abbrev pub InTable : ℕ → Type 0
  InTable ino = ino < sbi.asb_inode_blocks * sbi.asb_inodes_in_block

  abbrev pub first_table_block : ℕ
  first_table_block = 1 + sbi.asb_inode_map_blocks + sbi.asb_zone_map_blocks

  module _ (table : HasTable) (ino : ℕ) (within : InTable ino) where
    in_block : ino / sbi.asb_inodes_in_block < sbi.asb_inode_blocks
    in_block = let pos = table.some_inodes in grind arith

    in_slot : ino % sbi.asb_inodes_in_block < sbi.asb_inodes_in_block
    in_slot = let pos = table.some_inodes in grind arith

    pub aufs_inode_block_lem :
        aufs_inode_block sbi ino ≡ first_table_block + ino / sbi.asb_inodes_in_block
    unfolding aufs_inode_block
    aufs_inode_block_lem = omega (arith, in_block, table.table_fits)

    pub aufs_inode_block-lt : aufs_inode_block sbi ino < 2 ^ 31
    aufs_inode_block-lt = omega (arith, in_block, table.table_fits, aufs_inode_block_lem)

    pub aufs_inode_offset_lem :
        aufs_inode_offset sbi ino ≡ sizeof_disk_inode * (ino % sbi.asb_inodes_in_block)
    unfolding aufs_inode_offset
    aufs_inode_offset_lem = omega (arith, in_slot, table.offsets_fit)

    pub aufs_inode_offset-lt : aufs_inode_offset sbi ino < 2 ^ 31
    aufs_inode_offset-lt = omega (arith, in_slot, table.offsets_fit, aufs_inode_offset_lem)

  -- Inodes whose bytes overlap are the same.
  pub aufs_inode_block-apart :
      (table : HasTable) (ino ino' : ℕ)
      → InTable ino
      → InTable ino'
      → aufs_inode_block sbi ino ≡ aufs_inode_block sbi ino'
      → aufs_inode_offset sbi ino < aufs_inode_offset sbi ino' + sizeof_disk_inode
      → aufs_inode_offset sbi ino' < aufs_inode_offset sbi ino + sizeof_disk_inode
      → ino ≡ ino'
  aufs_inode_block-apart table ino ino' h h' block low high =
      let blocks : ino / sbi.asb_inodes_in_block ≡ ino' / sbi.asb_inodes_in_block =
        omega (arith, aufs_inode_block_lem table ino h, aufs_inode_block_lem table ino' h') in
      omega (
        arith,
        aufs_inode_offset_lem table ino h,
        aufs_inode_offset_lem table ino' h',
        div-add-mod ino sbi.asb_inodes_in_block,
        div-add-mod ino' sbi.asb_inodes_in_block,
        ap (λ (q : ℕ). sbi.asb_inodes_in_block * q) blocks,
      )

  -- In a table of blocks that an `int` counts: two different inodes of the table lie in different
  -- blocks or at places of one block that do not overlap, and each lies in a block of the table,
  -- within the bytes of the raw inodes of that block.
  pub aufs_inode_block-disjoint :
      (table : HasTable) (ino ino' : ℕ)
      → InTable ino
      → InTable ino'
      → ino ≢ ino'
      → ((aufs_inode_block sbi ino ≢ aufs_inode_block sbi ino')
          ⊎ ((aufs_inode_offset sbi ino + sizeof_disk_inode ≤ aufs_inode_offset sbi ino')
              ⊎ (aufs_inode_offset sbi ino' + sizeof_disk_inode ≤ aufs_inode_offset sbi ino)))
        × (first_table_block ≤ aufs_inode_block sbi ino)
        × (aufs_inode_block sbi ino < first_table_block + sbi.asb_inode_blocks)
        × (aufs_inode_offset sbi ino + sizeof_disk_inode
            ≤ sizeof_disk_inode * sbi.asb_inodes_in_block)
  aufs_inode_block-disjoint table ino ino' h h' ne =
      let block = aufs_inode_block_lem table ino h in
      let slot = in_slot table ino h in
      (
        ground (arith, aufs_inode_block-apart table ino ino' h h'),
        omega arith,
        omega (arith, in_block table ino h),
        omega (arith, aufs_inode_offset_lem table ino h),
      )
