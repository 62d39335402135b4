-- ===== src/Mkfs/Agreement.antt =====
-- What the formatter writes is what the kernel reads.
use aufs_enabled.Base.{ℕ, ◌+◌, ◌/◌, ◌%◌, ◌^◌, ◌<◌, ◌≤◌, ltb, if◌then◌else◌, ◌≡◌, refl, ap, arith}
use aufs_enabled.Kernel.{ByteOrder}
use aufs_enabled.Super.{AufsSuperBlock, aufs_inode_block, aufs_inode_offset}
use aufs_enabled.Super.Mount.{DiskSuperBlock, aufs_magic, zeroed, aufs_super_block_fill}
use aufs_enabled.Mkfs.Config.{Configuration, block_size, block_size_of}
use aufs_enabled.Mkfs.Format.{fill_super, set_root_inode, inode_block, inode_offset}

-- The fields fit the 32 bits that they have.
pub record Fits (config : Configuration) : Type 0 where
  pub zone_size : config.zone_size < 2 ^ 32
  pub inode_blocks : config.inode_blocks < 2 ^ 32
  pub inode_map_blocks : config.inode_map_blocks < 2 ^ 32
  pub alignment : config.num_block_alignment < 2 ^ 32

module _ (order : ByteOrder) (config : Configuration) (fits : Fits config) (B : Type 0) where
  -- The super block on the disk after formatting.
  abbrev pub formatted : DiskSuperBlock
  formatted = set_root_inode order (fill_super order config) 1

  -- The super block in the kernel after it has been read, without its bitmaps.
  abbrev pub seen : AufsSuperBlock B
  seen = aufs_super_block_fill order zeroed formatted

  -- For fields of 32 bits: the kernel accepts the magic number and reads back the formatter's zone size, inode blocks,
  -- inode map blocks and alignment, and 1 for the root inode. For the blocks of the zone map it
  -- reads those of the inode map. A zone has as many blocks of 4096 bytes as fit, or one, and a
  -- block 64 inodes.
  pub seen-fields :
      let asb = seen in
      (asb.asb_magic ≡ aufs_magic)
      × (asb.asb_zone_size ≡ config.zone_size)
      × (asb.asb_root_inode ≡ 1)
      × (asb.asb_inode_blocks ≡ config.inode_blocks)
      × (asb.asb_inode_map_blocks ≡ config.inode_map_blocks)
      × (asb.asb_zone_map_blocks ≡ config.inode_map_blocks)
      × (asb.asb_alignment_num_blocks ≡ config.num_block_alignment)
      × (asb.asb_blocks_per_zone
          ≡ (if ltb 4096 config.zone_size then config.zone_size / 4096 else 1))
      × (asb.asb_inodes_in_block ≡ 64)
  unfolding aufs_super_block_fill set_root_inode fill_super
  seen-fields =
      let back = order.be32_to_cpu-htonl in
      let zone = back config.zone_size fits.zone_size in
      (
        back aufs_magic (omega arith),
        zone,
        back 1 (omega arith),
        back config.inode_blocks fits.inode_blocks,
        back config.inode_map_blocks fits.inode_map_blocks,
        back config.inode_map_blocks fits.inode_map_blocks,
        back config.num_block_alignment fits.alignment,
        ap (λ (z : ℕ). if ltb 4096 z then z / 4096 else 1) zone,
        refl,
      )

  -- For fields of 32 bits: where a zone has at least 4096 bytes and the two maps have as many blocks,
  -- the kernel and the formatter have the inode of every 32-bit number at the same block and offset.
  pub inode_place_agrees :
      4096 ≤ config.zone_size
      → config.zone_map_blocks ≡ config.inode_map_blocks
      → (ino : ℕ) → ino < 2 ^ 32
      → (aufs_inode_block seen ino ≡ inode_block config ino)
        × (aufs_inode_offset seen ino ≡ inode_offset config ino)
  unfolding aufs_inode_block aufs_inode_offset inode_block inode_offset block_size_of
  inode_place_agrees large maps ino small =
      let f = seen-fields in
      let block : block_size config ≡ 4096 = ground arith in
      let imap = f.4 in
      let zmap = f.5 in
      let in_block = f.8 in
      let bound = fits.inode_map_blocks in
      (rw (imap, zmap, in_block, block) (omega arith), rw (in_block, block) (omega arith))

  -- With zones of less than 4096 bytes, at least 512 and a multiple of 64, and two maps of as many
  -- blocks, they do not agree: the inode that the formatter puts first in the table's second block
  -- the kernel looks for in the first block, behind the bytes that the formatter's block has.
  pub inode_place_differs :
      512 ≤ config.zone_size
      → config.zone_size < 4096
      → config.zone_size % 64 ≡ 0
      → config.zone_map_blocks ≡ config.inode_map_blocks
      → let ino = config.zone_size / 64 in
        (inode_block config ino ≡ aufs_inode_block seen ino + 1)
        × (inode_offset config ino ≡ 0)
        × (aufs_inode_offset seen ino ≡ config.zone_size)
  unfolding aufs_inode_block aufs_inode_offset inode_block inode_offset block_size_of
  inode_place_differs low small whole maps =
      let f = seen-fields in
      let z = config.zone_size in
      let block : block_size config ≡ config.zone_size = ground arith in
      let imap = f.4 in
      let zmap = f.5 in
      let in_block = f.8 in
      let bound = fits.inode_map_blocks in
      let q : (z / 64) / (z / 64) ≡ 1 = grind arith in
      let r : (z / 64) % (z / 64) ≡ 0 = grind arith in
      (
        rw (imap, zmap, in_block, block, q) (omega arith),
        rw (block, r) (omega arith),
        rw in_block (omega arith),
      )
