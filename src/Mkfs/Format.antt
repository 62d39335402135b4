-- ===== src/Mkfs/Format.antt =====
-- The parts of user/format.cpp that place and fill the super block and the inodes.
use aufs_enabled.Base.{ℕ, ◌+◌, ◌*◌, ◌/◌, ◌%◌, ◌-◌, ◌^◌, u32}
use aufs_enabled.Kernel.{ByteOrder}
use aufs_enabled.Super.{sizeof_disk_inode}
use aufs_enabled.Super.Mount.{DiskSuperBlock, aufs_magic}
use aufs_enabled.Mkfs.Config.{Configuration, block_size, calculate_aligned_num_blocks}

module _ (order : ByteOrder) where
  open order use {htonl}

  -- `SuperBlock::FillSuper`: every field is written. The zone map's blocks are the inode map's.
  unfoldable pub fill_super : Configuration → DiskSuperBlock
  fill_super config = record {
    dsb_magic = htonl aufs_magic;
    dsb_block_size = htonl config.zone_size;
    dsb_root_inode = htonl (2 ^ 32 - 1);
    dsb_inode_blocks = htonl config.inode_blocks;
    dsb_inode_map_blocks = htonl config.inode_map_blocks;
    dsb_zone_map_blocks = htonl config.inode_map_blocks;
    dsb_alignment_num_blocks = htonl config.num_block_alignment;
  }

  -- `SuperBlock::SetRootInode`.
  unfoldable pub set_root_inode : DiskSuperBlock → ℕ → DiskSuperBlock
  set_root_inode sb root = record sb { dsb_root_inode = htonl root }

-- `Inode::FillInode`: the block of inode `ino`, and the offset of it in the block.
unfoldable pub inode_block : Configuration → (ino : ℕ) → ℕ
inode_block config ino =
    ino / (block_size config / sizeof_disk_inode)
    + 1
    + config.inode_map_blocks
    + config.zone_map_blocks

unfoldable pub inode_offset : Configuration → (ino : ℕ) → ℕ
inode_offset config ino = ino % (block_size config / sizeof_disk_inode) * sizeof_disk_inode

-- The first block of the root directory in `Formatter::MkRootDir`.
unfoldable pub root_block : Configuration → ℕ
root_block config = u32 (
    1 * (config.zone_size / block_size config)
    + calculate_aligned_num_blocks config
        (u32 (config.inode_map_blocks + config.inode_blocks + config.zone_map_blocks + 1)))
