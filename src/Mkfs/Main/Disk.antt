-- ===== src/Mkfs/Main/Disk.antt =====
-- The disk after formatting, as a mount of it reads it.
use aufs_enabled.Base.{
  ℕ, ◌+◌, ◌*◌, ◌/◌, Bool, true, false, none, some, List, [], ◌∷◌, ◌==◌, if◌then◌else◌, set, ◌≡◌,
  ◌∙◌,
}
use aufs_enabled.Kernel.{BitOps, ByteOrder}
use aufs_enabled.Super.{AufsSuperBlock, sizeof_disk_inode}
use aufs_enabled.Super.Mount.{
  Device, read_maps, reserve, mark_first, got, read_bitmaps, check_bitmaps, aufs_super_block_read,
}
use aufs_enabled.Inode.Table.{DiskInode, BufferCache}
use aufs_enabled.Mkfs.Config.{Configuration}
use aufs_enabled.Mkfs.Format.{inode_block, inode_offset}
use aufs_enabled.Mkfs.Bits.Memory.{bit_at}
use aufs_enabled.Mkfs.Agreement.{Fits, formatted, seen, seen-fields}
use aufs_enabled.Mkfs.Main.{Machine, Image}

-- The kernel's bitmaps in memory: bit `n` is that of the `n / 8`th byte, as the little-endian operations
-- count.
pub record Loads (ops : BitOps) : Type 0 where
  pub load : (ℕ → Bool) → ops.Bits
  pub test_bit-load : (bits : ℕ → Bool) (n : ℕ) → ops.test_bit n (load bits) ≡ bits n

module _ (ops : BitOps) (loads : Loads ops) (machine : Machine) (image : Image) where
  open loads use {load}

  -- The super block in block 0, the zone map in block 1 and the inode map in block 2.
  abbrev pub disk : Device ops.Bits
  disk = record {
    super_block = some image.super_block;
    bitmap = λ block.
        if block == 1
        then some (load (λ k. bit_at image.root.zone_map (8 * machine.zone_base + k)))
        else if block == 2
        then some (load (λ k. bit_at image.root.inode_map (8 * machine.inode_base + k)))
        else none;
  }

-- The inode table: the raw inode of number 1 in the block that held `table`.
abbrev pub table_cache : Configuration → Image → (table : List DiskInode) → BufferCache
table_cache config image table block =
    if block == inode_block config 1
    then some (record {
      b_data = set table (inode_offset config 1 / sizeof_disk_inode) image.root.raw;
      dirty = false;
    })
    else none

module _ (ops : BitOps) (loads : Loads ops) (order : ByteOrder) (machine : Machine) (image : Image)
    (config : Configuration) (fits : Fits config)
    (written : image.super_block ≡ formatted order config fits ops.Bits)
    (one_map : config.inode_map_blocks ≡ 1) where
  -- The super block in the kernel.
  abbrev pub loaded : AufsSuperBlock ops.Bits
  loaded = record (seen order config fits ops.Bits) {
    s_zmap =
        mark_first ops (record {
          b_data = loads.load (λ k. bit_at image.root.zone_map (8 * machine.zone_base + k));
          dirty = false;
        })
        ∷ [];
    s_imap =
        mark_first ops (record {
          b_data = loads.load (λ k. bit_at image.root.inode_map (8 * machine.inode_base + k));
          dirty = false;
        })
        ∷ [];
  }

  pub super_block-loaded :
      aufs_super_block_read ops order
        (record { asb = true; map = true })
        (disk ops loads machine image)
      ≡ got loaded
  unfolding aufs_super_block_read read_bitmaps check_bitmaps read_maps reserve
  super_block-loaded =
      let f = seen-fields order config fits ops.Bits in
      let zmaps = f.5 ∙ one_map in let imaps = f.4 ∙ one_map in rw (written, zmaps, imaps, f.0)
