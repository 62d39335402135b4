-- ===== src/Examples/Mounting.antt =====
-- Mounts of a device with 8192-byte zones, and formatting.
use aufs_enabled.Base.{◌⊎◌, ℕ, ◌<◌, ◌^◌, ◌≤◌, ◌+◌, Bool, true, some, [], ◌∷◌, ◌≡◌, refl, arith}
use aufs_enabled.Super.{AufsSuperBlock, aufs_inode_block, aufs_inode_offset}
use aufs_enabled.Super.Mount.{
  DiskSuperBlock, Device, Memory, null_dereference, aufs_magic, aufs_super_block_fill, read_maps,
  mark_first, reserve, got, stray_access, read_bitmaps, check_bitmaps, aufs_super_block_read,
  aufs_fill_sb,
}
use aufs_enabled.Super.Mount.Established.{
  IsLoaded, aufs_super_block_read-IsLoaded, aufs_fill_sb-wrong_magic,
}
use aufs_enabled.Inode.Table.{fresh}
use aufs_enabled.Mkfs.Config.{Configuration}
use aufs_enabled.Mkfs.Format.{fill_super, set_root_inode, root_block, inode_block, inode_offset}
use aufs_enabled.Bitmap.{integer_round_up_division, blocks_ahead, zones_start, zone_result}
use aufs_enabled.Bitmap.Layout.{Addressable, metadata_blocks}
use aufs_enabled.Mkfs.RootZone.{root_block-apart}
use aufs_enabled.Mkfs.Agreement.{Fits, seen, seen-fields, inode_place_differs}
use aufs_enabled.Examples.Platform.{bit_ops, big_endian}
use aufs_enabled.Examples.Allocation.{buffer, taken, with_ptrs, no_ptrs}
use aufs_enabled.Examples.Table.{cache}

abbrev pub disk_block : (magic : ℕ) → DiskSuperBlock
disk_block magic = record {
  dsb_magic = magic;
  dsb_block_size = 8192;
  dsb_root_inode = 1;
  dsb_inode_blocks = 1;
  dsb_inode_map_blocks = 1;
  dsb_zone_map_blocks = 2;
  dsb_alignment_num_blocks = 4;
}

abbrev pub device : (magic : ℕ) → Device (ℕ → Bool)
device magic = record {
  super_block = some (disk_block magic);
  bitmap = λ block. some (taken block);
}

abbrev pub enough : Memory
enough = record { asb = true; map = true }

abbrev pub asb : AufsSuperBlock (ℕ → Bool)
asb = record {
  asb_magic = aufs_magic;
  asb_inode_blocks = 1;
  asb_zone_size = 8192;
  asb_root_inode = 1;
  asb_inodes_in_block = 64;
  asb_inode_map_blocks = 1;
  asb_zone_map_blocks = 2;
  asb_blocks_per_zone = 2;
  asb_alignment_num_blocks = 4;
  s_zmap = mark_first bit_ops (buffer (taken 1)) ∷ buffer (taken 2) ∷ [];
  s_imap = mark_first bit_ops (buffer (taken 3)) ∷ [];
}

pub asb-read : aufs_super_block_read bit_ops big_endian enough (device aufs_magic) ≡ got asb
unfolding aufs_super_block_read read_bitmaps check_bitmaps aufs_super_block_fill read_maps reserve
asb-read = refl

aufs_super_block_read-IsLoaded_example :
    (dsb : DiskSuperBlock) × (some (disk_block aufs_magic) ≡ some dsb)
    × IsLoaded bit_ops big_endian dsb asb
aufs_super_block_read-IsLoaded_example =
    aufs_super_block_read-IsLoaded bit_ops big_endian enough (device aufs_magic) asb asb-read

aufs_fill_sb-wrong_magic_example :
    let end =
      aufs_fill_sb bit_ops big_endian enough
        (device 0)
        (λ size. true)
        cache
        (fresh (with_ptrs no_ptrs 1))
        true in
    (end ≡ null_dereference) ⊎ ((end ≡ stray_access) × (◌≡◌ {A = ℕ} 1 0))
aufs_fill_sb-wrong_magic_example =
    aufs_fill_sb-wrong_magic bit_ops big_endian enough (device 0) (λ size. true) cache
      (fresh (with_ptrs no_ptrs 1)) true (disk_block 0) refl (omega arith)

-- 1000 zones, one block for each map and an alignment of 4 blocks.
abbrev pub config : (zone_size : ℕ) → Configuration
config zone_size = record {
  device_zones = 1000;
  zone_size = zone_size;
  inode_blocks = 16;
  inode_map_blocks = 1;
  zone_map_blocks = 1;
  num_block_alignment = 4;
}

config-Fits : (zone_size : ℕ) → zone_size < 2 ^ 32 → Fits (config zone_size)
config-Fits zone_size h = record {
  zone_size = h;
  inode_blocks = omega arith;
  inode_map_blocks = omega arith;
  alignment = omega arith;
}

seen-fields_example :
    let asb = seen big_endian (config 8192) (config-Fits 8192 (omega arith)) (ℕ → Bool) in
    (asb.asb_magic ≡ aufs_magic)
    × (asb.asb_zone_size ≡ 8192)
    × (asb.asb_root_inode ≡ 1)
    × (asb.asb_inode_blocks ≡ 16)
    × (asb.asb_inode_map_blocks ≡ 1)
    × (asb.asb_zone_map_blocks ≡ 1)
    × (asb.asb_alignment_num_blocks ≡ 4)
    × (asb.asb_blocks_per_zone ≡ 2)
    × (asb.asb_inodes_in_block ≡ 64)
seen-fields_example =
    seen-fields big_endian (config 8192) (config-Fits 8192 (omega arith)) (ℕ → Bool)

inode_place_differs_example :
    let asb = seen big_endian (config 1024) (config-Fits 1024 (omega arith)) (ℕ → Bool) in
    (inode_block (config 1024) 16 ≡ aufs_inode_block asb 16 + 1)
    × (inode_offset (config 1024) 16 ≡ 0)
    × (aufs_inode_offset asb 16 ≡ 1024)
inode_place_differs_example =
    inode_place_differs big_endian (config 1024) (config-Fits 1024 (omega arith)) (ℕ → Bool)
      (omega arith) (omega arith) refl refl

third_zone :
    Addressable (seen big_endian (config 8192) (config-Fits 8192 (omega arith)) (ℕ → Bool)) 2
unfolding zones_start blocks_ahead integer_round_up_division aufs_super_block_fill set_root_inode
    fill_super
third_zone = omega arith

root_block-apart_example :
    let asb = seen big_endian (config 8192) (config-Fits 8192 (omega arith)) (ℕ → Bool) in
    (metadata_blocks asb ≤ root_block (config 8192))
    × (root_block (config 8192) + asb.asb_blocks_per_zone ≤ zone_result asb 2)
root_block-apart_example =
    root_block-apart big_endian (config 8192) (config-Fits 8192 (omega arith)) (ℕ → Bool)
      (omega arith) refl (omega arith) (omega arith) 2 (omega arith) third_zone
