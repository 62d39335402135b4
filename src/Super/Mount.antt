-- ===== src/Super/Mount.antt =====
-- kern/super.c: reading the super block and mounting.
pub mod Established
use aufs_enabled.Base.{
  ℕ, zero, suc, ◌+◌, ◌*◌, ◌/◌, ◌<◌, Bool, true, false, Option, none, some, List, [], ◌∷◌, ltb, ◌==◌,
  if◌then◌else◌, ◌>>=◌, ◌>>◌, guard,
}
use aufs_enabled.Kernel.{BufferHead, BitOps, ByteOrder, Errno, einval, enomem}
use aufs_enabled.Vfs.{AufsInode, Outcome, ok, err}
use aufs_enabled.Inode.Table.{BufferCache, Iget, aufs_inode_get}
use aufs_enabled.Super.{AufsSuperBlock, sizeof_disk_inode}

-- `AUFS_MAGIC`.
abbrev pub aufs_magic : ℕ
aufs_magic = 0x13131313

-- `struct aufs_disk_super_block`.
pub record DiskSuperBlock : Type 0 where
  pub dsb_magic : ℕ
  pub dsb_block_size : ℕ
  pub dsb_root_inode : ℕ
  pub dsb_inode_blocks : ℕ
  pub dsb_inode_map_blocks : ℕ
  pub dsb_zone_map_blocks : ℕ
  pub dsb_alignment_num_blocks : ℕ

-- A super block as `kzalloc` returns it.
abbrev pub zeroed : {B : Type 0} → AufsSuperBlock B
zeroed = record {
  asb_magic = 0;
  asb_inode_blocks = 0;
  asb_zone_size = 0;
  asb_root_inode = 0;
  asb_inodes_in_block = 0;
  asb_inode_map_blocks = 0;
  asb_zone_map_blocks = 0;
  asb_blocks_per_zone = 0;
  asb_alignment_num_blocks = 0;
  s_zmap = [];
  s_imap = [];
}

-- The block size is computed from the zone size that `asb` has before it is filled.
unfoldable pub aufs_super_block_fill :
    ByteOrder → {B : Type 0} → AufsSuperBlock B → DiskSuperBlock → AufsSuperBlock B
aufs_super_block_fill order asb dsb =
    let cpu = order.be32_to_cpu in
    let block_size = if ltb 4096 asb.asb_zone_size then asb.asb_zone_size else 4096 in
    let zone_size = cpu dsb.dsb_block_size in
    record asb {
      asb_magic = cpu dsb.dsb_magic;
      asb_inode_blocks = cpu dsb.dsb_inode_blocks;
      asb_zone_size = zone_size;
      asb_root_inode = cpu dsb.dsb_root_inode;
      asb_inode_map_blocks = cpu dsb.dsb_inode_map_blocks;
      asb_zone_map_blocks = cpu dsb.dsb_zone_map_blocks;
      asb_alignment_num_blocks = cpu dsb.dsb_alignment_num_blocks;
      asb_blocks_per_zone = if ltb 4096 zone_size then zone_size / 4096 else 1;
      asb_inodes_in_block = block_size / sizeof_disk_inode;
    }

-- The device as the mount reads it: block 0 as a super block, and blocks as bitmaps; `none` where
-- `sb_bread` fails.
pub record Device (B : Type 0) : Type 0 where
  pub super_block : Option DiskSuperBlock
  pub bitmap : ℕ → Option B

-- What `aufs_super_block_read` comes to: a super block, NULL, or the setting of a bit through what lies
-- behind the array of buffers.
pub data SuperRead (B : Type 0) : Type 0 where
  got : (asb : AufsSuperBlock B) → SuperRead B
  null : SuperRead B
  stray : SuperRead B

-- Which allocations succeed: `asb` is the super block's, `map` that of the array of buffers.
pub record Memory : Type 0 where
  pub asb : Bool
  pub map : Bool

module _ (ops : BitOps) where
  open ops use {Bits, set_bit}

  -- `left` buffers from block `block` on, or `none` if one cannot be read.
  unfoldable pub read_maps : Device Bits → (left block : ℕ) → Option (List (BufferHead Bits))
  read_maps dev zero block = some []
  read_maps dev (suc left) block = do
    bits ← dev.bitmap block
    bufs ← read_maps dev left (suc block)
    some (record { b_data = bits; dirty = false } ∷ bufs)

  -- `minix_set_bit(0, bh->b_data)`; the buffer is not marked dirty.
  unfoldable pub mark_first : BufferHead Bits → BufferHead Bits
  mark_first bh = record bh { b_data = set_bit 0 bh.b_data }

  -- Bit 0 of both maps, through `s_zmap[0]` and `s_imap[0]`. The maps share one array, in which the
  -- buffers of the zone map stand first: without any the first one of the inode map is both. Without
  -- any of the inode map `s_imap[0]` lies behind the array, and what the code then writes to is not
  -- known: `none`.
  unfoldable pub reserve :
      (zmap imap : List (BufferHead Bits))
      → Option (List (BufferHead Bits) × List (BufferHead Bits))
  unfolding mark_first
  reserve zmap [] = none
  reserve [] (bi ∷ imap) = some ([], mark_first (mark_first bi) ∷ imap)
  reserve (bz ∷ zmap) (bi ∷ imap) = some (mark_first bz ∷ zmap, mark_first bi ∷ imap)

  -- `aufs_super_block_read` up to the buffers of both maps; `none` where it goes to one of its labels.
  unfoldable pub read_bitmaps : ByteOrder → Memory → Device Bits → Option (AufsSuperBlock Bits)
  unfolding read_maps aufs_super_block_fill
  read_bitmaps order memory dev = do
    guard memory.asb
    dsb ← dev.super_block
    let asb = aufs_super_block_fill order (zeroed {B = Bits}) dsb
    guard memory.map
    zmap ← read_maps dev asb.asb_zone_map_blocks 1
    imap ← read_maps dev asb.asb_inode_map_blocks (1 + asb.asb_zone_map_blocks)
    some (record asb { s_zmap = zmap; s_imap = imap })

  -- The rest of it, from the setting of the bits on.
  unfoldable pub check_bitmaps : AufsSuperBlock Bits → SuperRead Bits
  unfolding reserve
  check_bitmaps asb = elim (reserve asb.s_zmap asb.s_imap) [
    | none ↦ stray
    | some (zmap, imap) ↦
        if asb.asb_magic == aufs_magic
        then got (record asb { s_zmap = zmap; s_imap = imap })
        else null
  ]

  unfoldable pub aufs_super_block_read : ByteOrder → Memory → Device Bits → SuperRead Bits
  unfolding read_bitmaps check_bitmaps
  aufs_super_block_read order memory dev = elim (read_bitmaps order memory dev) [
    | none ↦ null
    | some asb ↦ check_bitmaps asb
  ]

-- What `aufs_fill_sb` comes to; `null_dereference` is the read of `asb->asb_zone_size` at NULL,
-- `stray_access` what `aufs_super_block_read` does behind the array of buffers.
pub data Mount (B : Type 0) : Type 0 where
  mounted : (sb : AufsSuperBlock B) (s_blocksize : ℕ) (root : AufsInode) → Mount B
  failed : Errno → Mount B
  null_dereference : Mount B
  stray_access : Mount B

module _ (ops : BitOps) where
  open ops use {Bits}

  -- `aufs_fill_sb`: `set_blocksize` is `sb_set_blocksize`, `cache` the device after it and `icache`
  -- the inode cache, and `make_root` tells whether `d_make_root` succeeds.
  unfoldable pub aufs_fill_sb :
      ByteOrder
      → Memory
      → Device Bits
      → (set_blocksize : ℕ → Bool) → BufferCache
      → Iget
      → (make_root : Bool) → Mount Bits
  aufs_fill_sb order memory dev set_blocksize cache icache make_root =
      elim (aufs_super_block_read ops order memory dev) [
        | null ↦ null_dereference
        | stray ↦ stray_access
        | got asb ↦
            let sb_blocksize = if ltb 4096 asb.asb_zone_size then 4096 else asb.asb_zone_size in
            if set_blocksize sb_blocksize
            then elim (aufs_inode_get order asb cache icache asb.asb_root_inode) [
              | err e ↦ failed e
              | ok root ↦ if make_root then mounted asb sb_blocksize root else failed enomem
            ]
            else failed einval
      ]
