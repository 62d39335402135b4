-- ===== src/Mkfs/Main/Loaded.antt =====
-- What the kernel makes of the blocks that the formatter has written.
use aufs_enabled.Base.{
  ℕ, ◌+◌, ◌*◌, ◌/◌, ◌<◌, ◌≤◌, Bool, true, false, ◌||◌, List, [], ◌∷◌, ◌==◌, if◌then◌else◌, length,
  ltb, leb, min, u32, ◌≡◌, ◌∙◌, refl, sym, ap, arith, ==_iff, get_elem?-set_self,
}
use aufs_enabled.Kernel.{BitOps, ByteOrder}
use aufs_enabled.Vfs.{AufsInode, ok}
use aufs_enabled.Super.{AufsSuperBlock, sizeof_disk_inode, aufs_inode_block, aufs_inode_offset}
use aufs_enabled.Super.Mount.{mounted, mark_first, aufs_fill_sb}
use aufs_enabled.Bitmap.Maps.{map_bit}
use aufs_enabled.Inode.Table.{DiskInode, fresh, aufs_inode_fill, inode_by_type, aufs_inode_get}
use aufs_enabled.Mkfs.Config.{Configuration, block_size, block_size_of, count_inode_entry_blocks}
use aufs_enabled.Mkfs.Format.{inode_block, inode_offset}
use aufs_enabled.Mkfs.Bits.Memory.{bit_at}
use aufs_enabled.Mkfs.Agreement.{Fits, formatted, seen-fields, inode_place_agrees}
use aufs_enabled.Mkfs.Args.Accepted.{IsDefault}
use aufs_enabled.Mkfs.Main.{Machine, Image}
use aufs_enabled.Mkfs.Main.Disk.{Loads, disk, table_cache, loaded, super_block-loaded}

-- The inodes of the table.
abbrev pub inodes : Configuration → ℕ
inodes config = min (u32 (config.inode_blocks * 64)) 32768

-- The super block of a new file system: the root inode is number 1, and zones and inode numbers 0 and
-- 1 are taken and those that the device does not have, and no others.
pub record IsNew (ops : BitOps) (config : Configuration) (asb : AufsSuperBlock ops.Bits)
    : Type 0 where
  pub zone_size : asb.asb_zone_size ≡ config.zone_size
  pub root_inode : asb.asb_root_inode ≡ 1
  pub zone_maps : length asb.s_zmap ≡ asb.asb_zone_map_blocks
  pub inode_maps : length asb.s_imap ≡ asb.asb_inode_map_blocks
  pub zones : (k : ℕ) → map_bit ops (8 * 4096) asb.s_zmap k ≡ (ltb k 2 || leb config.device_zones k)
  pub inode_numbers :
      (k : ℕ) → map_bit ops (8 * 4096) asb.s_imap k ≡ (ltb k 2 || leb (inodes config) k)

-- A map of one block, once bit 0 is reserved.
one_block :
    (ops : BitOps) (loads : Loads ops) (bits : ℕ → Bool) (used : ℕ)
    → used ≤ 8 * 4096
    → ((k : ℕ) → k < 8 * 4096 → bits k ≡ (ltb k 2 || leb used k))
    → (k : ℕ)
    → map_bit ops
        (8 * 4096)
        (mark_first ops (record { b_data = loads.load bits; dirty = false }) ∷ [])
        k
      ≡ (ltb k 2 || leb used k)
unfolding mark_first
one_block ops loads bits used le h k =
    ground (arith, ops.test_bit-set_bit 0 k (loads.load bits), loads.test_bit-load bits k, h k)

pub table_full :
    (config : Configuration)
    → IsDefault config
    → 4096 ≤ config.zone_size
    → 3 < config.device_zones
    → (0 < config.inode_blocks) × (config.inode_blocks ≤ 512)
unfolding count_inode_entry_blocks block_size_of
table_full config normal large zones =
    let block : block_size config ≡ 4096 = ground arith in
    let count = normal.counted in
    let most = normal.zones in rw count (rw (block, normal.one_inode_map) (omega (arith, block)))

module _ (ops : BitOps) (loads : Loads ops) (order : ByteOrder) (machine : Machine) (image : Image)
    (config : Configuration) (fits : Fits config)
    (written : image.super_block ≡ formatted order config fits ops.Bits) (normal : IsDefault config)
    (large : 4096 ≤ config.zone_size) where
  root-got :
      (table : List DiskInode) (into root : AufsInode)
      → length table ≡ 64
      → inode_by_type (aufs_inode_fill order into image.root.raw) ≡ ok root
      → aufs_inode_get order
          (loaded ops loads order machine image config fits written normal.one_inode_map)
          (table_cache config image table)
          (fresh into)
          1
        ≡ ok root
  unfolding aufs_inode_get
  root-got table into root size is_root =
      let B = ops.Bits in
      let asb = loaded ops loads order machine image config fits written normal.one_inode_map in
      let maps = normal.one_zone_map ∙ sym normal.one_inode_map in
      let place = inode_place_agrees order config fits B large maps 1 (omega arith) in
      let at : aufs_inode_block asb 1 ≡ inode_block config 1 = unfold aufs_inode_block in place.0 in
      let off : aufs_inode_offset asb 1 ≡ inode_offset config 1 =
        unfold aufs_inode_offset in place.1 in
      let slot = inode_offset config 1 / sizeof_disk_inode in
      let inside : slot < length table =
        unfold inode_offset block_size_of in
        (let block : block_size config ≡ 4096 = ground arith in rw (block, size) (omega arith)) in
      let there : (inode_block config 1 == inode_block config 1) ≡ true = (==_iff _ _).1 refl in
      let entry = get_elem?-set_self table slot image.root.raw inside in
      rw (aufs_inode_get, at, there, off, entry) is_root

  pub loaded-mounted :
      (table : List DiskInode) (into root : AufsInode) (set_blocksize : ℕ → Bool)
      → length table ≡ 64
      → inode_by_type (aufs_inode_fill order into image.root.raw) ≡ ok root
      → set_blocksize 4096 ≡ true
      → aufs_fill_sb ops order
          (record { asb = true; map = true })
          (disk ops loads machine image)
          set_blocksize
          (table_cache config image table)
          (fresh into)
          true
        ≡ mounted
            (loaded ops loads order machine image config fits written normal.one_inode_map)
            4096
            root
  unfolding aufs_fill_sb
  loaded-mounted table into root set_blocksize size is_root sets =
      let asb = loaded ops loads order machine image config fits written normal.one_inode_map in
      let f = seen-fields order config fits ops.Bits in
      let read =
        super_block-loaded ops loads order machine image config fits written normal.one_inode_map in
      let blocksize : (if ltb 4096 asb.asb_zone_size then 4096 else asb.asb_zone_size) ≡ 4096 =
        rw (f.1) (ground arith) in
      let got =
        ap (λ (n : ℕ). aufs_inode_get order asb (table_cache config image table) (fresh into) n) f.2
        ∙ root-got table into root size is_root in
      rw (aufs_fill_sb, read, blocksize, sets, got, blocksize)

  pub loaded-IsNew :
      ((k : ℕ)
        → k < 8 * 4096
        → bit_at image.root.zone_map (8 * machine.zone_base + k)
          ≡ (ltb k 2 || leb config.device_zones k))
      → ((k : ℕ)
          → k < 8 * 4096
          → bit_at image.root.inode_map (8 * machine.inode_base + k)
            ≡ (ltb k 2 || leb (inodes config) k))
      → IsNew ops config
          (loaded ops loads order machine image config fits written normal.one_inode_map)
  unfolding mark_first
  loaded-IsNew zbits ibits =
      let f = seen-fields order config fits ops.Bits in
      let block : block_size config ≡ 4096 = unfold block_size_of in ground arith in
      record {
        zone_size = f.1;
        root_inode = f.2;
        zone_maps = sym (f.5 ∙ normal.one_inode_map);
        inode_maps = sym (f.4 ∙ normal.one_inode_map);
        zones =
            one_block ops loads _ config.device_zones (omega (arith, normal.zones, block)) zbits;
        inode_numbers = one_block ops loads _ (inodes config) (omega arith) ibits;
      }
