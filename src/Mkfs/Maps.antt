-- ===== src/Mkfs/Maps.antt =====
-- The bitmaps of user/format.cpp: filling them and allocating from them. A map is memory from the
-- address `base` of its block's data on.
pub mod Ranges
pub mod Filled
pub mod Search
pub mod Allocated
pub mod Stuck
pub mod Fresh
use aufs_enabled.Base.{
  ℕ, zero, suc, ◌+◌, ◌*◌, ◌/◌, ◌^◌, Bool, true, false, not, ◌&&◌, ◌||◌, Option, none, some, ltb,
  if◌then◌else◌, u32, u64, min,
}
use aufs_enabled.Super.{sizeof_disk_inode}
use aufs_enabled.Mkfs.Config.{Configuration, block_size}
use aufs_enabled.Mkfs.Bits.{
  Bytes, BitReference, BitIterator, is_set, assign, increment, advance, difference, equal, deref,
}

-- `operator==(BitReference const &, bool)`.
unfoldable pub has_value : Bytes → BitReference → Bool → Bool
unfolding is_set
has_value mem r v = if v then is_set mem r else not (is_set mem r)

-- `std::fill` over `n` bits from `it` on, and over the range of two iterators.
unfoldable pub fill_n : (n : ℕ) → Bytes → BitIterator → Bool → Bytes
fill_n zero mem it v = mem
fill_n (suc n) mem it v = fill_n n (assign mem (deref it) v) (increment it) v

unfoldable pub fill : Bytes → (first last : BitIterator) → Bool → Bytes
fill mem first last v = fill_n (difference last first) mem first v

-- `std::find`.
unfoldable pub find_n : (n : ℕ) → Bytes → BitIterator → Bool → BitIterator
find_n zero mem it v = it
find_n (suc n) mem it v =
    let rest = find_n n mem (increment it) v in if has_value mem (deref it) v then it else rest

unfoldable pub find : Bytes → (first last : BitIterator) → Bool → BitIterator
find mem first last v = find_n (difference last first) mem first v

-- The first bit, the `used` bits that are counted and the bits up to `total`: taken, free, taken.
unfoldable pub fill_map : (base used total : ℕ) → Bytes → Bytes
unfolding fill
fill_map base used total mem =
    let it : BitIterator = record { m_data = base; m_offset = 0 } in
    let mem₁ = fill mem it (advance it 1) true in
    let mem₂ = fill mem₁ (advance it 1) (advance it used) false in
    fill mem₂ (advance it used) (advance it total) true

-- The bits of the blocks of the zone map and of the inode map.
unfoldable pub zone_map_bits : Configuration → ℕ
zone_map_bits config = u32 (config.zone_map_blocks * block_size config * 8)

unfoldable pub inode_map_bits : Configuration → ℕ
inode_map_bits config = u32 (config.inode_map_blocks * block_size config * 8)

-- `SuperBlock::FillZoneMap` and `SuperBlock::FillInodeMap`.
unfoldable pub fill_zone_map : Configuration → (base : ℕ) → Bytes → Bytes
fill_zone_map config base mem =
    fill_map base (min config.device_zones (zone_map_bits config)) (zone_map_bits config) mem

unfoldable pub fill_inode_map : Configuration → (base : ℕ) → Bytes → Bytes
fill_inode_map config base mem =
    let in_block = block_size config / sizeof_disk_inode in
    fill_map base (min (u32 (config.inode_blocks * in_block)) (inode_map_bits config))
      (inode_map_bits config) mem

-- The end of the search of an allocation in a map of `blocks` blocks: eight bytes for each byte.
unfoldable pub search_end : Configuration → (base blocks : ℕ) → BitIterator
search_end config base blocks = record {
  m_data = u64 (base + u64 (blocks * block_size config * 8));
  m_offset = 0;
}

-- What an allocation comes to: a number and the memory after it, or the exception that ends the
-- program, since it leaves a function that is `noexcept`; `running` is the loop cut off by its fuel.
pub data Allocation : Type 0 where
  allocated : (number : ℕ) (mem : Bytes) → Allocation
  terminated : Allocation
  running : Allocation

-- `SuperBlock::AllocateInode`.
unfoldable pub allocate_inode : Configuration → (base : ℕ) → Bytes → Allocation
unfolding find search_end
allocate_inode config base mem =
    let b : BitIterator = record { m_data = base; m_offset = 0 } in
    let e = search_end config base config.inode_map_blocks in
    let it = find mem b e false in
    if equal it e
    then terminated
    else allocated (u32 (difference it b)) (assign mem (deref it) true)

-- The loop of `SuperBlock::AllocateZones` at `it`.
unfoldable pub zones_loop :
    (fuel : ℕ) → (b e : BitIterator) (zones : ℕ) → Bytes → BitIterator → Allocation
zones_loop zero b e zones mem it = running
zones_loop (suc fuel) b e zones mem it =
    let jt = find mem it e true in
    let rest = zones_loop fuel b e zones mem jt in
    if equal it e
    then terminated
    else if ltb (difference jt it) zones
    then rest
    else allocated (u32 (difference it b)) (fill mem it (advance it zones) true)

unfoldable pub allocate_zones : (fuel : ℕ) → Configuration → (base zones : ℕ) → Bytes → Allocation
unfolding zones_loop find search_end
allocate_zones fuel config base zones mem =
    let b : BitIterator = record { m_data = base; m_offset = 0 } in
    let e = search_end config base config.zone_map_blocks in
    zones_loop fuel b e zones mem (find mem b e false)
