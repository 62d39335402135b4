-- ===== src/Mkfs/Config.antt =====
-- `Configuration` of user/block.hpp, without the names of the device and the directory, and the
-- checks of user/mkfs.cpp on it. `uint32_t` arithmetic wraps.
use aufs_enabled.Base.{
  ℕ, zero, suc, ◌+◌, ◌-◌, ◌*◌, ◌/◌, ◌%◌, ◌^◌, Bool, true, false, not, ltb, leb, ◌==◌, if◌then◌else◌,
  u32, min,
}
use aufs_enabled.Super.{sizeof_disk_inode}

pub record Configuration : Type 0 where
  pub device_zones : ℕ
  pub zone_size : ℕ
  pub inode_blocks : ℕ
  pub inode_map_blocks : ℕ
  pub zone_map_blocks : ℕ
  pub num_block_alignment : ℕ

-- `BlockSize`, of a zone size.
unfoldable pub block_size_of : ℕ → ℕ
block_size_of zone_size = if ltb 4096 zone_size then 4096 else zone_size

abbrev pub block_size : Configuration → ℕ
block_size config = block_size_of config.zone_size

unfoldable pub integer_round_up_division : ℕ → ℕ → ℕ
integer_round_up_division dividend divisor = u32 (dividend + divisor + 2 ^ 32 - 1) / divisor

unfoldable pub calculate_aligned_num_blocks : Configuration → ℕ → ℕ
unfolding integer_round_up_division
calculate_aligned_num_blocks config num_blocks =
    u32
      (integer_round_up_division num_blocks config.num_block_alignment * config.num_block_alignment)

-- `CountInodeEntryBlocks`.
unfoldable pub count_inode_entry_blocks : Configuration → ℕ
count_inode_entry_blocks config =
    let inodes = min config.device_zones (u32 (config.inode_map_blocks * block_size config * 8)) in
    let in_block = block_size config / sizeof_disk_inode in
    u32 (inodes + in_block + 2 ^ 32 - 1) / in_block

-- The constructor: the number of inode blocks is counted when all else is set.
unfoldable pub configuration :
    (n_zones zone_size num_block_inode_map num_block_zone_map num_block_alignment : ℕ)
    → Configuration
unfolding count_inode_entry_blocks
configuration n_zones zone_size num_block_inode_map num_block_zone_map num_block_alignment =
    let initial : Configuration = record {
      device_zones = min (u32 (num_block_zone_map * block_size_of zone_size * 8)) n_zones;
      zone_size = zone_size;
      inode_blocks = 0;
      inode_map_blocks = num_block_inode_map;
      zone_map_blocks = num_block_zone_map;
      num_block_alignment = num_block_alignment;
    } in
    record initial { inode_blocks = count_inode_entry_blocks initial }

-- `IsPowerOfTwo` with fuel for its loop; running out of it is no power of two.
unfoldable pub is_power_of_two : (fuel n : ℕ) → Bool
is_power_of_two zero n = false
is_power_of_two (suc fuel) n =
    let rest = is_power_of_two fuel (n / 2) in
    if ltb 1 n then if n % 2 == 1 then false else rest else true

-- `VerifyZoneSize`, which only warns of too many zones, `VerifyZones` and `VerifyDevice`.
unfoldable pub verify_zone_size : Configuration → Bool
verify_zone_size config =
    if ltb config.zone_size 512 then false else not (not (is_power_of_two 33 config.zone_size))

unfoldable pub verify_zones : Configuration → Bool
verify_zones config = not (leb config.device_zones 3)

unfoldable pub verify_device : (device_size : ℕ) → Configuration → Bool
verify_device device_size config =
    not (ltb device_size (u32 (config.device_zones * config.zone_size)))
