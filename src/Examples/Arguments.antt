-- ===== src/Examples/Arguments.antt =====
-- `mkfs --nzones 40 --zonesize 4096 disk`, where `disk` has 163840 bytes, and a zone size of 32.
use Prim.Native.String.{String}
use text.Mathlib.Text.{◌==◌ as str_eq}
use aufs_enabled.Base.{
  ℕ, ◌*◌, ◌^◌, ◌<◌, ◌≤◌, Option, none, some, List, [], ◌∷◌, if◌then◌else◌, u32, ◌≡◌, refl, arith,
  Bool,
}
use aufs_enabled.Super.{aufs_inode_block, aufs_inode_offset}
use aufs_enabled.Mkfs.Config.{
  Configuration, configuration, count_inode_entry_blocks, block_size_of, is_power_of_two,
  verify_zone_size, verify_zones, verify_device,
}
use aufs_enabled.Mkfs.Format.{inode_block, inode_offset}
use aufs_enabled.Mkfs.Agreement.{seen}
use aufs_enabled.Mkfs.Args.{
  Options, parse_last, parse_loop, accepted, verify_configuration, make_configuration, parse_args,
}
use aufs_enabled.Mkfs.Args.Accepted.{
  IsDefault, parse_args-accepted, accepted-Fits, parse_args-place_agrees,
}
use aufs_enabled.Examples.Platform.{big_endian}

abbrev pub stoi : String → Option ℕ
stoi s = if str_eq s "40" then some 40 else if str_eq s "4096" then some 4096 else none

abbrev pub device_size : String → ℕ
device_size s = 163840

abbrev pub argv : List String
argv = "--nzones" ∷ "40" ∷ "--zonesize" ∷ "4096" ∷ "disk" ∷ []

abbrev pub config : Configuration
config = record {
  device_zones = 40;
  zone_size = 4096;
  inode_blocks = 1;
  inode_map_blocks = 1;
  zone_map_blocks = 1;
  num_block_alignment = 1024;
}

pub success : parse_args stoi device_size argv ≡ accepted config
unfolding parse_args parse_loop parse_last make_configuration configuration count_inode_entry_blocks
    block_size_of verify_configuration verify_zone_size is_power_of_two verify_zones verify_device
success = refl

parse_args-accepted_example :
    (512 ≤ 4096)
    × ((k : ℕ) × (config.zone_size ≡ 2 ^ k))
    × (3 < 40)
    × IsDefault config
    × ((device : String) × (u32 (40 * 4096) ≤ device_size device))
parse_args-accepted_example = parse_args-accepted stoi device_size argv config success

parse_args-place_agrees_example :
    let asb =
      seen big_endian config (accepted-Fits stoi device_size argv config success) (ℕ → Bool) in
    (aufs_inode_block asb 7 ≡ inode_block config 7)
    × (aufs_inode_offset asb 7 ≡ inode_offset config 7)
parse_args-place_agrees_example =
    parse_args-place_agrees stoi device_size argv config success big_endian (ℕ → Bool) (omega arith)
      7 (omega arith)

abbrev small_zones : Options
small_zones = record { device = "disk"; dir = ""; zone_size = 32; num_zones = 40 }
