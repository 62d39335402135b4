-- ===== src/Mkfs/Args.antt =====
-- user/mkfs.cpp: the arguments of the formatter and the configuration that it accepts. `std::stoi` is
-- a parameter: an `int` by its bit pattern, or nothing for its exceptions. `device_size` is
-- `DeviceSize`, the size that the stream reports.
pub mod Accepted
pub mod Wrapped
use Prim.Native.String.{String}
use text.Mathlib.Text.{◌==◌ as str_eq}
use aufs_enabled.Base.{
  ℕ, ◌+◌, ◌/◌, Bool, true, false, ◌&&◌, ◌||◌, not, Option, none, some, List, [], ◌∷◌, ◌==◌,
  if◌then◌else◌, u32, int_to_ulong, ◌>>=◌,
}
use aufs_enabled.Super.{sizeof_disk_inode}
use aufs_enabled.Mkfs.Config.{
  Configuration, configuration, block_size_of, verify_zone_size, verify_zones, verify_device,
}

-- The local variables of `ParseArgs`.
pub record Options : Type 0 where
  pub device : String
  pub dir : String
  pub zone_size : ℕ
  pub num_zones : ℕ

abbrev pub defaults : Options
defaults = record { device = ""; dir = ""; zone_size = 16384; num_zones = 0 }

abbrev is_arg : (long short arg : String) → Bool
is_arg long short arg = str_eq arg long || str_eq arg short

-- One argument with none behind it, which an option that takes a value needs.
unfoldable pub parse_last : String → Options → Options
parse_last arg o = if is_arg "--help" "-h" arg then o else record o { device = arg }

-- The loop of `ParseArgs`; `none` is an exception of `std::stoi`.
unfoldable pub parse_loop : (stoi : String → Option ℕ) → List String → Options → Option Options
unfolding parse_last
parse_loop stoi [] o = some o
parse_loop stoi (arg ∷ []) o = some (parse_last arg o)
parse_loop stoi (arg ∷ value ∷ rest) o =
    let nzones =
      stoi value >>= λ n. parse_loop stoi rest (record o { num_zones = int_to_ulong n }) in
    let zonesize =
      stoi value >>= λ n. parse_loop stoi rest (record o { zone_size = int_to_ulong n }) in
    let dir = parse_loop stoi rest (record o { dir = value }) in
    let other = parse_loop stoi (value ∷ rest) (parse_last arg o) in
    if is_arg "--nzones" "-b" arg
    then nzones
    else if is_arg "--zonesize" "-s" arg
    then zonesize
    else if is_arg "--dir" "-d" arg
    then dir
    else other

-- What `ParseArgs` comes to: a configuration, an exception that `main` catches, or a division by 0.
pub data Parsed : Type 0 where
  accepted : Configuration → Parsed
  rejected : Parsed
  crashed : Parsed

-- `VerifyConfiguration`.
unfoldable pub verify_configuration : (device_size : ℕ) → Configuration → Parsed
verify_configuration device_size config =
    if not (verify_zone_size config)
    then rejected
    else if not (verify_zones config)
    then rejected
    else if not (verify_device device_size config)
    then rejected
    else accepted config

-- The rest of `ParseArgs`; the constructor of `Configuration` divides by the inodes of a block.
unfoldable pub make_configuration : (device_size : String → ℕ) → Options → Parsed
unfolding verify_configuration
make_configuration device_size o =
    let size = device_size o.device in
    let zones = if o.num_zones == 0 then size / o.zone_size else o.num_zones in
    let config = configuration (u32 zones) (u32 o.zone_size) 1 1 1024 in
    if str_eq o.device ""
    then rejected
    else if o.num_zones == 0 && o.zone_size == 0
    then crashed
    else if block_size_of (u32 o.zone_size) / sizeof_disk_inode == 0
    then crashed
    else verify_configuration size config

unfoldable pub parse_args :
    (stoi : String → Option ℕ) (device_size : String → ℕ) → List String → Parsed
unfolding make_configuration
parse_args stoi device_size argv = elim (parse_loop stoi argv defaults) [
  | none ↦ rejected
  | some o ↦ make_configuration device_size o
]
