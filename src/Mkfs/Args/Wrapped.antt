-- ===== src/Mkfs/Args/Wrapped.antt =====
-- Arguments that get past the checks, or never come to them.
use Prim.Native.String.{String}
use text.Mathlib.Text.{◌==◌ as str_eq}
use aufs_enabled.Base.{
  ℕ, ◌+◌, ◌*◌, ◌/◌, ◌^◌, ◌<◌, ◌≤◌, true, false, ◌&&◌, ◌==◌, u32, ◌≡◌, arith, Bool-cases, inl, inr,
}
use aufs_enabled.Super.{sizeof_disk_inode}
use aufs_enabled.Mkfs.Config.{Configuration, block_size_of, verify_device}
use aufs_enabled.Mkfs.Args.{Options, crashed, make_configuration}

-- Where the bytes that the zones need are `2^32 * q + r`, `VerifyDevice` accepts every device of `r`
-- bytes or more, also those that are too small.
pub verify_device-wraps :
    (config : Configuration) (size q r : ℕ)
    → config.device_zones * config.zone_size ≡ 2 ^ 32 * q + r
    → r < 2 ^ 32
    → r ≤ size
    → verify_device size config ≡ true
unfolding verify_device
verify_device-wraps config size q r e small le =
    let cut : u32 (config.device_zones * config.zone_size) ≡ r = rw e (omega arith) in
    rw cut (ground arith)

-- With a device named and a zone size that has fewer than 64 bytes, cut to 32 bits: the formatter
-- divides by zero before it checks the zone size, whatever the number of zones and the device are.
pub make_configuration-crashed :
    (device_size : String → ℕ) (o : Options)
    → str_eq o.device "" ≡ false
    → u32 o.zone_size < sizeof_disk_inode
    → make_configuration device_size o ≡ crashed
unfolding make_configuration block_size_of
make_configuration-crashed device_size o named small =
    let none : (block_size_of (u32 o.zone_size) / sizeof_disk_inode == 0) ≡ true = ground arith in
    elim (Bool-cases (o.num_zones == 0 && o.zone_size == 0)) [
      | inl t ↦ rw (named, t)
      | inr t ↦ rw (named, t, none)
    ]
