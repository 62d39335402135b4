-- ===== src/Mkfs/Maps/Filled.antt =====
-- What the maps hold once they are filled.
use aufs_enabled.Base.{
  ℕ, ◌+◌, ◌*◌, ◌/◌, ◌^◌, ◌<◌, ◌≤◌, Bool, true, false, ◌&&◌, ◌||◌, leb, ltb, ◌==◌, if◌then◌else◌,
  ◌≡◌, arith, u32, min,
}
use aufs_enabled.Super.{sizeof_disk_inode}
use aufs_enabled.Mkfs.Config.{Configuration, block_size}
use aufs_enabled.Mkfs.Bits.{Bytes, BitIterator, advance}
use aufs_enabled.Mkfs.Bits.Position.{IsBit, position, advance-position}
use aufs_enabled.Mkfs.Bits.Memory.{AreBytes, bit_at}
use aufs_enabled.Mkfs.Maps.{
  fill, fill_map, fill_zone_map, fill_inode_map, zone_map_bits, inode_map_bits,
}
use aufs_enabled.Mkfs.Maps.Ranges.{within, fill-bits}

-- A map as it should be: the first of its `total` bits and those from `used` on are taken, the
-- others are free, and memory outside of it is as before.
abbrev pub IsMap : (base used total : ℕ) → (mem mem' : Bytes) → Type 0
IsMap base used total mem mem' =
    AreBytes mem'
    × ((k : ℕ)
        → bit_at mem' k ≡ (
            if within (8 * base) total k
            then k == 8 * base || leb (8 * base + used) k
            else bit_at mem k))

three_fills :
    (start used total p₀ p₁ p₂ p₃ k : ℕ) (old b₁ b₂ b₃ : Bool)
    → 0 < used
    → used ≤ total
    → p₀ ≡ start
    → p₁ ≡ p₀ + 1
    → p₂ ≡ p₀ + used
    → p₃ ≡ p₀ + total
    → b₁ ≡ (if leb p₀ k && ltb k p₁ then true else old)
    → b₂ ≡ (if leb p₁ k && ltb k p₂ then false else b₁)
    → b₃ ≡ (if leb p₂ k && ltb k p₃ then true else b₂)
    → b₃ ≡ (if within start total k then k == start || leb (start + used) k else old)
three_fills start used total p₀ p₁ p₂ p₃ k old b₁ b₂ b₃ pos le e₀ q₁ q₂ q₃ e₁ e₂ e₃ = ground arith

fill_map-IsMap :
    (base used total : ℕ) (mem : Bytes)
    → AreBytes mem
    → base < 2 ^ 59
    → 0 < used
    → used ≤ total
    → total < 2 ^ 32
    → IsMap base used total mem (fill_map base used total mem)
unfolding fill_map
fill_map-IsMap base used total mem bytes low pos le high =
    let it : BitIterator = record { m_data = base; m_offset = 0 } in
    let bit : IsBit it = record { offset = omega arith; address = omega arith } in
    let (p₁, h₁, _) = advance-position it 1 bit (omega arith) in
    let (p₂, h₂, _) = advance-position it used bit (omega arith) in
    let (p₃, h₃, _) = advance-position it total bit (omega arith) in
    let (bytes₁, f₁) = fill-bits mem it (advance it 1) true bytes bit h₁ (omega (arith, p₁)) in
    let mem₁ = fill mem it (advance it 1) true in
    let (bytes₂, f₂) =
      fill-bits mem₁ (advance it 1) (advance it used) false bytes₁ h₁ h₂ (omega (arith, p₁, p₂)) in
    let mem₂ = fill mem₁ (advance it 1) (advance it used) false in
    let (bytes₃, f₃) =
      fill-bits mem₂ (advance it used) (advance it total) true bytes₂ h₂ h₃
        (omega (arith, p₂, p₃)) in
    (
      bytes₃,
      λ k.
          three_fills (8 * base) used total (position it) _ _ _ k _ _ _ _ pos le (omega arith) p₁ p₂
            p₃ (f₁ k) (f₂ k) (f₃ k),
    )

module _ (config : Configuration) (base : ℕ) (mem : Bytes) (bytes : AreBytes mem)
    (low : base < 2 ^ 59) where
  -- In memory of bytes, below the top of the address space, with a map of one bit or more and at
  -- least one zone: `FillZoneMap` leaves the bits from 1 to the number of zones free, takes bit 0 and
  -- all bits behind the zones, and changes nothing outside of the map.
  pub fill_zone_map-IsMap :
      0 < config.device_zones
      → 0 < zone_map_bits config
      → IsMap base
          (min config.device_zones (zone_map_bits config))
          (zone_map_bits config)
          mem
          (fill_zone_map config base mem)
  unfolding fill_zone_map
  fill_zone_map-IsMap some_zone some_bit =
      fill_map-IsMap base (min config.device_zones (zone_map_bits config)) (zone_map_bits config)
        mem bytes low (omega arith) (omega arith) (unfold zone_map_bits in omega arith)

  -- In the same memory, with a map of one bit or more and at least one inode: `FillInodeMap` leaves
  -- the bits from 1 to the number of inodes of the table free, and takes bit 0 and all behind them.
  pub fill_inode_map-IsMap :
      0 < u32 (config.inode_blocks * (block_size config / sizeof_disk_inode))
      → 0 < inode_map_bits config
      → IsMap base
          (min
            (u32 (config.inode_blocks * (block_size config / sizeof_disk_inode)))
            (inode_map_bits config))
          (inode_map_bits config)
          mem
          (fill_inode_map config base mem)
  unfolding fill_inode_map
  fill_inode_map-IsMap some_inode some_bit =
      fill_map-IsMap base
        (min (u32 (config.inode_blocks * (block_size config / sizeof_disk_inode)))
          (inode_map_bits config))
        (inode_map_bits config) mem bytes low (omega arith) (omega arith)
        (unfold inode_map_bits in omega arith)
