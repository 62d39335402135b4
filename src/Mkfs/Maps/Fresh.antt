-- ===== src/Mkfs/Maps/Fresh.antt =====
-- The first allocations of a new file system, which `MkRootDir` makes.
use aufs_enabled.Base.{
  ℕ, suc, ◌+◌, ◌*◌, ◌/◌, ◌^◌, ◌<◌, ◌≤◌, Bool, true, false, ◌||◌, leb, ltb, ◌==◌, if◌then◌else◌, u32,
  ◌≡◌, ◌∙◌, inl, inr, refl, ap, arith, min, ltb-cases,
}
use aufs_enabled.Super.{sizeof_disk_inode}
use aufs_enabled.Mkfs.Config.{Configuration, block_size}
use aufs_enabled.Mkfs.Bits.{Bytes}
use aufs_enabled.Mkfs.Bits.Memory.{AreBytes, bit_at}
use aufs_enabled.Mkfs.Maps.{
  allocated, allocate_inode, allocate_zones, fill_zone_map, fill_inode_map, zone_map_bits,
  inode_map_bits,
}
use aufs_enabled.Mkfs.Maps.Ranges.{within}
use aufs_enabled.Mkfs.Maps.Filled.{IsMap, fill_zone_map-IsMap, fill_inode_map-IsMap}
use aufs_enabled.Mkfs.Maps.Search.{searched, clash}
use aufs_enabled.Mkfs.Maps.Allocated.{allocate_inode-outcome, allocate_zones-first}

-- The bits of a map that is as it should be.
IsMap-bit :
    (base used total : ℕ) (mem mem' : Bytes) (k : ℕ)
    → IsMap base used total mem mem'
    → k < total
    → bit_at mem' (8 * base + k) ≡ (k == 0 || leb used k)
IsMap-bit base used total mem mem' k map lt = map.1 (8 * base + k) ∙ ground arith

-- A map of which one free bit is taken.
taken_next :
    (base used total k : ℕ) (new old : Bool)
    → new ≡ (if within (8 * base + 1) 1 (8 * base + k) then true else old)
    → old ≡ (k == 0 || leb used k)
    → new ≡ (ltb k 2 || leb used k)
taken_next base used total k new old e h = ground arith

module _ (config : Configuration) (base : ℕ) (mem : Bytes) (bytes : AreBytes mem) where
  module _ (low : base + config.zone_map_blocks * block_size config * 8 < 2 ^ 59)
      (two_zones : 2 ≤ min config.device_zones (zone_map_bits config)) where
    abbrev zones : ℕ
    zones = min config.device_zones (zone_map_bits config)

    -- For a map of at least two zones, in memory of bytes below the top of the address space: in the
    -- map that `FillZoneMap` leaves, `AllocateZones` gives zone 1 to the root directory, as `MkRootDir`
    -- asserts. The bits of the map are then taken for zones 0 and 1 and for those behind the last
    -- zone, and free for all others.
    pub allocate_zones-fresh :
        (fuel : ℕ)
        → (mem' : Bytes) × (allocate_zones (suc fuel) config base 1 (fill_zone_map config base mem)
            ≡ allocated 1 mem')
          × ((k : ℕ)
              → k < zone_map_bits config
              → bit_at mem' (8 * base + k) ≡ (ltb k 2 || leb zones k))
    allocate_zones-fresh fuel =
        let map =
          fill_zone_map-IsMap config base mem bytes (omega arith) (omega arith) (omega arith) in
        let total = zone_map_bits config in
        let fits : total ≤ searched config config.zone_map_blocks =
          unfold zone_map_bits in omega arith in
        let filled = fill_zone_map config base mem in
        let (mem', done, bits) =
          allocate_zones-first config base filled map.0 low 1 1 (omega (arith, fits)) (omega arith)
            (λ k lt. IsMap-bit base zones total mem filled k map (omega arith) ∙ ground arith)
            (λ k lt.
              ap (bit_at filled) {x = 8 * base + (1 + k)} {y = 8 * base + 1} (omega arith)
              ∙ IsMap-bit base zones total mem filled 1 map (omega arith)
              ∙ ground arith)
            fuel in
        (
          mem',
          done,
          λ k lt.
              taken_next base zones total k _ _ (bits (8 * base + k))
                (IsMap-bit base zones total mem filled k map lt),
        )

  module _ (low : base + config.inode_map_blocks * block_size config * 8 < 2 ^ 59) where
    abbrev inodes : ℕ
    inodes =
        min (u32 (config.inode_blocks * (block_size config / sizeof_disk_inode)))
          (inode_map_bits config)

    -- For at least two inodes, in memory of bytes below the top of the address space: in the map that
    -- `FillInodeMap` leaves, `AllocateInode` gives number 1, as `MkRootDir` asserts. The bits of the map are then taken for
    -- numbers 0 and 1 and for those behind the last inode, and free for all others.
    pub allocate_inode-fresh :
        2 ≤ inodes
        → (mem' : Bytes) × (allocate_inode config base (fill_inode_map config base mem)
            ≡ allocated 1 mem')
          × ((k : ℕ)
              → k < inode_map_bits config
              → bit_at mem' (8 * base + k) ≡ (ltb k 2 || leb inodes k))
    allocate_inode-fresh two_inodes =
        let map =
          fill_inode_map-IsMap config base mem bytes (omega arith) (omega arith) (omega arith) in
        let total = inode_map_bits config in
        let fits : total ≤ searched config config.inode_map_blocks =
          unfold inode_map_bits in omega arith in
        let filled = fill_inode_map config base mem in
        let bit = λ (k : ℕ) (lt : k < total). IsMap-bit base inodes total mem filled k map lt in
        let free : bit_at filled (8 * base + 1) ≡ false = bit 1 (omega arith) ∙ ground arith in
        elim (allocate_inode-outcome config base filled map.0 low) [
          | inl (all, _) ↦ absurd (clash _ true (all 1 (omega (arith, fits))) free)
          | inr (n, mem', done, before, clear, bits) ↦
              let low_end : n ≡ 1 = elim (ltb-cases n 1) [
                | inl (_, below) ↦ absurd (
                    clash _ true
                      (ap (bit_at filled) {x = 8 * base + n} {y = 8 * base + 0} (omega arith)
                        ∙ bit 0 (omega arith)
                        ∙ refl)
                      clear)
                | inr (_, above) ↦ elim (ltb-cases 1 n) [
                  | inl (_, over) ↦ absurd (clash _ true (before 1 over) free)
                  | inr (_, same) ↦ omega arith
                ]
              ] in
              (
                mem',
                done ∙ ap (λ (m : ℕ). allocated (u32 m) mem') low_end,
                λ k lt.
                    taken_next base inodes total k _ _ (bits (8 * base + k) ∙ ground arith)
                      (bit k lt),
              )
        ]
