-- ===== src/Examples/Formatting.antt =====
-- The bitmaps of a small device at address 64: 20 zones of 512 bytes.
use aufs_enabled.Base.{
  ℕ, zero, suc, ◌+◌, ◌*◌, ◌/◌, ◌^◌, ◌<◌, ◌≤◌, true, false, ◌||◌, ltb, leb, ◌==◌, if◌then◌else◌, min,
  u32, ◌≡◌, refl, arith,
}
use aufs_enabled.Super.{sizeof_disk_inode}
use aufs_enabled.Mkfs.Config.{Configuration, block_size, block_size_of}
use aufs_enabled.Mkfs.Bits.{Bytes}
use aufs_enabled.Mkfs.Bits.Memory.{AreBytes, bit_at}
use aufs_enabled.Mkfs.Maps.{
  allocated, running, allocate_zones, fill_zone_map, zone_map_bits, inode_map_bits,
}
use aufs_enabled.Mkfs.Maps.Search.{searched}
use aufs_enabled.Mkfs.Maps.Stuck.{allocate_zones-running}
use aufs_enabled.Mkfs.Maps.Fresh.{allocate_zones-fresh}

abbrev pub tiny : Configuration
tiny = record {
  device_zones = 20;
  zone_size = 512;
  inode_blocks = 3;
  inode_map_blocks = 1;
  zone_map_blocks = 1;
  num_block_alignment = 1024;
}

tiny-block : block_size tiny ≡ 512
unfolding block_size_of
tiny-block = refl

pub tiny-zones : zone_map_bits tiny ≡ 4096
unfolding zone_map_bits block_size_of
tiny-zones = refl

tiny-inodes : inode_map_bits tiny ≡ 4096
unfolding inode_map_bits block_size_of
tiny-inodes = refl

pub tiny-table : min (u32 (3 * (block_size tiny / sizeof_disk_inode))) (inode_map_bits tiny) ≡ 24
unfolding inode_map_bits block_size_of
tiny-table = refl

-- The first byte of the map, and zeros.
abbrev pub with_byte : ℕ → Bytes
with_byte v a = if a == 64 then v else 0

pub with_byte-AreBytes : (v : ℕ) → v < 256 → AreBytes (with_byte v)
with_byte-AreBytes v h a = ground arith

pub low : 64 + 1 * block_size tiny * 8 < 2 ^ 59
low = omega (arith, tiny-block)

abbrev limit : ℕ
limit = searched tiny 1

limit_lem : limit ≡ 32768
limit_lem = omega (arith, tiny-block)

two_taken :
    (mem : Bytes)
    → bit_at mem 512 ≡ true
    → bit_at mem 513 ≡ true
    → (k : ℕ) → k < 2
    → bit_at mem (8 * 64 + k) ≡ true
two_taken mem first second zero lt = first
two_taken mem first second (suc zero) lt = second
two_taken mem first second (suc (suc k)) lt = absurd (omega arith)

two_free : (k : ℕ) → k < 2 → bit_at (with_byte 3) (8 * 64 + (2 + k)) ≡ false
two_free zero lt = refl
two_free (suc zero) lt = refl
two_free (suc (suc k)) lt = absurd (omega arith)

one_free : (k : ℕ) → 2 ≤ k → k < 2 + 1 → bit_at (with_byte 11) (8 * 64 + k) ≡ false
one_free zero ge lt = absurd (omega arith)
one_free (suc zero) ge lt = absurd (omega arith)
one_free (suc (suc zero)) ge lt = refl
one_free (suc (suc (suc k))) ge lt = absurd (omega arith)

allocate_zones-running_example : allocate_zones 1000 tiny 64 2 (with_byte 11) ≡ running
allocate_zones-running_example =
    allocate_zones-running tiny 64 (with_byte 11) low 2 2 1 (omega (arith, limit_lem)) (omega arith)
      (omega arith) (two_taken (with_byte 11) refl refl) one_free refl 1000

allocate_zones-fresh_example :
    (mem' : Bytes) × (allocate_zones 2 tiny 64 1 (fill_zone_map tiny 64 (with_byte 3))
      ≡ allocated 1 mem')
    × ((k : ℕ)
        → k < zone_map_bits tiny
        → bit_at mem' (8 * 64 + k) ≡ (ltb k 2 || leb (min 20 (zone_map_bits tiny)) k))
allocate_zones-fresh_example =
    allocate_zones-fresh tiny 64 (with_byte 3) (with_byte-AreBytes 3 (omega arith)) low
      (omega (arith, tiny-zones)) 1
