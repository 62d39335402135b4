-- ===== src/Examples/Table.antt =====
-- A file's inode in a table of one block.
use aufs_enabled.Base.{
  ℕ, zero, suc, ◌+◌, ◌<◌, ◌≢◌, ◌⊎◌, ◌*◌, ◌≤◌, ◌^◌, Bool, true, false, if◌then◌else◌, none, some,
  ◌∷◌, ◌==◌, get_or, replicate, ◌≡◌, refl, arith,
}
use aufs_enabled.Kernel.{eio}
use aufs_enabled.Vfs.{AufsInode}
use aufs_enabled.Super.{AufsSuperBlock, aufs_inode_block, aufs_inode_offset}
use aufs_enabled.Inode.Table.{
  DiskInode, BufferCache, fresh, inode_by_type, aufs_inode_get, minix_write_inode,
}
use aufs_enabled.Inode.Table.Place.{HasTable, aufs_inode_block-disjoint}
use aufs_enabled.Inode.Table.RoundTrip.{FitsDisk, reloaded}
use aufs_enabled.Inode.Table.Sync.{IsReadable, minix_write_inode-get}
use aufs_enabled.Examples.Platform.{big_endian, low_ids}
use aufs_enabled.Examples.Allocation.{small, taken, with_ptrs, no_ptrs}

abbrev sbi : AufsSuperBlock (ℕ → Bool)
sbi = small (taken 2) (taken 8)

abbrev raw : DiskInode
raw = record {
  di_zone_ptr = no_ptrs;
  di_blocks = 0;
  di_size = 0;
  di_gid = 0;
  di_uid = 0;
  di_mode = 0;
  di_ctime = 0;
}

-- Block 3 holds the whole table.
abbrev pub cache : BufferCache
cache block =
    if block == 3 then some (record { b_data = replicate 64 raw; dirty = false }) else none

abbrev inode : AufsInode
inode = with_ptrs (10 ∷ replicate 8 0) 5

sbi-HasTable : HasTable sbi
sbi-HasTable = record {
  some_inodes = omega arith;
  offsets_fit = omega arith;
  table_fits = omega arith;
}

cache-IsReadable : IsReadable sbi cache 5
unfolding aufs_inode_block aufs_inode_offset
cache-IsReadable = record {
  bh = record { b_data = replicate 64 raw; dirty = false };
  read = refl;
  raw = raw;
  there = refl;
  nine = refl;
}

get_or-zeros : (n j : ℕ) → get_or (replicate {A = ℕ} n 0) j 0 ≡ 0
get_or-zeros zero j = refl
get_or-zeros (suc n) zero = refl
get_or-zeros (suc n) (suc j) = get_or-zeros n j

ptrs-lt : (j : ℕ) → get_or (10 ∷ replicate 8 0) j 0 < 2 ^ 32
ptrs-lt zero = omega arith
ptrs-lt (suc j) = omega (arith, get_or-zeros 8 j)

inode-FitsDisk : FitsDisk inode
inode-FitsDisk = record {
  nine = refl;
  ptrs = ptrs-lt;
  mode = omega arith;
  size = omega arith;
  blocks = omega arith;
  uid = omega arith;
  gid = omega arith;
  ctime = omega arith;
}

-- Inode 5 is written and waited for, and read again; inode 6 is as before.
minix_write_inode-get_example :
    let (cache', error) =
      minix_write_inode big_endian low_ids true true sbi cache (λ n. none) inode in
    ((false ≡ false)
      × (error ≡ none)
      × (aufs_inode_get big_endian sbi cache' (fresh (with_ptrs no_ptrs 5)) 5
          ≡ inode_by_type (reloaded (with_ptrs no_ptrs 5) inode))
      × (aufs_inode_get big_endian sbi cache' (fresh (with_ptrs no_ptrs 6)) 6
          ≡ aufs_inode_get big_endian sbi cache (fresh (with_ptrs no_ptrs 6)) 6))
    ⊎ ((false ≡ true)
        × (error ≡ some eio)
        × (aufs_inode_get big_endian sbi cache' (fresh (with_ptrs no_ptrs 5)) 5
            ≡ aufs_inode_get big_endian sbi (λ n. none) (fresh (with_ptrs no_ptrs 5)) 5)
        × (aufs_inode_get big_endian sbi cache' (fresh (with_ptrs no_ptrs 6)) 6
            ≡ aufs_inode_get big_endian sbi
                (if aufs_inode_block sbi 6 == aufs_inode_block sbi 5 then (λ n. none) else cache)
                (fresh (with_ptrs no_ptrs 6))
                6))
minix_write_inode-get_example =
    minix_write_inode-get big_endian low_ids sbi sbi-HasTable cache inode (omega arith)
      (omega arith) cache-IsReadable (λ n. none) true true (with_ptrs no_ptrs 5) refl inode-FitsDisk
      6 (fresh (with_ptrs no_ptrs 6)) (omega arith) (omega arith)

aufs_inode_block-disjoint_example :
    ((aufs_inode_block sbi 5 ≢ aufs_inode_block sbi 6)
      ⊎ ((aufs_inode_offset sbi 5 + 64 ≤ aufs_inode_offset sbi 6)
          ⊎ (aufs_inode_offset sbi 6 + 64 ≤ aufs_inode_offset sbi 5)))
    × (3 ≤ aufs_inode_block sbi 5)
    × (aufs_inode_block sbi 5 < 3 + 1)
    × (aufs_inode_offset sbi 5 + 64 ≤ 64 * 64)
aufs_inode_block-disjoint_example =
    aufs_inode_block-disjoint sbi sbi-HasTable 5 6 (omega arith) (omega arith) (omega arith)
