-- ===== src/Examples/Releasing.antt =====
-- What mounts of a small device take and give back.
use aufs_enabled.Base.{
  ℕ, [], ◌∷◌, ◌++◌, Bool, true, false, none, some, ◌&&◌, ◌==◌, if◌then◌else◌, ◌≡◌, ◌≢◌, ◌⊎◌, ◌↔◌,
  refl, arith,
}
use aufs_enabled.Super.Mount.{
  DiskSuperBlock, Device, aufs_magic, read_maps, read_bitmaps, null, aufs_super_block_fill,
  aufs_super_block_read,
}
use aufs_enabled.Super.Calls.{
  sb_info, sb_bread, brelse, kzalloc, kfree, map_array, elsewhere, Freed, maps_read, read_blocks,
  fetch_loop, release_loop, out_freemap, check_magic, zone_map_read, inode_map_read, map_calls,
  super_block_calls, aufs_put_super,
}
use aufs_enabled.Super.Calls.Returned.{IsReturned, IsOverReleased, IsLost, IsIntact}
use aufs_enabled.Super.Calls.Outcome.{
  whole, filled, aufs_super_block_read-failed, aufs_put_super-IsReturned_iff,
}
use aufs_enabled.Examples.Platform.{bit_ops, big_endian}
use aufs_enabled.Examples.Allocation.{taken}
use aufs_enabled.Examples.Mounting.{disk_block, device, enough, asb, asb-read}

-- Block 3, the map of the inodes, cannot be read.
abbrev broken : Device (ℕ → Bool)
broken = record {
  super_block = some (disk_block aufs_magic);
  bitmap = λ block. if block == 3 then none else some (taken block);
}

broken-unread : aufs_super_block_read bit_ops big_endian enough broken ≡ null
unfolding aufs_super_block_read read_bitmaps aufs_super_block_fill read_maps
broken-unread = refl

broken-calls :
    super_block_calls big_endian enough broken
    ≡ kzalloc sb_info
      ∷ sb_bread 0
      ∷ brelse 0
      ∷ kzalloc map_array
      ∷ sb_bread 1
      ∷ sb_bread 2
      ∷ brelse 1
      ∷ brelse 2
      ∷ kfree map_array
      ∷ brelse 0
      ∷ kfree sb_info
      ∷ []
unfolding super_block_calls map_calls maps_read aufs_super_block_fill read_blocks fetch_loop
    release_loop out_freemap check_magic
broken-calls = refl

aufs_super_block_read-failed_example :
    (((true ≡ false) ⊎ (some (disk_block aufs_magic) ≡ none))
      × IsReturned (super_block_calls big_endian enough broken))
    ⊎ ((dsb : DiskSuperBlock) × (some (disk_block aufs_magic) ≡ some dsb)
        × ((true
              && whole bit_ops big_endian enough broken
                  (filled bit_ops big_endian enough broken dsb))
            ≡ false)
        × IsOverReleased (super_block_calls big_endian enough broken))
    ⊎ ((dsb : DiskSuperBlock) × (some (disk_block aufs_magic) ≡ some dsb)
        × (whole bit_ops big_endian enough broken (filled bit_ops big_endian enough broken dsb)
            ≡ true)
        × ((filled bit_ops big_endian enough broken dsb).asb_magic ≢ aufs_magic)
        × IsLost
            ((zone_map_read (filled bit_ops big_endian enough broken dsb) broken).0
              ++ (inode_map_read (filled bit_ops big_endian enough broken dsb) broken).0)
            (super_block_calls big_endian enough broken))
aufs_super_block_read-failed_example =
    aufs_super_block_read-failed bit_ops big_endian enough broken broken-unread

-- The memory of `asb` is as it was when it was freed.
abbrev intact : Freed
intact = record { iblocks = 3 ∷ []; zblocks = 1 ∷ 2 ∷ []; s_zmap = map_array }

aufs_put_super-IsReturned_iff_example :
    IsReturned (super_block_calls big_endian enough (device aufs_magic) ++ aufs_put_super intact)
    ↔ IsIntact
        (zone_map_read asb (device aufs_magic)).0
        (inode_map_read asb (device aufs_magic)).0
        intact
aufs_put_super-IsReturned_iff_example =
    aufs_put_super-IsReturned_iff bit_ops big_endian enough (device aufs_magic) asb asb-read intact

-- It is used for something else by then.
abbrev reused : Freed
reused = record { iblocks = []; zblocks = []; s_zmap = elsewhere }

intact-IsIntact : IsIntact (1 ∷ 2 ∷ []) (3 ∷ []) intact
intact-IsIntact = record { array = refl; buffers = λ n. omega arith }

reused-not-IsIntact : ¬ (IsIntact (1 ∷ 2 ∷ []) (3 ∷ []) reused)
reused-not-IsIntact h = cc h.array
