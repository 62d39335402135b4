-- ===== src/Super/Calls.antt =====
-- kern/super.c: what `aufs_super_block_read` and `aufs_put_super` take from the kernel and give back,
-- as the sequence of their calls.
pub mod Tally
pub mod Returned
pub mod Outcome
use aufs_enabled.Base.{
  ℕ, zero, suc, ◌+◌, List, [], ◌∷◌, ◌++◌, Bool, true, false, Option, none, some, ◌==◌,
  if◌then◌else◌,
}
use aufs_enabled.Kernel.{BitOps, ByteOrder}
use aufs_enabled.Super.{AufsSuperBlock}
use aufs_enabled.Super.Mount.{
  DiskSuperBlock, Device, Memory, aufs_magic, zeroed, aufs_super_block_fill,
}

-- The memory that the code allocates: `struct aufs_super_block`, and the array of both maps; and any
-- other.
pub data Memo : Type 0 where
  sb_info map_array elsewhere : Memo

-- A buffer that is got, with its reference, and released, by the number of its block (a call that
-- gets nothing, or releases NULL, is none), and memory that is got and freed.
pub data Call : Type 0 where
  sb_bread brelse : ℕ → Call
  kzalloc kfree : Memo → Call

module _ {B : Type 0} where
  -- The blocks that a loop of `sb_bread` gets from `block` on, and whether it gets all.
  unfoldable pub read_blocks : Device B → (left block : ℕ) → List ℕ × Bool
  read_blocks dev zero block = ([], true)
  read_blocks dev (suc left) block =
      let (blocks, whole) = read_blocks dev left (suc block) in
      elim (dev.bitmap block) [ none ↦ ([], false) | some _ ↦ (block ∷ blocks, whole) ]

-- A round for each block that is got.
unfoldable pub fetch_loop : List ℕ → List Call
fetch_loop [] = []
fetch_loop (n ∷ blocks) = sb_bread n ∷ fetch_loop blocks

-- A round for each buffer that the array has, by its block.
unfoldable pub release_loop : List ℕ → List Call
release_loop [] = []
release_loop (n ∷ blocks) = brelse n ∷ release_loop blocks

-- From `out_freemap` on, with the blocks of the zone map and of the inode map that were got.
unfoldable pub out_freemap : (zblocks iblocks : List ℕ) → List Call
unfolding release_loop
out_freemap zblocks iblocks =
    release_loop iblocks
    ++ (release_loop zblocks ++ (kfree map_array ∷ brelse 0 ∷ kfree sb_info ∷ []))

-- From the test of the magic number on.
unfoldable pub check_magic : (magic : ℕ) → List Call
check_magic magic = if magic == aufs_magic then [] else kfree sb_info ∷ []

module _ {B : Type 0} where
  abbrev pub zone_map_read : AufsSuperBlock B → Device B → List ℕ × Bool
  zone_map_read asb dev = read_blocks dev asb.asb_zone_map_blocks 1

  abbrev pub inode_map_read : AufsSuperBlock B → Device B → List ℕ × Bool
  inode_map_read asb dev = read_blocks dev asb.asb_inode_map_blocks (1 + asb.asb_zone_map_blocks)

  -- Behind the loops, with both maps read. Without a block of the inode map it is not known how the code
  -- goes on from what lies behind the array, and nothing follows here.
  unfoldable pub maps_read : AufsSuperBlock B → List Call
  unfolding check_magic
  maps_read asb = if asb.asb_inode_map_blocks == 0 then [] else check_magic asb.asb_magic

  -- The loops over both maps; the second one runs only after the first has got every block.
  unfoldable pub map_calls : AufsSuperBlock B → Device B → List Call
  unfolding read_blocks fetch_loop out_freemap maps_read
  map_calls asb dev =
      let (zblocks, zwhole) = zone_map_read asb dev in
      let (iblocks, iwhole) = inode_map_read asb dev in
      if zwhole
      then fetch_loop zblocks
        ++ (fetch_loop iblocks ++ (if iwhole then maps_read asb else out_freemap zblocks iblocks))
      else fetch_loop zblocks ++ out_freemap zblocks []

  -- `aufs_super_block_read`. The label `out_no_map` has no map to release.
  unfoldable pub super_block_calls : ByteOrder → Memory → Device B → List Call
  unfolding map_calls aufs_super_block_fill
  super_block_calls order memory dev =
      if memory.asb
      then kzalloc sb_info ∷ elim dev.super_block [
        | none ↦ kfree sb_info ∷ []
        | some dsb ↦
            let asb = aufs_super_block_fill order (zeroed {B = B}) dsb in
            sb_bread 0
            ∷ brelse 0
            ∷ (if memory.map
                then kzalloc map_array ∷ map_calls asb dev
                else brelse 0 ∷ kfree sb_info ∷ [])
      ]
      else []

-- What the memory of `asb` holds once `kfree` has taken it back: the buffers, by their blocks, to which
-- the bounds and the arrays of both maps then lead, and what `s_zmap` points to.
pub record Freed : Type 0 where
  pub iblocks : List ℕ
  pub zblocks : List ℕ
  pub s_zmap : Memo

-- `aufs_put_super`: it frees `asb` first and reads all that it needs of it afterwards.
unfoldable pub aufs_put_super : Freed → List Call
unfolding release_loop
aufs_put_super freed =
    kfree sb_info
    ∷ (release_loop freed.iblocks ++ (release_loop freed.zblocks ++ (kfree freed.s_zmap ∷ [])))
