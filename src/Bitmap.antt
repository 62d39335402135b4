-- ===== src/Bitmap.antt =====
-- kern/bitmap.c: the allocation of zones and inode numbers from the bitmaps. The spin lock is left
-- out: what it guards is one step here. The lists `s_zmap` and `s_imap` are the arrays of buffers.
pub mod Maps
pub mod Layout
pub mod Zones
pub mod Inodes
use aufs_enabled.Base.{
  ℕ, zero, suc, ◌+◌, ◌-◌, ◌*◌, ◌/◌, ◌^◌, Bool, true, false, not, ◌&&◌, Option, none, some, List, [],
  ◌∷◌, ltb, ◌==◌, if◌then◌else◌, u32, u64, is_negative, int_to_ulong, get_elem?, set, replicate,
}
use aufs_enabled.Kernel.{BufferHead, BitOps, Errno, enospc, enomem}
use aufs_enabled.Vfs.{AufsInode, Timespec, Outcome, ok, err, zone_ptr_in_inode_num}
use aufs_enabled.Super.{AufsSuperBlock}

-- For a divisor that is not 0. At 0 the division traps, and nothing is returned: `returned_block` has
-- that case.
unfoldable pub integer_round_up_division : ℕ → ℕ → ℕ
integer_round_up_division dividend divisor = u64 (dividend + divisor + 2 ^ 64 - 1) / divisor

module _ {B : Type 0} where
  -- The blocks in front of the zones, and one zone more.
  unfoldable pub blocks_ahead : AufsSuperBlock B → ℕ
  blocks_ahead sbi = u64 (
      1
      + sbi.asb_inode_map_blocks
      + sbi.asb_zone_map_blocks
      + sbi.asb_inode_blocks
      + 1 * sbi.asb_blocks_per_zone)

  -- The block at which the numbering of the zones begins.
  unfoldable pub zones_start : AufsSuperBlock B → ℕ
  zones_start sbi = u64 (
      integer_round_up_division (blocks_ahead sbi) sbi.asb_alignment_num_blocks
      * sbi.asb_alignment_num_blocks)

  -- The `int` that `aufs_new_zone` computes for bit `j`, also an `int`, where the division does not trap.
  unfoldable pub zone_result : AufsSuperBlock B → ℕ → ℕ
  zone_result sbi j =
      if is_negative (u32 j)
      then 0
      else u32 (u64 (u32 j * sbi.asb_blocks_per_zone + zones_start sbi))

  -- What it returns for bit `j`. `none` is the trap of the division by an alignment of 0, which no mount
  -- refuses; a bit that is negative as an `int` is left by `break` before.
  unfoldable pub returned_block : AufsSuperBlock B → ℕ → Option ℕ
  returned_block sbi j =
      if sbi.asb_alignment_num_blocks == 0 && not (is_negative (u32 j))
      then none
      else some (zone_result sbi j)

-- The inode that `aufs_new_inode` returns.
unfoldable pub init_inode : AufsInode → (AufsInode → AufsInode) → Timespec → (ino : ℕ) → AufsInode
init_inode inode init_owner now ino = record (init_owner inode) {
  i_ino = ino;
  i_mtime = now;
  i_atime = now;
  i_ctime = now;
  i_blocks = 0;
  ai_zone_ptr = replicate zone_ptr_in_inode_num 0;
  dirty = true;
}

module _ (ops : BitOps) where
  open ops use {Bits, find_first_zero_bit, set_bit, test_bit}

  -- The loop at block `i` of the zone map, with `left` rounds to go: the map after it and the
  -- value that the function returns, `none` for a trap. An empty list is a read beyond the array.
  unfoldable pub zone_loop :
      AufsSuperBlock Bits
      → (bits_per_block left i : ℕ) → List (BufferHead Bits)
      → List (BufferHead Bits) × Option ℕ
  zone_loop sbi bits_per_block zero i bufs = (bufs, some 0)
  zone_loop sbi bits_per_block (suc left) i [] = ([], some 0)
  zone_loop sbi bits_per_block (suc left) i (bh ∷ rest) =
      let j = find_first_zero_bit bh.b_data bits_per_block in
      let more = zone_loop sbi bits_per_block left (suc i) rest in
      if ltb j bits_per_block
      then (
        record bh { b_data = set_bit j bh.b_data; dirty = true } ∷ rest,
        returned_block sbi (j + i * bits_per_block),
      )
      else (bh ∷ more.0, more.1)

  -- `aufs_new_zone` over the super block's data: the super block after it and the returned block, or
  -- `none` where it traps.
  unfoldable pub aufs_new_zone :
      (s_blocksize : ℕ) → AufsSuperBlock Bits → AufsSuperBlock Bits × Option ℕ
  unfolding zone_loop
  aufs_new_zone s_blocksize sbi =
      let (zmap, block) = zone_loop sbi (8 * s_blocksize) sbi.asb_zone_map_blocks 0 sbi.s_zmap in
      (record sbi { s_zmap = zmap }, block)

  -- The search of `aufs_new_inode`: the block of the inode map and the bit in it, if there is one.
  unfoldable pub inode_loop : (bits_per_block left i : ℕ) → List (BufferHead Bits) → Option (ℕ × ℕ)
  inode_loop bits_per_block zero i bufs = none
  inode_loop bits_per_block (suc left) i [] = none
  inode_loop bits_per_block (suc left) i (bh ∷ rest) =
      let j = find_first_zero_bit bh.b_data bits_per_block in
      let more = inode_loop bits_per_block left (suc i) rest in
      if ltb j bits_per_block then some (i, j) else more

  -- The rest of `aufs_new_inode`, with bit `j` of block `i` found; `bh` is that block's buffer.
  unfoldable pub mark_inode :
      AufsSuperBlock Bits
      → AufsInode
      → (AufsInode → AufsInode)
      → Timespec
      → (bits_per_block i j : ℕ) → Option (BufferHead Bits)
      → AufsSuperBlock Bits × Outcome AufsInode
  unfolding init_inode
  mark_inode sbi inode init_owner now bits_per_block i j none = (sbi, err enospc)
  mark_inode sbi inode init_owner now bits_per_block i j (some bh) =
      let bits = set_bit j bh.b_data in
      let taken = record sbi { s_imap = set sbi.s_imap i (record bh { b_data = bits }) } in
      let marked = record sbi {
        s_imap = set sbi.s_imap i (record { b_data = bits; dirty = true });
      } in
      let ino = u64 (j + int_to_ulong (u32 (i * bits_per_block))) in
      if test_bit j bh.b_data
      then (taken, err enospc)
      else if ino == 0
      then (marked, err enospc)
      else (marked, ok (init_inode inode init_owner now ino))

  -- `aufs_new_inode`: `fresh` is what `new_inode` returns, `init_owner` is `inode_init_owner` for
  -- the directory and the mode, `now` is the current time.
  unfoldable pub aufs_new_inode :
      (s_blocksize : ℕ)
      → AufsSuperBlock Bits
      → Option AufsInode
      → (AufsInode → AufsInode)
      → Timespec
      → AufsSuperBlock Bits × Outcome AufsInode
  unfolding inode_loop
  aufs_new_inode s_blocksize sbi none init_owner now = (sbi, err enomem)
  aufs_new_inode s_blocksize sbi (some inode) init_owner now =
      let bits_per_block = 8 * s_blocksize in
      elim (inode_loop bits_per_block sbi.asb_inode_map_blocks 0 sbi.s_imap) [
        | none ↦ (sbi, err enospc)
        | some (i, j) ↦
            mark_inode sbi inode init_owner now bits_per_block i j (get_elem? sbi.s_imap i)
      ]
