-- ===== src/Examples/Allocation.antt =====
-- A super block with two zones and two inode numbers taken.
use aufs_enabled.Base.{
  ℕ, ◌+◌, ◌*◌, ◌<◌, ◌≤◌, ltb, Bool, false, Option, some, List, [], ◌∷◌, replicate, ◌≡◌, refl, arith,
  ◌⊎◌,
}
use aufs_enabled.Kernel.{BufferHead, enomem, enospc}
use aufs_enabled.Vfs.{AufsInode, Timespec, no_ops, ok, err, zone_ptr_in_inode_num}
use aufs_enabled.Super.{AufsSuperBlock}
use aufs_enabled.Bitmap.{
  integer_round_up_division, zones_start, blocks_ahead, aufs_new_zone, aufs_new_inode, init_inode,
  zone_result, returned_block,
}
use aufs_enabled.Bitmap.Maps.{IsFull, Takes}
use aufs_enabled.Bitmap.Layout.{IsLaidOut, zone_result-apart, metadata_blocks, Addressable}
use aufs_enabled.Bitmap.Zones.{aufs_new_zone-outcome}
use aufs_enabled.Bitmap.Inodes.{aufs_new_inode-outcome}
use aufs_enabled.Examples.Platform.{bit_ops}

-- The bitmap with the first `n` bits set.
abbrev pub taken : ℕ → ℕ → Bool
taken n k = ltb k n

abbrev pub buffer : (ℕ → Bool) → BufferHead (ℕ → Bool)
buffer bits = record { b_data = bits; dirty = false }

abbrev pub small : (zmap imap : ℕ → Bool) → AufsSuperBlock (ℕ → Bool)
small zmap imap = record {
  asb_magic = 0x13131313;
  asb_inode_blocks = 1;
  asb_zone_size = 8192;
  asb_root_inode = 1;
  asb_inodes_in_block = 64;
  asb_inode_map_blocks = 1;
  asb_zone_map_blocks = 1;
  asb_blocks_per_zone = 2;
  asb_alignment_num_blocks = 4;
  s_zmap = buffer zmap ∷ [];
  s_imap = buffer imap ∷ [];
}

abbrev pub time : Timespec
time = record { tv_sec = 1000; tv_nsec = 0 }

abbrev pub with_ptrs : List ℕ → ℕ → AufsInode
with_ptrs ptrs ino = record {
  ai_zone_ptr = ptrs;
  i_ino = ino;
  i_mode = 0x81a4;
  i_size = 0;
  i_blocks = 0;
  i_uid = 1;
  i_gid = 1;
  i_nlink = 1;
  i_ctime = time;
  i_mtime = time;
  i_atime = time;
  i_op = no_ops;
  dirty = false;
}

abbrev pub no_ptrs : List ℕ
no_ptrs = replicate zone_ptr_in_inode_num 0

abbrev sbi : AufsSuperBlock (ℕ → Bool)
sbi = small (taken 2) (taken 2)

pub small-IsLaidOut : (zmap imap : ℕ → Bool) → IsLaidOut (small zmap imap)
small-IsLaidOut zmap imap = record {
  zone = omega arith;
  alignment = omega arith;
  zone_fits = omega arith;
  alignment_fits = omega arith;
  metadata_fits = omega arith;
}

pub zones_start-small : (zmap imap : ℕ → Bool) → zones_start (small zmap imap) ≡ 8
unfolding zones_start blocks_ahead integer_round_up_division
zones_start-small zmap imap = refl

pub small-Addressable : (n : ℕ) → n < 1 * (8 * 4096) → Addressable sbi n
small-Addressable n h = omega (arith, zones_start-small (taken 2) (taken 2))

aufs_new_zone-outcome_example :
    let r = aufs_new_zone bit_ops 4096 sbi in
    (IsFull bit_ops (8 * 4096) sbi.s_zmap × (r ≡ (sbi, some 0)))
    ⊎ ((n : ℕ) × Takes bit_ops (8 * 4096) sbi.s_zmap r.0.s_zmap n
        × (r ≡ (record sbi { s_zmap = r.0.s_zmap }, returned_block sbi n)))
aufs_new_zone-outcome_example = aufs_new_zone-outcome bit_ops 4096 sbi refl

aufs_new_inode-outcome_example :
    let r = aufs_new_inode bit_ops 4096 sbi (some (with_ptrs no_ptrs 0)) (λ inode. inode) time in
    (aufs_new_inode bit_ops 4096 sbi Option.none (λ inode. inode) time ≡ (sbi, err enomem))
    × ((IsFull bit_ops (8 * 4096) sbi.s_imap × (r ≡ (sbi, err enospc)))
        ⊎ ((n : ℕ) × (0 < n)
            × Takes bit_ops (8 * 4096) sbi.s_imap r.0.s_imap n
            × (r ≡ (
              record sbi { s_imap = r.0.s_imap },
              ok (init_inode (with_ptrs no_ptrs 0) (λ inode. inode) time n),
            ))))
aufs_new_inode-outcome_example =
    aufs_new_inode-outcome bit_ops 4096 sbi refl (omega arith) refl (with_ptrs no_ptrs 0)
      (λ inode. inode) time

zone_result-apart_example :
    (metadata_blocks sbi + 2 ≤ zone_result sbi 0) × (zone_result sbi 0 + 2 ≤ zone_result sbi 2)
zone_result-apart_example =
    zone_result-apart sbi (small-IsLaidOut (taken 2) (taken 2)) 0 2
      (small-Addressable 0 (omega arith)) (small-Addressable 2 (omega arith)) (omega arith)
