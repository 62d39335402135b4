-- ===== src/Examples/Rooting.antt =====
-- The root directory of the device of `Formatting`, made over zeros by user 7 of group 8 at time 9.
use aufs_enabled.Base.{ℕ, ◌+◌, ◌≢◌, [], ◌∷◌, replicate, ◌≡◌, refl, arith}
use aufs_enabled.Vfs.{AufsInode, ok}
use aufs_enabled.Dir.{DirEntry, Directory, minix_inode_by_name}
use aufs_enabled.Inode.Table.{DiskInode}
use aufs_enabled.Mkfs.Root.{root_content}
use aufs_enabled.Mkfs.Root.Found.{root_content-found}
use aufs_enabled.Examples.Platform.{pages_of_4096}
use aufs_enabled.Examples.Allocation.{with_ptrs}

abbrev pub raw_zeros : DiskInode
raw_zeros = record {
  di_zone_ptr = replicate 9 0;
  di_blocks = 0;
  di_size = 0;
  di_gid = 0;
  di_uid = 0;
  di_mode = 0;
  di_ctime = 0;
}

abbrev pub into : AufsInode
into = with_ptrs (replicate 9 0) 0

abbrev pub zero_entry : DirEntry
zero_entry = record { dde_inode = 0; dde_name = replicate 60 0 }

abbrev pub same : ℕ → ℕ
same x = x

abbrev swapped : ℕ → ℕ
swapped x = x + 0xffffff

swapped_one : swapped 1 ≢ 0
swapped_one e = absurd (omega arith)

abbrev inode : AufsInode
inode = record into { i_size = 128 }

abbrev root : Directory
root = record {
  inode = inode;
  pages = λ n.
      ok (root_content swapped (zero_entry ∷ zero_entry ∷ zero_entry ∷ replicate 61 zero_entry));
}

root_content-found_example :
    (minix_inode_by_name pages_of_4096 1 (46 ∷ []) root ≡ 0x1000000)
    × (minix_inode_by_name pages_of_4096 2 (46 ∷ 46 ∷ []) root ≡ 0x1000000)
root_content-found_example =
    root_content-found pages_of_4096 swapped inode zero_entry zero_entry zero_entry
      (replicate 61 zero_entry) (omega arith) swapped_one (omega arith) (omega arith) refl
