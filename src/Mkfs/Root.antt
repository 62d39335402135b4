-- ===== src/Mkfs/Root.antt =====
-- `Formatter::MkRootDir` and the setters of `Inode` of user/format.cpp, on the raw inode and the first
-- block of the directory that the cache gives. `swab32` and `swab64` are `__cpu_to_be32` and
-- `__cpu_to_be64` of <linux/byteorder/little_endian.h>.
pub mod Read
pub mod Found
use aufs_enabled.Base.{
  ℕ, zero, suc, ◌+◌, ◌-◌, ◌*◌, ◌/◌, ◌^◌, Option, none, some, List, [], ◌∷◌, ◌==◌, if◌then◌else◌,
  u32, get_or, set, length,
}
use aufs_enabled.Vfs.{zone_ptr_in_inode_num}
use aufs_enabled.Dir.{DirEntry, aufs_dir_size}
use aufs_enabled.Inode.Table.{DiskInode}
use aufs_enabled.Mkfs.Config.{Configuration}
use aufs_enabled.Mkfs.Format.{root_block}
use aufs_enabled.Mkfs.Bits.{Bytes}
use aufs_enabled.Mkfs.Maps.{
  Allocation, allocated, terminated, running, allocate_inode, allocate_zones,
}

-- The loop of `ClearAllOtherZones` from index `i`, with `left` rounds to go.
unfoldable pub clear_zones : (swab32 : ℕ → ℕ) (left i : ℕ) → List ℕ → List ℕ
clear_zones swab32 zero i ptrs = ptrs
clear_zones swab32 (suc left) i ptrs = clear_zones swab32 left (suc i) (set ptrs i (swab32 0))

-- `strcpy` of a string and the zero behind it over bytes.
unfoldable pub strcpy : (to string : List ℕ) → List ℕ
strcpy [] string = []
strcpy (b ∷ to) [] = 0 ∷ to
strcpy (b ∷ to) (c ∷ string) = c ∷ strcpy to string

-- The zones that the directory needs, `num_blocks`.
unfoldable pub root_zones : Configuration → ℕ
root_zones config = u32 (2 * aufs_dir_size + config.zone_size + 2 ^ 32 - 1) / config.zone_size

-- The setters of `Inode`.
module _ (swab32 : ℕ → ℕ) where
  unfoldable pub set_first_block : (block : ℕ) → DiskInode → DiskInode
  set_first_block block raw = record raw { di_zone_ptr = set raw.di_zone_ptr 0 (swab32 block) }

  unfoldable pub clear_all_other_zones : DiskInode → DiskInode
  unfolding clear_zones
  clear_all_other_zones raw = record raw {
    di_zone_ptr = clear_zones swab32 (zone_ptr_in_inode_num - 1) 1 raw.di_zone_ptr;
  }

  unfoldable pub set_blocks_count : (count : ℕ) → DiskInode → DiskInode
  set_blocks_count count raw = record raw { di_blocks = swab32 count }

  unfoldable pub set_size : (size : ℕ) → DiskInode → DiskInode
  set_size size raw = record raw { di_size = swab32 size }

  unfoldable pub set_uid : (uid : ℕ) → DiskInode → DiskInode
  set_uid uid raw = record raw { di_uid = swab32 uid }

  unfoldable pub set_gid : (gid : ℕ) → DiskInode → DiskInode
  set_gid gid raw = record raw { di_gid = swab32 gid }

  unfoldable pub set_mode : (mode : ℕ) → DiskInode → DiskInode
  set_mode mode raw = record raw { di_mode = swab32 mode }

unfoldable pub set_create_time : (swab64 : ℕ → ℕ) → (time : ℕ) → DiskInode → DiskInode
set_create_time swab64 time raw = record raw { di_ctime = swab64 time }

-- What `MkRootDir` does with the raw inode; `S_IFDIR + 0755` is 0x41ed.
unfoldable pub root_inode :
    (swab32 swab64 : ℕ → ℕ) → Configuration → (uid gid time : ℕ) → DiskInode → DiskInode
root_inode swab32 swab64 config uid gid time raw =
    let placed = clear_all_other_zones swab32 (set_first_block swab32 (root_block config) raw) in
    let sized =
      set_size swab32 (2 * aufs_dir_size) (set_blocks_count swab32 (root_zones config) placed) in
    let owned = set_gid swab32 gid (set_uid swab32 uid sized) in
    set_create_time swab64 time (set_mode swab32 0x41ed owned)

-- One entry of the root directory written over an old one.
unfoldable pub root_entry : (htonl : ℕ → ℕ) → (ino : ℕ) → (name : List ℕ) → DirEntry → DirEntry
unfolding strcpy
root_entry htonl ino name old = record {
  dde_inode = htonl ino;
  dde_name = strcpy old.dde_name name;
}

-- The three entries: ".", ".." and ".badblocks".
unfoldable pub root_content : (htonl : ℕ → ℕ) → List DirEntry → List DirEntry
unfolding root_entry
root_content htonl (d ∷ dd ∷ bad ∷ des) =
    root_entry htonl 1 (46 ∷ []) d
    ∷ root_entry htonl 1 (46 ∷ 46 ∷ []) dd
    ∷ root_entry htonl 2 (46 ∷ 98 ∷ 97 ∷ 100 ∷ 98 ∷ 108 ∷ 111 ∷ 99 ∷ 107 ∷ 115 ∷ []) bad
    ∷ des
root_content htonl des = des

-- What `MkRootDir` leaves: both maps, the raw inode of number 1 and the block of the directory.
pub record RootDir : Type 0 where
  pub inode_map : Bytes
  pub zone_map : Bytes
  pub raw : DiskInode
  pub content : List DirEntry

-- `MkRootDir`; `none` where an allocation fails, does not end, or is not the number 1 that `assert`
-- wants.
unfoldable pub mk_root_dir :
    (swab32 swab64 htonl : ℕ → ℕ) (fuel : ℕ) (config : Configuration) (inode_base zone_base : ℕ)
    (uid gid time : ℕ)
    → RootDir
    → Option RootDir
unfolding root_inode root_content root_zones
mk_root_dir swab32 swab64 htonl fuel config inode_base zone_base uid gid time old =
    elim (allocate_inode config inode_base old.inode_map) [
      | terminated ↦ none
      | running ↦ none
      | allocated ino inode_map ↦
          elim (allocate_zones fuel config zone_base (root_zones config) old.zone_map) [
            | terminated ↦ none
            | running ↦ none
            | allocated zone zone_map ↦
                if ino == 1
                then if zone == 1
                  then some (record {
                    inode_map = inode_map;
                    zone_map = zone_map;
                    raw = root_inode swab32 swab64 config uid gid time old.raw;
                    content = root_content htonl old.content;
                  })
                  else none
                else none
          ]
    ]
