-- ===== src/Mkfs/Raw.antt =====
-- `struct aufs_inode` of user/aufs.hpp with its accessors, and the setters of `Inode` of
-- user/format.cpp, on the bytes of a block in memory.
pub mod Fields
pub mod Stored
pub mod Written
use aufs_enabled.Base.{
  ℕ, zero, suc, ◌+◌, ◌*◌, ◌-◌, ◌^◌, ◌<◌, ◌≤◌, ◌≡◌, ◌⊎◌, List, [], ◌∷◌, u32, u64,
}
use aufs_enabled.Vfs.{zone_ptr_in_inode_num}
use aufs_enabled.Dir.{aufs_dir_size}
use aufs_enabled.Inode.Table.{DiskInode}
use aufs_enabled.Mkfs.Config.{Configuration}
use aufs_enabled.Mkfs.Format.{root_block}
use aufs_enabled.Mkfs.Bits.{Bytes}
use aufs_enabled.Mkfs.Root.{root_zones}

-- How a machine loads and stores a `uint32_t` and a `uint64_t` at an address. A load sees the bytes of
-- the word and a store changes no others.
pub record Words : Type 0 where
  pub load32 : Bytes → ℕ → ℕ
  pub store32 : ℕ → ℕ → Bytes → Bytes
  pub load64 : Bytes → ℕ → ℕ
  pub store64 : ℕ → ℕ → Bytes → Bytes
  pub load32-store32 : (m : Bytes) (p v : ℕ) → load32 (store32 p v m) p ≡ u32 v
  pub load64-store64 : (m : Bytes) (p v : ℕ) → load64 (store64 p v m) p ≡ u64 v
  pub load32_local :
      (m m' : Bytes) (p : ℕ) → ((a : ℕ) → p ≤ a → a < p + 4 → m' a ≡ m a) → load32 m' p ≡ load32 m p
  pub load64_local :
      (m m' : Bytes) (p : ℕ) → ((a : ℕ) → p ≤ a → a < p + 8 → m' a ≡ m a) → load64 m' p ≡ load64 m p
  pub store32_outside : (m : Bytes) (p v a : ℕ) → (a < p) ⊎ (p + 4 ≤ a) → store32 p v m a ≡ m a
  pub store64_outside : (m : Bytes) (p v a : ℕ) → (a < p) ⊎ (p + 8 ≤ a) → store64 p v m a ≡ m a

-- The accessors: where the fields of the `struct aufs_inode` at `ai` are.
abbrev pub ai_zone_ptr : (ai i : ℕ) → ℕ
ai_zone_ptr ai i = ai + 4 * i

abbrev pub ai_zone_ptr_first : (ai : ℕ) → ℕ
ai_zone_ptr_first ai = ai_zone_ptr ai 0

abbrev pub ai_blocks : (ai : ℕ) → ℕ
ai_blocks ai = ai + 36

abbrev pub ai_size : (ai : ℕ) → ℕ
ai_size ai = ai + 40

abbrev pub ai_gid : (ai : ℕ) → ℕ
ai_gid ai = ai + 44

abbrev pub ai_uid : (ai : ℕ) → ℕ
ai_uid ai = ai + 48

abbrev pub ai_mode : (ai : ℕ) → ℕ
ai_mode ai = ai + 52

abbrev pub ai_ctime : (ai : ℕ) → ℕ
ai_ctime ai = ai + 56

module _ (words : Words) where
  open words use {load32, store32, load64, store64}

  -- The zone pointers from index `i` on, and the inode, of the `struct aufs_disk_inode` at `di`, as
  -- kern/aufs.h lays it out.
  unfoldable pub load_ptrs : Bytes → (di left i : ℕ) → List ℕ
  load_ptrs m di zero i = []
  load_ptrs m di (suc left) i = load32 m (di + 4 * i) ∷ load_ptrs m di left (suc i)

  unfoldable pub disk_inode : Bytes → (di : ℕ) → DiskInode
  unfolding load_ptrs
  disk_inode m di = record {
    di_zone_ptr = load_ptrs m di zone_ptr_in_inode_num 0;
    di_blocks = load32 m (di + 36);
    di_size = load32 m (di + 40);
    di_gid = load32 m (di + 44);
    di_uid = load32 m (di + 48);
    di_mode = load32 m (di + 52);
    di_ctime = load64 m (di + 56);
  }

  -- The inodes of a block of the inode table, `n` of them from `base` on.
  unfoldable pub disk_inodes : Bytes → (base n : ℕ) → List DiskInode
  disk_inodes m base zero = []
  disk_inodes m base (suc n) = disk_inode m base ∷ disk_inodes m (base + 64) n

  -- The loop of `ClearAllOtherZones`.
  unfoldable pub store_cleared : (swab32 : ℕ → ℕ) → (ai left i : ℕ) → Bytes → Bytes
  store_cleared swab32 ai zero i m = m
  store_cleared swab32 ai (suc left) i m =
      store_cleared swab32 ai left (suc i) (store32 (ai_zone_ptr ai i) (swab32 0) m)

  -- What `MkRootDir` stores in the raw inode at `ai`, in the order of its calls.
  unfoldable pub store_root_inode :
      (swab32 swab64 : ℕ → ℕ) → Configuration → (uid gid time ai : ℕ) → Bytes → Bytes
  unfolding store_cleared
  store_root_inode swab32 swab64 config uid gid time ai m =
      let first = store32 (ai_zone_ptr_first ai) (swab32 (root_block config)) m in
      let cleared = store_cleared swab32 ai (zone_ptr_in_inode_num - 1) 1 first in
      let counted = store32 (ai_blocks ai) (swab32 (root_zones config)) cleared in
      let sized = store32 (ai_size ai) (swab32 (2 * aufs_dir_size)) counted in
      let owned = store32 (ai_gid ai) (swab32 gid) (store32 (ai_uid ai) (swab32 uid) sized) in
      store64 (ai_ctime ai) (swab64 time) (store32 (ai_mode ai) (swab32 0x41ed) owned)
