-- ===== src/Mkfs/Raw/Written.antt =====
-- What the kernel reads of a block of the inode table in which `MkRootDir` has stored an inode.
use aufs_enabled.Base.{
  ℕ, zero, suc, ◌+◌, ◌*◌, ◌/◌, ◌%◌, ◌^◌, ◌<◌, ◌≤◌, ◌≡◌, ◌⊎◌, ◌∙◌, refl, sym, ap, ap₂, List, ◌∷◌,
  set, u32, u64, arith,
}
use aufs_enabled.Super.{sizeof_disk_inode}
use aufs_enabled.Inode.Table.{DiskInode}
use aufs_enabled.Mkfs.Bits.{Bytes}
use aufs_enabled.Mkfs.Config.{Configuration, block_size}
use aufs_enabled.Mkfs.Format.{inode_offset}
use aufs_enabled.Mkfs.Root.{root_inode}
use aufs_enabled.Mkfs.Raw.{Words, disk_inode, disk_inodes, store_root_inode}
use aufs_enabled.Mkfs.Raw.Fields.{disk_inode_local}
use aufs_enabled.Mkfs.Raw.Stored.{disk_inode-store_root_inode, store_root_inode-outside}

u32-small : (x : ℕ) → x < 2 ^ 32 → u32 x ≡ x
u32-small x small = omega arith

u64-small : (x : ℕ) → x < 2 ^ 64 → u64 x ≡ x
u64-small x small = omega arith

module _ (words : Words) (m m' : Bytes) where
  disk_inodes_local :
      (base n : ℕ)
      → ((a : ℕ) → base ≤ a → m' a ≡ m a)
      → disk_inodes words m' base n ≡ disk_inodes words m base n
  unfolding disk_inodes
  disk_inodes_local base zero same = refl
  disk_inodes_local base (suc n) same =
      ap₂ (λ (x : DiskInode) (xs : List DiskInode). x ∷ xs)
        (disk_inode_local words m m' base (λ a low _. same a low))
        (disk_inodes_local (base + 64) n (λ a low. same a (omega (arith, low))))

  -- A block of the table with other bytes in one inode only.
  disk_inodes-set :
      (base n k : ℕ) (inode : DiskInode)
      → ((a : ℕ) → (a < base + 64 * k) ⊎ (base + 64 * k + 64 ≤ a) → m' a ≡ m a)
      → disk_inode words m' (base + 64 * k) ≡ inode
      → disk_inodes words m' base n ≡ set (disk_inodes words m base n) k inode
  unfolding disk_inodes
  disk_inodes-set base zero k inode same new = refl
  disk_inodes-set base (suc n) zero inode same new =
      let at : base + 64 * 0 ≡ base = omega arith in
      ap₂ (λ (x : DiskInode) (xs : List DiskInode). x ∷ xs) (rw at at new)
        (disk_inodes_local (base + 64) n (λ a low. same a (omega (arith, low))))
  disk_inodes-set base (suc n) (suc k) inode same new =
      let at : base + 64 * suc k ≡ base + 64 + 64 * k = omega arith in
      ap₂ (λ (x : DiskInode) (xs : List DiskInode). x ∷ xs)
        (disk_inode_local words m m' base (λ a _ high. same a (omega (arith, high))))
        (disk_inodes-set (base + 64) n k inode (λ a out. same a (omega (arith, out)))
          (rw at at new))

-- The bytes outside of the inode at `ai`.
abbrev pub IsSameOutside : (ai : ℕ) → Bytes → Bytes → Type 0
IsSameOutside ai m m' = (a : ℕ) → (a < ai) ⊎ (ai + 64 ≤ a) → m' a ≡ m a

module _ (words : Words) (swab32 swab64 : ℕ → ℕ) (small32 : (x : ℕ) → swab32 x < 2 ^ 32)
    (small64 : (x : ℕ) → swab64 x < 2 ^ 64) where
  -- The bytes of a block of the inode table at `base`, where `MkRootDir` has stored the root inode at
  -- the offset that `FillInode` gives inode `ino`, read by the layout of kern/aufs.h as `n` raw
  -- inodes: they are as before, but for the one at the index of `ino`, which is what the setters make
  -- of it. No byte outside of this inode has changed. The conversions of the byte order are taken
  -- to give words of their size.
  pub disk_inodes-store_root_inode :
      (config : Configuration) (uid gid time base n ino : ℕ) (m : Bytes)
      → let index = ino % (block_size config / sizeof_disk_inode) in
        let m' =
          store_root_inode words swab32 swab64 config uid gid time
            (base + inode_offset config ino)
            m in
        (disk_inodes words m' base n
          ≡ set (disk_inodes words m base n) index (
              root_inode swab32 swab64 config uid gid time
                (disk_inode words m (base + inode_offset config ino))))
        × IsSameOutside (base + inode_offset config ino) m m'
  unfolding inode_offset
  disk_inodes-store_root_inode config uid gid time base n ino m =
      let ai = base + inode_offset config ino in
      let index = ino % (block_size config / sizeof_disk_inode) in
      let m' = store_root_inode words swab32 swab64 config uid gid time ai m in
      let place : ai ≡ base + 64 * index = omega arith in
      let out = store_root_inode-outside words swab32 swab64 config uid gid time ai m in
      let whole32 : (λ (x : ℕ). u32 (swab32 x)) ≡ swab32 =
        λ i x. u32-small (swab32 x) (small32 x) i in
      let whole64 : (λ (x : ℕ). u64 (swab64 x)) ≡ swab64 =
        λ i x. u64-small (swab64 x) (small64 x) i in
      let new =
        disk_inode-store_root_inode words swab32 swab64 config uid gid time ai m
        ∙ ap₂ (λ (f g : ℕ → ℕ). root_inode f g config uid gid time (disk_inode words m ai)) whole32
            whole64 in
      (
        disk_inodes-set words m m' base n index
            (root_inode swab32 swab64 config uid gid time (disk_inode words m ai))
            (λ a o. out a (omega (arith, place, o))) (ap (disk_inode words m') (sym place) ∙ new),
        out,
      )
