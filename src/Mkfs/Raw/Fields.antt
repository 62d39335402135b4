-- ===== src/Mkfs/Raw/Fields.antt =====
-- A store to one field of the raw inode changes this field of what the kernel reads, and no other.
use aufs_enabled.Base.{
  ℕ, zero, suc, ◌+◌, ◌*◌, ◌<◌, ◌≤◌, ◌≡◌, ◌⊎◌, inl, inr, refl, ap₂, List, [], ◌∷◌, u32, arith, ◌==◌,
  ==-cases, if◌then◌else◌,
}
use aufs_enabled.Inode.Table.{DiskInode}
use aufs_enabled.Mkfs.Bits.{Bytes}
use aufs_enabled.Mkfs.Raw.{Words, load_ptrs, disk_inode}

module _ (words : Words) where
  open words use {load32, store32, load64, store64}

  load32_apart :
      (m : Bytes) (p q v : ℕ) → (q + 4 ≤ p) ⊎ (p + 4 ≤ q) → load32 (store32 p v m) q ≡ load32 m q
  load32_apart m p q v apart =
      words.load32_local m (store32 p v m) q
        (λ a low high. words.store32_outside m p v a (omega (arith, apart, low, high)))

  load64_apart :
      (m : Bytes) (p q v : ℕ) → (q + 8 ≤ p) ⊎ (p + 4 ≤ q) → load64 (store32 p v m) q ≡ load64 m q
  load64_apart m p q v apart =
      words.load64_local m (store32 p v m) q
        (λ a low high. words.store32_outside m p v a (omega (arith, apart, low, high)))

  load32_apart64 :
      (m : Bytes) (p q v : ℕ) → (q + 4 ≤ p) ⊎ (p + 8 ≤ q) → load32 (store64 p v m) q ≡ load32 m q
  load32_apart64 m p q v apart =
      words.load32_local m (store64 p v m) q
        (λ a low high. words.store64_outside m p v a (omega (arith, apart, low, high)))

  -- Bytes that agree on the inode are the same inode.
  load_ptrs_local :
      (m m' : Bytes) (di left i : ℕ)
      → ((a : ℕ) → di ≤ a → a < di + 4 * (i + left) → m' a ≡ m a)
      → load_ptrs words m' di left i ≡ load_ptrs words m di left i
  unfolding load_ptrs
  load_ptrs_local m m' di zero i same = refl
  load_ptrs_local m m' di (suc left) i same =
      ap₂ (λ (x : ℕ) (xs : List ℕ). x ∷ xs)
        (words.load32_local m m' (di + 4 * i)
          (λ a low high. same a (omega (arith, low, high)) (omega (arith, low, high))))
        (load_ptrs_local m m' di left (suc i) (λ a low high. same a low (omega (arith, high))))

  pub disk_inode_local :
      (m m' : Bytes) (di : ℕ)
      → ((a : ℕ) → di ≤ a → a < di + 64 → m' a ≡ m a)
      → disk_inode words m' di ≡ disk_inode words m di
  unfolding disk_inode
  disk_inode_local m m' di same =
      let at = λ (o : ℕ) (inside : o + 4 ≤ 64).
        words.load32_local m m' (di + o)
          (λ a low high. same a (omega (arith, low)) (omega (arith, high, inside))) in
      let time =
        words.load64_local m m' (di + 56)
          (λ a low high. same a (omega (arith, low)) (omega (arith, high))) in
      let ptrs = load_ptrs_local m m' di 9 0 (λ a low high. same a low (omega (arith, high))) in
      rw
        (
          ptrs,
          at 36 (omega arith),
          at 40 (omega arith),
          at 44 (omega arith),
          at 48 (omega arith),
          at 52 (omega arith),
          time,
        )
        refl

  -- The words of the inode, and one of them replaced.
  abbrev pub words_at : Bytes → (di : ℕ) → ℕ → ℕ
  words_at m di k = load32 m (di + 4 * k)

  abbrev pub replaced : (ℕ → ℕ) → (j v : ℕ) → ℕ → ℕ
  replaced f j v k = if k == j then v else f k

  abbrev pub inode_of : (ℕ → ℕ) → (time : ℕ) → DiskInode
  inode_of f time = record {
    di_zone_ptr = f 0 ∷ f 1 ∷ f 2 ∷ f 3 ∷ f 4 ∷ f 5 ∷ f 6 ∷ f 7 ∷ f 8 ∷ [];
    di_blocks = f 9;
    di_size = f 10;
    di_gid = f 11;
    di_uid = f 12;
    di_mode = f 13;
    di_ctime = time;
  }

  pub disk_inode_lem :
      (m : Bytes) (di : ℕ) → disk_inode words m di ≡ inode_of (words_at m di) (load64 m (di + 56))
  unfolding disk_inode load_ptrs
  disk_inode_lem m di = refl

  pub words_at-store32 :
      (m : Bytes) (ai j v : ℕ)
      → words_at (store32 (ai + 4 * j) v m) ai ≡ replaced (words_at m ai) j (u32 v)
  words_at-store32 m ai j v =
      let each : (k : ℕ)
          → words_at (store32 (ai + 4 * j) v m) ai k ≡ replaced (words_at m ai) j (u32 v) k =
        λ k. elim (==-cases k j) [
          | inl (t, e) ↦ rw (t, e) (words.load32-store32 m (ai + 4 * j) v)
          | inr (t, ne) ↦ rw t (load32_apart m (ai + 4 * j) (ai + 4 * k) v (omega (arith, ne)))
        ] in
      λ i k. each k i

  pub words_at-store64 :
      (m : Bytes) (ai v k : ℕ) → k < 14 → words_at (store64 (ai + 56) v m) ai k ≡ words_at m ai k
  words_at-store64 m ai v k inside =
      load32_apart64 m (ai + 56) (ai + 4 * k) v (omega (arith, inside))

  pub time-store32 :
      (m : Bytes) (ai j v : ℕ)
      → j < 14
      → load64 (store32 (ai + 4 * j) v m) (ai + 56) ≡ load64 m (ai + 56)
  time-store32 m ai j v inside = load64_apart m (ai + 4 * j) (ai + 56) v (omega (arith, inside))
