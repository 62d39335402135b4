-- ===== src/Examples/Stored.antt =====
-- The root inode stored in a block of a little-endian machine.
use aufs_enabled.Base.{
  ℕ, ◌+◌, ◌*◌, ◌/◌, ◌%◌, ◌^◌, ◌<◌, ◌≤◌, ◌==◌, if◌then◌else◌, ◌≡◌, ◌⊎◌, ◌∙◌, refl, set, u32, u64,
  arith,
}
use aufs_enabled.Mkfs.Config.{block_size_of}
use aufs_enabled.Mkfs.Format.{inode_offset}
use aufs_enabled.Mkfs.Bits.{Bytes}
use aufs_enabled.Mkfs.Root.{root_inode}
use aufs_enabled.Mkfs.Raw.{Words, disk_inode, disk_inodes, store_root_inode}
use aufs_enabled.Mkfs.Raw.Written.{IsSameOutside, disk_inodes-store_root_inode}
use aufs_enabled.Examples.Mounting.{config}

-- The half word at `p`, and one stored there.
abbrev half : Bytes → ℕ → ℕ
half m p = m p + 256 * m (p + 1)

abbrev store16 : (p v : ℕ) → Bytes → Bytes
store16 p v m a = if a == p then v % 256 else if a == p + 1 then v / 256 % 256 else m a

half-store16 : (m : Bytes) (p v : ℕ) → half (store16 p v m) p ≡ v % 65536
half-store16 m p v = ground arith

store16-outside : (m : Bytes) (p v a : ℕ) → (a < p) ⊎ (p + 2 ≤ a) → store16 p v m a ≡ m a
store16-outside m p v a out = ground (arith, out)

half-apart : (m : Bytes) (p q v : ℕ) → (q + 2 ≤ p) ⊎ (p + 2 ≤ q) → half (store16 p v m) q ≡ half m q
half-apart m p q v out = ground (arith, out)

abbrev word : Bytes → ℕ → ℕ
word m p = half m p + 65536 * half m (p + 2)

abbrev store_word : (p v : ℕ) → Bytes → Bytes
store_word p v m = store16 p v (store16 (p + 2) (v / 65536) m)

word-store_word : (m : Bytes) (p v : ℕ) → word (store_word p v m) p ≡ u32 v
word-store_word m p v =
    let rest = store16 (p + 2) (v / 65536) m in
    omega (
      arith,
      half-store16 rest p v,
      half-apart rest p (p + 2) v (omega arith),
      half-store16 m (p + 2) (v / 65536),
    )

store_word-outside : (m : Bytes) (p v a : ℕ) → (a < p) ⊎ (p + 4 ≤ a) → store_word p v m a ≡ m a
store_word-outside m p v a out =
    store16-outside (store16 (p + 2) (v / 65536) m) p v a (omega (arith, out))
    ∙ store16-outside m (p + 2) (v / 65536) a (omega (arith, out))

half-same : (m m' : Bytes) (p : ℕ) → m' p ≡ m p → m' (p + 1) ≡ m (p + 1) → half m' p ≡ half m p
half-same m m' p low high = rw (low, high) refl

word-same :
    (m m' : Bytes) (p : ℕ) → ((a : ℕ) → p ≤ a → a < p + 4 → m' a ≡ m a) → word m' p ≡ word m p
word-same m m' p same =
    let low =
      half-same m m' p (same p (omega arith) (omega arith))
        (same (p + 1) (omega arith) (omega arith)) in
    let high =
      half-same m m' (p + 2) (same (p + 2) (omega arith) (omega arith))
        (same (p + 2 + 1) (omega arith) (omega arith)) in
    omega (arith, low, high)

abbrev store_long : (p v : ℕ) → Bytes → Bytes
store_long p v m = store_word p v (store_word (p + 4) (v / 2 ^ 32) m)

long-store_long :
    (m : Bytes) (p v : ℕ)
    → word (store_long p v m) p + 2 ^ 32 * word (store_long p v m) (p + 4) ≡ u64 v
long-store_long m p v =
    let rest = store_word (p + 4) (v / 2 ^ 32) m in
    let above =
      word-same rest (store_word p v rest) (p + 4)
        (λ a low high. store_word-outside rest p v a (omega (arith, low))) in
    omega (arith, word-store_word rest p v, above, word-store_word m (p + 4) (v / 2 ^ 32))

abbrev little : Words
little = record {
  load32 = word;
  store32 = store_word;
  load64 = λ m p. word m p + 2 ^ 32 * word m (p + 4);
  store64 = store_long;
  load32-store32 = word-store_word;
  load64-store64 = long-store_long;
  load32_local = word-same;
  load64_local = λ m m' p same. omega (
    arith,
    word-same m m' p (λ a low high. same a low (omega (arith, high))),
    word-same m m' (p + 4) (λ a low high. same a (omega (arith, low)) (omega (arith, high))),
  );
  store32_outside = store_word-outside;
  store64_outside = λ m p v a out.
      store_word-outside (store_word (p + 4) (v / 2 ^ 32) m) p v a (omega (arith, out))
      ∙ store_word-outside m (p + 4) (v / 2 ^ 32) a (omega (arith, out));
}

-- The bytes of a word, and of a long word, in the other order.
abbrev swap32 : ℕ → ℕ
swap32 x =
    16777216 * (x % 256) + 65536 * (x / 256 % 256) + 256 * (x / 65536 % 256) + x / 16777216 % 256

abbrev swap64 : ℕ → ℕ
swap64 x = 2 ^ 32 * swap32 (x % 2 ^ 32) + swap32 (x / 2 ^ 32)

abbrev blank : Bytes
blank a = 7

disk_inodes-store_root_inode_example :
    (disk_inodes little
        (store_root_inode little swap32 swap64 (config 8192) 0 0 99 (8192 + 64) blank)
        8192
        64
      ≡ set
          (disk_inodes little blank 8192 64)
          1
          (root_inode swap32 swap64 (config 8192) 0 0 99 (disk_inode little blank (8192 + 64))))
    × IsSameOutside
        (8192 + 64)
        blank
        (store_root_inode little swap32 swap64 (config 8192) 0 0 99 (8192 + 64) blank)
unfolding inode_offset block_size_of
disk_inodes-store_root_inode_example =
    disk_inodes-store_root_inode little swap32 swap64 (λ x. omega arith) (λ x. omega arith)
      (config 8192) 0 0 99 8192 64 1 blank
