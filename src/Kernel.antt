-- ===== src/Kernel.antt =====
-- What the file system uses of the kernel: error numbers, buffers, and the bit operations, which
-- are a parameter with their documented behaviour.
use aufs_enabled.Base.{ℕ, ◌+◌, ◌-◌, ◌*◌, ◌/◌, ◌^◌, ◌<◌, ◌≡◌, Bool, true, false, ◌==◌, if◌then◌else◌}

-- The error numbers that the functions return, negated.
pub data Errno : Type 0 where
  enomem enospc eio einval eexist enametoolong : Errno

-- A buffer of the block device with what it holds.
pub record BufferHead {ℓ} (B : Type ℓ) : Type ℓ where
  pub b_data : B
  pub dirty : Bool

-- `find_first_zero_bit_le`, `__set_bit_le` and `test_bit_le`, to which kern/minix.h maps its macros.
pub record BitOps : Type 1 where
  pub Bits : Type 0
  pub find_first_zero_bit : Bits → ℕ → ℕ
  pub set_bit : ℕ → Bits → Bits
  pub test_bit : ℕ → Bits → Bool
  pub test_bit-set_bit :
      (m n : ℕ) (b : Bits) → test_bit n (set_bit m b) ≡ (if n == m then true else test_bit n b)
  pub find_first_zero_bit-clear :
      (b : Bits) (size : ℕ)
      → find_first_zero_bit b size < size
      → test_bit (find_first_zero_bit b size) b ≡ false
  pub find_first_zero_bit-below :
      (b : Bits) (size k : ℕ) → k < find_first_zero_bit b size → test_bit k b ≡ true

-- The conversions of <linux/byteorder>, and the `htonl` of the C library, on words in range.
pub record ByteOrder : Type 0 where
  pub cpu_to_be32 : ℕ → ℕ
  pub be32_to_cpu : ℕ → ℕ
  pub cpu_to_be64 : ℕ → ℕ
  pub be64_to_cpu : ℕ → ℕ
  pub htonl : ℕ → ℕ
  pub be32_to_cpu-cpu_to_be32 : (x : ℕ) → x < 2 ^ 32 → be32_to_cpu (cpu_to_be32 x) ≡ x
  pub be32_to_cpu-htonl : (x : ℕ) → x < 2 ^ 32 → be32_to_cpu (htonl x) ≡ x
  pub be64_to_cpu-cpu_to_be64 : (x : ℕ) → x < 2 ^ 64 → be64_to_cpu (cpu_to_be64 x) ≡ x

-- `fs_high2lowuid` and `fs_high2lowgid`, which keep an id that fits 16 bits.
pub record LowIds : Type 0 where
  pub fs_high2lowuid : ℕ → ℕ
  pub fs_high2lowgid : ℕ → ℕ
  pub fs_high2lowuid-small : (u : ℕ) → u < 2 ^ 16 → fs_high2lowuid u ≡ u
  pub fs_high2lowgid-small : (g : ℕ) → g < 2 ^ 16 → fs_high2lowgid g ≡ g

-- The page cache's page, of whole directory entries, with `dir_pages` and `ALIGN(pos, 64)`.
pub record Paging : Type 0 where
  pub slots : ℕ
  pub page_size : ℕ
  pub dir_pages : ℕ → ℕ
  pub align64 : ℕ → ℕ
  pub some_slots : 0 < slots
  pub page_size_lem : page_size ≡ slots * 64
  pub dir_pages_lem : (size : ℕ) → dir_pages size ≡ (size + page_size - 1) / page_size
  pub align64_lem : (pos : ℕ) → align64 pos ≡ (pos + 63) / 64 * 64
