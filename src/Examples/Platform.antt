-- ===== src/Examples/Platform.antt =====
-- A big-endian machine with pages of 4096 bytes, and bitmaps as functions.
use aufs_enabled.Base.{
  ℕ, zero, suc, ◌+◌, ◌<◌, ◌==◌, Bool, true, false, if◌then◌else◌, ◌≡◌, refl, arith, Bool-cases, inl,
  inr, ◌/◌, ◌*◌, ◌-◌,
}
use aufs_enabled.Kernel.{BitOps, ByteOrder, LowIds, Paging}

abbrev pub first_zero : (ℕ → Bool) → ℕ → ℕ
first_zero b zero = 0
first_zero b (suc n) = elim (b 0) [ true ↦ suc (first_zero (λ k. b (suc k)) n) | false ↦ 0 ]

pub first_zero-clear :
    (b : ℕ → Bool) (size : ℕ) → first_zero b size < size → b (first_zero b size) ≡ false
first_zero-clear b zero h = absurd (omega arith)
first_zero-clear b (suc n) h = elim (Bool-cases (b 0)) [
  | inl t ↦
      let rest : first_zero (λ k. b (suc k)) n < n = omega (arith, rw (first_zero, t) at h) in
      rw (first_zero, t) (first_zero-clear (λ k. b (suc k)) n rest)
  | inr t ↦ rw (first_zero, t) t
]

pub first_zero-below : (b : ℕ → Bool) (size k : ℕ) → k < first_zero b size → b k ≡ true
first_zero-below b zero k h = absurd (omega arith)
first_zero-below b (suc n) zero h = ground arith
first_zero-below b (suc n) (suc k) h = ground (arith, first_zero-below (λ j. b (suc j)) n k)

abbrev pub bit_ops : BitOps
bit_ops = record {
  Bits = ℕ → Bool;
  find_first_zero_bit = first_zero;
  set_bit = λ m b n. if n == m then true else b n;
  test_bit = λ n b. b n;
  test_bit-set_bit = λ m n b. refl;
  find_first_zero_bit-clear = first_zero-clear;
  find_first_zero_bit-below = first_zero-below;
}

abbrev pub big_endian : ByteOrder
big_endian = record {
  cpu_to_be32 = λ x. x;
  be32_to_cpu = λ x. x;
  cpu_to_be64 = λ x. x;
  be64_to_cpu = λ x. x;
  htonl = λ x. x;
  be32_to_cpu-cpu_to_be32 = λ x h. refl;
  be32_to_cpu-htonl = λ x h. refl;
  be64_to_cpu-cpu_to_be64 = λ x h. refl;
}

abbrev pub low_ids : LowIds
low_ids = record {
  fs_high2lowuid = λ u. u;
  fs_high2lowgid = λ g. g;
  fs_high2lowuid-small = λ u h. refl;
  fs_high2lowgid-small = λ g h. refl;
}

pub positive : 0 < 64
positive = omega arith

abbrev pub pages_of_4096 : Paging
pages_of_4096 = record {
  slots = 64;
  page_size = 4096;
  dir_pages = λ size. (size + 4096 - 1) / 4096;
  align64 = λ pos. (pos + 63) / 64 * 64;
  some_slots = positive;
  page_size_lem = refl;
  dir_pages_lem = λ size. refl;
  align64_lem = λ pos. refl;
}
