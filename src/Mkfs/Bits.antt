-- ===== src/Mkfs/Bits.antt =====
-- user/bit_iterator.hpp: references to bits and iterators over them. Memory is the byte at each
-- address; a `ptrdiff_t` is its bit pattern of 64 bits. `BitConstIterator` has the same operations,
-- and reads only.
pub mod Memory
pub mod Position
use Prim.Native.Nat.{bit_and, bit_or, bit_xor}
use aufs_enabled.Base.{
  ℕ, ◌+◌, ◌-◌, ◌*◌, ◌/◌, ◌%◌, ◌^◌, Bool, true, false, not, ◌&&◌, ◌||◌, ltb, ◌==◌, if◌then◌else◌,
  u64,
}

-- `Bits`.
abbrev pub bits : ℕ
bits = 8

abbrev pub Bytes : Type 0
Bytes = ℕ → ℕ

pub record BitReference : Type 0 where
  pub m_word : ℕ
  pub m_mask : ℕ

-- `operator bool`.
unfoldable pub is_set : Bytes → BitReference → Bool
is_set mem r = not (bit_and (mem r.m_word) r.m_mask == 0)

-- `operator=(bool)`. Of `~m_mask` only the lowest byte counts.
unfoldable pub assign : Bytes → BitReference → Bool → Bytes
assign mem r v a =
    if a == r.m_word
    then if v then bit_or (mem a) r.m_mask else bit_and (mem a) (255 - r.m_mask)
    else mem a

unfoldable pub flip : Bytes → BitReference → Bytes
flip mem r a = if a == r.m_word then bit_xor (mem a) r.m_mask else mem a

-- `BitIteratorBase`.
pub record BitIterator : Type 0 where
  pub m_data : ℕ
  pub m_offset : ℕ

unfoldable pub increment : BitIterator → BitIterator
increment it =
    if it.m_offset == bits - 1
    then record { m_data = u64 (it.m_data + 1); m_offset = 0 }
    else record it { m_offset = u64 (it.m_offset + 1) }

unfoldable pub decrement : BitIterator → BitIterator
decrement it =
    if it.m_offset == 0
    then record { m_data = u64 (it.m_data + 2 ^ 64 - 1); m_offset = bits - 1 }
    else record it { m_offset = it.m_offset - 1 }

-- The sign of a `ptrdiff_t`.
abbrev pub is_negative64 : ℕ → Bool
is_negative64 n = ltb (2 ^ 63 - 1) n

-- `advance`. `Bits` is unsigned, so `n` is divided as a `size_t`.
unfoldable pub advance : BitIterator → ℕ → BitIterator
advance it d =
    let n = u64 (it.m_offset + d) in
    let moved = u64 (it.m_data + n / bits) in
    let rest = n % bits in
    if is_negative64 rest
    then record { m_data = u64 (moved + 2 ^ 64 - 1); m_offset = u64 (rest + bits) }
    else record { m_data = moved; m_offset = rest }

-- `operator-=`, and the iterator `it - d`.
unfoldable pub retreat : BitIterator → ℕ → BitIterator
unfolding advance
retreat it d = advance it (u64 (2 ^ 64 - d))

-- `operator-` of two iterators.
unfoldable pub difference : (l r : BitIterator) → ℕ
difference l r =
    u64 (u64 (bits * u64 (l.m_data + 2 ^ 64 - r.m_data)) + l.m_offset + 2 ^ 64 - r.m_offset)

unfoldable pub equal : (l r : BitIterator) → Bool
equal l r = l.m_data == r.m_data && l.m_offset == r.m_offset

unfoldable pub less : (l r : BitIterator) → Bool
less l r = ltb l.m_data r.m_data || (l.m_data == r.m_data && ltb l.m_offset r.m_offset)

-- `operator*`; `1ul << m_offset` is cut to a byte.
unfoldable pub deref : BitIterator → BitReference
deref it = record { m_word = it.m_data; m_mask = 2 ^ it.m_offset % 2 ^ 8 }

-- `operator[]`.
unfoldable pub subscript : BitIterator → ℕ → BitReference
unfolding deref advance
subscript it d = deref (advance it d)
