-- ===== src/Mkfs/Bits/Memory.antt =====
-- Writing a bit and reading bits, byte by byte.
use Prim.Native.Nat.{bit_and, bit_or}
use aufs_enabled.Base.{
  ℕ, zero, suc, ◌-◌, ◌^◌, ◌%◌, ◌/◌, ◌<◌, Bool, true, false, not, ◌&&◌, ltb, ◌==◌, ==-cases,
  if◌then◌else◌, ◌≡◌, ◌∙◌, sym, ap, ◌≤◌, ◌+◌, Bool-cases, inl, inr, refl, arith,
}
use aufs_enabled.Mkfs.Bits.{Bytes, BitIterator, is_set, assign, deref}
use aufs_enabled.Mkfs.Bits.Position.{IsBit, position}

-- A test that passes at `rounds` numbers in a row.
passes : (test : ℕ → Bool) (rounds start : ℕ) → Bool
passes test zero start = true
passes test (suc rounds) start = if test start then passes test rounds (suc start) else false

passes_at :
    (test : ℕ → Bool) (rounds start k : ℕ)
    → passes test rounds start ≡ true
    → start ≤ k
    → k < start + rounds
    → test k ≡ true
unfolding passes
passes_at test zero start k run low high = absurd (omega arith)
passes_at test (suc rounds) start k run low high = elim (Bool-cases (test start)) [
  | inl t ↦ elim (==-cases start k) [
    | inl (_, e) ↦ ap test (sym e) ∙ t
    | inr (_, ne) ↦
        passes_at test rounds (suc start) k (rw (passes, t) at run) (omega arith) (omega arith)
  ]
  | inr t ↦ absurd (cc (rw (passes, t) at run))
]

abbrev same : Bool → Bool → Bool
same true b = b
same false b = not b

same_sound : (a b : Bool) → same a b ≡ true → a ≡ b
same_sound true true h = refl
same_sound true false h = cc
same_sound false true h = cc
same_sound false false h = refl

-- Bit `i` of the byte `w`, and the byte with bit `j` set to `v`.
abbrev bit_of : (w i : ℕ) → Bool
bit_of w i = not (bit_and w (2 ^ i % 2 ^ 8) == 0)

abbrev with_bit : (w j : ℕ) → Bool → ℕ
with_bit w j v = if v then bit_or w (2 ^ j % 2 ^ 8) else bit_and w (255 - 2 ^ j % 2 ^ 8)

abbrev byte_law : Bool → (w j i : ℕ) → Bool
byte_law v w j i =
    same (bit_of (with_bit w j v) i) (if i == j then v else bit_of w i) && ltb (with_bit w j v) 256

-- The law for byte `w` and both bits, and for all bytes.
byte_laws : Bool → (w : ℕ) → Bool
byte_laws v w = passes (λ j. passes (byte_law v w j) 8 0) 8 0

byte_laws-true : (v : Bool) → passes (byte_laws v) 256 0 ≡ true
unfolding byte_laws passes
byte_laws-true true = refl
byte_laws-true false = refl

byte_law-true : (v : Bool) (w j i : ℕ) → w < 256 → j < 8 → i < 8 → byte_law v w j i ≡ true
byte_law-true v w j i hw hj hi =
    let one = passes_at (byte_laws v) 256 0 w (byte_laws-true v) (omega arith) (omega arith) in
    let bits_of_one =
      passes_at (λ k. passes (byte_law v w k) 8 0) 8 0 j (unfold byte_laws in one) (omega arith)
        (omega arith) in
    passes_at (byte_law v w j) 8 0 i bits_of_one (omega arith) (omega arith)

bit_of-with_bit :
    (v : Bool) (w j i : ℕ)
    → w < 256
    → j < 8
    → i < 8
    → (bit_of (with_bit w j v) i ≡ (if i == j then v else bit_of w i)) × (with_bit w j v < 256)
bit_of-with_bit v w j i hw hj hi =
    let (fst, snd) = and_true _ _ (byte_law-true v w j i hw hj hi) in
    (same_sound _ _ fst, ltb_true _ _ snd)
  where
    and_true : (a b : Bool) → (a && b) ≡ true → (a ≡ true) × (b ≡ true)
    and_true true b h = (refl, h)
    and_true false b h = cc

    ltb_true : (a b : ℕ) → ltb a b ≡ true → a < b
    ltb_true a b h = ground arith

-- Every address holds a byte.
abbrev pub AreBytes : Bytes → Type 0
AreBytes mem = (a : ℕ) → mem a < 256

-- Bit `k` of memory, counted from address 0.
abbrev pub bit_at : Bytes → ℕ → Bool
bit_at mem k = bit_of (mem (k / 8)) (k % 8)

pub is_set-deref :
    (mem : Bytes) (it : BitIterator) → IsBit it → is_set mem (deref it) ≡ bit_at mem (position it)
unfolding is_set deref
is_set-deref mem it h =
    let word : position it / 8 ≡ it.m_data = omega (arith, h.offset) in
    let off : position it % 8 ≡ it.m_offset = omega (arith, h.offset) in rw (word, off)

pub assign-AreBytes :
    (mem : Bytes) (it : BitIterator) (v : Bool)
    → AreBytes mem
    → IsBit it
    → AreBytes (assign mem (deref it) v)
unfolding assign deref
assign-AreBytes mem it v bytes h a = elim (==-cases a it.m_data) [
  | inl (t, _) ↦ rw t (bit_of-with_bit v (mem a) it.m_offset 0 (bytes a) h.offset (omega arith)).1
  | inr (t, _) ↦ rw t (bytes a)
]

-- In memory that holds bytes: a write through an iterator sets the bit at its position to the value
-- written, and leaves every other bit as it was.
pub assign-bit_at :
    (mem : Bytes) (it : BitIterator) (v : Bool) (k : ℕ)
    → AreBytes mem
    → IsBit it
    → bit_at (assign mem (deref it) v) k ≡ (if k == position it then v else bit_at mem k)
unfolding assign deref
assign-bit_at mem it v k bytes h = elim (==-cases (k / 8) it.m_data) [
  | inl (t, same_byte) ↦
      let law =
        (bit_of-with_bit v (mem (k / 8)) it.m_offset (k % 8) (bytes (k / 8)) h.offset
          (omega arith)).0 in
      let test : (k == position it) ≡ (k % 8 == it.m_offset) = ground (arith, h.offset) in
      rw (t, test) law
  | inr (t, other) ↦
      let test : (k == position it) ≡ false = ground (arith, h.offset) in rw (t, test)
]
