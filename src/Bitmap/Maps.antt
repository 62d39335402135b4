-- ===== src/Bitmap/Maps.antt =====
-- A bitmap that is spread over blocks, seen as one sequence of bits.
use aufs_enabled.Base.{
  ℕ, ◌+◌, ◌-◌, ◌<◌, Bool, true, false, List, [], ◌∷◌, ltb, ◌==◌, if◌then◌else◌, length, ◌≡◌, refl,
  arith,
}
use aufs_enabled.Kernel.{BufferHead, BitOps}

module _ (ops : BitOps) (bits_per_block : ℕ) where
  open ops use {Bits, test_bit, set_bit, test_bit-set_bit}

  -- Bit `n` of the map; there is no free bit beyond its end.
  abbrev pub map_bit : List (BufferHead Bits) → ℕ → Bool
  map_bit [] n = true
  map_bit (bh ∷ rest) n =
      if ltb n bits_per_block then test_bit n bh.b_data else map_bit rest (n - bits_per_block)

  -- `maps'` is `maps` with the lowest clear bit, which is `n`, set.
  pub record Takes (maps maps' : List (BufferHead Bits)) (n : ℕ) : Type 0 where
    pub clear : map_bit maps n ≡ false
    pub lowest : (k : ℕ) → k < n → map_bit maps k ≡ true
    pub marked : (k : ℕ) → map_bit maps' k ≡ (if k == n then true else map_bit maps k)
    pub same_length : length maps' ≡ length maps

  -- Every bit is set.
  abbrev pub IsFull : List (BufferHead Bits) → Type 0
  IsFull maps = (k : ℕ) → map_bit maps k ≡ true

  module _ (bh : BufferHead Bits) (rest : List (BufferHead Bits)) where
    pub Takes-here :
        (j : ℕ)
        → j < bits_per_block
        → test_bit j bh.b_data ≡ false
        → ((k : ℕ) → k < j → test_bit k bh.b_data ≡ true)
        → Takes (bh ∷ rest) (record bh { b_data = set_bit j bh.b_data; dirty = true } ∷ rest) j
    Takes-here j h clear below = record {
      clear = ground arith;
      lowest = λ k p. ground (arith, below k);
      marked = λ k. ground (arith, test_bit-set_bit j k bh.b_data);
      same_length = refl;
    }

    module _ (full : (k : ℕ) → k < bits_per_block → test_bit k bh.b_data ≡ true) where
      pub Takes-later :
          (rest' : List (BufferHead Bits)) (n : ℕ)
          → Takes rest rest' n
          → Takes (bh ∷ rest) (bh ∷ rest') (n + bits_per_block)
      Takes-later rest' n t = record {
        clear = ground (arith, t.clear, add_cancel);
        lowest = λ k p. ground (arith, full k, t.lowest (k - bits_per_block));
        marked = λ k. ground (arith, full k, t.marked (k - bits_per_block));
        same_length = omega (arith, t.same_length);
      }
        where
          add_cancel : n + bits_per_block - bits_per_block ≡ n
          add_cancel = omega arith

      pub IsFull-cons : IsFull rest → IsFull (bh ∷ rest)
      IsFull-cons h k = ground (arith, full k, h (k - bits_per_block))
