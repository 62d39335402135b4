-- ===== src/Bitmap/Zones.antt =====
-- `aufs_new_zone` hands out the lowest free zone, or none.
use aufs_enabled.Base.{
  Option, some, ◌==◌, false, ℕ, zero, suc, ◌+◌, ◌*◌, ◌<◌, true, List, [], ◌∷◌, ltb-cases, length,
  ◌≡◌, ◌∙◌, ◌⊎◌, inl, inr, refl, ap, arith,
}
use aufs_enabled.Kernel.{BufferHead, BitOps}
use aufs_enabled.Super.{AufsSuperBlock}
use aufs_enabled.Bitmap.{zone_loop, aufs_new_zone, zone_result, returned_block}
use aufs_enabled.Bitmap.Maps.{Takes, IsFull, Takes-here, Takes-later, IsFull-cons}

module _ (ops : BitOps) where
  open ops use {Bits, find_first_zero_bit, find_first_zero_bit-clear, find_first_zero_bit-below}

  -- The map is full and nothing changes, or its lowest clear bit is set and its block returned.
  abbrev pub ZoneOutcome :
      (bits_per_block : ℕ)
      → AufsSuperBlock Bits
      → (first : ℕ) → (maps maps' : List (BufferHead Bits)) → Option ℕ
      → Type 0
  ZoneOutcome bits_per_block sbi first maps maps' block =
      (IsFull ops bits_per_block maps × (maps' ≡ maps) × (block ≡ some 0))
      ⊎ ((n : ℕ) × Takes ops bits_per_block maps maps' n × (block ≡ returned_block sbi (n + first)))

  module _ (sbi : AufsSuperBlock Bits) (bits_per_block : ℕ) where
    -- A block whose bits are all set puts off what the rest of the map does.
    ZoneOutcome-cons :
        (bh : BufferHead Bits) (rest rest' : List (BufferHead Bits)) (i : ℕ) (block : Option ℕ)
        → ((k : ℕ) → k < bits_per_block → ops.test_bit k bh.b_data ≡ true)
        → ZoneOutcome bits_per_block sbi (suc i * bits_per_block) rest rest' block
        → ZoneOutcome bits_per_block sbi (i * bits_per_block) (bh ∷ rest) (bh ∷ rest') block
    ZoneOutcome-cons bh rest rest' i block full (inl (h, same, zero_left)) =
        inl (IsFull-cons ops bits_per_block bh rest full h, ap (◌∷◌ bh) same, zero_left)
    ZoneOutcome-cons bh rest rest' i block full (inr (n, takes, e)) = inr (
      n + bits_per_block,
      Takes-later ops bits_per_block bh rest full rest' n takes,
      e ∙ ap (returned_block sbi) (omega arith),
    )

    zone_loop-outcome :
        (left i : ℕ) (bufs : List (BufferHead Bits))
        → length bufs ≡ left
        → let r = zone_loop ops sbi bits_per_block left i bufs in
          ZoneOutcome bits_per_block sbi (i * bits_per_block) bufs r.0 r.1
    unfolding zone_loop
    zone_loop-outcome zero i [] e = inl (λ k. refl, refl, refl)
    zone_loop-outcome zero i (bh ∷ rest) e = absurd (omega arith)
    zone_loop-outcome (suc left) i [] e = absurd (omega arith)
    zone_loop-outcome (suc left) i (bh ∷ rest) e =
        let j = find_first_zero_bit bh.b_data bits_per_block in
        elim (ltb-cases j bits_per_block) [
          | inl (t, h) ↦ rw t (
              inr (
                j,
                Takes-here ops bits_per_block bh rest j h
                    (find_first_zero_bit-clear bh.b_data bits_per_block h)
                    (find_first_zero_bit-below bh.b_data bits_per_block),
                refl,
              ))
          | inr (t, h) ↦ rw t (
              ZoneOutcome-cons bh rest _ i _
                (λ k p. find_first_zero_bit-below bh.b_data bits_per_block k (omega arith))
                (zone_loop-outcome left (suc i) rest (omega arith)))
        ]

  -- When the zone map has as many blocks as the super block says: either every bit of the map is set,
  -- `aufs_new_zone` changes nothing and returns 0, or it sets the lowest clear bit `n`, changes
  -- nothing else and returns the block of zone `n`, or traps, if the alignment is 0 and the number of
  -- the bit is not negative as an `int`.
  pub aufs_new_zone-outcome :
      (s_blocksize : ℕ) (sbi : AufsSuperBlock Bits)
      → length sbi.s_zmap ≡ sbi.asb_zone_map_blocks
      → let r = aufs_new_zone ops s_blocksize sbi in
        (IsFull ops (8 * s_blocksize) sbi.s_zmap × (r ≡ (sbi, some 0)))
        ⊎ ((n : ℕ) × Takes ops (8 * s_blocksize) sbi.s_zmap r.0.s_zmap n
            × (r ≡ (record sbi { s_zmap = r.0.s_zmap }, returned_block sbi n)))
  unfolding aufs_new_zone
  aufs_new_zone-outcome s_blocksize sbi e =
      elim (zone_loop-outcome sbi (8 * s_blocksize) sbi.asb_zone_map_blocks 0 sbi.s_zmap e) [
        | inl (full, same, zero_left) ↦
            inl (full, λ i. (record sbi { s_zmap = same i }, zero_left i))
        | inr (n, takes, block) ↦ inr (
          n,
          takes,
          λ i. (
            record sbi { s_zmap = (aufs_new_zone ops s_blocksize sbi).0.s_zmap },
            (block ∙ ap (returned_block sbi) {y = n} (omega arith)) i,
          ),
        )
      ]

  pub aufs_new_zone-keeps :
      (s_blocksize : ℕ) (sbi : AufsSuperBlock Bits)
      → let sbi' = (aufs_new_zone ops s_blocksize sbi).0 in
        sbi' ≡ record sbi { s_zmap = sbi'.s_zmap }
  unfolding aufs_new_zone
  aufs_new_zone-keeps s_blocksize sbi = refl

module _ {B : Type 0} (sbi : AufsSuperBlock B) where
  -- With an alignment that is not 0 nothing traps.
  pub returned_block-some :
      (n : ℕ) → 0 < sbi.asb_alignment_num_blocks → returned_block sbi n ≡ some (zone_result sbi n)
  unfolding returned_block
  returned_block-some n h =
      let nonzero : (sbi.asb_alignment_num_blocks == 0) ≡ false = ground arith in rw nonzero
