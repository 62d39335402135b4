-- ===== src/Bitmap/Inodes.antt =====
-- `aufs_new_inode` hands out the lowest free inode number, or fails and changes nothing.
use aufs_enabled.Base.{
  ℕ, zero, suc, ◌+◌, ◌*◌, ◌^◌, ◌<◌, ◌≤◌, true, false, Option, none, some, List, [], ◌∷◌, ltb-cases,
  ◌==◌, u32, u64, int_to_ulong, length, get_elem?, get_elem?-lt, set, ◌≡◌, ◌∙◌, ◌⊎◌, inl, inr, refl,
  ap, subst, arith,
}
use aufs_enabled.Kernel.{BufferHead, BitOps, enospc, enomem}
use aufs_enabled.Vfs.{AufsInode, Timespec, Outcome, ok, err}
use aufs_enabled.Super.{AufsSuperBlock}
use aufs_enabled.Bitmap.{inode_loop, mark_inode, init_inode, aufs_new_inode}
use aufs_enabled.Bitmap.Maps.{map_bit, Takes, IsFull, Takes-here, Takes-later, IsFull-cons}

module _ (ops : BitOps) (bits_per_block : ℕ) where
  open ops use {
    Bits, find_first_zero_bit, set_bit, test_bit, find_first_zero_bit-clear,
    find_first_zero_bit-below,
  }

  abbrev marked : BufferHead Bits → ℕ → BufferHead Bits
  marked bh j = record { b_data = set_bit j bh.b_data; dirty = true }

  -- Bit `j` of block `d` is the lowest clear one.
  record Finds (bufs : List (BufferHead Bits)) (d j : ℕ) : Type 0 where
    bh : BufferHead Bits
    there : get_elem? bufs d ≡ some bh
    clear : test_bit j bh.b_data ≡ false
    inside : j < bits_per_block
    takes : Takes ops bits_per_block bufs (set bufs d (marked bh j)) (j + d * bits_per_block)

  abbrev Search : (i : ℕ) → List (BufferHead Bits) → Option (ℕ × ℕ) → Type 0
  Search i bufs r =
      (IsFull ops bits_per_block bufs × (r ≡ none))
      ⊎ ((d : ℕ) × (j : ℕ) × Finds bufs d j × (r ≡ some (i + d, j)))

  Search-cons :
      (bh : BufferHead Bits) (rest : List (BufferHead Bits)) (i : ℕ) (r : Option (ℕ × ℕ))
      → ((k : ℕ) → k < bits_per_block → test_bit k bh.b_data ≡ true)
      → Search (suc i) rest r
      → Search i (bh ∷ rest) r
  Search-cons bh rest i r full (inl (h, e)) = inl (IsFull-cons ops bits_per_block bh rest full h, e)
  Search-cons bh rest i r full (inr (d, j, f, e)) =
      let place : j + d * bits_per_block + bits_per_block ≡ j + suc d * bits_per_block =
        omega arith in
      inr (
        suc d,
        j,
        record {
          bh = f.bh;
          there = f.there;
          clear = f.clear;
          inside = f.inside;
          takes = rw (← place) (Takes-later ops bits_per_block bh rest full _ _ f.takes);
        },
        e ∙ ap (λ (k : ℕ). some (k, j)) {y = i + suc d} (omega arith),
      )

  inode_loop-Search :
      (left i : ℕ) (bufs : List (BufferHead Bits))
      → length bufs ≡ left
      → Search i bufs (inode_loop ops bits_per_block left i bufs)
  unfolding inode_loop
  inode_loop-Search zero i [] e = inl (λ k. refl, refl)
  inode_loop-Search zero i (bh ∷ rest) e = absurd (omega arith)
  inode_loop-Search (suc left) i [] e = absurd (omega arith)
  inode_loop-Search (suc left) i (bh ∷ rest) e =
      let j = find_first_zero_bit bh.b_data bits_per_block in
      elim (ltb-cases j bits_per_block) [
        | inl (t, h) ↦
            let here : j ≡ j + 0 * bits_per_block = omega arith in
            rw t (
              inr (
                0,
                j,
                record {
                  bh = bh;
                  there = refl;
                  clear = find_first_zero_bit-clear bh.b_data bits_per_block h;
                  inside = h;
                  takes = subst (Takes ops bits_per_block (bh ∷ rest) (marked bh j ∷ rest)) here (
                      Takes-here ops bits_per_block bh rest j h
                        (find_first_zero_bit-clear bh.b_data bits_per_block h)
                        (find_first_zero_bit-below bh.b_data bits_per_block));
                },
                ap (λ (k : ℕ). some (k, j)) {x = i} {y = i + 0} (omega arith),
              ))
        | inr (t, h) ↦ rw t (
            Search-cons bh rest i _
              (λ k p. find_first_zero_bit-below bh.b_data bits_per_block k (omega arith))
              (inode_loop-Search left (suc i) rest (omega arith)))
      ]

module _ (ops : BitOps) (s_blocksize : ℕ) (sbi : AufsSuperBlock ops.Bits)
    (whole : length sbi.s_imap ≡ sbi.asb_inode_map_blocks)
    (fits : sbi.asb_inode_map_blocks * (8 * s_blocksize) < 2 ^ 31)
    (reserved : map_bit ops (8 * s_blocksize) sbi.s_imap 0 ≡ true) (inode : AufsInode)
    (init_owner : AufsInode → AufsInode) (now : Timespec) where
  abbrev result : AufsSuperBlock ops.Bits × Outcome AufsInode
  result = aufs_new_inode ops s_blocksize sbi (some inode) init_owner now

  abbrev Created : AufsSuperBlock ops.Bits × Outcome AufsInode → Type 0
  Created r =
      (n : ℕ) × (0 < n)
      × Takes ops (8 * s_blocksize) sbi.s_imap r.0.s_imap n
      × (r ≡ (record sbi { s_imap = r.0.s_imap }, ok (init_inode inode init_owner now n)))

  mark_inode-Created :
      (d j : ℕ) (f : Finds ops (8 * s_blocksize) sbi.s_imap d j)
      → Created (mark_inode ops sbi inode init_owner now (8 * s_blocksize) d j (some f.bh))
  unfolding mark_inode
  mark_inode-Created d j f =
      let bpb = 8 * s_blocksize in
      let n = j + d * bpb in
      let low : d < sbi.asb_inode_map_blocks =
        omega (arith, whole, get_elem?-lt sbi.s_imap d f.there) in
      let span : (d + 1) * bpb ≤ sbi.asb_inode_map_blocks * bpb = grind arith in
      let number : u64 (j + int_to_ulong (u32 (d * bpb))) ≡ n = ground (arith, f.inside) in
      let pos : 0 < n =
        ground (arith, f.takes.clear, reserved, ap (map_bit ops bpb sbi.s_imap) {x = n} {y = 0}) in
      let nonzero : (n == 0) ≡ false = ground arith in
      rw (f.clear, number, nonzero) (n, pos, f.takes, refl)

  -- Where the inode map is as long as the super block says, its bits are numbered by an `int` and
  -- bit 0 is set: with no inode left in memory `aufs_new_inode` fails with ENOMEM, and with every
  -- bit set it fails with ENOSPC, and neither changes anything. Otherwise it sets the lowest clear
  -- bit `n`, which is not 0, changes nothing else in the super block, and returns the inode that
  -- carries the number `n` and no zone. The case "shouldn't happen" does not.
  pub aufs_new_inode-outcome :
      (aufs_new_inode ops s_blocksize sbi none init_owner now ≡ (sbi, err enomem))
      × ((IsFull ops (8 * s_blocksize) sbi.s_imap × (result ≡ (sbi, err enospc))) ⊎ Created result)
  unfolding aufs_new_inode
  aufs_new_inode-outcome = (
    refl,
    elim (inode_loop-Search ops (8 * s_blocksize) sbi.asb_inode_map_blocks 0 sbi.s_imap whole) [
      | inl (full, e) ↦ rw (e, aufs_new_inode) (inl (full, refl))
      | inr (d, j, f, e) ↦
          let e' : inode_loop ops (8 * s_blocksize) sbi.asb_inode_map_blocks 0 sbi.s_imap
              ≡ some (d, j) =
            e ∙ ap (λ (k : ℕ). some (k, j)) {x = 0 + d} {y = d} (omega arith) in
          rw (e', aufs_new_inode) (rw f.there (inr (mark_inode-Created d j f)))
    ],
  )
