-- ===== src/Mkfs/RootZone.antt =====
-- The formatter's root directory lies where the kernel never puts a zone that it hands out.
use aufs_enabled.Base.{ℕ, ◌+◌, ◌*◌, ◌/◌, ◌-◌, ◌^◌, ◌<◌, ◌≤◌, u32, u64, ◌≡◌, ◌∙◌, ap, arith}
use aufs_enabled.Kernel.{ByteOrder}
use aufs_enabled.Super.{AufsSuperBlock}
use aufs_enabled.Bitmap
use aufs_enabled.Bitmap.{zones_start, blocks_ahead, zone_result}
use aufs_enabled.Bitmap.Layout.{IsLaidOut, Addressable, metadata_blocks, zone_result_lem}
use aufs_enabled.Mkfs.Config
use aufs_enabled.Mkfs.Config.{
  Configuration, block_size, block_size_of, calculate_aligned_num_blocks,
}
use aufs_enabled.Mkfs.Format.{root_block}
use aufs_enabled.Mkfs.Agreement.{Fits, seen, seen-fields}

-- `x` rounded up to a multiple of `a`.
abbrev round_up : (x a : ℕ) → ℕ
round_up x a = (x + a - 1) / a * a

round_up_bounds : (x a : ℕ) → 0 < a → (x ≤ round_up x a) × (round_up x a < x + a)
round_up_bounds x a h = grind arith

round_up_mono : (x y a : ℕ) → 0 < a → x ≤ y → round_up x a ≤ round_up y a
round_up_mono x y a h le = grind arith

-- What the formatter counts in front of the zones.
abbrev in_front : Configuration → ℕ
in_front config = config.inode_map_blocks + config.inode_blocks + config.zone_map_blocks + 1

calculate_aligned_num_blocks_lem :
    (config : Configuration) (x : ℕ)
    → 0 < config.num_block_alignment
    → x + config.num_block_alignment < 2 ^ 31
    → calculate_aligned_num_blocks config x ≡ round_up x config.num_block_alignment
unfolding calculate_aligned_num_blocks Config.integer_round_up_division
calculate_aligned_num_blocks_lem config x pos small =
    let a = config.num_block_alignment in
    let e : u32 (x + a + 2 ^ 32 - 1) ≡ x + a - 1 = omega arith in
    let bound : round_up x a < x + a = (round_up_bounds x a pos).1 in rw e (ground arith)

zones_start_lem :
    {B : Type 0} (sbi : AufsSuperBlock B)
    → IsLaidOut sbi
    → zones_start sbi
      ≡ round_up (metadata_blocks sbi + sbi.asb_blocks_per_zone) sbi.asb_alignment_num_blocks
unfolding zones_start blocks_ahead Bitmap.integer_round_up_division
zones_start_lem sbi laid =
    let a = sbi.asb_alignment_num_blocks in
    let x = metadata_blocks sbi + sbi.asb_blocks_per_zone in
    let ahead : blocks_ahead sbi ≡ x = omega (arith, laid.metadata_fits, laid.zone_fits) in
    let e : u64 (x + a + 2 ^ 64 - 1) ≡ x + a - 1 =
      omega (arith, laid.metadata_fits, laid.zone_fits, laid.alignment_fits, laid.alignment) in
    let bound = (round_up_bounds x a laid.alignment).1 in
    rw (ahead)
      (rw e (ground (arith, bound, laid.metadata_fits, laid.zone_fits, laid.alignment_fits)))

module _ (order : ByteOrder) (config : Configuration) (fits : Fits config) (B : Type 0) where
  abbrev asb : AufsSuperBlock B
  asb = seen order config fits B

  module _ (large : 4096 ≤ config.zone_size)
      (maps : config.zone_map_blocks ≡ config.inode_map_blocks)
      (pos : 0 < config.num_block_alignment)
      (small : in_front config + config.zone_size + config.num_block_alignment < 2 ^ 31) where
    per_zone : asb.asb_blocks_per_zone ≡ config.zone_size / 4096
    per_zone = let f = (seen-fields order config fits B).7 in grind arith

    metadata : metadata_blocks asb ≡ in_front config
    metadata = let f = seen-fields order config fits B in omega (arith, f.3, f.4, f.5)

    asb-IsLaidOut : IsLaidOut asb
    asb-IsLaidOut =
        let f = seen-fields order config fits B in
        let some_block : 0 < config.zone_size / 4096 = omega arith in
        record {
          zone = omega (arith, per_zone);
          alignment = omega (arith, f.6);
          zone_fits = omega (arith, per_zone);
          alignment_fits = omega (arith, f.6);
          metadata_fits = omega (arith, metadata);
        }

    root_block_lem :
        root_block config
        ≡ config.zone_size / 4096 + round_up (in_front config) config.num_block_alignment
    unfolding root_block block_size_of
    root_block_lem =
        let block : block_size config ≡ 4096 = ground arith in
        let front : u32 (in_front config) ≡ in_front config = omega arith in
        let aligned = calculate_aligned_num_blocks_lem config (in_front config) pos (omega arith) in
        let bound = (round_up_bounds (in_front config) config.num_block_alignment pos).1 in
        rw (block, front) (rw aligned (ground arith))

    -- Where a zone has at least 4096 bytes, the two maps have as many blocks, the alignment is not 0
    -- and the sizes are below 2^31 together: the block that the formatter gives the root directory
    -- lies behind the metadata, and its zone ends before every zone that the kernel hands out for a
    -- bit from 2 on (bits 0 and 1 are those that the formatter takes) and that an `int` can count.
    pub root_block-apart :
        (n : ℕ)
        → 2 ≤ n
        → Addressable asb n
        → (metadata_blocks asb ≤ root_block config)
          × (root_block config + asb.asb_blocks_per_zone ≤ zone_result asb n)
    root_block-apart n later countable =
        let f = (seen-fields order config fits B).6 in
        let start : zones_start asb
            ≡ round_up (in_front config + asb.asb_blocks_per_zone) config.num_block_alignment =
          zones_start_lem asb asb-IsLaidOut
          ∙ ap (λ (a : ℕ). round_up (metadata_blocks asb + asb.asb_blocks_per_zone) a) f
          ∙ ap (λ (m : ℕ). round_up (m + asb.asb_blocks_per_zone) config.num_block_alignment)
              metadata in
        let more =
          round_up_mono (in_front config) (in_front config + asb.asb_blocks_per_zone)
            config.num_block_alignment pos (omega arith) in
        let two : 2 * asb.asb_blocks_per_zone ≤ n * asb.asb_blocks_per_zone = grind arith in
        let at = zone_result_lem asb asb-IsLaidOut n countable in
        let low = (round_up_bounds (in_front config) config.num_block_alignment pos).0 in
        (omega (arith, metadata, root_block_lem), omega (arith, root_block_lem, per_zone))
