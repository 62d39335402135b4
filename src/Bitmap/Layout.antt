-- ===== src/Bitmap/Layout.antt =====
-- Where `aufs_new_zone` puts its zones: behind the metadata, and apart from one another.
use aufs_enabled.Base.{ℕ, ◌+◌, ◌-◌, ◌*◌, ◌^◌, ◌<◌, ◌≤◌, u64, ◌≡◌, arith}
use aufs_enabled.Super.{AufsSuperBlock}
use aufs_enabled.Bitmap.{integer_round_up_division, blocks_ahead, zones_start, zone_result}

-- The quotient rounds up: its multiple covers the dividend by less than the divisor.
pub integer_round_up_division_bounds :
    (a b : ℕ)
    → 0 < b
    → a + b ≤ 2 ^ 64
    → let r = integer_round_up_division a b * b in (a ≤ r) × (r < a + b)
unfolding integer_round_up_division
integer_round_up_division_bounds a b h fits =
    let e : u64 (a + b + 2 ^ 64 - 1) ≡ a + b - 1 = omega arith in rw e (grind arith)

module _ {B : Type 0} (sbi : AufsSuperBlock B) where
  -- The blocks of the super block, both maps and the inode table, which lie in this order.
  abbrev pub metadata_blocks : ℕ
  metadata_blocks = 1 + sbi.asb_inode_map_blocks + sbi.asb_zone_map_blocks + sbi.asb_inode_blocks

  -- The sizes are those of 32-bit fields, and none that is divided by is 0.
  pub record IsLaidOut : Type 0 where
    pub zone : 0 < sbi.asb_blocks_per_zone
    pub alignment : 0 < sbi.asb_alignment_num_blocks
    pub zone_fits : sbi.asb_blocks_per_zone < 2 ^ 32
    pub alignment_fits : sbi.asb_alignment_num_blocks < 2 ^ 32
    pub metadata_fits : metadata_blocks < 2 ^ 34

  -- Zone `n` ends below the blocks that an `int` counts.
  abbrev pub Addressable : ℕ → Type 0
  Addressable n = n * sbi.asb_blocks_per_zone + zones_start sbi < 2 ^ 31

  module _ (laid : IsLaidOut) where
    pub zones_start_bounds :
        (metadata_blocks + sbi.asb_blocks_per_zone ≤ zones_start sbi)
        × (zones_start sbi
            < metadata_blocks + sbi.asb_blocks_per_zone + sbi.asb_alignment_num_blocks)
    unfolding zones_start blocks_ahead
    zones_start_bounds =
        let e : blocks_ahead sbi ≡ metadata_blocks + sbi.asb_blocks_per_zone =
          omega (arith, laid.metadata_fits, laid.zone_fits) in
        omega (
          arith,
          integer_round_up_division_bounds (blocks_ahead sbi) sbi.asb_alignment_num_blocks
              laid.alignment
              (omega (arith, laid.metadata_fits, laid.zone_fits, laid.alignment_fits)),
          e,
          laid.metadata_fits,
          laid.zone_fits,
          laid.alignment_fits,
        )

    -- Where nothing overflows, the zones follow one another from the start.
    pub zone_result_lem :
        (n : ℕ) → Addressable n → zone_result sbi n ≡ n * sbi.asb_blocks_per_zone + zones_start sbi
    unfolding zone_result
    zone_result_lem n h =
        let small : n ≤ n * sbi.asb_blocks_per_zone = grind (arith, laid.zone) in ground (arith)

    pub zone_result-pos : (n : ℕ) → Addressable n → 0 < zone_result sbi n
    zone_result-pos n h = omega (arith, zone_result_lem n h, zones_start_bounds)

    -- Where the super block's fields are in range and zones `m` and `n` end within the blocks that an
    -- `int` counts: the block that `aufs_new_zone` returns for `m` lies behind the metadata by a zone
    -- or more, and that for a later `n` behind all blocks of zone `m`.
    pub zone_result-apart :
        (m n : ℕ)
        → Addressable m
        → Addressable n
        → m < n
        → (metadata_blocks + sbi.asb_blocks_per_zone ≤ zone_result sbi m)
          × (zone_result sbi m + sbi.asb_blocks_per_zone ≤ zone_result sbi n)
    zone_result-apart m n hm hn lt =
        let step : (m + 1) * sbi.asb_blocks_per_zone ≤ n * sbi.asb_blocks_per_zone = grind arith in
        omega (arith, zone_result_lem m hm, zone_result_lem n hn, zones_start_bounds)
