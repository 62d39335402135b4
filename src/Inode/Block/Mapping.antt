-- ===== src/Inode/Block/Mapping.antt =====
-- Which block `aufs_get_block` maps.
use aufs_enabled.Base.{
  Option, some, ◌∙◌, ℕ, ◌+◌, ◌*◌, ◌/◌, ◌%◌, ◌^◌, ◌<◌, ◌≤◌, true, false, ◌&&◌, ltb, ◌==◌, u32,
  int_to_ulong, get_or, set, ◌≡◌, inl, inr, ap, arith, ==-cases, get_or-set_self,
}
use aufs_enabled.Kernel.{BitOps}
use aufs_enabled.Vfs.{AufsInode, zone_ptr_in_inode_num}
use aufs_enabled.Super.{AufsSuperBlock}
use aufs_enabled.Bitmap.{aufs_new_zone, zone_result}
use aufs_enabled.Bitmap.Layout.{zone_result_lem, Addressable}
use aufs_enabled.Bitmap.Zones.{aufs_new_zone-outcome, returned_block-some}
use aufs_enabled.Inode.Block.{
  Mapped, ok, map_zone, aufs_get_block, FsState, zone_ptr, get_block_step,
}
use aufs_enabled.Inode.Block.Ownership.{IsSound, map_bit-range}
use aufs_enabled.Inode.Block.Step.{zone_ptr_at-inside}

div_exact : (a b : ℕ) → 0 < b → ((a * b) / b ≡ a) × ((a * b) % b ≡ 0)
div_exact a b h = grind arith

-- The buffers divide a zone evenly, which has `asb_blocks_per_zone` of them.
pub record Divides {B : Type 0} (sbi : AufsSuperBlock B) (b_size : ℕ) : Type 0 where
  pub buffer : 0 < b_size
  pub even : sbi.asb_zone_size ≡ sbi.asb_blocks_per_zone * b_size
  pub zone_size_fits : sbi.asb_zone_size < 2 ^ 32

module _ (ops : BitOps) (beyond : ℕ → ℕ) (s_blocksize : ℕ) where
  open ops use {Bits}

  -- No early return is taken.
  pub aufs_get_block-map_zone :
      (sbi : AufsSuperBlock Bits) (inode : AufsInode) (iblock b_size : ℕ)
      → Divides sbi b_size
      → 0 < sbi.asb_blocks_per_zone
      → aufs_get_block ops beyond s_blocksize sbi inode iblock b_size
        ≡ map_zone ops beyond s_blocksize sbi inode
            (u32 (iblock / sbi.asb_blocks_per_zone))
            (u32 (iblock % sbi.asb_blocks_per_zone))
  unfolding aufs_get_block
  aufs_get_block-map_zone sbi inode iblock b_size d pos =
      let exact = div_exact sbi.asb_blocks_per_zone b_size d.buffer in
      let z : u32 sbi.asb_zone_size ≡ sbi.asb_blocks_per_zone * b_size =
        omega (arith, d.zone_size_fits, d.even) in
      let large : b_size ≤ sbi.asb_blocks_per_zone * b_size = grind (arith, pos) in
      let a : ltb (sbi.asb_blocks_per_zone * b_size) b_size ≡ false = ground arith in
      let c : (ltb b_size (sbi.asb_blocks_per_zone * b_size) && false) ≡ false = ground arith in
      let some_bytes : (b_size == 0) ≡ false = ground (arith, d.buffer) in
      rw (z, a, some_bytes, exact.0, exact.1, c)

  -- The invariant keeps what `aufs_new_zone` returns an `int` that is not negative.
  module _ (st : FsState Bits) (sound : IsSound ops s_blocksize st) where
    new_zone_int :
        (id : ℕ) × ((aufs_new_zone ops s_blocksize st.sbi).1 ≡ some id)
        × (int_to_ulong id ≡ id)
        × (id < 2 ^ 31)
    new_zone_int = elim (aufs_new_zone-outcome ops s_blocksize st.sbi sound.whole) [
      | inl (full, e) ↦
          (0, ap (λ (r : AufsSuperBlock Bits × Option ℕ). r.1) e, omega arith, omega arith)
      | inr (n, takes, e) ↦
          let fits : Addressable st.sbi n =
            sound.fits n (map_bit-range ops (8 * s_blocksize) st.sbi.s_zmap n takes.clear) in
          let block = zone_result_lem st.sbi sound.laid n fits in
          (
            zone_result st.sbi n,
            ap (λ (r : AufsSuperBlock Bits × Option ℕ). r.1) e
                ∙ returned_block-some st.sbi n sound.laid.alignment,
            ground arith,
            ground arith,
          )
    ]

    zone_ptr-lt : (k i : ℕ) → zone_ptr st k i < 2 ^ 31
    zone_ptr-lt k i = elim (==-cases (zone_ptr st k i) 0) [
      | inl (_, e) ↦ omega arith
      | inr (_, ne) ↦
          let (n, set, fits, at) = sound.owned k i ne in
          omega (arith, zone_result_lem st.sbi sound.laid n fits)
    ]

    module _ (k iblock b_size : ℕ) (divides : Divides st.sbi b_size) where
      abbrev per_zone : ℕ
      per_zone = st.sbi.asb_blocks_per_zone

      abbrev after : FsState Bits × Mapped
      after = get_block_step ops beyond s_blocksize st k iblock b_size

      map_zone-block :
          (idx off : ℕ)
          → idx < zone_ptr_in_inode_num
          → off < 2 ^ 32
          → let r = map_zone ops beyond s_blocksize st.sbi (st.inodes k) idx off in
            r.2 ≡ ok (off + get_or r.1.ai_zone_ptr idx 0)
      unfolding map_zone
      map_zone-block idx off inside small =
          let (id, got, whole, low) = new_zone_int in
          ground (
            arith,
            zone_ptr_at-inside beyond (st.inodes k).ai_zone_ptr idx,
            sound.nine k,
            get_or-set_self (st.inodes k).ai_zone_ptr idx (int_to_ulong id) 0,
            got,
            whole,
            low,
            zone_ptr-lt k idx,
          )

      module _ (within : iblock < zone_ptr_in_inode_num * per_zone) where
        pub indices :
            (u32 (iblock / per_zone) ≡ iblock / per_zone)
            × (u32 (iblock % per_zone) ≡ iblock % per_zone)
            × (iblock / per_zone < zone_ptr_in_inode_num)
            × (iblock % per_zone < 2 ^ 32)
        indices =
            let pos = sound.laid.zone in
            let fits = sound.laid.zone_fits in
            let idx : iblock / per_zone < zone_ptr_in_inode_num = grind arith in
            let off : iblock % per_zone < per_zone = grind arith in
            (omega arith, omega arith, idx, omega arith)

        -- In a sound file system, with buffers that divide a zone evenly, `aufs_get_block` succeeds for
        -- every block within the nine zones of a file, and maps the block at the offset of `iblock` in
        -- the zone whose pointer the inode then has.
        pub get_block_step-block :
            after.1 ≡ ok (iblock % per_zone + zone_ptr after.0 k (iblock / per_zone))
        unfolding get_block_step
        get_block_step-block =
            let self : (k == k) ≡ true = ground arith in
            rw
              (
                aufs_get_block-map_zone st.sbi (st.inodes k) iblock b_size divides sound.laid.zone,
                indices.0,
                indices.1,
                self,
              )
              (map_zone-block (iblock / per_zone) (iblock % per_zone) indices.2 indices.3)
