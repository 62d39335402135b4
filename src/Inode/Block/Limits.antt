-- ===== src/Inode/Block/Limits.antt =====
-- `aufs_get_block` when no zone is left, and behind the last zone of a file.
use aufs_enabled.Base.{
  Option, some, ℕ, ◌+◌, ◌*◌, ◌/◌, ◌%◌, ◌^◌, ◌<◌, ◌≤◌, none, List, [], ◌∷◌, zero, suc, ◌==◌,
  if◌then◌else◌, u32, u64, length, get_elem?, ◌≡◌, ◌∙◌, inl, inr, refl, ap, arith,
}
use aufs_enabled.Kernel.{BitOps, eio}
use aufs_enabled.Vfs.{zone_ptr_in_inode_num}
use aufs_enabled.Super.{AufsSuperBlock}
use aufs_enabled.Bitmap.{aufs_new_zone}
use aufs_enabled.Bitmap.Maps.{IsFull}
use aufs_enabled.Bitmap.Zones.{aufs_new_zone-outcome}
use aufs_enabled.Inode.Block.{
  Mapped, ok, err, zone_ptr_at, map_zone, FsState, zone_ptr, get_block_step,
}
use aufs_enabled.Inode.Block.Ownership.{IsSound}
use aufs_enabled.Inode.Block.Step.{zone_ptr_at-inside}
use aufs_enabled.Inode.Block.Mapping.{Divides, aufs_get_block-map_zone, indices}

-- A full map has nothing to take.
aufs_new_zone-full :
    (ops : BitOps) (s_blocksize : ℕ) (sbi : AufsSuperBlock ops.Bits)
    → length sbi.s_zmap ≡ sbi.asb_zone_map_blocks
    → IsFull ops (8 * s_blocksize) sbi.s_zmap
    → aufs_new_zone ops s_blocksize sbi ≡ (sbi, some 0)
aufs_new_zone-full ops s_blocksize sbi whole full =
    elim (aufs_new_zone-outcome ops s_blocksize sbi whole) [
      | inl (_, e) ↦ e
      | inr (n, takes, e) ↦ absurd (ground (arith, full n, takes.clear))
    ]

zone_ptr_at-beyond :
    (beyond : ℕ → ℕ) (ptrs : List ℕ) (idx : ℕ)
    → length ptrs ≤ idx
    → zone_ptr_at beyond ptrs idx ≡ beyond idx
unfolding zone_ptr_at
zone_ptr_at-beyond beyond ptrs idx h = rw (none_beyond ptrs idx h, zone_ptr_at)
  where
    none_beyond : (xs : List ℕ) (i : ℕ) → length xs ≤ i → get_elem? xs i ≡ none
    none_beyond [] i p = refl
    none_beyond (x ∷ xs) zero p = absurd (omega arith)
    none_beyond (x ∷ xs) (suc i) p = none_beyond xs i (omega arith)

module _ (ops : BitOps) (beyond : ℕ → ℕ) (s_blocksize : ℕ) (st : FsState ops.Bits)
    (sound : IsSound ops s_blocksize st) (k iblock b_size : ℕ)
    (divides : Divides st.sbi b_size) where
  abbrev per_zone : ℕ
  per_zone = st.sbi.asb_blocks_per_zone

  abbrev after : FsState ops.Bits × Mapped
  after = get_block_step ops beyond s_blocksize st k iblock b_size

  -- In a sound file system whose zone map is full, for a block within the nine zones of a file that
  -- has no zone there, and buffers that divide a zone evenly, `aufs_get_block` does not fail: it maps
  -- one of the first blocks of the device, where the super block lies, and leaves the super block in
  -- memory as it is.
  pub get_block_step-full :
      iblock < zone_ptr_in_inode_num * per_zone
      → IsFull ops (8 * s_blocksize) st.sbi.s_zmap
      → zone_ptr st k (iblock / per_zone) ≡ 0
      → (after.1 ≡ ok (iblock % per_zone)) × (iblock % per_zone < per_zone) × (after.0.sbi ≡ st.sbi)
  unfolding get_block_step map_zone
  get_block_step-full within full empty =
      let ix = indices ops beyond s_blocksize st sound k iblock b_size divides within in
      let pos = sound.laid.zone in
      let off : iblock % per_zone < per_zone = grind arith in
      let at : zone_ptr_at beyond (st.inodes k).ai_zone_ptr (iblock / per_zone) ≡ 0 =
        zone_ptr_at-inside beyond (st.inodes k).ai_zone_ptr (iblock / per_zone)
          (omega (arith, sound.nine k, ix.2))
        ∙ empty in
      let new = aufs_new_zone-full ops s_blocksize st.sbi sound.whole full in
      let same : (aufs_new_zone ops s_blocksize st.sbi).0 ≡ st.sbi =
        ap (λ (r : AufsSuperBlock ops.Bits × Option ℕ). r.0) new in
      let inside = ix.2 in
      let small = ix.3 in
      rw
        (
          aufs_get_block-map_zone ops beyond s_blocksize st.sbi (st.inodes k) iblock b_size divides
              pos,
          ix.0,
          ix.1,
          at,
          new,
        )
        (ground (arith, same))

  -- In a sound file system, with buffers that divide a zone evenly, for a block behind the nine zones
  -- of a file (with the zone's index in 32 bits) `aufs_get_block` reads the word that lies behind the array of zone pointers at that place. The inodes' zone pointers and
  -- the super block do not change. The call fails with EIO exactly when that word is 0; otherwise
  -- it maps a block at the offset from whatever the word holds.
  pub get_block_step-behind :
      zone_ptr_in_inode_num * per_zone ≤ iblock
      → iblock / per_zone < 2 ^ 32
      → (after.0.sbi ≡ st.sbi)
        × ((m : ℕ) → (after.0.inodes m).ai_zone_ptr ≡ (st.inodes m).ai_zone_ptr)
        × (after.1 ≡ (
            if beyond (iblock / per_zone) == 0
            then err eio
            else ok (u64 (iblock % per_zone + beyond (iblock / per_zone)))))
  unfolding get_block_step map_zone
  get_block_step-behind behind narrow =
      let pos = sound.laid.zone in
      let fits = sound.laid.zone_fits in
      let idx : zone_ptr_in_inode_num ≤ iblock / per_zone = grind arith in
      let off : iblock % per_zone < per_zone = grind arith in
      let idx32 : u32 (iblock / per_zone) ≡ iblock / per_zone = omega arith in
      let off32 : u32 (iblock % per_zone) ≡ iblock % per_zone = omega arith in
      let read =
        zone_ptr_at-beyond beyond (st.inodes k).ai_zone_ptr (iblock / per_zone)
          (omega (arith, sound.nine k, idx)) in
      rw
        (
          aufs_get_block-map_zone ops beyond s_blocksize st.sbi (st.inodes k) iblock b_size divides
              pos,
          idx32,
          off32,
          read,
        )
        (
          ground arith,
          λ m. ground (arith, ap (λ (n : ℕ). (st.inodes n).ai_zone_ptr) {x = m} {y = k}),
          ground arith,
        )
