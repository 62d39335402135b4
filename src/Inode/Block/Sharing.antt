-- ===== src/Inode/Block/Sharing.antt =====
-- Two blocks of files never share a block of the device, and none lies in the metadata.
use native.Mathlib.Nat.{div-add-mod}
use aufs_enabled.Base.{
  Option-cases, ℕ, ◌+◌, ◌*◌, ◌/◌, ◌%◌, ◌<◌, ◌≤◌, List, ltb, ◌==◌, u32, int_to_ulong, length, get_or,
  ◌≡◌, ◌≢◌, ◌∙◌, inl, inr, refl, sym, ap, arith, not, ◌&&◌, Bool-cases, ltb-cases, ==-cases,
  get_or-set_ne,
}
use aufs_enabled.Kernel.{BitOps}
use aufs_enabled.Vfs.{AufsInode, zone_ptr_in_inode_num}
use aufs_enabled.Super.{AufsSuperBlock}
use aufs_enabled.Bitmap.{aufs_new_zone, zone_result}
use aufs_enabled.Bitmap.Layout.{
  IsLaidOut, zone_result-apart, zones_start_bounds, zone_result_lem, metadata_blocks, Addressable,
}
use aufs_enabled.Bitmap.Zones.{aufs_new_zone-keeps}
use aufs_enabled.Inode.Block.{
  zone_ptr_at, map_zone, aufs_get_block, FsState, zone_ptr, get_block_step,
}
use aufs_enabled.Inode.Block.Ownership.{IsSound}
use aufs_enabled.Inode.Block.Step.{zone_ptr_at-inside}

module _ {B : Type 0} (sbi : AufsSuperBlock B) (laid : IsLaidOut sbi) where
  -- A block determines its zone and its place in it.
  zone_block-injective :
      (m n x y : ℕ)
      → Addressable sbi m
      → Addressable sbi n
      → x < sbi.asb_blocks_per_zone
      → y < sbi.asb_blocks_per_zone
      → x + zone_result sbi m ≡ y + zone_result sbi n
      → (zone_result sbi m ≡ zone_result sbi n) × (x ≡ y)
  zone_block-injective m n x y hm hn hx hy e = elim (==-cases m n) [
    | inl (_, same) ↦
        let z : zone_result sbi m ≡ zone_result sbi n = ap (zone_result sbi) same in
        (z, omega arith)
    | inr (_, differ) ↦
        absurd (
          ground
            (arith, zone_result-apart sbi laid m n hm hn, zone_result-apart sbi laid n m hn hm))
  ]

module _ (ops : BitOps) (s_blocksize : ℕ) (st : FsState ops.Bits)
    (sound : IsSound ops s_blocksize st) where
  abbrev per_zone : ℕ
  per_zone = st.sbi.asb_blocks_per_zone

  -- The device block of block `iblock` of file `k`, where its zone is there.
  abbrev pub device_block : (k iblock : ℕ) → ℕ
  device_block k iblock = iblock % per_zone + zone_ptr st k (iblock / per_zone)

  pub device_block-injective :
      (k iblock k' iblock' : ℕ)
      → zone_ptr st k (iblock / per_zone) ≢ 0
      → zone_ptr st k' (iblock' / per_zone) ≢ 0
      → device_block k iblock ≡ device_block k' iblock'
      → (k ≡ k') × (iblock ≡ iblock')
  device_block-injective k iblock k' iblock' there there' e =
      let (m, _, hm, at) = sound.owned k (iblock / per_zone) there in
      let (n, _, hn, at') = sound.owned k' (iblock' / per_zone) there' in
      let pos = sound.laid.zone in
      let off : iblock % per_zone < per_zone = grind arith in
      let off' : iblock' % per_zone < per_zone = grind arith in
      let (z, o) =
        zone_block-injective st.sbi sound.laid m n (iblock % per_zone) (iblock' % per_zone) hm hn
          off off' (omega arith) in
      let (ks, is) =
        sound.apart k (iblock / per_zone) k' (iblock' / per_zone) there (at ∙ z ∙ sym at') in
      (
        ks,
        omega (
          arith,
          div-add-mod iblock per_zone,
          div-add-mod iblock' per_zone,
          ap (λ (i : ℕ). per_zone * i) is,
        ),
      )

  pub device_block-beyond_metadata :
      (k iblock : ℕ)
      → zone_ptr st k (iblock / per_zone) ≢ 0
      → metadata_blocks st.sbi ≤ device_block k iblock
  device_block-beyond_metadata k iblock there =
      let (m, _, hm, at) = sound.owned k (iblock / per_zone) there in
      omega (arith, zone_result_lem st.sbi sound.laid m hm, zones_start_bounds st.sbi sound.laid)

-- `sbi'` differs from `sbi` in the zone map at most.
abbrev pub Keeps : {B : Type 0} → AufsSuperBlock B → AufsSuperBlock B → Type 0
Keeps sbi sbi' = sbi' ≡ record sbi { s_zmap = sbi'.s_zmap }

-- Zone pointers that were set are as before.
abbrev pub KeepsPtrs : List ℕ → List ℕ → Type 0
KeepsPtrs ptrs ptrs' = (i : ℕ) → get_or ptrs i 0 ≢ 0 → get_or ptrs' i 0 ≡ get_or ptrs i 0

module _ (ops : BitOps) (beyond : ℕ → ℕ) (s_blocksize : ℕ) where
  open ops use {Bits}

  module _ (sbi : AufsSuperBlock Bits) (inode : AufsInode)
      (nine : length inode.ai_zone_ptr ≡ zone_ptr_in_inode_num) where
    map_zone-Keeps :
        (idx off : ℕ)
        → let r = map_zone ops beyond s_blocksize sbi inode idx off in
          Keeps sbi r.0 × KeepsPtrs inode.ai_zone_ptr r.1.ai_zone_ptr
    unfolding map_zone
    map_zone-Keeps idx off = elim (==-cases (zone_ptr_at beyond inode.ai_zone_ptr idx) 0) [
      | inr (t, _) ↦ rw t (refl, λ i _. refl)
      | inl (t, empty) ↦ elim (ltb-cases idx zone_ptr_in_inode_num) [
        | inr (t', _) ↦ rw (t, t') (refl, λ i _. refl)
        | inl (t', inside) ↦ elim (Option-cases (aufs_new_zone ops s_blocksize sbi).1) [
          | inl none_got ↦
              rw (map_zone, t, t', none_got) (aufs_new_zone-keeps ops s_blocksize sbi, λ i _. refl)
          | inr (id, got) ↦
              rw (map_zone, t, t', got)
                (
                  aufs_new_zone-keeps ops s_blocksize sbi,
                  λ i ne. ground (
                    arith,
                    zone_ptr_at-inside beyond inode.ai_zone_ptr idx,
                    ap (λ (n : ℕ). get_or inode.ai_zone_ptr n 0) {x = i} {y = idx},
                    get_or-set_ne inode.ai_zone_ptr idx i (int_to_ulong id) 0,
                  ),
                )
        ]
      ]
    ]

    aufs_get_block-Keeps :
        (iblock b_size : ℕ)
        → let r = aufs_get_block ops beyond s_blocksize sbi inode iblock b_size in
          Keeps sbi r.0 × KeepsPtrs inode.ai_zone_ptr r.1.ai_zone_ptr
    unfolding aufs_get_block
    aufs_get_block-Keeps iblock b_size =
        let zone_size = u32 sbi.asb_zone_size in
        elim (Bool-cases (ltb zone_size b_size)) [
          | inl t ↦ rw t (refl, λ i _. refl)
          | inr t ↦ elim (Bool-cases (b_size == 0)) [
            | inl z ↦ rw (t, z) (refl, λ i _. refl)
            | inr z ↦ elim (Bool-cases (ltb b_size zone_size && not (zone_size % b_size == 0))) [
              | inl t' ↦ rw (t, z, t') (refl, λ i _. refl)
              | inr t' ↦
                  rw (t, z, t')
                    (map_zone-Keeps (u32 (iblock / (zone_size / b_size)))
                      (u32 (iblock % (zone_size / b_size))))
            ]
          ]
        ]

  pub get_block_step-Keeps :
      (st : FsState Bits) (sound : IsSound ops s_blocksize st) (k iblock b_size : ℕ)
      → let st' = (get_block_step ops beyond s_blocksize st k iblock b_size).0 in
        Keeps st.sbi st'.sbi
        × ((m : ℕ) → KeepsPtrs (st.inodes m).ai_zone_ptr (st'.inodes m).ai_zone_ptr)
  unfolding get_block_step
  get_block_step-Keeps st sound k iblock b_size =
      let kept = aufs_get_block-Keeps st.sbi (st.inodes k) (sound.nine k) iblock b_size in
      (kept.0, λ m i ne. ground (arith, kept.1 i, ap (λ (n : ℕ). zone_ptr st n i) {x = m} {y = k}))
