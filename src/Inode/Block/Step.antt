-- ===== src/Inode/Block/Step.antt =====
-- `aufs_get_block` keeps the invariant of `Ownership`, whatever block it is asked for.
use aufs_enabled.Base.{
  Option, some, ap, ◌∙◌, ℕ, ◌*◌, ◌%◌, ◌<◌, List, ◌&&◌, not, ◌/◌, ltb, ◌==◌, if◌then◌else◌, u32,
  int_to_ulong, length, get_or, set, ◌≡◌, inl, inr, sym, ap, subst, arith, Bool-cases, ltb-cases,
  ==-cases, get_or-set_self, get_or-set_ne, length-set, get_elem?-eq-get_or,
}
use aufs_enabled.Kernel.{BufferHead, BitOps}
use aufs_enabled.Vfs.{AufsInode, zone_ptr_in_inode_num}
use aufs_enabled.Super.{AufsSuperBlock}
use aufs_enabled.Bitmap.{aufs_new_zone, zone_result}
use aufs_enabled.Bitmap.Maps.{Takes}
use aufs_enabled.Bitmap.Layout.{zone_result_lem, Addressable}
use aufs_enabled.Bitmap.Zones.{aufs_new_zone-outcome, returned_block-some}
use aufs_enabled.Inode.Block.{
  Mapped, zone_ptr_at, map_zone, aufs_get_block, FsState, zone_ptr, get_block_step,
}
use aufs_enabled.Inode.Block.Ownership.{IsSound, IsSound-keep, IsSound-take, map_bit-range}

pub zone_ptr_at-inside :
    (beyond : ℕ → ℕ) (ptrs : List ℕ) (idx : ℕ)
    → idx < length ptrs
    → zone_ptr_at beyond ptrs idx ≡ get_or ptrs idx 0
unfolding zone_ptr_at
zone_ptr_at-inside beyond ptrs idx h = rw (get_elem?-eq-get_or ptrs idx 0 h, zone_ptr_at)

module _ (ops : BitOps) (beyond : ℕ → ℕ) (s_blocksize : ℕ) (st : FsState ops.Bits) (k : ℕ)
    (sound : IsSound ops s_blocksize st) where
  open ops use {Bits}

  -- The inodes with inode `k` replaced.
  abbrev with_inode : AufsInode → ℕ → AufsInode
  with_inode inode n = if n == k then inode else st.inodes n

  abbrev After : AufsSuperBlock Bits × AufsInode × Mapped → Type 0
  After r = IsSound ops s_blocksize (record { sbi = r.0; inodes = with_inode r.1 })

  unchanged : IsSound ops s_blocksize (record { sbi = st.sbi; inodes = with_inode (st.inodes k) })
  unchanged =
      IsSound-keep ops s_blocksize st sound (with_inode (st.inodes k))
        (λ n. ground (arith, sound.nine n, sound.nine k))
        (λ n i. ground (arith, ap (λ (m : ℕ). zone_ptr st m i) {x = n} {y = k}))

  module _ (idx : ℕ) (inside : idx < zone_ptr_in_inode_num) (empty : zone_ptr st k idx ≡ 0) where
    abbrev filled : ℕ → AufsInode
    filled p = record (st.inodes k) { ai_zone_ptr = set (st.inodes k).ai_zone_ptr idx p }

    filled-nine : (p m : ℕ) → length (with_inode (filled p) m).ai_zone_ptr ≡ zone_ptr_in_inode_num
    filled-nine p m =
        ground (arith, sound.nine k, sound.nine m, length-set (st.inodes k).ai_zone_ptr idx p)

    filled-ptr :
        (p m i : ℕ)
        → get_or (with_inode (filled p) m).ai_zone_ptr i 0
          ≡ (if (m == k) && (i == idx) then p else zone_ptr st m i)
    filled-ptr p m i = ground (
      arith,
      sound.nine k,
      ap (λ (n : ℕ). zone_ptr st n i) {x = m} {y = k},
      ap (λ (n : ℕ). get_or (set (st.inodes k).ai_zone_ptr idx p) n 0) {x = i} {y = idx},
      get_or-set_self (st.inodes k).ai_zone_ptr idx p 0,
      get_or-set_ne (st.inodes k).ai_zone_ptr idx i p 0,
    )

    -- The zone map was full: pointer `idx` is written with the 0 that it held.
    filled-none : IsSound ops s_blocksize (record { sbi = st.sbi; inodes = with_inode (filled 0) })
    filled-none =
        IsSound-keep ops s_blocksize st sound (with_inode (filled 0)) (filled-nine 0) (λ m i.
          ground (
            arith,
            empty,
            filled-ptr 0 m i,
            ap (λ (n : ℕ). zone_ptr st n i) {x = m} {y = k},
            ap (λ (n : ℕ). zone_ptr st k n) {x = i} {y = idx},
          ))

    filled-zone :
        (n : ℕ) (zmap : List (BufferHead Bits))
        → Takes ops (8 * s_blocksize) st.sbi.s_zmap zmap n
        → IsSound ops s_blocksize (record {
          sbi = record st.sbi { s_zmap = zmap };
          inodes = with_inode (filled (zone_result st.sbi n));
        })
    filled-zone n zmap takes =
        IsSound-take ops s_blocksize st sound (with_inode (filled (zone_result st.sbi n)))
          (filled-nine (zone_result st.sbi n)) k idx n zmap takes
          (filled-ptr (zone_result st.sbi n))

    -- What `map_zone` does to the empty pointer `idx`.
    filled-new :
        let r = aufs_new_zone ops s_blocksize st.sbi in
        (id : ℕ) × (r.1 ≡ some id)
        × IsSound ops s_blocksize
            (record { sbi = r.0; inodes = with_inode (filled (int_to_ulong id)) })
    filled-new = elim (aufs_new_zone-outcome ops s_blocksize st.sbi sound.whole) [
      | inl (full, e) ↦ (
        0,
        ap (λ (r : AufsSuperBlock Bits × Option ℕ). r.1) e,
        subst
            (λ (r : AufsSuperBlock Bits × Option ℕ).
              IsSound ops s_blocksize (record { sbi = r.0; inodes = with_inode (filled 0) }))
            (sym e) filled-none,
      )
      | inr (n, takes, e) ↦
          let fits : Addressable st.sbi n =
            sound.fits n (map_bit-range ops (8 * s_blocksize) st.sbi.s_zmap n takes.clear) in
          let block = zone_result_lem st.sbi sound.laid n fits in
          let at : int_to_ulong (zone_result st.sbi n) ≡ zone_result st.sbi n = ground arith in
          (
            zone_result st.sbi n,
            ap (λ (r : AufsSuperBlock Bits × Option ℕ). r.1) e
                ∙ returned_block-some st.sbi n sound.laid.alignment,
            subst
                (λ (r : AufsSuperBlock Bits × Option ℕ). IsSound ops s_blocksize (record {
                  sbi = r.0;
                  inodes = with_inode (filled (int_to_ulong (zone_result st.sbi n)));
                }))
                (sym e)
                (rw at (filled-zone n (aufs_new_zone ops s_blocksize st.sbi).0.s_zmap takes)),
          )
    ]

  map_zone-After :
      (idx off : ℕ) → After (map_zone ops beyond s_blocksize st.sbi (st.inodes k) idx off)
  unfolding map_zone
  map_zone-After idx off = elim (==-cases (zone_ptr_at beyond (st.inodes k).ai_zone_ptr idx) 0) [
    | inr (t, _) ↦ rw t unchanged
    | inl (t, empty) ↦ elim (ltb-cases idx zone_ptr_in_inode_num) [
      | inr (t', _) ↦ rw (t, t') unchanged
      | inl (t', inside) ↦
          let e : zone_ptr st k idx ≡ 0 =
            omega (
              arith,
              zone_ptr_at-inside beyond (st.inodes k).ai_zone_ptr idx,
              sound.nine k,
              empty,
            ) in
          let (id, got, keeps) = filled-new idx inside e in rw (map_zone, t, t', got) keeps
    ]
  ]

  -- `aufs_get_block` keeps a sound file system sound: its zone pointers still point to taken zones, and
  -- no two of them to the same. This holds on every branch, also where the zone map is full, and for
  -- every block number and buffer size, whatever lies behind the array of zone pointers.
  pub get_block_step-IsSound :
      (iblock b_size : ℕ)
      → IsSound ops s_blocksize (get_block_step ops beyond s_blocksize st k iblock b_size).0
  unfolding get_block_step aufs_get_block
  get_block_step-IsSound iblock b_size =
      let zone_size = u32 st.sbi.asb_zone_size in
      elim (Bool-cases (ltb zone_size b_size)) [
        | inl t ↦ rw t unchanged
        | inr t ↦ elim (Bool-cases (b_size == 0)) [
          | inl z ↦ rw (t, z) unchanged
          | inr z ↦ elim (Bool-cases (ltb b_size zone_size && not (zone_size % b_size == 0))) [
            | inl t' ↦ rw (t, z, t') unchanged
            | inr t' ↦
                rw (t, z, t')
                  (map_zone-After (u32 (iblock / (zone_size / b_size)))
                    (u32 (iblock % (zone_size / b_size))))
          ]
        ]
      ]
