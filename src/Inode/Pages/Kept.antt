-- ===== src/Inode/Pages/Kept.antt =====
-- What the operations on pages keep.
use aufs_enabled.Base.{
  ℕ, ◌+◌, ◌/◌, ◌%◌, ltb, ◌==◌, not, ◌&&◌, u32, ◌≡◌, ◌≢◌, ◌∙◌, inl, inr, refl, sym, ap, subst,
  Bool-cases, Option-cases, ==-cases,
}
use aufs_enabled.Kernel.{BitOps}
use aufs_enabled.Vfs.{AufsInode, zone_ptr_in_inode_num}
use aufs_enabled.Super.{AufsSuperBlock}
use aufs_enabled.Bitmap.{aufs_new_zone}
use aufs_enabled.Inode.Block.{
  FsState, zone_ptr, zone_ptr_at, map_zone, aufs_get_block, get_block_step,
}
use aufs_enabled.Inode.Block.Ownership.{IsSound}
use aufs_enabled.Inode.Block.Step.{get_block_step-IsSound}
use aufs_enabled.Inode.Block.Sharing.{Keeps, get_block_step-Keeps}
use aufs_enabled.Inode.Pages.{
  PageIo, ByMapper, Mapping, mapper, aufs_readpage, aufs_writepage, minix_write_failed,
  minix_write_begin, minix_prepare_chunk,
}

-- All of an inode but its zones.
abbrev pub SameButZones : AufsInode → AufsInode → Type 0
SameButZones i j = j ≡ record i { ai_zone_ptr = j.ai_zone_ptr }

module _ (ops : BitOps) (beyond : ℕ → ℕ) (s_blocksize : ℕ) where
  open ops use {Bits}

  -- `s` is sound, and is `st` but for new zones of inode `ino` and their bits in the map.
  pub record IsExtended (ino : ℕ) (st s : FsState Bits) : Type 0 where
    pub sound : IsSound ops s_blocksize s
    pub super_block : Keeps st.sbi s.sbi
    pub zones : (m i : ℕ) → zone_ptr st m i ≢ 0 → zone_ptr s m i ≡ zone_ptr st m i
    pub rest : (m : ℕ) → SameButZones (st.inodes m) (s.inodes m)
    pub others : (m : ℕ) → m ≢ ino → s.inodes m ≡ st.inodes m

  map_zone-SameButZones :
      (sbi : AufsSuperBlock Bits) (inode : AufsInode) (idx off : ℕ)
      → SameButZones inode (map_zone ops beyond s_blocksize sbi inode idx off).1
  unfolding map_zone
  map_zone-SameButZones sbi inode idx off =
      elim (Bool-cases (zone_ptr_at beyond inode.ai_zone_ptr idx == 0)) [
        | inr t ↦ rw t refl
        | inl t ↦ elim (Bool-cases (ltb idx zone_ptr_in_inode_num)) [
          | inr t' ↦ rw (t, t') refl
          | inl t' ↦ elim (Option-cases (aufs_new_zone ops s_blocksize sbi).1) [
            | inl e ↦ rw (map_zone, t, t', e) refl
            | inr (id, e) ↦ rw (map_zone, t, t', e) refl
          ]
        ]
      ]

  aufs_get_block-SameButZones :
      (sbi : AufsSuperBlock Bits) (inode : AufsInode) (iblock b_size : ℕ)
      → SameButZones inode (aufs_get_block ops beyond s_blocksize sbi inode iblock b_size).1
  unfolding aufs_get_block
  aufs_get_block-SameButZones sbi inode iblock b_size =
      let zone_size = u32 sbi.asb_zone_size in
      elim (Bool-cases (ltb zone_size b_size)) [
        | inl t ↦ rw t refl
        | inr t ↦ elim (Bool-cases (b_size == 0)) [
          | inl z ↦ rw (t, z) refl
          | inr z ↦ elim (Bool-cases (ltb b_size zone_size && not (zone_size % b_size == 0))) [
            | inl t' ↦ rw (t, z, t') refl
            | inr t' ↦
                rw (t, z, t')
                  (map_zone-SameButZones sbi inode (u32 (iblock / (zone_size / b_size)))
                    (u32 (iblock % (zone_size / b_size))))
          ]
        ]
      ]

  SameButZones-trans : (i j k : AufsInode) → SameButZones i j → SameButZones j k → SameButZones i k
  SameButZones-trans i j k p q =
      q ∙ ap (λ (x : AufsInode). record x { ai_zone_ptr = k.ai_zone_ptr }) p

  pub IsExtended-refl :
      (ino : ℕ) (st : FsState Bits) → IsSound ops s_blocksize st → IsExtended ino st st
  IsExtended-refl ino st sound = record {
    sound = sound;
    super_block = refl;
    zones = λ m i _. refl;
    rest = λ m. refl;
    others = λ m _. refl;
  }

  mapper-IsExtended :
      (ino : ℕ) (st s : FsState Bits) (iblock : ℕ)
      → IsExtended ino st s
      → IsExtended ino st (get_block_step ops beyond s_blocksize s ino iblock s_blocksize).0
  unfolding get_block_step
  mapper-IsExtended ino st s iblock ext =
      let t = (get_block_step ops beyond s_blocksize s ino iblock s_blocksize).0 in
      let (keeps, ptrs) =
        get_block_step-Keeps ops beyond s_blocksize s ext.sound ino iblock s_blocksize in
      let one = aufs_get_block-SameButZones s.sbi (s.inodes ino) iblock s_blocksize in
      record {
        sound = get_block_step-IsSound ops beyond s_blocksize s ino ext.sound iblock s_blocksize;
        super_block =
            keeps
            ∙ ap (λ (x : AufsSuperBlock Bits). record x { s_zmap = t.sbi.s_zmap }) ext.super_block;
        zones = λ m i ne. ptrs m i (λ z. ne (sym (ext.zones m i ne) ∙ z)) ∙ ext.zones m i ne;
        rest = λ m. elim (==-cases m ino) [
          | inl (c, e) ↦
              rw (c, e)
                (SameButZones-trans (st.inodes ino) (s.inodes ino)
                  (aufs_get_block ops beyond s_blocksize s.sbi (s.inodes ino) iblock s_blocksize).1
                  (ext.rest ino) one)
          | inr (c, ne) ↦ rw c (ext.rest m)
        ];
        others = λ m ne. elim (==-cases m ino) [
          | inl (c, e) ↦ absurd (ne e)
          | inr (c, _) ↦ rw c (ext.others m ne)
        ];
      }

  module _ (io : PageIo (FsState Bits)) (ino : ℕ) (st : FsState Bits)
      (sound : IsSound ops s_blocksize st) where
    mapped :
        (f : Mapping (FsState Bits))
        → ByMapper f
        → IsExtended ino st (f (mapper ops beyond s_blocksize io ino) st).0
    mapped f by =
        by (IsExtended ino st) (mapper ops beyond s_blocksize io ino)
          (λ s iblock. mapper-IsExtended ino st s iblock) st (IsExtended-refl ino st sound)

    pub aufs_readpage-IsExtended :
        (page : ℕ) → IsExtended ino st (aufs_readpage ops beyond s_blocksize io ino page st).0
    unfolding aufs_readpage
    aufs_readpage-IsExtended page = mapped (io.block_read_full_page ino page) (io.read_lem ino page)

    pub aufs_writepage-IsExtended :
        (page : ℕ) → IsExtended ino st (aufs_writepage ops beyond s_blocksize io ino page st).0
    unfolding aufs_writepage
    aufs_writepage-IsExtended page =
        mapped (io.block_write_full_page ino page) (io.write_lem ino page)

    pub minix_prepare_chunk-IsExtended :
        (page pos len : ℕ)
        → IsExtended ino st (minix_prepare_chunk ops beyond s_blocksize io ino page pos len st).0
    unfolding minix_prepare_chunk
    minix_prepare_chunk-IsExtended page pos len =
        mapped (io.prepare_write ino page pos len) (io.prepare_lem ino page pos len)

    -- Dropping pages is no change of the file system.
    minix_write_failed-same :
        (s : FsState Bits) (to : ℕ) → minix_write_failed ops beyond s_blocksize io ino to s ≡ s
    unfolding minix_write_failed
    minix_write_failed-same s to = elim (Bool-cases (ltb (s.inodes ino).i_size to)) [
      | inl t ↦ rw t (io.truncate_lem (λ t. t ≡ s) ino (s.inodes ino).i_size s refl)
      | inr t ↦ rw t
    ]

    -- In a sound file system `minix_write_begin`, whether it succeeds or fails, changes no inode but in
    -- new zones of the inode that is written, in particular no size, keeps every zone that there
    -- was, changes the super block but in the zone map only, and leaves the file system sound. It
    -- leaves the file system exactly as `block_write_begin` does, with the same result: after a failure
    -- every zone that this took is still taken, and is the inode's.
    pub minix_write_begin-IsExtended :
        (pos len : ℕ)
        → let r = minix_write_begin ops beyond s_blocksize io ino pos len st in
          IsExtended ino st r.0
          × (r ≡ io.block_write_begin ino pos len (mapper ops beyond s_blocksize io ino) st)
    unfolding minix_write_begin
    minix_write_begin-IsExtended pos len =
        let r = io.block_write_begin ino pos len (mapper ops beyond s_blocksize io ino) st in
        let ext : IsExtended ino st r.0 =
          mapped (io.block_write_begin ino pos len) (io.begin_lem ino pos len) in
        elim (Option-cases r.1) [
          | inl e ↦
              (rw (minix_write_begin, e) ext, simp (minix_write_begin, e) (λ i. (r.0, sym e i)))
          | inr (e, failed) ↦ (
            rw (minix_write_begin, failed)
                (subst (IsExtended ino st) (sym (minix_write_failed-same r.0 (pos + len))) ext),
            simp (minix_write_begin, failed)
                (λ i. (minix_write_failed-same r.0 (pos + len) i, sym failed i)),
          )
        ]
