-- ===== src/Inode/Block/History.antt =====
-- `aufs_get_block` called again and again, on any inodes.
use aufs_enabled.Base.{
  ℕ, ◌+◌, ◌*◌, ◌/◌, ◌%◌, ◌<◌, ◌≤◌, List, [], ◌∷◌, ◌≡◌, ◌≢◌, ◌∙◌, refl, sym, ap, subst, arith,
}
use aufs_enabled.Kernel.{BitOps}
use aufs_enabled.Vfs.{zone_ptr_in_inode_num}
use aufs_enabled.Super.{AufsSuperBlock}
use aufs_enabled.Bitmap.Layout.{metadata_blocks}
use aufs_enabled.Inode.Block.{Mapped, ok, FsState, zone_ptr, get_block_step}
use aufs_enabled.Inode.Block.Ownership.{IsSound}
use aufs_enabled.Inode.Block.Step.{get_block_step-IsSound}
use aufs_enabled.Inode.Block.Mapping.{Divides, get_block_step-block}
use aufs_enabled.Inode.Block.Sharing.{
  Keeps, KeepsPtrs, device_block-injective, device_block-beyond_metadata, get_block_step-Keeps,
}

-- A call: the inode's number, the block of the file and the size of the buffer.
pub record Request : Type 0 where
  pub ino : ℕ
  pub iblock : ℕ
  pub b_size : ℕ

module _ (ops : BitOps) (beyond : ℕ → ℕ) (s_blocksize : ℕ) where
  open ops use {Bits}

  unfoldable pub run : FsState Bits → List Request → FsState Bits
  run st [] = st
  run st (r ∷ rs) = run (get_block_step ops beyond s_blocksize st r.ino r.iblock r.b_size).0 rs

  pub run-IsSound :
      (st : FsState Bits) (rs : List Request)
      → IsSound ops s_blocksize st
      → IsSound ops s_blocksize (run st rs)
  unfolding run
  run-IsSound st [] sound = sound
  run-IsSound st (r ∷ rs) sound =
      run-IsSound (get_block_step ops beyond s_blocksize st r.ino r.iblock r.b_size).0 rs
        (get_block_step-IsSound ops beyond s_blocksize st r.ino sound r.iblock r.b_size)

  Keeps-trans : (a b c : AufsSuperBlock Bits) → Keeps a b → Keeps b c → Keeps a c
  Keeps-trans a b c p q = q ∙ ap (λ (s : AufsSuperBlock Bits). record s { s_zmap = c.s_zmap }) p

  -- A zone pointer that is set stays as it is, and only the zone map of the super block changes.
  run-Keeps :
      (st : FsState Bits) (rs : List Request)
      → IsSound ops s_blocksize st
      → Keeps st.sbi (run st rs).sbi
        × ((m : ℕ) → KeepsPtrs (st.inodes m).ai_zone_ptr ((run st rs).inodes m).ai_zone_ptr)
  unfolding run
  run-Keeps st [] sound = (refl, λ m i ne. refl)
  run-Keeps st (r ∷ rs) sound =
      let next = get_block_step ops beyond s_blocksize st r.ino r.iblock r.b_size in
      let one = get_block_step-Keeps ops beyond s_blocksize st sound r.ino r.iblock r.b_size in
      let rest =
        run-Keeps next.0 rs
          (get_block_step-IsSound ops beyond s_blocksize st r.ino sound r.iblock r.b_size) in
      (
        Keeps-trans st.sbi next.0.sbi (run next.0 rs).sbi one.0 rest.0,
        λ m i ne. rest.1 m i (λ z. ne (sym (one.1 m i ne) ∙ z)) ∙ one.1 m i ne,
      )

  Divides-keeps :
      (sbi sbi' : AufsSuperBlock Bits) (b_size : ℕ)
      → Keeps sbi sbi'
      → Divides sbi b_size
      → Divides sbi' b_size
  Divides-keeps sbi sbi' b_size keeps d =
      subst (λ (s : AufsSuperBlock Bits). Divides s b_size) (sym keeps)
        (record { buffer = d.buffer; even = d.even; zone_size_fits = d.zone_size_fits })

  module _ (st : FsState Bits) (sound : IsSound ops s_blocksize st) (b_size : ℕ)
      (divides : Divides st.sbi b_size) (k iblock : ℕ) (rs : List Request) (k' iblock' : ℕ) where
    -- The state after the first call, that after the calls `rs`, and that after the last call.
    abbrev pub first : FsState Bits × Mapped
    first = get_block_step ops beyond s_blocksize st k iblock b_size

    abbrev pub between : FsState Bits
    between = run first.0 rs

    abbrev pub last : FsState Bits × Mapped
    last = get_block_step ops beyond s_blocksize between k' iblock' b_size

    first-IsSound : IsSound ops s_blocksize first.0
    first-IsSound = get_block_step-IsSound ops beyond s_blocksize st k sound iblock b_size

    between-IsSound : IsSound ops s_blocksize between
    between-IsSound = run-IsSound first.0 rs first-IsSound

    last-IsSound : IsSound ops s_blocksize last.0
    last-IsSound =
        get_block_step-IsSound ops beyond s_blocksize between k' between-IsSound iblock' b_size

    between-Keeps : Keeps st.sbi between.sbi
    between-Keeps =
        Keeps-trans st.sbi first.0.sbi between.sbi
          (get_block_step-Keeps ops beyond s_blocksize st sound k iblock b_size).0
          (run-Keeps first.0 rs first-IsSound).0

    last-Keeps : Keeps st.sbi last.0.sbi
    last-Keeps =
        Keeps-trans st.sbi between.sbi last.0.sbi between-Keeps
          (get_block_step-Keeps ops beyond s_blocksize between between-IsSound k' iblock' b_size).0

    -- A pointer that the first call left is there at the end.
    first-last : (i : ℕ) → zone_ptr first.0 k i ≢ 0 → zone_ptr last.0 k i ≡ zone_ptr first.0 k i
    first-last i ne =
        let mid = (run-Keeps first.0 rs first-IsSound).1 k i ne in
        (get_block_step-Keeps ops beyond s_blocksize between between-IsSound k' iblock' b_size).1 k
          i (λ z. ne (sym mid ∙ z))
        ∙ mid

    last-per_zone : last.0.sbi.asb_blocks_per_zone ≡ st.sbi.asb_blocks_per_zone
    last-per_zone = ap (λ (s : AufsSuperBlock Bits). s.asb_blocks_per_zone) last-Keeps

    between-per_zone : between.sbi.asb_blocks_per_zone ≡ st.sbi.asb_blocks_per_zone
    between-per_zone = ap (λ (s : AufsSuperBlock Bits). s.asb_blocks_per_zone) between-Keeps

    last-apart :
        zone_ptr last.0 k (iblock / st.sbi.asb_blocks_per_zone) ≢ 0
        → zone_ptr last.0 k' (iblock' / st.sbi.asb_blocks_per_zone) ≢ 0
        → iblock % st.sbi.asb_blocks_per_zone
            + zone_ptr last.0 k (iblock / st.sbi.asb_blocks_per_zone)
          ≡ iblock' % st.sbi.asb_blocks_per_zone
            + zone_ptr last.0 k' (iblock' / st.sbi.asb_blocks_per_zone)
        → (k ≡ k') × (iblock ≡ iblock')
    last-apart =
        rw last-per_zone at
          (device_block-injective ops s_blocksize last.0 last-IsSound k iblock k' iblock')

    last-block :
        iblock' < zone_ptr_in_inode_num * st.sbi.asb_blocks_per_zone
        → last.1
          ≡ ok (
              iblock' % st.sbi.asb_blocks_per_zone
              + zone_ptr last.0 k' (iblock' / st.sbi.asb_blocks_per_zone))
    last-block =
        subst
          (λ (p : ℕ).
            iblock' < zone_ptr_in_inode_num * p
            → last.1 ≡ ok (iblock' % p + zone_ptr last.0 k' (iblock' / p)))
          between-per_zone
          (get_block_step-block ops beyond s_blocksize between between-IsSound k' iblock' b_size
            (Divides-keeps st.sbi between.sbi b_size between-Keeps divides))

    metadata-keeps :
        (m i : ℕ)
        → zone_ptr last.0 m (i / st.sbi.asb_blocks_per_zone) ≢ 0
        → metadata_blocks st.sbi
          ≤ i % st.sbi.asb_blocks_per_zone + zone_ptr last.0 m (i / st.sbi.asb_blocks_per_zone)
    metadata-keeps m i there =
        let same : metadata_blocks last.0.sbi ≡ metadata_blocks st.sbi =
          ap (λ (s : AufsSuperBlock Bits). metadata_blocks s) last-Keeps in
        let found =
          rw last-per_zone at
            (device_block-beyond_metadata ops s_blocksize last.0 last-IsSound m i) in
        omega (arith, same, found there)

    -- In a sound file system, let `aufs_get_block` be called for block `iblock` of inode `k`, then
    -- any number of times for anything, and then for block `iblock'` of inode `k'`, which is another
    -- block or another inode, with both blocks within the nine zones of a file and with a zone found
    -- for each, and with buffers that divide a zone evenly. Then both calls succeed, map different
    -- blocks of the device, and neither maps a block of the super block, the bitmaps or the inode
    -- table.
    pub get_block_never_shared :
        iblock < zone_ptr_in_inode_num * st.sbi.asb_blocks_per_zone
        → iblock' < zone_ptr_in_inode_num * st.sbi.asb_blocks_per_zone
        → zone_ptr first.0 k (iblock / st.sbi.asb_blocks_per_zone) ≢ 0
        → zone_ptr last.0 k' (iblock' / st.sbi.asb_blocks_per_zone) ≢ 0
        → ¬ ((k ≡ k') × (iblock ≡ iblock'))
        → (b : ℕ) × (b' : ℕ) × (first.1 ≡ ok b)
          × (last.1 ≡ ok b')
          × (b ≢ b')
          × (metadata_blocks st.sbi ≤ b)
          × (metadata_blocks st.sbi ≤ b')
    get_block_never_shared within within' there there' differ =
        let idx = iblock / st.sbi.asb_blocks_per_zone in
        let kept = first-last idx there in
        let there-last = λ (z : zone_ptr last.0 k idx ≡ 0). there (sym kept ∙ z) in
        (
          iblock % st.sbi.asb_blocks_per_zone + zone_ptr first.0 k idx,
          iblock' % st.sbi.asb_blocks_per_zone
              + zone_ptr last.0 k' (iblock' / st.sbi.asb_blocks_per_zone),
          get_block_step-block ops beyond s_blocksize st sound k iblock b_size divides within,
          last-block within',
          λ e. differ (
              last-apart there-last there'
                (ap (λ (p : ℕ). iblock % st.sbi.asb_blocks_per_zone + p) kept ∙ e)),
          subst (λ (p : ℕ). metadata_blocks st.sbi ≤ iblock % st.sbi.asb_blocks_per_zone + p) kept
              (metadata-keeps k iblock there-last),
          metadata-keeps k' iblock' there',
        )
