-- ===== src/Super/Mount/Established.antt =====
-- What a mount establishes, and how it fails.
use mathlib.Core.Option.{some_inj}
use aufs_enabled.Base.{
  none, ◌⊎◌, Bool-cases, ℕ, zero, suc, ◌+◌, ◌<◌, Bool, true, false, some, List, [], ◌∷◌, ◌==◌,
  length, Option-cases, ◌≡◌, ◌≢◌, ◌∙◌, inl, inr, refl, sym, ap, subst, arith, >>=-eq-some, guard,
  guard-eq-some, ==_iff,
}
use aufs_enabled.Kernel.{BufferHead, BitOps, ByteOrder}
use aufs_enabled.Super.{AufsSuperBlock}
use aufs_enabled.Inode.Table.{BufferCache, Iget}
use aufs_enabled.Bitmap.Maps.{map_bit}
use aufs_enabled.Super.Mount.{
  DiskSuperBlock, Device, Memory, null_dereference, aufs_magic, zeroed, aufs_super_block_fill,
  read_maps, mark_first, reserve, read_bitmaps, check_bitmaps, aufs_super_block_read, aufs_fill_sb,
  got, null, stray, stray_access,
}

module _ (ops : BitOps) (order : ByteOrder) where
  open ops use {Bits, set_bit, test_bit, test_bit-set_bit}

  pub length-read_maps :
      (dev : Device Bits) (left block : ℕ) (bufs : List (BufferHead Bits))
      → read_maps ops dev left block ≡ some bufs
      → length bufs ≡ left
  unfolding read_maps
  length-read_maps dev zero block bufs e = ground arith
  length-read_maps dev (suc left) block bufs e =
      let (bits, _, e') = >>=-eq-some (dev.bitmap block) _ e in
      let (rest, more, e'') = >>=-eq-some (read_maps ops dev left (suc block)) _ e' in
      let shape : record { b_data = bits; dirty = false } ∷ rest ≡ bufs = cc in
      ap length (sym shape) ∙ ap suc (length-read_maps dev left (suc block) rest more)

  -- Both maps are as long as before, and have bit 0 taken.
  pub record IsReserved (zmap imap zmap' imap' : List (BufferHead Bits)) : Type 0 where
    zone_length : length zmap' ≡ length zmap
    inode_length : length imap' ≡ length imap
    zone_bit : (b : ℕ) → 0 < b → map_bit ops b zmap' 0 ≡ true
    inode_bit : (b : ℕ) → 0 < b → map_bit ops b imap' 0 ≡ true
    pub inode_map : 0 < length imap

  map_bit-mark_first :
      (b : ℕ) (bh : BufferHead Bits) (bufs : List (BufferHead Bits))
      → 0 < b
      → map_bit ops b (mark_first ops bh ∷ bufs) 0 ≡ true
  unfolding mark_first
  map_bit-mark_first b bh bufs h = ground (arith, test_bit-set_bit 0 0 bh.b_data)

  pub reserve-IsReserved :
      (zmap imap zmap' imap' : List (BufferHead Bits))
      → reserve ops zmap imap ≡ some (zmap', imap')
      → IsReserved zmap imap zmap' imap'
  unfolding reserve
  reserve-IsReserved zmap [] zmap' imap' e = cc
  reserve-IsReserved [] (bi ∷ imap) zmap' imap' e =
      subst
        (λ (r : List (BufferHead Bits) × List (BufferHead Bits)). IsReserved [] (bi ∷ imap) r.0 r.1)
        (some_inj.0 e)
        (record {
          zone_length = refl;
          inode_length = refl;
          zone_bit = λ b h. refl;
          inode_bit = λ b h. map_bit-mark_first b (mark_first ops bi) imap h;
          inode_map = omega arith;
        })
  reserve-IsReserved (bz ∷ zmap) (bi ∷ imap) zmap' imap' e =
      subst
        (λ (r : List (BufferHead Bits) × List (BufferHead Bits)).
          IsReserved (bz ∷ zmap) (bi ∷ imap) r.0 r.1)
        (some_inj.0 e)
        (record {
          zone_length = refl;
          inode_length = refl;
          zone_bit = λ b h. map_bit-mark_first b bz zmap h;
          inode_bit = λ b h. map_bit-mark_first b bi imap h;
          inode_map = omega arith;
        })

  -- What `aufs_super_block_read` returns, from the super block on the disk.
  pub record IsLoaded (dsb : DiskSuperBlock) (asb : AufsSuperBlock Bits) : Type 0 where
    pub magic : order.be32_to_cpu dsb.dsb_magic ≡ aufs_magic
    pub fields : asb ≡ record (aufs_super_block_fill order zeroed dsb) {
      s_zmap = asb.s_zmap;
      s_imap = asb.s_imap;
    }
    pub zmap_whole : length asb.s_zmap ≡ asb.asb_zone_map_blocks
    pub imap_whole : length asb.s_imap ≡ asb.asb_inode_map_blocks
    pub zone_reserved : (b : ℕ) → 0 < b → map_bit ops b asb.s_zmap 0 ≡ true
    pub inode_reserved : (b : ℕ) → 0 < b → map_bit ops b asb.s_imap 0 ≡ true

  -- What is read before the bits are set.
  pub record IsFetched (memory : Memory) (dev : Device Bits) (asb : AufsSuperBlock Bits)
      : Type 0 where
    pub dsb : DiskSuperBlock
    pub block : dev.super_block ≡ some dsb
    pub fields : asb ≡ record (aufs_super_block_fill order zeroed dsb) {
      s_zmap = asb.s_zmap;
      s_imap = asb.s_imap;
    }
    pub room : (memory.asb ≡ true) × (memory.map ≡ true)
    pub zmap_read : read_maps ops dev asb.asb_zone_map_blocks 1 ≡ some asb.s_zmap
    pub imap_read :
        read_maps ops dev asb.asb_inode_map_blocks (1 + asb.asb_zone_map_blocks) ≡ some asb.s_imap

  pub read_bitmaps-IsFetched :
      (memory : Memory) (dev : Device Bits) (asb : AufsSuperBlock Bits)
      → read_bitmaps ops order memory dev ≡ some asb
      → IsFetched memory dev asb
  unfolding read_bitmaps
  read_bitmaps-IsFetched memory dev asb success =
      let (_, a, e₁) = >>=-eq-some (guard memory.asb) _ success in
      let (dsb, block, e₂) = >>=-eq-some dev.super_block _ e₁ in
      let filled = aufs_super_block_fill order (zeroed {B = Bits}) dsb in
      let (_, m, e₃) = >>=-eq-some (guard memory.map) _ e₂ in
      let (zmap, z, e₄) = >>=-eq-some (read_maps ops dev filled.asb_zone_map_blocks 1) _ e₃ in
      let (imap, i, e₅) =
        >>=-eq-some (read_maps ops dev filled.asb_inode_map_blocks (1 + filled.asb_zone_map_blocks))
          _ e₄ in
      let same : record filled { s_zmap = zmap; s_imap = imap } ≡ asb = some_inj.0 e₅ in
      subst (IsFetched memory dev) same (record {
        dsb = dsb;
        block = block;
        fields = refl;
        room = (guard-eq-some _ a, guard-eq-some _ m);
        zmap_read = z;
        imap_read = i;
      })

  -- The parts of a super block that was read.
  pub record IsChecked (memory : Memory) (dev : Device Bits) (asb : AufsSuperBlock Bits)
      : Type 0 where
    pub fetched : AufsSuperBlock Bits
    pub is_fetched : IsFetched memory dev fetched
    pub magic : fetched.asb_magic ≡ aufs_magic
    pub reserved : reserve ops fetched.s_zmap fetched.s_imap ≡ some (asb.s_zmap, asb.s_imap)
    pub kept : asb ≡ record fetched { s_zmap = asb.s_zmap; s_imap = asb.s_imap }

  got-inj : (a b : AufsSuperBlock Bits) → got a ≡ got b → a ≡ b
  got-inj a b e = cc

  -- What `check_bitmaps` comes to.
  pub check_bitmaps-cases :
      (fetched : AufsSuperBlock Bits)
      → ((check_bitmaps ops fetched ≡ stray) × (length fetched.s_imap ≡ 0))
        ⊎ (((check_bitmaps ops fetched ≡ null)
              × ((fetched.asb_magic == aufs_magic) ≡ false)
              × (0 < length fetched.s_imap))
            ⊎ ((zmap : List (BufferHead Bits)) × (imap : List (BufferHead Bits)) × (reserve ops
                    fetched.s_zmap fetched.s_imap
                  ≡ some (zmap, imap))
                × ((fetched.asb_magic == aufs_magic) ≡ true)
                × (check_bitmaps ops fetched
                    ≡ got (record fetched { s_zmap = zmap; s_imap = imap }))))
  unfolding check_bitmaps
  check_bitmaps-cases fetched = elim (Option-cases (reserve ops fetched.s_zmap fetched.s_imap)) [
    | inl e ↦ inl (rw (check_bitmaps, e), no_inode_map fetched.s_zmap fetched.s_imap e)
    | inr ((zmap, imap), e) ↦
        let all = reserve-IsReserved fetched.s_zmap fetched.s_imap zmap imap e in
        elim (Bool-cases (fetched.asb_magic == aufs_magic)) [
          | inr wrong ↦ inr (inl (rw (check_bitmaps, e, wrong), wrong, all.inode_map))
          | inl right ↦ inr (inr (zmap, imap, e, right, rw (check_bitmaps, e, right)))
        ]
  ]
    where
      no_inode_map :
          (zmap imap : List (BufferHead Bits)) → reserve ops zmap imap ≡ none → length imap ≡ 0
      no_inode_map zmap [] e = refl
      no_inode_map [] (bi ∷ imap) e = cc
      no_inode_map (bz ∷ zmap) (bi ∷ imap) e = cc

  module _ (memory : Memory) (dev : Device Bits) (asb : AufsSuperBlock Bits)
      (success : aufs_super_block_read ops order memory dev ≡ got asb) where
    pub aufs_super_block_read-IsChecked : IsChecked memory dev asb
    unfolding aufs_super_block_read
    aufs_super_block_read-IsChecked = elim (Option-cases (read_bitmaps ops order memory dev)) [
      | inl e ↦ absurd (cc (rw (aufs_super_block_read, e) at success))
      | inr (fetched, e) ↦
          let checked : check_bitmaps ops fetched ≡ got asb =
            rw (aufs_super_block_read, e) at success in
          elim (check_bitmaps-cases fetched) [
            | inl (bad, _) ↦ absurd (cc)
            | inr (inl (bad, _, _)) ↦ absurd (cc)
            | inr (inr (zmap, imap, r, magic, end)) ↦
                let same : record fetched { s_zmap = zmap; s_imap = imap } ≡ asb =
                  got-inj _ asb (sym end ∙ checked) in
                subst (IsChecked memory dev) same (record {
                  fetched = fetched;
                  is_fetched = read_bitmaps-IsFetched memory dev fetched e;
                  magic = (==_iff fetched.asb_magic aufs_magic).0 magic;
                  reserved = r;
                  kept = refl;
                })
          ]
    ]

    -- A super block that `aufs_super_block_read` returns holds the fields of block 0, with the right magic number, as
    -- many buffers for each bitmap as the fields say, and bit 0 of each bitmap taken.
    pub aufs_super_block_read-IsLoaded :
        (dsb : DiskSuperBlock) × (dev.super_block ≡ some dsb) × IsLoaded dsb asb
    unfolding aufs_super_block_fill
    aufs_super_block_read-IsLoaded =
        let c = aufs_super_block_read-IsChecked in
        let f = c.is_fetched in
        let all =
          reserve-IsReserved c.fetched.s_zmap c.fetched.s_imap asb.s_zmap asb.s_imap c.reserved in
        let zones = ap (λ (sb : AufsSuperBlock Bits). sb.asb_zone_map_blocks) c.kept in
        let inodes = ap (λ (sb : AufsSuperBlock Bits). sb.asb_inode_map_blocks) c.kept in
        (
          f.dsb,
          f.block,
          record {
            magic = sym (ap (λ (sb : AufsSuperBlock Bits). sb.asb_magic) f.fields) ∙ c.magic;
            fields =
                c.kept
                ∙ ap
                    (λ (sb : AufsSuperBlock Bits). record sb {
                      s_zmap = asb.s_zmap;
                      s_imap = asb.s_imap;
                    })
                    f.fields;
            zmap_whole =
                all.zone_length
                ∙ (length-read_maps dev _ 1 c.fetched.s_zmap f.zmap_read ∙ sym zones);
            imap_whole =
                all.inode_length
                ∙ (length-read_maps dev _ _ c.fetched.s_imap f.imap_read ∙ sym inodes);
            zone_reserved = all.zone_bit;
            inode_reserved = all.inode_bit;
          },
        )

  -- Mounting a device whose block 0 is there and has another magic number never fails with an error,
  -- whatever else holds: `aufs_fill_sb` reads through a NULL pointer, or, if the inode map has no
  -- block by block 0, it may instead have used what lies behind the array of buffers.
  pub aufs_fill_sb-wrong_magic :
      (memory : Memory) (dev : Device Bits) (set_blocksize : ℕ → Bool) (cache : BufferCache)
      (icache : Iget) (make_root : Bool) (dsb : DiskSuperBlock)
      → dev.super_block ≡ some dsb
      → order.be32_to_cpu dsb.dsb_magic ≢ aufs_magic
      → let end = aufs_fill_sb ops order memory dev set_blocksize cache icache make_root in
        (end ≡ null_dereference)
        ⊎ ((end ≡ stray_access) × (order.be32_to_cpu dsb.dsb_inode_map_blocks ≡ 0))
  unfolding aufs_fill_sb aufs_super_block_read aufs_super_block_fill
  aufs_fill_sb-wrong_magic memory dev set_blocksize cache icache make_root dsb block wrong =
      elim (Option-cases (read_bitmaps ops order memory dev)) [
        | inl e ↦ inl (rw (aufs_fill_sb, aufs_super_block_read, e))
        | inr (fetched, e) ↦
            let f = read_bitmaps-IsFetched memory dev fetched e in
            let same : f.dsb ≡ dsb = some_inj.0 (sym f.block ∙ block) in
            let magic : fetched.asb_magic ≡ order.be32_to_cpu dsb.dsb_magic =
              ap (λ (sb : AufsSuperBlock Bits). sb.asb_magic) f.fields
              ∙ ap (λ (d : DiskSuperBlock). order.be32_to_cpu d.dsb_magic) same in
            let count : fetched.asb_inode_map_blocks ≡ order.be32_to_cpu dsb.dsb_inode_map_blocks =
              ap (λ (sb : AufsSuperBlock Bits). sb.asb_inode_map_blocks) f.fields
              ∙ ap (λ (d : DiskSuperBlock). order.be32_to_cpu d.dsb_inode_map_blocks) same in
            elim (check_bitmaps-cases fetched) [
              | inl (s, none_left) ↦ inr (
                rw (aufs_fill_sb, aufs_super_block_read, e) (rw s),
                sym count ∙ (sym (length-read_maps dev _ _ fetched.s_imap f.imap_read) ∙ none_left),
              )
              | inr (inl (n, _, _)) ↦ inl (rw (aufs_fill_sb, aufs_super_block_read, e) (rw n))
              | inr (inr (_, _, _, right, _)) ↦
                  absurd (wrong (sym magic ∙ (==_iff fetched.asb_magic aufs_magic).0 right))
            ]
      ]
