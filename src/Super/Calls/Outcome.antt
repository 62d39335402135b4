-- ===== src/Super/Calls/Outcome.antt =====
-- What a mount that fails, a mount that succeeds, and an unmount give back.
use mathlib.Core.List.{append-nil}
use aufs_enabled.Base.{
  ℕ, zero, suc, ◌+◌, List, [], ◌∷◌, ◌++◌, Bool, true, false, none, some, ◌==◌, ◌&&◌, ◌≡◌, ◌≢◌, ◌⊎◌,
  inl, inr, refl, sym, ap, subst, arith, Bool-cases, Option-cases, ==_iff, ◌<◌, ◌↔◌,
}
use aufs_enabled.Kernel.{BitOps, ByteOrder, BufferHead}
use aufs_enabled.Super.{AufsSuperBlock}
use aufs_enabled.Super.Mount.{
  DiskSuperBlock, Device, Memory, aufs_magic, zeroed, aufs_super_block_fill, read_maps,
  read_bitmaps, check_bitmaps, aufs_super_block_read, got, null,
}
use aufs_enabled.Super.Mount.Established.{
  length-read_maps, check_bitmaps-cases, reserve-IsReserved, aufs_super_block_read-IsChecked,
}
use aufs_enabled.Super.Calls.{
  Call, Freed, read_blocks, fetch_loop, maps_read, zone_map_read, inode_map_read, map_calls,
  super_block_calls, aufs_put_super,
}
use aufs_enabled.Super.Calls.Returned.{
  IsReturned, IsOverReleased, IsLost, begin, freed-IsOverReleased, half-IsOverReleased,
  no_map-IsOverReleased, nothing-IsReturned, unread-IsReturned, wrong-IsLost, unmounted-IsReturned,
  unmounted-IsIntact, IsIntact,
}

module _ (ops : BitOps) where
  open ops use {Bits}

  read_maps-cases :
      (dev : Device Bits) (left block : ℕ)
      → ((read_maps ops dev left block ≡ none) × ((read_blocks dev left block).1 ≡ false))
        ⊎ ((bufs : List (BufferHead Bits)) × (read_maps ops dev left block ≡ some bufs)
            × ((read_blocks dev left block).1 ≡ true))
  unfolding read_maps read_blocks
  read_maps-cases dev zero block = inr ([], refl, refl)
  read_maps-cases dev (suc left) block = elim (Option-cases (dev.bitmap block)) [
    | inl e ↦ inl (rw e refl, rw (read_blocks, e) refl)
    | inr (bits, e) ↦ elim (read_maps-cases dev left (suc block)) [
      | inl (m, b) ↦ inl (rw (e, m) refl, rw (read_blocks, e) b)
      | inr (bufs, m, b) ↦
          inr
            (record { b_data = bits; dirty = false } ∷ bufs, rw (e, m) refl, rw (read_blocks, e) b)
    ]
  ]

  read_maps-whole :
      (dev : Device Bits) (left block : ℕ) (bufs : List (BufferHead Bits))
      → read_maps ops dev left block ≡ some bufs
      → (read_blocks dev left block).1 ≡ true
  read_maps-whole dev left block bufs e = elim (read_maps-cases dev left block) [
    | inl (n, _) ↦ cc
    | inr (_, _, w) ↦ w
  ]

  module _ (order : ByteOrder) (memory : Memory) (dev : Device Bits) where
    -- `aufs_super_block_fill` of the block that was read.
    abbrev pub filled : DiskSuperBlock → AufsSuperBlock Bits
    filled dsb = aufs_super_block_fill order (zeroed {B = Bits}) dsb

    -- Both maps were got.
    abbrev pub whole : AufsSuperBlock Bits → Bool
    whole asb = (zone_map_read asb dev).1 && (inode_map_read asb dev).1

    map_calls-whole :
        (asb : AufsSuperBlock Bits)
        → whole asb ≡ true
        → map_calls asb dev
          ≡ fetch_loop (zone_map_read asb dev).0
            ++ (fetch_loop (inode_map_read asb dev).0 ++ maps_read asb)
    unfolding map_calls
    map_calls-whole asb w =
        let zwhole : (zone_map_read asb dev).1 ≡ true = ground (arith, w) in
        let iwhole : (inode_map_read asb dev).1 ≡ true = ground (arith, w) in
        rw (map_calls, zwhole, iwhole) refl

    map_calls-IsOverReleased :
        (asb : AufsSuperBlock Bits)
        → whole asb ≡ false
        → IsOverReleased (begin ++ map_calls asb dev)
    unfolding map_calls
    map_calls-IsOverReleased asb w =
        let zs = (zone_map_read asb dev).0 in
        let is = (inode_map_read asb dev).0 in
        elim (Bool-cases (zone_map_read asb dev).1) [
          | inr z ↦
              subst IsOverReleased
                (ap (λ (calls : List Call). begin ++ calls) (sym (rw (map_calls, z) refl)))
                (half-IsOverReleased zs)
          | inl z ↦
              subst IsOverReleased
                (ap (λ (calls : List Call). begin ++ calls)
                  (sym (rw (map_calls, z, rw z at w) refl)))
                (freed-IsOverReleased zs is)
        ]

    -- The buffers of both maps.
    read_bitmaps-whole :
        (dsb : DiskSuperBlock)
        → memory.asb ≡ true
        → dev.super_block ≡ some dsb
        → memory.map ≡ true
        → whole (filled dsb) ≡ true
        → (zmap : List (BufferHead Bits)) × (imap : List (BufferHead Bits)) × (read_maps ops dev
              (filled dsb).asb_inode_map_blocks
              (1 + (filled dsb).asb_zone_map_blocks)
            ≡ some imap)
          × (read_bitmaps ops order memory dev
              ≡ some (record (filled dsb) { s_zmap = zmap; s_imap = imap }))
    unfolding read_bitmaps
    read_bitmaps-whole dsb a e m w =
        let asb = filled dsb in
        elim (read_maps-cases dev asb.asb_zone_map_blocks 1) [
          | inl (_, z) ↦ let bad = rw z at w in cc
          | inr (zmap, z, zw) ↦
              elim (read_maps-cases dev asb.asb_inode_map_blocks (1 + asb.asb_zone_map_blocks)) [
                | inl (_, i) ↦ let bad = rw (zw, i) at w in cc
                | inr (imap, i, _) ↦ (zmap, imap, i, rw (read_bitmaps, a, e, m, z, i) refl)
              ]
        ]

    -- Where both maps are read and NULL comes back, the inode map has a block and the magic number is
    -- another.
    whole-null :
        (dsb : DiskSuperBlock)
        → memory.asb ≡ true
        → dev.super_block ≡ some dsb
        → memory.map ≡ true
        → whole (filled dsb) ≡ true
        → aufs_super_block_read ops order memory dev ≡ null
        → (((filled dsb).asb_inode_map_blocks == 0) ≡ false)
          × (((filled dsb).asb_magic == aufs_magic) ≡ false)
    unfolding aufs_super_block_read
    whole-null dsb a e m w fail =
        let asb = filled dsb in
        let (zmap, imap, i, read) = read_bitmaps-whole dsb a e m w in
        let size = length-read_maps ops order dev _ _ imap i in
        let end : check_bitmaps ops (record asb { s_zmap = zmap; s_imap = imap }) ≡ null =
          rw (aufs_super_block_read, read) at fail in
        elim (check_bitmaps-cases ops order (record asb { s_zmap = zmap; s_imap = imap })) [
          | inl (s, _) ↦ absurd (cc)
          | inr (inl (_, wrong, some_map)) ↦ (
            let pos : 0 < asb.asb_inode_map_blocks = omega (arith, size, some_map) in ground arith,
            wrong,
          )
          | inr (inr (_, _, _, _, g)) ↦ absurd (cc)
        ]

    -- A mount whose `aufs_super_block_read` returns NULL: without memory or block 0 everything that was
    -- got is given back; without the array or a block of a map the buffer of block 0 is released twice,
    -- and the rest is given back; and with another magic number the buffers of both maps and the array
    -- are never given back.
    pub aufs_super_block_read-failed :
        aufs_super_block_read ops order memory dev ≡ null
        → (((memory.asb ≡ false) ⊎ (dev.super_block ≡ none))
            × IsReturned (super_block_calls order memory dev))
          ⊎ ((dsb : DiskSuperBlock) × (dev.super_block ≡ some dsb)
              × ((memory.map && whole (filled dsb)) ≡ false)
              × IsOverReleased (super_block_calls order memory dev))
          ⊎ ((dsb : DiskSuperBlock) × (dev.super_block ≡ some dsb)
              × (whole (filled dsb) ≡ true)
              × ((filled dsb).asb_magic ≢ aufs_magic)
              × IsLost
                  ((zone_map_read (filled dsb) dev).0 ++ (inode_map_read (filled dsb) dev).0)
                  (super_block_calls order memory dev))
    unfolding super_block_calls
    aufs_super_block_read-failed fail = elim (Bool-cases memory.asb) [
      | inr a ↦ inl (inl a, rw (super_block_calls, a) nothing-IsReturned)
      | inl a ↦ elim (Option-cases dev.super_block) [
        | inl e ↦ inl (inr e, rw (super_block_calls, a, e) unread-IsReturned)
        | inr (dsb, e) ↦ elim (Bool-cases memory.map) [
          | inr m ↦
              inr (inl (dsb, e, rw m refl, rw (super_block_calls, a, e, m) no_map-IsOverReleased))
          | inl m ↦ elim (Bool-cases (whole (filled dsb))) [
            | inr w ↦ inr (
                inl (
                  dsb,
                  e,
                  rw m w,
                  rw (super_block_calls, a, e, m) (map_calls-IsOverReleased (filled dsb) w),
                ))
            | inl w ↦
                let (some_map, magic) = whole-null dsb a e m w fail in
                inr (
                  inr (
                    dsb,
                    e,
                    w,
                    λ same. let yes = (==_iff (filled dsb).asb_magic aufs_magic).1 same in cc,
                    subst
                        (IsLost (
                          (zone_map_read (filled dsb) dev).0
                          ++ (inode_map_read (filled dsb) dev).0))
                        (sym (
                          rw
                            (
                              super_block_calls,
                              a,
                              e,
                              m,
                              map_calls-whole (filled dsb) w,
                              maps_read,
                              some_map,
                              magic,
                            )
                            refl))
                        (wrong-IsLost (zone_map_read (filled dsb) dev).0
                          (inode_map_read (filled dsb) dev).0),
                  ))
          ]
        ]
      ]
    ]

    made_calls :
        (dsb : DiskSuperBlock)
        → memory.asb ≡ true
        → dev.super_block ≡ some dsb
        → memory.map ≡ true
        → whole (filled dsb) ≡ true
        → ((filled dsb).asb_inode_map_blocks == 0) ≡ false
        → ((filled dsb).asb_magic == aufs_magic) ≡ true
        → super_block_calls order memory dev
          ≡ begin
            ++ (fetch_loop (zone_map_read (filled dsb) dev).0
                ++ fetch_loop (inode_map_read (filled dsb) dev).0)
    unfolding super_block_calls
    made_calls dsb a e m w some_map magic =
        rw (super_block_calls, a, e, m, map_calls-whole (filled dsb) w, maps_read, some_map, magic)
          (ap
            (λ (calls : List Call).
              begin ++ (fetch_loop (zone_map_read (filled dsb) dev).0 ++ calls))
            (append-nil (fetch_loop (inode_map_read (filled dsb) dev).0)))

    -- What a mount calls whose `aufs_super_block_read` succeeds.
    mounted_calls :
        (asb : AufsSuperBlock Bits)
        → aufs_super_block_read ops order memory dev ≡ got asb
        → super_block_calls order memory dev
          ≡ begin ++ (fetch_loop (zone_map_read asb dev).0 ++ fetch_loop (inode_map_read asb dev).0)
    mounted_calls asb success =
        let c = aufs_super_block_read-IsChecked ops order memory dev asb success in
        let f = c.is_fetched in
        let P = λ (sb : AufsSuperBlock Bits).
          super_block_calls order memory dev
          ≡ begin
            ++ (fetch_loop (zone_map_read sb dev).0 ++ fetch_loop (inode_map_read sb dev).0) in
        let all =
          reserve-IsReserved ops order c.fetched.s_zmap c.fetched.s_imap asb.s_zmap asb.s_imap
            c.reserved in
        let both : whole c.fetched ≡ true =
          rw
            (
              read_maps-whole dev _ 1 c.fetched.s_zmap f.zmap_read,
              read_maps-whole dev _ _ c.fetched.s_imap f.imap_read,
            )
            refl in
        let size = length-read_maps ops order dev _ _ c.fetched.s_imap f.imap_read in
        let pos : 0 < c.fetched.asb_inode_map_blocks = omega (arith, size, all.inode_map) in
        let some_map : (c.fetched.asb_inode_map_blocks == 0) ≡ false = ground arith in
        let made =
          made_calls f.dsb f.room.0 f.block f.room.1
            (subst (λ (sb : AufsSuperBlock Bits). whole sb ≡ true) f.fields both)
            (subst (λ (sb : AufsSuperBlock Bits). (sb.asb_inode_map_blocks == 0) ≡ false) f.fields
              some_map)
            (subst (λ (sb : AufsSuperBlock Bits). (sb.asb_magic == aufs_magic) ≡ true) f.fields
              ((==_iff c.fetched.asb_magic aufs_magic).1 c.magic)) in
        subst P (sym c.kept) (subst P (sym f.fields) made)

    -- A mount whose `aufs_super_block_read` succeeds, and the unmount after it. `aufs_put_super` frees
    -- `asb` first, and takes the arrays and their bounds from what its memory then holds. Every buffer
    -- that was got is released once and both pieces of memory are freed once exactly when that memory
    -- still leads to the array and to the same buffers, each as often as it was got.
    pub aufs_put_super-IsReturned_iff :
        (asb : AufsSuperBlock Bits)
        → aufs_super_block_read ops order memory dev ≡ got asb
        → (freed : Freed)
        → IsReturned (super_block_calls order memory dev ++ aufs_put_super freed)
          ↔ IsIntact (zone_map_read asb dev).0 (inode_map_read asb dev).0 freed
    aufs_put_super-IsReturned_iff asb success freed =
        let zs = (zone_map_read asb dev).0 in
        let is = (inode_map_read asb dev).0 in
        subst
          (λ (calls : List Call). IsReturned (calls ++ aufs_put_super freed) ↔ IsIntact zs is freed)
          (sym (mounted_calls asb success))
          (unmounted-IsIntact zs is freed, unmounted-IsReturned zs is freed)
