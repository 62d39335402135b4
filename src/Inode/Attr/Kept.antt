-- ===== src/Inode/Attr/Kept.antt =====
-- What the attributes leave, and what they say of the size.
use aufs_enabled.Base.{
  ℕ, ◌+◌, ◌-◌, ◌*◌, ◌/◌, ◌^◌, ◌<◌, ◌≤◌, Bool, true, false, not, ◌&&◌, ◌==◌, ==_iff, none, some,
  if◌then◌else◌, u32, u64, ◌≡◌, ◌⊎◌, ◌∙◌, inl, inr, ap, arith, Bool-cases, Option-cases, sym,
}
use aufs_enabled.Kernel.{Errno}
use aufs_enabled.Vfs.{AufsInode}
use aufs_enabled.Inode.Attr.{Iattr, Attributes, copy_attr, minix_setattr}

module _ (kernel : Attributes) where
  open kernel use {
    setattr_prepare, inode_newsize_ok, truncate_setsize, setattr_copy, generic_fillattr,
  }

  -- The size that is asked for, or that the inode has.
  abbrev pub size_after : AufsInode → Iattr → ℕ
  size_after inode attr = if attr.attr_size then attr.ia_size else inode.i_size

  -- Whether another size is asked for.
  abbrev pub resizes : AufsInode → Iattr → Bool
  resizes inode attr = attr.attr_size && not (attr.ia_size == inode.i_size)

  -- What `attr` makes of the inode: another size first, if one is asked for, then the other attributes.
  abbrev pub AttrSet : (before : AufsInode) → Iattr → (after : AufsInode) → Type 0
  AttrSet before attr after =
      (after ≡ record (setattr_copy (record before { i_size = size_after before attr }) attr) {
        dirty = true;
      })
      × (after.i_size ≡ size_after before attr)
      × (after.ai_zone_ptr ≡ before.ai_zone_ptr)

  resized :
      (inode : AufsInode) (attr : Iattr) (size : ℕ) (after : AufsInode)
      → size_after inode attr ≡ size
      → after ≡ copy_attr kernel (record inode { i_size = size }) attr
      → AttrSet inode attr after
  unfolding copy_attr
  resized inode attr size after asked e =
      let sized = record inode { i_size = size } in
      let whole : after
          ≡ record (setattr_copy (record inode { i_size = size_after inode attr }) attr) {
            dirty = true;
          } =
        rw asked e in
      (
        whole,
        ap (λ (i : AufsInode). i.i_size) e ∙ (kernel.setattr_copy-size sized attr ∙ sym asked),
        ap (λ (i : AufsInode). i.ai_zone_ptr) e ∙ kernel.setattr_copy-zones sized attr,
      )

  -- What `minix_setattr` comes to. Where `setattr_prepare` refuses the attributes, it fails with that
  -- error; where it does not, another size is asked for, and `inode_newsize_ok` refuses it, with
  -- that error; in both cases the inode is as before. Otherwise it succeeds: the inode has the size
  -- that is asked for, if one is, and else its old one, then what `setattr_copy` sets, is marked
  -- dirty, and has every zone that it had. No zone is given back when the file gets shorter.
  pub minix_setattr-outcome :
      (inode : AufsInode) (attr : Iattr)
      → let r = minix_setattr kernel inode attr in
        ((e : Errno) × (setattr_prepare inode attr ≡ some e) × (r ≡ (some e, inode)))
        ⊎ ((e : Errno) × (setattr_prepare inode attr ≡ none)
            × (resizes inode attr ≡ true)
            × (inode_newsize_ok inode attr.ia_size ≡ some e)
            × (r ≡ (some e, inode)))
        ⊎ ((setattr_prepare inode attr ≡ none)
            × ((resizes inode attr ≡ false) ⊎ (inode_newsize_ok inode attr.ia_size ≡ none))
            × (r.0 ≡ none)
            × AttrSet inode attr r.1)
  unfolding minix_setattr
  minix_setattr-outcome inode attr = elim (Option-cases (setattr_prepare inode attr)) [
    | inr (e, p) ↦ inl (e, p, rw (minix_setattr, p))
    | inl p ↦ elim (Bool-cases (resizes inode attr)) [
      | inr same ↦
          let asked : size_after inode attr ≡ inode.i_size =
            ground (arith, ==_iff attr.ia_size inode.i_size) in
          inr (
            inr (
              p,
              inl same,
              rw (minix_setattr, p, same),
              resized inode attr inode.i_size (minix_setattr kernel inode attr).1 asked
                  (rw (minix_setattr, p, same)),
            ))
      | inl other ↦
          let asked : size_after inode attr ≡ attr.ia_size = ground arith in
          elim (Option-cases (inode_newsize_ok inode attr.ia_size)) [
            | inr (e, n) ↦ inr (inl (e, p, other, n, rw (minix_setattr, p, other, n)))
            | inl n ↦
                let end : (minix_setattr kernel inode attr).1
                    ≡ copy_attr kernel (truncate_setsize inode attr.ia_size) attr =
                  rw (minix_setattr, p, other, n) in
                inr (
                  inr (
                    p,
                    inr n,
                    rw (minix_setattr, p, other, n),
                    resized inode attr attr.ia_size (minix_setattr kernel inode attr).1 asked (
                        end
                        ∙ ap (λ (i : AufsInode). copy_attr kernel i attr)
                            (kernel.truncate_setsize_lem inode attr.ia_size)),
                  ))
          ]
    ]
  ]

-- The blocks of 512 bytes, for `2 ^ bits` bytes to a block.
blocks_of : (size bits : ℕ) → ℕ
blocks_of size bits = u64 (2 ^ bits / 512 * u32 ((size + 2 ^ bits - 1) / 2 ^ (10 + bits - 10)))

abbrev Rounded : (size bits : ℕ) → Type 0
Rounded size bits =
    (size ≤ 512 * blocks_of size bits) × (512 * blocks_of size bits < size + 2 ^ bits)
