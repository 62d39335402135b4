-- ===== src/Inode/Pages/Calls.antt =====
-- Files that are read, written and resized, in any order.
use aufs_enabled.Base.{
  ℕ, List, [], ◌∷◌, Option, ◌==◌, if◌then◌else◌, ◌≡◌, ◌≢◌, ◌∙◌, inl, inr, refl, sym, ap, ==-cases,
}
use aufs_enabled.Kernel.{BitOps, Errno}
use aufs_enabled.Vfs.{AufsInode}
use aufs_enabled.Super.{AufsSuperBlock}
use aufs_enabled.Inode.Block.{FsState, zone_ptr}
use aufs_enabled.Inode.Block.Ownership.{IsSound, IsSound-keep}
use aufs_enabled.Inode.Block.Sharing.{Keeps}
use aufs_enabled.Inode.Attr.{Iattr, Attributes, minix_setattr}
use aufs_enabled.Inode.Attr.Kept.{minix_setattr-outcome}
use aufs_enabled.Inode.Pages.{
  PageIo, aufs_readpage, aufs_writepage, minix_write_begin, minix_prepare_chunk,
}
use aufs_enabled.Inode.Pages.Kept.{
  IsExtended, aufs_readpage-IsExtended, aufs_writepage-IsExtended, minix_write_begin-IsExtended,
  minix_prepare_chunk-IsExtended,
}

-- A call of the kernel for inode `ino`.
pub data FileCall : Type 0 where
  readpage : (ino page : ℕ) → FileCall
  writepage : (ino page : ℕ) → FileCall
  write_begin : (ino pos len : ℕ) → FileCall
  prepare_chunk : (ino page pos len : ℕ) → FileCall
  setattr : (ino : ℕ) (attr : Iattr) → FileCall

module _ (ops : BitOps) (beyond : ℕ → ℕ) (s_blocksize : ℕ) (io : PageIo (FsState ops.Bits))
    (kernel : Attributes) where
  open ops use {Bits}

  unfoldable pub call : FileCall → FsState Bits → FsState Bits
  call (readpage ino page) st = (aufs_readpage ops beyond s_blocksize io ino page st).0
  call (writepage ino page) st = (aufs_writepage ops beyond s_blocksize io ino page st).0
  call (write_begin ino pos len) st = (minix_write_begin ops beyond s_blocksize io ino pos len st).0
  call (prepare_chunk ino page pos len) st =
      (minix_prepare_chunk ops beyond s_blocksize io ino page pos len st).0
  call (setattr ino attr) st = record st {
    inodes = λ n. if n == ino then (minix_setattr kernel (st.inodes ino) attr).1 else st.inodes n;
  }

  unfoldable pub call_all : List FileCall → FsState Bits → FsState Bits
  unfolding call
  call_all [] st = st
  call_all (c ∷ calls) st = call_all calls (call c st)

  -- The file system is sound, the super block the same but for the map, and zones stay.
  pub record IsKept (st s : FsState Bits) : Type 0 where
    pub sound : IsSound ops s_blocksize s
    pub super_block : Keeps st.sbi s.sbi
    pub zones : (m i : ℕ) → zone_ptr st m i ≢ 0 → zone_ptr s m i ≡ zone_ptr st m i

  IsExtended-IsKept :
      (ino : ℕ) (st s : FsState Bits) → IsExtended ops beyond s_blocksize ino st s → IsKept st s
  IsExtended-IsKept ino st s ext = record {
    sound = ext.sound;
    super_block = ext.super_block;
    zones = ext.zones;
  }

  minix_setattr-zones :
      (inode : AufsInode) (attr : Iattr)
      → (minix_setattr kernel inode attr).1.ai_zone_ptr ≡ inode.ai_zone_ptr
  minix_setattr-zones inode attr = elim (minix_setattr-outcome kernel inode attr) [
    | inl (_, _, r) ↦ ap (λ (r : Option Errno × AufsInode). r.1.ai_zone_ptr) r
    | inr (inl (_, _, _, _, r)) ↦ ap (λ (r : Option Errno × AufsInode). r.1.ai_zone_ptr) r
    | inr (inr (_, _, _, (_, _, zones))) ↦ zones
  ]

  setattr-IsKept :
      (ino : ℕ) (attr : Iattr) (st : FsState Bits)
      → IsSound ops s_blocksize st
      → IsKept st (call (setattr ino attr) st)
  unfolding call
  setattr-IsKept ino attr st sound =
      let f = λ (n : ℕ).
        if n == ino then (minix_setattr kernel (st.inodes ino) attr).1 else st.inodes n in
      let same : (n : ℕ) → (f n).ai_zone_ptr ≡ (st.inodes n).ai_zone_ptr = λ n.
        elim (==-cases n ino) [
          | inl (t, e) ↦ rw (t, e) (minix_setattr-zones (st.inodes ino) attr)
          | inr (t, _) ↦ rw t refl
        ] in
      record {
        sound =
            IsSound-keep ops s_blocksize st sound f (λ k. rw (same k) (sound.nine k))
              (λ k i. rw (same k) refl);
        super_block = refl;
        zones = λ m i _. rw (same m) refl;
      }

  call-IsKept :
      (c : FileCall) (st : FsState Bits) → IsSound ops s_blocksize st → IsKept st (call c st)
  unfolding call
  call-IsKept (readpage ino page) st sound =
      IsExtended-IsKept ino st _
        (aufs_readpage-IsExtended ops beyond s_blocksize io ino st sound page)
  call-IsKept (writepage ino page) st sound =
      IsExtended-IsKept ino st _
        (aufs_writepage-IsExtended ops beyond s_blocksize io ino st sound page)
  call-IsKept (write_begin ino pos len) st sound =
      IsExtended-IsKept ino st _
        (minix_write_begin-IsExtended ops beyond s_blocksize io ino st sound pos len).0
  call-IsKept (prepare_chunk ino page pos len) st sound =
      IsExtended-IsKept ino st _
        (minix_prepare_chunk-IsExtended ops beyond s_blocksize io ino st sound page pos len)
  call-IsKept (setattr ino attr) st sound = setattr-IsKept ino attr st sound

  IsKept-trans : (a b c : FsState Bits) → IsKept a b → IsKept b c → IsKept a c
  IsKept-trans a b c p q = record {
    sound = q.sound;
    super_block =
        q.super_block
        ∙ ap (λ (x : AufsSuperBlock Bits). record x { s_zmap = c.sbi.s_zmap }) p.super_block;
    zones = λ m i ne. q.zones m i (λ z. ne (sym (p.zones m i ne) ∙ z)) ∙ p.zones m i ne;
  }

  -- From a sound file system, after any sequence of reads and writes of pages, beginnings of writes
  -- and settings of attributes, for any files, whether they succeed or fail: the file system is sound,
  -- so no zone belongs to two files; the super block has changed in the zone map only; and every
  -- zone of a file is where it was, also after the file was made shorter.
  pub call_all-IsKept :
      (calls : List FileCall) (st : FsState Bits)
      → IsSound ops s_blocksize st
      → IsKept st (call_all calls st)
  unfolding call_all
  call_all-IsKept [] st sound = record { sound = sound; super_block = refl; zones = λ m i _. refl }
  call_all-IsKept (c ∷ calls) st sound =
      let one = call-IsKept c st sound in
      IsKept-trans st (call c st) (call_all calls (call c st)) one
        (call_all-IsKept calls (call c st) one.sound)
