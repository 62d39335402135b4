-- ===== src/Inode/Table/Sync.antt =====
-- `minix_write_inode` followed by `aufs_inode_get`.
use aufs_enabled.Base.{
  ℕ, ◌/◌, ◌<◌, Bool, true, false, not, ◌&&◌, Option, none, some, List, ◌==◌, if◌then◌else◌, u32,
  int_to_ulong, get_elem?, get_elem?-lt, set, length, ◌≡◌, ◌≢◌, ◌∙◌, ◌⊎◌, inl, inr, Bool-cases,
  refl, ap, arith, ==-cases, get_elem?-set_self, get_elem?-set_ne,
}
use aufs_enabled.Kernel.{BufferHead, ByteOrder, LowIds, Errno, eio}
use aufs_enabled.Vfs.{AufsInode, zone_ptr_in_inode_num}
use aufs_enabled.Super.{AufsSuperBlock, sizeof_disk_inode, aufs_inode_block, aufs_inode_offset}
use aufs_enabled.Inode.Table.{
  DiskInode, BufferCache, raw_of_inode, minix_v2_raw_inode, v2_minix_update_inode,
  minix_write_inode, inode_by_type, aufs_inode_get, put_buffer, invalidate, no_memory, cached,
  fresh, Iget,
}
use aufs_enabled.Inode.Table.Place.{
  HasTable, InTable, aufs_inode_block-lt, aufs_inode_offset-lt, aufs_inode_block-apart,
}
use aufs_enabled.Inode.Table.RoundTrip.{FitsDisk, reloaded, fill-raw}

-- The slot of an inode in its block.
abbrev pub slot_of : {B : Type 0} → AufsSuperBlock B → ℕ → ℕ
slot_of sbi ino = aufs_inode_offset sbi ino / sizeof_disk_inode

-- The block of inode `ino` can be read, and has a raw inode in that place.
pub record IsReadable {B : Type 0} (sbi : AufsSuperBlock B) (cache : BufferCache) (ino : ℕ)
    : Type 0 where
  pub bh : BufferHead (List DiskInode)
  pub read : cache (aufs_inode_block sbi ino) ≡ some bh
  pub raw : DiskInode
  pub there : get_elem? bh.b_data (slot_of sbi ino) ≡ some raw
  pub nine : length raw.di_zone_ptr ≡ zone_ptr_in_inode_num

module _ (order : ByteOrder) (ids : LowIds) {B : Type 0} (sbi : AufsSuperBlock B)
    (table : HasTable sbi) (cache : BufferCache) (inode : AufsInode) (number : 0 < inode.i_ino)
    (within : InTable sbi inode.i_ino) (readable : IsReadable sbi cache inode.i_ino) where
  abbrev ino : ℕ
  ino = inode.i_ino

  abbrev written : List DiskInode
  written = set readable.bh.b_data (slot_of sbi ino) (raw_of_inode order ids inode readable.raw)

  minix_v2_raw_inode_lem :
      minix_v2_raw_inode sbi cache ino
      ≡ some (aufs_inode_block sbi ino, slot_of sbi ino, readable.bh)
  unfolding minix_v2_raw_inode
  minix_v2_raw_inode_lem =
      let block : int_to_ulong (u32 (aufs_inode_block sbi ino)) ≡ aufs_inode_block sbi ino =
        ground (arith, aufs_inode_block-lt sbi table ino within) in
      let offset : u32 (aufs_inode_offset sbi ino) ≡ aufs_inode_offset sbi ino =
        omega (arith, aufs_inode_offset-lt sbi table ino within) in
      let nonzero : (ino == 0) ≡ false = ground arith in
      rw (minix_v2_raw_inode, nonzero, block) (rw readable.read (rw (block, offset)))

  v2_minix_update_inode_lem :
      v2_minix_update_inode order ids sbi cache inode
      ≡ some (aufs_inode_block sbi ino, record { b_data = written; dirty = true })
  unfolding v2_minix_update_inode
  v2_minix_update_inode_lem = rw (minix_v2_raw_inode_lem, v2_minix_update_inode) (rw readable.there)

  module _ (device : BufferCache) where
    -- Whether the call waits for the device, and that fails.
    abbrev pub fails : (sync_all io_ok : Bool) → Bool
    fails sync_all io_ok = sync_all && not io_ok

    abbrev result : (sync_all io_ok : Bool) → BufferCache × Option Errno
    result sync_all io_ok = minix_write_inode order ids sync_all io_ok sbi cache device inode

    -- But for a failure the buffer after `minix_write_inode` holds the written block, clean or not.
    result-written :
        (sync_all io_ok : Bool)
        → fails sync_all io_ok ≡ false
        → (dirty : Bool) × (result sync_all io_ok ≡ (
          put_buffer cache (aufs_inode_block sbi ino) (record { b_data = written; dirty = dirty }),
          none,
        ))
    unfolding minix_write_inode
    result-written true true e = (false, rw (v2_minix_update_inode_lem, minix_write_inode))
    result-written true false e = cc
    result-written false io_ok e = (true, rw (v2_minix_update_inode_lem, minix_write_inode))

    result-failed :
        (sync_all io_ok : Bool)
        → fails sync_all io_ok ≡ true
        → result sync_all io_ok ≡ (invalidate cache (aufs_inode_block sbi ino) device, some eio)
    unfolding minix_write_inode
    result-failed true true e = cc
    result-failed true false e = rw (v2_minix_update_inode_lem, minix_write_inode)
    result-failed false io_ok e = cc

    -- After a failure an inode is read from the device, if it lies in the block that was written.
    invalidate-get :
        (n : ℕ) (g : Iget)
        → aufs_inode_get order sbi (invalidate cache (aufs_inode_block sbi ino) device) g n
          ≡ aufs_inode_get order sbi
              (if aufs_inode_block sbi n == aufs_inode_block sbi ino then device else cache)
              g
              n
    unfolding aufs_inode_get
    invalidate-get n no_memory = refl
    invalidate-get n (cached i) = refl
    invalidate-get n (fresh i) =
        elim (==-cases (aufs_inode_block sbi n) (aufs_inode_block sbi ino)) [
          | inl (t, _) ↦ rw (aufs_inode_get, t)
          | inr (t, _) ↦ rw (aufs_inode_get, t)
        ]

    put_buffer-get :
        (dirty : Bool) (into : AufsInode)
        → length into.ai_zone_ptr ≡ zone_ptr_in_inode_num
        → FitsDisk inode
        → aufs_inode_get order sbi
            (put_buffer cache
              (aufs_inode_block sbi ino)
              (record { b_data = written; dirty = dirty }))
            (fresh into)
            ino
          ≡ inode_by_type (reloaded into inode)
    unfolding aufs_inode_get
    put_buffer-get dirty into nine fits =
        let self : (aufs_inode_block sbi ino == aufs_inode_block sbi ino) ≡ true = ground arith in
        let found =
          get_elem?-set_self readable.bh.b_data (slot_of sbi ino)
            (raw_of_inode order ids inode readable.raw)
            (get_elem?-lt readable.bh.b_data (slot_of sbi ino) readable.there) in
        rw (aufs_inode_get, self)
          (rw found
            (ap inode_by_type (fill-raw order ids into inode readable.raw fits nine readable.nine)))

    put_buffer-frame :
        (dirty : Bool) (other : ℕ) (g : Iget)
        → InTable sbi other
        → other ≢ ino
        → aufs_inode_get order sbi
            (put_buffer cache
              (aufs_inode_block sbi ino)
              (record { b_data = written; dirty = dirty }))
            g
            other
          ≡ aufs_inode_get order sbi cache g other
    unfolding aufs_inode_get
    put_buffer-frame dirty other no_memory h ne = refl
    put_buffer-frame dirty other (cached i) h ne = refl
    put_buffer-frame dirty other (fresh i) h ne =
        elim (==-cases (aufs_inode_block sbi other) (aufs_inode_block sbi ino)) [
          | inr (t, _) ↦ rw (aufs_inode_get, t)
          | inl (t, same) ↦
              let slots : slot_of sbi ino ≢ slot_of sbi other = λ e. ne (
                aufs_inode_block-apart sbi table other ino h within same (omega (arith, e))
                  (omega (arith, e))) in
              let read : cache (aufs_inode_block sbi other) ≡ some readable.bh =
                ap cache same ∙ readable.read in
              let kept =
                get_elem?-set_ne readable.bh.b_data (slot_of sbi ino) (slot_of sbi other)
                  (raw_of_inode order ids inode readable.raw) slots in
              rw (aufs_inode_get, t) (rw kept (rw (aufs_inode_get, read)))
        ]

    -- For an inode of the table, with a number other than 0, whose place can be read, and whose values
    -- fit the disk: `minix_write_inode` fails, with EIO, exactly when it has to wait for the device
    -- and that fails. If it succeeds, `aufs_inode_get` reads into a new inode what was written, or
    -- refuses its type, and it answers for any other inode of the table as before. If it fails,
    -- `aufs_inode_get` answers for this inode, and for others in its block, from what the device then
    -- has, and for all others as before.
    pub minix_write_inode-get :
        (sync_all io_ok : Bool) (into : AufsInode)
        → length into.ai_zone_ptr ≡ zone_ptr_in_inode_num
        → FitsDisk inode
        → (other : ℕ) (g : Iget) → InTable sbi other
        → other ≢ ino
        → let (cache', error) = minix_write_inode order ids sync_all io_ok sbi cache device inode in
          ((fails sync_all io_ok ≡ false)
            × (error ≡ none)
            × (aufs_inode_get order sbi cache' (fresh into) ino
                ≡ inode_by_type (reloaded into inode))
            × (aufs_inode_get order sbi cache' g other ≡ aufs_inode_get order sbi cache g other))
          ⊎ ((fails sync_all io_ok ≡ true)
              × (error ≡ some eio)
              × (aufs_inode_get order sbi cache' (fresh into) ino
                  ≡ aufs_inode_get order sbi device (fresh into) ino)
              × (aufs_inode_get order sbi cache' g other
                  ≡ aufs_inode_get order sbi
                      (if aufs_inode_block sbi other == aufs_inode_block sbi ino
                        then device
                        else cache)
                      g
                      other))
    minix_write_inode-get sync_all io_ok into nine fits other g h ne =
        elim (Bool-cases (fails sync_all io_ok)) [
          | inr good ↦
              let (dirty, e) = result-written sync_all io_ok good in
              let get = λ (r : BufferCache × Option Errno). aufs_inode_get order sbi r.0 in
              inl (
                good,
                ap (λ (r : BufferCache × Option Errno). r.1) e,
                ap (λ (r : BufferCache × Option Errno). get r (fresh into) ino) e
                    ∙ put_buffer-get dirty into nine fits,
                ap (λ (r : BufferCache × Option Errno). get r g other) e
                    ∙ put_buffer-frame dirty other g h ne,
              )
          | inl bad ↦
              let e = result-failed sync_all io_ok bad in
              let get = λ (r : BufferCache × Option Errno). aufs_inode_get order sbi r.0 in
              let self : (aufs_inode_block sbi ino == aufs_inode_block sbi ino) ≡ true =
                ground arith in
              inr (
                bad,
                ap (λ (r : BufferCache × Option Errno). r.1) e,
                ap (λ (r : BufferCache × Option Errno). get r (fresh into) ino) e
                    ∙ rw self at (invalidate-get ino (fresh into)),
                ap (λ (r : BufferCache × Option Errno). get r g other) e ∙ invalidate-get other g,
              )
        ]
