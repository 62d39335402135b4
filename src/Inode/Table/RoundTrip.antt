-- ===== src/Inode/Table/RoundTrip.antt =====
-- An inode that is written and read again is the same, and no other inode changes.
use aufs_enabled.Base.{
  ℕ, zero, suc, ◌+◌, ◌%◌, ◌^◌, ◌<◌, ◌≤◌, List, u32, u64, get_or, get_or_ext, get_or-beyond, set,
  length, ◌≡◌, ◌∙◌, inl, inr, refl, sym, ap, arith, ==-cases, ltb-cases, get_or-set_self,
  get_or-set_ne, length-set,
}
use aufs_enabled.Kernel.{ByteOrder, LowIds}
use aufs_enabled.Vfs.{AufsInode, Timespec, zone_ptr_in_inode_num}
use aufs_enabled.Inode.Table.{DiskInode, copy_ptrs, aufs_inode_fill, raw_of_inode}

module _ (convert : ℕ → ℕ) where
  pub length-copy_ptrs :
      (left i : ℕ) (from to : List ℕ) → length (copy_ptrs convert left i from to) ≡ length to
  unfolding copy_ptrs
  length-copy_ptrs zero i from to = refl
  length-copy_ptrs (suc left) i from to =
      length-copy_ptrs left (suc i) from (set to i (convert (get_or from i 0)))
      ∙ length-set to i (convert (get_or from i 0))

  pub copy_ptrs-outside :
      (left i : ℕ) (from to : List ℕ) (j : ℕ)
      → (j < i)
      → get_or (copy_ptrs convert left i from to) j 0 ≡ get_or to j 0
  unfolding copy_ptrs
  copy_ptrs-outside zero i from to j h = refl
  copy_ptrs-outside (suc left) i from to j h =
      copy_ptrs-outside left (suc i) from (set to i (convert (get_or from i 0))) j (omega arith)
      ∙ get_or-set_ne to i j (convert (get_or from i 0)) 0 (omega arith)

  pub copy_ptrs-inside :
      (left i : ℕ) (from to : List ℕ) (j : ℕ)
      → i ≤ j
      → j < i + left
      → j < length to
      → get_or (copy_ptrs convert left i from to) j 0 ≡ convert (get_or from j 0)
  unfolding copy_ptrs
  copy_ptrs-inside zero i from to j low high h = absurd (omega arith)
  copy_ptrs-inside (suc left) i from to j low high h =
      let next = set to i (convert (get_or from i 0)) in
      elim (==-cases i j) [
        | inl (_, e) ↦
            copy_ptrs-outside left (suc i) from next j (omega arith)
            ∙ rw (← e) (get_or-set_self to i (convert (get_or from i 0)) 0 (omega arith))
        | inr (_, ne) ↦
            copy_ptrs-inside left (suc i) from next j (omega arith) (omega arith)
              (omega (arith, length-set to i (convert (get_or from i 0))))
      ]

-- The nine pointers are copied to the disk and back.
copy_ptrs-back :
    (out back : ℕ → ℕ) (ptrs raw old : List ℕ)
    → length ptrs ≡ zone_ptr_in_inode_num
    → length raw ≡ zone_ptr_in_inode_num
    → length old ≡ zone_ptr_in_inode_num
    → ((j : ℕ) → back (out (get_or ptrs j 0)) ≡ get_or ptrs j 0)
    → copy_ptrs back zone_ptr_in_inode_num 0 (copy_ptrs out zone_ptr_in_inode_num 0 ptrs raw) old
      ≡ ptrs
copy_ptrs-back out back ptrs raw old np nr no' inverse =
    let there = copy_ptrs out zone_ptr_in_inode_num 0 ptrs raw in
    let len = length-copy_ptrs back zone_ptr_in_inode_num 0 there old in
    get_or_ext 0 (copy_ptrs back zone_ptr_in_inode_num 0 there old) ptrs (omega arith) λ j.
      elim (ltb-cases j zone_ptr_in_inode_num) [
        | inl (_, h) ↦
            copy_ptrs-inside back zone_ptr_in_inode_num 0 there old j (omega arith) (omega arith)
              (omega arith)
            ∙ ap back (
                copy_ptrs-inside out zone_ptr_in_inode_num 0 ptrs raw j (omega arith) (omega arith)
                  (omega arith))
            ∙ inverse j
        | inr (_, h) ↦
            get_or-beyond (copy_ptrs back zone_ptr_in_inode_num 0 there old) j 0 (omega arith)
            ∙ sym (get_or-beyond ptrs j 0 (omega arith))
      ]

-- The inode's values fit their fields on the disk, the ids those of 16 bits.
pub record FitsDisk (inode : AufsInode) : Type 0 where
  pub nine : length inode.ai_zone_ptr ≡ zone_ptr_in_inode_num
  pub ptrs : (j : ℕ) → get_or inode.ai_zone_ptr j 0 < 2 ^ 32
  pub mode : inode.i_mode < 2 ^ 16
  pub size : inode.i_size < 2 ^ 32
  pub blocks : inode.i_blocks < 2 ^ 32
  pub uid : inode.i_uid < 2 ^ 16
  pub gid : inode.i_gid < 2 ^ 16
  pub ctime : inode.i_ctime.tv_sec < 2 ^ 64

-- What comes back: what `struct aufs_disk_inode` keeps of `inode`, in the new inode `into`. All
-- three times are the change time, in whole seconds.
abbrev pub reloaded : (into inode : AufsInode) → AufsInode
reloaded into inode =
    let time : Timespec = record { tv_sec = inode.i_ctime.tv_sec; tv_nsec = 0 } in
    record into {
      ai_zone_ptr = inode.ai_zone_ptr;
      i_mode = inode.i_mode;
      i_size = inode.i_size;
      i_blocks = inode.i_blocks;
      i_ctime = time;
      i_mtime = time;
      i_atime = time;
      i_uid = inode.i_uid;
      i_gid = inode.i_gid;
    }

module _ (order : ByteOrder) (ids : LowIds) where
  open order use {cpu_to_be32, be32_to_cpu, be32_to_cpu-cpu_to_be32, be64_to_cpu-cpu_to_be64}

  word_back : (x y : ℕ) → y ≡ x → x < 2 ^ 32 → be32_to_cpu (cpu_to_be32 (u32 y)) ≡ x
  word_back x y e h =
      let same : u32 y ≡ x = omega arith in
      ap (λ (w : ℕ). be32_to_cpu (cpu_to_be32 w)) same ∙ be32_to_cpu-cpu_to_be32 x h

  pub fill-raw :
      (into inode : AufsInode) (raw : DiskInode)
      → FitsDisk inode
      → length into.ai_zone_ptr ≡ zone_ptr_in_inode_num
      → length raw.di_zone_ptr ≡ zone_ptr_in_inode_num
      → aufs_inode_fill order into (raw_of_inode order ids inode raw) ≡ reloaded into inode
  unfolding aufs_inode_fill raw_of_inode
  fill-raw into inode raw fits n n' =
      let size = word_back inode.i_size inode.i_size refl fits.size in
      let blocks = word_back inode.i_blocks inode.i_blocks refl fits.blocks in
      let uid =
        word_back inode.i_uid _ (ids.fs_high2lowuid-small inode.i_uid fits.uid)
          (omega (arith, fits.uid)) in
      let gid =
        word_back inode.i_gid _ (ids.fs_high2lowgid-small inode.i_gid fits.gid)
          (omega (arith, fits.gid)) in
      let mode : be32_to_cpu (cpu_to_be32 inode.i_mode) % 2 ^ 16 ≡ inode.i_mode =
        omega (arith, be32_to_cpu-cpu_to_be32 inode.i_mode (omega (arith, fits.mode)), fits.mode) in
      let sec : order.be64_to_cpu (order.cpu_to_be64 (u64 inode.i_ctime.tv_sec))
          ≡ inode.i_ctime.tv_sec =
        (let same : u64 inode.i_ctime.tv_sec ≡ inode.i_ctime.tv_sec = omega (arith, fits.ctime) in
          ap (λ (w : ℕ). order.be64_to_cpu (order.cpu_to_be64 w)) same
          ∙ be64_to_cpu-cpu_to_be64 _ fits.ctime) in
      let ptrs =
        copy_ptrs-back (λ p. cpu_to_be32 (u32 p)) be32_to_cpu inode.ai_zone_ptr raw.di_zone_ptr
          into.ai_zone_ptr fits.nine n' n (λ j. word_back _ _ refl (fits.ptrs j)) in
      rw (size, blocks, uid, gid, mode, sec, ptrs)
