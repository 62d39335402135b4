-- ===== src/Mkfs/Root/Read.antt =====
-- The kernel reads the root directory that the formatter makes.
use aufs_enabled.Base.{
  ltb, leb, ◌||◌, ℕ, zero, suc, ◌+◌, ◌-◌, ◌*◌, ◌/◌, ◌^◌, ◌<◌, ◌≤◌, some, List, [], ◌∷◌, ltb-cases,
  u32, min, get_or, set, length, replicate, get_or_ext, get_or-beyond, get_or-set_self, length-set,
  ◌≡◌, ◌∙◌, refl, sym, ap, inl, inr, arith,
}
use aufs_enabled.Kernel.{ByteOrder}
use aufs_enabled.Vfs.{AufsInode, Timespec, dir_ops, ok, zone_ptr_in_inode_num}
use aufs_enabled.Super.{sizeof_disk_inode}
use aufs_enabled.Dir.{DirEntry, aufs_dir_size}
use aufs_enabled.Inode.Table.{DiskInode, copy_ptrs, aufs_inode_fill, inode_by_type}
use aufs_enabled.Inode.Table.RoundTrip.{length-copy_ptrs, copy_ptrs-outside, copy_ptrs-inside}
use aufs_enabled.Mkfs.Config.{Configuration, block_size}
use aufs_enabled.Mkfs.Format.{root_block}
use aufs_enabled.Mkfs.Bits.{Bytes}
use aufs_enabled.Mkfs.Bits.Memory.{AreBytes, bit_at}
use aufs_enabled.Mkfs.Maps.{
  allocated, allocate_zones, fill_inode_map, fill_zone_map, zone_map_bits, inode_map_bits,
}
use aufs_enabled.Mkfs.Maps.Fresh.{allocate_inode-fresh, allocate_zones-fresh}
use aufs_enabled.Mkfs.Root.{
  clear_zones, set_first_block, clear_all_other_zones, set_blocks_count, set_size, set_uid, set_gid,
  set_mode, set_create_time, root_zones, root_inode, root_content, RootDir, mk_root_dir,
}

-- The inode that the kernel makes of it, in the new inode `into`.
abbrev pub root_of : Configuration → (uid gid time : ℕ) → (into : AufsInode) → AufsInode
root_of config uid gid time into =
    let at : Timespec = record { tv_sec = time; tv_nsec = 0 } in
    record into {
      ai_zone_ptr = root_block config ∷ replicate 8 0;
      i_mode = 0x41ed;
      i_size = 128;
      i_blocks = root_zones config;
      i_ctime = at;
      i_mtime = at;
      i_atime = at;
      i_uid = uid;
      i_gid = gid;
      i_op = dir_ops;
    }

clear_zones_lem :
    (swab32 : ℕ → ℕ) (left i : ℕ) (ptrs : List ℕ)
    → clear_zones swab32 left i ptrs ≡ copy_ptrs swab32 left i [] ptrs
unfolding clear_zones copy_ptrs
clear_zones_lem swab32 zero i ptrs = refl
clear_zones_lem swab32 (suc left) i ptrs =
    clear_zones_lem swab32 left (suc i) (set ptrs i (swab32 0))

one_or_more : (zs : ℕ) → 128 ≤ zs → (zs + 127) / zs ≡ 1
one_or_more zs large = grind arith

get_or-zeros : (n j : ℕ) → get_or {A = ℕ} (replicate n 0) j 0 ≡ 0
get_or-zeros zero j = refl
get_or-zeros (suc n) zero = refl
get_or-zeros (suc n) (suc j) = get_or-zeros n j

module _ (order : ByteOrder) (swab32 swab64 : ℕ → ℕ)
    (back32 : (x : ℕ) → x < 2 ^ 32 → order.be32_to_cpu (swab32 x) ≡ x)
    (back64 : (x : ℕ) → x < 2 ^ 64 → order.be64_to_cpu (swab64 x) ≡ x) where
  open order use {be32_to_cpu, be64_to_cpu}

  root_zones-one :
      (config : Configuration)
      → 128 ≤ config.zone_size
      → config.zone_size < 2 ^ 31
      → root_zones config ≡ 1
  unfolding root_zones
  root_zones-one config large small =
      let zs = config.zone_size in
      let e : u32 (2 * aufs_dir_size + zs + 2 ^ 32 - 1) ≡ zs + 127 = omega arith in
      rw e (one_or_more zs large)

  root_ptrs :
      (block : ℕ) (raw old : List ℕ)
      → block < 2 ^ 32
      → length raw ≡ zone_ptr_in_inode_num
      → length old ≡ zone_ptr_in_inode_num
      → copy_ptrs be32_to_cpu zone_ptr_in_inode_num 0
          (clear_zones swab32 8 1 (set raw 0 (swab32 block)))
          old
        ≡ block ∷ replicate 8 0
  root_ptrs block raw old small n n' =
      get_or_ext 0 _ (block ∷ replicate 8 0) (length-copy_ptrs be32_to_cpu 9 0 cleared old ∙ n')
        (λ j. elim (ltb-cases j 9) [
          | inl (_, lt) ↦
              copy_ptrs-inside be32_to_cpu 9 0 cleared old j (omega arith) lt (omega arith)
              ∙ one j lt
          | inr (_, ge) ↦
              get_or-beyond _ j 0 (omega (arith, length-copy_ptrs be32_to_cpu 9 0 cleared old))
              ∙ sym (get_or-beyond (block ∷ replicate 8 0) j 0 ge)
        ])
    where
      first : List ℕ
      first = set raw 0 (swab32 block)

      cleared : List ℕ
      cleared = clear_zones swab32 8 1 first

      one : (j : ℕ) → j < 9 → be32_to_cpu (get_or cleared j 0) ≡ get_or (block ∷ replicate 8 0) j 0
      one zero lt =
          ap (λ (ptrs : List ℕ). be32_to_cpu (get_or ptrs 0 0)) (clear_zones_lem swab32 8 1 first)
          ∙ (ap be32_to_cpu (
                copy_ptrs-outside swab32 8 1 [] first 0 (omega arith)
                ∙ get_or-set_self raw 0 (swab32 block) 0 (omega arith))
              ∙ back32 block small)
      one (suc j) lt =
          ap (λ (ptrs : List ℕ). be32_to_cpu (get_or ptrs (suc j) 0))
            (clear_zones_lem swab32 8 1 first)
          ∙ (ap be32_to_cpu (
                copy_ptrs-inside swab32 8 1 [] first (suc j) (omega arith) (omega arith)
                  (omega (arith, length-set raw 0 (swab32 block))))
              ∙ (back32 0 (omega arith) ∙ sym (get_or-zeros 8 j)))

  root_inode-read :
      (config : Configuration) (uid gid time : ℕ) (raw : DiskInode) (into : AufsInode)
      → uid < 2 ^ 32
      → gid < 2 ^ 32
      → time < 2 ^ 64
      → root_zones config < 2 ^ 32
      → length raw.di_zone_ptr ≡ zone_ptr_in_inode_num
      → length into.ai_zone_ptr ≡ zone_ptr_in_inode_num
      → inode_by_type
          (aufs_inode_fill order into (root_inode swab32 swab64 config uid gid time raw))
        ≡ ok (root_of config uid gid time into)
  unfolding aufs_inode_fill root_inode inode_by_type set_first_block clear_all_other_zones
      set_blocks_count set_size set_uid set_gid set_mode set_create_time
  root_inode-read config uid gid time raw into hu hg ht hz n n' =
      let small : root_block config < 2 ^ 32 = unfold root_block in omega arith in
      let ptrs = root_ptrs (root_block config) raw.di_zone_ptr into.ai_zone_ptr small n n' in
      rw (
        ptrs,
        back32 uid hu,
        back32 gid hg,
        back64 time ht,
        back32 (root_zones config) hz,
        back32 128 (omega arith),
        back32 0x41ed (omega arith),
      )

  -- Where the formatter has filled both maps, which lie in memory of bytes below the top of the
  -- address space, with at least two zones and two inodes: for zones of 128 bytes or more that have
  -- 32-bit sizes, and ids and a time that fit their fields, `MkRootDir` succeeds, and the kernel reads
  -- the raw inode that it leaves as a directory of 128 bytes, with one zone, at the root block, and
  -- with the mode, ids and time that were set. In both maps 0 and 1 are then taken and the numbers
  -- behind the last one, and no others. The conversions are assumed to be undone by the kernel's.
  pub mk_root_dir-read :
      (htonl : ℕ → ℕ) (fuel : ℕ) (config : Configuration) (inode_base zone_base uid gid time : ℕ)
      → (imap zmap : Bytes) (raw : DiskInode) (content : List DirEntry) (into : AufsInode)
      → AreBytes imap
      → AreBytes zmap
      → inode_base + config.inode_map_blocks * block_size config * 8 < 2 ^ 59
      → zone_base + config.zone_map_blocks * block_size config * 8 < 2 ^ 59
      → 2
        ≤ min
            (u32 (config.inode_blocks * (block_size config / sizeof_disk_inode)))
            (inode_map_bits config)
      → 2 ≤ min config.device_zones (zone_map_bits config)
      → 128 ≤ config.zone_size
      → config.zone_size < 2 ^ 31
      → uid < 2 ^ 32
      → gid < 2 ^ 32
      → time < 2 ^ 64
      → length raw.di_zone_ptr ≡ zone_ptr_in_inode_num
      → length into.ai_zone_ptr ≡ zone_ptr_in_inode_num
      → (made : RootDir) × (mk_root_dir swab32 swab64 htonl
            (suc fuel)
            config
            inode_base
            zone_base
            uid
            gid
            time
            (record {
              inode_map = fill_inode_map config inode_base imap;
              zone_map = fill_zone_map config zone_base zmap;
              raw = raw;
              content = content;
            })
          ≡ some made)
        × (inode_by_type (aufs_inode_fill order into made.raw)
            ≡ ok (root_of config uid gid time into))
        × ((k : ℕ)
            → k < zone_map_bits config
            → bit_at made.zone_map (8 * zone_base + k)
              ≡ (ltb k 2 || leb (min config.device_zones (zone_map_bits config)) k))
        × ((k : ℕ)
            → k < inode_map_bits config
            → bit_at made.inode_map (8 * inode_base + k) ≡ (
                ltb k 2
                || leb
                    (min
                      (u32 (config.inode_blocks * (block_size config / sizeof_disk_inode)))
                      (inode_map_bits config))
                    k))
  unfolding mk_root_dir
  mk_root_dir-read htonl fuel config inode_base zone_base uid gid time imap zmap raw content into ib
        zb il zl two_inodes two_zones large small hu hg ht n n' =
      let one_zone : root_zones config ≡ 1 = root_zones-one config large small in
      let (imap', inode, ibits) = allocate_inode-fresh config inode_base imap ib il two_inodes in
      let (zmap', zone, zbits) = allocate_zones-fresh config zone_base zmap zb zl two_zones fuel in
      let zone' : allocate_zones (suc fuel) config zone_base (root_zones config)
            (fill_zone_map config zone_base zmap)
          ≡ allocated 1 zmap' =
        ap
          (λ (k : ℕ).
            allocate_zones (suc fuel) config zone_base k (fill_zone_map config zone_base zmap))
          one_zone
        ∙ zone in
      (
        record {
          inode_map = imap';
          zone_map = zmap';
          raw = root_inode swab32 swab64 config uid gid time raw;
          content = root_content htonl content;
        },
        rw (mk_root_dir, inode, zone'),
        root_inode-read config uid gid time raw into hu hg ht (omega (arith, one_zone)) n n',
        zbits,
        ibits,
      )
