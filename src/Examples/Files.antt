-- ===== src/Examples/Files.antt =====
-- Files that are resized, read and written, with a kernel that maps one block for each call.
use aufs_enabled.Base.{
  ℕ, ◌/◌, List, [], ◌∷◌, true, false, Option, none, some, ltb, if◌then◌else◌, ◌≡◌, ◌⊎◌, refl,
}
use aufs_enabled.Kernel.{Errno, einval, eio}
use aufs_enabled.Vfs.{AufsInode}
use aufs_enabled.Bitmap.{
  zones_start, blocks_ahead, integer_round_up_division, zone_result, returned_block, zone_loop,
  aufs_new_zone,
}
use aufs_enabled.Inode.Block.{
  ok, err, Mapped, trapped, zone_ptr, map_zone, aufs_get_block, get_block_step,
}
use aufs_enabled.Inode.Attr.{Iattr, Attributes, minix_setattr}
use aufs_enabled.Inode.Attr.Kept.{AttrSet, minix_setattr-outcome}
use aufs_enabled.Inode.Pages.{Mapping, ByMapper, PageIo, mapper, minix_write_begin}
use aufs_enabled.Inode.Pages.Kept.{IsExtended, minix_write_begin-IsExtended}
use aufs_enabled.Inode.Pages.Calls.{
  FileCall, readpage, writepage, write_begin, prepare_chunk, setattr, call_all, IsKept,
  call_all-IsKept,
}
use aufs_enabled.Examples.Platform.{bit_ops}
use aufs_enabled.Examples.Allocation.{with_ptrs, no_ptrs}
use aufs_enabled.Examples.Blocks.{st, st-IsSound, ones}

abbrev errno_of : Mapped → Option Errno
errno_of (ok _) = none
errno_of (err e) = some e
errno_of trapped = some eio

-- Maps one block.
abbrev one_block : {St : Type 0} → (iblock : ℕ) → Mapping St
one_block iblock map s = ((map s iblock).0, errno_of (map s iblock).1)

one_block-ByMapper : {St : Type 0} (iblock : ℕ) → ByMapper {St = St} (one_block iblock)
one_block-ByMapper iblock P map keep s p = keep s iblock p

abbrev page_io : {St : Type 0} → PageIo St
page_io = record {
  block_read_full_page = λ ino page. one_block page;
  block_write_full_page = λ ino page. one_block page;
  block_write_begin = λ ino pos len. one_block (pos / 4096);
  prepare_write = λ ino page pos len. one_block page;
  truncate_pagecache = λ ino size s. s;
  read_lem = λ ino page. one_block-ByMapper page;
  write_lem = λ ino page. one_block-ByMapper page;
  begin_lem = λ ino pos len. one_block-ByMapper (pos / 4096);
  prepare_lem = λ ino page pos len. one_block-ByMapper page;
  truncate_lem = λ P ino size s p. p;
}

-- Maps one block and fails behind it.
abbrev failing : {St : Type 0} → (iblock : ℕ) → Mapping St
failing iblock map s = ((map s iblock).0, some eio)

failing-ByMapper : {St : Type 0} (iblock : ℕ) → ByMapper {St = St} (failing iblock)
failing-ByMapper iblock P map keep s p = keep s iblock p

abbrev failing_io : {St : Type 0} → PageIo St
failing_io = record page_io {
  block_write_begin = λ ino pos len. failing (pos / 4096);
  begin_lem = λ ino pos len. failing-ByMapper (pos / 4096);
}

-- Sizes up to nine zones of 8192 bytes are accepted.
abbrev attributes : Attributes
attributes = record {
  setattr_prepare = λ inode attr. none;
  inode_newsize_ok = λ inode size. if ltb 73728 size then some einval else none;
  truncate_setsize = λ inode size. record inode { i_size = size };
  setattr_copy = λ inode attr. record inode {
    i_mode = attr.ia_mode;
    i_uid = attr.ia_uid;
    i_gid = attr.ia_gid;
  };
  generic_fillattr =
      λ inode. record { size = inode.i_size; blocks = inode.i_blocks; blksize = 512 };
  truncate_setsize_lem = λ inode size. refl;
  setattr_copy-size = λ inode attr. refl;
  setattr_copy-zones = λ inode attr. refl;
  generic_fillattr-size = λ inode. refl;
}

abbrev resize : (size : ℕ) → Iattr
resize size = record { attr_size = true; ia_size = size; ia_mode = 0x81a4; ia_uid = 0; ia_gid = 0 }

abbrev file : AufsInode
file = record (with_ptrs no_ptrs 5) { i_size = 10000 }

minix_setattr-outcome_example :
    let r = minix_setattr attributes file (resize 100) in
    ((e : Errno) × (none ≡ some e) × (r ≡ (some e, file)))
    ⊎ ((e : Errno) × (◌≡◌ {A = Option Errno} none none)
        × (true ≡ true)
        × (none ≡ some e)
        × (r ≡ (some e, file)))
    ⊎ ((◌≡◌ {A = Option Errno} none none)
        × ((true ≡ false) ⊎ (◌≡◌ {A = Option Errno} none none))
        × (r.0 ≡ none)
        × AttrSet attributes file (resize 100) r.1)
minix_setattr-outcome_example = minix_setattr-outcome attributes file (resize 100)

file_resized : (minix_setattr attributes file (resize 100)).1.i_size ≡ 100
unfolding minix_setattr
file_resized = refl

minix_write_begin-IsExtended_example :
    let r = minix_write_begin bit_ops ones 4096 failing_io 5 12288 100 st in
    IsExtended bit_ops ones 4096 5 st r.0
    × (r ≡ failing 3 (mapper bit_ops ones 4096 failing_io 5) st)
minix_write_begin-IsExtended_example =
    minix_write_begin-IsExtended bit_ops ones 4096 failing_io 5 st st-IsSound 12288 100

-- The failed call has taken zone 2, from block 12 on, for the second zone of inode 5.
write_failed :
    let r = minix_write_begin bit_ops ones 4096 failing_io 5 12288 100 st in
    (r.1 ≡ some eio) × (zone_ptr r.0 5 1 ≡ 12)
unfolding minix_write_begin get_block_step aufs_get_block map_zone aufs_new_zone zone_loop
    returned_block zone_result zones_start blocks_ahead integer_round_up_division
write_failed = (refl, refl)

abbrev calls : List FileCall
calls =
    write_begin 5 12288 100
    ∷ setattr 5 (resize 0)
    ∷ readpage 1 0
    ∷ writepage 5 3
    ∷ prepare_chunk 1 0 0 64
    ∷ []

call_all-IsKept_example :
    IsKept bit_ops ones 4096 page_io attributes st
      (call_all bit_ops ones 4096 page_io attributes calls st)
call_all-IsKept_example = call_all-IsKept bit_ops ones 4096 page_io attributes calls st st-IsSound
