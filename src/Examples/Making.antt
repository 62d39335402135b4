-- ===== src/Examples/Making.antt =====
-- A directory is made in the directory of `Directory`, and a file where no inode is left.
use mathlib.Core.Option.{some_inj}
use aufs_enabled.Base.{ℕ, ◌+◌, ◌-◌, ◌*◌, true, none, some, List, ◌≡◌, refl, sym, ap, arith, Bool}
use aufs_enabled.Kernel.{eio}
use aufs_enabled.Vfs.{AufsInode, Outcome, err}
use aufs_enabled.Bitmap.{inode_loop, mark_inode, init_inode, aufs_new_inode}
use aufs_enabled.Bitmap.Maps.{IsFull}
use aufs_enabled.Inode.Table.{minix_set_inode}
use aufs_enabled.Dir.{
  DirEntry, Directory, returned, crashed, namecompare, same_bytes, minix_last_byte, scan_page,
  scan_pages, find_room, dir_commit_chunk, write_entry, minix_add_link,
}
use aufs_enabled.Dir.Empty.{minix_make_empty}
use aufs_enabled.Names.{LinkCounts, Surroundings, Made, minix_mkdir, minix_mknod, fill_dir}
use aufs_enabled.Names.Links.{LinksAre}
use aufs_enabled.Names.Mkdir.{minix_mkdir-LinksAre}
use aufs_enabled.Names.Found.{Leads, minix_mkdir-Leads}
use aufs_enabled.Names.Full.{minix_mknod-full}
use aufs_enabled.Examples.Platform.{bit_ops, pages_of_4096}
use aufs_enabled.Examples.Allocation.{small, taken, with_ptrs, no_ptrs, time}
use aufs_enabled.Examples.Directory.{abc, abc-IsName, dir, page-whole}

abbrev links : LinkCounts
links = record {
  inode_inc_link_count = λ i. record i { i_nlink = i.i_nlink + 1; dirty = true };
  inode_dec_link_count = λ i. record i { i_nlink = i.i_nlink - 1; dirty = true };
  inode_inc_link_count_lem = λ i h. refl;
  inode_dec_link_count_lem = λ i h. refl;
}

fresh-empty :
    (i : AufsInode) → some (with_ptrs no_ptrs 0) ≡ some i → (i.i_nlink ≡ 1) × (i.i_size ≡ 0)
fresh-empty i e =
    let same : with_ptrs no_ptrs 0 ≡ i = some_inj.0 e in
    (sym (ap (λ (j : AufsInode). j.i_nlink) same), sym (ap (λ (j : AufsInode). j.i_size) same))

abbrev around : Surroundings
around = record {
  fresh = some (with_ptrs no_ptrs 0);
  init_owner = λ mode i. record i { i_mode = mode };
  now = time;
  prepare = λ pos. none;
  sync = none;
  child_sync = none;
  fresh_lem = fresh-empty;
  init_owner_lem = λ mode i. (refl, refl);
}

abbrev no_pages : ℕ → Outcome (List DirEntry)
no_pages n = err eio

abbrev made : Made (ℕ → Bool) Directory
made =
    minix_mkdir bit_ops pages_of_4096 links around 4096 (small (taken 2) (taken 2)) dir abc 0x1ed
      no_pages true none

minix_mkdir-LinksAre_example : LinksAre bit_ops pages_of_4096 links around 1 made
minix_mkdir-LinksAre_example =
    minix_mkdir-LinksAre bit_ops pages_of_4096 links around 4096 (small (taken 2) (taken 2)) refl
      (omega arith) refl dir abc 0x1ed no_pages true none (omega arith) 2 refl page-whole
      (omega arith)

made-success : made.result ≡ returned none
unfolding minix_mkdir aufs_new_inode inode_loop mark_inode init_inode minix_set_inode fill_dir
    minix_make_empty namecompare same_bytes minix_last_byte scan_page scan_pages find_room
    dir_commit_chunk write_entry minix_add_link
made-success = refl

minix_mkdir-Leads_example : Leads bit_ops pages_of_4096 links around 1 abc made
minix_mkdir-Leads_example =
    minix_mkdir-Leads bit_ops pages_of_4096 links around 4096 (small (taken 2) (taken 2)) refl
      (omega arith) refl dir abc 0x1ed no_pages true none (omega arith) made-success abc-IsName
      (omega arith) (omega arith) (omega arith)

all_taken : IsFull bit_ops (8 * 4096) (small (taken 2) (λ k. true)).s_imap
all_taken k = ground arith

minix_mknod-full_example :
    (minix_mknod bit_ops pages_of_4096 links around 4096
      (small (taken 2) (λ k. true))
      dir
      abc
      0x81a4
      true).result
    ≡ crashed
minix_mknod-full_example =
    minix_mknod-full bit_ops pages_of_4096 links around 4096 (small (taken 2) (λ k. true)) refl
      (omega arith) refl dir abc 0x81a4 all_taken
