-- ===== src/Examples/Directory.antt =====
-- A directory of two entries, one of them free.
use aufs_enabled.Base.{
  ℕ, true, Option, none, List, [], ◌∷◌, ◌++◌, ◌==◌, ==-cases, inl, inr, if◌then◌else◌, length,
  replicate, ◌≡◌, ◌↔◌, refl, sym, ap, arith,
}
use aufs_enabled.Kernel.{Errno, eio}
use aufs_enabled.Vfs.{Outcome, ok, err}
use aufs_enabled.Dir.{
  DirEntry, Directory, returned, aufs_name_len, namecompare, same_bytes, padded, minix_last_byte,
  minix_inode_by_name, scan_page, scan_pages, find_room, dir_commit_chunk, write_entry,
  minix_add_link,
}
use aufs_enabled.Dir.Name.{IsName, namecompare-padded_iff}
use aufs_enabled.Dir.Link.{minix_inode_by_name-add_link}
use aufs_enabled.Dir.Total.{minix_add_link-returns}
use aufs_enabled.Examples.Platform.{pages_of_4096}
use aufs_enabled.Examples.Allocation.{with_ptrs, no_ptrs, time}

-- "ab" and "abc".
abbrev ab : List ℕ
ab = 97 ∷ 98 ∷ []

abbrev pub abc : List ℕ
abc = 97 ∷ 98 ∷ 99 ∷ []

abbrev free : DirEntry
free = record { dde_inode = 0; dde_name = replicate 60 0 }

abbrev pub page : List DirEntry
page = record { dde_inode = 5; dde_name = ab ++ replicate 58 0 } ∷ replicate 63 free

abbrev pub dir : Directory
dir = record {
  inode = record (with_ptrs no_ptrs 1) { i_size = 128 };
  pages = λ n. if n == 0 then ok page else err eio;
}

ab-IsName : IsName ab
ab-IsName = record { non_zero = (omega arith, (omega arith, tt)); fits = omega arith }

pub abc-IsName : IsName abc
abc-IsName = record {
  non_zero = (omega arith, (omega arith, (omega arith, tt)));
  fits = omega arith;
}

add_abc-success :
    (minix_add_link pages_of_4096 (λ pos. none) none time 3 abc 7 dir).1 ≡ returned none
unfolding namecompare same_bytes minix_last_byte scan_page scan_pages find_room dir_commit_chunk
    write_entry minix_add_link
add_abc-success = refl

minix_inode_by_name-add_link_example :
    minix_inode_by_name pages_of_4096 3 abc
      (minix_add_link pages_of_4096 (λ pos. none) none time 3 abc 7 dir).0
    ≡ 7
minix_inode_by_name-add_link_example =
    minix_inode_by_name-add_link pages_of_4096 (λ pos. none) none time abc 7 dir abc-IsName
      (omega arith) (omega arith) add_abc-success

pub page-whole : (m : ℕ) (pg : List DirEntry) → dir.pages m ≡ ok pg → length pg ≡ 64
page-whole m pg e = elim (==-cases m 0) [
  | inl (t, _) ↦ ok_page (rw t at e)
  | inr (t, _) ↦ err_page (rw t at e)
]
  where
    ok_page : ok page ≡ ok pg → length pg ≡ 64
    ok_page same =
        ap (λ (o : Outcome (List DirEntry)). elim o [ ok xs ↦ length xs | err _ ↦ 64 ]) (sym same)

    err_page : err eio ≡ ok pg → length pg ≡ 64
    err_page same = cc

minix_add_link-returns_example :
    (r : Option Errno) × ((minix_add_link pages_of_4096 (λ pos. none) none time 3 abc 7 dir).1
      ≡ returned r)
minix_add_link-returns_example =
    minix_add_link-returns pages_of_4096 3 abc dir 2 refl page-whole (omega arith) (λ pos. none)
      none time 7

namecompare-padded_iff_example : (namecompare 2 aufs_name_len ab (padded abc 3) ≡ true) ↔ (ab ≡ abc)
namecompare-padded_iff_example = namecompare-padded_iff ab abc ab-IsName abc-IsName
