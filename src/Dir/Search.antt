-- ===== src/Dir/Search.antt =====
-- The loops of `minix_find_entry` and `minix_add_link`, page by page.
use aufs_enabled.Base.{
  ℕ, zero, suc, ◌+◌, ◌*◌, ◌%◌, ◌<◌, ◌≤◌, true, false, none, some, List, [], ◌∷◌, get_or, set,
  length, ◌≡◌, ◌≢◌, ◌∙◌, ◌⊎◌, inl, inr, refl, sym, ap, subst, arith, ==-cases,
}
use aufs_enabled.Kernel.{Errno, Paging}
use aufs_enabled.Vfs.{Outcome, ok, err}
use aufs_enabled.Dir.{
  DirEntry, Directory, aufs_name_len, aufs_dir_size, namecompare, find_slot, scan_page, scan_pages,
  Slot, Scan, minix_last_byte,
}

pub Outcome-cases {ℓ} :
    {A : Type ℓ} (o : Outcome A) → ((a : A) × (o ≡ ok a)) ⊎ ((e : Errno) × (o ≡ err e))
Outcome-cases (ok a) = inl (a, refl)
Outcome-cases (err e) = inr (e, refl)

Scan-cases :
    (s : Scan) → ((p : ℕ) × (s ≡ Scan.got_it p)) ⊎ ((s ≡ Scan.exists) ⊎ (s ≡ Scan.page_end))
Scan-cases (Scan.got_it p) = inl (p, refl)
Scan-cases Scan.exists = inr (inl refl)
Scan-cases Scan.page_end = inr (inr refl)

module _ (paging : Paging) (namelen : ℕ) (name : List ℕ) where
  open paging use {page_size}

  -- An entry that the searches for the name pass over.
  abbrev pub IsOther : DirEntry → Type 0
  IsOther de = (de.dde_inode ≢ 0) × (namecompare namelen aufs_name_len name de.dde_name ≡ false)

  -- An entry that the search for the name stops at.
  abbrev pub IsHit : DirEntry → Type 0
  IsHit de = (de.dde_inode ≢ 0) × (namecompare namelen aufs_name_len name de.dde_name ≡ true)

  -- `scan_page` stopped at slot `i`, at offset `q`: all before it are other entries, and it is free.
  pub record Room (dir_end p : ℕ) (des : List DirEntry) (q : ℕ) : Type 0 where
    pub i : ℕ
    pub place : q ≡ p + aufs_dir_size * i
    pub inside : i < length des
    pub in_page : q + aufs_dir_size ≤ page_size
    pub free :
        (q ≡ dir_end) ⊎ ((get_or des i (record { dde_inode = 0; dde_name = [] })).dde_inode ≡ 0)
    -- An entry for the name that is put there is found.
    pub found :
        (new : DirEntry) (last_byte : ℕ)
        → IsHit new
        → q + aufs_dir_size ≤ last_byte
        → find_slot namelen name last_byte p (set des i new) ≡ some (q, new)

  Room-cons :
      (dir_end p : ℕ) (de : DirEntry) (des : List DirEntry) (q : ℕ)
      → IsOther de
      → Room dir_end (p + aufs_dir_size) des q
      → Room dir_end p (de ∷ des) q
  unfolding find_slot
  Room-cons dir_end p de des q other r = record {
    i = suc r.i;
    place = omega (arith, r.place);
    inside = omega (arith, r.inside);
    in_page = r.in_page;
    free = r.free;
    found = λ new last_byte hit fits. ground (arith, r.found new last_byte, r.place, other);
  }

  -- The entry at `p` is free, the scan goes on behind it, or it ends in another way.
  scan_page-cases :
      (dir_end p : ℕ) (de : DirEntry) (des : List DirEntry)
      → let r = scan_page paging namelen name dir_end p (de ∷ des) in
        ((p + aufs_dir_size ≤ page_size)
          × ((p ≡ dir_end) ⊎ (de.dde_inode ≡ 0))
          × (r ≡ Scan.got_it p))
        ⊎ (IsOther de × (r ≡ scan_page paging namelen name dir_end (p + aufs_dir_size) des))
        ⊎ ((page_size < p + aufs_dir_size) × (r ≡ Scan.page_end)
            ⊎ (p + aufs_dir_size ≤ page_size) × (p ≢ dir_end) × IsHit de × (r ≡ Scan.exists))
  unfolding scan_page
  scan_page-cases dir_end p de des = ground arith

  Room-here :
      (dir_end p : ℕ) (de : DirEntry) (des : List DirEntry)
      → p + aufs_dir_size ≤ page_size
      → ((p ≡ dir_end) ⊎ (de.dde_inode ≡ 0))
      → Room dir_end p (de ∷ des) p
  unfolding find_slot
  Room-here dir_end p de des fits free = record {
    i = 0;
    place = omega arith;
    inside = omega arith;
    in_page = fits;
    free = free;
    found = λ new last_byte hit h. ground arith;
  }

  pub scan_page-Room :
      (dir_end p : ℕ) (des : List DirEntry) (q : ℕ)
      → scan_page paging namelen name dir_end p des ≡ Scan.got_it q
      → Room dir_end p des q
  unfolding scan_page find_slot
  scan_page-Room dir_end p [] q e = cc
  scan_page-Room dir_end p (de ∷ des) q e = elim (scan_page-cases dir_end p de des) [
    | inl (fits, here, stops) ↦
        let at : p ≡ q = ground arith in rw (← at) (Room-here dir_end p de des fits here)
    | inr (inl (other, goes)) ↦
        Room-cons dir_end p de des q other
          (scan_page-Room dir_end (p + aufs_dir_size) des q (sym goes ∙ e))
    | inr (inr (inl (_, ends))) ↦ ground arith
    | inr (inr (inr (_, _, _, ends))) ↦ ground arith
  ]

  -- A page that is scanned to its end has no entry for the name.
  pub find_slot-page_end :
      (dir_end p : ℕ) (des : List DirEntry) (last_byte : ℕ)
      → scan_page paging namelen name dir_end p des ≡ Scan.page_end
      → last_byte ≤ page_size
      → find_slot namelen name last_byte p des ≡ none
  unfolding find_slot scan_page
  find_slot-page_end dir_end p [] last_byte e h = refl
  find_slot-page_end dir_end p (de ∷ des) last_byte e h =
      ground (arith, find_slot-page_end dir_end (p + aufs_dir_size) des last_byte)

  pub minix_last_byte-le : (i_size n : ℕ) → minix_last_byte paging i_size n ≤ page_size
  unfolding minix_last_byte
  minix_last_byte-le i_size n =
      let pos = paging.some_slots in
      let size = paging.page_size_lem in
      let h : 0 < page_size = omega arith in
      let r : i_size % page_size < page_size = grind arith in ground arith

  -- `scan_pages` stopped in page `n'`: the page can be read, and every page before it is scanned to
  -- its end.
  pub record Stops (dir : Directory) (left n n' q : ℕ) : Type 0 where
    pub low : n ≤ n'
    pub high : n' < n + left
    pub page : List DirEntry
    pub read : dir.pages n' ≡ ok page
    pub scan :
        scan_page paging namelen name (minix_last_byte paging dir.inode.i_size n') 0 page
        ≡ Scan.got_it q
    pub before :
        (m : ℕ)
        → n ≤ m
        → m < n'
        → (pg : List DirEntry) × (dir.pages m ≡ ok pg)
          × (scan_page paging namelen name (minix_last_byte paging dir.inode.i_size m) 0 pg
              ≡ Scan.page_end)

  Stops-suc :
      (dir : Directory) (left n n' q : ℕ) (pg : List DirEntry)
      → dir.pages n ≡ ok pg
      → scan_page paging namelen name (minix_last_byte paging dir.inode.i_size n) 0 pg
        ≡ Scan.page_end
      → Stops dir left (suc n) n' q
      → Stops dir (suc left) n n' q
  Stops-suc dir left n n' q pg read ends s = record {
    low = omega (arith, s.low);
    high = omega (arith, s.high);
    page = s.page;
    read = s.read;
    scan = s.scan;
    before = λ m l h. elim (==-cases n m) [
      | inl (_, e) ↦
          subst
            (λ (k : ℕ).
              (pg : List DirEntry) × (dir.pages k ≡ ok pg)
              × (scan_page paging namelen name (minix_last_byte paging dir.inode.i_size k) 0 pg
                  ≡ Scan.page_end))
            e (pg, read, ends)
      | inr (_, ne) ↦ s.before m (omega arith) h
    ];
  }

  -- What page `n` makes of `scan_pages`.
  abbrev pub page_scan : Directory → ℕ → List DirEntry → Scan
  page_scan dir n page =
      scan_page paging namelen name (minix_last_byte paging dir.inode.i_size n) 0 page

  pub scan_pages-step :
      (dir : Directory) (left n : ℕ)
      → let r = scan_pages paging namelen name dir (suc left) n in
        ((e : Errno) × (dir.pages n ≡ err e) × (r ≡ Slot.unreadable e))
        ⊎ ((page : List DirEntry) × (dir.pages n ≡ ok page)
            × (((p : ℕ) × (page_scan dir n page ≡ Scan.got_it p) × (r ≡ Slot.got_it n p))
                ⊎ (((page_scan dir n page ≡ Scan.exists) × (r ≡ Slot.exists))
                    ⊎ ((page_scan dir n page ≡ Scan.page_end)
                        × (r ≡ scan_pages paging namelen name dir left (suc n))))))
  unfolding scan_pages
  scan_pages-step dir left n = elim (Outcome-cases (dir.pages n)) [
    | inr (e, eq) ↦ inl (e, eq, rw (scan_pages, eq))
    | inl (page, eq) ↦ inr (
      page,
      eq,
      elim (Scan-cases (page_scan dir n page)) [
        | inl (p, s) ↦ inl (p, s, rw (scan_pages, eq) (rw s))
        | inr (inl s) ↦ inr (inl (s, rw (scan_pages, eq) (rw s)))
        | inr (inr s) ↦ inr (inr (s, rw (scan_pages, eq) (rw s)))
      ],
    )
  ]

  pub scan_pages-Stops :
      (dir : Directory) (left n n' q : ℕ)
      → scan_pages paging namelen name dir left n ≡ Slot.got_it n' q
      → Stops dir left n n' q
  unfolding scan_pages
  scan_pages-Stops dir zero n n' q e = cc
  scan_pages-Stops dir (suc left) n n' q e = elim (scan_pages-step dir left n) [
    | inl (er, _, r) ↦ cc
    | inr (page, read, inr (inl (_, r))) ↦ cc
    | inr (page, read, inr (inr (s, r))) ↦
        Stops-suc dir left n n' q page read s (scan_pages-Stops dir left (suc n) n' q (sym r ∙ e))
    | inr (page, read, inl (p, s, r)) ↦
        let same : Slot.got_it n p ≡ Slot.got_it n' q = sym r ∙ e in
        let at : n ≡ n' = cc in
        let off : p ≡ q = cc in
        subst (λ (k : ℕ). Stops dir (suc left) n k q) at
          (record {
            low = omega arith;
            high = omega arith;
            page = page;
            read = read;
            scan = s ∙ ap Scan.got_it off;
            before = λ m l h. absurd (omega arith);
          })
  ]
