-- ===== src/Dir/Link.antt =====
-- What `minix_add_link` adds, `minix_find_entry` finds.
use native.Mathlib.Nat.{div-add-mod}
use aufs_enabled.Base.{
  ltb, false, ℕ, zero, suc, ◌+◌, ◌*◌, ◌/◌, ◌^◌, ◌<◌, ◌≤◌, Bool, true, Option, none, some, List,
  ◌==◌, if◌then◌else◌, u32, set, set-set, length, ◌≡◌, ◌≢◌, ◌∙◌, inl, inr, refl, sym, ap, arith,
  Bool-cases, ==-cases, Option-cases,
}
use aufs_enabled.Kernel.{Errno, Paging}
use aufs_enabled.Vfs.{Timespec, ok}
use aufs_enabled.Dir.{
  aufs_name_len, DirEntry, Directory, aufs_dir_size, find_slot, find_pages, minix_find_entry,
  minix_inode_by_name, find_room, set_entry, put_page, padded, dir_commit_chunk, write_entry,
  minix_add_link, Slot, minix_last_byte, Returned, returned,
}
use aufs_enabled.Dir.Name.{IsName, namecompare-padded_iff}
use aufs_enabled.Dir.Search.{
  IsHit, Room, scan_page-Room, find_slot-page_end, minix_last_byte-le, Stops, scan_pages-Stops,
}

module _ (paging : Paging) (namelen : ℕ) (name : List ℕ) where
  open paging use {page_size, slots, dir_pages, dir_pages_lem, page_size_lem, some_slots}

  page_size-pos : 0 < page_size
  page_size-pos = omega (arith, some_slots, page_size_lem)

  -- Pages without the name are passed over until the one that has it.
  find_pages-at :
      (dir : Directory) (n q : ℕ) (new : DirEntry) (page : List DirEntry)
      → dir.pages n ≡ ok page
      → find_slot namelen name (minix_last_byte paging dir.inode.i_size n) 0 page ≡ some (q, new)
      → (left m : ℕ)
      → ((k : ℕ)
          → m ≤ k
          → k < n
          → (pg : List DirEntry) × (dir.pages k ≡ ok pg)
            × (find_slot namelen name (minix_last_byte paging dir.inode.i_size k) 0 pg ≡ none))
      → m ≤ n
      → n < m + left
      → find_pages paging namelen name dir left m ≡ some (n, q, new)
  unfolding find_pages
  find_pages-at dir n q new page read hit zero m before low high = absurd (omega arith)
  find_pages-at dir n q new page read hit (suc left) m before low high = elim (==-cases m n) [
    | inl (_, e) ↦
        let read' : dir.pages m ≡ ok page = ap dir.pages e ∙ read in
        let hit' : find_slot namelen name (minix_last_byte paging dir.inode.i_size m) 0 page
            ≡ some (q, new) =
          ap (λ (k : ℕ). find_slot namelen name (minix_last_byte paging dir.inode.i_size k) 0 page)
            e
          ∙ hit in
        rw (find_pages, read') (rw hit' (ap (λ (k : ℕ). some (k, q, new)) e))
    | inr (_, ne) ↦
        let (pg, there, miss) = before m (omega arith) (omega arith) in
        rw (find_pages, there)
          (rw miss (
            find_pages-at dir n q new page read hit left (suc m) (λ k l h. before k (omega arith) h)
              (omega arith) (omega arith)))
  ]

  -- A size that reaches behind the entry at offset `q` of page `n` makes the entry visible.
  last_byte-reaches :
      (size n q : ℕ)
      → n * page_size + q + aufs_dir_size ≤ size
      → q + aufs_dir_size ≤ page_size
      → q + aufs_dir_size ≤ minix_last_byte paging size n
  unfolding minix_last_byte
  last_byte-reaches size n q reach fits =
      let pos = page_size-pos in
      let split = div-add-mod size page_size in
      ground (arith, ap (λ (k : ℕ). page_size * k) {x = n} {y = size / page_size})

  dir_pages-reaches : (size n q : ℕ) → n * page_size + q + aufs_dir_size ≤ size → n < dir_pages size
  dir_pages-reaches size n q reach =
      let pos = page_size-pos in rw (dir_pages_lem size) (grind arith)

  set_entry-set :
      (page : List DirEntry) (i q : ℕ) (old new : DirEntry) (b : Bool)
      → q ≡ aufs_dir_size * i
      → set_entry (if b then set_entry page q old else page) q new ≡ set page i new
  unfolding set_entry
  set_entry-set page i q old new b at =
      let slot : q / aufs_dir_size ≡ i = omega arith in
      rw slot (elim (Bool-cases b) [ inl t ↦ rw t (set-set page i old new) | inr t ↦ rw t ])

  -- The directory with the entry written is searched: the entry is found.
  write-found :
      (dir dir' : Directory) (left n q : ℕ) (new : DirEntry)
      (stops : Stops paging namelen name dir left 0 n q)
      (room : Room paging namelen name (minix_last_byte paging dir.inode.i_size n) 0 stops.page q)
      → IsHit paging namelen name new
      → dir'.pages n ≡ ok (set stops.page room.i new)
      → ((m : ℕ) → m < n → dir'.pages m ≡ dir.pages m)
      → n * page_size + q + aufs_dir_size ≤ dir'.inode.i_size
      → minix_find_entry paging namelen name dir' ≡ some (n, q, new)
  unfolding minix_find_entry
  write-found dir dir' left n q new stops room hit there same reach =
      let size = dir'.inode.i_size in
      find_pages-at dir' n q new (set stops.page room.i new) there
        (room.found new (minix_last_byte paging size n) hit
          (last_byte-reaches size n q reach room.in_page))
        (dir_pages size) 0
        (λ k l h.
          let (pg, read, ends) = stops.before k (omega arith) h in
          (
            pg,
            same k h ∙ read,
            find_slot-page_end paging namelen name (minix_last_byte paging dir.inode.i_size k) 0 pg
                (minix_last_byte paging size k) ends
                (minix_last_byte-le paging namelen name size k),
          ))
        (omega arith) (omega (arith, dir_pages-reaches size n q reach))

module _ (paging : Paging) (prepare : ℕ → Option Errno) (sync : Option Errno) (now : Timespec)
    (name : List ℕ) (ino : ℕ) (dir : Directory) where
  open paging use {page_size}

  abbrev entry : DirEntry
  entry = record { dde_inode = u32 ino; dde_name = padded name (length name) }

  abbrev after : Directory × Returned
  after = minix_add_link paging prepare sync now (length name) name ino dir

  -- A success comes from a slot that was found and whose block could be prepared.
  record Written : Type 0 where
    n : ℕ
    q : ℕ
    left : ℕ
    stops : Stops paging (length name) name dir left 0 n q
    there : (i : ℕ) → q ≡ aufs_dir_size * i → after.0.pages n ≡ ok (set stops.page i entry)
    same : (m : ℕ) → m ≢ n → after.0.pages m ≡ dir.pages m
    reach : n * page_size + q + aufs_dir_size ≤ after.0.inode.i_size

  write_entry-prepared :
      (n p : ℕ) (page : List DirEntry)
      → prepare (n * page_size + p) ≡ none
      → ltb aufs_name_len (length name) ≡ false
      → let r = write_entry paging prepare sync now (length name) name ino dir n p page in
        ((i : ℕ) → p ≡ aufs_dir_size * i → r.0.pages n ≡ ok (set page i entry))
        × ((m : ℕ) → m ≢ n → r.0.pages m ≡ dir.pages m)
        × (n * page_size + p + aufs_dir_size ≤ r.0.inode.i_size)
  unfolding write_entry put_page dir_commit_chunk
  write_entry-prepared n p page e short =
      rw (write_entry, e, short)
        (
          λ i at.
              let self : (n == n) ≡ true = ground arith in
              rw self (
                ap ok (
                  set_entry-set paging (length name) name page i p _ entry
                    (p == minix_last_byte paging dir.inode.i_size n) at)),
          λ m ne. ground arith,
          ground arith,
        )

  write_entry-refused :
      (n p : ℕ) (page : List DirEntry) (er : Errno)
      → prepare (n * page_size + p) ≡ some er
      → (write_entry paging prepare sync now (length name) name ino dir n p page).1
        ≡ returned (some er)
  unfolding write_entry
  write_entry-refused n p page er e = rw (write_entry, e)

  written : IsName name → after.1 ≡ returned none → Written
  unfolding minix_add_link find_room
  written valid success = go (find_room paging (length name) name dir) refl
    where
      left : ℕ
      left = suc (paging.dir_pages dir.inode.i_size)

      prepared :
          (n q : ℕ) (stops : Stops paging (length name) name dir left 0 n q)
          → find_room paging (length name) name dir ≡ Slot.got_it n q
          → prepare (n * page_size + q) ≡ none
          → ltb aufs_name_len (length name) ≡ false
          → Written
      prepared n q stops e p short =
          let step : after
              ≡ write_entry paging prepare sync now (length name) name ino dir n q stops.page =
            rw (minix_add_link, e) (rw stops.read) in
          let w = write_entry-prepared n q stops.page p short in
          record {
            n = n;
            q = q;
            left = left;
            stops = stops;
            there = λ i at. ap (λ (r : Directory × Returned). r.0.pages n) step ∙ w.0 i at;
            same = λ m ne. ap (λ (r : Directory × Returned). r.0.pages m) step ∙ w.1 m ne;
            reach = omega (arith, w.2, ap (λ (r : Directory × Returned). r.0.inode.i_size) step);
          }

      go : (s : Slot) → find_room paging (length name) name dir ≡ s → Written
      go Slot.exists e = cc (rw (minix_add_link, e) at success)
      go (Slot.unreadable er) e = cc (rw (minix_add_link, e) at success)
      go Slot.bug e = cc (rw (minix_add_link, e) at success)
      go (Slot.got_it n q) e =
          let stops = scan_pages-Stops paging (length name) name dir left 0 n q e in
          elim (Option-cases (prepare (n * page_size + q))) [
            | inl p ↦ prepared n q stops e p (ground (arith, valid.fits))
            | inr (er, p) ↦
                let refused = write_entry-refused n q stops.page er p in
                let step : after
                    ≡ write_entry paging prepare sync now (length name) name ino dir n q
                        stops.page =
                  rw (minix_add_link, e) (rw stops.read) in
                let wrong : returned (some er) ≡ returned none =
                  sym refused ∙ sym (ap (λ (r : Directory × Returned). r.1) step) ∙ success in
                cc
          ]

  -- Where `minix_add_link` reports success for a name without NUL bytes that fits its field, and
  -- for an inode number from 1 to 2^32 - 1, the directory then has that name with that number:
  -- `minix_inode_by_name` returns it.
  pub minix_inode_by_name-add_link :
      IsName name
      → 0 < ino
      → ino < 2 ^ 32
      → after.1 ≡ returned none
      → minix_inode_by_name paging (length name) name after.0 ≡ ino
  unfolding minix_inode_by_name
  minix_inode_by_name-add_link valid low high success =
      let w = written valid success in
      let room =
        scan_page-Room paging (length name) name (minix_last_byte paging dir.inode.i_size w.n) 0
          w.stops.page w.q w.stops.scan in
      let number : u32 ino ≡ ino = omega arith in
      let hit : IsHit paging (length name) name entry =
        (omega arith, (namecompare-padded_iff name name valid valid).1 refl) in
      let found =
        write-found paging (length name) name dir after.0 w.left w.n w.q entry w.stops room hit
          (w.there room.i (omega (arith, room.place))) (λ m h. w.same m (omega arith)) w.reach in
      rw (minix_inode_by_name, found) number
