-- ===== src/Dir/Listing/Walk.antt =====
-- `minix_readdir` against the list of all entries of a directory.
use aufs_enabled.Base.{
  ℕ, zero, suc, ◌+◌, ◌-◌, ◌*◌, ◌/◌, ◌%◌, ◌<◌, ◌≤◌, Bool, true, false, List, [], ◌∷◌, ◌++◌, leb,
  ◌==◌, if◌then◌else◌, length, take, ◌≡◌, ◌∙◌, refl, sym, ap, arith, Bool-cases, inl, inr,
}
use aufs_enabled.Kernel.{Paging}
use aufs_enabled.Vfs.{Outcome, ok, err}
use aufs_enabled.Dir.{aufs_dir_size, DirEntry, Directory, minix_last_byte}
use aufs_enabled.Dir.Search.{minix_last_byte-le}
use aufs_enabled.Dir.Listing.{drop, emit_entry, readdir_page, readdir_pages}

-- The entries of a page, or none of one that cannot be read.
abbrev pub entries : Outcome (List DirEntry) → List DirEntry
entries (ok page) = page
entries (err e) = []

module _ (paging : Paging) (dir : Directory) where
  -- The number of entries of page `n` before the end of the directory, and these entries.
  abbrev pub count : ℕ → ℕ
  count n = minix_last_byte paging dir.inode.i_size n / aufs_dir_size

  abbrev pub valid : ℕ → List DirEntry
  valid n = take (count n) (entries (dir.pages n))

  -- Those of the pages from `n` on, `left` of them, as one list, and of all pages.
  unfoldable pub slots_from : (left n : ℕ) → List DirEntry
  slots_from zero n = []
  slots_from (suc left) n = valid n ++ slots_from left (suc n)

  abbrev pub slots : List DirEntry
  slots = slots_from (paging.dir_pages dir.inode.i_size) 0

  -- Every page of the directory can be read and is full of entries, and its size counts whole entries.
  pub record IsReadable : Type 0 where
    pub page : ℕ → List DirEntry
    pub read : (n : ℕ) → n < paging.dir_pages dir.inode.i_size → dir.pages n ≡ ok (page n)
    pub full : (n : ℕ) → length (page n) ≡ paging.slots
    pub whole : dir.inode.i_size % aufs_dir_size ≡ 0

pub divided :
    (size page slots : ℕ)
    → page ≡ slots * 64
    → 0 < slots
    → size ≡ 64 * (size / page * slots) + size % page
divided size page slots e pos =
    let some_page : 0 < page = omega (arith, e) in
    let parts : size ≡ size / page * page + size % page = grind arith in
    let units : size / page * page ≡ size / page * (slots * 64) =
      ap (λ (n : ℕ). size / page * n) e in
    let order : size / page * (slots * 64) ≡ 64 * (size / page * slots) = grind arith in
    omega (arith, parts, units, order)

pub drop-take :
    (j c : ℕ) (des more : List DirEntry)
    → j ≤ c
    → c ≤ length des
    → drop j (take c des ++ more) ≡ take (c - j) (drop j des) ++ more
drop-take zero c des more h h' = ap (λ (n : ℕ). take n des ++ more) (omega arith)
drop-take (suc j) zero des more h h' = absurd (omega arith)
drop-take (suc j) (suc c) [] more h h' = absurd (omega arith)
drop-take (suc j) (suc c) (de ∷ des) more h h' =
    drop-take j c des more (omega arith) (omega arith)
    ∙ ap (λ (n : ℕ). take n (drop j des) ++ more) (omega arith)

pub length-drop : (j : ℕ) (des : List DirEntry) → length (drop j des) ≡ length des - j
length-drop zero des = omega arith
length-drop (suc j) [] = omega arith
length-drop (suc j) (de ∷ des) = omega (arith, length-drop j des)

module _ (paging : Paging) (dir : Directory) (readable : IsReadable paging dir) where
  open paging use {page_size}

  pub last_byte-whole :
      (n : ℕ) → 64 * count paging dir n ≡ minix_last_byte paging dir.inode.i_size n
  unfolding minix_last_byte
  last_byte-whole n =
      let size = paging.page_size_lem in
      let whole = readable.whole in
      let parts = divided dir.inode.i_size page_size paging.slots size paging.some_slots in
      elim (Bool-cases (n == dir.inode.i_size / page_size)) [
        | inl t ↦ rw t (omega (arith, parts, whole))
        | inr t ↦ rw t (omega (arith, size))
      ]

  pub count-le : (n : ℕ) → count paging dir n ≤ paging.slots
  count-le n =
      let below = minix_last_byte-le paging 0 [] dir.inode.i_size n in
      omega (arith, below, paging.page_size_lem)

module _ {ℓ} {S : Type ℓ} (dir_emit : S → (name : List ℕ) (ino : ℕ) → S × Bool) where
  -- The listing of entries one after the other, whatever page they stand in.
  unfoldable pub walk : List DirEntry → S → (pos : ℕ) → S × ℕ
  walk [] s pos = (s, pos)
  walk (de ∷ des) s pos =
      let (s', more) = emit_entry dir_emit s de in
      let rest = walk des s' (pos + aufs_dir_size) in if more then rest else (s', pos)

  -- What one page comes to is what the walk over its valid entries and those behind it begins with.
  readdir_page-walk :
      (last_byte k p : ℕ) (des more : List DirEntry) (s : S) (pos : ℕ)
      → k ≤ length des
      → p + 64 * k ≡ last_byte
      → let (s', pos', goes_on) = readdir_page dir_emit last_byte p des s pos in
        (if goes_on then walk more s' pos' else (s', pos')) ≡ walk (take k des ++ more) s pos
  unfolding readdir_page walk
  readdir_page-walk last_byte zero p [] more s pos e h = refl
  readdir_page-walk last_byte (suc k) p [] more s pos e h = absurd (omega arith)
  readdir_page-walk last_byte zero p (de ∷ des) more s pos e h =
      let past : leb (p + aufs_dir_size) last_byte ≡ false = ground arith in rw past
  readdir_page-walk last_byte (suc k) p (de ∷ des) more s pos e h =
      let fits : leb (p + aufs_dir_size) last_byte ≡ true = ground arith in
      let (s', goes_on) = emit_entry dir_emit s de in
      let rest =
        readdir_page-walk last_byte k (p + aufs_dir_size) des more s' (pos + aufs_dir_size)
          (omega arith) (omega arith) in
      elim (Bool-cases goes_on) [ inl t ↦ rw (fits, t) rest | inr t ↦ rw (fits, t) ]

  module _ (paging : Paging) (dir : Directory) (readable : IsReadable paging dir) where
    open paging use {page_size, dir_pages, align64}

    readdir_pages-step :
        (left n j : ℕ) (page : List DirEntry) (s : S) (pos : ℕ)
        → dir.pages n ≡ ok page
        → readdir_pages dir_emit paging dir (suc left) n (64 * j) s pos ≡ (
            let (s', pos', more) =
              readdir_page dir_emit
                (minix_last_byte paging dir.inode.i_size n)
                (64 * j)
                (drop j page)
                s
                pos in
            if more then readdir_pages dir_emit paging dir left (suc n) 0 s' pos' else (s', pos'))
    unfolding readdir_pages
    readdir_pages-step left n j page s pos read =
        let at : 64 * j / aufs_dir_size ≡ j = omega arith in rw (readdir_pages, read, at)

    pub readdir_pages-walk :
        (left n j : ℕ) (s : S) (pos : ℕ)
        → n + left ≤ dir_pages dir.inode.i_size
        → j ≤ count paging dir n
        → readdir_pages dir_emit paging dir left n (64 * j) s pos
          ≡ walk (drop j (slots_from paging dir left n)) s pos
    unfolding readdir_pages slots_from walk
    readdir_pages-walk zero n zero s pos h h' = refl
    readdir_pages-walk zero n (suc j) s pos h h' = refl
    readdir_pages-walk (suc left) n j s pos h h' =
        let page = readable.page n in
        let read = readable.read n (omega arith) in
        let size = readable.full n in
        let last_byte = minix_last_byte paging dir.inode.i_size n in
        let behind = slots_from paging dir left (suc n) in
        let parts =
          drop-take j (count paging dir n) page behind h'
            (omega (arith, size, count-le paging dir readable n)) in
        let (s', pos', more) = readdir_page dir_emit last_byte (64 * j) (drop j page) s pos in
        let next = readdir_pages-walk left (suc n) 0 s' pos' (omega arith) (omega arith) in
        let one =
          readdir_page-walk last_byte (count paging dir n - j) (64 * j) (drop j page) behind s pos
            (omega (arith, length-drop j page, size, count-le paging dir readable n))
            (omega (arith, last_byte-whole paging dir readable n)) in
        readdir_pages-step left n j page s pos read
        ∙ (ap (λ (r : S × ℕ). if more then r else (s', pos')) next
            ∙ (one
                ∙ ap (λ (des : List DirEntry). walk des s pos)
                    (sym parts
                      ∙ ap
                          (λ (o : Outcome (List DirEntry)).
                            drop j (take (count paging dir n) (entries o) ++ behind))
                          (sym read))))
