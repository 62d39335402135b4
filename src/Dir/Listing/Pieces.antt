-- ===== src/Dir/Listing/Pieces.antt =====
-- `minix_readdir` as one walk over the entries from its position on.
use aufs_enabled.Base.{
  ℕ, zero, suc, ◌+◌, ◌-◌, ◌*◌, ◌/◌, ◌%◌, ◌<◌, ◌≤◌, min, Bool, true, false, List, [], ◌∷◌, ◌++◌, leb,
  ==-cases, ltb-cases, length, length-append, take, ◌≡◌, ◌∙◌, refl, sym, ap, arith, inl, inr,
}
use aufs_enabled.Kernel.{Paging}
use aufs_enabled.Dir.{aufs_dir_size, DirEntry, Directory, minix_last_byte}
use aufs_enabled.Dir.Listing.{drop, readdir_pages, minix_readdir}
use aufs_enabled.Dir.Listing.Walk.{
  slots_from, slots, valid, count, IsReadable, walk, readdir_pages-walk, divided, last_byte-whole,
  count-le, entries,
}

length-take_le : (n : ℕ) (des : List DirEntry) → n ≤ length des → length (take n des) ≡ n
length-take_le zero des h = refl
length-take_le (suc n) [] h = omega arith
length-take_le (suc n) (de ∷ des) h = ap suc (length-take_le n des (omega arith))

drop-append :
    (k : ℕ) (xs ys : List DirEntry) (j : ℕ) → length xs ≡ k → drop (k + j) (xs ++ ys) ≡ drop j ys
drop-append zero [] ys j e = ap (λ (n : ℕ). drop n ys) (omega arith)
drop-append zero (x ∷ xs) ys j e = absurd (omega arith)
drop-append (suc k) [] ys j e = absurd (omega arith)
drop-append (suc k) (x ∷ xs) ys j e =
    ap (λ (n : ℕ). drop n (x ∷ xs ++ ys)) {x = suc k + j} {y = suc (k + j)} (omega arith)
    ∙ drop-append k xs ys j (omega arith)

drop-all : (j : ℕ) (xs : List DirEntry) → length xs ≤ j → drop j xs ≡ []
drop-all zero [] h = refl
drop-all zero (x ∷ xs) h = absurd (omega arith)
drop-all (suc j) [] h = refl
drop-all (suc j) (x ∷ xs) h = drop-all j xs (omega arith)

times_below : (page m n : ℕ) → m < n → m * page + page ≤ n * page
times_below page m n lt = grind arith

times_le : (page m n : ℕ) → m ≤ n → m * page ≤ n * page
times_le page m n le = grind arith

division : (n page : ℕ) → 0 < page → (n ≡ n / page * page + n % page) × (n % page < page)
division n page pos = (grind arith, grind arith)

module _ (paging : Paging) where
  open paging use {page_size, dir_pages}

  some_page : 0 < page_size
  some_page = omega (arith, paging.page_size_lem, paging.some_slots)

  -- A page that the directory reaches begins before its end, and one behind does not.
  begins : (i_size n : ℕ) → n < dir_pages i_size → n * page_size < i_size
  begins i_size n h =
      let pages = paging.dir_pages_lem i_size in
      let parts = division (i_size + page_size - 1) page_size some_page in
      let size : dir_pages i_size * page_size ≡ (i_size + page_size - 1) / page_size * page_size =
        ap (λ (k : ℕ). k * page_size) pages in
      let far = times_below page_size n (dir_pages i_size) h in
      omega (arith, parts.0, size, far, some_page)

  ends : (i_size n : ℕ) → dir_pages i_size ≤ n → i_size ≤ n * page_size
  ends i_size n h =
      let pages = paging.dir_pages_lem i_size in
      let parts = division (i_size + page_size - 1) page_size some_page in
      let size : dir_pages i_size * page_size ≡ (i_size + page_size - 1) / page_size * page_size =
        ap (λ (k : ℕ). k * page_size) pages in
      let far = times_le page_size (dir_pages i_size) n h in
      omega (arith, parts.0, parts.1, size, far, some_page)

  -- Page `n` ends at its end or at that of the directory.
  minix_last_byte_lem :
      (i_size n : ℕ)
      → n < dir_pages i_size
      → minix_last_byte paging i_size n ≡ min page_size (i_size - n * page_size)
  unfolding minix_last_byte
  minix_last_byte_lem i_size n h =
      let q = i_size / page_size in
      let parts = division i_size page_size some_page in
      let low = begins i_size n h in
      elim (==-cases n q) [
        | inl (t, e) ↦
            let same : n * page_size ≡ q * page_size = ap (λ (k : ℕ). k * page_size) e in
            rw t (omega (arith, parts.0, parts.1, same))
        | inr (t, ne) ↦ elim (ltb-cases n q) [
          | inl (_, below) ↦
              let far = times_below page_size n q below in rw t (omega (arith, parts.0, far))
          | inr (_, above) ↦
              let far = times_below page_size q n (omega arith) in
              absurd (omega (arith, parts.0, parts.1, far, low))
        ]
      ]

  module _ (dir : Directory) (readable : IsReadable paging dir) where
    i_size : ℕ
    i_size = dir.inode.i_size

    length-valid :
        (n : ℕ)
        → n < dir_pages i_size
        → 64 * length (valid paging dir n) ≡ min page_size (i_size - n * page_size)
    unfolding i_size
    length-valid n h =
        let size = readable.full n in
        let most = count-le paging dir readable n in
        let read : length (entries (dir.pages n)) ≡ paging.slots = rw (readable.read n h) size in
        omega (
          arith,
          length-take_le (count paging dir n) (entries (dir.pages n)) (omega (arith, read, most)),
          last_byte-whole paging dir readable n,
          minix_last_byte_lem dir.inode.i_size n h,
        )

    length-slots_from :
        (left n : ℕ)
        → n + left ≡ dir_pages i_size
        → 64 * length (slots_from paging dir left n) ≡ i_size - n * page_size
    unfolding slots_from i_size
    length-slots_from zero n e = omega (arith, ends dir.inode.i_size n (omega arith))
    length-slots_from (suc left) n e =
        let next : suc n * page_size ≡ n * page_size + page_size = grind arith in
        omega (
          arith,
          length-append (valid paging dir n) (slots_from paging dir left (suc n)),
          length-valid n (omega arith),
          length-slots_from left (suc n) (omega arith),
          next,
        )

    pub length-slots : 64 * length (slots paging dir) ≡ dir.inode.i_size
    unfolding i_size
    length-slots = omega (arith, length-slots_from (dir_pages i_size) 0 (omega arith))

    -- The first `k` pages are left out.
    drop-slots_from :
        (k left total n m d j : ℕ)
        → total ≡ k + left
        → m ≡ n + k
        → d ≡ k * paging.slots + j
        → n + total ≡ dir_pages i_size
        → m * page_size ≤ i_size
        → drop d (slots_from paging dir total n) ≡ drop j (slots_from paging dir left m)
    unfolding slots_from i_size
    drop-slots_from zero left total n m d j t e e' h low =
        let t' : total ≡ left = omega arith in
        let m' : m ≡ n = omega arith in let d' : d ≡ j = omega arith in rw (t', m', d')
    drop-slots_from (suc k) left zero n m d j t e e' h low = absurd (omega arith)
    drop-slots_from (suc k) left (suc total) n m d j t e e' h low =
        let behind = slots_from paging dir total (suc n) in
        let full : length (valid paging dir n) ≡ paging.slots = omega (
          arith,
          length-valid n (omega arith),
          times_below page_size n m (omega arith),
          paging.page_size_lem,
        ) in
        let next : suc k * paging.slots ≡ paging.slots + k * paging.slots = grind arith in
        ap (λ (i : ℕ). drop i (valid paging dir n ++ behind)) {x = d}
          {y = paging.slots + (d - paging.slots)} (omega (arith, next))
        ∙ (drop-append paging.slots (valid paging dir n) behind (d - paging.slots) full
            ∙ drop-slots_from k left total (suc n) m (d - paging.slots) j (omega arith)
                (omega arith) (omega (arith, next)) (omega arith) low)

    module _ {ℓ} {S : Type ℓ} (dir_emit : S → (name : List ℕ) (ino : ℕ) → S × Bool) where
      pub minix_readdir-walk :
          (s : S) (pos : ℕ)
          → let at = paging.align64 pos in
            minix_readdir dir_emit paging dir s pos
            ≡ walk dir_emit (drop (at / aufs_dir_size) (slots paging dir)) s at
      unfolding minix_readdir walk i_size
      minix_readdir-walk s pos =
          let at = paging.align64 pos in
          let aligned : 64 * (at / 64) ≡ at = omega (arith, paging.align64_lem pos) in
          let size = length-slots_from (dir_pages i_size) 0 (omega arith) in
          elim (ltb-cases at i_size) [
            | inl (_, lt) ↦
                let test : leb i_size at ≡ false = ground arith in
                let n = at / page_size in
                let parts = division at page_size some_page in
                let units =
                  divided at page_size paging.slots paging.page_size_lem paging.some_slots in
                let inside : n < dir_pages i_size = elim (ltb-cases n (dir_pages i_size)) [
                  | inl (_, in_range) ↦ in_range
                  | inr (_, out) ↦ absurd (omega (arith, ends i_size n out, parts.0, lt))
                ] in
                let valid_at = minix_last_byte_lem dir.inode.i_size n inside in
                let j = at % page_size / 64 in
                let offset : 64 * j ≡ at % page_size = omega (arith, units, aligned) in
                let left = dir_pages i_size - n in
                let walked =
                  readdir_pages-walk dir_emit paging dir readable left n j s at
                    (omega (arith, inside))
                    (omega (
                      arith,
                      last_byte-whole paging dir readable n,
                      valid_at,
                      offset,
                      parts.0,
                      parts.1,
                      lt,
                    )) in
                let apart =
                  drop-slots_from n left (dir_pages i_size) 0 n (at / 64) j (omega (arith, inside))
                    (omega arith) (omega (arith, units, aligned, offset)) (omega arith)
                    (omega (arith, parts.0, lt)) in
                rw test (
                  ap (λ (o : ℕ). readdir_pages dir_emit paging dir left n o s at) (sym offset)
                  ∙ (walked ∙ ap (λ (des : List DirEntry). walk dir_emit des s at) (sym apart)))
            | inr (_, le) ↦
                let test : leb i_size at ≡ true = ground arith in
                rw (
                  test,
                  drop-all (at / aufs_dir_size) (slots paging dir) (omega (arith, size, aligned)),
                )
          ]
