-- ===== src/Dir/Listing/Complete.antt =====
-- What readers of a directory get from calls of `minix_readdir`.
use aufs_enabled.Base.{
  Bool, get_elem?, ◌⊎◌, ℕ, zero, suc, ◌+◌, ◌-◌, ◌*◌, ◌/◌, ◌≤◌, true, List, [], ◌∷◌, ◌++◌, ◌==◌,
  length, take, ◌≡◌, ◌∙◌, refl, sym, ap, ap₂, subst, arith, Bool-cases, inl, inr,
}
use aufs_enabled.Kernel.{Paging}
use aufs_enabled.Dir.{aufs_dir_size, aufs_name_len, DirEntry, Directory}
use aufs_enabled.Dir.Listing.{strnlen, drop, minix_readdir}
use aufs_enabled.Dir.Listing.Walk.{slots, IsReadable, walk, length-drop}
use aufs_enabled.Dir.Listing.Pieces.{minix_readdir-walk, length-slots}
use aufs_enabled.Dir.Listing.Reader.{names, Reader, IsRefused, Passes, walk-Passes}

take-length : (xs : List DirEntry) → take (length xs) xs ≡ xs
take-length [] = refl
take-length (x ∷ xs) = ap (◌∷◌ x) (take-length xs)

take-none : (n : ℕ) → take {A = DirEntry} n [] ≡ []
take-none zero = refl
take-none (suc n) = refl

drop-none : (n : ℕ) → drop n [] ≡ []
drop-none zero = refl
drop-none (suc n) = refl

take-drop : (j m : ℕ) (xs : List DirEntry) → take j xs ++ take m (drop j xs) ≡ take (j + m) xs
take-drop zero m xs = ap (λ (n : ℕ). take n xs) (omega arith)
take-drop (suc j) zero [] = sym (take-none _)
take-drop (suc j) (suc m) [] = sym (take-none _)
take-drop (suc j) m (x ∷ xs) =
    ap (◌∷◌ x) (take-drop j m xs)
    ∙ ap (λ (n : ℕ). take n (x ∷ xs)) {x = suc (j + m)} {y = suc j + m} (omega arith)

drop-drop : (j k : ℕ) (xs : List DirEntry) → drop j (drop k xs) ≡ drop (k + j) xs
drop-drop j zero xs = ap (λ (n : ℕ). drop n xs) (omega arith)
drop-drop zero (suc k) [] = sym (drop-none _)
drop-drop (suc j) (suc k) [] = sym (drop-none _)
drop-drop j (suc k) (x ∷ xs) =
    drop-drop j k xs
    ∙ ap (λ (n : ℕ). drop n (x ∷ xs)) {x = suc (k + j)} {y = suc k + j} (omega arith)

names-append : (xs ys : List DirEntry) → names (xs ++ ys) ≡ names xs ++ names ys
names-append [] ys = refl
names-append (x ∷ xs) ys = elim (Bool-cases (x.dde_inode == 0)) [
  | inl t ↦ rw t (names-append xs ys)
  | inr t ↦ rw t (
      ap (◌∷◌ (take (strnlen x.dde_name aufs_name_len) x.dde_name, x.dde_inode))
        (names-append xs ys))
]

module _ {ℓ} {S : Type ℓ} (reader : Reader S) where
  open reader use {dir_emit, listed}

  abbrev pub AreEmpty : List S → Type 0
  AreEmpty [] = Unit {0}
  AreEmpty (s ∷ ss) = (listed s ≡ []) × AreEmpty ss

  module _ (paging : Paging) (dir : Directory) where
    -- What several readers get, the first of whom starts at `pos` and each of whom goes on where the one
    -- before stopped; the last one afterwards, and where it stops.
    abbrev pub readdirs : S → List S → (pos : ℕ) → List (List ℕ × ℕ) × S × ℕ
    readdirs s [] pos =
        let (s', pos') = minix_readdir dir_emit paging dir s pos in (listed s', s', pos')
    readdirs s (t ∷ ss) pos =
        let (s', pos') = minix_readdir dir_emit paging dir s pos in
        let (rest, last, end) = readdirs t ss pos' in (listed s' ++ rest, last, end)

  module _ (paging : Paging) (dir : Directory) (readable : IsReadable paging dir) where
    -- One call, from a position that counts whole entries.
    minix_readdir-Passes :
        (s : S) (pos k : ℕ)
        → pos ≡ aufs_dir_size * k
        → Passes reader (drop k (slots paging dir)) s pos (minix_readdir dir_emit paging dir s pos)
    minix_readdir-Passes s pos k e =
        let at : paging.align64 pos ≡ pos = paging.align64_lem pos ∙ omega arith in
        let index : pos / aufs_dir_size ≡ k = omega arith in
        let walked : minix_readdir dir_emit paging dir s pos
            ≡ walk dir_emit (drop k (slots paging dir)) s pos =
          rw (at, index) at (minix_readdir-walk paging dir readable dir_emit s pos) in
        subst (Passes reader (drop k (slots paging dir)) s pos) (sym walked)
          (walk-Passes reader (drop k (slots paging dir)) s pos)

    -- Those before entry `n` were listed, and `n` is the end of the directory or was refused.
    abbrev pub StopsAt : ℕ → S → Type ℓ
    StopsAt n last = (n ≡ length (slots paging dir)) ⊎ IsRefused reader (slots paging dir) n last

    get_elem?-drop :
        (k n : ℕ) (des : List DirEntry) → get_elem? (drop k des) n ≡ get_elem? des (k + n)
    get_elem?-drop zero n des = ap (λ (m : ℕ). get_elem? des m) (omega arith)
    get_elem?-drop (suc k) n [] = refl
    get_elem?-drop (suc k) n (de ∷ des) =
        get_elem?-drop k n des
        ∙ ap (λ (m : ℕ). get_elem? (de ∷ des) m) {x = suc (k + n)} {y = suc k + n} (omega arith)

    Passes-StopsAt :
        (s : S) (pos k : ℕ) (r : S × ℕ) (one : Passes reader (drop k (slots paging dir)) s pos r)
        → k ≤ length (slots paging dir)
        → StopsAt (k + one.passed) r.0
    Passes-StopsAt s pos k r one inside = elim one.stops [
      | inl all ↦ inl (omega (arith, all, length-drop k (slots paging dir)))
      | inr h ↦ inr (record {
        before = h.before;
        entry = h.entry;
        at = sym (get_elem?-drop k one.passed (slots paging dir)) ∙ h.at;
        used = h.used;
        refused = h.refused;
      })
    ]

    readdirs-from :
        (s : S) (ss : List S) (pos k : ℕ)
        → pos ≡ aufs_dir_size * k
        → k ≤ length (slots paging dir)
        → AreEmpty (s ∷ ss)
        → let (got, last, end) = readdirs paging dir s ss pos in
          (m : ℕ) × (end ≡ aufs_dir_size * (k + m))
          × (m ≤ length (slots paging dir) - k)
          × (got ≡ names (take m (drop k (slots paging dir))))
          × StopsAt (k + m) last
    readdirs-from s [] pos k e within (first, empty) =
        let one = minix_readdir-Passes s pos k e in
        let rest = drop k (slots paging dir) in
        (
          one.passed,
          omega (arith, one.place),
          omega (arith, one.inside, length-drop k (slots paging dir)),
          one.lists ∙ ap (λ (l : List (List ℕ × ℕ)). l ++ names (take one.passed rest)) first,
          Passes-StopsAt s pos k _ one within,
        )
    readdirs-from s (t ∷ ss) pos k e within (first, empty) =
        let one = minix_readdir-Passes s pos k e in
        let size = length-drop k (slots paging dir) in
        let r = minix_readdir dir_emit paging dir s pos in
        let (m, end, inside, lists, stops) =
          readdirs-from t ss r.1 (k + one.passed) (omega (arith, one.place))
            (omega (arith, one.inside, size)) empty in
        let rest = drop k (slots paging dir) in
        (
          one.passed + m,
          end ∙ omega arith,
          omega (arith, inside, one.inside, size),
          ap₂ ◌++◌
                (one.lists
                  ∙ ap (λ (l : List (List ℕ × ℕ)). l ++ names (take one.passed rest)) first)
                lists
              ∙ (ap (λ (des : List DirEntry). names (take one.passed rest) ++ names (take m des))
                    (sym (drop-drop one.passed k (slots paging dir)))
                  ∙ (sym (names-append (take one.passed rest) _)
                      ∙ ap names (take-drop one.passed m rest))),
          subst (λ (n : ℕ). StopsAt n (readdirs paging dir t ss r.1).1) (omega arith) stops,
        )

    -- Where every page of a directory can be read, is full of entries, and the size counts whole
    -- entries: one or more readers with empty buffers, of whom the first starts at 0 and each next one
    -- where the one before stopped, get together the names and the inode numbers of the used entries
    -- before the position where the last one stops, each once and in their order. That is the end of
    -- the directory, so that they get all used entries, or the place of a used entry that the last
    -- reader has refused.
    pub readdirs-names :
        (s : S) (ss : List S)
        → AreEmpty (s ∷ ss)
        → let (got, last, end) = readdirs paging dir s ss 0 in
          (n : ℕ) × (end ≡ aufs_dir_size * n)
          × (got ≡ names (take n (slots paging dir)))
          × ((n ≡ length (slots paging dir)) ⊎ IsRefused reader (slots paging dir) n last)
    readdirs-names s ss empty =
        let (m, end, inside, lists, stops) =
          readdirs-from s ss 0 0 (omega arith) (omega arith) empty in
        (
          m,
          end ∙ omega arith,
          lists,
          subst (λ (n : ℕ). StopsAt n (readdirs paging dir s ss 0).1) (omega arith) stops,
        )

    -- Where every page of a directory can be read, is full of entries, and the size counts whole
    -- entries, and where `dir_emit` takes every entry: one call from position 0 lists all used entries
    -- in their order and stops at the size of the directory.
    pub minix_readdir-names :
        (s : S)
        → ((u : S) (name : List ℕ) (ino : ℕ) → (dir_emit u name ino).1 ≡ true)
        → (listed (minix_readdir dir_emit paging dir s 0).0 ≡ listed s ++ names (slots paging dir))
          × ((minix_readdir dir_emit paging dir s 0).1 ≡ dir.inode.i_size)
    minix_readdir-names s all =
        let one = minix_readdir-Passes s 0 0 (omega arith) in
        let size = length-slots paging dir readable in
        let whole : one.passed ≡ length (slots paging dir) = elim one.stops [
          | inl done ↦ done
          | inr h ↦ absurd (cc (sym (all h.before _ _) ∙ ap (λ (r : S × Bool). r.1) h.refused))
        ] in
        (
          one.lists
              ∙ ap (λ (des : List DirEntry). listed s ++ names des)
                  (ap (λ (n : ℕ). take n (slots paging dir)) whole
                    ∙ take-length (slots paging dir)),
          omega (arith, one.place, whole, size),
        )
