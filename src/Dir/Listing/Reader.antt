-- ===== src/Dir/Listing/Reader.antt =====
-- A reader's buffer after a walk over entries.
use aufs_enabled.Base.{
  ℕ, suc, ◌+◌, ◌*◌, ◌≤◌, Bool, true, false, List, [], ◌∷◌, ◌++◌, ◌==◌, if◌then◌else◌, length, some,
  get_elem?, subst, ◌⊎◌, take, ◌≡◌, ◌∙◌, refl, sym, ap, arith, Bool-cases, inl, inr,
}
use aufs_enabled.Dir.{aufs_dir_size, aufs_name_len, DirEntry}
use aufs_enabled.Dir.Listing.{strnlen, emit_entry}
use aufs_enabled.Dir.Listing.Walk.{walk}

-- The names and inode numbers of the entries in use, in their order.
abbrev pub names : List DirEntry → List (List ℕ × ℕ)
names [] = []
names (de ∷ des) =
    let rest = names des in
    if de.dde_inode == 0
    then rest
    else (take (strnlen de.dde_name aufs_name_len) de.dde_name, de.dde_inode) ∷ rest

-- `dir_emit` with what it has put into the reader's buffer: it takes an entry and says so, or refuses
-- it and leaves the buffer as it is.
pub record Reader {ℓ} (S : Type ℓ) : Type ℓ where
  pub dir_emit : S → (name : List ℕ) (ino : ℕ) → S × Bool
  pub listed : S → List (List ℕ × ℕ)
  pub takes :
      (s : S) (name : List ℕ) (ino : ℕ)
      → (dir_emit s name ino).1 ≡ true
      → listed (dir_emit s name ino).0 ≡ listed s ++ (name, ino) ∷ []
  pub refuses :
      (s : S) (name : List ℕ) (ino : ℕ)
      → (dir_emit s name ino).1 ≡ false
      → listed (dir_emit s name ino).0 ≡ listed s

append_assoc : {A : Type 0} (xs ys zs : List A) → (xs ++ ys) ++ zs ≡ xs ++ (ys ++ zs)
append_assoc [] ys zs = refl
append_assoc (x ∷ xs) ys zs = ap (◌∷◌ x) (append_assoc xs ys zs)

append_nil : {A : Type 0} (xs : List A) → xs ≡ xs ++ []
append_nil [] = refl
append_nil (x ∷ xs) = ap (◌∷◌ x) (append_nil xs)

module _ {ℓ} {S : Type ℓ} (reader : Reader S) where
  open reader use {dir_emit, listed}

  -- Entry `n` of `des` is in use, and refusing it has left the reader as `last`.
  pub record IsRefused (des : List DirEntry) (n : ℕ) (last : S) : Type ℓ where
    pub before : S
    pub entry : DirEntry
    pub at : get_elem? des n ≡ some entry
    pub used : (entry.dde_inode == 0) ≡ false
    pub refused :
        dir_emit before (take (strnlen entry.dde_name aufs_name_len) entry.dde_name) entry.dde_inode
        ≡ (last, false)

  -- A walk over `des` from `pos` on that came past the first `passed` of them: all, or those before
  -- the one that the reader refused.
  pub record Passes (des : List DirEntry) (s : S) (pos : ℕ) (r : S × ℕ) : Type ℓ where
    pub passed : ℕ
    pub inside : passed ≤ length des
    pub place : r.1 ≡ pos + aufs_dir_size * passed
    pub lists : listed r.0 ≡ listed s ++ names (take passed des)
    pub stops : (passed ≡ length des) ⊎ IsRefused des passed r.0

  -- One entry.
  emit_entry-takes :
      (s : S) (de : DirEntry)
      → (emit_entry dir_emit s de).1 ≡ true
      → listed (emit_entry dir_emit s de).0 ≡ listed s ++ names (de ∷ [])
  unfolding emit_entry
  emit_entry-takes s de e = elim (Bool-cases (de.dde_inode == 0)) [
    | inl t ↦ rw t (append_nil (listed s))
    | inr t ↦ rw t (reader.takes s _ _ (rw t at e))
  ]

  emit_entry-refuses :
      (s : S) (de : DirEntry) (des : List DirEntry)
      → (emit_entry dir_emit s de).1 ≡ false
      → (listed (emit_entry dir_emit s de).0 ≡ listed s)
        × IsRefused (de ∷ des) 0 (emit_entry dir_emit s de).0
  unfolding emit_entry
  emit_entry-refuses s de des e = elim (Bool-cases (de.dde_inode == 0)) [
    | inl t ↦ absurd (cc (rw t at e))
    | inr t ↦
        let refused = rw t at e in
        let name = take (strnlen de.dde_name aufs_name_len) de.dde_name in
        rw t (
          reader.refuses s _ _ refused,
          record {
            before = s;
            entry = de;
            at = refl;
            used = t;
            refused = λ i. ((dir_emit s name de.dde_inode).0, refused i);
          },
        )
  ]

  IsRefused-cons :
      (de : DirEntry) (des : List DirEntry) (n : ℕ) (last : S)
      → IsRefused des n last
      → IsRefused (de ∷ des) (suc n) last
  IsRefused-cons de des n last h = record {
    before = h.before;
    entry = h.entry;
    at = h.at;
    used = h.used;
    refused = h.refused;
  }

  names-cons :
      (de : DirEntry) (des : List DirEntry) → names (de ∷ []) ++ names des ≡ names (de ∷ des)
  names-cons de des = elim (Bool-cases (de.dde_inode == 0)) [ inl t ↦ rw t | inr t ↦ rw t ]

  Passes-cons :
      (de : DirEntry) (des : List DirEntry) (s s' : S) (pos : ℕ) (more : Bool) (rest : S × ℕ)
      → emit_entry dir_emit s de ≡ (s', more)
      → Passes des s' (pos + aufs_dir_size) rest
      → Passes (de ∷ des) s pos (if more then rest else (s', pos))
  Passes-cons de des s s' pos true rest e h =
      let took : listed s' ≡ listed s ++ names (de ∷ []) =
        ap (λ (r : S × Bool). listed r.0) (sym e)
        ∙ emit_entry-takes s de (ap (λ (r : S × Bool). r.1) e) in
      record {
        passed = suc h.passed;
        inside = omega (arith, h.inside);
        place = omega (arith, h.place);
        lists =
            h.lists
            ∙ (ap (λ (l : List (List ℕ × ℕ)). l ++ names (take h.passed des)) took
                ∙ (append_assoc (listed s) (names (de ∷ [])) (names (take h.passed des))
                    ∙ ap (λ (l : List (List ℕ × ℕ)). listed s ++ l)
                        (names-cons de (take h.passed des))));
        stops = elim h.stops [
          | inl all ↦ inl (omega (arith, all))
          | inr refused ↦ inr (IsRefused-cons de des h.passed rest.0 refused)
        ];
      }
  Passes-cons de des s s' pos false rest e h =
      let refused = emit_entry-refuses s de des (ap (λ (r : S × Bool). r.1) e) in
      record {
        passed = 0;
        inside = omega arith;
        place = omega arith;
        lists = ap (λ (r : S × Bool). listed r.0) (sym e) ∙ (refused.0 ∙ append_nil (listed s));
        stops = inr (subst (IsRefused (de ∷ des) 0) (ap (λ (r : S × Bool). r.0) e) refused.1);
      }

  pub walk-Passes :
      (des : List DirEntry) (s : S) (pos : ℕ) → Passes des s pos (walk dir_emit des s pos)
  unfolding walk
  walk-Passes [] s pos = record {
    passed = 0;
    inside = omega arith;
    place = omega arith;
    lists = append_nil (listed s);
    stops = inl (omega arith);
  }
  walk-Passes (de ∷ des) s pos =
      let (s', more) = emit_entry dir_emit s de in
      Passes-cons de des s s' pos more (walk dir_emit des s' (pos + aufs_dir_size)) refl
        (walk-Passes des s' (pos + aufs_dir_size))
