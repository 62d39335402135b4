-- ===== src/Dir/Name.antt =====
-- `namecompare` against a stored name is equality of names.
use aufs_enabled.Base.{
  ℕ, zero, suc, ◌-◌, ◌≤◌, true, List, [], ◌∷◌, ◌++◌, get_or, take, replicate, length, length-append,
  length-replicate, get_or-beyond, ◌≡◌, ◌≢◌, ◌↔◌, inl, inr, refl, ap, ap₂, arith, ltb-cases,
}
use aufs_enabled.Dir.{aufs_name_len, aufs_dir_size, same_bytes, namecompare, padded}

abbrev pub NonZero : List ℕ → Type 0
NonZero [] = Unit {0}
NonZero (x ∷ xs) = (x ≢ 0) × NonZero xs

-- A name as the VFS hands it over: no byte is NUL, and it fits its field.
pub record IsName (name : List ℕ) : Type 0 where
  pub non_zero : NonZero name
  pub fits : length name ≤ aufs_name_len

take-length : (xs : List ℕ) → take (length xs) xs ≡ xs
take-length [] = refl
take-length (x ∷ xs) = ap (◌∷◌ x) (take-length xs)

abbrev pad : List ℕ → ℕ → List ℕ
pad name k = name ++ replicate k 0

same_bytes-pad :
    (name other : List ℕ) (k : ℕ)
    → NonZero name
    → NonZero other
    → same_bytes (length name) name (pad other k) ≡ true
    → get_or (pad other k) (length name) 0 ≡ 0
    → name ≡ other
unfolding same_bytes
same_bytes-pad [] [] k z z' same end = refl
same_bytes-pad [] (y ∷ other) k z z' same end = absurd (z'.0 end)
same_bytes-pad (x ∷ name) [] zero z z' same end = cc
same_bytes-pad (x ∷ name) [] (suc k) z z' same end = absurd (ground arith)
same_bytes-pad (x ∷ name) (y ∷ other) k z z' same end =
    let first : x ≡ y = ground arith in
    let rest : same_bytes (length name) name (pad other k) ≡ true = ground arith in
    ap₂ ◌∷◌ first (same_bytes-pad name other k z.1 z'.1 rest end)

same_bytes-pad_self : (name : List ℕ) (k : ℕ) → same_bytes (length name) name (pad name k) ≡ true
unfolding same_bytes
same_bytes-pad_self [] k = refl
same_bytes-pad_self (x ∷ name) k = ground (arith, same_bytes-pad_self name k)

get_or-pad : (name : List ℕ) (k : ℕ) → get_or (pad name k) (length name) 0 ≡ 0
get_or-pad [] zero = refl
get_or-pad [] (suc k) = refl
get_or-pad (x ∷ name) k = get_or-pad name k

-- What `minix_add_link` stores of a name.
pub padded_lem :
    (name : List ℕ) → padded name (length name) ≡ pad name (aufs_dir_size - length name - 4)
unfolding padded
padded_lem name =
    ap (λ (xs : List ℕ). xs ++ replicate (aufs_dir_size - length name - 4) 0) (take-length name)

pub length-padded :
    (name : List ℕ) → IsName name → length (padded name (length name)) ≡ aufs_name_len
length-padded name valid =
    let k = aufs_dir_size - length name - 4 in
    rw (padded_lem name)
      (omega (arith, length-append name (replicate k 0), length-replicate {A = ℕ} k 0, valid.fits))

-- For names without NUL bytes that fit their field: `namecompare` of `name` with what
-- `minix_add_link` stores for `other` says yes exactly when the names are equal.
pub namecompare-padded_iff :
    (name other : List ℕ)
    → IsName name
    → IsName other
    → (namecompare (length name) aufs_name_len name (padded other (length other)) ≡ true)
      ↔ (name ≡ other)
unfolding namecompare
namecompare-padded_iff name other valid valid' = (forth, back)
  where
    k : ℕ
    k = aufs_dir_size - length other - 4

    forth :
        namecompare (length name) aufs_name_len name (padded other (length other)) ≡ true
        → name ≡ other
    forth e =
        let e' : namecompare (length name) aufs_name_len name (pad other k) ≡ true =
          rw (padded_lem other) at e in
        let end : get_or (pad other k) (length name) 0 ≡ 0 =
          elim (ltb-cases (length name) aufs_name_len) [
            | inl (t, _) ↦ ground arith
            | inr (_, h) ↦ get_or-beyond (pad other k) (length name) 0 (
                omega (
                  arith,
                  length-append other (replicate k 0),
                  length-replicate {A = ℕ} k 0,
                  valid'.fits,
                ))
          ] in
        same_bytes-pad name other k valid.non_zero valid'.non_zero (ground arith) end

    back :
        name ≡ other
        → namecompare (length name) aufs_name_len name (padded other (length other)) ≡ true
    back e =
        rw (← e, padded_lem name)
          (ground (
            arith,
            get_or-pad name (aufs_dir_size - length name - 4),
            same_bytes-pad_self name (aufs_dir_size - length name - 4),
          ))
