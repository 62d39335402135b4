-- ===== src/Mkfs/Cache/Changed.antt =====
-- A block put into the cache, changed in it, or asked of it.
use aufs_enabled.Base.{
  ℕ, zero, suc, ◌+◌, ◌/◌, ◌%◌, ◌<◌, true, false, Option, none, some, List, [], ◌∷◌, ltb, ◌==◌,
  if◌then◌else◌, length, get_or, ◌≡◌, ◌⊎◌, ◌∙◌, inl, inr, refl, sym, ap, arith, ==-cases,
  Bool-cases,
}
use aufs_enabled.Mkfs.Cache.{Block, cached, insert, read_bytes, change}
use aufs_enabled.Mkfs.Cache.View.{through, IsWhole, AreBlocks, cached-none}

pub length-read_bytes : (device : ℕ → ℕ) (pos n : ℕ) → length (read_bytes device pos n) ≡ n
unfolding read_bytes
length-read_bytes device pos zero = refl
length-read_bytes device pos (suc n) = ap suc (length-read_bytes device (suc pos) n)

pub get_or-read_bytes :
    (device : ℕ → ℕ) (pos n i : ℕ) → i < n → get_or (read_bytes device pos n) i 0 ≡ device (pos + i)
unfolding read_bytes
get_or-read_bytes device pos zero i h = absurd (omega arith)
get_or-read_bytes device pos (suc n) zero h = ap device (omega arith)
get_or-read_bytes device pos (suc n) (suc i) h =
    get_or-read_bytes device (suc pos) n i (omega arith) ∙ ap device (omega arith)

if_swap {ℓ} :
    {A : Type ℓ} (m n q : ℕ) (x y z : A)
    → (m == n) ≡ false
    → (if m == q then y else if n == q then x else z)
      ≡ (if n == q then x else if m == q then y else z)
if_swap m n q x y z ne = elim (==-cases m q) [
  | inl (t, e) ↦ let s : (n == q) ≡ false = ground arith in rw (t, s)
  | inr (t, _) ↦ rw t
]

if_twice {ℓ} :
    {A : Type ℓ} (m q : ℕ) (x y z : A)
    → (if m == q then x else z) ≡ (if m == q then x else if m == q then y else z)
if_twice m q x y z = elim (Bool-cases (m == q)) [ inl t ↦ rw t | inr t ↦ rw t ]

pub cached-insert :
    (bs : List Block) (new : Block) (num : ℕ)
    → cached bs new.m_number ≡ none
    → cached (insert bs new) num ≡ (if new.m_number == num then some new else cached bs num)
unfolding insert
cached-insert [] new num e = refl
cached-insert (b ∷ bs) new num e =
    let apart = cached-none b bs new.m_number e in
    elim (Bool-cases (ltb new.m_number b.m_number)) [
      | inl t ↦ rw t
      | inr t ↦ rw t (
          ap (λ (o : Option Block). if b.m_number == num then some b else o)
            (cached-insert bs new num apart.1)
          ∙ if_swap b.m_number new.m_number num _ _ _ apart.0)
    ]

pub cached-some :
    (c : Block) (bs : List Block) (num : ℕ) {b : Block}
    → cached (c ∷ bs) num ≡ some b
    → (((c.m_number == num) ≡ true) × (c ≡ b))
      ⊎ (((c.m_number == num) ≡ false) × (cached bs num ≡ some b))
cached-some c bs num {b = b} e = elim (Bool-cases (c.m_number == num)) [
  | inl t ↦ let h : some c ≡ some b = rw t at e in inl (t, cc)
  | inr t ↦ inr (t, rw t at e)
]

module _ (block_size : ℕ) where
  pub through-insert :
      (bs : List Block) (new : Block) (device : ℕ → ℕ) (p : ℕ)
      → cached bs new.m_number ≡ none
      → through block_size (insert bs new) device p ≡ (
          if new.m_number == p / block_size
          then get_or new.m_data (p % block_size) 0
          else through block_size bs device p)
  unfolding insert
  through-insert [] new device p e = refl
  through-insert (b ∷ bs) new device p e =
      let apart = cached-none b bs new.m_number e in
      elim (Bool-cases (ltb new.m_number b.m_number)) [
        | inl t ↦ rw t
        | inr t ↦ rw t (
            ap
              (λ (v : ℕ).
                if b.m_number == p / block_size then get_or b.m_data (p % block_size) 0 else v)
              (through-insert bs new device p apart.1)
            ∙ if_swap b.m_number new.m_number (p / block_size) _ _ _ apart.0)
      ]

  pub insert-AreBlocks :
      (bs : List Block) (new : Block)
      → AreBlocks block_size bs
      → IsWhole block_size new
      → cached bs new.m_number ≡ none
      → AreBlocks block_size (insert bs new)
  unfolding insert
  insert-AreBlocks [] new h whole e = (whole, refl, tt)
  insert-AreBlocks (b ∷ bs) new (first, alone, rest) whole e =
      let apart = cached-none b bs new.m_number e in
      let apart' : (new.m_number == b.m_number) ≡ false = ground (arith, apart.0) in
      elim (Bool-cases (ltb new.m_number b.m_number)) [
        | inl t ↦ rw t (whole, e, (first, alone, rest))
        | inr t ↦ rw t (
          first,
          cached-insert bs new b.m_number apart.1 ∙ (rw (apart') alone),
          insert-AreBlocks bs new rest whole apart.1,
        )
      ]

  pub change-none :
      (f : Block → Block) (bs : List Block) (num : ℕ) → cached bs num ≡ none → change bs num f ≡ bs
  unfolding change
  change-none f [] num e = refl
  change-none f (b ∷ bs) num e =
      let apart = cached-none b bs num e in rw (apart.0) (ap (◌∷◌ b) (change-none f bs num apart.1))

  -- A change that keeps the numbers.
  module _ (f : Block → Block) (same : (b : Block) → (f b).m_number ≡ b.m_number) where
    cached-change :
        (bs : List Block) (num k : ℕ) → cached bs k ≡ none → cached (change bs num f) k ≡ none
    unfolding change
    cached-change [] num k e = refl
    cached-change (b ∷ bs) num k e =
        let apart = cached-none b bs k e in
        elim (Bool-cases (b.m_number == num)) [
          | inl t ↦ rw t (rw (same b, apart.0) apart.1)
          | inr t ↦ rw t (rw (apart.0) (cached-change bs num k apart.1))
        ]

    pub change-AreBlocks :
        (bs : List Block) (num : ℕ)
        → ((b : Block) → IsWhole block_size b → IsWhole block_size (f b))
        → AreBlocks block_size bs
        → AreBlocks block_size (change bs num f)
    unfolding change
    change-AreBlocks [] num keeps h = tt
    change-AreBlocks (b ∷ bs) num keeps (first, alone, rest) =
        elim (Bool-cases (b.m_number == num)) [
          | inl t ↦ rw t (keeps b first, ap (cached bs) (same b) ∙ alone, rest)
          | inr t ↦
              rw t
                (first, cached-change bs num b.m_number alone, change-AreBlocks bs num keeps rest)
        ]

    pub through-change :
        (bs : List Block) (num : ℕ) (b : Block) (device : ℕ → ℕ) (p : ℕ)
        → cached bs num ≡ some b
        → through block_size (change bs num f) device p ≡ (
            if num == p / block_size
            then get_or (f b).m_data (p % block_size) 0
            else through block_size bs device p)
    unfolding change
    through-change [] num b device p e = cc
    through-change (c ∷ bs) num b device p e = elim (cached-some c bs num e) [
      | inl (t, h) ↦
          let at : c.m_number ≡ num = ground arith in
          rw t (
            ap
              (λ (m : ℕ).
                if m == p / block_size
                then get_or (f c).m_data (p % block_size) 0
                else through block_size bs device p)
              (same c ∙ at)
            ∙ (ap
                  (λ (x : Block).
                    if num == p / block_size
                    then get_or (f x).m_data (p % block_size) 0
                    else through block_size bs device p)
                  h
                ∙ (if_twice num (p / block_size) _ _ _
                    ∙ ap
                        (λ (m : ℕ).
                          if num == p / block_size
                          then get_or (f b).m_data (p % block_size) 0
                          else if m == p / block_size
                          then get_or c.m_data (p % block_size) 0
                          else through block_size bs device p)
                        (sym at))))
      | inr (t, h) ↦ rw t (
          ap
            (λ (v : ℕ).
              if c.m_number == p / block_size then get_or c.m_data (p % block_size) 0 else v)
            (through-change bs num b device p h)
          ∙ if_swap c.m_number num (p / block_size) _ _ _ t)
    ]

  pub through-hit :
      (bs : List Block) (b : Block) (device : ℕ → ℕ) (p : ℕ)
      → cached bs (p / block_size) ≡ some b
      → through block_size bs device p ≡ get_or b.m_data (p % block_size) 0
  through-hit [] b device p e = cc
  through-hit (c ∷ bs) b device p e = elim (cached-some c bs (p / block_size) e) [
    | inl (t, h) ↦ rw t (rw h)
    | inr (t, h) ↦ rw t (through-hit bs b device p h)
  ]
