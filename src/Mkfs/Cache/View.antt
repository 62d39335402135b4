-- ===== src/Mkfs/Cache/View.antt =====
-- The cache and its device as one memory of bytes.
use aufs_enabled.Base.{
  ℕ, ◌+◌, ◌-◌, ◌*◌, ◌/◌, ◌%◌, ◌^◌, ◌<◌, ◌≤◌, Bool, true, false, ◌&&◌, none, List, [], ◌∷◌, ltb, leb,
  ◌==◌, if◌then◌else◌, u64, length, get_or, ◌≡◌, ◌∙◌, inl, inr, refl, sym, ap, arith, ==-cases,
  ltb-cases,
}
use aufs_enabled.Mkfs.Cache.{Block, BlocksCache, cached, write_bytes, write_block, sync_loop}

pub cached-none :
    (b : Block) (bs : List Block) (num : ℕ)
    → cached (b ∷ bs) num ≡ none
    → ((b.m_number == num) ≡ false) × (cached bs num ≡ none)
cached-none b bs num e = elim (==-cases b.m_number num) [
  | inl (t, _) ↦ search e
  | inr (t, _) ↦ (t, sym (rw t) ∙ e)
]

module _ (block_size : ℕ) where
  -- Byte `p` through the cache.
  abbrev pub through : List Block → (ℕ → ℕ) → ℕ → ℕ
  through [] device p = device p
  through (b ∷ bs) device p =
      if b.m_number == p / block_size
      then get_or b.m_data (p % block_size) 0
      else through bs device p

  abbrev pub view : BlocksCache → ℕ → ℕ
  view cache = through cache.m_cache cache.device

  -- A whole block at a position that a stream can have.
  pub record IsWhole (b : Block) : Type 0 where
    pub full : length b.m_data ≡ block_size
    pub place : b.m_number * block_size + block_size < 2 ^ 63

  -- Whole blocks, each number once.
  abbrev pub AreBlocks : List Block → Type 0
  AreBlocks [] = Unit {0}
  AreBlocks (b ∷ bs) = IsWhole b × (cached bs b.m_number ≡ none) × AreBlocks bs

  module _ (pos : 0 < block_size) where
    below_block : (m n : ℕ) → m < n → m * block_size + block_size ≤ n * block_size
    below_block m n lt = grind arith

    pub split :
        (p : ℕ) → (p / block_size * block_size + p % block_size ≡ p) × (p % block_size < block_size)
    split p = (grind arith, grind arith)

    pub place_lem :
        (num p : ℕ)
        → (leb (num * block_size) p && ltb p (num * block_size + block_size))
          ≡ (num == p / block_size)
    place_lem num p =
        let q = p / block_size in
        let parts = split p in
        elim (==-cases num q) [
          | inl (t, e) ↦
              let e' : num * block_size ≡ q * block_size = ap (λ (k : ℕ). k * block_size) e in
              rw t (ground arith)
          | inr (t, ne) ↦ elim (ltb-cases num q) [
            | inl (_, lt) ↦ let far = below_block num q lt in rw t (ground arith)
            | inr (_, le) ↦ let far = below_block q num (omega arith) in rw t (ground arith)
          ]
        ]

    pub offset_lem : (num p : ℕ) → num ≡ p / block_size → p - num * block_size ≡ p % block_size
    offset_lem num p e =
        let e' : num * block_size ≡ p / block_size * block_size =
          ap (λ (k : ℕ). k * block_size) e in
        omega (arith, split p)

    pub write_block_lem :
        (device : ℕ → ℕ) (b : Block) (p : ℕ)
        → IsWhole b
        → write_block block_size device b p
          ≡ (if b.m_number == p / block_size then get_or b.m_data (p % block_size) 0 else device p)
    unfolding write_block write_bytes
    write_block_lem device b p h =
        let at : u64 (b.m_number * block_size) ≡ b.m_number * block_size = omega (arith, h.place) in
        let full = h.full in
        rw (at, full, place_lem b.m_number p)
          (elim (==-cases b.m_number (p / block_size)) [
            | inl (t, e) ↦ let off = offset_lem b.m_number p e in rw (t, off)
            | inr (t, _) ↦ rw t
          ])

    pub through-miss :
        (bs : List Block) (device : ℕ → ℕ) (p : ℕ)
        → cached bs (p / block_size) ≡ none
        → through bs device p ≡ device p
    through-miss [] device p e = refl
    through-miss (b ∷ bs) device p e =
        let apart = cached-none b bs (p / block_size) e in
        rw (apart.0) (through-miss bs device p apart.1)

    pub through-local :
        (bs : List Block) (device device' : ℕ → ℕ) (p : ℕ)
        → device p ≡ device' p
        → through bs device p ≡ through bs device' p
    through-local [] device device' p e = e
    through-local (b ∷ bs) device device' p e =
        ap
          (λ (v : ℕ).
            if b.m_number == p / block_size then get_or b.m_data (p % block_size) 0 else v)
          (through-local bs device device' p e)

    -- Writing the first block to the device does not change what is seen.
    through-write :
        (b : Block) (bs : List Block) (device : ℕ → ℕ) (p : ℕ)
        → IsWhole b
        → cached bs b.m_number ≡ none
        → through bs (write_block block_size device b) p ≡ through (b ∷ bs) device p
    through-write b bs device p h alone =
        let written = write_block_lem device b p h in
        elim (==-cases b.m_number (p / block_size)) [
          | inl (t, e) ↦
              let miss : cached bs (p / block_size) ≡ none = ap (cached bs) (sym e) ∙ alone in
              through-miss bs _ p miss ∙ (written ∙ rw t)
          | inr (t, _) ↦ through-local bs _ device p (written ∙ rw t) ∙ rw t
        ]

    -- After `sync_loop` the device holds what was seen, and the same is seen.
    pub record Synced (bs : List Block) (device : ℕ → ℕ) (r : List Block × (ℕ → ℕ)) : Type 0 where
      pub on_device : (p : ℕ) → r.1 p ≡ through bs device p
      pub seen : (p : ℕ) → through r.0 r.1 p ≡ through bs device p
      pub blocks : AreBlocks r.0
      pub fewer : (num : ℕ) → cached bs num ≡ none → cached r.0 num ≡ none

    keep_first :
        (b : Block) (bs kept : List Block) (device device' : ℕ → ℕ) (p : ℕ)
        → IsWhole b
        → cached bs b.m_number ≡ none
        → through kept device' p ≡ through bs (write_block block_size device b) p
        → through (b ∷ kept) device' p ≡ through (b ∷ bs) device p
    keep_first b bs kept device device' p h alone e =
        let rest : through kept device' p ≡ through (b ∷ bs) device p =
          e ∙ through-write b bs device p h alone in
        elim (==-cases b.m_number (p / block_size)) [
          | inl (t, _) ↦ rw t
          | inr (t, _) ↦ rw t (rest ∙ rw t)
        ]

    sync_first :
        (b : Block) (bs : List Block) (device : ℕ → ℕ) (r : List Block × (ℕ → ℕ)) (keep : Bool)
        → IsWhole b
        → cached bs b.m_number ≡ none
        → Synced bs (write_block block_size device b) r
        → Synced (b ∷ bs) device ((if keep then b ∷ r.0 else r.0), r.1)
    sync_first b bs device r true whole alone done = record {
      on_device = λ p. done.on_device p ∙ through-write b bs device p whole alone;
      seen = λ p. keep_first b bs r.0 device r.1 p whole alone (done.seen p);
      blocks = (whole, done.fewer b.m_number alone, done.blocks);
      fewer = λ num e. let apart = cached-none b bs num e in rw (apart.0) (done.fewer num apart.1);
    }
    sync_first b bs device r false whole alone done = record {
      on_device = λ p. done.on_device p ∙ through-write b bs device p whole alone;
      seen = λ p. done.seen p ∙ through-write b bs device p whole alone;
      blocks = done.blocks;
      fewer = λ num e. done.fewer num (cached-none b bs num e).1;
    }

    pub sync_loop-Synced :
        (bs : List Block) (device : ℕ → ℕ)
        → AreBlocks bs
        → Synced bs device (sync_loop block_size bs device)
    unfolding sync_loop
    sync_loop-Synced [] device h = record {
      on_device = λ p. refl;
      seen = λ p. refl;
      blocks = tt;
      fewer = λ num e. refl;
    }
    sync_loop-Synced (b ∷ bs) device (whole, alone, rest) =
        sync_first b bs device (sync_loop block_size bs (write_block block_size device b)) b.held
          whole alone (sync_loop-Synced bs (write_block block_size device b) rest)
