-- ===== src/Mkfs/Cache/Gets.antt =====
-- `BlocksCache::GetBlock`: the same memory is seen, and the block is there.
use aufs_enabled.Base.{
  ℕ, ◌+◌, ◌*◌, ◌/◌, ◌%◌, ◌^◌, ◌<◌, Bool, true, false, Option, none, some, List, [], ◌∷◌, ltb, ◌==◌,
  if◌then◌else◌, u64, length, ◌≡◌, ◌∙◌, inl, inr, refl, sym, ap, subst, arith, ==-cases,
}
use aufs_enabled.Mkfs.Cache.{
  Block, BlocksCache, cached, insert, read_block, sync, change, hold, get_block, threshold_size,
}
use aufs_enabled.Mkfs.Cache.View.{
  through, view, IsWhole, AreBlocks, through-miss, split, sync_loop-Synced,
}
use aufs_enabled.Mkfs.Cache.Changed.{
  length-read_bytes, get_or-read_bytes, cached-insert, cached-some, through-insert,
  insert-AreBlocks, change-AreBlocks, through-change, through-hit,
}

same_number {ℓ} : {A : Type ℓ} (m : ℕ) (x y : A) → (if m == m then x else y) ≡ x
same_number m x y = elim (==-cases m m) [ inl (t, _) ↦ rw t | inr (_, ne) ↦ absurd (ne refl) ]

module _ (block_size : ℕ) where
  -- The same memory, in a cache of whole blocks.
  pub record Keeps (before after : BlocksCache) : Type 0 where
    pub seen : (p : ℕ) → view block_size after p ≡ view block_size before p
    pub blocks : AreBlocks block_size after.m_cache

  -- Moreover block `num` is in the cache.
  pub record Gets (before after : BlocksCache) (num : ℕ) : Type 0 where
    pub kept : Keeps before after
    pub block : Block
    pub there : cached after.m_cache num ≡ some block

  cached-change_self :
      (f : Block → Block) (same : (b : Block) → (f b).m_number ≡ b.m_number) (bs : List Block)
      (num : ℕ) {b : Block}
      → cached bs num ≡ some b
      → cached (change bs num f) num ≡ some (f b)
  unfolding change
  cached-change_self f same [] num e = cc
  cached-change_self f same (c ∷ bs) num {b = b} e = elim (cached-some c bs num e) [
    | inl (t, h) ↦ rw t (
        ap (λ (m : ℕ). if m == num then some (f c) else cached bs num) (same c)
        ∙ (simp t (ap (λ (x : Block). some (f x)) h)))
    | inr (t, h) ↦ rw t (simp t (cached-change_self f same bs num h))
  ]

  pub hit-IsWhole :
      (bs : List Block) (num : ℕ) {b : Block}
      → AreBlocks block_size bs
      → cached bs num ≡ some b
      → IsWhole block_size b × (b.m_number ≡ num)
  hit-IsWhole [] num h e = cc
  hit-IsWhole (c ∷ bs) num {b = b} (first, alone, rest) e = elim (cached-some c bs num e) [
    | inl (t, h) ↦
        let at : c.m_number ≡ num = ground arith in
        subst (λ (x : Block). IsWhole block_size x × (x.m_number ≡ num)) h (first, at)
    | inr (t, h) ↦ hit-IsWhole bs num rest h
  ]

  module _ (pos : 0 < block_size) where
    pub sync-Keeps :
        (cache : BlocksCache)
        → AreBlocks block_size cache.m_cache
        → Keeps cache (sync block_size cache)
    unfolding sync
    sync-Keeps cache h =
        let done = sync_loop-Synced block_size pos cache.m_cache cache.device h in
        record { seen = done.seen; blocks = done.blocks }

    read_block-IsWhole :
        (device : ℕ → ℕ) (num : ℕ)
        → num * block_size + block_size < 2 ^ 63
        → IsWhole block_size (read_block block_size device num)
    unfolding read_block
    read_block-IsWhole device num h = record {
      full = length-read_bytes device _ block_size;
      place = h;
    }

    through-read_block :
        (bs : List Block) (device : ℕ → ℕ) (num p : ℕ)
        → num * block_size + block_size < 2 ^ 63
        → cached bs num ≡ none
        → through block_size (insert bs (read_block block_size device num)) device p
          ≡ through block_size bs device p
    unfolding read_block
    through-read_block bs device num p h e =
        let at : u64 (num * block_size) ≡ num * block_size = omega (arith, h) in
        through-insert block_size bs (read_block block_size device num) device p e
        ∙ elim (==-cases num (p / block_size)) [
          | inl (t, k) ↦
              let parts = split block_size pos p in
              let same : num * block_size ≡ p / block_size * block_size =
                ap (λ (m : ℕ). m * block_size) k in
              let miss = through-miss block_size pos bs device p (ap (cached bs) (sym k) ∙ e) in
              rw (t, at)
                (get_or-read_bytes device (num * block_size) block_size (p % block_size) parts.1
                  ∙ (ap device (omega (arith, parts.0, same)) ∙ sym miss))
          | inr (t, _) ↦ rw t
        ]

    insert-Gets :
        (cache ready : BlocksCache) (num : ℕ)
        → Keeps cache ready
        → cached ready.m_cache num ≡ none
        → num * block_size + block_size < 2 ^ 63
        → Gets cache
            (record {
              m_cache = insert ready.m_cache (read_block block_size ready.device num);
              device = ready.device;
            })
            num
    unfolding read_block
    insert-Gets cache ready num k e at = record {
      kept = record {
        seen = λ p. through-read_block ready.m_cache ready.device num p at e ∙ k.seen p;
        blocks =
            insert-AreBlocks block_size ready.m_cache _ k.blocks
              (read_block-IsWhole ready.device num at) e;
      };
      block = read_block block_size ready.device num;
      there =
          cached-insert ready.m_cache (read_block block_size ready.device num) num e
          ∙ same_number num _ _;
    }

    pub hold-Gets :
        (cache : BlocksCache) (num : ℕ) (owned : Bool) {b : Block}
        → AreBlocks block_size cache.m_cache
        → cached cache.m_cache num ≡ some b
        → Gets cache (record cache { m_cache = change cache.m_cache num (hold owned) }) num
    unfolding hold
    hold-Gets cache num owned {b = b} h e = record {
      kept = record {
        seen = λ p.
            through-change block_size (hold owned) (λ c. refl) cache.m_cache num b cache.device p e
            ∙ elim (==-cases num (p / block_size)) [
              | inl (t, k) ↦ rw t (
                  sym (
                    through-hit block_size cache.m_cache b cache.device p
                      (ap (cached cache.m_cache) (sym k) ∙ e)))
              | inr (t, _) ↦ rw t
            ];
        blocks =
            change-AreBlocks block_size (hold owned) (λ c. refl) cache.m_cache num
              (λ c w. record { full = w.full; place = w.place }) h;
      };
      block = hold owned b;
      there = cached-change_self (hold owned) (λ c. refl) cache.m_cache num e;
    }

    ready_Keeps :
        (cache : BlocksCache) (num : ℕ) (full : Bool)
        → AreBlocks block_size cache.m_cache
        → cached cache.m_cache num ≡ none
        → num * block_size + block_size < 2 ^ 63
        → let ready = if full then sync block_size cache else cache in
          Gets cache
            (record ready {
              m_cache = insert ready.m_cache (read_block block_size ready.device num);
            })
            num
    unfolding sync
    ready_Keeps cache num true h miss at =
        let done = sync_loop-Synced block_size pos cache.m_cache cache.device h in
        insert-Gets cache (sync block_size cache) num (sync-Keeps cache h) (done.fewer num miss) at
    ready_Keeps cache num false h miss at =
        insert-Gets cache cache num (record { seen = λ p. refl; blocks = h }) miss at

    pub get_block-Gets :
        (cache : BlocksCache) (num : ℕ)
        → AreBlocks block_size cache.m_cache
        → num * block_size + block_size < 2 ^ 63
        → Gets cache (get_block block_size cache num) num
    unfolding get_block
    get_block-Gets cache num h at = go (cached cache.m_cache num) refl
      where
        flushed : BlocksCache
        flushed = sync block_size cache

        ready : BlocksCache
        ready =
            if ltb threshold_size (u64 (block_size * length cache.m_cache)) then flushed else cache

        go :
            (o : Option Block)
            → cached cache.m_cache num ≡ o
            → Gets cache
                (elim o [
                  | some b ↦ record cache { m_cache = change cache.m_cache num (hold true) }
                  | none ↦ record ready {
                    m_cache = insert ready.m_cache (read_block block_size ready.device num);
                  }
                ])
                num
        go none miss =
            ready_Keeps cache num (ltb threshold_size (u64 (block_size * length cache.m_cache))) h
              miss at
        go (some b) hit = hold-Gets cache num true h hit
