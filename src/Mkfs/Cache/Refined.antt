-- ===== src/Mkfs/Cache/Refined.antt =====
-- The cache with its clients against a memory of bytes.
use aufs_enabled.Base.{
  ℕ, ◌+◌, ◌-◌, ◌*◌, ◌/◌, ◌%◌, ◌^◌, ◌<◌, false, some, List, [], ◌∷◌, ◌++◌, ◌==◌, if◌then◌else◌,
  get_or, set, ◌≡◌, ◌≢◌, ◌∙◌, inl, inr, refl, sym, ap, ap₂, subst, arith, ==-cases, Option-cases,
  get_or-set_self, get_or-set_ne, length-set,
}
use aufs_enabled.Mkfs.Cache.{
  Block, BlocksCache, cached, sync, change, put_byte, hold, get_block, Use, load, store, release,
  flush, byte_of, use_one, use_all,
}
use aufs_enabled.Mkfs.Cache.View.{
  through, view, AreBlocks, split, place_lem, offset_lem, sync_loop-Synced,
}
use aufs_enabled.Mkfs.Cache.Changed.{change-AreBlocks, through-change, through-hit, change-none}
use aufs_enabled.Mkfs.Cache.Gets.{Keeps, hit-IsWhole, sync-Keeps, hold-Gets, get_block-Gets}

-- The same uses of a memory of bytes without a cache.
unfoldable pub flat_one : (block_size : ℕ) → Use → (ℕ → ℕ) → (ℕ → ℕ) × List ℕ
flat_one block_size (load num i) memory = (memory, memory (num * block_size + i) ∷ [])
flat_one block_size (store num i v) memory =
    ((λ (p : ℕ). if p == num * block_size + i then v else memory p), [])
flat_one block_size (release num) memory = (memory, [])
flat_one block_size flush memory = (memory, [])

unfoldable pub flat_all : (block_size : ℕ) → List Use → (ℕ → ℕ) → (ℕ → ℕ) × List ℕ
flat_all block_size [] memory = (memory, [])
flat_all block_size (u ∷ us) memory =
    let (one, out) = flat_one block_size u memory in
    let (all, outs) = flat_all block_size us one in (all, out ++ outs)

module _ (block_size : ℕ) where
  -- Bytes inside blocks at positions that a stream can have.
  abbrev pub IsProper : Use → Type 0
  IsProper (load num i) = (i < block_size) × (num * block_size + block_size < 2 ^ 63)
  IsProper (store num i v) = (i < block_size) × (num * block_size + block_size < 2 ^ 63)
  IsProper (release num) = Unit {0}
  IsProper flush = Unit {0}

  abbrev pub AreProper : List Use → Type 0
  AreProper [] = Unit {0}
  AreProper (u ∷ us) = IsProper u × AreProper us

  -- The cache and what was read agree with the memory and what was read of it.
  pub record Refines (r : BlocksCache × List ℕ) (m : (ℕ → ℕ) × List ℕ) : Type 0 where
    pub seen : (p : ℕ) → view block_size r.0 p ≡ m.0 p
    pub blocks : AreBlocks block_size r.0.m_cache
    pub outs : r.1 ≡ m.1

  module _ (pos : 0 < block_size) where
    place_in :
        (num i p : ℕ)
        → i < block_size
        → num ≡ p / block_size
        → (p == num * block_size + i) ≡ (i == p % block_size)
    place_in num i p h e =
        let parts = split block_size pos p in
        let same : num * block_size ≡ p / block_size * block_size =
          ap (λ (m : ℕ). m * block_size) e in
        ground (arith, parts.0, same)

    place_out :
        (num i p : ℕ) → i < block_size → num ≢ p / block_size → (p == num * block_size + i) ≡ false
    place_out num i p h ne =
        let inside = place_lem block_size pos num p in
        elim (==-cases num (p / block_size)) [
          | inl (_, e) ↦ absurd (ne e)
          | inr (t, _) ↦ ground (arith, inside, t)
        ]

    byte_of-view :
        (cache : BlocksCache) (num i : ℕ) {b : Block}
        → i < block_size
        → cached cache.m_cache num ≡ some b
        → byte_of cache.m_cache num i ≡ view block_size cache (num * block_size + i)
    unfolding byte_of
    byte_of-view cache num i {b = b} h e =
        let p = num * block_size + i in
        let q : num ≡ p / block_size = ground (arith, place_lem block_size pos num p) in
        let off = offset_lem block_size pos num p q in
        let within : p - num * block_size ≡ i = omega arith in
        let hit =
          through-hit block_size cache.m_cache b cache.device p
            (ap (cached cache.m_cache) (sym q) ∙ e) in
        rw (e, byte_of) (ap (λ (n : ℕ). get_or b.m_data n 0) (sym within ∙ off) ∙ sym hit)

    put_byte-view :
        (cache : BlocksCache) (num i v : ℕ) {b : Block} (p : ℕ)
        → i < block_size
        → AreBlocks block_size cache.m_cache
        → cached cache.m_cache num ≡ some b
        → view block_size (record cache { m_cache = change cache.m_cache num (put_byte i v) }) p
          ≡ (if p == num * block_size + i then v else view block_size cache p)
    unfolding put_byte
    put_byte-view cache num i v {b = b} p h blocks e =
        through-change block_size (put_byte i v) (λ c. refl) cache.m_cache num b cache.device p e
        ∙ elim (==-cases num (p / block_size)) [
          | inl (t, k) ↦
              let whole = hit-IsWhole block_size cache.m_cache num blocks e in
              let hit =
                through-hit block_size cache.m_cache b cache.device p
                  (ap (cached cache.m_cache) (sym k) ∙ e) in
              rw (t, place_in num i p h k)
                (elim (==-cases i (p % block_size)) [
                  | inl (u, j) ↦ rw u (
                      ap (λ (n : ℕ). get_or (set b.m_data i v) n 0) (sym j)
                      ∙ get_or-set_self b.m_data i v 0 (omega (arith, whole.0.full)))
                  | inr (u, ne) ↦ rw u (get_or-set_ne b.m_data i (p % block_size) v 0 ne ∙ sym hit)
                ])
          | inr (t, ne) ↦ rw (t, place_out num i p h ne)
        ]

    release-Keeps :
        (cache : BlocksCache) (num : ℕ)
        → AreBlocks block_size cache.m_cache
        → Keeps block_size cache (record cache { m_cache = change cache.m_cache num (hold false) })
    release-Keeps cache num h = elim (Option-cases (cached cache.m_cache num)) [
      | inl miss ↦
          let same = change-none block_size (hold false) cache.m_cache num miss in
          record {
            seen = λ p. ap (λ (bs : List Block). through block_size bs cache.device p) same;
            blocks = subst (AreBlocks block_size) (sym same) h;
          }
      | inr (b, hit) ↦ (hold-Gets block_size pos cache num false h hit).kept
    ]

    use_one-Refines :
        (u : Use) (cache : BlocksCache) (memory : ℕ → ℕ)
        → IsProper u
        → AreBlocks block_size cache.m_cache
        → ((p : ℕ) → view block_size cache p ≡ memory p)
        → Refines (use_one block_size u cache) (flat_one block_size u memory)
    unfolding use_one flat_one put_byte
    use_one-Refines (load num i) cache memory (inside, at) h e =
        let g = get_block-Gets block_size pos cache num h at in
        record {
          seen = λ p. g.kept.seen p ∙ e p;
          blocks = g.kept.blocks;
          outs =
              ap (λ (v : ℕ). v ∷ [])
                (byte_of-view (get_block block_size cache num) num i inside g.there
                  ∙ (g.kept.seen _ ∙ e _));
        }
    use_one-Refines (store num i v) cache memory (inside, at) h e =
        let g = get_block-Gets block_size pos cache num h at in
        record {
          seen = λ p.
              put_byte-view (get_block block_size cache num) num i v p inside g.kept.blocks g.there
              ∙ ap (λ (x : ℕ). if p == num * block_size + i then v else x) (g.kept.seen p ∙ e p);
          blocks =
              change-AreBlocks block_size (put_byte i v) (λ c. refl)
                (get_block block_size cache num).m_cache num
                (λ c w. record { full = length-set c.m_data i v ∙ w.full; place = w.place })
                g.kept.blocks;
          outs = refl;
        }
    use_one-Refines (release num) cache memory proper h e =
        let k = release-Keeps cache num h in
        record { seen = λ p. k.seen p ∙ e p; blocks = k.blocks; outs = refl }
    use_one-Refines flush cache memory proper h e =
        let k = sync-Keeps block_size pos cache h in
        record { seen = λ p. k.seen p ∙ e p; blocks = k.blocks; outs = refl }

    use_all-Refines :
        (us : List Use) (cache : BlocksCache) (memory : ℕ → ℕ)
        → AreProper us
        → AreBlocks block_size cache.m_cache
        → ((p : ℕ) → view block_size cache p ≡ memory p)
        → Refines (use_all block_size us cache) (flat_all block_size us memory)
    unfolding use_all flat_all
    use_all-Refines [] cache memory proper h e = record { seen = e; blocks = h; outs = refl }
    use_all-Refines (u ∷ us) cache memory (first, rest) h e =
        let one = use_one-Refines u cache memory first h e in
        let all =
          use_all-Refines us (use_one block_size u cache).0 (flat_one block_size u memory).0 rest
            one.blocks one.seen in
        record { seen = all.seen; blocks = all.blocks; outs = ap₂ ◌++◌ one.outs all.outs }

    -- Whatever a client does with a new cache of a device, with blocks of one byte or more, inside
    -- blocks at positions that a stream can have: the bytes that it reads, and the device once the
    -- cache is destroyed, are those of a memory of bytes that starts as the device and has no cache.
    pub use_all-refined :
        (us : List Use) (device : ℕ → ℕ)
        → AreProper us
        → let (cache, outs) = use_all block_size us (record { m_cache = []; device = device }) in
          let (memory, reads) = flat_all block_size us device in
          (outs ≡ reads) × ((p : ℕ) → (sync block_size cache).device p ≡ memory p)
    unfolding sync
    use_all-refined us device proper =
        let all =
          use_all-Refines us (record { m_cache = []; device = device }) device proper tt
            (λ p. refl) in
        let done = sync_loop-Synced block_size pos _ _ all.blocks in
        (all.outs, λ p. done.on_device p ∙ all.seen p)
