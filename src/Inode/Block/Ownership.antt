-- ===== src/Inode/Block/Ownership.antt =====
-- Every zone belongs to at most one file: an invariant of all the inodes together.
use aufs_enabled.Base.{
  ℕ, ◌-◌, ◌*◌, ◌<◌, true, false, List, [], ◌∷◌, ◌&&◌, ◌==◌, if◌then◌else◌, length, get_or, set, ◌≡◌,
  ◌≢◌, ◌∙◌, inl, inr, refl, sym, ap, arith, Bool-cases, ltb-cases,
}
use aufs_enabled.Kernel.{BufferHead, BitOps}
use aufs_enabled.Vfs.{AufsInode, zone_ptr_in_inode_num}
use aufs_enabled.Super.{AufsSuperBlock}
use aufs_enabled.Bitmap.{zones_start, blocks_ahead, zone_result}
use aufs_enabled.Bitmap.Maps.{map_bit, Takes}
use aufs_enabled.Bitmap.Layout.{IsLaidOut, zone_result-apart, Addressable}
use aufs_enabled.Inode.Block.{FsState, zone_ptr}

module _ (ops : BitOps) (bits_per_block : ℕ) where
  open ops use {Bits, test_bit}

  pub map_bit-range :
      (maps : List (BufferHead Bits)) (n : ℕ)
      → map_bit ops bits_per_block maps n ≡ false
      → n < length maps * bits_per_block
  map_bit-range [] n e = cc
  map_bit-range (bh ∷ rest) n e = elim (ltb-cases n bits_per_block) [
    | inl (t, h) ↦ omega arith
    | inr (t, h) ↦
        let e' : map_bit ops bits_per_block rest (n - bits_per_block) ≡ false = ground arith in
        omega (arith, map_bit-range rest (n - bits_per_block) e')
  ]

module _ (ops : BitOps) (s_blocksize : ℕ) where
  open ops use {Bits}

  -- A zone that the map says is taken, and whose blocks an `int` can number.
  abbrev pub IsZone : AufsSuperBlock Bits → ℕ → Type 0
  IsZone sbi p =
      (n : ℕ) × (map_bit ops (8 * s_blocksize) sbi.s_zmap n ≡ true)
      × Addressable sbi n
      × (p ≡ zone_result sbi n)

  pub record IsSound (st : FsState Bits) : Type 0 where
    pub laid : IsLaidOut st.sbi
    pub whole : length st.sbi.s_zmap ≡ st.sbi.asb_zone_map_blocks
    -- Every zone of the map can be numbered by an `int`.
    pub fits : (n : ℕ) → n < length st.sbi.s_zmap * (8 * s_blocksize) → Addressable st.sbi n
    pub nine : (k : ℕ) → length (st.inodes k).ai_zone_ptr ≡ zone_ptr_in_inode_num
    pub owned : (k i : ℕ) → zone_ptr st k i ≢ 0 → IsZone st.sbi (zone_ptr st k i)
    pub apart :
        (k i k' i' : ℕ)
        → zone_ptr st k i ≢ 0
        → zone_ptr st k i ≡ zone_ptr st k' i'
        → (k ≡ k') × (i ≡ i')

  -- Different zones have different blocks.
  pub zone_result-injective :
      (sbi : AufsSuperBlock Bits) (m n : ℕ)
      → IsLaidOut sbi
      → Addressable sbi m
      → Addressable sbi n
      → zone_result sbi m ≡ zone_result sbi n
      → m ≡ n
  zone_result-injective sbi m n laid hm hn e =
      ground (
        arith,
        laid.zone,
        zone_result-apart sbi laid m n hm hn,
        zone_result-apart sbi laid n m hn hm,
      )

  module _ (st : FsState Bits) (sound : IsSound st) (f : ℕ → AufsInode)
      (nine' : (k : ℕ) → length (f k).ai_zone_ptr ≡ zone_ptr_in_inode_num) where
    pub IsSound-keep :
        ((k i : ℕ) → get_or (f k).ai_zone_ptr i 0 ≡ zone_ptr st k i)
        → IsSound (record { sbi = st.sbi; inodes = f })
    IsSound-keep same = record {
      laid = sound.laid;
      whole = sound.whole;
      fits = sound.fits;
      nine = nine';
      owned = λ k i ne. rw (same k i) (sound.owned k i (λ e. ne (same k i ∙ e)));
      apart = λ k i k' i' ne e.
          sound.apart k i k' i' (λ z. ne (same k i ∙ z)) (sym (same k i) ∙ e ∙ same k' i');
    }

    module _ (k₀ i₀ n : ℕ) (zmap : List (BufferHead Bits))
        (takes : Takes ops (8 * s_blocksize) st.sbi.s_zmap zmap n)
        (new : (k i : ℕ)
          → get_or (f k).ai_zone_ptr i 0
            ≡ (if (k == k₀) && (i == i₀) then zone_result st.sbi n else zone_ptr st k i)) where
      taken : AufsSuperBlock Bits
      taken = record st.sbi { s_zmap = zmap }

      pub new-Addressable : Addressable st.sbi n
      new-Addressable =
          sound.fits n (map_bit-range ops (8 * s_blocksize) st.sbi.s_zmap n takes.clear)

      -- No file had the zone before.
      fresh : (k i : ℕ) → zone_ptr st k i ≢ 0 → zone_ptr st k i ≢ zone_result st.sbi n
      fresh k i ne e =
          let (m, set, fits, at) = sound.owned k i ne in
          let same : m ≡ n =
            zone_result-injective st.sbi m n sound.laid fits new-Addressable (sym at ∙ e) in
          ground (arith, takes.clear, set, ap (map_bit ops (8 * s_blocksize) st.sbi.s_zmap) same)

      IsZone-taken : (p : ℕ) → IsZone st.sbi p → IsZone taken p
      unfolding taken zones_start blocks_ahead zone_result
      IsZone-taken p (m, set, fits, at) = (m, ground (arith, takes.marked m), fits, at)

      IsZone-new : IsZone taken (zone_result st.sbi n)
      unfolding taken zones_start blocks_ahead zone_result
      IsZone-new = (n, ground (arith, takes.marked n), new-Addressable, refl)

      owned-taken :
          (k i : ℕ) → get_or (f k).ai_zone_ptr i 0 ≢ 0 → IsZone taken (get_or (f k).ai_zone_ptr i 0)
      owned-taken k i ne = elim (Bool-cases ((k == k₀) && (i == i₀))) [
        | inl here ↦
            let e : get_or (f k).ai_zone_ptr i 0 ≡ zone_result st.sbi n = ground (arith, new k i) in
            rw e IsZone-new
        | inr there ↦
            let e : get_or (f k).ai_zone_ptr i 0 ≡ zone_ptr st k i = ground (arith, new k i) in
            rw e (IsZone-taken _ (sound.owned k i (λ z. ne (e ∙ z))))
      ]

      apart-taken :
          (k i k' i' : ℕ)
          → get_or (f k).ai_zone_ptr i 0 ≢ 0
          → get_or (f k).ai_zone_ptr i 0 ≡ get_or (f k').ai_zone_ptr i' 0
          → (k ≡ k') × (i ≡ i')
      apart-taken k i k' i' ne e =
          ground (arith, new k i, new k' i', fresh k i, fresh k' i', sound.apart k i k' i')

      pub IsSound-take : IsSound (record { sbi = record st.sbi { s_zmap = zmap }; inodes = f })
      unfolding taken zones_start blocks_ahead
      IsSound-take = record {
        laid = ground (arith, sound.laid);
        whole = takes.same_length ∙ sound.whole;
        fits = λ m h. sound.fits m (ground (arith, takes.same_length));
        nine = nine';
        owned = owned-taken;
        apart = apart-taken;
      }
