-- ===== src/Mkfs/Maps/Allocated.antt =====
-- `AllocateInode` and `AllocateZones` hand out the first free bits.
use aufs_enabled.Base.{
  ℕ, suc, ◌+◌, ◌-◌, ◌*◌, ◌^◌, ◌<◌, ◌≤◌, Bool, true, false, ◌&&◌, leb, ltb, ◌==◌, if◌then◌else◌, u32,
  ◌≡◌, ◌∙◌, ◌⊎◌, inl, inr, ap, arith, ltb-cases,
}
use aufs_enabled.Mkfs.Config.{Configuration, block_size}
use aufs_enabled.Mkfs.Bits.{Bytes, BitIterator, assign, advance, difference, deref}
use aufs_enabled.Mkfs.Bits.Position.{IsBit, position, advance-position, difference-position}
use aufs_enabled.Mkfs.Bits.Memory.{AreBytes, bit_at, assign-bit_at}
use aufs_enabled.Mkfs.Maps.{find, fill, allocated, terminated, allocate_inode, allocate_zones}
use aufs_enabled.Mkfs.Maps.Ranges.{within, fill-bits}
use aufs_enabled.Mkfs.Maps.Search.{
  searched, begin, end, begin-IsBit, end-IsBit, end-position, map_bit, find_map, find_map-at,
  equal-false, equal_self,
}

clash : (b : Bool) → b ≡ true → b ≡ false → ⊥
clash b h h' = cc

range_is :
    (q n p₀ p₁ k : ℕ) (old : Bool)
    → p₀ ≡ q
    → p₁ ≡ p₀ + n
    → (if leb p₀ k && ltb k p₁ then true else old) ≡ (if within q n k then true else old)
range_is q n p₀ p₁ k old e₀ e₁ = ground arith

module _ (config : Configuration) (base : ℕ) (mem : Bytes) (bytes : AreBytes mem)
    (low : base + config.inode_map_blocks * block_size config * 8 < 2 ^ 59) where
  -- In memory of bytes, below the top of the address space: `AllocateInode` ends the program when
  -- every bit that it looks at is set, those behind the map included. Otherwise it returns the number
  -- of the lowest clear bit, cut to 32 bits, and sets this bit and no other.
  pub allocate_inode-outcome :
      (((k : ℕ) → k < searched config config.inode_map_blocks → bit_at mem (8 * base + k) ≡ true)
        × (allocate_inode config base mem ≡ terminated))
      ⊎ ((n : ℕ) × (mem' : Bytes) × (allocate_inode config base mem ≡ allocated (u32 n) mem')
          × ((k : ℕ) → k < n → bit_at mem (8 * base + k) ≡ true)
          × (bit_at mem (8 * base + n) ≡ false)
          × ((k : ℕ) → bit_at mem' k ≡ (if k == 8 * base + n then true else bit_at mem k)))
  unfolding allocate_inode
  allocate_inode-outcome =
      let blocks = config.inode_map_blocks in
      let b = begin config base blocks low in
      let e = end config base blocks low in
      let hb = begin-IsBit config base blocks low in
      let he = end-IsBit config base blocks low in
      elim (find_map config base blocks low mem b 0 false hb (omega arith) (omega arith)) [
        | inl (all, at_end) ↦ inl (λ k lt. all k (omega arith) lt, rw at_end (rw (equal_self e he)))
        | inr (n, _, lt, all, free, bit, place) ↦
            let it = find mem b e false in
            let more =
              equal-false it e bit he (omega (arith, place, end-position config base blocks low)) in
            let number : difference it b ≡ n =
              difference-position it b bit hb (omega (arith, place)) ∙ omega (arith, place) in
            inr (
              n,
              assign mem (deref it) true,
              rw (more, number),
              λ k h. all k (omega arith) h,
              free,
              λ k.
                  assign-bit_at mem it true k bytes bit
                  ∙ ap (λ (p : ℕ). if k == p then true else bit_at mem k) place,
            )
      ]

module _ (config : Configuration) (base : ℕ) (mem : Bytes) (bytes : AreBytes mem)
    (low : base + config.zone_map_blocks * block_size config * 8 < 2 ^ 59) (zones p : ℕ)
    (room : p + zones ≤ searched config config.zone_map_blocks) (some_zone : 0 < zones)
    (before : (k : ℕ) → k < p → bit_at mem (8 * base + k) ≡ true)
    (free : (k : ℕ) → k < zones → bit_at mem (8 * base + (p + k)) ≡ false) where
  abbrev limit : ℕ
  limit = searched config config.zone_map_blocks

  abbrev b : BitIterator
  b = begin config base config.zone_map_blocks low

  abbrev e : BitIterator
  e = end config base config.zone_map_blocks low

  abbrev bit : ℕ → Bool
  bit = map_bit config base config.zone_map_blocks low mem

  free_at : (k : ℕ) → p ≤ k → k < p + zones → bit k ≡ false
  free_at k low' high =
      ap (bit_at mem) {x = 8 * base + k} {y = 8 * base + (p + (k - p))} (omega arith)
      ∙ free (k - p) (omega arith)

  -- The search for a free bit ends at `p`.
  first_free : IsBit (find mem b e false) × (position (find mem b e false) ≡ 8 * base + p)
  first_free =
      find_map-at config base config.zone_map_blocks low mem b 0 p false
        (begin-IsBit config base config.zone_map_blocks low) (omega arith) (omega arith)
        (omega arith) (λ k _ h. before k h) (free_at p (omega arith) (omega arith))

  -- The run that begins there is long enough.
  long_run :
      (it : BitIterator)
      → IsBit it
      → position it ≡ 8 * base + p
      → zones ≤ difference (find mem it e true) it
  long_run it h at =
      let he = end-IsBit config base config.zone_map_blocks low in
      let last = end-position config base config.zone_map_blocks low in
      elim (find_map config base config.zone_map_blocks low mem it p true h at (omega arith)) [
        | inl (_, at_end) ↦
            rw at_end
              (omega (arith, difference-position e it he h (omega (arith, at, last)), at, last))
        | inr (m, le, lt, all, set, hj, place) ↦
            let far : p + zones ≤ m = elim (ltb-cases m (p + zones)) [
              | inl (_, near) ↦ absurd (clash _ set (free_at m le near))
              | inr (_, far) ↦ far
            ] in
            omega (
              arith,
              difference-position (find mem it e true) it hj h (omega (arith, at, place)),
              at,
              place,
              far,
            )
      ]

  -- In memory of bytes, below the top of the address space: where the first free bit `p` begins a run
  -- of at least `zones` free bits, `AllocateZones` returns `p`, cut to 32 bits, after one round, and
  -- sets these `zones` bits and no other.
  pub allocate_zones-first :
      (fuel : ℕ)
      → (mem' : Bytes) × (allocate_zones (suc fuel) config base zones mem ≡ allocated (u32 p) mem')
        × ((k : ℕ) → bit_at mem' k ≡ (if within (8 * base + p) zones k then true else bit_at mem k))
  unfolding allocate_zones
  allocate_zones-first fuel =
      let it = find mem b e false in
      let (h, at) = first_free in
      let hb = begin-IsBit config base config.zone_map_blocks low in
      let he = end-IsBit config base config.zone_map_blocks low in
      let last = end-position config base config.zone_map_blocks low in
      let more = equal-false it e h he (omega (arith, at, last)) in
      let number : difference it b ≡ p =
        difference-position it b h hb (omega (arith, at)) ∙ omega (arith, at) in
      let long : ltb (difference (find mem it e true) it) zones ≡ false =
        ground (arith, long_run it h at) in
      let (moved, hm, _) = advance-position it zones h (omega (arith, at)) in
      let filled = fill-bits mem it (advance it zones) true bytes h hm (omega (arith, moved)) in
      (
        fill mem it (advance it zones) true,
        rw (more, long, number),
        λ k. filled.1 k ∙ range_is (8 * base + p) zones _ _ k _ at moved,
      )
