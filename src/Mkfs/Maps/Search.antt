-- ===== src/Mkfs/Maps/Search.antt =====
-- The searches of `AllocateInode` and `AllocateZones`, in bits of the map.
use aufs_enabled.Base.{
  ℕ, ◌+◌, ◌-◌, ◌*◌, ◌^◌, ◌<◌, ◌≤◌, Bool, true, false, not, u64, ◌≡◌, ◌∙◌, ◌⊎◌, inl, inr, refl, ap,
  arith, Bool-cases, ltb-cases,
}
use aufs_enabled.Mkfs.Config.{Configuration, block_size}
use aufs_enabled.Mkfs.Bits.{Bytes, BitIterator, equal}
use aufs_enabled.Mkfs.Bits.Position.{IsBit, position, compare-position}
use aufs_enabled.Mkfs.Bits.Memory.{bit_at}
use aufs_enabled.Mkfs.Maps.{find, search_end}
use aufs_enabled.Mkfs.Maps.Ranges.{find-search}

-- The bits that an allocation in `blocks` blocks looks at: eight times those of the map.
abbrev pub searched : Configuration → (blocks : ℕ) → ℕ
searched config blocks = 8 * (blocks * block_size config * 8)

pub equal-false :
    (l r : BitIterator) → IsBit l → IsBit r → position l < position r → equal l r ≡ false
equal-false l r hl hr lt = elim (Bool-cases (equal l r)) [
  | inl t ↦ absurd (omega (arith, (compare-position l r hl hr).0.0 t))
  | inr t ↦ t
]

pub equal_self : (l : BitIterator) → IsBit l → equal l l ≡ true
equal_self l h = (compare-position l l h h).0.1 refl

pub clash : (b v : Bool) → b ≡ v → b ≡ not v → ⊥
clash b true h h' = cc
clash b false h h' = cc

module _ (config : Configuration) (base blocks : ℕ)
    (low : base + blocks * block_size config * 8 < 2 ^ 59) where
  abbrev pub begin : BitIterator
  begin = record { m_data = base; m_offset = 0 }

  abbrev pub end : BitIterator
  end = search_end config base blocks

  pub begin-IsBit : IsBit begin
  begin-IsBit = record { offset = omega arith; address = omega arith }

  end_lem : end ≡ record { m_data = base + blocks * block_size config * 8; m_offset = 0 }
  unfolding search_end
  end_lem =
      let size : u64 (blocks * block_size config * 8) ≡ blocks * block_size config * 8 =
        omega arith in
      rw size (ap (λ (a : ℕ). record { m_data = a; m_offset = 0 }) (omega arith))

  pub end-IsBit : IsBit end
  end-IsBit = rw end_lem (record { offset = omega arith; address = omega arith })

  pub end-position : position end ≡ 8 * base + searched config blocks
  end-position = rw end_lem (omega arith)

  -- Bit `k` of the map.
  abbrev pub map_bit : Bytes → ℕ → Bool
  map_bit mem k = bit_at mem (8 * base + k)

  -- What one search comes to, in bits of the map, from its bit `p` on.
  pub find_map :
      (mem : Bytes) (it : BitIterator) (p : ℕ) (v : Bool)
      → IsBit it
      → position it ≡ 8 * base + p
      → p ≤ searched config blocks
      → (((k : ℕ) → p ≤ k → k < searched config blocks → map_bit mem k ≡ not v)
          × (find mem it end v ≡ end))
        ⊎ ((n : ℕ) × (p ≤ n)
            × (n < searched config blocks)
            × ((k : ℕ) → p ≤ k → k < n → map_bit mem k ≡ not v)
            × (map_bit mem n ≡ v)
            × IsBit (find mem it end v)
            × (position (find mem it end v) ≡ 8 * base + n))
  find_map mem it p v h at le =
      elim (find-search mem it end v h end-IsBit (omega (arith, at, end-position))) [
        | inl (all, e) ↦ inl (
          λ k low high.
              ap (bit_at mem) {x = 8 * base + k} {y = position it + (k - p)} (omega (arith, at))
              ∙ all (k - p) (omega (arith, at, end-position)),
          e,
        )
        | inr (j, lt, all, hit, bit, place) ↦ inr (
          p + j,
          omega arith,
          omega (arith, at, end-position),
          λ k low high.
              ap (bit_at mem) {x = 8 * base + k} {y = position it + (k - p)} (omega (arith, at))
              ∙ all (k - p) (omega arith),
          ap (bit_at mem) {x = 8 * base + (p + j)} {y = position it + j} (omega (arith, at)) ∙ hit,
          bit,
          omega (arith, place, at),
        )
      ]

  -- The search stops at a bit of the value that has none before it.
  pub find_map-at :
      (mem : Bytes) (it : BitIterator) (p n : ℕ) (v : Bool)
      → IsBit it
      → position it ≡ 8 * base + p
      → p ≤ n
      → n < searched config blocks
      → ((k : ℕ) → p ≤ k → k < n → map_bit mem k ≡ not v)
      → map_bit mem n ≡ v
      → IsBit (find mem it end v) × (position (find mem it end v) ≡ 8 * base + n)
  find_map-at mem it p n v h at le lt before hit = elim (find_map mem it p v h at (omega arith)) [
    | inl (all, _) ↦ absurd (clash _ v hit (all n le lt))
    | inr (m, le', lt', all, hit', bit, place) ↦ elim (ltb-cases m n) [
      | inl (_, below) ↦ absurd (clash _ v hit' (before m le' below))
      | inr (_, above) ↦ elim (ltb-cases n m) [
        | inl (_, over) ↦ absurd (clash _ v hit (all n le over))
        | inr (_, same) ↦ (bit, omega (arith, place))
      ]
    ]
  ]
