-- ===== src/Mkfs/Maps/Ranges.antt =====
-- `std::fill` and `std::find` over bits.
use aufs_enabled.Base.{
  ℕ, zero, suc, ◌+◌, ◌-◌, ◌^◌, ◌<◌, ◌≤◌, Bool, true, false, not, ◌&&◌, leb, ltb, ◌==◌,
  if◌then◌else◌, ◌≡◌, ◌∙◌, ◌⊎◌, inl, inr, refl, sym, ap, arith,
}
use aufs_enabled.Mkfs.Bits.{Bytes, BitIterator, assign, increment, difference, deref, is_set}
use aufs_enabled.Mkfs.Bits.Position.{
  IsBit, position, increments, increment-position, increment-IsBit, increments-position,
  difference-position, position-injective,
}
use aufs_enabled.Mkfs.Bits.Memory.{AreBytes, bit_at, is_set-deref, assign-AreBytes, assign-bit_at}
use aufs_enabled.Mkfs.Maps.{has_value, fill_n, fill, find_n, find}

-- `k` is one of the `n` positions from `p` on.
abbrev pub within : (p n k : ℕ) → Bool
within p n k = leb p k && ltb k (p + n)

within_step :
    (p p' n k : ℕ) (v old new : Bool)
    → p' ≡ p + 1
    → new ≡ (if k == p then v else old)
    → (if within p' n k then v else new) ≡ (if within p (suc n) k then v else old)
within_step p p' n k v old new e h = ground arith

-- `n` bits are written, and no other changes.
pub fill_n-bits :
    (n : ℕ) (mem : Bytes) (it : BitIterator) (v : Bool)
    → AreBytes mem
    → IsBit it
    → position it + n < 2 ^ 63
    → AreBytes (fill_n n mem it v)
      × ((k : ℕ)
          → bit_at (fill_n n mem it v) k ≡ (if within (position it) n k then v else bit_at mem k))
unfolding fill_n
fill_n-bits zero mem it v bytes h small = (bytes, λ k. ground arith)
fill_n-bits (suc n) mem it v bytes h small =
    let next = increment-IsBit it h (omega arith) in
    let at = (increment-position it h).0 in
    let rest =
      fill_n-bits n (assign mem (deref it) v) (increment it) v (assign-AreBytes mem it v bytes h)
        next (omega (arith, at)) in
    (
      rest.0,
      λ k.
          rest.1 k
          ∙ within_step (position it) (position (increment it)) n k v _ _ at
              (assign-bit_at mem it v k bytes h),
    )

has_value-cases :
    (mem : Bytes) (it : BitIterator) (v : Bool)
    → IsBit it
    → ((has_value mem (deref it) v ≡ true) × (bit_at mem (position it) ≡ v))
      ⊎ ((has_value mem (deref it) v ≡ false) × (bit_at mem (position it) ≡ not v))
unfolding has_value
has_value-cases mem it v h = go v (is_set mem (deref it)) (is_set-deref mem it h)
  where
    go :
        (w b : Bool)
        → b ≡ bit_at mem (position it)
        → (((if w then b else not b) ≡ true) × (bit_at mem (position it) ≡ w))
          ⊎ (((if w then b else not b) ≡ false) × (bit_at mem (position it) ≡ not w))
    go true true e = inl (refl, sym e)
    go true false e = inr (refl, sym e)
    go false true e = inr (refl, sym e)
    go false false e = inl (refl, sym e)

-- A prefix of bits that is one longer.
prefix_cons :
    (mem : Bytes) (p p' n : ℕ) (w : Bool)
    → p' ≡ p + 1
    → bit_at mem p ≡ w
    → ((k : ℕ) → k < n → bit_at mem (p' + k) ≡ w)
    → (k : ℕ) → k < suc n
    → bit_at mem (p + k) ≡ w
prefix_cons mem p p' n w e here rest zero lt =
    ap (bit_at mem) {x = p + 0} {y = p} (omega arith) ∙ here
prefix_cons mem p p' n w e here rest (suc k) lt =
    ap (bit_at mem) {x = p + suc k} {y = p' + k} (omega arith) ∙ rest k (omega arith)

-- The search stops at the first bit of the value, or at the end.
pub find_n-search :
    (n : ℕ) (mem : Bytes) (it : BitIterator) (v : Bool)
    → IsBit it
    → position it + n < 2 ^ 63
    → (((k : ℕ) → k < n → bit_at mem (position it + k) ≡ not v)
        × (find_n n mem it v ≡ increments n it))
      ⊎ ((j : ℕ) × (j < n)
          × ((k : ℕ) → k < j → bit_at mem (position it + k) ≡ not v)
          × (bit_at mem (position it + j) ≡ v)
          × (find_n n mem it v ≡ increments j it))
unfolding find_n
find_n-search zero mem it v h small = inl (λ k lt. absurd (omega arith), refl)
find_n-search (suc n) mem it v h small = elim (has_value-cases mem it v h) [
  | inl (t, here) ↦ inr (
    0,
    omega arith,
    λ k lt. absurd (omega arith),
    ap (bit_at mem) {x = position it + 0} {y = position it} (omega arith) ∙ here,
    rw t,
  )
  | inr (t, here) ↦
      let at = (increment-position it h).0 in
      elim (find_n-search n mem (increment it) v (increment-IsBit it h (omega arith))
        (omega (arith, at))) [
          | inl (all, e) ↦ inl (
            prefix_cons mem (position it) (position (increment it)) n (not v) at here all,
            rw t e,
          )
          | inr (j, lt, all, hit, e) ↦ inr (
            suc j,
            omega arith,
            prefix_cons mem (position it) (position (increment it)) j (not v) at here all,
            ap (bit_at mem) {x = position it + suc j} {y = position (increment it) + j}
                  (omega (arith, at))
                ∙ hit,
            rw t e,
          )
        ]
]

pub fill-bits :
    (mem : Bytes) (first last : BitIterator) (v : Bool)
    → AreBytes mem
    → IsBit first
    → IsBit last
    → position first ≤ position last
    → AreBytes (fill mem first last v)
      × ((k : ℕ)
          → bit_at (fill mem first last v) k
            ≡ (if leb (position first) k && ltb k (position last) then v else bit_at mem k))
unfolding fill
fill-bits mem first last v bytes hf hl le =
    let count = difference-position last first hl hf le in
    let end : position first + difference last first ≡ position last = omega (arith, count) in
    let small : position last < 2 ^ 63 = omega (arith, hl.offset, hl.address) in
    let all = fill_n-bits (difference last first) mem first v bytes hf (omega (arith, end)) in
    (
      all.0,
      λ k.
          all.1 k
          ∙ ap (λ (e : ℕ). if leb (position first) k && ltb k e then v else bit_at mem k) end,
    )

-- Where `std::find` stops: at the last iterator, or at the first bit of the value.
pub find-search :
    (mem : Bytes) (first last : BitIterator) (v : Bool)
    → IsBit first
    → IsBit last
    → position first ≤ position last
    → (((k : ℕ) → k < position last - position first → bit_at mem (position first + k) ≡ not v)
        × (find mem first last v ≡ last))
      ⊎ ((j : ℕ) × (j < position last - position first)
          × ((k : ℕ) → k < j → bit_at mem (position first + k) ≡ not v)
          × (bit_at mem (position first + j) ≡ v)
          × IsBit (find mem first last v)
          × (position (find mem first last v) ≡ position first + j))
unfolding find
find-search mem first last v hf hl le =
    let gap = position last - position first in
    let small : position last < 2 ^ 63 = omega (arith, hl.offset, hl.address) in
    let count = difference-position last first hl hf le in
    rw count (elim (find_n-search gap mem first v hf (omega arith)) [
      | inl (all, e) ↦
          let end = increments-position gap first hf (omega arith) in
          inl (
            all,
            e ∙ position-injective (increments gap first) last end.1 hl (omega (arith, end.0)),
          )
      | inr (j, lt, all, hit, e) ↦
          let end = increments-position j first hf (omega arith) in
          inr (j, lt, all, hit, rw e end.1, rw e end.0)
    ])
