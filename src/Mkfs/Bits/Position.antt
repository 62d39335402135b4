-- ===== src/Mkfs/Bits/Position.antt =====
-- The iterators as positions: `++`, `--`, `+=`, `-=` and the difference against plain arithmetic.
use aufs_enabled.Base.{
  ℕ, zero, suc, ◌+◌, ◌-◌, ◌*◌, ◌/◌, ◌%◌, ◌^◌, ◌<◌, ◌≤◌, true, u64, ◌≡◌, ◌∙◌, ◌↔◌, sym, ap, arith,
}
use aufs_enabled.Mkfs.Bits.{
  bits, BitIterator, increment, decrement, advance, retreat, difference, equal, less,
}

-- The number of the bit, counted from address 0.
abbrev pub position : BitIterator → ℕ
position it = bits * it.m_data + it.m_offset

-- The offset is within the byte, and every bit of memory has a number of 64 bits.
pub record IsBit (it : BitIterator) : Type 0 where
  pub offset : it.m_offset < bits
  pub address : it.m_data < 2 ^ 60

pub increment-position :
    (it : BitIterator)
    → IsBit it
    → (position (increment it) ≡ position it + 1) × ((increment it).m_offset < bits)
unfolding increment
increment-position it h = ground arith

-- No part of `advance` wraps, and the branch for a negative rest is never taken.
advance_lem :
    (it : BitIterator) (d : ℕ)
    → it.m_offset + d < 2 ^ 64
    → it.m_data + (it.m_offset + d) / bits < 2 ^ 64
    → advance it d ≡ record {
      m_data = it.m_data + (it.m_offset + d) / bits;
      m_offset = (it.m_offset + d) % bits;
    }
unfolding advance
advance_lem it d h fits = ground arith

-- An iterator of a bit of memory that is moved on by `d`, to a bit below 2^63, stands `d` bits
-- further, within its byte, and `d` is the difference to where it was.
pub advance-position :
    (it : BitIterator) (d : ℕ)
    → IsBit it
    → position it + d < 2 ^ 63
    → (position (advance it d) ≡ position it + d)
      × IsBit (advance it d)
      × (difference (advance it d) it ≡ d)
unfolding difference
advance-position it d h small =
    rw (advance_lem it d (omega (arith, h.offset)) (omega (arith, h.offset, h.address))) (
      omega arith,
      record { offset = omega arith; address = omega (arith, h.offset, h.address) },
      omega (arith, h.offset, h.address),
    )

pub retreat-position :
    (it : BitIterator) (k : ℕ)
    → IsBit it
    → it.m_offset < k
    → k ≤ position it
    → position (retreat it k) ≡ position it + 2 ^ 64 - k
unfolding retreat
retreat-position it k h far near =
    let step : u64 (2 ^ 64 - k) ≡ 2 ^ 64 - k = omega arith in
    rw step (
      rw
        (advance_lem it (2 ^ 64 - k) (omega (arith, h.offset)) (omega (arith, h.offset, h.address)))
        (omega (arith, h.offset)))

pub increment-IsBit :
    (it : BitIterator) → IsBit it → position it + 1 < 2 ^ 63 → IsBit (increment it)
unfolding increment
increment-IsBit it h small = ground arith

pub decrement-position :
    (it : BitIterator) → IsBit it → 0 < position it → position (decrement it) + 1 ≡ position it
unfolding decrement
decrement-position it h pos = ground arith

pub decrement-IsBit : (it : BitIterator) → IsBit it → 0 < position it → IsBit (decrement it)
unfolding decrement
decrement-IsBit it h pos = ground arith

pub position-injective : (l r : BitIterator) → IsBit l → IsBit r → position l ≡ position r → l ≡ r
position-injective l r hl hr e =
    let same : l.m_data ≡ r.m_data = omega (arith, hl.offset, hr.offset) in
    let within : l.m_offset ≡ r.m_offset = omega arith in
    λ i. record { m_data = same i; m_offset = within i }

-- `++` and `--`, `n` times.
abbrev pub increments : ℕ → BitIterator → BitIterator
increments zero it = it
increments (suc n) it = increments n (increment it)

abbrev pub decrements : ℕ → BitIterator → BitIterator
decrements zero it = it
decrements (suc n) it = decrements n (decrement it)

pub increments-position :
    (n : ℕ) (it : BitIterator)
    → IsBit it
    → position it + n < 2 ^ 63
    → (position (increments n it) ≡ position it + n) × IsBit (increments n it)
increments-position zero it h small = (omega arith, h)
increments-position (suc n) it h small =
    let one = increment-position it h in
    let rest =
      increments-position n (increment it) (increment-IsBit it h (omega arith))
        (omega (arith, one.0)) in
    (omega (arith, rest.0, one.0), rest.1)

pub decrements-position :
    (n : ℕ) (it : BitIterator)
    → IsBit it
    → n ≤ position it
    → position (decrements n it) + n ≡ position it
decrements-position zero it h small = omega arith
decrements-position (suc n) it h small =
    let one = decrement-position it h (omega arith) in
    let rest =
      decrements-position n (decrement it) (decrement-IsBit it h (omega arith))
        (omega (arith, one)) in
    omega (arith, rest, one)

-- For an iterator of a bit of memory and up to bits below 2^63: `it += n` is the same as `++` done
-- `n` times, and the difference to `it` is then `n`.
pub increments-advance :
    (n : ℕ) (it : BitIterator)
    → IsBit it
    → position it + n < 2 ^ 63
    → (advance it n ≡ increments n it) × (difference (increments n it) it ≡ n)
increments-advance n it h small =
    let steps = increments-position n it h small in
    let (at, bit, count) = advance-position it n h small in
    let same = position-injective (advance it n) (increments n it) bit steps.1 (at ∙ sym steps.0) in
    (same, ap (λ (i : BitIterator). difference i it) (sym same) ∙ count)

-- For an iterator of a bit of memory and a move back by `n` bits that leaves its byte and stays in
-- memory: `it -= n` does not come to where `--` done `n` times comes to, but 2^64 bits (2^61 bytes)
-- further on.
pub retreat-decrements :
    (n : ℕ) (it : BitIterator)
    → IsBit it
    → it.m_offset < n
    → n ≤ position it
    → position (retreat it n) ≡ position (decrements n it) + 2 ^ 64
retreat-decrements n it h far near =
    omega (arith, retreat-position it n h far near, decrements-position n it h near)

-- For two iterators of bits of memory: `==` and `<` compare their positions.
pub compare-position :
    (l r : BitIterator)
    → IsBit l
    → IsBit r
    → ((equal l r ≡ true) ↔ (position l ≡ position r))
      × ((less l r ≡ true) ↔ (position l < position r))
unfolding equal less
compare-position l r hl hr =
    ((λ e. ground arith, λ e. ground arith), (λ e. ground arith, λ e. ground arith))

pub difference-position :
    (l r : BitIterator)
    → IsBit l
    → IsBit r
    → position r ≤ position l
    → difference l r ≡ position l - position r
unfolding difference
difference-position l r hl hr le = omega (arith, hl.offset, hl.address, hr.offset, hr.address)
