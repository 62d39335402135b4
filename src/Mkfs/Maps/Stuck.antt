-- ===== src/Mkfs/Maps/Stuck.antt =====
-- `AllocateZones` when the first run of free bits is too short.
use aufs_enabled.Base.{
  ℕ, zero, suc, ◌+◌, ◌*◌, ◌^◌, ◌<◌, ◌≤◌, true, false, ltb, ◌≡◌, ◌∙◌, refl, sym, arith,
}
use aufs_enabled.Mkfs.Config.{Configuration, block_size}
use aufs_enabled.Mkfs.Bits.{Bytes, BitIterator, difference}
use aufs_enabled.Mkfs.Bits.Position.{IsBit, position, difference-position, position-injective}
use aufs_enabled.Mkfs.Bits.Memory.{bit_at}
use aufs_enabled.Mkfs.Maps.{find, running, zones_loop, allocate_zones}
use aufs_enabled.Mkfs.Maps.Search.{
  searched, begin, end, begin-IsBit, end-IsBit, end-position, find_map-at, equal-false,
}

module _ (config : Configuration) (base : ℕ) (mem : Bytes)
    (low : base + config.zone_map_blocks * block_size config * 8 < 2 ^ 59) (zones : ℕ) where
  abbrev limit : ℕ
  limit = searched config config.zone_map_blocks

  abbrev b : BitIterator
  b = begin config base config.zone_map_blocks low

  abbrev e : BitIterator
  e = end config base config.zone_map_blocks low

  -- At a taken bit the loop stays where it is.
  zones_loop-taken :
      (it : BitIterator) (q : ℕ)
      → IsBit it
      → position it ≡ 8 * base + q
      → q < limit
      → bit_at mem (8 * base + q) ≡ true
      → 0 < zones
      → (fuel : ℕ) → zones_loop fuel b e zones mem it ≡ running
  unfolding zones_loop
  zones_loop-taken it q h at lt set some zero = refl
  zones_loop-taken it q h at lt set some (suc fuel) =
      let (hj, place) =
        find_map-at config base config.zone_map_blocks low mem it q q true h at (omega arith) lt
          (λ k le more. absurd (omega arith)) set in
      let stays : find mem it e true ≡ it = position-injective _ it hj h (place ∙ sym at) in
      let he = end-IsBit config base config.zone_map_blocks low in
      let last = end-position config base config.zone_map_blocks low in
      let more = equal-false it e h he (omega (arith, at, last)) in
      let none : difference it it ≡ 0 = difference-position it it h h (omega arith) ∙ omega arith in
      let short : ltb (difference it it) zones ≡ true = ground arith in
      rw (more, stays, short) (zones_loop-taken it q h at lt set some fuel)

  -- Below the top of the address space: where the first free bit `p` begins a run of `run` free bits
  -- that a taken bit ends within the range searched, and `run` is less than `zones`, `AllocateZones`
  -- never ends, however many rounds it is given; there may be a longer run behind.
  pub allocate_zones-running :
      (p run : ℕ)
      → p + run < limit
      → 0 < run
      → run < zones
      → ((k : ℕ) → k < p → bit_at mem (8 * base + k) ≡ true)
      → ((k : ℕ) → p ≤ k → k < p + run → bit_at mem (8 * base + k) ≡ false)
      → bit_at mem (8 * base + (p + run)) ≡ true
      → (fuel : ℕ) → allocate_zones fuel config base zones mem ≡ running
  unfolding allocate_zones zones_loop
  allocate_zones-running p run lt some_run short before free set zero = refl
  allocate_zones-running p run lt some_run short before free set (suc fuel) =
      let hb = begin-IsBit config base config.zone_map_blocks low in
      let he = end-IsBit config base config.zone_map_blocks low in
      let last = end-position config base config.zone_map_blocks low in
      let it = find mem b e false in
      let (h, at) =
        find_map-at config base config.zone_map_blocks low mem b 0 p false hb (omega arith)
          (omega arith) (omega arith) (λ k _ below. before k below)
          (free p (omega arith) (omega arith)) in
      let jt = find mem it e true in
      let (hj, place) =
        find_map-at config base config.zone_map_blocks low mem it p (p + run) true h at
          (omega arith) lt free set in
      let more = equal-false it e h he (omega (arith, at, last)) in
      let count : difference jt it ≡ run =
        difference-position jt it hj h (omega (arith, at, place)) ∙ omega (arith, at, place) in
      let too_short : ltb run zones ≡ true = ground arith in
      rw (more, count, too_short) (zones_loop-taken jt (p + run) hj place lt set (omega arith) fuel)
