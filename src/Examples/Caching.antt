-- ===== src/Examples/Caching.antt =====
-- A client that writes to two blocks of 8 bytes, reads them back and gives one up between.
use aufs_enabled.Base.{ℕ, List, [], ◌∷◌, ◌≡◌, arith}
use aufs_enabled.Mkfs.Cache.{sync, Use, load, store, release, flush, use_all}
use aufs_enabled.Mkfs.Cache.Refined.{flat_all, AreProper, use_all-refined}

abbrev uses : List Use
uses = store 3 1 7 ∷ store 1 0 9 ∷ release 3 ∷ flush ∷ load 3 1 ∷ load 1 0 ∷ []

abbrev device : ℕ → ℕ
device p = p

uses-AreProper : AreProper 8 uses
uses-AreProper = (
  (omega arith, omega arith),
  (
    (omega arith, omega arith),
    (tt, (tt, ((omega arith, omega arith), ((omega arith, omega arith), tt)))),
  ),
)

use_all-refined_example :
    let (cache, outs) = use_all 8 uses (record { m_cache = []; device = device }) in
    let (memory, reads) = flat_all 8 uses device in
    (outs ≡ reads) × ((p : ℕ) → (sync 8 cache).device p ≡ memory p)
use_all-refined_example = use_all-refined 8 (omega arith) uses device uses-AreProper
