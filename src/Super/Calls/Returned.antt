-- ===== src/Super/Calls/Returned.antt =====
-- Sequences of calls that give everything back, and such that do not.
use aufs_enabled.Base.{ℕ, suc, ◌+◌, ◌<◌, List, [], ◌∷◌, ◌++◌, count, count-++, ◌≡◌, refl, arith}
use aufs_enabled.Super.Calls.{
  sb_info, map_array, Call, sb_bread, brelse, kzalloc, kfree, fetch_loop, out_freemap, Freed,
  elsewhere, Memo, aufs_put_super,
}
use aufs_enabled.Super.Calls.Tally.{
  gets, releases, allocates, frees, tally, tally-++, gets-fetch_loop, gets-release_loop,
  releases-fetch_loop, releases-release_loop, allocates-fetch_loop, allocates-release_loop,
  frees-fetch_loop, frees-release_loop,
}

-- Everything that was got is given back, once.
pub record IsReturned (calls : List Call) : Type 0 where
  pub buffers : (n : ℕ) → tally (gets n) calls ≡ tally (releases n) calls
  pub info : tally (allocates sb_info) calls ≡ tally (frees sb_info) calls
  pub array : tally (allocates map_array) calls ≡ tally (frees map_array) calls

-- The same, but the buffer of block 0 is released once more than it was got.
pub record IsOverReleased (calls : List Call) : Type 0 where
  pub super_block : suc (tally (gets 0) calls) ≡ tally (releases 0) calls
  pub buffers : (n : ℕ) → 0 < n → tally (gets n) calls ≡ tally (releases n) calls
  pub info : tally (allocates sb_info) calls ≡ tally (frees sb_info) calls
  pub array : tally (allocates map_array) calls ≡ tally (frees map_array) calls

-- The buffers of the blocks and the array are never given back.
pub record IsLost (blocks : List ℕ) (calls : List Call) : Type 0 where
  pub buffers : (n : ℕ) → tally (gets n) calls ≡ count n blocks + tally (releases n) calls
  pub super_block : tally (allocates sb_info) calls ≡ tally (frees sb_info) calls
  pub array : tally (allocates map_array) calls ≡ suc (tally (frees map_array) calls)

abbrev pub begin : List Call
begin = kzalloc sb_info ∷ sb_bread 0 ∷ brelse 0 ∷ kzalloc map_array ∷ []

ruleset tallied = (
  tally-++, gets-fetch_loop, gets-release_loop, releases-fetch_loop, releases-release_loop,
  allocates-fetch_loop, allocates-release_loop, frees-fetch_loop, frees-release_loop,
)

pub freed-IsOverReleased :
    (zs is : List ℕ)
    → IsOverReleased (begin ++ (fetch_loop zs ++ (fetch_loop is ++ out_freemap zs is)))
unfolding out_freemap tally
freed-IsOverReleased zs is = record {
  super_block = simp tallied (omega arith);
  buffers = λ n pos. simp tallied (ground arith);
  info = (simp tallied (omega arith));
  array = (simp tallied (omega arith));
}

pub half-IsOverReleased :
    (zs : List ℕ) → IsOverReleased (begin ++ (fetch_loop zs ++ out_freemap zs []))
unfolding out_freemap tally count
half-IsOverReleased zs = record {
  super_block = simp tallied (omega arith);
  buffers = λ n pos. simp tallied (ground arith);
  info = (simp tallied (omega arith));
  array = (simp tallied (omega arith));
}

pub no_map-IsOverReleased :
    IsOverReleased (kzalloc sb_info ∷ sb_bread 0 ∷ brelse 0 ∷ brelse 0 ∷ kfree sb_info ∷ [])
unfolding tally
no_map-IsOverReleased = record {
  super_block = refl;
  buffers = λ n pos. ground arith;
  info = refl;
  array = refl;
}

pub nothing-IsReturned : IsReturned []
unfolding tally
nothing-IsReturned = record { buffers = λ n. refl; info = refl; array = refl }

pub unread-IsReturned : IsReturned (kzalloc sb_info ∷ kfree sb_info ∷ [])
unfolding tally
unread-IsReturned = record { buffers = λ n. refl; info = refl; array = refl }

pub wrong-IsLost :
    (zs is : List ℕ)
    → IsLost (zs ++ is) (begin ++ (fetch_loop zs ++ (fetch_loop is ++ (kfree sb_info ∷ []))))
unfolding tally
wrong-IsLost zs is = record {
  buffers = λ n. simp tallied (ground (arith, count-++ n zs is));
  super_block = simp tallied (omega arith);
  array = simp tallied (omega arith);
}

-- The pointer is that of the array, and the buffers are those of the blocks `zs` and `is`.
pub record IsIntact (zs is : List ℕ) (freed : Freed) : Type 0 where
  pub array : freed.s_zmap ≡ map_array
  pub buffers : (n : ℕ) → count n freed.iblocks + count n freed.zblocks ≡ count n is + count n zs

module _ (zs is : List ℕ) (freed : Freed) where
  abbrev unmounted : List Call
  unmounted = (begin ++ (fetch_loop zs ++ fetch_loop is)) ++ aufs_put_super freed

  pub unmounted-IsReturned : IsIntact zs is freed → IsReturned unmounted
  unfolding tally aufs_put_super
  unmounted-IsReturned intact = record {
    buffers = λ n. simp tallied (ground (arith, intact.buffers n));
    info = (simp tallied (rw intact.array (omega arith)));
    array = (simp tallied (rw intact.array (omega arith)));
  }

  map_array-freed : (o : Memo) → tally (frees map_array) (kfree o ∷ []) ≡ 1 → o ≡ map_array
  unfolding tally
  map_array-freed sb_info e = absurd (omega (arith, e))
  map_array-freed map_array e = refl
  map_array-freed elsewhere e = absurd (omega (arith, e))

  pub unmounted-IsIntact : IsReturned unmounted → IsIntact zs is freed
  unfolding tally aufs_put_super
  unmounted-IsIntact r = record {
    array = map_array-freed freed.s_zmap (omega (arith, simp tallied at r.array));
    buffers = λ n. let all = simp tallied at (r.buffers n) in ground arith;
  }
