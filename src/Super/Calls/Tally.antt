-- ===== src/Super/Calls/Tally.antt =====
-- Sequences of calls, counted.
use aufs_enabled.Base.{
  ℕ, suc, ◌+◌, List, [], ◌∷◌, ◌++◌, Bool, true, false, ◌==◌, if◌then◌else◌, count, ◌≡◌, refl, arith,
}
use aufs_enabled.Super.Calls.{
  Memo, sb_info, map_array, elsewhere, Call, sb_bread, brelse, kzalloc, kfree, fetch_loop,
  release_loop,
}

abbrev pub same : Memo → Memo → Bool
same sb_info sb_info = true
same map_array map_array = true
same elsewhere elsewhere = true
same _ _ = false

abbrev pub gets : ℕ → Call → Bool
gets n (sb_bread m) = n == m
gets n _ = false

abbrev pub releases : ℕ → Call → Bool
releases n (brelse m) = n == m
releases n _ = false

abbrev pub allocates : Memo → Call → Bool
allocates o (kzalloc o') = same o o'
allocates o _ = false

abbrev pub frees : Memo → Call → Bool
frees o (kfree o') = same o o'
frees o _ = false

unfoldable pub tally : (Call → Bool) → List Call → ℕ
tally p [] = 0
tally p (c ∷ calls) = let rest = tally p calls in if p c then suc rest else rest

pub tally-++ : (p : Call → Bool) (a b : List Call) → tally p (a ++ b) ≡ tally p a + tally p b
unfolding tally
tally-++ p [] b = omega arith
tally-++ p (c ∷ a) b = let ih = tally-++ p a b in ground (arith, ih)

pub gets-fetch_loop : (n : ℕ) (l : List ℕ) → tally (gets n) (fetch_loop l) ≡ count n l
unfolding tally fetch_loop count
gets-fetch_loop n [] = refl
gets-fetch_loop n (x ∷ l) = rw (gets-fetch_loop n l) refl

pub gets-release_loop : (n : ℕ) (l : List ℕ) → tally (gets n) (release_loop l) ≡ 0
unfolding tally release_loop
gets-release_loop n [] = refl
gets-release_loop n (x ∷ l) = gets-release_loop n l

pub releases-release_loop : (n : ℕ) (l : List ℕ) → tally (releases n) (release_loop l) ≡ count n l
unfolding tally release_loop count
releases-release_loop n [] = refl
releases-release_loop n (x ∷ l) = rw (releases-release_loop n l) refl

pub releases-fetch_loop : (n : ℕ) (l : List ℕ) → tally (releases n) (fetch_loop l) ≡ 0
unfolding tally fetch_loop
releases-fetch_loop n [] = refl
releases-fetch_loop n (x ∷ l) = releases-fetch_loop n l

pub allocates-fetch_loop : (o : Memo) (l : List ℕ) → tally (allocates o) (fetch_loop l) ≡ 0
unfolding tally fetch_loop
allocates-fetch_loop o [] = refl
allocates-fetch_loop o (x ∷ l) = allocates-fetch_loop o l

pub allocates-release_loop : (o : Memo) (l : List ℕ) → tally (allocates o) (release_loop l) ≡ 0
unfolding tally release_loop
allocates-release_loop o [] = refl
allocates-release_loop o (x ∷ l) = allocates-release_loop o l

pub frees-fetch_loop : (o : Memo) (l : List ℕ) → tally (frees o) (fetch_loop l) ≡ 0
unfolding tally fetch_loop
frees-fetch_loop o [] = refl
frees-fetch_loop o (x ∷ l) = frees-fetch_loop o l

pub frees-release_loop : (o : Memo) (l : List ℕ) → tally (frees o) (release_loop l) ≡ 0
unfolding tally release_loop
frees-release_loop o [] = refl
frees-release_loop o (x ∷ l) = frees-release_loop o l
