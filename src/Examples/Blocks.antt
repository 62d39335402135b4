-- ===== src/Examples/Blocks.antt =====
-- `aufs_get_block` in a file system where inode 1 has one zone.
use aufs_enabled.Base.{
  ℕ, zero, suc, ◌+◌, ◌*◌, ◌<◌, ◌≤◌, ◌==◌, ◌&&◌, Bool, true, if◌then◌else◌, u64, List, [], ◌∷◌,
  get_or, replicate, ◌≡◌, ◌≢◌, refl, arith,
}
use aufs_enabled.Kernel.{eio}
use aufs_enabled.Bitmap.{
  zone_result, returned_block, zone_loop, aufs_new_zone, zones_start, blocks_ahead,
  integer_round_up_division,
}
use aufs_enabled.Bitmap.Layout.{metadata_blocks}
use aufs_enabled.Bitmap.Maps.{IsFull}
use aufs_enabled.Inode.Block.{
  ok, err, zone_ptr_at, FsState, zone_ptr, map_zone, aufs_get_block, get_block_step,
}
use aufs_enabled.Inode.Block.Ownership.{IsSound}
use aufs_enabled.Inode.Block.Step.{get_block_step-IsSound}
use aufs_enabled.Inode.Block.Mapping.{Divides, get_block_step-block}
use aufs_enabled.Inode.Block.History.{Request, run, first, last, get_block_never_shared}
use aufs_enabled.Inode.Block.Limits.{get_block_step-full, get_block_step-behind}
use aufs_enabled.Examples.Platform.{bit_ops}
use aufs_enabled.Examples.Allocation.{
  taken, small, with_ptrs, no_ptrs, zones_start-small, small-IsLaidOut,
}

-- The file system with the given zone map; zone 1 begins at block 10.
abbrev files : (ℕ → Bool) → FsState (ℕ → Bool)
files zmap = record {
  sbi = small zmap (taken 2);
  inodes = λ k. if k == 1 then with_ptrs (10 ∷ replicate 8 0) 1 else with_ptrs no_ptrs k;
}

get_or-replicate : (n i : ℕ) → get_or (replicate {A = ℕ} n 0) i 0 ≡ 0
get_or-replicate zero i = refl
get_or-replicate (suc n) zero = refl
get_or-replicate (suc n) (suc i) = get_or-replicate n i

files-zone_ptr :
    (zmap : ℕ → Bool) (k i : ℕ)
    → zone_ptr (files zmap) k i ≡ (if (k == 1) && (i == 0) then 10 else 0)
files-zone_ptr zmap k zero = ground arith
files-zone_ptr zmap k (suc i) = ground (arith, get_or-replicate 8 i)

zone_result-small : (zmap : ℕ → Bool) → zone_result (small zmap (taken 2)) 1 ≡ 10
unfolding zone_result zones_start blocks_ahead integer_round_up_division
zone_result-small zmap = refl

files-IsSound : (zmap : ℕ → Bool) → zmap 1 ≡ true → IsSound bit_ops 4096 (files zmap)
files-IsSound zmap set = record {
  laid = small-IsLaidOut zmap (taken 2);
  whole = refl;
  fits = λ n h. omega (arith, zones_start-small zmap (taken 2));
  nine = λ k. ground arith;
  owned = λ k i ne. (
    1,
    set,
    omega (arith, zones_start-small zmap (taken 2)),
    ground (arith, files-zone_ptr zmap k i, zone_result-small zmap),
  );
  apart = λ k i k' i' ne e. ground (arith, files-zone_ptr zmap k i, files-zone_ptr zmap k' i');
}

abbrev pub st : FsState (ℕ → Bool)
st = files (taken 2)

abbrev crowded : FsState (ℕ → Bool)
crowded = files (λ _. true)

abbrev pub ones : ℕ → ℕ
ones i = 1

pub st-IsSound : IsSound bit_ops 4096 st
st-IsSound = files-IsSound (taken 2) refl

crowded-IsSound : IsSound bit_ops 4096 crowded
crowded-IsSound = files-IsSound (λ _. true) refl

files-Divides : (zmap : ℕ → Bool) → Divides (small zmap (taken 2)) 4096
files-Divides zmap = record { buffer = omega arith; even = refl; zone_size_fits = omega arith }

-- Block 3 of inode 5 is the first of its zone 1, which is new.
get_block_step-IsSound_example :
    IsSound bit_ops 4096 (get_block_step bit_ops ones 4096 st 5 3 4096).0
get_block_step-IsSound_example = get_block_step-IsSound bit_ops ones 4096 st 5 st-IsSound 3 4096

get_block_step-block_example :
    let r = get_block_step bit_ops ones 4096 st 5 3 4096 in r.1 ≡ ok (1 + zone_ptr r.0 5 1)
get_block_step-block_example =
    get_block_step-block bit_ops ones 4096 st st-IsSound 5 3 4096 (files-Divides (taken 2))
      (omega arith)

abbrev between : List Request
between =
    record { ino = 1; iblock = 7; b_size = 4096 }
    ∷ record { ino = 6; iblock = 0; b_size = 4096 }
    ∷ []

-- The first call takes zone 2 of the device, and the last one finds zone 1.
first_zone :
    zone_ptr
      (first bit_ops ones 4096 st st-IsSound 4096 (files-Divides (taken 2)) 5 3 between 1 0).0
      5
      1
    ≡ 12
unfolding get_block_step aufs_get_block map_zone zone_ptr_at aufs_new_zone zone_loop returned_block
    zone_result zones_start blocks_ahead integer_round_up_division
first_zone = refl

second_zone :
    zone_ptr
      (last bit_ops ones 4096 st st-IsSound 4096 (files-Divides (taken 2)) 5 3 between 1 0).0
      1
      0
    ≡ 10
unfolding get_block_step aufs_get_block map_zone zone_ptr_at aufs_new_zone zone_loop returned_block
    zone_result zones_start blocks_ahead integer_round_up_division run
second_zone = refl

get_block_never_shared_example :
    (b : ℕ) × (b' : ℕ) × ((first bit_ops ones 4096 st st-IsSound 4096
        (files-Divides (taken 2))
        5
        3
        between
        1
        0).1
      ≡ ok b)
    × ((last bit_ops ones 4096 st st-IsSound 4096 (files-Divides (taken 2)) 5 3 between 1 0).1
        ≡ ok b')
    × (b ≢ b')
    × (metadata_blocks st.sbi ≤ b)
    × (metadata_blocks st.sbi ≤ b')
get_block_never_shared_example =
    get_block_never_shared bit_ops ones 4096 st st-IsSound 4096 (files-Divides (taken 2)) 5 3
      between 1 0 (omega arith) (omega arith) (omega (arith, first_zone))
      (omega (arith, second_zone)) (omega arith)

crowded-IsFull : IsFull bit_ops (8 * 4096) crowded.sbi.s_zmap
crowded-IsFull k = ground arith

get_block_step-full_example :
    let r = get_block_step bit_ops ones 4096 crowded 5 3 4096 in
    (r.1 ≡ ok 1) × (1 < 2) × (r.0.sbi ≡ crowded.sbi)
get_block_step-full_example =
    get_block_step-full bit_ops ones 4096 crowded crowded-IsSound 5 3 4096
      (files-Divides (λ _. true)) (omega arith) crowded-IsFull refl

get_block_step-behind_example :
    let r = get_block_step bit_ops ones 4096 st 5 18 4096 in
    (r.0.sbi ≡ st.sbi)
    × ((m : ℕ) → (r.0.inodes m).ai_zone_ptr ≡ (st.inodes m).ai_zone_ptr)
    × (r.1 ≡ (if ones 9 == 0 then err eio else ok (u64 (0 + ones 9))))
get_block_step-behind_example =
    get_block_step-behind bit_ops ones 4096 st st-IsSound 5 18 4096 (files-Divides (taken 2))
      (omega arith) (omega arith)
