-- ===== src/Examples/Modules.antt =====
-- The module loaded, with one inode held and one that waits, and unloaded.
use aufs_enabled.Base.{◌⊎◌, [], ◌∷◌, ◌≡◌, refl, true, false, none, some, arith}
use aufs_enabled.Kernel.{Errno, enomem, einval}
use aufs_enabled.Super.Module.{
  ModuleState, Rcu, unloaded, aufs_init, aufs_inode_alloc, aufs_inode_free, aufs_fini,
  aufs_inode_cache_create,
}
use aufs_enabled.Base.{count, remove}
use aufs_enabled.Super.Module.Reachable.{
  Reach, start, after, init, alloc, free, IsSound, Reach-IsSound, aufs_fini-Reach,
  aufs_init-outcome,
}

abbrev in_order : Rcu
in_order = record { order = λ l. l; order_lem = λ i l. refl }

abbrev two_inodes : ModuleState
two_inodes =
    (aufs_inode_alloc (some 8)
      (aufs_inode_alloc (some 7) (aufs_init in_order true none unloaded).1).1).1

abbrev one_waits : ModuleState
one_waits = aufs_inode_free 7 two_inodes

abbrev both_wait : ModuleState
both_wait = aufs_inode_free 8 one_waits

two_inodes-Reach : Reach in_order two_inodes
unfolding aufs_init aufs_inode_cache_create aufs_inode_alloc count
two_inodes-Reach =
    after
      (after (after start (init unloaded true none refl))
        (alloc (aufs_init in_order true none unloaded).1 7 refl refl))
      (alloc (aufs_inode_alloc (some 7) (aufs_init in_order true none unloaded).1).1 8 refl refl)

one_waits-Reach : Reach in_order one_waits
unfolding aufs_init aufs_inode_cache_create aufs_inode_alloc count
one_waits-Reach = after two_inodes-Reach (free two_inodes 7 (omega arith))

both_wait-Reach : Reach in_order both_wait
unfolding aufs_init aufs_inode_cache_create aufs_inode_alloc aufs_inode_free count remove
both_wait-Reach = after one_waits-Reach (free one_waits 8 (omega arith))

one_waits_state : one_waits ≡ record {
  aufs_inode_cache = true;
  registered = true;
  objects = 8 ∷ 7 ∷ [];
  held = 8 ∷ [];
  waiting = 7 ∷ [];
  faults = 0;
}
unfolding aufs_init aufs_inode_cache_create aufs_inode_alloc aufs_inode_free count remove
one_waits_state = refl

Reach-IsSound_example : IsSound in_order one_waits
Reach-IsSound_example = Reach-IsSound in_order one_waits-Reach

aufs_fini-Reach_example : aufs_fini in_order none both_wait ≡ unloaded
unfolding aufs_init aufs_inode_cache_create aufs_inode_alloc aufs_inode_free count remove
aufs_fini-Reach_example = aufs_fini-Reach in_order both_wait-Reach refl refl

aufs_init-outcome_example :
    ((true ≡ true)
      × (some einval ≡ none)
      × ((aufs_init in_order true (some einval) unloaded).0 ≡ none)
      × ((aufs_init in_order true (some einval) unloaded).1
          ≡ record unloaded { aufs_inode_cache = true; registered = true }))
    ⊎ ((e : Errno) × ((aufs_init in_order true (some einval) unloaded).0 ≡ some e)
        × ((aufs_init in_order true (some einval) unloaded).1 ≡ unloaded)
        × (unloaded.aufs_inode_cache ≡ false)
        × (((true ≡ false) × (e ≡ enomem)) ⊎ ((true ≡ true) × (some einval ≡ some e))))
aufs_init-outcome_example = aufs_init-outcome in_order true (some einval) start refl
