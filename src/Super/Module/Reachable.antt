-- ===== src/Super/Module/Reachable.antt =====
-- What the kernel does with the module: it loads it, takes inodes while the file system is registered,
-- gives them back, runs the callbacks when it likes, and unloads the module when no inode is held.
use aufs_enabled.Base.{
  ℕ, suc, ◌<◌, List, [], ◌∷◌, ◌≡◌, ◌⊎◌, inl, inr, ◌∙◌, refl, sym, ap, subst, Bool, true, false,
  Option, none, some, if◌then◌else◌, arith,
}
use aufs_enabled.Kernel.{Errno, enomem}
use aufs_enabled.Super.Module.{
  ModuleState, Rcu, aufs_inode_alloc, aufs_inode_free, run_callback, aufs_inode_cache_create,
  aufs_init, aufs_fini, unloaded,
}
use aufs_enabled.Base.{count}
use aufs_enabled.Super.Module.Balanced.{
  IsBalanced, run_callback-IsBalanced, run_callback-same, alloc-IsBalanced, free-IsBalanced,
  created-IsBalanced, registered-IsBalanced, unregistered-IsBalanced,
  aufs_inode_cache_destroy-unloaded,
}

module _ (rcu : Rcu) where
  -- The kernel never takes an object from the slab that is taken already, registers no file system
  -- twice, and unloads no module that is in use; `unregister_filesystem` then returns 0.
  pub data Step : ModuleState → ModuleState → Type 0 where
    init :
        (s : ModuleState) (created : Bool) (registers : Option Errno)
        → s.registered ≡ false
        → Step s (aufs_init rcu created registers s).1
    alloc :
        (s : ModuleState) (i : ℕ)
        → s.registered ≡ true
        → count i s.objects ≡ 0
        → Step s (aufs_inode_alloc (some i) s).1
    no_memory : (s : ModuleState) → Step s (aufs_inode_alloc none s).1
    free : (s : ModuleState) (i : ℕ) → 0 < count i s.held → Step s (aufs_inode_free i s)
    callback : (s : ModuleState) (i : ℕ) → 0 < count i s.waiting → Step s (run_callback i s)
    fini : (s : ModuleState) → s.registered ≡ true → s.held ≡ [] → Step s (aufs_fini rcu none s)

  pub data Reach : ModuleState → Type 0 where
    start : Reach unloaded
    after : {s t : ModuleState} → Reach s → Step s t → Reach t

  pub data IsSound (s : ModuleState) : Type 0 where
    off : s ≡ unloaded → IsSound s
    on : s.registered ≡ true → IsBalanced s → IsSound s

  IsBalanced-of : {s : ModuleState} → s.registered ≡ true → IsSound s → IsBalanced s
  IsBalanced-of in_use (off e) = cc
  IsBalanced-of in_use (on _ ok) = ok

  unloaded-of : {s : ModuleState} → s.registered ≡ false → IsSound s → s ≡ unloaded
  unloaded-of out (off e) = e
  unloaded-of out (on in_use ok) = cc

  -- Loading, on every branch: with an error the module is as it was before.
  aufs_init-refused :
      (created : Bool) (e : Errno)
      → aufs_init rcu created (some e) unloaded ≡ (some (if created then e else enomem), unloaded)
  unfolding aufs_init aufs_inode_cache_create
  aufs_init-refused true e =
      ap (λ (t : ModuleState). (some e, t))
        (aufs_inode_cache_destroy-unloaded rcu (record unloaded { aufs_inode_cache = true })
          created-IsBalanced refl)
  aufs_init-refused false e = refl

  init-outcome :
      (created : Bool) (registers : Option Errno)
      → ((created ≡ true)
          × (registers ≡ none)
          × ((aufs_init rcu created registers unloaded).0 ≡ none)
          × ((aufs_init rcu created registers unloaded).1
              ≡ record unloaded { aufs_inode_cache = true; registered = true }))
        ⊎ ((e : Errno) × ((aufs_init rcu created registers unloaded).0 ≡ some e)
            × ((aufs_init rcu created registers unloaded).1 ≡ unloaded)
            × (unloaded.aufs_inode_cache ≡ false)
            × (((created ≡ false) × (e ≡ enomem)) ⊎ ((created ≡ true) × (registers ≡ some e))))
  unfolding aufs_init aufs_inode_cache_create
  init-outcome true none = inl (refl, refl, refl, refl)
  init-outcome true (some e) =
      let r = aufs_init-refused true e in
      inr (
        e,
        ap (λ (p : Option Errno × ModuleState). p.0) r,
        ap (λ (p : Option Errno × ModuleState). p.1) r,
        refl,
        inr (refl, refl),
      )
  init-outcome false registers = inr (enomem, refl, refl, refl, inl (refl, refl))

  init-IsSound :
      (created : Bool) (registers : Option Errno)
      → IsSound (aufs_init rcu created registers unloaded).1
  unfolding aufs_init aufs_inode_cache_create
  init-IsSound created (some e) =
      off (ap (λ (r : Option Errno × ModuleState). r.1) (aufs_init-refused created e))
  init-IsSound true none = on refl registered-IsBalanced
  init-IsSound false none = off refl

  no_count : (i : ℕ) (l : List ℕ) → l ≡ [] → ¬ (0 < count i l)
  unfolding count
  no_count i l e some_left = let none_left : count i l ≡ 0 = rw e refl in omega arith

  -- Unloading gives everything back.
  aufs_fini-unloaded :
      (s : ModuleState) → IsBalanced s → s.held ≡ [] → aufs_fini rcu none s ≡ unloaded
  unfolding aufs_fini
  aufs_fini-unloaded s ok unheld =
      aufs_inode_cache_destroy-unloaded rcu (record s { registered = false })
        (unregistered-IsBalanced s ok) unheld

  Step-IsSound : {s t : ModuleState} → Step s t → IsSound s → IsSound t
  unfolding aufs_inode_alloc aufs_init aufs_inode_cache_create aufs_fini aufs_inode_free
  Step-IsSound (init s created registers out) ok =
      rw (unloaded-of out ok) (init-IsSound created registers)
  Step-IsSound (alloc s i in_use fresh) ok =
      let b = IsBalanced-of in_use ok in
      let taken = record s { objects = i ∷ s.objects; held = i ∷ s.held } in
      let pick : Bool → Option ℕ × ModuleState =
        λ c. if c then (some i, taken) else (none, record s { faults = suc s.faults }) in
      let there = ap (λ (c : Bool). (pick c).1) b.cached in
      subst IsSound (sym there) (on in_use (alloc-IsBalanced s i fresh b))
  Step-IsSound (no_memory s) ok = ok
  Step-IsSound (free s i is_held) (off e) =
      absurd (no_count i s.held (ap (λ (x : ModuleState). x.held) e) is_held)
  Step-IsSound (free s i is_held) (on in_use ok) = on in_use (free-IsBalanced s i is_held ok)
  Step-IsSound (callback s i waits) (off e) =
      absurd (no_count i s.waiting (ap (λ (x : ModuleState). x.waiting) e) waits)
  Step-IsSound (callback s i waits) (on in_use ok) =
      on ((run_callback-same i s).1 ∙ in_use) (run_callback-IsBalanced s i ok waits)
  Step-IsSound (fini s in_use unheld) ok =
      off (aufs_fini-unloaded s (IsBalanced-of in_use ok) unheld)

  -- In every state that the kernel can bring the module to: either the module is as the kernel loads
  -- it, or the file system is registered, the cache is there, no slab was used that is not there or
  -- with an object that is not taken, and every object that is taken is either held by the kernel or
  -- waits for its callback, not both and only once.
  pub Reach-IsSound : {s : ModuleState} → Reach s → IsSound s
  Reach-IsSound start = off refl
  Reach-IsSound (after r step) = Step-IsSound step (Reach-IsSound r)

  -- `aufs_fini` in a state that the kernel can bring the module to, with the file system registered
  -- and no inode held, waits for the callbacks that are left, loses no object, and leaves the module
  -- as the kernel loads it.
  pub aufs_fini-Reach :
      {s : ModuleState}
      → Reach s
      → s.registered ≡ true
      → s.held ≡ []
      → aufs_fini rcu none s ≡ unloaded
  aufs_fini-Reach {s} r in_use unheld =
      aufs_fini-unloaded s (IsBalanced-of in_use (Reach-IsSound r)) unheld

  -- `aufs_init` in a state that the kernel can bring the module to, with no file system registered:
  -- where the slab is created and the file system is registered, it returns 0 and leaves both; where
  -- one of them fails it returns -ENOMEM or the error of the registration, and the module is as
  -- before, without a cache.
  pub aufs_init-outcome :
      {s : ModuleState} (created : Bool) (registers : Option Errno)
      → Reach s
      → s.registered ≡ false
      → ((created ≡ true)
          × (registers ≡ none)
          × ((aufs_init rcu created registers s).0 ≡ none)
          × ((aufs_init rcu created registers s).1
              ≡ record s { aufs_inode_cache = true; registered = true }))
        ⊎ ((e : Errno) × ((aufs_init rcu created registers s).0 ≡ some e)
            × ((aufs_init rcu created registers s).1 ≡ s)
            × (s.aufs_inode_cache ≡ false)
            × (((created ≡ false) × (e ≡ enomem)) ⊎ ((created ≡ true) × (registers ≡ some e))))
  aufs_init-outcome created registers r out =
      rw (unloaded-of out (Reach-IsSound r)) (init-outcome created registers)
