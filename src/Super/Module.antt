-- ===== src/Super/Module.antt =====
-- kern/super.c: the slab cache of inodes (`aufs_inode_alloc`, `aufs_inode_free`, the callback of the
-- RCU, `aufs_inode_cache_create`, `aufs_inode_cache_destroy`) and `aufs_init` and `aufs_fini`.
pub mod Balanced
pub mod Reachable
use aufs_enabled.Base.{
  ℕ, suc, ◌<◌, List, [], ◌∷◌, ◌≡◌, Bool, true, false, Option, none, some, ltb, if◌then◌else◌,
}
use aufs_enabled.Kernel.{Errno, enomem}
use aufs_enabled.Base.{count, remove}

-- `aufs_inode_cache`, not NULL, and what the kernel has of the module: whether `aufs_type` is
-- registered, the objects that are taken from the slab, the inodes that the kernel holds, those that
-- wait for their callback, and how often a slab was used that is not there, an object freed that was
-- not taken, or a slab destroyed with objects left in it.
pub record ModuleState : Type 0 where
  pub aufs_inode_cache : Bool
  pub registered : Bool
  pub objects : List ℕ
  pub held : List ℕ
  pub waiting : List ℕ
  pub faults : ℕ

-- The order in which `rcu_barrier` lets the waiting callbacks run: each of them, once.
pub record Rcu : Type 0 where
  pub order : List ℕ → List ℕ
  pub order_lem : (i : ℕ) (l : List ℕ) → count i (order l) ≡ count i l

-- `kmem_cache_alloc`, with the object that the slab has, if it has one.
unfoldable pub aufs_inode_alloc : Option ℕ → ModuleState → Option ℕ × ModuleState
aufs_inode_alloc object s = elim object [
  | none ↦ (none, s)
  | some i ↦
      if s.aufs_inode_cache
      then (some i, record s { objects = i ∷ s.objects; held = i ∷ s.held })
      else (none, record s { faults = suc s.faults })
]

unfoldable pub aufs_free_callback : ℕ → ModuleState → ModuleState
aufs_free_callback i s =
    if s.aufs_inode_cache
    then if ltb 0 (count i s.objects)
      then record s { objects = remove i s.objects }
      else record s { faults = suc s.faults }
    else record s { faults = suc s.faults }

-- `call_rcu`; the kernel holds the inode no more.
unfoldable pub aufs_inode_free : ℕ → ModuleState → ModuleState
aufs_inode_free i s = record s { held = remove i s.held; waiting = i ∷ s.waiting }

-- The kernel runs the callback of one waiting inode.
unfoldable pub run_callback : ℕ → ModuleState → ModuleState
unfolding aufs_free_callback
run_callback i s = aufs_free_callback i (record s { waiting = remove i s.waiting })

unfoldable pub run_callbacks : List ℕ → ModuleState → ModuleState
run_callbacks [] s = s
run_callbacks (i ∷ l) s = run_callbacks l (run_callback i s)

-- The barrier returns when every waiting callback has run.
unfoldable pub rcu_barrier : Rcu → ModuleState → ModuleState
rcu_barrier rcu s = run_callbacks (rcu.order s.waiting) s

unfoldable pub kmem_cache_destroy : ModuleState → ModuleState
kmem_cache_destroy s = elim s.objects [ [] ↦ s | _ ∷ _ ↦ record s { faults = suc s.faults } ]

unfoldable pub aufs_inode_cache_create : Bool → ModuleState → Option Errno × ModuleState
aufs_inode_cache_create created s =
    if created
    then (none, record s { aufs_inode_cache = true })
    else (some enomem, record s { aufs_inode_cache = false })

unfoldable pub aufs_inode_cache_destroy : Rcu → ModuleState → ModuleState
unfolding rcu_barrier kmem_cache_destroy
aufs_inode_cache_destroy rcu s =
    let waited = rcu_barrier rcu s in
    record (kmem_cache_destroy waited) { aufs_inode_cache = false }

-- `created` is whether `kmem_cache_create` succeeds, `registers` what `register_filesystem` returns.
unfoldable pub aufs_init : Rcu → Bool → Option Errno → ModuleState → Option Errno × ModuleState
unfolding aufs_inode_cache_create aufs_inode_cache_destroy
aufs_init rcu created registers s =
    let (ret, s₁) = aufs_inode_cache_create created s in
    elim ret [
      | some e ↦ (some e, s₁)
      | none ↦ elim registers [
        | some e ↦ (some e, aufs_inode_cache_destroy rcu s₁)
        | none ↦ (none, record s₁ { registered = true })
      ]
    ]

-- `unregisters` is what `unregister_filesystem` returns.
unfoldable pub aufs_fini : Rcu → Option Errno → ModuleState → ModuleState
unfolding aufs_inode_cache_destroy
aufs_fini rcu unregisters s = elim unregisters [
  | some _ ↦ aufs_inode_cache_destroy rcu s
  | none ↦ aufs_inode_cache_destroy rcu (record s { registered = false })
]

-- As the kernel loads the module: no cache, nothing registered.
abbrev pub unloaded : ModuleState
unloaded = record {
  aufs_inode_cache = false;
  registered = false;
  objects = [];
  held = [];
  waiting = [];
  faults = 0;
}
