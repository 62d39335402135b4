-- ===== src/Super/Module/Balanced.antt =====
-- A slab of inodes that is used rightly, and stays so.
use aufs_enabled.Base.{
  ℕ, ◌+◌, ◌-◌, ◌≤◌, ◌<◌, List, [], ◌∷◌, ◌≡◌, inl, inr, ◌∙◌, refl, true, false, ltb, arith, ==-cases,
  Bool-cases,
}
use aufs_enabled.Super.Module.{
  ModuleState, Rcu, aufs_free_callback, aufs_inode_free, run_callback, run_callbacks, rcu_barrier,
  kmem_cache_destroy, aufs_inode_cache_destroy, unloaded,
}
use aufs_enabled.Base.{count, remove, count-remove, all_gone}

-- The cache is there, was used rightly, and each of its objects is held or waits, once.
pub record IsBalanced (s : ModuleState) : Type 0 where
  pub cached : s.aufs_inode_cache ≡ true
  pub no_faults : s.faults ≡ 0
  pub balanced : (i : ℕ) → count i s.objects ≡ count i s.held + count i s.waiting
  pub single : (i : ℕ) → count i s.objects ≤ 1

pub run_callback-IsBalanced :
    (s : ModuleState) (i : ℕ) → IsBalanced s → 0 < count i s.waiting → IsBalanced (run_callback i s)
unfolding run_callback aufs_free_callback
run_callback-IsBalanced s i ok waits =
    let there : ltb 0 (count i s.objects) ≡ true = ground (arith, ok.balanced i) in
    rw (ok.cached, there)
      (record {
        cached = refl;
        no_faults = ok.no_faults;
        balanced = λ j.
            rw (count-remove j i s.objects, count-remove j i s.waiting, ok.balanced j)
              (elim (==-cases j i) [
                | inl (t, e) ↦ rw (t, e) (omega (arith, waits))
                | inr (t, ne) ↦ rw t (omega arith)
              ]);
        single = λ j. rw (count-remove j i s.objects) (omega (arith, ok.single j));
      })

pub run_callback-same :
    (i : ℕ) (s : ModuleState)
    → ((run_callback i s).held ≡ s.held)
      × ((run_callback i s).registered ≡ s.registered)
      × ((run_callback i s).waiting ≡ remove i s.waiting)
unfolding run_callback aufs_free_callback
run_callback-same i s = elim (Bool-cases s.aufs_inode_cache) [
  | inl c ↦ elim (Bool-cases (ltb 0 (count i s.objects))) [
    | inl t ↦ rw (c, t) (refl, refl, refl)
    | inr t ↦ rw (c, t) (refl, refl, refl)
  ]
  | inr c ↦ rw c (refl, refl, refl)
]

-- Callbacks of waiting inodes: what is left, and that nothing else changes.
run_callbacks-IsBalanced :
    (l : List ℕ) (s : ModuleState)
    → IsBalanced s
    → ((i : ℕ) → count i l ≤ count i s.waiting)
    → IsBalanced (run_callbacks l s)
      × ((run_callbacks l s).held ≡ s.held)
      × ((run_callbacks l s).registered ≡ s.registered)
      × ((i : ℕ) → count i (run_callbacks l s).waiting ≡ count i s.waiting - count i l)
unfolding run_callbacks count
run_callbacks-IsBalanced [] s ok waits = (ok, refl, refl, λ i. omega arith)
run_callbacks-IsBalanced (x ∷ l) s ok waits =
    let t = run_callback x s in
    let (h, r, w) = run_callback-same x s in
    let (ok', held, registered, left) =
      run_callbacks-IsBalanced l t (run_callback-IsBalanced s x ok (ground (arith, waits x)))
        (λ i. rw (w, count-remove i x s.waiting) (ground (arith, waits i))) in
    (ok', held ∙ h, registered ∙ r, λ i. left i ∙ rw (w, count-remove i x s.waiting) (ground arith))

pub alloc-IsBalanced :
    (s : ModuleState) (i : ℕ)
    → count i s.objects ≡ 0
    → IsBalanced s
    → IsBalanced (record s { objects = i ∷ s.objects; held = i ∷ s.held })
unfolding count
alloc-IsBalanced s i fresh ok = record {
  cached = ok.cached;
  no_faults = ok.no_faults;
  balanced = λ j. ground (arith, ok.balanced j);
  single = λ j. elim (==-cases j i) [
    | inl (t, e) ↦
        let none_yet : count j s.objects ≡ 0 = rw e fresh in rw (t, none_yet) (omega arith)
    | inr (t, ne) ↦ rw t (ok.single j)
  ];
}

pub free-IsBalanced :
    (s : ModuleState) (i : ℕ) → 0 < count i s.held → IsBalanced s → IsBalanced (aufs_inode_free i s)
unfolding count aufs_inode_free
free-IsBalanced s i is_held ok = record {
  cached = ok.cached;
  no_faults = ok.no_faults;
  balanced = λ j.
      rw (count-remove j i s.held, ok.balanced j)
        (elim (==-cases j i) [
          | inl (t, e) ↦
              let same : count j s.held ≡ count i s.held = rw e refl in
              rw t (omega (arith, same, is_held))
          | inr (t, ne) ↦ rw t (omega arith)
        ]);
  single = ok.single;
}

pub created-IsBalanced : IsBalanced (record unloaded { aufs_inode_cache = true })
unfolding count
created-IsBalanced = record {
  cached = refl;
  no_faults = refl;
  balanced = λ i. omega arith;
  single = λ i. omega arith;
}

pub registered-IsBalanced :
    IsBalanced (record unloaded { aufs_inode_cache = true; registered = true })
unfolding count
registered-IsBalanced = record {
  cached = refl;
  no_faults = refl;
  balanced = λ i. omega arith;
  single = λ i. omega arith;
}

pub unregistered-IsBalanced :
    (s : ModuleState) → IsBalanced s → IsBalanced (record s { registered = false })
unregistered-IsBalanced s ok = record {
  cached = ok.cached;
  no_faults = ok.no_faults;
  balanced = ok.balanced;
  single = ok.single;
}

module _ (rcu : Rcu) where
  pub aufs_inode_cache_destroy-unloaded :
      (s : ModuleState)
      → IsBalanced s
      → s.held ≡ []
      → aufs_inode_cache_destroy rcu s ≡ record unloaded { registered = s.registered }
  unfolding aufs_inode_cache_destroy rcu_barrier kmem_cache_destroy count
  aufs_inode_cache_destroy-unloaded s ok unheld =
      let (ok', held, registered, left) =
        run_callbacks-IsBalanced (rcu.order s.waiting) s ok
          (λ i. rw (rcu.order_lem i s.waiting) (omega arith)) in
      let w = run_callbacks (rcu.order s.waiting) s in
      let none_waiting =
        all_gone w.waiting (λ i. left i ∙ rw (rcu.order_lem i s.waiting) (omega arith)) in
      let none_left =
        all_gone w.objects (λ i. ok'.balanced i ∙ rw (none_waiting, held, unheld) refl) in
      rw (none_left, none_waiting, registered, ok'.no_faults, held ∙ unheld) refl
