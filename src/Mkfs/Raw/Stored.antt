-- ===== src/Mkfs/Raw/Stored.antt =====
-- What the kernel reads of the raw inode that `MkRootDir` has stored.
use aufs_enabled.Base.{ℕ, zero, suc, ◌+◌, ◌*◌, ◌<◌, ◌≤◌, ◌≡◌, ◌⊎◌, ◌∙◌, refl, ap, u32, u64, arith}
use aufs_enabled.Dir.{aufs_dir_size}
use aufs_enabled.Mkfs.Bits.{Bytes}
use aufs_enabled.Mkfs.Config.{Configuration}
use aufs_enabled.Mkfs.Format.{root_block}
use aufs_enabled.Mkfs.Root.{
  root_zones, root_inode, clear_zones, set_first_block, clear_all_other_zones, set_blocks_count,
  set_size, set_uid, set_gid, set_mode, set_create_time,
}
use aufs_enabled.Mkfs.Raw.{Words, disk_inode, store_cleared, store_root_inode}
use aufs_enabled.Mkfs.Raw.Fields.{
  words_at, replaced, inode_of, disk_inode_lem, words_at-store32, words_at-store64, time-store32,
}

module _ (words : Words) (swab32 swab64 : ℕ → ℕ) where
  open words use {load32, store32, load64, store64}

  cleared_words : (left i : ℕ) → (ℕ → ℕ) → ℕ → ℕ
  cleared_words zero i f = f
  cleared_words (suc left) i f = cleared_words left (suc i) (replaced words f i (u32 (swab32 0)))

  words_at-store_cleared :
      (ai left i : ℕ) (m : Bytes)
      → words_at words (store_cleared words swab32 ai left i m) ai
        ≡ cleared_words left i (words_at words m ai)
  unfolding store_cleared cleared_words
  words_at-store_cleared ai zero i m = refl
  words_at-store_cleared ai (suc left) i m =
      words_at-store_cleared ai left (suc i) (store32 (ai + 4 * i) (swab32 0) m)
      ∙ ap (cleared_words left (suc i)) (words_at-store32 words m ai i (swab32 0))

  time-store_cleared :
      (ai left i : ℕ) (m : Bytes)
      → i + left ≤ 14
      → load64 (store_cleared words swab32 ai left i m) (ai + 56) ≡ load64 m (ai + 56)
  unfolding store_cleared
  time-store_cleared ai zero i m inside = refl
  time-store_cleared ai (suc left) i m inside =
      time-store_cleared ai left (suc i) (store32 (ai + 4 * i) (swab32 0) m) (omega (arith, inside))
      ∙ time-store32 words m ai i (swab32 0) (omega (arith, inside))

  inode_of-same :
      (f g : ℕ → ℕ) (time : ℕ)
      → ((k : ℕ) → k < 14 → f k ≡ g k)
      → inode_of words f time ≡ inode_of words g time
  inode_of-same f g time same =
      let at = λ (k : ℕ) (inside : k < 14). same k inside in
      rw
        (
          at 0 (omega arith),
          at 1 (omega arith),
          at 2 (omega arith),
          at 3 (omega arith),
          at 4 (omega arith),
          at 5 (omega arith),
          at 6 (omega arith),
          at 7 (omega arith),
          at 8 (omega arith),
          at 9 (omega arith),
          at 10 (omega arith),
          at 11 (omega arith),
          at 12 (omega arith),
          at 13 (omega arith),
        )
        refl

  module _ (config : Configuration) (uid gid time ai : ℕ) where
    -- The words of the inode when all but the time is stored.
    stored_words : (ℕ → ℕ) → ℕ → ℕ
    stored_words f =
        let first = replaced words f 0 (u32 (swab32 (root_block config))) in
        let counted =
          replaced words (cleared_words 8 1 first) 9 (u32 (swab32 (root_zones config))) in
        let sized = replaced words counted 10 (u32 (swab32 (2 * aufs_dir_size))) in
        let owned =
          replaced words (replaced words sized 12 (u32 (swab32 uid))) 11 (u32 (swab32 gid)) in
        replaced words owned 13 (u32 (swab32 0x41ed))

    stored_words-root_inode :
        (m : Bytes)
        → inode_of words (stored_words (words_at words m ai)) (u64 (swab64 time))
          ≡ root_inode
              (λ x. u32 (swab32 x))
              (λ x. u64 (swab64 x))
              config
              uid
              gid
              time
              (disk_inode words m ai)
    unfolding stored_words cleared_words root_inode set_first_block clear_all_other_zones
        clear_zones set_blocks_count set_size set_uid set_gid set_mode set_create_time disk_inode
    stored_words-root_inode m = refl

    step : (j v : ℕ) {f g : ℕ → ℕ} → f ≡ g → replaced words f j (u32 v) ≡ replaced words g j (u32 v)
    step j v e = ap (λ (h : ℕ → ℕ). replaced words h j (u32 v)) e

    words_at-store_root_inode :
        (m : Bytes) (k : ℕ)
        → k < 14
        → words_at words (store_root_inode words swab32 swab64 config uid gid time ai m) ai k
          ≡ stored_words (words_at words m ai) k
    unfolding store_root_inode stored_words
    words_at-store_root_inode m k inside =
        let m₁ = store32 (ai + 4 * 0) (swab32 (root_block config)) m in
        let m₂ = store_cleared words swab32 ai 8 1 m₁ in
        let m₃ = store32 (ai + 4 * 9) (swab32 (root_zones config)) m₂ in
        let m₄ = store32 (ai + 4 * 10) (swab32 (2 * aufs_dir_size)) m₃ in
        let m₅ = store32 (ai + 4 * 12) (swab32 uid) m₄ in
        let m₆ = store32 (ai + 4 * 11) (swab32 gid) m₅ in
        let m₇ = store32 (ai + 4 * 13) (swab32 0x41ed) m₆ in
        let e₂ =
          words_at-store_cleared ai 8 1 m₁
          ∙ ap (cleared_words 8 1) (words_at-store32 words m ai 0 (swab32 (root_block config))) in
        let e₃ =
          words_at-store32 words m₂ ai 9 (swab32 (root_zones config))
          ∙ step 9 (swab32 (root_zones config)) e₂ in
        let e₄ =
          words_at-store32 words m₃ ai 10 (swab32 (2 * aufs_dir_size))
          ∙ step 10 (swab32 (2 * aufs_dir_size)) e₃ in
        let e₅ = words_at-store32 words m₄ ai 12 (swab32 uid) ∙ step 12 (swab32 uid) e₄ in
        let e₆ = words_at-store32 words m₅ ai 11 (swab32 gid) ∙ step 11 (swab32 gid) e₅ in
        let e₇ = words_at-store32 words m₆ ai 13 (swab32 0x41ed) ∙ step 13 (swab32 0x41ed) e₆ in
        words_at-store64 words m₇ ai (swab64 time) k inside ∙ ap (λ (h : ℕ → ℕ). h k) e₇

    pub disk_inode-store_root_inode :
        (m : Bytes)
        → disk_inode words (store_root_inode words swab32 swab64 config uid gid time ai m) ai
          ≡ root_inode
              (λ x. u32 (swab32 x))
              (λ x. u64 (swab64 x))
              config
              uid
              gid
              time
              (disk_inode words m ai)
    unfolding store_root_inode
    disk_inode-store_root_inode m =
        let m' = store_root_inode words swab32 swab64 config uid gid time ai m in
        let now : load64 m' (ai + 56) ≡ u64 (swab64 time) =
          words.load64-store64 _ (ai + 56) (swab64 time) in
        disk_inode_lem words m' ai
        ∙ ap (inode_of words (words_at words m' ai)) now
        ∙ inode_of-same (words_at words m' ai) (stored_words (words_at words m ai))
            (u64 (swab64 time)) (words_at-store_root_inode m)
        ∙ stored_words-root_inode m

    store_cleared-outside :
        (left i : ℕ) (m : Bytes) (a : ℕ)
        → i + left ≤ 16
        → (a < ai) ⊎ (ai + 64 ≤ a)
        → store_cleared words swab32 ai left i m a ≡ m a
    unfolding store_cleared
    store_cleared-outside zero i m a inside out = refl
    store_cleared-outside (suc left) i m a inside out =
        store_cleared-outside left (suc i) (store32 (ai + 4 * i) (swab32 0) m) a
          (omega (arith, inside)) out
        ∙ words.store32_outside m (ai + 4 * i) (swab32 0) a (omega (arith, inside, out))

    pub store_root_inode-outside :
        (m : Bytes) (a : ℕ)
        → (a < ai) ⊎ (ai + 64 ≤ a)
        → store_root_inode words swab32 swab64 config uid gid time ai m a ≡ m a
    unfolding store_root_inode
    store_root_inode-outside m a out =
        let word = λ (n : Bytes) (o v : ℕ) (inside : o + 4 ≤ 64).
          words.store32_outside n (ai + o) v a (omega (arith, inside, out)) in
        words.store64_outside _ (ai + 56) (swab64 time) a (omega (arith, out))
        ∙ word _ 52 (swab32 0x41ed) (omega arith)
        ∙ word _ 44 (swab32 gid) (omega arith)
        ∙ word _ 48 (swab32 uid) (omega arith)
        ∙ word _ 40 (swab32 (2 * aufs_dir_size)) (omega arith)
        ∙ word _ 36 (swab32 (root_zones config)) (omega arith)
        ∙ store_cleared-outside 8 1 _ a (omega arith) out
        ∙ words.store32_outside m (ai + 4 * 0) (swab32 (root_block config)) a (omega (arith, out))
