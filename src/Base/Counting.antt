-- ===== src/Base/Counting.antt =====
-- How often a number is in a list.
use Prim.Native.Nat.{ℕ, suc, ◌+◌, ◌-◌}
use mathlib.Core.Path.{◌≡◌, refl, sym, ◌∙◌}
use mathlib.Core.Logic.{inl, inr}
use mathlib.Core.Bool.{true, false}
use mathlib.Core.List.{List, [], ◌∷◌, ◌++◌}
use native.Mathlib.Omega.{arith}
use aufs_enabled.Base.Tests.{if◌then◌else◌, ◌==◌, ==_iff, ==-cases}

-- How often `i` is in the list.
unfoldable pub count : ℕ → List ℕ → ℕ
count i [] = 0
count i (x ∷ xs) = let rest = count i xs in if i == x then suc rest else rest

-- The list without one `i`.
unfoldable pub remove : ℕ → List ℕ → List ℕ
remove i [] = []
remove i (x ∷ xs) = let rest = remove i xs in if i == x then xs else x ∷ rest

pub count-∷ :
    (i x : ℕ) (xs : List ℕ) → count i (x ∷ xs) ≡ (if i == x then suc (count i xs) else count i xs)
unfolding count
count-∷ i x xs = refl

pub count-remove :
    (i j : ℕ) (xs : List ℕ) → count i (remove j xs) ≡ count i xs - (if i == j then 1 else 0)
unfolding count remove
count-remove i j [] = ground arith
count-remove i j (x ∷ xs) =
    let ih = count-remove i j xs in
    elim (==-cases j x) [
      | inl (t, e) ↦ rw t (elim (==-cases i x) [
        | inl (t', e') ↦ rw (t', (==_iff i j).1 (e' ∙ sym e)) (omega arith)
        | inr (t', ne) ↦
            let other : (i == j) ≡ false = ground (arith, ne, e) in rw (t', other) (omega arith)
      ])
      | inr (t, ne) ↦ rw t (elim (==-cases i x) [
        | inl (t', e') ↦
            let other : (i == j) ≡ false = ground (arith, ne, e') in
            rw (t', ih, other) (omega arith)
        | inr (t', ne') ↦ rw (t', ih) refl
      ])
    ]

pub all_gone : (xs : List ℕ) → ((i : ℕ) → count i xs ≡ 0) → xs ≡ []
unfolding count
all_gone [] none_left = refl
all_gone (x ∷ xs) none_left =
    let one = none_left x in
    let same : (x == x) ≡ true = (==_iff x x).1 refl in
    let bad : suc (count x xs) ≡ 0 = sym (rw same refl) ∙ sym (count-∷ x x xs) ∙ one in
    absurd (omega (arith, bad))

pub count-++ : (i : ℕ) (xs ys : List ℕ) → count i (xs ++ ys) ≡ count i xs + count i ys
unfolding count
count-++ i [] ys = omega arith
count-++ i (x ∷ xs) ys = ground (arith, count-++ i xs ys)
