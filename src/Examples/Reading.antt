-- ===== src/Examples/Reading.antt =====
-- Readers of the directory of `Directory`, with room for one entry or for none.
use aufs_enabled.Base.{
  ℕ, zero, suc, ◌*◌, ◌<◌, Bool, true, false, List, [], ◌∷◌, ◌++◌, ◌⊎◌, length, take, ◌≡◌, refl,
  arith,
}
use aufs_enabled.Vfs.{ok}
use aufs_enabled.Dir.{aufs_dir_size}
use aufs_enabled.Dir.Listing.Walk.{slots, IsReadable}
use aufs_enabled.Dir.Listing.Reader.{names, Reader, IsRefused}
use aufs_enabled.Dir.Listing.Complete.{readdirs, readdirs-names}
use aufs_enabled.Examples.Platform.{pages_of_4096}
use aufs_enabled.Examples.Directory.{page, dir}

abbrev Names : Type 0
Names = List (List ℕ × ℕ)

-- The entries that there is room for, and those that were taken.
abbrev put : ℕ × Names → (name : List ℕ) (ino : ℕ) → (ℕ × Names) × Bool
put (zero, out) name ino = ((0, out), false)
put (suc room, out) name ino = ((room, out ++ (name, ino) ∷ []), true)

put-takes :
    (s : ℕ × Names) (name : List ℕ) (ino : ℕ)
    → (put s name ino).1 ≡ true
    → (put s name ino).0.1 ≡ s.1 ++ (name, ino) ∷ []
put-takes (zero, out) name ino e = cc
put-takes (suc room, out) name ino e = refl

put-refuses :
    (s : ℕ × Names) (name : List ℕ) (ino : ℕ)
    → (put s name ino).1 ≡ false
    → (put s name ino).0.1 ≡ s.1
put-refuses (zero, out) name ino e = refl
put-refuses (suc room, out) name ino e = cc

abbrev limited : Reader (ℕ × Names)
limited = record { dir_emit = put; listed = λ s. s.1; takes = put-takes; refuses = put-refuses }

never_refuses : (s : Names) (name : List ℕ) (ino : ℕ) → true ≡ false → s ++ (name, ino) ∷ [] ≡ s
never_refuses s name ino e = cc

abbrev unlimited : Reader Names
unlimited = record {
  dir_emit = λ s name ino. (s ++ (name, ino) ∷ [], true);
  listed = λ s. s;
  takes = λ s name ino e. refl;
  refuses = never_refuses;
}

dir-IsReadable : IsReadable pages_of_4096 dir
dir-IsReadable = record { page = λ n. page; read = first_page; full = λ n. refl; whole = refl }
  where
    first_page : (n : ℕ) → n < 1 → dir.pages n ≡ ok page
    first_page zero h = refl
    first_page (suc n) h = absurd (omega arith)

-- Behind a reader with no room.
abbrev readers : List (ℕ × Names)
readers = (1, []) ∷ (1, []) ∷ []

readdirs-names_example :
    let (got, last, end) = readdirs limited pages_of_4096 dir (0, []) readers 0 in
    (n : ℕ) × (end ≡ aufs_dir_size * n)
    × (got ≡ names (take n (slots pages_of_4096 dir)))
    × ((n ≡ length (slots pages_of_4096 dir)) ⊎ IsRefused limited (slots pages_of_4096 dir) n last)
readdirs-names_example =
    readdirs-names limited pages_of_4096 dir dir-IsReadable (0, []) readers
      (refl, (refl, (refl, tt)))
