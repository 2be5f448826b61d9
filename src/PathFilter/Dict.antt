-- ===== src/PathFilter/Dict.antt =====
-- Go's maps and sets on numbers, as lists, and their laws.
use litrace.Prelude.{
  ℕ, ◌≡◌, refl, arith, List, [], ◌∷◌, Bool, true, false, Option, none, some, ◌==◌, if◌then◌else◌,
}
use litrace.FilePath.{bytes_eq}

-- A set of numbers.
unfoldable pub contains : ℕ → List ℕ → Bool
contains k [] = false
contains k (j ∷ s) = if j == k then true else contains k s

unfoldable pub add : ℕ → List ℕ → List ℕ
add k [] = k ∷ []
add k (j ∷ s) = if j == k then j ∷ s else j ∷ add k s

unfoldable pub remove : ℕ → List ℕ → List ℕ
remove k [] = []
remove k (j ∷ s) = let rest = remove k s in if j == k then rest else j ∷ rest

-- A map from numbers to paths.
unfoldable pub lookup : ℕ → List (ℕ × List ℕ) → Option (List ℕ)
lookup k [] = none
lookup k ((j, v) ∷ m) = if j == k then some v else lookup k m

unfoldable pub insert : ℕ → List ℕ → List (ℕ × List ℕ) → List (ℕ × List ℕ)
insert k v [] = (k, v) ∷ []
insert k v ((j, w) ∷ m) = if j == k then (k, v) ∷ m else (j, w) ∷ insert k v m

unfoldable pub erase : ℕ → List (ℕ × List ℕ) → List (ℕ × List ℕ)
erase k [] = []
erase k ((j, w) ∷ m) = let rest = erase k m in if j == k then rest else (j, w) ∷ rest

-- A set of paths.
unfoldable pub has_path : List ℕ → List (List ℕ) → Bool
has_path p [] = false
has_path p (q ∷ s) = if bytes_eq q p then true else has_path p s

pub contains-add :
    (j k : ℕ) (s : List ℕ) → contains j (add k s) ≡ (if k == j then true else contains j s)
unfolding contains add
contains-add j k [] = refl
contains-add j k (i ∷ s) = ground (arith, contains-add j k s)

pub contains-remove :
    (j k : ℕ) (s : List ℕ) → contains j (remove k s) ≡ (if k == j then false else contains j s)
unfolding contains remove
contains-remove j k [] = ground arith
contains-remove j k (i ∷ s) = ground (arith, contains-remove j k s)

pub lookup-insert :
    (j k : ℕ) (v : List ℕ) (m : List (ℕ × List ℕ))
    → lookup j (insert k v m) ≡ (if k == j then some v else lookup j m)
unfolding lookup insert
lookup-insert j k v [] = refl
lookup-insert j k v ((i, w) ∷ m) = ground (arith, lookup-insert j k v m)

pub lookup-erase :
    (j k : ℕ) (m : List (ℕ × List ℕ)) → lookup j (erase k m) ≡ (if k == j then none else lookup j m)
unfolding lookup erase
lookup-erase j k [] = ground arith
lookup-erase j k ((i, w) ∷ m) = ground (arith, lookup-erase j k m)
