-- ===== src/Names/Distinct.antt =====
-- The names and the numbers of internal/syscalls/x86_64.go stand for each other.
use litrace.Prelude.{
  ℕ, ◌<◌, ◌^◌, ltb, ◌≡◌, refl, arith, List, [], ◌∷◌, Bool, true, false, ◌==◌, ◌&&◌, ◌||◌, not, none,
  some, Option-cases, inl, inr, ◌↔◌,
}
use litrace.FilePath.{bytes_eq}
use litrace.PathFilter.{is_empty}
use litrace.Text.{has_byte}
use litrace.Names.Part1.{entries_1}
use litrace.Names.Part2.{entries_2}
use litrace.Names.Part3.{entries_3}
use litrace.Names.{Entry, entries, id_to_name, name_to_id, syscall_id_of}

has_id : ℕ → List Entry → Bool
has_id id [] = false
has_id id (e ∷ es) = (e.id == id) || has_id id es

has_name : List ℕ → List Entry → Bool
has_name name [] = false
has_name name (e ∷ es) = bytes_eq e.name name || has_name name es

-- No number and no name stands twice.
distinct : List Entry → Bool
distinct [] = true
distinct (e ∷ es) = not (has_id e.id es) && not (has_name e.name es) && distinct es

entries-distinct : distinct entries ≡ true
unfolding distinct has_id has_name bytes_eq entries entries_1 entries_2 entries_3
entries-distinct = refl

pub bytes_eq_sound : (a b : List ℕ) → bytes_eq a b ≡ true → a ≡ b
unfolding bytes_eq
bytes_eq_sound [] [] h = refl
bytes_eq_sound [] (y ∷ ys) h = cc
bytes_eq_sound (x ∷ xs) [] h = cc
bytes_eq_sound (x ∷ xs) (y ∷ ys) h = ground (arith, bytes_eq_sound xs ys)

bytes_eq_refl : (a : List ℕ) → bytes_eq a a ≡ true
unfolding bytes_eq
bytes_eq_refl [] = refl
bytes_eq_refl (x ∷ xs) = ground (arith, bytes_eq_refl xs)

name_to_id-absent :
    (es : List Entry) (name : List ℕ) → has_name name es ≡ false → name_to_id es name ≡ none
unfolding name_to_id has_name
name_to_id-absent [] name absent = refl
name_to_id-absent (e ∷ es) name absent = ground (arith, name_to_id-absent es name)

id_to_name-absent : (es : List Entry) (id : ℕ) → has_id id es ≡ false → id_to_name es id ≡ none
unfolding id_to_name has_id
id_to_name-absent [] id absent = refl
id_to_name-absent (e ∷ es) id absent = ground (arith, id_to_name-absent es id)

-- In a table without repetitions each lookup undoes the other.
id_to_name-name_to_id :
    (es : List Entry) (name : List ℕ) (id : ℕ)
    → distinct es ≡ true
    → name_to_id es name ≡ some id
    → id_to_name es id ≡ some name
unfolding id_to_name name_to_id distinct
id_to_name-name_to_id [] name id once found = cc
id_to_name-name_to_id (e ∷ es) name id once found = elim (Option-cases (name_to_id es name)) [
  | inl none_later ↦ ground (arith, bytes_eq_sound e.name name, id_to_name-absent es e.id)
  | inr (j, later) ↦ ground (arith, id_to_name-name_to_id es name j)
]

name_to_id-id_to_name :
    (es : List Entry) (name : List ℕ) (id : ℕ)
    → distinct es ≡ true
    → id_to_name es id ≡ some name
    → name_to_id es name ≡ some id
unfolding id_to_name name_to_id distinct
name_to_id-id_to_name [] name id once found = cc
name_to_id-id_to_name (e ∷ es) name id once found = elim (Option-cases (id_to_name es id)) [
  | inl none_later ↦ ground (arith, name_to_id-absent es e.name, bytes_eq_refl name)
  | inr (other, later) ↦ ground (arith, name_to_id-id_to_name es other id)
]

-- A name has the number `id` exactly if the number has that name: ID and the table of Name are
-- inverse to each other.
pub syscall_id_of-id_to_name :
    (name : List ℕ) (id : ℕ) → (syscall_id_of name ≡ some id) ↔ (id_to_name entries id ≡ some name)
unfolding syscall_id_of
syscall_id_of-id_to_name name id = (
  id_to_name-name_to_id entries name id entries-distinct,
  name_to_id-id_to_name entries name id entries-distinct,
)

-- No name is empty, or has a comma or an equals sign in it.
plain : List Entry → Bool
plain [] = true
plain (e ∷ es) =
    not (is_empty e.name) && not (has_byte 44 e.name) && not (has_byte 61 e.name) && plain es

entries-plain : plain entries ≡ true
unfolding plain has_byte entries entries_1 entries_2 entries_3
entries-plain = refl

bytes_eq_nil : (a : List ℕ) → bytes_eq a [] ≡ is_empty a
unfolding bytes_eq
bytes_eq_nil [] = refl
bytes_eq_nil (x ∷ xs) = refl

name_to_id-empty : (es : List Entry) → plain es ≡ true → name_to_id es [] ≡ none
unfolding name_to_id plain
name_to_id-empty [] ok_ = refl
name_to_id-empty (e ∷ es) ok_ = ground (arith, bytes_eq_nil e.name, name_to_id-empty es)

id_to_name-plain :
    (es : List Entry) (id : ℕ) (name : List ℕ)
    → plain es ≡ true
    → id_to_name es id ≡ some name
    → (has_byte 44 name ≡ false) × (has_byte 61 name ≡ false)
unfolding id_to_name plain
id_to_name-plain [] id name ok_ found = cc
id_to_name-plain (e ∷ es) id name ok_ found = elim (Option-cases (id_to_name es id)) [
  | inl none_later ↦ ground arith
  | inr (other, later) ↦ ground (arith, id_to_name-plain es id other)
]

pub syscall_id_of-empty : syscall_id_of [] ≡ none
unfolding syscall_id_of
syscall_id_of-empty = name_to_id-empty entries entries-plain

pub id_to_name-comma :
    (id : ℕ) (name : List ℕ) → id_to_name entries id ≡ some name → has_byte 44 name ≡ false
id_to_name-comma id name found = (id_to_name-plain entries id name entries-plain found).0

pub id_to_name-equals :
    (id : ℕ) (name : List ℕ) → id_to_name entries id ≡ some name → has_byte 61 name ≡ false
id_to_name-equals id name found = (id_to_name-plain entries id name entries-plain found).1

small : List Entry → Bool
small [] = true
small (e ∷ es) = ltb e.id (2 ^ 32) && small es

entries-small : small entries ≡ true
unfolding small entries entries_1 entries_2 entries_3
entries-small = refl

id_to_name-small :
    (es : List Entry) (id : ℕ) (name : List ℕ)
    → small es ≡ true
    → id_to_name es id ≡ some name
    → id < 2 ^ 32
unfolding id_to_name small
id_to_name-small [] id name ok_ found = cc
id_to_name-small (e ∷ es) id name ok_ found = elim (Option-cases (id_to_name es id)) [
  | inl none_later ↦ ground arith
  | inr (other, later) ↦ ground (arith, id_to_name-small es id other)
]

pub id_to_name-IsU32 : (id : ℕ) (name : List ℕ) → id_to_name entries id ≡ some name → id < 2 ^ 32
id_to_name-IsU32 id name found = id_to_name-small entries id name entries-small found
