-- ===== src/Cli/Values.antt =====
-- Results without their errors, and readings of a list that fail as a whole.
use litrace.Prelude.{ℕ, ◌≡◌, refl, sym, ◌∙◌, ap, List, [], ◌∷◌, ◌++◌, Option, none, some}
use litrace.Text.{split}
use litrace.Cli.{Result, ok, err, and_then, comma}

unfoldable pub value_of : {A : Type 0} → Result A → Option A
value_of (ok a) = some a
value_of (err e) = none

abbrev pub bind : {A B : Type 0} → Option A → (A → Option B) → Option B
bind none f = none
bind (some a) f = f a

-- Every element is read, or none.
unfoldable pub read_all : {A B : Type 0} → (A → Option B) → List A → Option (List B)
read_all f [] = some []
read_all f (x ∷ xs) = bind (f x) λ y. bind (read_all f xs) λ ys. some (y ∷ ys)

-- The parts of all the texts.
unfoldable pub parts_of : List (List ℕ) → List (List ℕ)
parts_of [] = []
parts_of (s ∷ ss) = split comma s ++ parts_of ss

pub value_of-and_then :
    {A B : Type 0} (r : Result A) (f : A → Result B)
    → value_of (and_then r f) ≡ bind (value_of r) (λ a. value_of (f a))
unfolding value_of
value_of-and_then (ok a) f = refl
value_of-and_then (err e) f = refl

-- A loop over a list, of which each round reads one element and goes on with `step`.
unfoldable pub fold : {A B : Type 0} → (B → A → A) → List B → A → A
fold step [] a = a
fold step (x ∷ xs) a = fold step xs (step x a)

read_all_step :
    {B : Type 0} (o : Option B) (r t : Option (List B))
    → bind o (λ y. bind (bind r (λ a. bind t (λ b. some (a ++ b)))) (λ l. some (y ∷ l)))
      ≡ bind (bind o (λ y. bind r (λ l. some (y ∷ l)))) (λ a. bind t (λ b. some (a ++ b)))
read_all_step none r t = refl
read_all_step (some y) none t = refl
read_all_step (some y) (some a) none = refl
read_all_step (some y) (some a) (some b) = refl

pub bind_assoc :
    {A B C : Type 0} (o : Option A) (f : A → Option B) (g : B → Option C)
    → bind (bind o f) g ≡ bind o (λ a. bind (f a) g)
bind_assoc none f g = refl
bind_assoc (some a) f g = refl

bind-some : {A : Type 0} (o : Option A) → bind o some ≡ o
bind-some none = refl
bind-some (some a) = refl

pub read_all-append :
    {A B : Type 0} (f : A → Option B) (xs ys : List A)
    → read_all f (xs ++ ys) ≡ bind (read_all f xs) (λ a. bind (read_all f ys) (λ b. some (a ++ b)))
unfolding read_all
read_all-append f [] ys = sym (bind-some (read_all f ys))
read_all-append f (x ∷ xs) ys =
    ap (λ r. bind (f x) (λ y. bind r (λ l. some (y ∷ l)))) (read_all-append f xs ys)
    ∙ read_all_step (f x) (read_all f xs) (read_all f ys)

-- A loop that reads an element and goes on with what `step` makes of it.
pub read_then_fold :
    {B C : Type 0} (o : Option B) (step : B → C → C) (xs : Option (List B)) (s : C)
    → bind (bind o (λ y. some (step y s))) (λ t. bind xs (λ ys. some (fold step ys t)))
      ≡ bind (bind o (λ y. bind xs (λ ys. some (y ∷ ys)))) (λ ys. some (fold step ys s))
unfolding fold
read_then_fold none step xs s = refl
read_then_fold (some y) step none s = refl
read_then_fold (some y) step (some ys) s = refl

fold-append :
    {B C : Type 0} (step : B → C → C) (xs ys : List B) (s : C)
    → fold step (xs ++ ys) s ≡ fold step ys (fold step xs s)
unfolding fold
fold-append step [] ys s = refl
fold-append step (x ∷ xs) ys s = fold-append step xs ys (step x s)

-- One list after the other.
pub fold_then_fold :
    {B C : Type 0} (step : B → C → C) (xs ys : Option (List B)) (s : C)
    → bind (bind xs (λ a. some (fold step a s))) (λ t. bind ys (λ b. some (fold step b t)))
      ≡ bind (bind xs (λ a. bind ys (λ b. some (a ++ b)))) (λ l. some (fold step l s))
fold_then_fold step none ys s = refl
fold_then_fold step (some a) none s = refl
fold_then_fold step (some a) (some b) s = ap some (sym (fold-append step a b s))
