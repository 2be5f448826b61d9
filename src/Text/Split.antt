-- ===== src/Text/Split.antt =====
-- strings.Split takes apart what strings.Join puts together.
use litrace.Prelude.{ℕ, ◌≡◌, refl, sym, ◌∙◌, ap, arith, List, [], ◌∷◌, ◌++◌, false}
use litrace.FilePath.{extend}
use litrace.Text.{split, join, has_byte}

-- The first part, with more in front of it.
extend_all : List ℕ → List (List ℕ) → List (List ℕ)
extend_all [] ps = ps
extend_all (b ∷ bs) ps = extend b (extend_all bs ps)

split_plain :
    (sep : ℕ) (p s : List ℕ)
    → has_byte sep p ≡ false
    → split sep (p ++ s) ≡ extend_all p (split sep s)
unfolding split has_byte extend_all
split_plain sep [] s plain = refl
split_plain sep (b ∷ p) s plain = ground (arith, split_plain sep p s)

extend_all-cons : (p q : List ℕ) (ps : List (List ℕ)) → extend_all p (q ∷ ps) ≡ (p ++ q) ∷ ps
unfolding extend_all
extend_all-cons [] q ps = refl
extend_all-cons (b ∷ p) q ps = ap (extend b) (extend_all-cons p q ps)

append_nil : (xs : List ℕ) → xs ++ [] ≡ xs
append_nil [] = refl
append_nil (x ∷ xs) = ap (λ l. x ∷ l) (append_nil xs)

unfoldable pub NoneHas : ℕ → List (List ℕ) → Type 0
NoneHas sep [] = Unit
NoneHas sep (p ∷ ps) = (has_byte sep p ≡ false) × NoneHas sep ps

-- A text without the separator is one part, alone or in front.
pub split_one : (sep : ℕ) (p : List ℕ) → has_byte sep p ≡ false → split sep p ≡ p ∷ []
unfolding split
split_one sep p plain =
    ap (split sep) (sym (append_nil p))
    ∙ split_plain sep p [] plain
    ∙ extend_all-cons p [] []
    ∙ ap (λ q. q ∷ []) (append_nil p)

pub split-cons :
    (sep : ℕ) (p s : List ℕ) → has_byte sep p ≡ false → split sep (p ++ sep ∷ s) ≡ p ∷ split sep s
unfolding split
split-cons sep p s plain =
    split_plain sep p (sep ∷ s) plain
    ∙ ap (extend_all p) (ground arith)
    ∙ extend_all-cons p [] (split sep s)
    ∙ ap (λ r. r ∷ split sep s) (append_nil p)

pub split-join :
    (sep : ℕ) (p : List ℕ) (ps : List (List ℕ))
    → NoneHas sep (p ∷ ps)
    → split sep (join sep (p ∷ ps)) ≡ p ∷ ps
unfolding join NoneHas
split-join sep p [] (plain, rest) = split_one sep p plain
split-join sep p (q ∷ ps) (plain, rest) =
    split-cons sep p (join sep (q ∷ ps)) plain ∙ ap (λ l. p ∷ l) (split-join sep q ps rest)
