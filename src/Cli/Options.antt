-- ===== src/Cli/Options.antt =====
-- Options that are printed: texts joined by commas.
use litrace.Prelude.{ℕ, ◌≡◌, refl, ◌∙◌, ap, List, [], ◌∷◌, ◌++◌, Option, some, false}
use litrace.Text.{join, has_byte}
use litrace.Text.Split.{NoneHas, split-join}
use litrace.Decode.Reads.{All}
use litrace.Cli.{comma}
use litrace.Cli.Values.{bind, read_all, parts_of, read_all-append}

-- The numbers of all groups, each given by its first and the others.
unfoldable pub listed : List (ℕ × List ℕ) → List ℕ
listed [] = []
listed ((x, xs) ∷ groups) = (x ∷ xs) ++ listed groups

module _ (text : ℕ → List ℕ) where
  unfoldable pub texts : List ℕ → List (List ℕ)
  texts [] = []
  texts (x ∷ xs) = text x ∷ texts xs

  -- One option for each group.
  unfoldable pub options : List (ℕ × List ℕ) → List (List ℕ)
  options [] = []
  options ((x, xs) ∷ groups) = join comma (texts (x ∷ xs)) ∷ options groups

  module _ (read : List ℕ → Option ℕ) where
    -- The text has no comma in it, and is read back.
    abbrev pub Reads : ℕ → Type 0
    Reads x = (has_byte comma (text x) ≡ false) × (read (text x) ≡ some x)

    texts-NoneHas : (xs : List ℕ) → All Reads xs → NoneHas comma (texts xs)
    unfolding texts NoneHas All
    texts-NoneHas [] h = tt
    texts-NoneHas (x ∷ xs) ((plain, same), later) = (plain, texts-NoneHas xs later)

    read_all-texts : (xs : List ℕ) → All Reads xs → read_all read (texts xs) ≡ some xs
    unfolding read_all texts All
    read_all-texts [] h = refl
    read_all-texts (x ∷ xs) ((plain, same), later) =
        ap (λ o. bind o (λ y. bind (read_all read (texts xs)) (λ ys. some (y ∷ ys)))) same
        ∙ ap (λ o. bind o (λ ys. some (x ∷ ys))) (read_all-texts xs later)

    All-append : (xs ys : List ℕ) → All Reads (xs ++ ys) → All Reads xs × All Reads ys
    unfolding All
    All-append [] ys h = (tt, h)
    All-append (x ∷ xs) ys (here, later) =
        let (front, back) = All-append xs ys later in ((here, front), back)

    pub read_all-options :
        (groups : List (ℕ × List ℕ))
        → All Reads (listed groups)
        → read_all read (parts_of (options groups)) ≡ some (listed groups)
    unfolding read_all parts_of options listed texts
    read_all-options [] h = refl
    read_all-options ((x, xs) ∷ groups) h =
        let g = x ∷ xs in
        let (front, back) = All-append g (listed groups) h in
        let later = parts_of (options groups) in
        ap (λ ps. read_all read (ps ++ later))
          (split-join comma (text x) (texts xs) (texts-NoneHas g front))
        ∙ read_all-append read (texts g) later
        ∙ ap (λ o. bind o (λ a. bind (read_all read later) (λ b. some (a ++ b))))
            (read_all-texts g front)
        ∙ ap (λ o. bind o (λ b. some (g ++ b))) (read_all-options groups back)
