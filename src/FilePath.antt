-- ===== src/FilePath.antt =====
-- What internal/path_filter.go uses of Go's path/filepath on Linux, on the bytes of a path: IsAbs,
-- Clean (purely lexical) and Join of two elements.
use litrace.Prelude.{ℕ, List, [], ◌∷◌, ◌++◌, Bool, true, false, ◌==◌, ◌&&◌, if◌then◌else◌}

-- The separator, and a dot.
abbrev pub slash : ℕ
slash = 47

abbrev pub dot : ℕ
dot = 46

-- `a == b` on strings.
unfoldable pub bytes_eq : List ℕ → List ℕ → Bool
bytes_eq [] [] = true
bytes_eq [] (_ ∷ _) = false
bytes_eq (_ ∷ _) [] = false
bytes_eq (a ∷ as_) (b ∷ bs) = (a == b) && bytes_eq as_ bs

unfoldable pub is_abs : List ℕ → Bool
is_abs [] = false
is_abs (b ∷ _) = b == slash

abbrev pub extend : ℕ → List (List ℕ) → List (List ℕ)
extend b [] = (b ∷ []) ∷ []
extend b (c ∷ cs) = (b ∷ c) ∷ cs

-- The elements between the separators, empty ones included.
unfoldable pub elements : List ℕ → List (List ℕ)
elements [] = [] ∷ []
elements (b ∷ bs) = let rest = elements bs in if b == slash then [] ∷ rest else extend b rest

abbrev pub is_dot : List ℕ → Bool
is_dot e = bytes_eq e (dot ∷ [])

abbrev pub is_dotdot : List ℕ → Bool
is_dotdot e = bytes_eq e (dot ∷ dot ∷ [])

-- A "..": the last element goes, unless it is a ".." itself; at the root nothing happens.
unfoldable pub up : Bool → List (List ℕ) → List (List ℕ)
up rooted [] = if rooted then [] else (dot ∷ dot ∷ []) ∷ []
up rooted (e ∷ kept) =
    if is_dotdot e then (if rooted then e ∷ kept else (dot ∷ dot ∷ []) ∷ e ∷ kept) else kept

-- One element, with the elements kept so far, last one first.
unfoldable pub take_element : Bool → List (List ℕ) → List ℕ → List (List ℕ)
take_element rooted kept [] = kept
take_element rooted kept (b ∷ bs) =
    if is_dot (b ∷ bs) then kept else if is_dotdot (b ∷ bs) then up rooted kept else (b ∷ bs) ∷ kept

unfoldable pub clean_loop : Bool → List (List ℕ) → List (List ℕ) → List (List ℕ)
clean_loop rooted kept [] = kept
clean_loop rooted kept (e ∷ es) = clean_loop rooted (take_element rooted kept e) es

-- The elements, given last one first, with separators between them.
unfoldable pub join_reversed : List (List ℕ) → List ℕ → List ℕ
join_reversed [] tail = tail
join_reversed (e ∷ []) tail = e ++ tail
join_reversed (e ∷ d ∷ es) tail = join_reversed (d ∷ es) (slash ∷ (e ++ tail))

unfoldable pub render : Bool → List (List ℕ) → List ℕ
render true kept = slash ∷ join_reversed kept []
render false [] = dot ∷ []
render false (e ∷ es) = join_reversed (e ∷ es) []

unfoldable pub clean : List ℕ → List ℕ
clean path = render (is_abs path) (clean_loop (is_abs path) [] (elements path))

-- filepath.Join of two elements.
unfoldable pub join : List ℕ → List ℕ → List ℕ
join [] [] = []
join [] (p ∷ path) = clean (p ∷ path)
join (b ∷ base) path = clean ((b ∷ base) ++ slash ∷ path)
