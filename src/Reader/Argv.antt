-- ===== src/Reader/Argv.antt =====
-- formatVarArgv of internal/format_var.go takes the bytes of an argument vector apart.
pub mod Copied
pub mod Execve
pub mod Event
use litrace.Prelude.{
  ℕ, zero, suc, ◌+◌, ◌≡◌, ◌≢◌, ◌≤◌, refl, arith, List, [], ◌∷◌, ◌++◌, Option, none, some, ◌==◌,
  if◌then◌else◌, length, take, drop, take-append_length, ap, ◌∙◌, append_assoc, Option-some,
  length-append,
}
use litrace.Reader.Strings.{c_string}

abbrev shift : Option ℕ → Option ℕ
shift none = none
shift (some i) = some (suc i)

-- bytes.IndexByte(payload, 0)
unfoldable pub index_zero : List ℕ → Option ℕ
index_zero [] = none
index_zero (b ∷ bs) = if b == 0 then some 0 else shift (index_zero bs)

-- The loop over the payload, for `rounds` rounds at most.
unfoldable pub parts_loop : ℕ → List ℕ → List (List ℕ)
parts_loop zero payload = []
parts_loop (suc rounds) [] = []
parts_loop (suc rounds) (b ∷ bs) = elim (index_zero (b ∷ bs)) [
  | none ↦ (b ∷ bs) ∷ []
  | some idx ↦ take idx (b ∷ bs) ∷ parts_loop rounds (drop (idx + 1) (b ∷ bs))
]

-- `parts`, unquoted. Each round takes a byte at least, so there are no more rounds than bytes.
unfoldable pub argv_parts : List ℕ → List (List ℕ)
argv_parts payload = parts_loop (length payload) payload

-- The bytes of a vector: each string with its terminating zero.
abbrev pub block : List (List ℕ) → List ℕ
block [] = []
block (s ∷ ss) = c_string s ++ block ss

abbrev pub ZeroFree : List ℕ → Type 0
ZeroFree [] = Unit
ZeroFree (b ∷ bs) = (b ≢ 0) × ZeroFree bs

abbrev pub AllZeroFree : List (List ℕ) → Type 0
AllZeroFree [] = Unit
AllZeroFree (s ∷ ss) = ZeroFree s × AllZeroFree ss

index_zero-c_string : (s r : List ℕ) → ZeroFree s → index_zero (s ++ 0 ∷ r) ≡ some (length s)
unfolding index_zero
index_zero-c_string [] r free = refl
index_zero-c_string (b ∷ bs) r (other, free) = ground (arith, index_zero-c_string bs r free)

drop-c_string : (s r : List ℕ) (n : ℕ) → n ≡ length s + 1 → drop n (s ++ 0 ∷ r) ≡ r
drop-c_string [] r n same = rw same refl
drop-c_string (b ∷ bs) r zero same = absurd (omega arith)
drop-c_string (b ∷ bs) r (suc n) same = drop-c_string bs r n (omega arith)

round_string :
    (s r : List ℕ) (rounds : ℕ)
    → ZeroFree s
    → parts_loop (suc rounds) (s ++ 0 ∷ r) ≡ s ∷ parts_loop rounds r
unfolding parts_loop index_zero
round_string [] r rounds free = refl
round_string (b ∷ bs) r rounds free =
    Option-some (λ xs. xs ≡ (b ∷ bs) ∷ parts_loop rounds r) _ (length (b ∷ bs)) _ _
      (index_zero-c_string (b ∷ bs) r free)
      (ap (λ xs. xs ∷ parts_loop rounds (drop (length (b ∷ bs) + 1) (b ∷ (bs ++ 0 ∷ r))))
          (take-append_length (b ∷ bs) (0 ∷ r))
        ∙ ap (λ t. (b ∷ bs) ∷ parts_loop rounds t) (drop-c_string (b ∷ bs) r _ refl))

parts_loop-block :
    (ss : List (List ℕ)) (rounds : ℕ)
    → AllZeroFree ss
    → length (block ss) ≤ rounds
    → parts_loop rounds (block ss) ≡ ss
unfolding parts_loop
parts_loop-block [] zero free enough = refl
parts_loop-block [] (suc rounds) free enough = refl
parts_loop-block (s ∷ ss) zero (one, free) enough =
    absurd (omega (arith, length-append (c_string s) (block ss), length-append s (0 ∷ [])))
parts_loop-block (s ∷ ss) (suc rounds) (one, free) enough =
    ap (parts_loop (suc rounds)) (append_assoc s (0 ∷ []) (block ss))
    ∙ round_string s (block ss) rounds one
    ∙ ap (λ t. s ∷ t)
        (parts_loop-block ss rounds free
          (omega (arith, length-append (c_string s) (block ss), length-append s (0 ∷ []))))

-- The loop of formatVarArgv takes the bytes of a vector of strings without zeroes apart into exactly
-- these strings, empty ones included.
pub argv_parts-block : (ss : List (List ℕ)) → AllZeroFree ss → argv_parts (block ss) ≡ ss
unfolding argv_parts
argv_parts-block ss free = parts_loop-block ss (length (block ss)) free (omega arith)
