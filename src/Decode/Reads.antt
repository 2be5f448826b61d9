-- ===== src/Decode/Reads.antt =====
-- What a reader gives on the bytes of a value.
use litrace.Prelude.{
  ℕ, zero, suc, ◌/◌, ◌≡◌, refl, sym, ◌∙◌, ap, arith, List, [], ◌∷◌, ◌++◌, some, length,
}
use litrace.Types.{VarArgDesc}
use litrace.Decode.{
  little_endian, array, fields, desc_bytes, M, ◌>>=◌, continue_with, return, read_uint, read_array,
  read_desc,
}

-- The reader takes these bytes, whatever follows, and gives this value.
pub record Reads {ℓ} {A : Type ℓ} (m : M A) (bytes : List ℕ) (x : A) : Type ℓ where
  pub run : (rest : List ℕ) → m (bytes ++ rest) ≡ some (x, rest)

pub append_assoc : (xs ys zs : List ℕ) → (xs ++ ys) ++ zs ≡ xs ++ (ys ++ zs)
append_assoc [] ys zs = refl
append_assoc (x ∷ xs) ys zs = ap (λ l. x ∷ l) (append_assoc xs ys zs)

pub >>=-Reads {ℓ κ} :
    {A : Type ℓ} {B : Type κ} {m : M A} {b c : List ℕ} {x : A} {y : B} (f : A → M B)
    → Reads m b x
    → Reads (f x) c y
    → Reads (m >>= f) (b ++ c) y
unfolding ◌>>=◌ continue_with
>>=-Reads {m = m} {b = b} {c = c} {x = x} f first second = record {
  run = λ rest.
      ap (m >>= f) (append_assoc b c rest)
      ∙ ap (continue_with f) (first.run (c ++ rest))
      ∙ second.run rest;
}

pub map-Reads {ℓ κ} :
    {A : Type ℓ} {B : Type κ} {m : M A} {b : List ℕ} {x : A} (g : A → B)
    → Reads m b x
    → Reads (m >>= λ y. return (g y)) b (g x)
unfolding ◌>>=◌ continue_with return
map-Reads {m = m} {b = b} {x = x} g first = record {
  run = λ rest. ap (continue_with (λ y. return (g y))) (first.run rest);
}

pub return-Reads {ℓ} : {A : Type ℓ} (x : A) → Reads (return x) [] x
unfolding return
return-Reads x = record { run = λ rest. refl }

-- The number has at most `w` bytes.
unfoldable pub Fits : ℕ → ℕ → Type 0
Fits zero x = x ≡ 0
Fits (suc w) x = Fits w (x / 256)

read_uint-run :
    (w x : ℕ) (rest : List ℕ) → Fits w x → read_uint w (little_endian w x ++ rest) ≡ some (x, rest)
unfolding read_uint little_endian Fits
read_uint-run zero x rest fits = ap (λ y. some (y, rest)) (sym fits)
read_uint-run (suc w) x rest fits =
    let later = read_uint-run w (x / 256) rest fits in
    rw later (ap (λ y. some (y, rest)) (omega arith))

pub read_uint-Reads : (w x : ℕ) → Fits w x → Reads (read_uint w) (little_endian w x) x
read_uint-Reads w x fits = record { run = λ rest. read_uint-run w x rest fits }

-- Each element can be read.
unfoldable pub All {ℓ} : {A : Type ℓ} → (A → Type 0) → List A → Type 0
All P [] = Unit
All P (x ∷ xs) = P x × All P xs

pub read_array-Reads {ℓ} :
    {A : Type ℓ} (bytes : A → List ℕ) (m : M A) (P : A → Type 0)
    → ((x : A) → P x → Reads m (bytes x) x)
    → (xs : List A) → All P xs
    → Reads (read_array (length xs) m) (array bytes xs) xs
unfolding read_array array All
read_array-Reads bytes m P one [] all_ = return-Reads []
read_array-Reads bytes m P one (x ∷ xs) (here, later) =
    >>=-Reads _ (one x here) (map-Reads (λ ys. x ∷ ys) (read_array-Reads bytes m P one xs later))

-- The fields of a descriptor have one or two bytes each.
pub record InDesc (d : VarArgDesc) : Type 0 where
  pub arg_index : Fits 1 d.arg_index
  pub flags : Fits 1 d.flags
  pub offset : Fits 2 d.offset
  pub length : Fits 2 d.length
  pub reserved : Fits 2 d.reserved

pub read_desc-Reads : (d : VarArgDesc) → InDesc d → Reads read_desc (desc_bytes d) d
unfolding read_desc desc_bytes fields
read_desc-Reads d i = >>=-Reads _ (read_uint-Reads 1 d.arg_index i.arg_index) (
    >>=-Reads _ (read_uint-Reads 1 d.flags i.flags) (
      >>=-Reads _ (read_uint-Reads 2 d.offset i.offset) (
        >>=-Reads _ (read_uint-Reads 2 d.length i.length)
          (>>=-Reads _ (read_uint-Reads 2 d.reserved i.reserved) (return-Reads _)))))
