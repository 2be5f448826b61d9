-- ===== src/Text.antt =====
-- Texts as lists of bytes, and what the reader uses of Go's strings, strconv and fmt on them.
pub mod Numbers
pub mod Split
use Prim.Native.Char.{code}
use Prim.Native.String.{String}
use litrace.Prelude.{
  ℕ, zero, suc, ◌+◌, ◌*◌, ◌-◌, ◌/◌, ◌%◌, ◌^◌, List, [], ◌∷◌, ◌++◌, Bool, true, false, ◌==◌, ◌&&◌,
  ◌||◌, Option, none, some, leb, ltb, if◌then◌else◌,
}
use litrace.FilePath.{extend, bytes_eq}

-- The bytes of an ASCII literal.
abbrev pub codes : String → List ℕ
codes String.[] = []
codes (String.◌∷◌ c s) = code c ∷ codes s

-- strings.Split with a separator of one byte.
unfoldable pub split : ℕ → List ℕ → List (List ℕ)
split sep [] = [] ∷ []
split sep (b ∷ bs) = let rest = split sep bs in if b == sep then [] ∷ rest else extend b rest

-- strings.Join with a separator of one byte.
unfoldable pub join : ℕ → List (List ℕ) → List ℕ
join sep [] = []
join sep (p ∷ []) = p
join sep (p ∷ q ∷ ps) = p ++ sep ∷ join sep (q ∷ ps)

-- strings.Contains of one byte.
unfoldable pub has_byte : ℕ → List ℕ → Bool
has_byte c [] = false
has_byte c (b ∷ bs) = (b == c) || has_byte c bs

-- strings.HasPrefix and strings.TrimPrefix together: the rest behind the prefix.
unfoldable pub cut_prefix : List ℕ → List ℕ → Option (List ℕ)
cut_prefix [] s = some s
cut_prefix (p ∷ prefix) [] = none
cut_prefix (p ∷ prefix) (b ∷ s) = let rest = cut_prefix prefix s in if p == b then rest else none

-- A digit of a base up to 16.
unfoldable pub digit : ℕ → ℕ
digit d = if ltb d 10 then 48 + d else 87 + d

-- The digits of a number before `tail`; each round writes one.
unfoldable pub digits : ℕ → ℕ → ℕ → List ℕ → List ℕ
digits base zero n tail = tail
digits base (suc fuel) n tail =
    let more = digits base fuel (n / base) (digit (n % base) ∷ tail) in
    if ltb n base then digit n ∷ tail else more

-- `%d` and `%x` of a number below 2 ^ 64.
unfoldable pub decimal : ℕ → List ℕ
decimal n = digits 10 64 n []

unfoldable pub hexadecimal : ℕ → List ℕ
hexadecimal n = digits 16 64 n []

-- `0x%x`
unfoldable pub prefixed_hex : ℕ → List ℕ
prefixed_hex n = codes "0x" ++ hexadecimal n

-- The value of a decimal digit, and of one that `%x` prints.
unfoldable pub digit_value : ℕ → Option ℕ
digit_value b = if leb 48 b && ltb b 58 then some (b - 48) else none

unfoldable pub hex_value : ℕ → Option ℕ
hex_value b =
    if leb 48 b && ltb b 58
    then some (b - 48)
    else if leb 97 b && ltb b 103
    then some (b - 87)
    else none

unfoldable pub read_digits : ℕ → (ℕ → Option ℕ) → ℕ → List ℕ → Option ℕ
read_digits base value n [] = some n
read_digits base value n (b ∷ bs) = elim (value b) [
  | none ↦ none
  | some d ↦ read_digits base value (n * base + d) bs
]

-- One digit at least.
unfoldable pub read_number : List ℕ → Option ℕ
read_number [] = none
read_number (b ∷ bs) = read_digits 10 digit_value 0 (b ∷ bs)

-- The number if it is an int, as its bit pattern.
unfoldable pub in_int : Bool → Option ℕ → Option ℕ
in_int negative none = none
in_int false (some n) = if ltb n (2 ^ 63) then some n else none
in_int true (some n) = if leb n (2 ^ 63) then some ((2 ^ 64 - n) % 2 ^ 64) else none

-- strconv.Atoi: an optional sign, then decimal digits.
unfoldable pub atoi : List ℕ → Option ℕ
atoi [] = none
atoi (b ∷ bs) =
    if b == 43
    then in_int false (read_number bs)
    else if b == 45
    then in_int true (read_number bs)
    else in_int false (read_number (b ∷ bs))
