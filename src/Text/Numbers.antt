-- ===== src/Text/Numbers.antt =====
-- Numbers that fmt prints are read back by strconv.Atoi.
use litrace.Prelude.{
  ℕ, zero, suc, ◌≡◌, ◌<◌, ◌≤◌, ◌+◌, ◌*◌, ◌/◌, ◌%◌, ◌^◌, refl, sym, ◌∙◌, ap, arith, List, [], ◌∷◌,
  false, Option, some, ltb, inl, inr, Bool-cases, if_true, if_false, ltb→lt, lt→ltb,
}
use mathlib.Core.Path.{subst}
use litrace.Text.{
  digit, digits, decimal, digit_value, hex_value, hexadecimal, read_digits, read_number, in_int,
  atoi, has_byte,
}

digit_value-digit : (d : ℕ) → d < 10 → digit_value (digit d) ≡ some d
unfolding digit_value digit
digit_value-digit d lt = ground arith

hex_value-digit : (d : ℕ) → d < 16 → hex_value (digit d) ≡ some d
unfolding hex_value digit
hex_value-digit d lt = ground arith

abbrev Digit : ℕ → Type 0
Digit b = (48 ≤ b) × (b < 58)

digit-Digit : (d : ℕ) → d < 10 → Digit (digit d)
unfolding digit
digit-Digit d lt = ground arith

-- A base with its digits, and what division by it does.
record IsBase (base : ℕ) (value : ℕ → Option ℕ) : Type 0 where
  pub value-digit : (d : ℕ) → d < base → value (digit d) ≡ some d
  pub small : (n : ℕ) → n % base < base
  pub whole : (n : ℕ) → n / base * base + n % base ≡ n
  pub fewer : (n fuel : ℕ) → n < base ^ suc (suc fuel) → n / base < base ^ suc fuel
  pub one : (n : ℕ) → n < base ^ 1 → n < base

ten : IsBase 10 digit_value
ten = record {
  value-digit = digit_value-digit;
  small = λ n. omega arith;
  whole = λ n. omega arith;
  fewer = λ n fuel lt. omega arith;
  one = λ n lt. omega arith;
}

sixteen : IsBase 16 hex_value
sixteen = record {
  value-digit = hex_value-digit;
  small = λ n. omega arith;
  whole = λ n. omega arith;
  fewer = λ n fuel lt. omega arith;
  one = λ n lt. omega arith;
}

module _ (base : ℕ) (value : ℕ → Option ℕ) (k : IsBase base value) where
  read_digits-digit :
      (m d : ℕ) (tail : List ℕ)
      → d < base
      → read_digits base value m (digit d ∷ tail) ≡ read_digits base value (m * base + d) tail
  unfolding read_digits
  read_digits-digit m d tail lt = ground (arith, k.value-digit d lt)

  read_digits-digits :
      (fuel n : ℕ) (tail : List ℕ)
      → n < base ^ suc fuel
      → read_digits base value 0 (digits base (suc fuel) n tail) ≡ read_digits base value n tail
  unfolding digits
  read_digits-digits zero n tail lt =
      ap (read_digits base value 0) (if_true (ltb n base) _ _ (lt→ltb n base (k.one n lt)))
      ∙ read_digits-digit 0 n tail (k.one n lt)
      ∙ ap (λ m. read_digits base value m tail) (omega arith)
  read_digits-digits (suc fuel) n tail lt = elim (Bool-cases (ltb n base)) [
    | inl last ↦
        ap (read_digits base value 0) (if_true (ltb n base) _ _ last)
        ∙ read_digits-digit 0 n tail (ltb→lt n base last)
        ∙ ap (λ m. read_digits base value m tail) (omega arith)
    | inr more ↦
        ap (read_digits base value 0) (if_false (ltb n base) _ _ more)
        ∙ read_digits-digits fuel (n / base) (digit (n % base) ∷ tail) (k.fewer n fuel lt)
        ∙ read_digits-digit (n / base) (n % base) tail (k.small n)
        ∙ ap (λ m. read_digits base value m tail) (k.whole n)
  ]

-- It starts with a digit, so neither with a sign nor is it empty.
unfoldable pub Starts : List ℕ → Type 0
Starts ds = (b : ℕ) × ((bs : List ℕ) × ((ds ≡ b ∷ bs) × Digit b))

digits-Starts : (fuel n : ℕ) (tail : List ℕ) → Starts tail → Starts (digits 10 fuel n tail)
unfolding digits Starts
digits-Starts zero n tail starts = starts
digits-Starts (suc fuel) n tail starts = elim (Bool-cases (ltb n 10)) [
  | inl last ↦ (digit n, (tail, (ground arith, digit-Digit n (ground arith))))
  | inr more ↦ subst Starts (sym (ground arith)) (
      digits-Starts fuel (n / 10) (digit (n % 10) ∷ tail)
        (digit (n % 10), (tail, (refl, digit-Digit (n % 10) (omega arith)))))
]

pub decimal-Starts : (n : ℕ) → Starts (decimal n)
unfolding digits decimal Starts
decimal-Starts n = elim (Bool-cases (ltb n 10)) [
  | inl last ↦ (digit n, ([], (ground arith, digit-Digit n (ground arith))))
  | inr more ↦ subst Starts (sym (ground arith)) (
      digits-Starts 63 (n / 10) (digit (n % 10) ∷ [])
        (digit (n % 10), ([], (refl, digit-Digit (n % 10) (omega arith)))))
]

read_digits-decimal : (n : ℕ) → n < 2 ^ 63 → read_digits 10 digit_value 0 (decimal n) ≡ some n
unfolding decimal read_digits
read_digits-decimal n lt = read_digits-digits 10 digit_value ten 63 n [] (omega arith)

-- A number below 2 ^ 63 that is printed in decimal is read back.
pub atoi-decimal : (n : ℕ) → n < 2 ^ 63 → atoi (decimal n) ≡ some n
unfolding atoi read_number in_int Starts
atoi-decimal n lt =
    let (b, (bs, (same, d))) = decimal-Starts n in
    let value : read_digits 10 digit_value 0 (b ∷ bs) ≡ some n =
      ap (read_digits 10 digit_value 0) (sym same) ∙ read_digits-decimal n lt in
    ap atoi same ∙ ground arith

digits-plain :
    (fuel n : ℕ) (tail : List ℕ)
    → has_byte 44 tail ≡ false
    → has_byte 44 (digits 10 fuel n tail) ≡ false
unfolding digits has_byte digit
digits-plain zero n tail plain = plain
digits-plain (suc fuel) n tail plain =
    let deeper = digits-plain fuel (n / 10) (digit (n % 10) ∷ tail) (ground arith) in ground arith

pub decimal-plain : (n : ℕ) → has_byte 44 (decimal n) ≡ false
unfolding decimal has_byte
decimal-plain n = digits-plain 64 n [] refl

-- A number below 2 ^ 64 that is printed in hexadecimal is read back.
pub read_digits-hexadecimal :
    (n : ℕ) → n < 2 ^ 64 → read_digits 16 hex_value 0 (hexadecimal n) ≡ some n
unfolding hexadecimal read_digits
read_digits-hexadecimal n lt = read_digits-digits 16 hex_value sixteen 63 n [] (omega arith)

digits-no_bar :
    (fuel n : ℕ) (tail : List ℕ)
    → has_byte 124 tail ≡ false
    → has_byte 124 (digits 16 fuel n tail) ≡ false
unfolding digits has_byte digit
digits-no_bar zero n tail plain = plain
digits-no_bar (suc fuel) n tail plain =
    let deeper = digits-no_bar fuel (n / 16) (digit (n % 16) ∷ tail) (ground arith) in ground arith

pub hexadecimal-plain : (n : ℕ) → has_byte 124 (hexadecimal n) ≡ false
unfolding hexadecimal has_byte
hexadecimal-plain n = digits-no_bar 64 n [] refl

eight : IsBase 8 digit_value
eight = record {
  value-digit = λ d lt. digit_value-digit d (omega arith);
  small = λ n. omega arith;
  whole = λ n. omega arith;
  fewer = λ n fuel lt. omega arith;
  one = λ n lt. omega arith;
}

-- A number below 2 ^ 64 that is printed in octal is read back.
pub read_digits-octal :
    (n : ℕ) → n < 2 ^ 64 → read_digits 8 digit_value 0 (digits 8 64 n []) ≡ some n
unfolding read_digits
read_digits-octal n lt = read_digits-digits 8 digit_value eight 63 n [] (omega arith)
