-- ===== src/Format/Parts.antt =====
-- Reading back what stands between the bars.
use Prim.Native.Nat.{bit_and-bitwise, digits}
use litrace.Prelude.{
  ℕ, zero, suc, ◌≤◌, ◌<◌, ◌^◌, ◌≡◌, ◌+◌, ◌/◌, min, ◌∙◌, ap, arith, List, [], ◌∷◌, ◌++◌, false,
  Option, none, some, if◌then◌else◌, bit_and,
}
use litrace.FilePath.{bytes_eq}
use litrace.Text.{codes, split, has_byte, cut_prefix, prefixed_hex, read_digits, hex_value}
use litrace.Text.Split.{split_one, split-cons}
use litrace.Text.Numbers.{read_digits-hexadecimal, hexadecimal-plain}
use litrace.Cli.Values.{bind, read_all}
use litrace.Format.{NamedValue, bar}

unfoldable pub find_name : List NamedValue → List ℕ → Option ℕ
find_name [] part = none
find_name (entry ∷ table) part =
    if bytes_eq entry.name part then some entry.value else find_name table part

-- A name of the table, or a number in hexadecimal.
unfoldable pub part_value : List NamedValue → List ℕ → Option ℕ
part_value table part = elim (cut_prefix (codes "0x") part) [
  | some number ↦ read_digits 16 hex_value 0 number
  | none ↦ find_name table part
]

unfoldable pub total : List ℕ → ℕ
total [] = 0
total (v ∷ vs) = v + total vs

-- The sum of the parts of a text.
unfoldable pub text_value : List NamedValue → List ℕ → Option ℕ
text_value table text =
    bind (read_all (part_value table) (split bar text)) λ values. some (total values)

pub part_value-prefixed_hex :
    (table : List NamedValue) (n : ℕ) → n < 2 ^ 64 → part_value table (prefixed_hex n) ≡ some n
unfolding part_value prefixed_hex cut_prefix
part_value-prefixed_hex table n lt = read_digits-hexadecimal n lt

pub prefixed_hex-plain : (n : ℕ) → has_byte bar (prefixed_hex n) ≡ false
unfolding prefixed_hex has_byte
prefixed_hex-plain n = hexadecimal-plain n

digits_below : (n a b : ℕ) → digits (λ x. zero) min n a b ≤ a
digits_below zero a b = omega arith
digits_below (suc n) zero b = omega arith
digits_below (suc n) (suc a) b = omega (arith, digits_below n (suc a / 2) (b / 2))

-- The bits of an `and` are bits of both.
pub bit_and-below : (a b : ℕ) → bit_and a b ≤ a
bit_and-below a b = omega (arith, bit_and-bitwise a b, digits_below a a b)

more_total :
    (v w : ℕ) (o : Option (List ℕ))
    → bind o (λ values. some (total values)) ≡ some w
    → bind (bind o (λ vs. some (v ∷ vs))) (λ values. some (total values)) ≡ some (v + w)
unfolding total
more_total v w none sum = cc
more_total v w (some vs) sum = ground (arith, sum)

module _ (table : List NamedValue) (part : List ℕ) (v : ℕ) (plain : has_byte bar part ≡ false)
    (value : part_value table part ≡ some v) where
  pub text_value_one : text_value table part ≡ some v
  unfolding text_value read_all total
  text_value_one =
      ap (λ ps. bind (read_all (part_value table) ps) (λ values. some (total values)))
        (split_one bar part plain)
      ∙ ap (λ o. bind (bind o (λ y. some (y ∷ []))) (λ values. some (total values))) value
      ∙ ap some (omega arith)

  pub text_value_cons :
      (text : List ℕ) (w : ℕ)
      → text_value table text ≡ some w
      → text_value table (part ++ bar ∷ text) ≡ some (v + w)
  unfolding text_value read_all
  text_value_cons text w later =
      ap (λ ps. bind (read_all (part_value table) ps) (λ values. some (total values)))
        (split-cons bar part text plain)
      ∙ ap
          (λ o.
            bind
              (bind o
                (λ y. bind (read_all (part_value table) (split bar text)) (λ ys. some (y ∷ ys))))
              (λ values. some (total values)))
          value
      ∙ more_total v w (read_all (part_value table) (split bar text)) later
