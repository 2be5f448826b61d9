-- ===== src/Format/Ret/Read.antt =====
-- What a printed result says.
use litrace.Prelude.{
  ℕ, zero, suc, ◌-◌, ◌^◌, ◌<◌, ◌≡◌, refl, sym, ◌∙◌, ap, arith, List, [], ◌∷◌, ◌++◌, Bool, true,
  false, ◌==◌, Option, none, some, if◌then◌else◌, if-intro, if_true, if_false, bit_and, length,
  replicate, Bool-cases, inl, inr,
}
use litrace.Types.{Event, is_negative, u32}
use litrace.Syscalls.{nr_mmap, nr_umask}
use litrace.Text.{
  codes, digits, decimal, prefixed_hex, cut_prefix, read_digits, digit_value, hex_value, atoi,
}
use litrace.Text.Numbers.{
  Starts, decimal-Starts, atoi-decimal, read_digits-hexadecimal, read_digits-octal,
}
use litrace.PathFilter.{is_empty}
use litrace.Format.Parts.{bit_and-below}
use litrace.Format.Ret.{
  format_ptr, leading_zero, octal, format_mode, format_errno, format_ret_default, format_ret,
}

-- The text is an error's.
unfoldable pub says_error : List ℕ → Bool
says_error text = elim (cut_prefix (codes "-1 ") text) [ none ↦ false | some rest ↦ true ]

says_error-Starts : (text : List ℕ) → Starts text → says_error text ≡ false
unfolding says_error cut_prefix Starts
says_error-Starts text (b, (bs, (same, d))) = ap says_error same ∙ ground (arith, d.0, d.1)

says_error-leading_zero : (text : List ℕ) → says_error (leading_zero text) ≡ false
unfolding says_error cut_prefix leading_zero
says_error-leading_zero [] = refl
says_error-leading_zero (b ∷ bs) = ground arith

says_error-format_ptr : (raw : ℕ) → says_error (format_ptr raw) ≡ false
unfolding says_error cut_prefix format_ptr prefixed_hex
says_error-format_ptr raw =
    if-intro (λ t. says_error t ≡ false) (raw == 0) (λ null. refl) (λ mapped. refl)

-- A hexadecimal pointer, or NULL.
unfoldable pub pointer_value : List ℕ → Option ℕ
pointer_value text = elim (cut_prefix (codes "0x") text) [
  | some number ↦ read_digits 16 hex_value 0 number
  | none ↦ elim (cut_prefix (codes "NULL") text) [ none ↦ none | some rest ↦ some 0 ]
]

-- The number that a result's text says: a pointer for mmap, octal for umask, else decimal.
unfoldable pub ret_value : ℕ → List ℕ → Option ℕ
ret_value id text =
    if id == nr_mmap
    then pointer_value text
    else if id == nr_umask
    then read_digits 8 digit_value 0 text
    else atoi text

pointer_value-format_ptr : (raw : ℕ) → raw < 2 ^ 64 → pointer_value (format_ptr raw) ≡ some raw
unfolding pointer_value format_ptr prefixed_hex cut_prefix
pointer_value-format_ptr raw lt =
    if-intro (λ t. pointer_value t ≡ some raw) (raw == 0) (λ null. ground arith)
      (λ mapped. read_digits-hexadecimal raw lt)

read_zero :
    (text : List ℕ) → read_digits 8 digit_value 0 (48 ∷ text) ≡ read_digits 8 digit_value 0 text
unfolding read_digits digit_value
read_zero text = refl

read_zeros :
    (k : ℕ) (text : List ℕ)
    → read_digits 8 digit_value 0 (replicate k 48 ++ text) ≡ read_digits 8 digit_value 0 text
unfolding replicate
read_zeros zero text = refl
read_zeros (suc k) text = read_zero (replicate k 48 ++ text) ∙ read_zeros k text

read_leading_zero :
    (text : List ℕ)
    → read_digits 8 digit_value 0 (leading_zero text) ≡ read_digits 8 digit_value 0 text
unfolding leading_zero
read_leading_zero [] = refl
read_leading_zero (b ∷ bs) =
    if-intro (λ t. read_digits 8 digit_value 0 t ≡ read_digits 8 digit_value 0 (b ∷ bs)) (b == 48)
      (λ there. refl) (λ missing. read_zero (b ∷ bs))

read_octal : (n : ℕ) → n < 2 ^ 64 → read_digits 8 digit_value 0 (octal n) ≡ some n
unfolding octal
read_octal n lt =
    let ds = digits 8 64 n [] in
    read_leading_zero (replicate (3 - length ds) 48 ++ ds)
    ∙ read_zeros (3 - length ds) ds
    ∙ read_digits-octal n lt

module _ (errno_name errno_text : ℕ → List ℕ) (ev : Event) where
  says_error-format_errno :
      (errno : ℕ) → says_error (format_errno errno_name errno_text errno) ≡ true
  unfolding says_error cut_prefix format_errno
  says_error-format_errno errno =
      if-intro (λ t. says_error t ≡ true) (is_empty (errno_name errno)) (λ unnamed. refl)
        (λ has_name. refl)

  -- A result is printed as an error exactly if it is negative, whatever the errors are called.
  pub format_ret-says_error : says_error (format_ret errno_name errno_text ev) ≡ is_negative ev.ret
  unfolding format_ret format_ret_default format_mode octal
  format_ret-says_error = elim (Bool-cases (is_negative ev.ret)) [
    | inl negative ↦
        ap says_error
          (if_true (is_negative ev.ret) _ _ negative ∙ if_true (is_negative ev.ret) _ _ negative)
        ∙ says_error-format_errno (2 ^ 64 - ev.ret)
        ∙ sym negative
    | inr other ↦
        ap says_error (if_false (is_negative ev.ret) _ _ other)
        ∙ if-intro (λ t. says_error t ≡ false) (ev.syscall_id == nr_mmap)
            (λ pointer. says_error-format_ptr ev.ret)
            (λ number.
              if-intro (λ t. says_error t ≡ false) (ev.syscall_id == nr_umask)
                (λ mode. says_error-leading_zero _)
                (λ plain.
                  ap says_error (if_false (is_negative ev.ret) _ _ other)
                  ∙ says_error-Starts (decimal ev.ret) (decimal-Starts ev.ret)))
        ∙ sym other
  ]

  -- A result that is not negative is printed in full: in hexadecimal for mmap, in octal for umask,
  -- of which the low 16 bits are shown, and in decimal otherwise.
  pub format_ret-ret_value :
      is_negative ev.ret ≡ false
      → ret_value ev.syscall_id (format_ret errno_name errno_text ev)
        ≡ some (if ev.syscall_id == nr_umask then bit_and (u32 ev.ret) (2 ^ 16 - 1) else ev.ret)
  unfolding format_ret format_ret_default format_mode ret_value
  format_ret-ret_value pos =
      let low = bit_and (u32 ev.ret) (2 ^ 16 - 1) in
      elim (Bool-cases (ev.syscall_id == nr_mmap)) [
        | inl pointer ↦ ground (arith, pointer_value-format_ptr ev.ret)
        | inr number ↦ elim (Bool-cases (ev.syscall_id == nr_umask)) [
          | inl mode ↦ ground (arith, bit_and-below (u32 ev.ret) (2 ^ 16 - 1), read_octal low)
          | inr plain ↦ ground (arith, atoi-decimal ev.ret)
        ]
      ]
