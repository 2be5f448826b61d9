-- ===== src/Format/Calls.antt =====
-- The flags of mmap and open, as they are printed, say the number.
use litrace.Prelude.{
  ℕ, ◌≤◌, ◌<◌, ◌^◌, ◌≡◌, refl, sym, ◌∙◌, ap, arith, List, [], ◌∷◌, ◌++◌, true, false, some, ◌==◌,
  bit_and, Bool-cases, inl, inr, if-intro, if_true, if_false, ==_iff, get_or,
}
use litrace.Decode.Reads.{All}
use litrace.FilePath.{bytes_eq}
use litrace.Text.{codes, split, has_byte, cut_prefix, prefixed_hex}
use litrace.Cli.Values.{read_all}
use litrace.Format.{
  NamedValue, and_not, bar, format_enum, format_flags, open_mode_access, open_mode_flags,
  mmap_prot_flags, mmap_flags, format_mmap_prot, format_mmap_flags, format_open_flags,
  open_needs_mode, effective_open_arg_count, effective_arg_count,
}
use litrace.Types.{Event}
use litrace.Format.Parts.{
  find_name, part_value, total, text_value, part_value-prefixed_hex, prefixed_hex-plain,
  bit_and-below, text_value_one, text_value_cons,
}
use litrace.Format.Flags.{IsKnown, format_flags-text_value}

module _ (unix : List ℕ → ℕ) where
  -- The constants that the flags of open are shown by.
  abbrev pub open_constants : List NamedValue
  open_constants = open_mode_access unix ++ open_mode_flags unix

  -- What is read back of the protection of mmap.
  abbrev pub prot_constants : List NamedValue
  prot_constants =
      record { value = unix (codes "PROT_NONE"); name = codes "PROT_NONE" } ∷ mmap_prot_flags unix

  mmap_flags-IsKnown : All (IsKnown (mmap_flags unix)) (mmap_flags unix)
  unfolding mmap_flags All part_value find_name cut_prefix has_byte bytes_eq
  mmap_flags-IsKnown = (
    (refl, refl),
    (
      (refl, refl),
      (
        (refl, refl),
        (
          (refl, refl),
          (
            (refl, refl),
            (
              (refl, refl),
              (
                (refl, refl),
                (
                  (refl, refl),
                  (
                    (refl, refl),
                    ((refl, refl), ((refl, refl), ((refl, refl), ((refl, refl), tt)))),
                  ),
                ),
              ),
            ),
          ),
        ),
      ),
    ),
  )

  mmap_prot_flags-IsKnown : All (IsKnown prot_constants) (mmap_prot_flags unix)
  unfolding mmap_prot_flags All part_value find_name cut_prefix has_byte bytes_eq
  mmap_prot_flags-IsKnown = ((refl, refl), ((refl, refl), ((refl, refl), tt)))

  open_mode_access-IsKnown : All (IsKnown open_constants) (open_mode_access unix)
  unfolding open_mode_access open_mode_flags All part_value find_name cut_prefix has_byte bytes_eq
  open_mode_access-IsKnown = ((refl, refl), ((refl, refl), ((refl, refl), tt)))

  open_mode_flags-IsKnown : All (IsKnown open_constants) (open_mode_flags unix)
  unfolding open_mode_access open_mode_flags All part_value find_name cut_prefix has_byte bytes_eq
  open_mode_flags-IsKnown = (
    (refl, refl),
    (
      (refl, refl),
      (
        (refl, refl),
        (
          (refl, refl),
          (
            (refl, refl),
            (
              (refl, refl),
              (
                (refl, refl),
                (
                  (refl, refl),
                  (
                    (refl, refl),
                    (
                      (refl, refl),
                      (
                        (refl, refl),
                        (
                          (refl, refl),
                          ((refl, refl), ((refl, refl), ((refl, refl), ((refl, refl), tt)))),
                        ),
                      ),
                    ),
                  ),
                ),
              ),
            ),
          ),
        ),
      ),
    ),
  )

  -- The flags of mmap, as they are printed, are read back: the values of the names that are printed,
  -- and the number behind them, if there is one, add up to the flags, whatever the constants are.
  pub format_mmap_flags-text_value :
      (raw : ℕ)
      → raw < 2 ^ 64
      → text_value (mmap_flags unix) (format_mmap_flags unix raw) ≡ some raw
  unfolding format_mmap_flags
  format_mmap_flags-text_value raw lt =
      format_flags-text_value (mmap_flags unix) raw (mmap_flags unix) lt mmap_flags-IsKnown

  none_text : text_value prot_constants (codes "PROT_NONE") ≡ some (unix (codes "PROT_NONE"))
  unfolding text_value read_all split part_value cut_prefix find_name bytes_eq total
  none_text = ap some (omega arith)

  pub format_mmap_prot-text_value :
      (raw : ℕ) → raw < 2 ^ 64 → text_value prot_constants (format_mmap_prot unix raw) ≡ some raw
  unfolding format_mmap_prot
  format_mmap_prot-text_value raw lt = elim (Bool-cases (raw == unix (codes "PROT_NONE"))) [
    | inl nothing ↦
        ap (text_value prot_constants) (if_true (raw == unix (codes "PROT_NONE")) _ _ nothing)
        ∙ none_text
        ∙ ap some (sym ((==_iff raw _).0 nothing))
    | inr some_ ↦
        ap (text_value prot_constants) (if_false (raw == unix (codes "PROT_NONE")) _ _ some_)
        ∙ format_flags-text_value prot_constants raw (mmap_prot_flags unix) lt
            mmap_prot_flags-IsKnown
  ]

  -- The access mode is shown by a name of the table, or as a number.
  format_enum-IsKnown :
      (known table : List NamedValue) (raw : ℕ)
      → raw < 2 ^ 64
      → All (IsKnown known) table
      → (has_byte bar (format_enum raw table prefixed_hex) ≡ false)
        × (part_value known (format_enum raw table prefixed_hex) ≡ some raw)
  unfolding format_enum All
  format_enum-IsKnown known [] raw lt h =
      (prefixed_hex-plain raw, part_value-prefixed_hex known raw lt)
  format_enum-IsKnown known (entry ∷ table) raw lt ((plain, value), later) =
      if-intro (λ text. (has_byte bar text ≡ false) × (part_value known text ≡ some raw))
        (entry.value == raw) (λ same. (plain, value ∙ ap some ((==_iff entry.value raw).0 same)))
        (λ other. format_enum-IsKnown known table raw lt later)

  -- The flags of open, as they are printed, are read back: the access mode, the values of the names
  -- behind it, and the number behind them, if there is one, add up to the flags, whatever the
  -- constants are.
  pub format_open_flags-text_value :
      (raw : ℕ) → raw < 2 ^ 64 → text_value open_constants (format_open_flags unix raw) ≡ some raw
  unfolding format_open_flags
  format_open_flags-text_value raw lt =
      let mask = unix (codes "O_ACCMODE") in
      let mode = bit_and raw mask in
      let rest = and_not raw mask in
      let below = bit_and-below raw mask in
      let access = format_enum mode (open_mode_access unix) prefixed_hex in
      let (plain, value) =
        format_enum-IsKnown open_constants (open_mode_access unix) mode (omega (arith, below))
          open_mode_access-IsKnown in
      elim (Bool-cases (rest == 0)) [
        | inl nothing ↦
            ap (text_value open_constants) (if_true (rest == 0) _ _ nothing)
            ∙ text_value_one open_constants access mode plain value
            ∙ ap some (ground (arith, below))
        | inr some_ ↦
            ap (text_value open_constants) (if_false (rest == 0) _ _ some_)
            ∙ text_value_cons open_constants access mode plain value
                (format_flags rest [] (open_mode_flags unix)) rest
                (format_flags-text_value open_constants rest (open_mode_flags unix)
                  (omega (arith, below)) open_mode_flags-IsKnown)
            ∙ ap some (omega (arith, below))
      ]

  -- The arguments that are printed stand in the event's arrays, and are no more than it says.
  pub effective_arg_count-within :
      (ev : Event)
      → (effective_arg_count unix ev ≤ 6) × (effective_arg_count unix ev ≤ ev.arg_count)
  unfolding effective_arg_count effective_open_arg_count
  effective_arg_count-within ev = (ground arith, ground arith)

  -- The mode of open is printed only where the flags ask for it.
  pub effective_open_arg_count-mode :
      (flags_idx mode_idx : ℕ) (ev : Event)
      → mode_idx < effective_open_arg_count unix flags_idx mode_idx ev
      → open_needs_mode unix (get_or ev.args flags_idx 0) ≡ true
  unfolding effective_open_arg_count
  effective_open_arg_count-mode flags_idx mode_idx ev many = ground arith
