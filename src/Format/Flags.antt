-- ===== src/Format/Flags.antt =====
-- What formatFlags prints says the number.
use litrace.Prelude.{
  ℕ, ◌<◌, ◌^◌, ◌≡◌, ◌+◌, refl, ◌∙◌, ap, arith, List, [], ◌∷◌, ◌++◌, false, not, ◌&&◌, ◌||◌, some,
  ◌==◌, bit_and, if-intro, if_false,
}
use litrace.Decode.Reads.{All}
use litrace.Text.{join, has_byte, prefixed_hex}
use litrace.Text.Split.{NoneHas, split-join}
use litrace.PathFilter.{is_empty}
use litrace.Cli.Values.{bind, read_all, read_all-append}
use litrace.Format.{NamedValue, and_not, bar, take_flag, flag_loop, with_remaining, format_flags}
use litrace.Format.Parts.{
  part_value, total, text_value, part_value-prefixed_hex, prefixed_hex-plain, bit_and-below,
}

module _ (known : List NamedValue) where
  -- The entry's name has no bar in it, and is read as its value.
  abbrev pub IsKnown : NamedValue → Type 0
  IsKnown entry =
      (has_byte bar entry.name ≡ false) × (part_value known entry.name ≡ some entry.value)

  module _ (raw : ℕ) where
    -- The parts and what remains add up to the number.
    record Shown (parts : List (List ℕ)) (remaining : ℕ) : Type 0 where
      pub plain : NoneHas bar parts
      pub values : List ℕ
      pub read : read_all (part_value known) parts ≡ some values
      pub sum : total values + remaining ≡ raw

    NoneHas-append :
        (parts : List (List ℕ)) (part : List ℕ)
        → NoneHas bar parts
        → has_byte bar part ≡ false
        → NoneHas bar (parts ++ part ∷ [])
    unfolding NoneHas
    NoneHas-append [] part h p = (p, tt)
    NoneHas-append (q ∷ parts) part (here, later) p = (here, NoneHas-append parts part later p)

    total-append : (vs : List ℕ) (v : ℕ) → total (vs ++ v ∷ []) ≡ total vs + v
    unfolding total
    total-append [] v = omega arith
    total-append (w ∷ vs) v = omega (arith, total-append vs v)

    Shown-append :
        (parts : List (List ℕ)) (remaining v rest : ℕ) (part : List ℕ)
        → Shown parts remaining
        → has_byte bar part ≡ false
        → part_value known part ≡ some v
        → remaining ≡ v + rest
        → Shown (parts ++ part ∷ []) rest
    unfolding read_all
    Shown-append parts remaining v rest part k plain value split_ = record {
      plain = NoneHas-append parts part k.plain plain;
      values = k.values ++ v ∷ [];
      read =
          read_all-append (part_value known) parts (part ∷ [])
          ∙ ap
              (λ o.
                bind o (λ a. bind (read_all (part_value known) (part ∷ [])) (λ b. some (a ++ b))))
              k.read
          ∙ ap (λ o. bind (bind o (λ y. some (y ∷ []))) (λ b. some (k.values ++ b))) value;
      sum = omega (arith, total-append k.values v, k.sum);
    }

    abbrev ShownPair : List (List ℕ) × ℕ → Type 0
    ShownPair s = Shown s.0 s.1

    take_flag-Shown :
        (entry : NamedValue) (s : List (List ℕ) × ℕ)
        → IsKnown entry
        → ShownPair s
        → ShownPair (take_flag entry s)
    unfolding take_flag
    take_flag-Shown entry (parts, remaining) (plain, value) k =
        if-intro ShownPair (entry.value == 0) (λ zero_. k)
          λ some_.
            if-intro ShownPair (bit_and remaining entry.value == entry.value)
              (λ inside.
                Shown-append parts remaining entry.value (and_not remaining entry.value) entry.name
                  k plain value (ground (arith, bit_and-below remaining entry.value)))
              (λ outside. k)

    flag_loop-Shown :
        (table : List NamedValue) (s : List (List ℕ) × ℕ)
        → All IsKnown table
        → ShownPair s
        → ShownPair (flag_loop table s)
    unfolding flag_loop All
    flag_loop-Shown [] s h k = k
    flag_loop-Shown (entry ∷ table) s (here, later) k =
        flag_loop-Shown table (take_flag entry s) later (take_flag-Shown entry s here k)

    append_some : (parts : List (List ℕ)) (part : List ℕ) → is_empty (parts ++ part ∷ []) ≡ false
    append_some [] part = refl
    append_some (p ∷ parts) part = refl

    with_remaining-Shown :
        (s : List (List ℕ) × ℕ)
        → raw < 2 ^ 64
        → ShownPair s
        → Shown (with_remaining s) 0 × (is_empty (with_remaining s) ≡ false)
    unfolding with_remaining
    with_remaining-Shown (parts, remaining) lt k =
        if-intro (λ ps. Shown ps 0 × (is_empty ps ≡ false)) (not (remaining == 0) || is_empty parts)
          (λ more. (
            Shown-append parts remaining remaining 0 (prefixed_hex remaining) k
                (prefixed_hex-plain remaining)
                (part_value-prefixed_hex known remaining (omega (arith, k.sum))) (omega arith),
            append_some parts (prefixed_hex remaining),
          ))
          (λ all_. (
            record {
              plain = k.plain;
              values = k.values;
              read = k.read;
              sum = ground (arith, k.sum);
            },
            ground arith,
          ))

    Shown-text_value :
        (parts : List (List ℕ))
        → Shown parts 0
        → is_empty parts ≡ false
        → text_value known (join bar parts) ≡ some raw
    unfolding text_value
    Shown-text_value [] k some_ = cc
    Shown-text_value (p ∷ ps) k some_ =
        ap (λ l. bind (read_all (part_value known) l) (λ values. some (total values)))
          (split-join bar p ps k.plain)
        ∙ ap (λ o. bind o (λ values. some (total values))) k.read
        ∙ ap some (omega (arith, k.sum))

  pub format_flags-text_value :
      (raw : ℕ) (table : List NamedValue)
      → raw < 2 ^ 64
      → All IsKnown table
      → text_value known (format_flags raw [] table) ≡ some raw
  unfolding format_flags NoneHas read_all total
  format_flags-text_value raw table lt h =
      let s = flag_loop table ([], raw) in
      let start : Shown raw [] raw = record {
        plain = tt;
        values = [];
        read = refl;
        sum = omega arith;
      } in
      let (k, some_) =
        with_remaining-Shown raw s lt (flag_loop-Shown raw table ([], raw) h start) in
      ap (text_value known) (if_false ((raw == 0) && not (is_empty {A = ℕ} [])) _ _ (ground arith))
      ∙ Shown-text_value raw (with_remaining s) k some_
