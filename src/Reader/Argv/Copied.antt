-- ===== src/Reader/Argv/Copied.antt =====
-- The loop over argv of internal/bpf/tracer.c on a vector of short strings.
use litrace.Prelude.{
  ℕ, zero, suc, ◌+◌, ◌≡◌, ◌≢◌, ◌≤◌, ◌<◌, refl, sym, ◌∙◌, ap, arith, true, false, List, [], ◌∷◌,
  ◌++◌, some, if◌then◌else◌, if-intro, length, length-append, write_at,
}
use mathlib.Core.Path.{subst}
use litrace.User.{Call, got, read_word}
use litrace.Argv.{
  ArgvCopy, Round, stop, more, argv_slot, argv_copied, argv_string, argv_round, argv_loop,
  argv_rest, copy_argv,
}
use litrace.Reader.Strings.{c_string}
use litrace.Reader.Argv.{block}

-- One write after another is one write.
write_at-append :
    (p : List ℕ) (k j : ℕ) (x y : List ℕ)
    → j ≡ k + length x
    → write_at (write_at p k x) j y ≡ write_at p k (x ++ y)
unfolding write_at
write_at-append [] k j x y same = refl
write_at-append (a ∷ p) (suc k) zero x y same = absurd (omega arith)
write_at-append (a ∷ p) (suc k) (suc j) x y same =
    ap (λ t. a ∷ t) (write_at-append p k j x y (omega arith))
write_at-append (a ∷ p) zero j [] y same = rw same refl
write_at-append (a ∷ p) zero zero (b ∷ x) y same = absurd (omega arith)
write_at-append (a ∷ p) zero (suc j) (b ∷ x) y same =
    ap (λ t. b ∷ t) (write_at-append p zero j x y (omega arith))

write_at-empty : (p : List ℕ) (k : ℕ) → write_at p k [] ≡ p
unfolding write_at
write_at-empty [] k = refl
write_at-empty (a ∷ p) zero = refl
write_at-empty (a ∷ p) (suc k) = ap (λ t. a ∷ t) (write_at-empty p k)

-- From slot `i` on, the process's argv holds the strings `ss` and then a null pointer; each string
-- is shorter than MAX_EXECVE_ARG_STR less its zero, and a slot of that size is left for it.
pub data Vector (c : Call) (argv limit : ℕ) : (i cursor : ℕ) → List (List ℕ) → Type 0 where
  ended : {i cursor : ℕ} → read_word c (argv_slot argv i) ≡ some 0 → Vector c argv limit i cursor []
  string :
      {i cursor : ℕ} {ss : List (List ℕ)} (p : ℕ) (s : List ℕ)
      → i < 8
      → read_word c (argv_slot argv i) ≡ some p
      → p ≢ 0
      → cursor + 128 ≤ limit
      → c.read_user_str 128 p ≡ got (c_string s)
      → length s < 127
      → Vector c argv limit (i + 1) (cursor + (length s + 1)) ss
      → Vector c argv limit i cursor (s ∷ ss)

-- The strings are in the buffer, one after another, and no flag was set.
pub record Took (a b : ArgvCopy) (ss : List (List ℕ)) : Type 0 where
  pub flags : b.flags ≡ a.flags
  pub cursor : b.cursor ≡ a.cursor + length (block ss)
  pub payload : b.payload ≡ write_at a.payload a.cursor (block ss)

module _ (c : Call) (argv limit : ℕ) where
  round_string :
      (i p : ℕ) (a : ArgvCopy) (s : List ℕ)
      → read_word c (argv_slot argv i) ≡ some p
      → p ≢ 0
      → a.cursor + 128 ≤ limit
      → c.read_user_str 128 p ≡ got (c_string s)
      → length s < 127
      → argv_round c limit argv i a
        ≡ more (record a {
          payload = write_at a.payload a.cursor (c_string s);
          cursor = a.cursor + (length s + 1);
        })
  unfolding argv_round argv_string argv_copied
  round_string i p a s word given room read short = ground (arith, length-append s (0 ∷ []))

  round_null :
      (i : ℕ) (a : ArgvCopy)
      → read_word c (argv_slot argv i) ≡ some 0
      → argv_round c limit argv i a ≡ stop (record a { exhausted = false })
  unfolding argv_round argv_string
  round_null i a word = ground arith

  -- The loop's end: the strings are taken, and if no null pointer was seen, it is in the next slot.
  abbrev Done : ArgvCopy → List (List ℕ) → ArgvCopy → Type 0
  Done a ss b = Took a b ss × (b.exhausted ≡ true → read_word c (argv_slot argv 8) ≡ some 0)

  abbrev step : ℕ → ℕ → Round → ArgvCopy
  step n i r = elim r [ stop b ↦ b | more b ↦ argv_loop c limit argv n (i + 1) b ]

  Took-cons :
      (a b : ArgvCopy) (s : List ℕ) (ss : List (List ℕ))
      → Took
          (record a {
            payload = write_at a.payload a.cursor (c_string s);
            cursor = a.cursor + (length s + 1);
          })
          b
          ss
      → Took a b (s ∷ ss)
  Took-cons a b s ss t =
      let size = length-append s (0 ∷ []) in
      record {
        flags = t.flags;
        cursor = omega (arith, t.cursor, size, length-append (c_string s) (block ss));
        payload =
            t.payload
            ∙ write_at-append a.payload a.cursor _ (c_string s) (block ss) (omega (arith, size));
      }

  Took-nil :
      (a b : ArgvCopy)
      → b.flags ≡ a.flags
      → b.cursor ≡ a.cursor
      → b.payload ≡ a.payload
      → Took a b []
  Took-nil a b f k p = record {
    flags = f;
    cursor = omega (arith, k);
    payload = p ∙ sym (write_at-empty a.payload a.cursor);
  }

  argv_loop-Done :
      (n i : ℕ) (a : ArgvCopy) {ss : List (List ℕ)}
      → i + n ≡ 8
      → Vector c argv limit i a.cursor ss
      → Done a ss (argv_loop c limit argv n i a)
  unfolding argv_loop
  argv_loop-Done zero i a rest (ended word) = (
    Took-nil a a refl refl refl,
    λ e. let here : 8 ≡ i = omega arith in ap (λ k. read_word c (argv_slot argv k)) here ∙ word,
  )
  argv_loop-Done zero i a rest (string p s lt word given room read short v) = absurd (omega arith)
  argv_loop-Done (suc n) i a rest (ended word) =
      subst (λ r. Done a [] (step n i r)) (sym (round_null i a word))
        (Took-nil a (record a { exhausted = false }) refl refl refl, λ e. absurd (cc))
  argv_loop-Done (suc n) i a rest (string {ss = ss} p s lt word given room read short v) =
      let a' = record a {
        payload = write_at a.payload a.cursor (c_string s);
        cursor = a.cursor + (length s + 1);
      } in
      let (t, e) = argv_loop-Done n (i + 1) a' (omega arith) v in
      subst (λ r. Done a (s ∷ ss) (step n i r))
        (sym (round_string i p a s word given room read short))
        (Took-cons a (argv_loop c limit argv n (i + 1) a') s ss t, e)

  argv_rest-null :
      (flags : ℕ) → read_word c (argv_slot argv 8) ≡ some 0 → argv_rest c limit argv flags ≡ flags
  unfolding argv_rest
  argv_rest-null flags word = ground arith

  rest-Took :
      (a b : ArgvCopy) (ss : List (List ℕ))
      → Done a ss b
      → Took a (if b.exhausted then record b { flags = argv_rest c limit argv b.flags } else b) ss
  rest-Took a b ss (t, null) =
      if-intro (λ x. Took a x ss) b.exhausted
        (λ e. record {
          flags = argv_rest-null b.flags (null e) ∙ t.flags;
          cursor = t.cursor;
          payload = t.payload;
        })
        (λ e. t)

  -- A vector of at most eight readable strings and a null pointer, where each string is shorter than
  -- 127 bytes and starts while at least MAX_EXECVE_ARG_STR (128) bytes of the buffer are free, is
  -- copied whole, with the terminating zeroes, no flag is set, and the cursor ends behind the last
  -- string.
  pub copy_argv-Took :
      (a : ArgvCopy) (ss : List (List ℕ))
      → Vector c argv limit 0 a.cursor ss
      → Took a (copy_argv c limit argv a) ss
  unfolding copy_argv
  copy_argv-Took a ss v =
      rest-Took a (argv_loop c limit argv 8 0 a) ss (argv_loop-Done 8 0 a refl v)
