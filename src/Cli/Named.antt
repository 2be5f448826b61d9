-- ===== src/Cli/Named.antt =====
-- Names of system calls that are printed into options are read back.
use litrace.Prelude.{
  ℕ, ◌≡◌, refl, sym, ◌∙◌, ap, arith, List, [], ◌∷◌, ◌++◌, Bool, true, false, Option, none, some,
  if◌then◌else◌, if-intro,
}
use litrace.Text.{codes, has_byte, cut_prefix, join}
use litrace.Decode.Reads.{All}
use litrace.Text.Split.{NoneHas}
use litrace.Cli.Options.{listed, texts, options, Reads, read_all-options}
use litrace.Names.{entries, id_to_name, syscall_name, syscall_id_of}
use litrace.Names.Distinct.{id_to_name-comma, id_to_name-equals, syscall_id_of-id_to_name}
use mathlib.Core.Path.{subst}
use litrace.Cli.{comma, selector_of, parse_trace_ids}
use litrace.Cli.Values.{value_of, bind, read_all, parts_of}
use litrace.Cli.Selectors.{Same, named, selector_text, parse_trace_ids-named}

-- A system call of the table.
abbrev pub IsNamed : ℕ → Type 0
IsNamed id = (name : List ℕ) × (id_to_name entries id ≡ some name)

syscall_name-found :
    (id : ℕ) (name : List ℕ) → id_to_name entries id ≡ some name → syscall_name id ≡ name
unfolding syscall_name
syscall_name-found id name found = ground arith

syscall_name-Reads : (id : ℕ) → IsNamed id → Reads syscall_name syscall_id_of id
syscall_name-Reads id (name, found) =
    subst (λ n. (has_byte comma n ≡ false) × (syscall_id_of n ≡ some id))
      (sym (syscall_name-found id name found))
      (id_to_name-comma id name found, (syscall_id_of-id_to_name name id).1 found)

syscall_names-Reads : (ids : List ℕ) → All IsNamed ids → All (Reads syscall_name syscall_id_of) ids
unfolding All
syscall_names-Reads [] h = tt
syscall_names-Reads (id ∷ ids) (here, later) =
    (syscall_name-Reads id here, syscall_names-Reads ids later)

-- The text of an option has an equals sign only if one of its parts has one.
has_byte-append :
    (c : ℕ) (a b : List ℕ)
    → has_byte c a ≡ false
    → has_byte c b ≡ false
    → has_byte c (a ++ b) ≡ false
unfolding has_byte
has_byte-append c [] b h k = k
has_byte-append c (x ∷ a) b h k = ground (arith, has_byte-append c a b)

texts-equals :
    (ids : List ℕ) → All IsNamed ids → has_byte 61 (join comma (texts syscall_name ids)) ≡ false
unfolding has_byte join texts All
texts-equals [] h = refl
texts-equals (id ∷ []) ((name, found), later) =
    ap (has_byte 61) (syscall_name-found id name found) ∙ id_to_name-equals id name found
texts-equals (id ∷ next ∷ ids) ((name, found), later) =
    has_byte-append 61 (syscall_name id) _
      (ap (has_byte 61) (syscall_name-found id name found) ∙ id_to_name-equals id name found)
      (texts-equals (next ∷ ids) later)

All-IsNamed-append : (xs ys : List ℕ) → All IsNamed (xs ++ ys) → All IsNamed xs × All IsNamed ys
unfolding All
All-IsNamed-append [] ys h = (tt, h)
All-IsNamed-append (x ∷ xs) ys (here, later) =
    let (front, back) = All-IsNamed-append xs ys later in ((here, front), back)

options-equals :
    (groups : List (ℕ × List ℕ))
    → All IsNamed (listed groups)
    → NoneHas 61 (options syscall_name groups)
unfolding options listed NoneHas
options-equals [] h = tt
options-equals ((x, xs) ∷ groups) h =
    let (front, back) = All-IsNamed-append (x ∷ xs) (listed groups) h in
    (texts-equals (x ∷ xs) front, options-equals groups back)

-- The expressions of selectors: `trace=` before each, or nothing where `bare` says so.
unfoldable pub with_trace : List Bool → List (List ℕ) → List (List ℕ)
with_trace bare [] = []
with_trace [] (s ∷ ss) = (codes "trace=" ++ s) ∷ with_trace [] ss
with_trace (b ∷ bare) (s ∷ ss) = (if b then s else codes "trace=" ++ s) ∷ with_trace bare ss

cut_prefix-absent :
    (c : ℕ) (prefix s : List ℕ)
    → has_byte c prefix ≡ true
    → has_byte c s ≡ false
    → cut_prefix prefix s ≡ none
unfolding has_byte cut_prefix
cut_prefix-absent c [] s h k = cc
cut_prefix-absent c (p ∷ prefix) [] h k = refl
cut_prefix-absent c (p ∷ prefix) (b ∷ s) h k = ground (arith, cut_prefix-absent c prefix s)

selector_text-bare : (s : List ℕ) → has_byte 61 s ≡ false → selector_text s ≡ some s
unfolding selector_text selector_of value_of cut_prefix
selector_text-bare s plain =
    let whole = cut_prefix-absent 61 (codes "trace=") s (unfold has_byte in refl) plain in
    rw (whole, plain) refl

selector_text-trace : (s : List ℕ) → selector_text (codes "trace=" ++ s) ≡ some s
unfolding selector_text selector_of cut_prefix value_of
selector_text-trace s = refl

read_all-with_trace :
    (bare : List Bool) (ss : List (List ℕ))
    → NoneHas 61 ss
    → read_all selector_text (with_trace bare ss) ≡ some ss
unfolding read_all with_trace NoneHas
read_all-with_trace bare [] h = refl
read_all-with_trace [] (s ∷ ss) (plain, later) =
    ap (λ o. bind o λ x. bind (read_all selector_text (with_trace [] ss)) λ xs. some (x ∷ xs))
      (selector_text-trace s)
    ∙ ap (λ o. bind o (λ ys. some (s ∷ ys))) (read_all-with_trace [] ss later)
read_all-with_trace (b ∷ bare) (s ∷ ss) (plain, later) =
    ap (λ o. bind o λ x. bind (read_all selector_text (with_trace bare ss)) λ xs. some (x ∷ xs))
      (if-intro (λ e. selector_text e ≡ some s) b (λ bare_. selector_text-bare s plain)
        (λ prefixed. selector_text-trace s))
    ∙ ap (λ o. bind o (λ ys. some (s ∷ ys))) (read_all-with_trace bare ss later)

read_names :
    (groups : List (ℕ × List ℕ))
    → All IsNamed (listed groups)
    → read_all syscall_id_of (parts_of (options syscall_name groups)) ≡ some (listed groups)
read_names groups h =
    read_all-options syscall_name syscall_id_of groups (syscall_names-Reads (listed groups) h)

named-options :
    (bare : List Bool) (es ss : List (ℕ × List ℕ))
    → All IsNamed (listed es)
    → All IsNamed (listed ss)
    → named (with_trace bare (options syscall_name es)) (options syscall_name ss)
      ≡ some (listed es ++ listed ss)
unfolding named
named-options bare es ss e_ s_ =
    let more = λ (found : List ℕ) (o : Option (List ℕ)). bind o (λ m. some (found ++ m)) in
    let second = read_all syscall_id_of (parts_of (options syscall_name ss)) in
    ap
      (λ o. bind o λ sels. bind (read_all syscall_id_of (parts_of sels)) λ found. more found second)
      (read_all-with_trace bare (options syscall_name es) (options-equals es e_))
    ∙ ap (λ o. bind o λ found. more found second) (read_names es e_)
    ∙ ap (more (listed es)) (read_names ss s_)

-- Names of system calls, joined by commas in -e expressions, after `trace=` or alone, and in --trace
-- selectors, select the system calls that have these names, and no others.
pub parse_trace_ids-names :
    (bare : List Bool) (es ss : List (ℕ × List ℕ))
    → All IsNamed (listed es)
    → All IsNamed (listed ss)
    → Same
        (value_of
          (parse_trace_ids (with_trace bare (options syscall_name es)) (options syscall_name ss)))
        (some (listed es ++ listed ss))
parse_trace_ids-names bare es ss e_ s_ =
    subst
      (Same (
        value_of
          (parse_trace_ids (with_trace bare (options syscall_name es)) (options syscall_name ss))))
      (named-options bare es ss e_ s_)
      (parse_trace_ids-named (with_trace bare (options syscall_name es)) (options syscall_name ss))
