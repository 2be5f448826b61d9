-- ===== src/Cli/Attach.antt =====
-- The PIDs of -p.
use litrace.Prelude.{
  ℕ, ◌<◌, ◌^◌, ◌≡◌, refl, sym, ◌∙◌, ap, arith, List, [], ◌∷◌, ◌++◌, true, Option, none, some,
  if◌then◌else◌, Bool-cases, inl, inr, if_true, if_false,
}
use litrace.Types.{is_positive}
use litrace.Text.{split, atoi, decimal}
use litrace.Text.Numbers.{atoi-decimal, decimal-plain}
use litrace.Decode.Reads.{All}
use litrace.Cli.Options.{listed, options, Reads, read_all-options}
use litrace.PathFilter.Dict.{contains, add, remove, contains-add}
use litrace.Cli.{
  ok, comma, attach_pid, attach_token, attach_tokens, attach_loop, parse_attach_expressions,
}
use litrace.Cli.Values.{
  value_of, bind, read_all, parts_of, fold, value_of-and_then, read_all-append, read_then_fold,
  fold_then_fold,
}

-- A part that is the decimal text of a positive int.
unfoldable pub pid_of : List ℕ → Option ℕ
pid_of token = bind (atoi token) λ pid. if is_positive pid then some pid else none

-- Each number where it stands first.
unfoldable pub keep_first : List ℕ → List ℕ
keep_first [] = []
keep_first (x ∷ xs) = x ∷ remove x (keep_first xs)

push : ℕ → List ℕ × List ℕ → List ℕ × List ℕ
push pid (seen, pids) = if contains pid seen then (seen, pids) else (add pid seen, pids ++ pid ∷ [])

attach_pid-push :
    (token : List ℕ) (o : Option ℕ) (s : List ℕ × List ℕ)
    → value_of (attach_pid token o s)
      ≡ bind (bind o (λ pid. if is_positive pid then some pid else none)) (λ pid. some (push pid s))
unfolding attach_pid push value_of
attach_pid-push token none (seen, pids) = refl
attach_pid-push token (some pid) (seen, pids) = elim (Bool-cases (is_positive pid)) [
  | inl positive ↦ rw positive refl
  | inr other ↦ rw other refl
]

attach_token-push :
    (expression token : List ℕ) (s : List ℕ × List ℕ)
    → value_of (attach_token expression token s) ≡ bind (pid_of token) (λ pid. some (push pid s))
unfolding attach_token pid_of atoi value_of
attach_token-push expression [] s = refl
attach_token-push expression (b ∷ bs) s = attach_pid-push (b ∷ bs) (atoi (b ∷ bs)) s

attach_tokens-fold :
    (expression : List ℕ) (tokens : List (List ℕ)) (s : List ℕ × List ℕ)
    → value_of (attach_tokens expression tokens s)
      ≡ bind (read_all pid_of tokens) (λ pids. some (fold push pids s))
unfolding attach_tokens read_all fold value_of
attach_tokens-fold expression [] s = refl
attach_tokens-fold expression (token ∷ tokens) s =
    value_of-and_then (attach_token expression token s) (attach_tokens expression tokens)
    ∙ (λ i.
        bind (value_of (attach_token expression token s))
          (λ t. attach_tokens-fold expression tokens t i))
    ∙ ap (λ o. bind o (λ t. bind (read_all pid_of tokens) (λ pids. some (fold push pids t))))
        (attach_token-push expression token s)
    ∙ read_then_fold (pid_of token) push (read_all pid_of tokens) s

attach_loop-fold :
    (expressions : List (List ℕ)) (s : List ℕ × List ℕ)
    → value_of (attach_loop expressions s)
      ≡ bind (read_all pid_of (parts_of expressions)) (λ pids. some (fold push pids s))
unfolding attach_loop read_all fold value_of parts_of split pid_of atoi
attach_loop-fold [] s = refl
attach_loop-fold ([] ∷ expressions) s = refl
attach_loop-fold ((b ∷ bs) ∷ expressions) s =
    let e = b ∷ bs in
    let later = read_all pid_of (parts_of expressions) in
    value_of-and_then (attach_tokens e (split comma e) s) (attach_loop expressions)
    ∙ (λ i.
        bind (value_of (attach_tokens e (split comma e) s)) (λ t. attach_loop-fold expressions t i))
    ∙ ap (λ o. bind o (λ t. bind later (λ pids. some (fold push pids t))))
        (attach_tokens-fold e (split comma e) s)
    ∙ fold_then_fold push (read_all pid_of (split comma e)) later s
    ∙ ap (λ o. bind o (λ l. some (fold push l s)))
        (sym (read_all-append pid_of (split comma e) (parts_of expressions)))

-- The numbers that are not in a set.
minus : List ℕ → List ℕ → List ℕ
minus seen [] = []
minus seen (x ∷ xs) = let rest = minus seen xs in if contains x seen then rest else x ∷ rest

minus-add : (seen : List ℕ) (x : ℕ) (ys : List ℕ) → minus (add x seen) ys ≡ minus seen (remove x ys)
unfolding minus remove
minus-add seen x [] = refl
minus-add seen x (y ∷ ys) = ground (arith, minus-add seen x ys, contains-add y x seen)

minus-remove :
    (seen : List ℕ) (x : ℕ) (ys : List ℕ)
    → contains x seen ≡ true
    → minus seen (remove x ys) ≡ minus seen ys
unfolding minus remove
minus-remove seen x [] inside = refl
minus-remove seen x (y ∷ ys) inside = ground (arith, minus-remove seen x ys)

minus_nothing : (ys : List ℕ) → minus [] ys ≡ ys
unfolding minus contains
minus_nothing [] = refl
minus_nothing (y ∷ ys) = ap (λ l. y ∷ l) (minus_nothing ys)

append_nil : (xs : List ℕ) → xs ++ [] ≡ xs
append_nil [] = refl
append_nil (x ∷ xs) = ap (λ l. x ∷ l) (append_nil xs)

append_one : (xs ys : List ℕ) (x : ℕ) → (xs ++ x ∷ []) ++ ys ≡ xs ++ x ∷ ys
append_one [] ys x = refl
append_one (y ∷ xs) ys x = ap (λ l. y ∷ l) (append_one xs ys x)

fold-push :
    (xs seen pids : List ℕ) → (fold push xs (seen, pids)).1 ≡ pids ++ minus seen (keep_first xs)
unfolding fold push keep_first minus
fold-push [] seen pids = sym (append_nil pids)
fold-push (x ∷ xs) seen pids =
    let go = λ (s : List ℕ × List ℕ). (fold push xs s).1 in
    let kept = keep_first xs in
    elim (Bool-cases (contains x seen)) [
      | inl known ↦
          ap go (if_true (contains x seen) _ _ known)
          ∙ fold-push xs seen pids
          ∙ ap (λ l. pids ++ l)
              (sym (if_true (contains x seen) _ _ known ∙ minus-remove seen x kept known))
      | inr new ↦
          ap go (if_false (contains x seen) _ _ new)
          ∙ fold-push xs (add x seen) (pids ++ x ∷ [])
          ∙ append_one pids (minus (add x seen) kept) x
          ∙ ap (λ l. pids ++ l)
              (ap (λ l. x ∷ l) (minus-add seen x kept) ∙ sym (if_false (contains x seen) _ _ new))
    ]

finish :
    (o : Option (List ℕ))
    → bind (bind o (λ xs. some (fold push xs ([], [])))) (λ (s : List ℕ × List ℕ). some s.1)
      ≡ bind o (λ xs. some (keep_first xs))
finish none = refl
finish (some xs) = ap some (fold-push xs [] [] ∙ minus_nothing (keep_first xs))

-- On every input: -p is accepted exactly if each part between the commas of each expression is the
-- decimal text of a positive int, and the result is these numbers in their order, each one where it
-- stands first.
pub parse_attach_expressions-pids :
    (expressions : List (List ℕ))
    → value_of (parse_attach_expressions expressions)
      ≡ bind (read_all pid_of (parts_of expressions)) (λ pids. some (keep_first pids))
unfolding parse_attach_expressions value_of
parse_attach_expressions-pids expressions =
    value_of-and_then (attach_loop expressions ([], [])) (λ (s : List ℕ × List ℕ). ok s.1)
    ∙ ap (λ o. bind o (λ (s : List ℕ × List ℕ). some s.1)) (attach_loop-fold expressions ([], []))
    ∙ finish (read_all pid_of (parts_of expressions))

-- A positive int.
abbrev pub IsPid : ℕ → Type 0
IsPid pid = (0 < pid) × (pid < 2 ^ 63)

pid_of-decimal : (pid : ℕ) → IsPid pid → pid_of (decimal pid) ≡ some pid
unfolding pid_of
pid_of-decimal pid (pos, lt) =
    ap (λ o. bind o (λ p. if is_positive p then some p else none)) (atoi-decimal pid lt)
    ∙ ground arith

decimal-Reads : (pids : List ℕ) → All IsPid pids → All (Reads decimal pid_of) pids
unfolding All
decimal-Reads [] h = tt
decimal-Reads (pid ∷ pids) (here, later) =
    ((decimal-plain pid, pid_of-decimal pid here), decimal-Reads pids later)

-- PIDs, positive ints, that are printed in decimal and joined by commas, in one or more options, are
-- read back by -p: these numbers in their order, each one where it stands first.
pub parse_attach_expressions-decimals :
    (groups : List (ℕ × List ℕ))
    → All IsPid (listed groups)
    → value_of (parse_attach_expressions (options decimal groups))
      ≡ some (keep_first (listed groups))
parse_attach_expressions-decimals groups h =
    parse_attach_expressions-pids (options decimal groups)
    ∙ ap (λ o. bind o (λ pids. some (keep_first pids)))
        (read_all-options decimal pid_of groups (decimal-Reads (listed groups) h))
