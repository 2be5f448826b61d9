-- ===== src/Cli/Selectors.antt =====
-- The system calls of -e and --trace.
use litrace.Prelude.{
  ℕ, ◌≡◌, refl, sym, ◌∙◌, ap, arith, List, [], ◌∷◌, ◌++◌, true, false, Option, none, some,
  if◌then◌else◌, Option-cases, inl, inr,
}
use litrace.Text.{split}
use litrace.Names.{syscall_id_of}
use litrace.Names.Distinct.{syscall_id_of-empty}
use litrace.PathFilter.Dict.{contains, add, contains-add}
use litrace.PathFilter.Config.{add_all}
use litrace.PathFilter.Config.Complete.{contains-add_all}
use mathlib.Core.Path.{subst}
use litrace.Cli.{
  ok, and_then, comma, select_name, select_names, select, selector_of, expressions_loop,
  selectors_loop, parse_trace_expressions, parse_trace_selectors, parse_trace_ids,
}
use litrace.Cli.Values.{
  value_of, bind, bind_assoc, read_all, parts_of, fold, value_of-and_then, read_all-append,
  read_then_fold, fold_then_fold,
}

select_name-add :
    (quoted name ids : List ℕ)
    → value_of (select_name quoted name ids) ≡ bind (syscall_id_of name) (λ id. some (add id ids))
unfolding select_name value_of
select_name-add quoted [] ids = ap (λ o. bind o (λ id. some (add id ids))) (sym syscall_id_of-empty)
select_name-add quoted (b ∷ bs) ids = ground arith

select_names-fold :
    (quoted : List ℕ) (names : List (List ℕ)) (ids : List ℕ)
    → value_of (select_names quoted names ids)
      ≡ bind (read_all syscall_id_of names) (λ found. some (fold add found ids))
unfolding select_names read_all fold value_of
select_names-fold quoted [] ids = refl
select_names-fold quoted (name ∷ names) ids =
    value_of-and_then (select_name quoted name ids) (select_names quoted names)
    ∙ (λ i. bind (value_of (select_name quoted name ids)) (λ t. select_names-fold quoted names t i))
    ∙ ap (λ o. bind o (λ t. bind (read_all syscall_id_of names) (λ found. some (fold add found t))))
        (select_name-add quoted name ids)
    ∙ read_then_fold (syscall_id_of name) add (read_all syscall_id_of names) ids

select-fold :
    (quoted selector ids : List ℕ)
    → value_of (select quoted selector ids)
      ≡ bind (read_all syscall_id_of (split comma selector)) (λ found. some (fold add found ids))
unfolding select value_of split read_all
select-fold quoted [] ids =
    ap (λ o. bind (bind o (λ y. some (y ∷ []))) (λ found. some (fold add found ids)))
      (sym syscall_id_of-empty)
select-fold quoted (b ∷ bs) ids = select_names-fold quoted (split comma (b ∷ bs)) ids

selectors_loop-fold :
    (selectors : List (List ℕ)) (ids : List ℕ)
    → value_of (selectors_loop selectors ids)
      ≡ bind (read_all syscall_id_of (parts_of selectors)) (λ found. some (fold add found ids))
unfolding selectors_loop read_all parts_of fold value_of
selectors_loop-fold [] ids = refl
selectors_loop-fold (selector ∷ selectors) ids =
    let later = read_all syscall_id_of (parts_of selectors) in
    value_of-and_then (select selector selector ids) (selectors_loop selectors)
    ∙ (λ i. bind (value_of (select selector selector ids)) (λ t. selectors_loop-fold selectors t i))
    ∙ ap (λ o. bind o (λ t. bind later (λ found. some (fold add found t))))
        (select-fold selector selector ids)
    ∙ fold_then_fold add (read_all syscall_id_of (split comma selector)) later ids
    ∙ ap (λ o. bind o (λ l. some (fold add l ids)))
        (sym (read_all-append syscall_id_of (split comma selector) (parts_of selectors)))

-- The selectors of the -e expressions.
unfoldable pub selector_text : List ℕ → Option (List ℕ)
unfolding value_of
selector_text expression = value_of (selector_of expression)

select_then_fold :
    (o : Option (List ℕ)) (sels : Option (List (List ℕ))) (ids : List ℕ)
    → bind o (λ selector.
      bind
        (bind (read_all syscall_id_of (split comma selector)) (λ a. some (fold add a ids)))
        λ t. bind sels λ ss. bind (read_all syscall_id_of (parts_of ss)) (λ b. some (fold add b t)))
      ≡ bind
          (bind o (λ selector. bind sels (λ ss. some (selector ∷ ss))))
          λ ss. bind (read_all syscall_id_of (parts_of ss)) (λ l. some (fold add l ids))
unfolding parts_of
select_then_fold none sels ids = refl
select_then_fold (some selector) none ids =
    elim (Option-cases (read_all syscall_id_of (split comma selector))) [
      | inl failed ↦ rw failed refl
      | inr (a, found) ↦ rw found refl
    ]
select_then_fold (some selector) (some ss) ids =
    fold_then_fold add (read_all syscall_id_of (split comma selector))
      (read_all syscall_id_of (parts_of ss)) ids
    ∙ ap (λ o. bind o (λ l. some (fold add l ids)))
        (sym (read_all-append syscall_id_of (split comma selector) (parts_of ss)))

expressions_loop-fold :
    (expressions : List (List ℕ)) (ids : List ℕ)
    → value_of (expressions_loop expressions ids)
      ≡ bind
          (read_all selector_text expressions)
          (λ ss. bind (read_all syscall_id_of (parts_of ss)) (λ found. some (fold add found ids)))
unfolding expressions_loop read_all parts_of fold value_of selector_text
expressions_loop-fold [] ids = refl
expressions_loop-fold (e ∷ es) ids =
    let found = value_of (selector_of e) in
    value_of-and_then (selector_of e)
      (λ selector. and_then (select e selector ids) (expressions_loop es))
    ∙ (λ i.
        bind found (λ selector. value_of-and_then (select e selector ids) (expressions_loop es) i))
    ∙ (λ i.
        bind found
          (λ selector. bind (select-fold e selector ids i) (λ t. expressions_loop-fold es t i)))
    ∙ select_then_fold found (read_all selector_text es) ids

-- The same set of numbers, or none on both sides.
abbrev pub Same : Option (List ℕ) → Option (List ℕ) → Type 0
Same none none = Unit
Same none (some _) = true ≡ false
Same (some _) none = true ≡ false
Same (some ids) (some found) = (id : ℕ) → contains id ids ≡ contains id found

-- The system calls that the options name.
unfoldable pub named : List (List ℕ) → List (List ℕ) → Option (List ℕ)
named expressions selectors = bind (read_all selector_text expressions) λ ss.
    bind (read_all syscall_id_of (parts_of ss))
      λ found. bind (read_all syscall_id_of (parts_of selectors)) λ more. some (found ++ more)

contains_nothing : (id : ℕ) → contains id [] ≡ false
unfolding contains
contains_nothing id = refl

pub contains-append :
    (id : ℕ) (xs ys : List ℕ)
    → contains id (xs ++ ys) ≡ (if contains id xs then true else contains id ys)
unfolding contains
contains-append id [] ys = refl
contains-append id (x ∷ xs) ys = ground (arith, contains-append id xs ys)

contains-fold :
    (id : ℕ) (xs ids : List ℕ)
    → contains id (fold add xs ids) ≡ (if contains id xs then true else contains id ids)
unfolding contains fold
contains-fold id [] ids = refl
contains-fold id (x ∷ xs) ids =
    ground (arith, contains-fold id xs (add x ids), contains-add id x ids)

joined-Same :
    (a b : Option (List ℕ))
    → Same
        (bind
          (bind a (λ xs. some (fold add xs [])))
          λ ids. bind (bind b (λ ys. some (fold add ys []))) (λ more. some (add_all more ids)))
        (bind a (λ xs. bind b (λ ys. some (xs ++ ys))))
joined-Same none b = tt
joined-Same (some xs) none = tt
joined-Same (some xs) (some ys) = λ id. ground (
  arith,
  contains-add_all id (fold add ys []) (fold add xs []),
  contains-fold id xs [],
  contains-fold id ys [],
  contains-append id xs ys,
  contains_nothing id,
)

-- On every input: the options are accepted exactly if every -e expression is a selector or `trace=`
-- and a selector, and each part between the commas of each selector is the name of a system call;
-- the result is the set of the system calls that are named.
pub parse_trace_ids-named :
    (expressions selectors : List (List ℕ))
    → Same (value_of (parse_trace_ids expressions selectors)) (named expressions selectors)
unfolding parse_trace_ids parse_trace_expressions parse_trace_selectors value_of named
parse_trace_ids-named expressions selectors =
    let a =
      bind (read_all selector_text expressions) (λ ss. read_all syscall_id_of (parts_of ss)) in
    let b = read_all syscall_id_of (parts_of selectors) in
    let join_ids = λ (ids : List ℕ).
      and_then (parse_trace_selectors selectors) (λ more. ok (add_all more ids)) in
    let add_ids =
      λ (o : Option (List ℕ)) (ids : List ℕ). bind o (λ more. some (add_all more ids)) in
    let code =
      value_of-and_then (parse_trace_expressions expressions) join_ids
      ∙ (λ i. bind (value_of (parse_trace_expressions expressions)) λ ids.
          value_of-and_then (parse_trace_selectors selectors) (λ more. ok (add_all more ids)) i)
      ∙ (λ i.
          bind (expressions_loop-fold expressions [] i)
            (add_ids (selectors_loop-fold selectors [] i)))
      ∙ ap (λ o. bind o (add_ids (bind b (λ ys. some (fold add ys [])))))
          (sym (bind_assoc (read_all selector_text expressions) _ _)) in
    let spec =
      bind_assoc (read_all selector_text expressions) _
        (λ found. bind b (λ more. some (found ++ more))) in
    subst (λ o. Same o (named expressions selectors)) (sym code)
      (subst (Same _) spec (joined-Same a b))
