-- ===== src/Cli/Loaded.antt =====
-- From the options to the programs: which system calls pass the filter that internal/bpf/handle.go
-- loads for what internal/cli/parse.go selected.
use litrace.Prelude.{
  ℕ, ◌<◌, ◌^◌, ◌≡◌, ◌↔◌, refl, sym, ◌∙◌, ap, arith, List, [], ◌∷◌, ◌++◌, Bool, true, false, Option,
  none, some, Option-cases, Bool-cases, inl, inr,
}
use mathlib.Core.Path.{subst}
use litrace.Types.{u32}
use litrace.Maps.{Map}
use litrace.Decode.Reads.{All}
use litrace.Names.{syscall_name}
use litrace.Names.Distinct.{id_to_name-IsU32}
use litrace.Tracer.State.{Env}
use litrace.Tracer.Invariant.{Chosen}
use litrace.Handle.{HandleConfig, IsPut, put_all, load, apply_config}
use litrace.PathFilter.{is_empty}
use litrace.PathFilter.Dict.{contains}
use litrace.PathFilter.Config.{handle_trace_syscall_ids}
use litrace.PathFilter.Config.Complete.{put_targets-env, apply_config-Chosen}
use litrace.Cli.{ok, parse_trace_ids}
use litrace.Cli.Options.{listed, options}
use litrace.Cli.Values.{value_of}
use litrace.Cli.Selectors.{contains-append, Same}
use litrace.Cli.Named.{IsNamed, with_trace, parse_trace_ids-names}

-- Every number of the set is a u32.
Small : List ℕ → Type 0
Small ids = (j : ℕ) → contains j ids ≡ true → j < 2 ^ 32

module _ (put : ℕ → ℕ → Map ℕ → Option (Map ℕ)) (law : IsPut put) where
  put_all-only :
      (ids : List ℕ) (m n : Map ℕ) (k : ℕ)
      → Small ids
      → put_all put ids m ≡ some n
      → contains k ids ≡ false
      → n k ≡ m k
  unfolding put_all contains Small
  put_all-only [] m n k small_ done out = cc
  put_all-only (id ∷ ids) m n k small_ done out = elim (Option-cases (put (u32 id) 1 m)) [
    | inl failed ↦ absurd (ground arith)
    | inr (next, put_) ↦
        let here : id < 2 ^ 32 = small_ id (ground arith) in
        let later =
          put_all-only ids next n k (λ j inside. small_ j (ground arith)) (ground arith)
            (ground arith) in
        later ∙ ground (arith, law.lookup_put (u32 id) 1 k m next put_)
  ]

  apply_config-only :
      (env loaded : Env) (tgids : List ℕ) (targets : Map ℕ) (cfg : HandleConfig) (id : ℕ)
      → Small cfg.trace_syscall_ids
      → apply_config put env tgids cfg ≡ some (loaded, targets)
      → is_empty cfg.trace_syscall_ids ≡ false
      → contains id cfg.trace_syscall_ids ≡ false
      → id < 2 ^ 32
      → ¬ Chosen loaded id
  unfolding apply_config load
  apply_config-only env loaded tgids targets cfg id small_ done some_ out lt chosen =
      elim (Option-cases (put_all put cfg.trace_syscall_ids (λ _. none))) [
        | inl failed ↦ absurd (ground arith)
        | inr (filter, filled) ↦
            let same =
              put_targets-env put law tgids (load env cfg filter) loaded targets (ground arith) in
            let nothing : filter id ≡ none =
              put_all-only cfg.trace_syscall_ids (λ _. none) filter id small_ filled out in
            let enabled : loaded.trace_filter_enabled ≡ 1 =
              ap (λ (e : Env). e.trace_filter_enabled) same ∙ ground arith in
            let kept : loaded.trace_syscall_filter (u32 id) ≡ none =
              ap (λ (e : Env). e.trace_syscall_filter (u32 id)) same
              ∙ ap filter (omega arith)
              ∙ nothing in
            elim chosen [ inl off ↦ absurd (omega arith) | inr (v, present) ↦ absurd (cc) ]
      ]

named-Small : (ids : List ℕ) → All IsNamed ids → Small ids
unfolding Small All contains
named-Small [] h j inside = cc
named-Small (id ∷ ids) ((name, found), later) j inside =
    ground (arith, id_to_name-IsU32 id name found, named-Small ids later j)

append-Small : (xs ys : List ℕ) → Small xs → Small ys → Small (xs ++ ys)
unfolding Small
append-Small xs ys a b j inside = ground (arith, contains-append j xs ys, a j, b j)

-- A set with the same members is as empty.
same_empty :
    (ids xs : List ℕ)
    → ((id : ℕ) → contains id ids ≡ contains id xs)
    → is_empty xs ≡ false
    → is_empty ids ≡ false
unfolding contains
same_empty [] [] same some_ = some_
same_empty [] (x ∷ xs) same some_ = ground (arith, same x)
same_empty (id ∷ ids) xs same some_ = refl

-- If -e expressions, with or without `trace=`, and --trace selectors name system calls, joined by
-- commas, at least one is named, and no path is given: once the programs are loaded with what the
-- command line selects, their filter lets a system call, whose number is a u32, through exactly if it
-- is named.
pub parse_trace_ids-Chosen :
    (put : ℕ → ℕ → Map ℕ → Option (Map ℕ)) (bare : List Bool) (es ss : List (ℕ × List ℕ))
    (ids : List ℕ) (follow_forks : Bool) (env loaded : Env) (tgids : List ℕ) (targets : Map ℕ)
    (id : ℕ)
    → IsPut put
    → All IsNamed (listed es)
    → All IsNamed (listed ss)
    → is_empty (listed es ++ listed ss) ≡ false
    → parse_trace_ids (with_trace bare (options syscall_name es)) (options syscall_name ss) ≡ ok ids
    → apply_config put env tgids (record {
      follow_forks = follow_forks;
      trace_syscall_ids =
          handle_trace_syscall_ids
            (record { trace_paths = []; trace_syscall_ids = ids; follow_forks = follow_forks });
    })
      ≡ some (loaded, targets)
    → id < 2 ^ 32
    → Chosen loaded id ↔ (contains id (listed es ++ listed ss) ≡ true)
unfolding value_of handle_trace_syscall_ids Small
parse_trace_ids-Chosen put bare es ss ids follow_forks env loaded tgids targets id law e_ s_ some_
      parsed done lt =
    let xs = listed es ++ listed ss in
    let same : (j : ℕ) → contains j ids ≡ contains j xs =
      subst (λ r. Same (value_of r) (some xs)) parsed (parse_trace_ids-names bare es ss e_ s_) in
    let cfg : HandleConfig = record { follow_forks = follow_forks; trace_syscall_ids = ids } in
    let given = same_empty ids xs same some_ in
    let small_ : Small ids = λ j inside.
      append-Small (listed es) (listed ss) (named-Small _ e_) (named-Small _ s_) j
        (sym (same j) ∙ inside) in
    (
      λ chosen. elim (Bool-cases (contains id ids)) [
        | inl inside ↦ sym (same id) ∙ inside
        | inr out ↦ absurd (
            apply_config-only put law env loaded tgids targets cfg id small_ done given out lt
              chosen)
      ],
      λ inside.
          apply_config-Chosen put law env loaded tgids targets cfg id done
            (rw (given, same id ∙ inside) refl),
    )
