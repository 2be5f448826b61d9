-- ===== src/Cli.antt =====
-- internal/cli/parse.go: from the options, as the flag package leaves them, to the configuration.
pub mod Values
pub mod Options
pub mod Attach
pub mod Selectors
pub mod Named
pub mod Mode
pub mod Loaded
use litrace.Prelude.{
  ℕ, List, [], ◌∷◌, ◌++◌, Bool, true, false, not, ◌&&◌, Option, none, some, ◌==◌, if◌then◌else◌,
}
use litrace.Types.{is_positive}
use litrace.FilePath.{is_abs, clean, join as join_paths}
use litrace.Text.{codes, split, has_byte, cut_prefix, atoi}
use litrace.Names.{syscall_id_of}
use litrace.PathFilter.{is_empty}
use litrace.PathFilter.Dict.{contains, add}
use litrace.PathFilter.Config.{Config, add_all}

-- The errors, with the texts that their messages quote. The messages of -e and --trace differ in the
-- option's name alone, which is left out. The flag package's own errors are its own.
pub data CliError : Type 0 where
  bad_flags : CliError
  empty_pid_list empty_pid bad_pid : List ℕ → CliError
  empty_path no_abs_path : List ℕ → CliError
  not_a_trace empty_selector empty_name unknown_syscall : List ℕ → CliError
  program_with_attach usage : CliError
  program_not_found : List ℕ → CliError

-- A value and an error, of which Go's functions return one.
pub data Result (A : Type 0) : Type 0 where
  ok : A → Result A
  err : CliError → Result A

-- `if err != nil { return …, err }`
abbrev pub and_then : {A B : Type 0} → Result A → (A → Result B) → Result B
and_then (ok a) f = f a
and_then (err e) f = err e

-- The comma between the parts of a list.
abbrev pub comma : ℕ
comma = 44

-- One PID, for the set `seen` and the list `pids`.
unfoldable pub attach_pid : List ℕ → Option ℕ → List ℕ × List ℕ → Result (List ℕ × List ℕ)
attach_pid token none (seen, pids) = err (bad_pid token)
attach_pid token (some pid) (seen, pids) =
    if is_positive pid
    then ok (if contains pid seen then (seen, pids) else (add pid seen, pids ++ pid ∷ []))
    else err (bad_pid token)

unfoldable pub attach_token : List ℕ → List ℕ → List ℕ × List ℕ → Result (List ℕ × List ℕ)
attach_token expression token s =
    if is_empty token then err (empty_pid expression) else attach_pid token (atoi token) s

unfoldable pub attach_tokens : List ℕ → List (List ℕ) → List ℕ × List ℕ → Result (List ℕ × List ℕ)
attach_tokens expression [] s = ok s
attach_tokens expression (token ∷ tokens) s =
    and_then (attach_token expression token s) (attach_tokens expression tokens)

unfoldable pub attach_loop : List (List ℕ) → List ℕ × List ℕ → Result (List ℕ × List ℕ)
attach_loop [] s = ok s
attach_loop (expression ∷ expressions) s =
    if is_empty expression
    then err (empty_pid_list expression)
    else and_then (attach_tokens expression (split comma expression) s) (attach_loop expressions)

-- parseAttachExpressions
unfoldable pub parse_attach_expressions : List (List ℕ) → Result (List ℕ)
parse_attach_expressions expressions =
    and_then (attach_loop expressions ([], [])) (λ (s : List ℕ × List ℕ). ok s.1)

-- filepath.Abs, which asks os.Getwd for a path that is not absolute.
unfoldable pub absolute : Option (List ℕ) → List ℕ → Option (List ℕ)
absolute getwd path =
    if is_abs path
    then some (clean path)
    else elim getwd [ none ↦ none | some wd ↦ some (join_paths wd path) ]

unfoldable pub trace_path : Option (List ℕ) → List ℕ → Result (List ℕ)
trace_path getwd path =
    if is_empty path
    then err (empty_path path)
    else elim (absolute getwd path) [ none ↦ err (no_abs_path path) | some abs ↦ ok (clean abs) ]

-- parseTracePaths
unfoldable pub parse_trace_paths : Option (List ℕ) → List (List ℕ) → Result (List (List ℕ))
parse_trace_paths getwd [] = ok []
parse_trace_paths getwd (path ∷ paths) =
    and_then (trace_path getwd path)
      (λ abs. and_then (parse_trace_paths getwd paths) (λ normalized. ok (abs ∷ normalized)))

-- One name of a selector, for the set `ids`; `quoted` is what the messages quote.
unfoldable pub select_name : List ℕ → List ℕ → List ℕ → Result (List ℕ)
select_name quoted name ids =
    if is_empty name
    then err (empty_name quoted)
    else elim (syscall_id_of name) [ none ↦ err (unknown_syscall name) | some id ↦ ok (add id ids) ]

unfoldable pub select_names : List ℕ → List (List ℕ) → List ℕ → Result (List ℕ)
select_names quoted [] ids = ok ids
select_names quoted (name ∷ names) ids =
    and_then (select_name quoted name ids) (select_names quoted names)

unfoldable pub select : List ℕ → List ℕ → List ℕ → Result (List ℕ)
select quoted selector ids =
    if is_empty selector
    then err (empty_selector quoted)
    else select_names quoted (split comma selector) ids

-- The selector of a -e expression.
unfoldable pub selector_of : List ℕ → Result (List ℕ)
selector_of expression = elim (cut_prefix (codes "trace=") expression) [
  | some selector ↦ ok selector
  | none ↦ if has_byte 61 expression then err (not_a_trace expression) else ok expression
]

unfoldable pub expressions_loop : List (List ℕ) → List ℕ → Result (List ℕ)
expressions_loop [] ids = ok ids
expressions_loop (expression ∷ expressions) ids =
    and_then (selector_of expression)
      (λ selector. and_then (select expression selector ids) (expressions_loop expressions))

-- parseTraceExpressions
unfoldable pub parse_trace_expressions : List (List ℕ) → Result (List ℕ)
parse_trace_expressions expressions = expressions_loop expressions []

unfoldable pub selectors_loop : List (List ℕ) → List ℕ → Result (List ℕ)
selectors_loop [] ids = ok ids
selectors_loop (selector ∷ selectors) ids =
    and_then (select selector selector ids) (selectors_loop selectors)

-- parseTraceSelectors
unfoldable pub parse_trace_selectors : List (List ℕ) → Result (List ℕ)
parse_trace_selectors selectors = selectors_loop selectors []

-- parseTraceIDs
unfoldable pub parse_trace_ids : List (List ℕ) → List (List ℕ) → Result (List ℕ)
parse_trace_ids expressions selectors = and_then (parse_trace_expressions expressions) (λ ids.
    and_then (parse_trace_selectors selectors) (λ selector_ids. ok (add_all selector_ids ids)))

-- What the flag package leaves of the command line: the options, and the arguments behind them.
pub record ParsedFlags : Type 0 where
  pub trace_expressions : List (List ℕ)
  pub trace_selectors : List (List ℕ)
  pub attach_expressions : List (List ℕ)
  pub trace_paths : List (List ℕ)
  pub follow_forks : Bool
  pub summary_only : Bool
  pub output : List ℕ
  pub args : List (List ℕ)

-- The whole of Config; `filters` is the part that concerns the filters.
pub record CliConfig : Type 0 where
  pub trace_output_path : List ℕ
  pub summary_only : Bool
  pub filters : Config
  pub attach_pids : List ℕ
  pub program_name : List ℕ
  pub program_path : List ℕ
  pub program_args : List (List ℕ)

-- From `args = fs.Args()` on: a program, or the processes to attach to, never both.
unfoldable pub choose_mode :
    (List ℕ → Option (List ℕ)) → List (List ℕ) → CliConfig → Result CliConfig
choose_mode look_path [] cfg = if is_empty cfg.attach_pids then err usage else ok cfg
choose_mode look_path (name ∷ args) cfg =
    if is_empty cfg.attach_pids
    then (elim (look_path name) [
      | none ↦ err (program_not_found name)
      | some path ↦
          ok (record cfg { program_name = name; program_path = path; program_args = args })
    ])
    else err program_with_attach

-- ParseArgs; exec.LookPath, os.Getwd and what the flag package makes of the arguments are parameters.
unfoldable pub parse_args :
    (List ℕ → Option (List ℕ)) → Option (List ℕ) → Option ParsedFlags → Result CliConfig
parse_args look_path getwd none = err bad_flags
parse_args look_path getwd (some flags) =
    and_then (parse_trace_ids flags.trace_expressions flags.trace_selectors) λ ids.
      and_then (parse_attach_expressions flags.attach_expressions) λ attach_pids.
        and_then (parse_trace_paths getwd flags.trace_paths) λ trace_paths.
          choose_mode look_path flags.args (record {
            trace_output_path = flags.output;
            summary_only = flags.summary_only;
            filters = record {
              trace_paths = trace_paths;
              trace_syscall_ids = ids;
              follow_forks = flags.follow_forks;
            };
            attach_pids = attach_pids;
            program_name = [];
            program_path = [];
            program_args = [];
          })
